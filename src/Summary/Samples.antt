-- ===== src/Summary/Samples.antt =====
-- The counters of the summary (scripts/export_summary_table.py, the loop over the rows).
use scheduler_simulator.Prelude.{
  ◌≡◌, refl, ap, List, [], ◌∷◌, Dict, ℕ, suc, ◌+◌, length, arith, pos_part, Text, lookup,
}
use scheduler_simulator.Analysis.Cells.{Floats, CsvRow, Row, column, int_in}
use scheduler_simulator.Analysis.Grouping.{adjust, sorted_items}
use scheduler_simulator.Analysis.Grouping.Tally.{counted, counted-adjust, counted-sorted_items}
use scheduler_simulator.Summary.{
  SlotKey, Slot, same_slot, key_lt, row_experiments, slot_key, empty_slot, add_row, add_experiments,
  add_rows, aggregate, out_row, out_rows_of, out_rows,
}

abbrev pub in_slots : {F : Type 0} → Dict SlotKey (Slot F) → ℕ
in_slots d = counted (λ slot. slot.n) d

-- The sum of the column Samples.
abbrev pub samples : {F : Type 0} → List (Row F) → ℕ
samples [] = 0
samples (row ∷ rows) = pos_part (int_in (column "Samples" row)) + samples rows

-- The experiments of all rows.
unfoldable pub memberships : List CsvRow → ℕ
memberships [] = 0
memberships (row ∷ rows) = length (row_experiments row) + memberships rows

module _ {F : Type 0} (A : Floats F) where
  in_slots-adjust :
      (row : CsvRow) (exp_id : Text) (d : Dict SlotKey (Slot F))
      → in_slots (adjust same_slot (slot_key row exp_id) (empty_slot A) (add_row A row) d)
        ≡ suc (in_slots d)
  unfolding add_row
  in_slots-adjust row exp_id d =
      counted-adjust (λ slot. slot.n) same_slot (empty_slot A) (add_row A row) refl
        (λ v. omega arith) (slot_key row exp_id) d

  in_slots-add_experiments :
      (row : CsvRow) (exp_ids : List Text) (d : Dict SlotKey (Slot F))
      → in_slots (add_experiments A row exp_ids d) ≡ in_slots d + length exp_ids
  unfolding add_experiments
  in_slots-add_experiments row [] d = omega arith
  in_slots-add_experiments row (exp_id ∷ exp_ids) d =
      let next = adjust same_slot (slot_key row exp_id) (empty_slot A) (add_row A row) d in
      omega (arith, in_slots-add_experiments row exp_ids next, in_slots-adjust row exp_id d)

  in_slots-add_rows :
      (rows : List CsvRow) (d : Dict SlotKey (Slot F))
      → in_slots (add_rows A rows d) ≡ in_slots d + memberships rows
  unfolding add_rows memberships
  in_slots-add_rows [] d = omega arith
  in_slots-add_rows (row ∷ rows) d = omega (
    arith,
    in_slots-add_experiments row (row_experiments row) d,
    in_slots-add_rows rows (add_experiments A row (row_experiments row) d),
  )

  samples-out_rows_of : (d : Dict SlotKey (Slot F)) → samples (out_rows_of A d) ≡ in_slots d
  unfolding out_rows_of out_row column lookup
  samples-out_rows_of [] = refl
  samples-out_rows_of ((key, vals) ∷ d) = ap (λ m. vals.n + m) (samples-out_rows_of d)

  -- The Samples of the summary add up to the experiments of all rows, each counted for each row.
  pub out_rows-samples : (rows : List CsvRow) → samples (out_rows A rows) ≡ memberships rows
  unfolding out_rows aggregate
  out_rows-samples rows = omega (
    arith,
    samples-out_rows_of (sorted_items key_lt (aggregate A rows)),
    counted-sorted_items (λ slot. slot.n) key_lt (aggregate A rows),
    in_slots-add_rows rows [],
  )
