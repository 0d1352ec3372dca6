-- ===== src/Analysis/Quality.antt =====
-- scripts/aggregate_results.py, the checks of the loop over the metrics files that fill
-- quality_checks.csv: missing cells, low completion ratios and values that a log scale cannot show.
pub mod Complete
use scheduler_simulator.Prelude.{
  ◌&&◌, List, [], ◌∷◌, ◌++◌, String, Text, codes, if◌then◌else◌, Option, none, some, is_empty,
  strip,
}
use scheduler_simulator.Analysis.Cells.{
  Floats, CsvRow, Cell, float_cell, text_of, word_cell, Row, text_cell, shown, column, float_in,
}
use scheduler_simulator.Analysis.Metrics.{RunInfo, metrics_row}

abbrev pub required_text : List String
required_text =
    "BenchmarkVersion" ∷ "SchemaVersion" ∷ "SuiteId" ∷ "RunId" ∷ "Scheduler" ∷ "Workload"
    ∷ "Topology" ∷ []

abbrev pub required_numeric : List String
required_numeric =
    "Completed" ∷ "CompletionRatio" ∷ "MeanRT" ∷ "P99RT" ∷ "Throughput" ∷ "JainsFairness"
    ∷ "ContextSwitches" ∷ "Preemptions" ∷ []

abbrev pub log_metrics : List String
log_metrics = "MeanRT" ∷ "P99RT" ∷ "ContextSwitchesPerTask" ∷ []

-- str(raw.get(k, "")).strip()
unfoldable pub stripped_cell : String → CsvRow → Text
stripped_cell k raw = strip (shown (text_cell k raw))

-- What an issue says of the line it is about.
pub record Subject : Type 0 where
  pub suite_id : Text
  pub run_id : Text
  pub source_file : Text
  pub scheduler : Option Text
  pub workload : Option Text

abbrev pub subject : RunInfo → CsvRow → Subject
subject info raw = record {
  suite_id = info.suite_id;
  run_id = info.run_id;
  source_file = info.source_file;
  scheduler = text_cell "Scheduler" raw;
  workload = text_cell "Workload" raw;
}

module _ {F : Type 0} where
  -- The row that add_quality_issue appends.
  unfoldable pub add_quality_issue :
      (check_type severity : String)
      → Subject
      → (metric : String) (value : Cell F) (threshold : String) (message : Text) → Row F
  add_quality_issue check_type severity s metric value threshold message =
      ("CheckType", word_cell (codes check_type))
      ∷ ("Severity", word_cell (codes severity))
      ∷ ("SuiteId", word_cell s.suite_id)
      ∷ ("RunId", word_cell s.run_id)
      ∷ ("SourceFile", word_cell s.source_file)
      ∷ ("Scheduler", text_of s.scheduler)
      ∷ ("Workload", text_of s.workload)
      ∷ ("Metric", word_cell (codes metric))
      ∷ ("Value", value)
      ∷ ("Threshold", word_cell (codes threshold))
      ∷ ("Message", word_cell message)
      ∷ []

  -- The check of one required text.
  unfoldable pub missing_text : Subject → CsvRow → String → List (Row F)
  missing_text s raw col =
      if is_empty (stripped_cell col raw)
      then add_quality_issue "missing_cell" "ERROR" s col (word_cell []) "required_non_empty"
          (codes "Missing required text field: " ++ codes col)
        ∷ []
      else []

module _ {F : Type 0} (A : Floats F) where
  open A use {parse, lt, hundredth, tenth, is_finite, runtime}
  open runtime use {float_zero}

  -- The check of one required number.
  unfoldable pub missing_number : Subject → CsvRow → String → List (Row F)
  missing_number s raw col =
      let raw_val = stripped_cell col raw in
      if is_empty raw_val
      then add_quality_issue "missing_cell" "ERROR" s col (word_cell []) "required_numeric"
          (codes "Missing required numeric field: " ++ codes col)
        ∷ []
      else elim (parse raw_val) [
        | some x ↦ []
        | none ↦
            add_quality_issue "missing_cell" "ERROR" s col (word_cell raw_val) "required_numeric"
              (codes "Invalid numeric value in " ++ codes col)
            ∷ []
      ]

  abbrev pub for_columns : (String → List (Row F)) → List String → List (Row F)
  for_columns test [] = []
  for_columns test (col ∷ cols) = test col ++ for_columns test cols

  unfoldable pub missing_cells : Subject → CsvRow → List (Row F)
  missing_cells s raw =
      for_columns (missing_text s raw) required_text
      ++ for_columns (missing_number s raw) required_numeric

  unfoldable pub low_completion : Subject → Row F → List (Row F)
  low_completion s row =
      let completion = float_in A (column "CompletionRatio" row) in
      if lt completion hundredth
      then add_quality_issue "low_completion_ratio" "WARN" s "CompletionRatio"
          (float_cell completion) "<0.01"
          (codes "Extremely low completion ratio; latency/overhead can be unstable.")
        ∷ []
      else if lt completion tenth
      then add_quality_issue "low_completion_ratio" "INFO" s "CompletionRatio"
          (float_cell completion) "<0.10"
          (codes "Low completion ratio; interpret aggregate metrics with caution.")
        ∷ []
      else []

  unfoldable pub log_scale : Subject → Row F → String → List (Row F)
  log_scale s row metric_name =
      let value = float_in A (column metric_name row) in
      if is_finite value && lt float_zero value
      then []
      else add_quality_issue "invalid_log_scale_candidate" "WARN" s metric_name (float_cell value)
          ">0" (codes "Value is non-positive or invalid for log-scale plotting.")
        ∷ []

  -- What one line of a metrics file adds to the issues.
  unfoldable pub row_issues : RunInfo → CsvRow → List (Row F)
  row_issues info raw =
      let s = subject info raw in
      let row = metrics_row A info raw in
      missing_cells s raw ++ (low_completion s row ++ for_columns (log_scale s row) log_metrics)

  unfoldable pub file_issues : RunInfo → List CsvRow → List (Row F)
  file_issues info [] = []
  file_issues info (raw ∷ raw_rows) = row_issues info raw ++ file_issues info raw_rows

abbrev pub quality_fields : List String
quality_fields =
    "CheckType" ∷ "Severity" ∷ "SuiteId" ∷ "RunId" ∷ "SourceFile" ∷ "Scheduler" ∷ "Workload"
    ∷ "Metric" ∷ "Value" ∷ "Threshold" ∷ "Message" ∷ []
