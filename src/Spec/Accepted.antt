-- ===== src/Spec/Accepted.antt =====
-- A run that the specification validator accepts is accepted by the suite runner.
use scheduler_simulator.Prelude.{
  on_if, Option, none, some, Text, pos, ◌⊎◌, ◌≡◌, refl, sym, ◌∙◌, ap, true, false, [], ◌∷◌, String,
  lower, contains, text_eq, text_eq→eq, codes, Bool-cases, inl, inr, if◌then◌else◌,
}
use scheduler_simulator.Python.{
  ◌>>=◌, key_error, int, float, ok, check, value_error, Value, text, dict, Runtime, get_or, index,
  has_key, is_text, member_of, to_text, to_float, on_ok, ok-injective, check-eq-ok, default_to,
  find_field, require,
}
use scheduler_simulator.Plugins.Registry.{Registry}
use scheduler_simulator.Suite.Validate.{
  valid_topologies, valid_balancers, require_keys, check_at_least_one, check_workload,
  check_balancer, validate_run,
}
use scheduler_simulator.Spec.{run_keys, validate_balancer, validate_spec_run}

module _ {F : Type 0} (R : Runtime F) where
  index-get_or : (k : String) (run d v : Value F) → index k run ≡ ok v → get_or k run d ≡ ok v
  unfolding index get_or
  index-get_or k (dict fs) d v h = go (find_field k fs) h
    where
      go : (o : Option (Value F)) → require key_error o ≡ ok v → ok (default_to o d) ≡ ok v
      go none e = absurd (cc)
      go (some w) e = e
  index-get_or k _ d v h = absurd (cc)

  member_of-text :
      (a b : Text) (v : Value F) → member_of (a ∷ b ∷ []) v ≡ ok true → (v ≡ text a) ⊎ (v ≡ text b)
  unfolding member_of
  member_of-text a b (text t) h = elim (Bool-cases (text_eq t a)) [
    | inl hit ↦ inl (ap text (text_eq→eq t a hit))
    | inr miss ↦ elim (Bool-cases (text_eq t b)) [
      | inl hit ↦ inr (ap text (text_eq→eq t b hit))
      | inr miss' ↦ absurd (not_true (ok-injective (sym h ∙ rw (miss, miss') refl)))
    ]
  ]
    where
      not_true : ¬ (true ≡ false)
      not_true p = cc
  member_of-text a b _ h = absurd (cc)

  -- A known topology is known after `str` and `lower`, and is "mq" then only if it was before.
  topology-lower :
      (v : Value F)
      → member_of valid_topologies v ≡ ok true
      → (contains valid_topologies (lower (to_text R v)) ≡ true)
        × (text_eq (lower (to_text R v)) (codes "mq") ≡ is_text "mq" v)
  unfolding to_text lower text_eq
  topology-lower v h = elim (member_of-text (codes "sq") (codes "mq") v h) [
    | inl sq ↦ rw sq (refl, refl)
    | inr mq ↦ rw mq (refl, refl)
  ]

  balancer-lower :
      (v : Value F)
      → member_of valid_balancers v ≡ ok true
      → contains valid_balancers (lower (to_text R v)) ≡ true
  unfolding to_text lower text_eq
  balancer-lower v h = elim (member_of-text (codes "rr") (codes "leastloaded") v h) [
    | inl rr ↦ rw rr refl
    | inr least ↦ rw least refl
  ]

  validate_balancer-accepted :
      (run : Value F) {u : Unit {0}}
      → validate_balancer run ≡ ok u
      → (get_or "balancer" run (text []) >>= λ b.
          check (contains valid_balancers (lower (to_text R b))) value_error)
        ≡ ok tt
  unfolding validate_balancer
  validate_balancer-accepted run h = on_ok (has_key "balancer" run) _ h λ given _ h1.
      on_ok (check given value_error) _ h1 λ _ _ h2.
        on_ok (index "balancer" run) _ h2 λ balancer e3 h3.
          on_ok (member_of valid_balancers balancer) _ h3 λ known e4 h4.
            on_ok (check known value_error) _ h4 λ _ e5 h5.
              rw
                (
                  index-get_or "balancer" run (text []) balancer e3,
                  balancer-lower balancer (e4 ∙ ap ok (check-eq-ok known value_error e5)),
                )
                refl

  module _ (registry : Registry) where
    balancer_for-accepted :
        (topology run : Value F) {u : Unit {0}}
        → text_eq (lower (to_text R topology)) (codes "mq") ≡ is_text "mq" topology
        → (if is_text "mq" topology then validate_balancer run else ok tt) ≡ ok u
        → check_balancer R registry (lower (to_text R topology)) run ≡ ok tt
    unfolding check_balancer
    balancer_for-accepted topology run same h =
        on_if (is_text "mq" topology) _ _ h
          (λ mq accepted. rw (same, mq) (validate_balancer-accepted run accepted))
          (λ sq _. rw (same, sq) refl)

    -- A run that the specification validator accepts, the suite runner accepts.
    pub validate_spec_run-accepted :
        (run : Value F) {u : Unit {0}}
        → validate_spec_run R registry run ≡ ok u
        → validate_run R registry run ≡ ok tt
    unfolding validate_spec_run validate_run
    validate_spec_run-accepted run h = on_ok (require_keys run_keys run) _ h λ _ _ h1.
        on_ok (index "workload" run) _ h1 λ workload e2 h2.
          on_ok (check_workload R registry workload) _ h2 λ _ e3 h3.
            on_ok (index "cores" run) _ h3 λ cores e4 h4.
              on_ok (check_at_least_one R registry cores) _ h4 λ _ e5 h5.
                on_ok (index "num_tasks" run) _ h5 λ num_tasks e6 h6.
                  on_ok (check_at_least_one R registry num_tasks) _ h6 λ _ e7 h7.
                    on_ok (index "stop_time" run) _ h7 λ stop e8 h8.
                      on_ok (to_float R stop) _ h8 λ stop_time e9 h9.
                        on_ok (check (R.positive stop_time) value_error) _ h9 λ _ e10 h10.
                          on_ok (index "topology" run) _ h10 λ topology e11 h11.
                            on_ok (member_of valid_topologies topology) _ h11 λ known e12 h12.
                              on_ok (check known value_error) _ h12 λ _ e13 h13.
                                on_ok
                                  (if is_text "mq" topology then validate_balancer run else ok tt) _
                                  h13
                                  λ _ e14 h14.
                                    let (fine, same) =
                                      topology-lower topology
                                        (e12 ∙ ap ok (check-eq-ok known value_error e13)) in
                                    rw
                                      (
                                        index-get_or "workload" run (text []) workload e2,
                                        e3,
                                        index-get_or "cores" run (int (pos 0)) cores e4,
                                        e5,
                                        index-get_or "num_tasks" run (int (pos 0)) num_tasks e6,
                                        e7,
                                        index-get_or "stop_time" run (float R.float_zero) stop e8,
                                        e9,
                                        e10,
                                        index-get_or "topology" run (text []) topology e11,
                                        fine,
                                      )
                                      (rw (balancer_for-accepted topology run same e14) h14)
