-- ===== src/Tests/Spec.antt =====
-- The specification validator at a run of the sample suite.
use scheduler_simulator.Prelude.{◌≡◌, refl}
use scheduler_simulator.Python.{ok}
use scheduler_simulator.Suite.Validate.{validate_run}
use scheduler_simulator.Spec.{validate_balancer, validate_spec_run}
use scheduler_simulator.Spec.Accepted.{validate_spec_run-accepted}
use scheduler_simulator.Tests.Samples.{program, whole, built_in, balanced_run}

spec_accepts : validate_spec_run whole built_in balanced_run ≡ ok tt
unfolding program validate_spec_run validate_balancer
spec_accepts = refl

validate_spec_run-accepted_example : validate_run whole built_in balanced_run ≡ ok tt
validate_spec_run-accepted_example =
    validate_spec_run-accepted whole built_in balanced_run spec_accepts
