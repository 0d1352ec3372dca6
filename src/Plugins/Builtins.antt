-- ===== src/Plugins/Builtins.antt =====
-- benchmark/plugins/builtins.py: the entries that every registry starts with, in the order in which
-- they are registered. A registration that raises ends the function.
use scheduler_simulator.Prelude.{
  Bool, true, false, Option, none, some, List, [], ◌∷◌, String, codes, map,
}
use scheduler_simulator.Plugins.Table.{Plugin, RegisterError}
use scheduler_simulator.Plugins.Registry.{Registry, register_scheduler, register_workload}

plugin : (key display_name description : String) → List String → Bool → Plugin
plugin key display_name description aliases is_meta = record {
  key = codes key;
  cli_token = codes key;
  display_name = codes display_name;
  description = codes description;
  aliases = map codes aliases;
  is_meta = is_meta;
}

unfoldable pub builtin_schedulers : List Plugin
unfolding plugin
builtin_schedulers =
    plugin "cfs" "CFS" "Linux-like Completely Fair Scheduler." ("CFS" ∷ []) false
    ∷ plugin "eevdf" "EEVDF" "Earliest Eligible Virtual Deadline First." ("EEVDF" ∷ []) false
    ∷ plugin "mlfq" "MLFQ" "Multi-Level Feedback Queue scheduler." ("MLFQ" ∷ []) false
    ∷ plugin "stride" "Stride" "Deterministic proportional-share scheduler." ("Stride" ∷ []) false
    ∷ plugin "all" "All Schedulers"
        "Meta selector to run all registered schedulers in the simulator binary." [] true
    ∷ []

unfoldable pub builtin_workloads : List Plugin
unfolding plugin
builtin_workloads =
    plugin "server" "Server" "Synthetic server-like workload with varied service times."
      ("Server" ∷ []) false
    ∷ plugin "desktop" "Desktop" "Synthetic desktop-like interactive workload." ("Desktop" ∷ [])
        false
    ∷ plugin "google" "GoogleTraceV3" "Trace-replay workload based on Google cluster trace v3."
        ("GoogleTraceV3" ∷ "googletracev3" ∷ []) false
    ∷ plugin "alibaba" "AlibabaTraceV2018" "Trace-replay workload based on Alibaba 2018 trace."
        ("AlibabaTraceV2018" ∷ "alibabatracev2018" ∷ []) false
    ∷ plugin "all" "All Workloads"
        "Meta selector to run all registered workloads in the simulator binary." [] true
    ∷ []

-- One registration after the other, up to the first that raises.
unfoldable pub register_all :
    (Plugin → Registry → Registry × Option RegisterError)
    → List Plugin
    → Registry
    → Registry × Option RegisterError
register_all register [] r = (r, none)
register_all register (p ∷ ps) r =
    let (r', raised) = register p r in
    elim raised [ none ↦ register_all register ps r' | some e ↦ (r', some e) ]

unfoldable pub register_builtin_plugins : Registry → Registry × Option RegisterError
register_builtin_plugins r =
    let (r', raised) = register_all register_scheduler builtin_schedulers r in
    elim raised [
      | none ↦ register_all register_workload builtin_workloads r'
      | some e ↦ (r', some e)
    ]
