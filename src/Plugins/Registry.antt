-- ===== src/Plugins/Registry.antt =====
-- The class `BenchmarkPluginRegistry` of benchmark/plugins/registry.py: one table for the schedulers
-- and one for the workloads.
use scheduler_simulator.Prelude.{Option, List, Text}
use scheduler_simulator.Plugins.Table.{
  Plugin, PluginTable, RegisterError, empty_table, register, resolve, plugin_keys, help_tokens,
}

pub record Registry : Type 0 where
  pub schedulers : PluginTable
  pub workloads : PluginTable

-- `__init__`
abbrev pub new_registry : Registry
new_registry = record { schedulers = empty_table; workloads = empty_table }

unfoldable pub register_scheduler : Plugin → Registry → Registry × Option RegisterError
register_scheduler p r =
    let (t, raised) = register p r.schedulers in (record r { schedulers = t }, raised)

unfoldable pub register_workload : Plugin → Registry → Registry × Option RegisterError
register_workload p r =
    let (t, raised) = register p r.workloads in (record r { workloads = t }, raised)

unfoldable pub resolve_scheduler : Registry → Text → Option Plugin
resolve_scheduler r value = resolve value r.schedulers

unfoldable pub resolve_workload : Registry → Text → Option Plugin
resolve_workload r value = resolve value r.workloads

unfoldable pub scheduler_keys : Registry → List Text
scheduler_keys r = plugin_keys r.schedulers

unfoldable pub workload_keys : Registry → List Text
workload_keys r = plugin_keys r.workloads

unfoldable pub scheduler_help_tokens : Registry → List Text
scheduler_help_tokens r = help_tokens r.schedulers

unfoldable pub workload_help_tokens : Registry → List Text
workload_help_tokens r = help_tokens r.workloads
