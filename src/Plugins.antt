-- ===== src/Plugins.antt =====
-- benchmark/plugins: the registry of schedulers and workloads, its built-in entries and the loader.
pub mod Table
pub mod Registry
pub mod Builtins
pub mod Loader
