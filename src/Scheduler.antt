-- ===== src/Scheduler.antt =====
-- Package operator/internal/scheduler: where caches, GPU activations and runtimes are placed.
pub mod Nodes
pub mod Cache
pub mod Gpu
pub mod Preflight
