-- ===== src/Scheduler/Gpu.antt =====
-- The whole-GPU planner (operator/internal/scheduler/gpu.go): its definitions, the order of its
-- candidates, what one round of its loops does, and what it promises.
pub mod Defs
pub mod Order
pub mod Scan
pub mod Occupied
pub mod Laws
