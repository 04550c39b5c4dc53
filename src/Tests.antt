-- ===== src/Tests.antt =====
-- Concrete inputs: runs of the definitions, and the theorems at inputs that meet their hypotheses.
mod Fixtures
mod Paths
mod Registry
mod Balance
mod Gpu
mod Contract
mod Auth
mod Objects
mod Proxy
mod Limiter
mod Drain
mod Discovery
mod Lifecycle
mod Validation
mod Caches
mod Conditions
