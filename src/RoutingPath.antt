-- ===== src/RoutingPath.antt =====
-- Route prefixes (internal/routingpath/path.go), and the path functions of Go's standard library
-- that it stands on.
pub mod Clean
pub mod Segments
pub mod Defs
pub mod Laws
