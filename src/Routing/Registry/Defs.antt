-- ===== src/Routing/Registry/Defs.antt =====
-- `MemoryRegistry` and its operations (gateway/internal/routing/router.go). An operation that
-- writes the registry returns the new one; the lock makes each a single step.
use inferops.Base.{
  List, [], Bool, if◌then◌else◌, Str, ◌==◌, str_eq, pair_eq, nat_eq, str_lt, length, ltb, ℤ, lookup,
  or_zero, keys, sort_by,
}
use inferops.Routing.Types.{Backend, BackendKey}

abbrev pub Scores : Type 0
Scores = List (BackendKey × ℤ)

pub record MemoryRegistry : Type 0 where
  pub routes : List (Str × List Backend)
  pub prefixes : List Str
  pub rr : List (Str × Scores)

abbrev pub new_memory_registry : MemoryRegistry
new_memory_registry = record { routes = []; prefixes = []; rr = [] }

-- The order of `rebuildPrefixes`: longer prefixes first, then by the bytes.
unfoldable pub prefix_less : Str → Str → Bool
prefix_less a b = if nat_eq.beq (length a) (length b) then str_lt a b else ltb (length b) (length a)

unfoldable pub backend_less : Backend → Backend → Bool
backend_less left right =
    if left.namespace == right.namespace
    then str_lt left.name right.name
    else str_lt left.namespace right.namespace

unfoldable pub sort_backends : List Backend → List Backend
sort_backends = sort_by backend_less

unfoldable pub rebuild_prefixes : MemoryRegistry → MemoryRegistry
rebuild_prefixes r = record r { prefixes = sort_by prefix_less (keys r.routes) }

-- What Go reads at a missing prefix is the nil slice.
abbrev pub candidates_at : Str → List (Str × List Backend) → List Backend
candidates_at prefix routes = or_zero [] (lookup prefix routes)
