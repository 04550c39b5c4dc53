-- ===== src/Routing/Invariant/Reserved.antt =====
-- The endpoints of the gateway itself and the registry: internal/routingpath/path.go behind
-- gateway/internal/routing/router.go.
use inferops.Base.{
  List, [], ◌∷◌, ◌++◌, ◌≡◌, ◌≢◌, refl, subst, sym, ◌∙◌, ◌⊎◌, inl, inr, true, false, Option, none,
  Str, str_eq, codes, has_prefix, In, All, keys, ℤ, In-keys-lookup, arith, ok, Bool-cases,
}
use inferops.RoutingPath.Clean.{slash, is_abs}
use inferops.RoutingPath.Defs.{normalize, is_under}
use inferops.RoutingPath.Laws.{normalize-not_reserved, normalize-elements}
use inferops.Routing.Types.{Backend}
use inferops.Routing.Registry.Defs.{MemoryRegistry, new_memory_registry}
use inferops.Routing.Registry.Ops.{covers, select}
use inferops.Routing.Select.Prefixes.{select-none_iff}
use inferops.Routing.Invariant.Candidates.{Belongs}
use inferops.Routing.Invariant.Reach.{IsWellFormed, Operation, apply_all, apply_all-IsWellFormed}

-- What may follow the root of a tree of paths: nothing, or a slash and more.
abbrev pub IsBelow : Str → Type 0
IsBelow rest = (rest ≡ []) ⊎ ((more : Str) × (rest ≡ slash ∷ more))

-- A prefix that covers a path in the tree of one path element lies in that tree.
cover-is_under :
    (root p rest : Str)
    → All (λ c. c ≢ slash) root
    → IsBelow rest
    → covers (root ++ rest) p ≡ true
    → is_under p root ≡ true
unfolding has_prefix
cover-is_under [] [] rest plain below h = refl
cover-is_under [] (c ∷ p) rest plain (inl e) h = absurd (ground (arith, e, h))
cover-is_under [] (c ∷ p) rest plain (inr (more, e)) h = ground (arith, e, h)
cover-is_under (a ∷ root) [] rest (other, plain) below h = absurd (ground arith)
cover-is_under (a ∷ root) (c ∷ p) rest (other, plain) below h =
    let deeper : covers (root ++ rest) p ≡ true = ground (arith, h) in
    let ih = cover-is_under root p rest plain below deeper in ground (arith, ih, h)

true-false' : true ≡ false → ⊥
true-false' h = cc

reserved-covers :
    (root n rest : Str)
    → All (λ c. c ≢ slash) root
    → IsBelow rest
    → is_under n (slash ∷ root) ≡ false
    → is_abs n ≡ true
    → covers (slash ∷ root ++ rest) n ≡ false
reserved-covers root n rest plain below free abs =
    elim (Bool-cases (covers (slash ∷ root ++ rest) n)) [
      | inr e ↦ e
      | inl e ↦ absurd (true-false' (sym (whole n abs e) ∙ free))
    ]
  where
    whole :
        (n : Str)
        → is_abs n ≡ true
        → covers (slash ∷ root ++ rest) n ≡ true
        → is_under n (slash ∷ root) ≡ true
    whole [] abs e = absurd (ground (arith, abs))
    whole (c ∷ n) abs e =
        let deeper : covers (root ++ rest) n ≡ true = unfold has_prefix in ground (arith, e) in
        let ih = cover-is_under root n rest plain below deeper in
        unfold has_prefix in ground (arith, abs, ih)

-- The endpoints of the gateway that are reserved.
abbrev pub Endpoint : Str → Type 0
Endpoint root = (root ≡ codes "healthz") ⊎ (root ≡ codes "readyz") ⊎ (root ≡ codes "metrics")

route-normal :
    (r : MemoryRegistry) (n : Str) → IsWellFormed r → In n (keys r.routes) → normalize n ≡ ok n
route-normal r n w m =
    let (cs, e) = In-keys-lookup n r.routes m in
    let route = w.routed n cs e in first cs route.inhabited route.belong
  where
    first : (cs : List Backend) → cs ≢ [] → All (Belongs n) cs → normalize n ≡ ok n
    first [] some_of all = absurd (some_of refl)
    first (c ∷ cs) some_of ((normal, at), all) = rw at at normal.prefix

not_covered :
    (root n rest : Str)
    → Endpoint root
    → IsBelow rest
    → normalize n ≡ ok n
    → covers (slash ∷ root ++ rest) n ≡ false
not_covered root n rest endpoint below e =
    let (healthz, (readyz, (metrics, _))) = normalize-not_reserved n n e in
    let (w, ws, _, shape, _, _) = normalize-elements n n e in
    let abs : is_abs n ≡ true = rw shape refl in
    elim endpoint [
      | inl same ↦
          subst (λ s. covers (slash ∷ s ++ rest) n ≡ false) (sym same)
            (reserved-covers (codes "healthz") n rest (ground arith) below healthz abs)
      | inr (inl same) ↦
          subst (λ s. covers (slash ∷ s ++ rest) n ≡ false) (sym same)
            (reserved-covers (codes "readyz") n rest (ground arith) below readyz abs)
      | inr (inr same) ↦
          subst (λ s. covers (slash ∷ s ++ rest) n ≡ false) (sym same)
            (reserved-covers (codes "metrics") n rest (ground arith) below metrics abs)
    ]

-- Whatever was registered: after any sequence of operations on a new registry, `Select` finds no
-- backend at /healthz, /readyz or /metrics, nor at a path below one of them.
pub select-not_reserved :
    (ops : List Operation) (load : Option (Backend → ℤ)) (root rest : Str)
    → Endpoint root
    → IsBelow rest
    → (select (slash ∷ root ++ rest) load (apply_all ops new_memory_registry)).0 ≡ none
select-not_reserved ops load root rest endpoint below =
    let r = apply_all ops new_memory_registry in
    let w = apply_all-IsWellFormed ops in
    (select-none_iff (slash ∷ root ++ rest) load r w.sorted).1
      (λ n m. not_covered root n rest endpoint below (route-normal r n w m))
