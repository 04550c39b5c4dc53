-- ===== src/Routing/Invariant/Candidates.antt =====
-- The candidates of one route: normal, distinct and at least one
-- (gateway/internal/routing/router.go).
use inferops.Base.{
  List, [], ◌∷◌, ◌++◌, ◌≡◌, ◌≢◌, sym, false, inl, inr, Str, ◌==◌, str_eq, pair_eq, pair_beq_iff,
  All, arith, any, insert_by, sort_by, sort_by-nil, Bool-cases, All-append,
}
use inferops.Routing.Types.{Backend, identity}
use inferops.Routing.Normalize.Laws.{IsNormal}
use inferops.Routing.Registry.Defs.{backend_less, sort_backends}
use inferops.Routing.Registry.Ops.{upsert_candidate}
use inferops.Routing.Select.Balance.Rounds.{HasDistinct}

abbrev pub Belongs : Str → Backend → Type 0
Belongs prefix b = IsNormal b × (b.route_prefix ≡ prefix)

-- What a route holds: at least one candidate, each normal and at home there, all distinct.
pub record IsRoute (prefix : Str) (cs : List Backend) : Type 0 where
  pub inhabited : cs ≢ []
  pub belong : All (Belongs prefix) cs
  pub distinct : HasDistinct cs

All-insert_by :
    (P : Backend → Type 0) (x : Backend) (ys : List Backend)
    → P x
    → All P ys
    → All P (insert_by backend_less x ys)
unfolding insert_by
All-insert_by P x [] p h = (p, tt)
All-insert_by P x (y ∷ ys) p (q, h) = elim (Bool-cases (backend_less y x)) [
  | inl t ↦ rw t (q, All-insert_by P x ys p h)
  | inr f ↦ rw f (p, (q, h))
]

insert_by-HasDistinct :
    (x : Backend) (ys : List Backend)
    → All (λ d. identity d ≢ identity x) ys
    → HasDistinct ys
    → HasDistinct (insert_by backend_less x ys)
unfolding insert_by
insert_by-HasDistinct x [] n d = (tt, tt)
insert_by-HasDistinct x (y ∷ ys) (n, ns) (m, d) = elim (Bool-cases (backend_less y x)) [
  | inl t ↦ rw t (
    All-insert_by (λ z. identity z ≢ identity y) x ys (λ e. n (sym e)) m,
    insert_by-HasDistinct x ys ns d,
  )
  | inr f ↦ rw f ((n, ns), (m, d))
]

All-sort_by :
    (P : Backend → Type 0) (xs : List Backend) → All P xs → All P (sort_by backend_less xs)
unfolding sort_by
All-sort_by P [] h = tt
All-sort_by P (x ∷ xs) (p, h) = All-insert_by P x (sort_by backend_less xs) p (All-sort_by P xs h)

sort_by-HasDistinct : (xs : List Backend) → HasDistinct xs → HasDistinct (sort_by backend_less xs)
unfolding sort_by
sort_by-HasDistinct [] d = tt
sort_by-HasDistinct (x ∷ xs) (n, d) =
    insert_by-HasDistinct x (sort_by backend_less xs)
      (All-sort_by (λ z. identity z ≢ identity x) xs n) (sort_by-HasDistinct xs d)

pub sort_backends-IsRoute :
    (prefix : Str) (cs : List Backend) → IsRoute prefix cs → IsRoute prefix (sort_backends cs)
unfolding sort_backends
sort_backends-IsRoute prefix cs r = record {
  inhabited = λ e. r.inhabited (sort_by-nil backend_less cs e);
  belong = All-sort_by (Belongs prefix) cs r.belong;
  distinct = sort_by-HasDistinct cs r.distinct;
}

upsert_candidate-All :
    (P : Backend → Type 0) (b : Backend) (cs : List Backend)
    → P b
    → All P cs
    → All P (upsert_candidate b cs)
unfolding upsert_candidate
upsert_candidate-All P b [] p h = (p, tt)
upsert_candidate-All P b (c ∷ cs) p (q, h) = elim (Bool-cases (identity c == identity b)) [
  | inl t ↦ rw t (p, h)
  | inr f ↦ rw f (q, upsert_candidate-All P b cs p h)
]

upsert_candidate-HasDistinct :
    (b : Backend) (cs : List Backend) → HasDistinct cs → HasDistinct (upsert_candidate b cs)
unfolding upsert_candidate
upsert_candidate-HasDistinct b [] d = (tt, tt)
upsert_candidate-HasDistinct b (c ∷ cs) (n, d) = elim (Bool-cases (identity c == identity b)) [
  | inl t ↦
      let e : identity c ≡ identity b = (pair_beq_iff (identity c) (identity b)).0 t in
      rw t (rw e at n, d)
  | inr f ↦ rw f (
    upsert_candidate-All (λ z. identity z ≢ identity c) b cs
        (λ e. ground (arith, f, (pair_beq_iff (identity c) (identity b)).1 (sym e))) n,
    upsert_candidate-HasDistinct b cs d,
  )
]

upsert_candidate-ne_nil : (b : Backend) (cs : List Backend) → upsert_candidate b cs ≢ []
unfolding upsert_candidate
upsert_candidate-ne_nil b [] e = cc
upsert_candidate-ne_nil b (c ∷ cs) e = ground arith

pub upsert_candidate-IsRoute :
    (prefix : Str) (b : Backend) (cs : List Backend)
    → Belongs prefix b
    → All (Belongs prefix) cs
    → HasDistinct cs
    → IsRoute prefix (upsert_candidate b cs)
upsert_candidate-IsRoute prefix b cs p h d = record {
  inhabited = upsert_candidate-ne_nil b cs;
  belong = upsert_candidate-All (Belongs prefix) b cs p h;
  distinct = upsert_candidate-HasDistinct b cs d;
}

snoc-HasDistinct :
    (b : Backend) (cs : List Backend)
    → any (λ c. identity c == identity b) cs ≡ false
    → HasDistinct cs
    → HasDistinct (cs ++ b ∷ [])
snoc-HasDistinct b [] f d = (tt, tt)
snoc-HasDistinct b (c ∷ cs) f (n, d) = (
  All-append (λ z. identity z ≢ identity c) cs (b ∷ []) n
      (λ e. ground (arith, f, (pair_beq_iff (identity c) (identity b)).1 (sym e)), tt),
  snoc-HasDistinct b cs (ground arith) d,
)

snoc-ne_nil : (cs : List Backend) (b : Backend) → cs ++ b ∷ [] ≢ []
snoc-ne_nil [] b e = cc
snoc-ne_nil (c ∷ cs) b e = cc

pub snoc-IsRoute :
    (prefix : Str) (b : Backend) (cs : List Backend)
    → Belongs prefix b
    → All (Belongs prefix) cs
    → HasDistinct cs
    → any (λ c. identity c == identity b) cs ≡ false
    → IsRoute prefix (cs ++ b ∷ [])
snoc-IsRoute prefix b cs p h d f = record {
  inhabited = snoc-ne_nil cs b;
  belong = All-append (Belongs prefix) cs (b ∷ []) h (p, tt);
  distinct = snoc-HasDistinct b cs f d;
}
