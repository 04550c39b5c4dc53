-- ===== src/CacheContract/Laws.antt =====
-- What the contract promises (operator/internal/cachecontract/cache.go).
use inferops.Base.{[], ◌∷◌, ◌++◌, ◌≡◌, ◌≢◌, ◌↔◌, ap₂, sym, ◌∙◌, some, Str, All, arith, ok}
use inferops.CacheContract.{ArtifactSpec, identity_of, newline, revision_of}

-- A line of text: no newline in it.
abbrev pub IsLine : Str → Type 0
IsLine s = All (λ c. c ≢ newline) s

line-injective :
    (a b s t : Str) → IsLine a → IsLine b → a ++ newline ∷ s ≡ b ++ newline ∷ t → (a ≡ b) × (s ≡ t)
line-injective [] [] s t h k e = ground arith
line-injective [] (c ∷ b) s t h (n, k) e = absurd (n (ground arith))
line-injective (c ∷ a) [] s t (n, h) k e = absurd (n (ground arith))
line-injective (c ∷ a) (d ∷ b) s t (n, h) (m, k) e =
    let (same, rest) = line-injective a b s t h k (ground arith) in ground arith

-- What `Identity` writes down when it succeeds.
shown :
    (x : ArtifactSpec) (t : Str)
    → identity_of (some x) ≡ ok t
    → x.namespace ++ newline ∷ (x.name ++ newline ∷ (x.repo ++ newline ∷ revision_of x)) ≡ t
unfolding identity_of
shown x t h = ground arith

-- The same parts of two deployments.
abbrev pub IsSameArtifact : ArtifactSpec → ArtifactSpec → Type 0
IsSameArtifact d e =
    (d.namespace ≡ e.namespace)
    × (d.name ≡ e.name)
    × (d.repo ≡ e.repo)
    × (revision_of d ≡ revision_of e)

-- Two deployments that have an identity, and whose namespaces, names and repositories are lines of
-- text, have the same one exactly if these and their effective revisions are the same.
pub identity_of_iff :
    (d e : ArtifactSpec) (t u : Str)
    → IsLine d.namespace × IsLine d.name × IsLine d.repo
    → IsLine e.namespace × IsLine e.name × IsLine e.repo
    → identity_of (some d) ≡ ok t
    → identity_of (some e) ≡ ok u
    → (t ≡ u) ↔ IsSameArtifact d e
identity_of_iff d e t u (d1, d2, d3) (e1, e2, e3) h k = (
  λ same.
      let (one, r1) =
        line-injective d.namespace e.namespace _ _ d1 e1 (shown d t h ∙ same ∙ sym (shown e u k)) in
      let (two, r2) = line-injective d.name e.name _ _ d2 e2 r1 in
      let (three, r3) = line-injective d.repo e.repo _ _ d3 e3 r2 in (one, two, three, r3),
  λ (one, two, three, four).
      sym (shown d t h)
      ∙ ap₂ (λ a b. a ++ newline ∷ b) one
          (ap₂ (λ a b. a ++ newline ∷ b) two (ap₂ (λ a b. a ++ newline ∷ b) three four))
      ∙ shown e u k,
)
