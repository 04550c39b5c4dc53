-- ===== src/RoutingPath/Laws.antt =====
-- What a normalised route prefix is (internal/routingpath/path.go).
use inferops.Base.{
  List, [], ◌∷◌, ◌≡◌, ◌≢◌, refl, sym, Bool, true, false, Str, ◌==◌, str_eq, str_beq_iff, arith, All,
  any, has_prefix, trim_suffix_byte, ok, ◌∙◌, ℕ, is_empty,
}
use inferops.RoutingPath.Clean.{slash, join, clean, is_abs}
use inferops.RoutingPath.Segments.{IsPlain, clean_idempotent, clean-elements, trim-join}
use inferops.RoutingPath.Defs.{normalize, reserved_by, reserved_prefixes, is_reserved, is_under}

any-trim : (p : ℕ → Bool) (s : Str) → any p s ≡ false → any p (trim_suffix_byte s slash) ≡ false
unfolding trim_suffix_byte
any-trim p [] h = refl
any-trim p (a ∷ []) h = ground arith
any-trim p (a ∷ b ∷ s) h = ground (arith, any-trim p (b ∷ s))

-- What `normalize` has checked when it returns.
record Checked (prefix n : Str) : Type 0 where
  rooted : is_abs prefix ≡ true
  unreserved : any is_reserved prefix ≡ false
  trimmed : n ≡ trim_suffix_byte prefix slash
  cleaned : clean prefix ≡ n
  not_empty : n ≢ []
  not_root : n ≢ slash ∷ []
  not_endpoint : reserved_by reserved_prefixes n ≡ ok n

reserved_by-same : (rs : List Str) (s n : Str) → reserved_by rs s ≡ ok n → s ≡ n
unfolding reserved_by
reserved_by-same [] s n h = ground arith
reserved_by-same (r ∷ rs) s n h = ground (arith, reserved_by-same rs s n)

has_prefix-is_abs : (s : Str) → has_prefix s (slash ∷ []) ≡ is_abs s
unfolding has_prefix
has_prefix-is_abs [] = refl
has_prefix-is_abs (c ∷ s) = ground arith

is_empty_iff : (s : Str) → is_empty s ≡ false → s ≢ []
is_empty_iff [] h = cc
is_empty_iff (c ∷ s) h = ground arith

checked : (prefix n : Str) → normalize prefix ≡ ok n → Checked prefix n
unfolding normalize
checked prefix n h =
    let t = trim_suffix_byte prefix slash in
    let same = reserved_by-same reserved_prefixes t n in
    let facts : (is_abs prefix ≡ true)
        × (any is_reserved prefix ≡ false)
        × (is_empty t ≡ false)
        × ((t == slash ∷ []) ≡ false)
        × ((clean prefix == t) ≡ true)
        × (reserved_by reserved_prefixes t ≡ ok n) =
      ground (arith, has_prefix-is_abs prefix) in
    let e : t ≡ n = same facts.5 in
    record {
      rooted = facts.0;
      unreserved = facts.1;
      trimmed = sym e;
      cleaned = (str_beq_iff (clean prefix) t).0 facts.4 ∙ e;
      not_empty = rw (← e) (is_empty_iff t facts.2);
      not_root = rw (← e) (ground (arith, str_beq_iff t (slash ∷ []), facts.3));
      not_endpoint = rw e at facts.5;
    }

normalize_of_Checked :
    (n : Str)
    → is_abs n ≡ true
    → any is_reserved n ≡ false
    → trim_suffix_byte n slash ≡ n
    → clean n ≡ n
    → n ≢ slash ∷ []
    → reserved_by reserved_prefixes n ≡ ok n
    → normalize n ≡ ok n
unfolding normalize
normalize_of_Checked [] a r t c root e = cc
normalize_of_Checked (x ∷ s) a r t c root e =
    rw (t, c)
      (ground (
        arith,
        has_prefix-is_abs (x ∷ s),
        str_beq_iff (x ∷ s) (slash ∷ []),
        str_beq_iff (x ∷ s) (x ∷ s),
      ))

-- A prefix that `Normalize` returns is a slash and one plain element or more between slashes, is
-- the cleaned form of its input, and has no query, fragment, escape, backslash or control byte.
pub normalize-elements :
    (prefix n : Str)
    → normalize prefix ≡ ok n
    → (w : Str) × (ws : List Str) × All IsPlain (w ∷ ws)
      × (n ≡ slash ∷ join (w ∷ ws))
      × (clean prefix ≡ n)
      × (any is_reserved n ≡ false)
unfolding join
normalize-elements prefix n h =
    let c = checked prefix n h in
    let (es, plain, e) = clean-elements prefix c.rooted in
    non_root es plain (sym c.cleaned ∙ e) c.not_root c.cleaned
      (rw (c.trimmed) (any-trim is_reserved prefix c.unreserved))
  where
    non_root :
        (es : List Str)
        → All IsPlain es
        → n ≡ slash ∷ join es
        → n ≢ slash ∷ []
        → clean prefix ≡ n
        → any is_reserved n ≡ false
        → (w : Str) × (ws : List Str) × All IsPlain (w ∷ ws)
          × (n ≡ slash ∷ join (w ∷ ws))
          × (clean prefix ≡ n)
          × (any is_reserved n ≡ false)
    non_root [] plain e root c r = absurd (root e)
    non_root (w ∷ ws) plain e root c r = (w, ws, plain, e, c, r)

-- A prefix that `Normalize` returns is one that it returns unchanged.
pub normalize_idempotent : (prefix n : Str) → normalize prefix ≡ ok n → normalize n ≡ ok n
normalize_idempotent prefix n h =
    let c = checked prefix n h in
    let (w, ws, plain, e, _, r) = normalize-elements prefix n h in
    normalize_of_Checked n (rw e refl) r (rw e (trim-join w ws plain))
      (rw (← c.cleaned) (clean_idempotent prefix c.rooted)) c.not_root c.not_endpoint

-- A prefix that `Normalize` returns is none of the reserved endpoints and lies below none.
pub normalize-not_reserved :
    (prefix n : Str)
    → normalize prefix ≡ ok n
    → All (λ reserved. is_under n reserved ≡ false) reserved_prefixes
unfolding reserved_by
normalize-not_reserved prefix n h = let c = checked prefix n h in ground (arith, c.not_endpoint)
