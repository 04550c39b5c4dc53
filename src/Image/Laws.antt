-- ===== src/Image/Laws.antt =====
-- What a validated image reference looks like (operator/internal/resources/builder.go).
use inferops.Base.{
  ℕ, zero, suc, ◌-◌, [], ◌∷◌, ◌++◌, ◌≡◌, ◌≢◌, sym, ap, ◌∙◌, ◌⊎◌, inl, inr, true, false, Str, str_eq,
  nat_eq, str_beq_iff, is_empty, codes, length, ltb, take, drop, has_prefix, trim_prefix,
  has_prefix-append, all, map, arith, Bool-cases, ok,
}
use inferops.RoutingPath.Clean.{slash}
use inferops.Image.{
  after_last, lower_byte, is_hex, at_sign, colon, sha256_prefix, valid_image_tag, check_digest,
  check_tag, validate_pinned_image,
}

-- The last occurrence splits the string.
after_last-split : (s : Str) (b n : ℕ) → after_last s b ≡ suc n → s ≡ take n s ++ b ∷ drop (suc n) s
unfolding after_last take drop
after_last-split [] b n h = cc
after_last-split (a ∷ s) b zero h = ground (arith, h)
after_last-split (a ∷ s) b (suc n) h = ground (arith, h, after_last-split s b n)

-- A reference by digest.
pub record HasDigest (image : Str) : Type 0 where
  pub name : Str
  pub digest : Str
  pub named : name ≢ []
  pub parts : image ≡ name ++ at_sign ∷ (sha256_prefix ++ digest)
  pub digits : length digest ≡ 64
  pub lower : map lower_byte digest ≡ digest
  pub hex : all is_hex digest ≡ true

-- A reference by tag.
pub record HasTag (image : Str) : Type 0 where
  pub name : Str
  pub tag : Str
  pub named : name ≢ []
  pub parts : image ≡ name ++ colon ∷ tag
  pub fixed : map lower_byte tag ≢ codes "latest"
  pub valid : valid_image_tag tag ≡ true

check_digest-parts :
    (s : Str)
    → check_digest s ≡ ok tt
    → (digest : Str) × (s ≡ sha256_prefix ++ digest)
      × (length digest ≡ 64)
      × (map lower_byte digest ≡ digest)
      × (all is_hex digest ≡ true)
unfolding check_digest trim_prefix
check_digest-parts s h = elim (Bool-cases (has_prefix s sha256_prefix)) [
  | inr f ↦ absurd (ground (arith, h, f))
  | inl t ↦
      let digest = drop (length sha256_prefix) s in
      (
        digest,
        sym (has_prefix-append s sha256_prefix t),
        ground (arith, h, t),
        ground (arith, h, t, str_beq_iff digest (map lower_byte digest)),
        ground (arith, h, t),
      )
]

check_tag-parts :
    (s : Str)
    → check_tag s ≡ ok tt
    → (map lower_byte s ≢ codes "latest") × (valid_image_tag s ≡ true)
unfolding check_tag
check_tag-parts s h =
    (λ e. ground (arith, h, e, str_beq_iff (map lower_byte s) (codes "latest")), ground (arith, h))

not_empty : (s : Str) → is_empty s ≡ false → s ≢ []
not_empty s h = ground (arith, h)

digest_case :
    (image : Str) (n : ℕ)
    → after_last image at_sign ≡ suc n
    → is_empty (take n image) ≡ false
    → check_digest (drop (suc n) image) ≡ ok tt
    → HasDigest image
digest_case image n e h c =
    let (digest, same, digits, lower, hex) = check_digest-parts (drop (suc n) image) c in
    record {
      name = take n image;
      digest = digest;
      named = not_empty (take n image) h;
      parts = after_last-split image at_sign n e ∙ ap (λ rest. take n image ++ at_sign ∷ rest) same;
      digits = digits;
      lower = lower;
      hex = hex;
    }

tag_case :
    (image : Str) (n : ℕ)
    → after_last image colon ≡ suc (suc n)
    → check_tag (drop (suc (suc n)) image) ≡ ok tt
    → HasTag image
tag_case [] n e c = absurd (unfold after_last in ground (arith, e))
tag_case (a ∷ s) n e c =
    let (fixed, valid) = check_tag-parts (drop (suc (suc n)) (a ∷ s)) c in
    record {
      name = take (suc n) (a ∷ s);
      tag = drop (suc (suc n)) (a ∷ s);
      named = unfold take in λ q. ground (arith, q);
      parts = after_last-split (a ∷ s) colon (suc n) e;
      fixed = fixed;
      valid = valid;
    }

ltb_positive : (a b : ℕ) → ltb a b ≡ true → b ≡ suc (b - 1)
ltb_positive a b h = ground (arith, h)

-- A reference that passes names its image by a lower-case SHA-256 digest, or by a valid tag that is
-- not "latest" in any case; in front of that it has a name that is not empty.
pub validate_pinned_image-IsPinned :
    (image : Str) → validate_pinned_image image ≡ ok tt → HasDigest image ⊎ HasTag image
unfolding validate_pinned_image
validate_pinned_image-IsPinned image h =
    let after_slash = after_last image slash in
    let after_at = after_last image at_sign in
    let after_colon = after_last image colon in
    elim (Bool-cases (ltb after_slash after_at)) [
      | inl t ↦
          let e = ltb_positive after_slash after_at t in
          inl (
            digest_case image (after_at - 1) e (ground (arith, h, t))
              (rw (← e) (ground (arith, h, t))))
      | inr f ↦
          let two : after_colon ≡ suc (suc (after_colon - 2)) = ground (arith, h, f) in
          inr (tag_case image (after_colon - 2) two (rw (← two) (ground (arith, h, f))))
    ]
