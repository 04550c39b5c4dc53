-- ===== src/Image.antt =====
-- `ValidatePinnedImage` (operator/internal/resources/builder.go): whether an image reference names
-- one image for good, by a digest or a tag that is not "latest".
pub mod Laws
use inferops.Base.{
  ℕ, zero, suc, ◌+◌, ◌-◌, List, [], ◌∷◌, ◌++◌, Bool, true, false, not, ◌&&◌, ◌||◌, if◌then◌else◌,
  Str, ◌==◌, str_eq, nat_eq, is_empty, codes, length, ltb, leb, take, drop, has_prefix, trim_prefix,
  trim_space, contains_any, all, map, Result, ok, err, ◌>>=◌, ◌>>◌, fail_if,
}
use inferops.RoutingPath.Clean.{slash}

pub data ImageError : Type 0 where
  image_required has_whitespace invalid_digest no_image_name not_sha256 : ImageError
  bad_digest_length not_canonical bad_digest_digit no_tag latest_tag invalid_tag : ImageError

-- `strings.LastIndex` of a character, plus 1: 0 if there is none.
unfoldable pub after_last : Str → ℕ → ℕ
after_last [] b = 0
after_last (a ∷ s) b =
    let rest = after_last s b in elim rest [ zero ↦ if a == b then 1 else 0 | suc n ↦ suc (suc n) ]

-- `strings.Count` of a character.
unfoldable pub count_byte : Str → ℕ → ℕ
count_byte [] b = 0
count_byte (a ∷ s) b = let rest = count_byte s b in if a == b then suc rest else rest

-- `strings.ToLower` of an ASCII character; any other is refused as a digit below.
abbrev lower_byte : ℕ → ℕ
lower_byte c = if leb 65 c && leb c 90 then c + 32 else c

abbrev pub is_digit : ℕ → Bool
is_digit c = leb 48 c && leb c 57

-- A digit that `hex.DecodeString` reads.
abbrev pub is_hex : ℕ → Bool
is_hex c = is_digit c || (leb 97 c && leb c 102) || (leb 65 c && leb c 70)

abbrev pub at_sign : ℕ
at_sign = 64

abbrev pub colon : ℕ
colon = 58

abbrev pub sha256_prefix : Str
sha256_prefix = codes "sha256:"

abbrev pub is_tag_start : ℕ → Bool
is_tag_start c = (leb 97 c && leb c 122) || (leb 65 c && leb c 90) || is_digit c || c == 95

abbrev pub is_tag_byte : ℕ → Bool
is_tag_byte c = is_tag_start c || c == 46 || c == 45

-- `validImageTag`.
unfoldable pub valid_image_tag : Str → Bool
valid_image_tag [] = false
valid_image_tag (c ∷ s) = not (ltb 128 (length (c ∷ s))) && is_tag_start c && all is_tag_byte s

-- The part behind the "@".
unfoldable pub check_digest : Str → Result ImageError (Unit {0})
check_digest digest =
    let encoded = trim_prefix digest sha256_prefix in
    do
      fail_if (not (has_prefix digest sha256_prefix)) not_sha256
      fail_if (not (length encoded == 64)) bad_digest_length
      fail_if (not (encoded == map lower_byte encoded)) not_canonical
      fail_if (not (all is_hex encoded)) bad_digest_digit

-- The part behind the last colon; case is folded for "latest".
unfoldable pub check_tag : Str → Result ImageError (Unit {0})
unfolding valid_image_tag
check_tag tag =
    fail_if (map lower_byte tag == codes "latest") latest_tag
    >> fail_if (not (valid_image_tag tag)) invalid_tag

unfoldable pub validate_pinned_image : Str → Result ImageError (Unit {0})
unfolding check_digest check_tag
validate_pinned_image image =
    let after_slash = after_last image slash in
    let after_at = after_last image at_sign in
    let after_colon = after_last image colon in
    do
      fail_if (is_empty image) image_required
      fail_if (not (trim_space image == image) || contains_any image (32 ∷ 9 ∷ 13 ∷ 10 ∷ []))
          has_whitespace
      (if ltb after_slash after_at
          then (do
            fail_if
                (not (count_byte (drop after_slash image) at_sign == 1) || after_at == length image)
                invalid_digest
            fail_if (is_empty (take (after_at - 1) image)) no_image_name
            check_digest (drop after_at image))
          else (do
            fail_if (not (ltb after_slash after_colon && ltb after_colon (length image))) no_tag
            fail_if (after_colon == 1) no_image_name
            check_tag (drop after_colon image)))
