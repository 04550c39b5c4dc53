-- ===== src/Auth/Defs.antt =====
-- `FileTokenSource` and `Middleware` (gateway/internal/auth/auth.go). A time is a number of
-- nanoseconds, `none` the zero time; what `os.ReadFile` returns is an argument, `none` for an error.
use inferops.Base.{
  ℕ, zero, suc, ◌+◌, ◌-◌, List, [], ◌∷◌, Bool, true, false, not, ◌&&◌, ◌||◌, if◌then◌else◌, Option,
  none, some, Str, ◌==◌, str_eq, nat_eq, is_empty, codes, has_prefix, length, trim_space, spaces,
  any, leb, reverse, Result, ok, err, ℤ, pos, negsuc,
}
use inferops.RoutingPath.Clean.{cons_head}

pub data AuthError : Type 0 where
  path_required negative_interval not_configured unreadable no_tokens : AuthError

pub record FileTokenSource : Type 0 where
  pub path : Str
  pub reload_interval : ℕ
  pub tokens : List Str
  pub reload_err : Option AuthError
  pub next_reload : Option ℕ

with_interval : Str → ℤ → Result AuthError FileTokenSource
with_interval path (negsuc _) = err negative_interval
with_interval path (pos n) = ok (record {
  path = path;
  reload_interval = n;
  tokens = [];
  reload_err = none;
  next_reload = none;
})

-- `newFileTokenSource`.
unfoldable pub new_file_token_source : Str → ℤ → Result AuthError FileTokenSource
unfolding with_interval
new_file_token_source path reload_interval =
    let trimmed = trim_space path in
    if is_empty trimmed then err path_required else with_interval trimmed reload_interval

-- `strings.Split` at newlines.
unfoldable pub lines : Str → List Str
lines [] = [] ∷ []
lines (c ∷ s) = let rest = lines s in if c == 10 then [] ∷ rest else cons_head c rest

-- The loop over the lines.
unfoldable pub trimmed_lines : List Str → List Str
trimmed_lines [] = []
trimmed_lines (line ∷ more) =
    let token = trim_space line in
    let rest = trimmed_lines more in if not (is_empty token) then token ∷ rest else rest

-- What a read leaves in `tokens` and `reloadErr`.
unfoldable pub load : Option Str → List Str × Option AuthError
unfolding lines trimmed_lines
load none = ([], some unreadable)
load (some content) = elim (trimmed_lines (lines content)) [
  | [] ↦ ([], some no_tokens)
  | token ∷ more ↦ (token ∷ more, none)
]

abbrev pub is_due : ℕ → Option ℕ → Bool
is_due now none = true
is_due now (some next) = leb next now

-- What a call returns of `tokens` and `reloadErr`.
abbrev pub outcome : List Str → Option AuthError → Result AuthError (List Str)
outcome tokens none = ok tokens
outcome tokens (some e) = err e

-- `Tokens` at a time, with what the file holds then.
unfoldable pub tokens_at :
    ℕ → Option Str → FileTokenSource → Result AuthError (List Str) × FileTokenSource
unfolding load
tokens_at now file s =
    if is_empty s.path
    then (err not_configured, s)
    else if not (is_due now s.next_reload)
    then (outcome s.tokens s.reload_err, s)
    else let (tokens, reload_err) = load file in
      (
        outcome tokens reload_err,
        record s {
          tokens = tokens;
          reload_err = reload_err;
          next_reload = some (now + s.reload_interval);
        },
      )

-- The length of the white space character that starts here, if one does.
space_length : List Str → Str → Option ℕ
space_length [] s = none
space_length (w ∷ ws) s = if has_prefix s w then some (length w) else space_length ws s

flush : Str → List Str → List Str
flush [] words = words
flush (c ∷ word) words = reverse (c ∷ word) ∷ words

-- `strings.Fields`, with the bytes of a white space character left to skip, and the word so far.
unfoldable pub fields_from : ℕ → Str → Str → List Str
unfolding space_length flush has_prefix
fields_from skip word [] = flush word []
fields_from (suc skip) word (c ∷ s) = fields_from skip word s
fields_from zero word (c ∷ s) = elim (space_length spaces (c ∷ s)) [
  | none ↦ fields_from zero (c ∷ word) s
  | some n ↦ flush word (fields_from (n - 1) [] s)
]

lower : ℕ → ℕ
lower c = if leb 65 c && leb c 90 then c + 32 else c

-- `strings.EqualFold` with "Bearer", whose letters have no other case variants.
unfoldable pub is_bearer : Str → Bool
unfolding lower
is_bearer scheme = lower_all scheme == codes "bearer"
  where
    lower_all : Str → Str
    lower_all [] = []
    lower_all (c ∷ s) = lower c ∷ lower_all s

unfoldable pub credentials : List Str → Option Str
credentials [] = none
credentials (scheme ∷ []) = none
credentials (scheme ∷ token ∷ []) =
    if not (is_bearer scheme) || is_empty token then none else some token
credentials (scheme ∷ token ∷ _ ∷ _) = none

unfoldable pub bearer_token : List Str → Option Str
unfolding credentials fields_from
bearer_token [] = none
bearer_token (value ∷ []) = credentials (fields_from 0 [] value)
bearer_token (value ∷ _ ∷ _) = none

unfoldable pub matches_any : Str → List Str → Bool
matches_any presented expected = any (λ token. presented == token) expected

-- What `Wrap` does with a request: two responses, or the request without its credentials.
pub data Decision : Type 0 where
  auth_unavailable invalid_api_key : Decision
  forward : List (Str × Str) → Decision

abbrev pub authorization : Str
authorization = codes "Authorization"

-- The headers by their canonical names, `Header.Values` and `Header.Del`.
unfoldable pub header_values : Str → List (Str × Str) → List Str
header_values name [] = []
header_values name ((key, value) ∷ more) =
    let rest = header_values name more in if key == name then value ∷ rest else rest

unfoldable pub header_del : Str → List (Str × Str) → List (Str × Str)
header_del name [] = []
header_del name ((key, value) ∷ more) =
    let rest = header_del name more in if key == name then rest else (key, value) ∷ rest

abbrev pub accepts : Option Str → List Str → Bool
accepts none tokens = false
accepts (some presented) tokens = matches_any presented tokens

unfoldable pub wrap : Result AuthError (List Str) → List (Str × Str) → Decision
wrap (err e) headers = auth_unavailable
wrap (ok tokens) headers =
    if not (accepts (bearer_token (header_values authorization headers)) tokens)
    then invalid_api_key
    else forward (header_del authorization headers)
