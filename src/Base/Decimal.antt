-- ===== src/Base/Decimal.antt =====
-- `strconv.Itoa` and `net.JoinHostPort` of Go's standard library.
use Prim.Native.Nat.{ℕ, zero, suc, ◌+◌, ◌/◌, ◌%◌}
use mathlib.Core.Path.{◌≡◌, refl}
use mathlib.Core.List.{[], ◌∷◌, ◌++◌}
use inferops.Base.Tests.{if◌then◌else◌, nat_beq}
use inferops.Base.Text.{Str, codes, contains_any}
use inferops.Base.Int.{ℤ, pos, negsuc}

-- The digits of a number, put in front of `rest`. A number of 64 bits has 20 digits at most.
digits : ℕ → ℕ → Str → Str
digits zero n rest = (48 + n % 10) ∷ rest
digits (suc fuel) n rest =
    let more = digits fuel (n / 10) ((48 + n % 10) ∷ rest) in
    if nat_beq (n / 10) 0 then (48 + n % 10) ∷ rest else more

unfoldable pub itoa : ℤ → Str
unfolding digits
itoa (pos n) = digits 20 n []
itoa (negsuc n) = 45 ∷ digits 20 (suc n) []

-- A host with a colon is put in brackets.
unfoldable pub join_host_port : Str → Str → Str
join_host_port host port =
    if contains_any host (codes ":")
    then codes "[" ++ host ++ codes "]:" ++ port
    else host ++ codes ":" ++ port

itoa_test : itoa (pos 8080) ≡ codes "8080"
unfolding itoa
itoa_test = refl
