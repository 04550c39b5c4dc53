-- ===== src/Proxy/Tracker.antt =====
-- `requestTracker` (gateway/internal/proxy/proxy.go): the active requests of each backend. The lock
-- makes each operation a single step; a nil tracker, which no proxy has, is left out.
use inferops.Base.{
  ℕ, suc, ◌<◌, List, [], ◌∷◌, ◌++◌, if◌then◌else◌, ◌≡◌, refl, ◌==◌, str_eq, pair_eq, ℤ, pos, ltb_ℤ,
  not, ◌+64◌, or_zero, lookup, insert, delete, lookup-insert, lookup-delete, length, arith, ◌-64◌,
  ◌+ℤ◌, ◌-ℤ◌, wrap64, pair_beq_iff, ==_refl, length-append, ◌≤◌,
}
use inferops.Routing.Types.{Backend, BackendKey, identity}

abbrev pub RequestTracker : Type 0
RequestTracker = List (BackendKey × ℤ)

abbrev pub new_request_tracker : RequestTracker
new_request_tracker = []

abbrev pub active_at : BackendKey → RequestTracker → ℤ
active_at key t = or_zero (pos 0) (lookup key t)

-- `activeCount`.
unfoldable pub active_count : Backend → RequestTracker → ℤ
active_count b t = active_at (identity b) t

-- `begin`.
unfoldable pub begin_request : Backend → RequestTracker → RequestTracker
begin_request b t = insert (identity b) (active_at (identity b) t +64 pos 1) t

-- The function that `begin` returns, which `forward` defers.
unfoldable pub end_request : Backend → RequestTracker → RequestTracker
end_request b t =
    let key = identity b in
    if not (ltb_ℤ (pos 1) (active_at key t))
    then delete key t
    else insert key (active_at key t -64 pos 1) t

-- How many of the requests in flight are for a backend.
unfoldable pub count_in : BackendKey → List BackendKey → ℕ
count_in key [] = 0
count_in key (k ∷ ks) = let rest = count_in key ks in if k == key then suc rest else rest

-- What a proxy goes through: a request is admitted, and the deferred call ends any one of those in
-- flight. The list has the backends of the requests in flight.
pub data Serving : List BackendKey → RequestTracker → Type 0 where
  idle : Serving [] new_request_tracker
  admit :
      {ks : List BackendKey} {t : RequestTracker} (b : Backend)
      → length ks < 9223372036854775807
      → Serving ks t
      → Serving (identity b ∷ ks) (begin_request b t)
  finish :
      {t : RequestTracker} (b : Backend) (ks later : List BackendKey)
      → Serving (ks ++ identity b ∷ later) t
      → Serving (ks ++ later) (end_request b t)

count_in_le : (key : BackendKey) (ks : List BackendKey) → count_in key ks ≤ length ks
unfolding count_in
count_in_le key [] = omega arith
count_in_le key (k ∷ ks) = ground (arith, count_in_le key ks)

count_in-middle :
    (key k : BackendKey) (ks later : List BackendKey)
    → count_in key (ks ++ k ∷ later)
      ≡ (if k == key then suc (count_in key (ks ++ later)) else count_in key (ks ++ later))
unfolding count_in
count_in-middle key k [] later = refl
count_in-middle key k (j ∷ ks) later = ground (arith, count_in-middle key k ks later)

one_more : (n : ℕ) → n < 9223372036854775807 → pos n +64 pos 1 ≡ pos (suc n)
unfolding ◌+64◌ ◌+ℤ◌ wrap64
one_more n h = ground arith

one_less : (n : ℕ) → suc n < 9223372036854775808 → pos (suc n) -64 pos 1 ≡ pos n
unfolding ◌-64◌ ◌-ℤ◌ wrap64
one_less n h = ground arith

Serving-length :
    {ks : List BackendKey} {t : RequestTracker} → Serving ks t → length ks < 9223372036854775808
Serving-length idle = omega arith
Serving-length (admit b h s) = omega arith
Serving-length (finish b ks later s) =
    omega (arith, Serving-length s, length-append ks (identity b ∷ later), length-append ks later)

begin_request-active_at :
    (b : Backend) (key : BackendKey) (t : RequestTracker)
    → active_at key (begin_request b t)
      ≡ (if identity b == key then active_at (identity b) t +64 pos 1 else active_at key t)
unfolding begin_request
begin_request-active_at b key t =
    ground (arith, lookup-insert (identity b) key (active_at (identity b) t +64 pos 1) t)

end_request-active_at :
    (b : Backend) (key : BackendKey) (t : RequestTracker) (n : ℕ)
    → active_at (identity b) t ≡ pos (suc n)
    → suc n < 9223372036854775808
    → active_at key (end_request b t) ≡ (if identity b == key then pos n else active_at key t)
unfolding end_request
end_request-active_at b key t n e h = ground (
  arith,
  lookup-insert (identity b) key (active_at (identity b) t -64 pos 1) t,
  lookup-delete (identity b) key t,
  one_less n h,
)

-- The number that the tracker has of each backend is the number of its requests in flight.
pub tracker_refines :
    {ks : List BackendKey} {t : RequestTracker} (key : BackendKey)
    → Serving ks t
    → active_at key t ≡ pos (count_in key ks)
unfolding count_in
tracker_refines key idle = unfold lookup in refl
tracker_refines key (admit {ks} {t} b h s) = ground (
  arith,
  begin_request-active_at b key t,
  tracker_refines (identity b) s,
  tracker_refines key s,
  pair_beq_iff (identity b) key,
  count_in_le (identity b) ks,
  one_more (count_in (identity b) ks),
)
tracker_refines key (finish {t} b ks later s) = ground (
  arith,
  end_request-active_at b key t (count_in (identity b) (ks ++ later)),
  tracker_refines (identity b) s,
  tracker_refines key s,
  pair_beq_iff (identity b) key,
  count_in_le (identity b) (ks ++ identity b ∷ later),
  Serving-length s,
  count_in-middle key (identity b) ks later,
  count_in-middle (identity b) (identity b) ks later,
  ==_refl (identity b),
)
