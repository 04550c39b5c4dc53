-- ===== src/Discovery/Sync.antt =====
-- `Discovery`, `Sync` and the rounds of `Run` (gateway/internal/discovery/discovery.go). A time is a
-- number of nanoseconds. What the Kubernetes client lists is an argument, `none` if a call fails or
-- the context has ended; that the loop ends with its context, its log and its timer are left out.
use inferops.Base.{
  ℕ, zero, suc, ◌-◌, ◌*◌, min, List, [], ◌∷◌, Bool, false, if◌then◌else◌, Option, none, some, Str,
  is_empty, codes, trim_space, leb, ltb, map, ℤ, pos, negsuc, Result, ok, ◌>>◌, fail_if,
}
use inferops.Kube.{EndpointSlice, Service}
use inferops.Api.Status.{ModelDeployment}
use inferops.Routing.Types.{Backend}
use inferops.Routing.Normalize.{BackendError}
use inferops.Routing.Registry.Defs.{MemoryRegistry}
use inferops.Routing.Registry.Ops.{replace, mark_ready_unavailable}
use inferops.Discovery.Endpoints.{ready_services_by_name, services_by_name}
use inferops.Discovery.Gates.{backend_for}

pub data DiscoveryError : Type 0 where
  namespace_required interval_too_short interval_too_long : DiscoveryError

-- The state, with the registry that it publishes to and the delay that `Run` keeps.
pub record Discovery : Type 0 where
  pub namespace : Str
  pub sync_interval : ℕ
  pub registry : MemoryRegistry
  pub last_success : Option ℕ
  pub retry_delay : ℕ

abbrev default_sync_interval : ℕ
default_sync_interval = 5000000000

abbrev minimum_sync_interval : ℕ
minimum_sync_interval = 1000000000

abbrev first_retry_delay : ℕ
first_retry_delay = 250000000

-- An interval from 0 down is the default.
abbrev effective_interval : ℤ → ℕ
effective_interval (pos zero) = default_sync_interval
effective_interval (pos (suc n)) = suc n
effective_interval (negsuc n) = default_sync_interval

-- `New`, and the first delay of `Run`; neither the client nor the registry is nil.
unfoldable pub new_discovery : MemoryRegistry → Str → ℤ → Result DiscoveryError Discovery
new_discovery registry namespace sync_interval =
    let interval = effective_interval sync_interval in
    do
      fail_if (is_empty (trim_space namespace)) namespace_required
      fail_if (ltb interval minimum_sync_interval) interval_too_short
      fail_if (ltb 3074457345618258602 interval) interval_too_long
      ok (record {
        namespace = trim_space namespace;
        sync_interval = interval;
        registry = registry;
        last_success = none;
        retry_delay = min interval first_retry_delay;
      })

-- `staleAfter`.
abbrev pub stale_after : Discovery → ℕ
stale_after d = 3 * d.sync_interval

-- `Ready`, at a time.
unfoldable pub ready_at : ℕ → Discovery → Bool
ready_at now d = elim d.last_success [ none ↦ false | some last ↦ ltb (now - last) (stale_after d) ]

-- `snapshotStale`.
unfoldable pub snapshot_stale : ℕ → Discovery → Bool
snapshot_stale now d = elim d.last_success [
  | none ↦ false
  | some last ↦ leb (stale_after d) (now - last)
]

pub record Listing (T : Type 0) : Type 0 where
  pub deployments : List (ModelDeployment T)
  pub services : List Service
  pub slices : List EndpointSlice

-- What `Sync` returns: an error of the listing, one of the publication, or nil.
pub data SyncResult : Type 0 where
  listing_failed synced : SyncResult
  publication_failed : List BackendError → SyncResult

abbrev sync_result : List BackendError → SyncResult
sync_result [] = synced
sync_result (e ∷ errs) = publication_failed (e ∷ errs)

-- What `Run` does with the result: the new state, and the delay to the next round.
unfoldable pub after_sync : ℕ → SyncResult × Discovery → Discovery × ℕ
after_sync now (synced, d) =
    (record d { retry_delay = min d.sync_interval first_retry_delay }, d.sync_interval)
after_sync now (publication_failed errs, d) =
    (record d { retry_delay = min d.sync_interval first_retry_delay }, d.sync_interval)
after_sync now (listing_failed, d) =
    let slower = record d { retry_delay = min (d.retry_delay * 2) d.sync_interval } in
    let closed =
      mark_ready_unavailable
        (codes "model registry is stale because Kubernetes discovery is unavailable") d.registry in
    (if snapshot_stale now d then record slower { registry = closed } else slower, d.retry_delay)

module _ {T : Type 0} where
  unfoldable pub backends_for : Listing T → List Backend
  backends_for l =
      map (λ d. backend_for d (services_by_name l.services []) (ready_services_by_name l.slices))
        l.deployments

  -- `Sync`.
  unfoldable pub sync : ℕ → Option (Listing T) → Discovery → SyncResult × Discovery
  unfolding backends_for
  sync now none d = (listing_failed, d)
  sync now (some l) d =
      let (registry, errs) = replace (backends_for l) d.registry in
      (sync_result errs, record d { registry = registry; last_success = some now })

  -- One round of the loop.
  unfoldable pub run_round : ℕ → Option (Listing T) → Discovery → Discovery × ℕ
  unfolding after_sync
  run_round now listing d = after_sync now (sync now listing d)
