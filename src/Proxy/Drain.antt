-- ===== src/Proxy/Drain.antt =====
-- `ServeDrainStatus` (gateway/internal/proxy/proxy.go), of a registry with `Backends`.
use inferops.Base.{
  List, Bool, true, false, not, ◌&&◌, ◌||◌, if◌then◌else◌, Str, ◌==◌, str_eq, is_empty, codes,
  trim_space, ℤ, pos, eqb_ℤ, keep, map,
}
use inferops.Routing.Types.{State, draining, Backend}
use inferops.Routing.Registry.Defs.{MemoryRegistry}
use inferops.Routing.Registry.Ops.{backends}
use inferops.Proxy.Tracker.{RequestTracker, active_count}

pub record DrainBackendStatus : Type 0 where
  pub namespace : Str
  pub model : Str
  pub route_prefix : Str
  pub state : State
  pub active_requests : ℤ
  pub draining : Bool
  pub drain_complete : Bool
  pub message : Str

-- What is read of the request: the method, and the query values (empty if missing).
pub record DrainRequest : Type 0 where
  pub method : Str
  pub namespace : Str
  pub model : Str

pub data DrainReply : Type 0 where
  method_not_allowed : DrainReply
  drain_status : List DrainBackendStatus → DrainReply

abbrev pub is_draining : State → Bool
is_draining draining = true
is_draining _ = false

-- A filter that is set must agree.
abbrev pub passes : Str → Str → Bool
passes filter value = is_empty filter || value == filter

unfoldable pub status_of : RequestTracker → Backend → DrainBackendStatus
status_of t b =
    let active = active_count b t in
    record {
      namespace = b.namespace;
      model = b.name;
      route_prefix = b.route_prefix;
      state = b.state;
      active_requests = active;
      draining = is_draining b.state;
      drain_complete = is_draining b.state && eqb_ℤ active (pos 0);
      message = b.message;
    }

-- The loop over the backends: those that the filters let through, with their status.
unfoldable pub statuses : Str → Str → RequestTracker → List Backend → List DrainBackendStatus
unfolding status_of
statuses namespace_filter model_filter t bs =
    map (status_of t)
      (keep (λ b. passes namespace_filter b.namespace && passes model_filter b.name) bs)

unfoldable pub serve_drain_status : DrainRequest → MemoryRegistry → RequestTracker → DrainReply
unfolding statuses
serve_drain_status request registry t =
    if not (request.method == codes "GET")
    then method_not_allowed
    else drain_status
        (statuses (trim_space request.namespace) (trim_space request.model) t (backends registry))
