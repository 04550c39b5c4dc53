-- ===== src/Tests/Discovery.antt =====
-- Discovery at work on one deployment.
use inferops.Discovery.Gates.{some_or}
use inferops.Discovery.Gates.{phase_gate}
use inferops.Base.{sort_by}
use inferops.RoutingPath.Defs.{normalize}
use inferops.Discovery.Endpoints.{add_ready}
use inferops.Discovery.Sync.{after_sync}
use inferops.RoutingPath.Clean.{clean}
use inferops.Discovery.Sync.{sync}
use inferops.Discovery.Gates.{deployment_gate}
use inferops.Routing.Normalize.{normalize_traffic_policy}
use inferops.Routing.Registry.Ops.{group}
use inferops.Base.{trim_space}
use inferops.Base.{insert}
use inferops.RoutingPath.Clean.{split}
use inferops.Routing.Registry.Ops.{mark_backend}
use inferops.RoutingPath.Defs.{reserved_by}
use inferops.Discovery.Gates.{service_gate}
use inferops.Routing.Registry.Ops.{prune_round_robin}
use inferops.Routing.Registry.Ops.{group_result}
use inferops.Discovery.Gates.{endpoint_for}
use inferops.RoutingPath.Defs.{default_model_route}
use inferops.Routing.Normalize.{normalize_backend}
use inferops.Base.{has_prefix}
use inferops.Routing.Registry.Defs.{backend_less}
use inferops.Routing.Registry.Ops.{replace}
use inferops.Base.{contains_any}
use inferops.Discovery.Gates.{routing_policy}
use inferops.Base.{insert_by}
use inferops.Routing.Registry.Ops.{mark_all}
use inferops.Base.{itoa}
use inferops.Base.{trim_suffix_byte}
use inferops.Discovery.Sync.{snapshot_stale}
use inferops.Discovery.Sync.{backends_for}
use inferops.Base.{drop}
use inferops.Discovery.Gates.{backend_for}
use inferops.Discovery.Gates.{has_true_since}
use inferops.Routing.Registry.Ops.{mark_ready_unavailable}
use inferops.Routing.Registry.Defs.{rebuild_prefixes}
use inferops.Discovery.Gates.{rollout_blocked}
use inferops.Base.{join_host_port}
use inferops.Routing.Registry.Defs.{sort_backends}
use inferops.Routing.Registry.Ops.{prune_scores}
use inferops.Routing.Registry.Ops.{group_one}
use inferops.RoutingPath.Clean.{push_all}
use inferops.Discovery.Endpoints.{runtime_http_port_of}
use inferops.RoutingPath.Clean.{push}
use inferops.RoutingPath.Clean.{join}
use inferops.Discovery.Endpoints.{ready_services_from}
use inferops.Routing.Registry.Ops.{sort_routes}
use inferops.Routing.Registry.Defs.{prefix_less}
use inferops.Discovery.Gates.{has_true}
use inferops.Discovery.Gates.{conditions_gate}
use inferops.Discovery.Endpoints.{owned_by}
use inferops.Discovery.Endpoints.{slice_has_http_port}
use inferops.Routing.Registry.Ops.{mark_routes}
use inferops.Base.{str_lt}
use inferops.Base.{ℕ, [], ◌∷◌, ◌≡◌, refl, inl, true, none, some, codes, In, str_eq, arith, lookup}
use inferops.Kube.{Service}
use inferops.Api.Status.{ModelDeployment}
use inferops.Routing.Types.{Backend, Url, ready, least_loaded}
use inferops.Routing.Registry.Defs.{new_memory_registry, candidates_at}
use inferops.Discovery.Endpoints.{services_by_name}
use inferops.Discovery.Gates.{runtime_service_name}
use inferops.Discovery.Laws.{IsServable, HasEndpoint}
use inferops.Discovery.Publish.{IsServiceOf}
use inferops.Discovery.Sync.{Discovery, Listing, ready_at, run_round}
use inferops.Discovery.Fresh.{started, next, Running-IsFresh, run_round-ready}
use inferops.Tests.Objects.{deployment, service, slice}

abbrev start : Discovery
start = record {
  namespace = codes "ns";
  sync_interval = 5000000000;
  registry = new_memory_registry;
  last_success = none;
  retry_delay = 250000000;
}

abbrev listing : Listing ℕ
listing = record { deployments = deployment ∷ []; services = service ∷ []; slices = slice ∷ [] }

abbrev published : Backend
published = record {
  name = codes "m";
  namespace = codes "ns";
  route_prefix = codes "/m";
  endpoint =
      some (record { scheme = codes "http"; host = codes "m-runtime.ns.svc:8000"; path = [] });
  state = ready;
  message = [];
  policy = record {
    routing_strategy = least_loaded;
    weight = none;
    rate_limit = none;
    request_logging = none;
  };
}

abbrev after : Discovery
after = (run_round 7 (some listing) start).0

published_test : candidates_at (codes "/m") after.registry.routes ≡ published ∷ []
unfolding add_ready after_sync backend_for backend_less backends_for clean conditions_gate
    contains_any default_model_route deployment_gate drop endpoint_for group group_one group_result
    has_prefix has_true has_true_since insert insert_by itoa join join_host_port lookup mark_all
    mark_backend mark_ready_unavailable mark_routes normalize normalize_backend
    normalize_traffic_policy owned_by phase_gate prefix_less prune_round_robin prune_scores push
    push_all ready_services_from rebuild_prefixes replace reserved_by rollout_blocked routing_policy
    run_round runtime_http_port_of service_gate services_by_name slice_has_http_port snapshot_stale
    some_or sort_backends sort_by sort_routes split str_lt sync trim_space trim_suffix_byte
published_test = refl

is_published : In published (candidates_at (codes "/m") after.registry.routes)
is_published = rw published_test (inl refl)

run_round-ready_example :
    (m : ModelDeployment ℕ) × In m listing.deployments
    × IsServable m
    × (published.namespace ≡ m.namespace)
    × (published.route_prefix ≡ codes "/m")
    × ((s : Service) × (u : Url) × (lookup
            (runtime_service_name m)
            (services_by_name listing.services [])
          ≡ some s)
        × IsServiceOf m u s
        × HasEndpoint listing.slices s.name
        × (published.endpoint ≡ some u))
run_round-ready_example = run_round-ready 7 listing start (codes "/m") published is_published refl

Running-IsFresh_example : ready_at 7 after ≡ true
Running-IsFresh_example =
    Running-IsFresh
      (next {before = 1} {d = start} 7 (some listing) (omega arith)
        (started 1 start refl (omega arith)))
      (codes "/m", published, is_published, refl)
