-- ===== src/Lib.antt =====
-- A model of the decision logic of InferOps: the gateway that routes requests to model backends,
-- and the operator that places models on the nodes of a Kubernetes cluster.
--
-- The discovery loop of the gateway turns ModelDeployments into backends and publishes them in
-- the registry (`Replace`); when its snapshot is stale it closes every route
-- (`MarkReadyUnavailable`). The proxy asks the registry for the backend of each request path
-- (`Select`), with the number of active requests as the load. The API validator of the operator
-- and the registry accept the same route prefixes (`routingpath.Normalize`). The controllers of
-- the operator place caches and reserve GPUs of nodes through the planners, check a node before a
-- runtime is put on it, and report what they did in status conditions.
--
-- - Base: numbers with 64-bit wrap-around, strings as lists of bytes (Go's `<` on strings,
--   `HasPrefix`, `TrimPrefix`, `TrimSpace`), maps as association lists with what Go reads at a
--   missing key, `sort.Slice` as insertion sort, results with errors.
-- - Kube: the parts of Kubernetes objects that are read, and parameters for `resource.Quantity`
--   and the name rules of apimachinery, which are not part of the repository.
-- - RoutingPath: internal/routingpath/path.go. RoutingPath/Clean is `path.Clean` of Go's library,
--   by path elements.
-- - Routing/Types, Routing/Normalize, Routing/Registry: gateway/internal/routing/router.go.
--   `MemoryRegistry` is a record; an operation that writes it returns the new registry, since the
--   mutex makes each operation one step. `Select` writes the round-robin scores, so it returns a
--   registry too. `load` is a parameter, `none` for nil.
-- - Routing/Select: what `Select` returns. Routing/Invariant: what every sequence of operations
--   preserves, and what `Replace` and `MarkReadyUnavailable` leave in the registry.
-- - Scheduler/Nodes: operator/internal/scheduler/planner.go, the eligibility of nodes.
--   Scheduler/Gpu: operator/internal/scheduler/gpu.go, function by function.
-- - Scheduler/Cache: operator/internal/scheduler/planner.go, the cache planner. Reserve holds the
--   three loops over the other caches, Rank the loop over the nodes, Defs `Plan`.
--   Scheduler/Preflight: operator/internal/scheduler/preflight.go.
-- - Paths: operator/internal/paths/paths.go. Conditions: operator/internal/status/conditions.go.
--   Routing/ModelPath: `ParseModelPath` of the router.
-- - Auth: gateway/internal/auth/auth.go. `Tokens` takes the time and what the file holds; `Wrap`
--   is its decision on the headers, with `strings.Fields` and the header functions of net/http
--   written out.
-- - CacheContract: operator/internal/cachecontract/cache.go, `Identity` and `Lookup`
--   (`find_handoff`).
-- - Api: operator/api/v1alpha1, the types of ModelDeployment and ModelRuntime, and the names of
--   internal/runtimecontract/service.go and operator/internal/templates/templates.go.
-- - Proxy: gateway/internal/proxy/proxy.go. Tracker counts the active requests, Limiter is the
--   token bucket with float64 as a parameter, whose laws on whole numbers stand in Limiter/Levels
--   and hold of float64 below 2^53, Serve is `ServeHTTP` as a function of the request, the time
--   and a `Gateway` (registry, tracker and limiter), Drain is `ServeDrainStatus`.
-- - DrainChecker: operator/controllers/drain_checker.go, the aggregate over the EndpointSlices;
--   what a gateway answers, the decoding and the token file are arguments. DrainChecker/Gateways
--   puts `ServeDrainStatus` behind it.
-- - Discovery: gateway/internal/discovery/discovery.go. Gates is `backendFor`, with an early
--   return as an error; Sync is `Sync` and a round of `Run`, with the listing and the time as
--   arguments.
-- - Image: `ValidatePinnedImage` of operator/internal/resources/builder.go. Validation:
--   operator/internal/validation/validation.go, with the rules of apimachinery and
--   `time.ParseDuration` as parameters. Resolver: operator/internal/runtime/resolver.go and
--   resolved.go.
-- - Lifecycle: operator/controllers/modeldeployment_lifecycle_controller.go and
--   modeldeployment_lifecycle_transitions.go. Effective and Rollout are the values that a spec
--   stands for, Replicas what they reserve; Status sets conditions; Deactivate is
--   `reconcileDeactivation`, with what the API server and the gateways answer as an argument;
--   Target is `selectReplacementTarget`.
-- - Tests: the definitions at concrete inputs, and the theorems at inputs that meet their
--   hypotheses.
--
-- Every loop is structural recursion on the list that the code ranges over, so there is no fuel.
-- A Go map is ranged over in an order that the language leaves open; the model takes the order of
-- the association list, and where the result depends on it the code sorts. The text of error
-- messages is left out: an error is the constructor for the place where it is made. A nil
-- receiver is modelled where the code tests it and goes on. Arithmetic on `int` and `int64` wraps
-- at 64 bits. Not modelled: HTTP, logging, the Kubernetes client and its caches, timers, and the
-- reconcile loops of the operator around the steps named above.
pub mod Base
pub mod Kube
pub mod RoutingPath
pub mod Paths
pub mod Conditions
pub mod Routing
pub mod Api
pub mod Auth
pub mod CacheContract
pub mod Discovery
pub mod DrainChecker
pub mod Image
pub mod Lifecycle
pub mod Proxy
pub mod Resolver
pub mod Scheduler
pub mod Validation
pub mod Tests
