-- ===== src/Discovery/Laws.antt =====
-- Which deployments are published as ready (gateway/internal/discovery/discovery.go).
use inferops.Base.{
  List, [], ◌∷◌, ◌≡◌, refl, ◌⊎◌, inl, inr, Bool, true, false, Str, str_eq, str_beq_iff, any, In, ℤ,
  pos, ◌≤ℤ◌, or_zero, lookup, lookup-insert, arith, Result-cases, ok, or_zero,
}
use inferops.Kube.{EndpointSlice}
use inferops.Conditions.Defs.{Condition}
use inferops.Api.Spec.{is_active_desired}
use inferops.Api.Status.{phase_active, ModelDeployment, runtime_ready, model_loaded, routing_ready}
use inferops.Discovery.Endpoints.{
  slice_has_http_port, is_serving, add_ready, ready_services_from, ready_services_by_name,
}
use inferops.Discovery.Gates.{
  has_true, has_true_since, phase_gate, conditions_gate, deployment_gate,
}

module _ {T : Type 0} where
  -- A deployment whose runtime may be sent requests.
  pub record IsServable (d : ModelDeployment T) : Type 0 where
    pub desired : is_active_desired d.spec.activation.desired_state ≡ true
    pub phase : d.status.phase ≡ phase_active
    pub enabled : (d.spec.routing.enabled ≡ true) × (d.spec.routing.openai_compatible ≡ true)
    pub observed : d.generation ≤ℤ d.status.observed_generation
    pub runtime : has_true d.status.conditions runtime_ready ≡ true
    pub model : has_true d.status.conditions model_loaded ≡ true
    pub routing : has_true d.status.conditions routing_ready ≡ true
    pub loaded : d.status.model.loaded ≡ true
    pub replicas :
        (pos 1 ≤ℤ d.status.replicas.desired)
        × (d.status.replicas.desired ≤ℤ d.status.replicas.ready)

  has_true_since-has_true :
      (cs : List (Condition T)) (type : Str) (generation : ℤ)
      → has_true_since cs type generation ≡ true
      → has_true cs type ≡ true
  unfolding has_true_since has_true
  has_true_since-has_true [] type generation h = cc
  has_true_since-has_true (c ∷ cs) type generation h =
      ground (arith, h, has_true_since-has_true cs type generation)

  conditions_gate-open :
      (d : ModelDeployment T)
      → conditions_gate d ≡ ok tt
      → (has_true d.status.conditions runtime_ready ≡ true)
        × (has_true d.status.conditions model_loaded ≡ true)
        × (has_true d.status.conditions routing_ready ≡ true)
        × (d.status.model.loaded ≡ true)
  unfolding conditions_gate
  conditions_gate-open d h =
      let cs = d.status.conditions in
      ground (
        arith,
        h,
        has_true_since-has_true cs runtime_ready d.generation,
        has_true_since-has_true cs model_loaded d.generation,
        has_true_since-has_true cs routing_ready d.generation,
      )

  pub deployment_gate-IsServable :
      (d : ModelDeployment T) → deployment_gate d ≡ ok tt → IsServable d
  unfolding deployment_gate
  deployment_gate-IsServable d h = elim (Result-cases (conditions_gate d)) [
    | inr (bad, e) ↦ absurd (ground (arith, h, e))
    | inl (_, e) ↦
        let (runtime, model, routing, loaded) = conditions_gate-open d (ground (arith, e)) in
        record {
          desired = ground (arith, h);
          phase = unfold phase_gate in ground (arith, h);
          enabled = ground (arith, h);
          observed = ground (arith, h);
          runtime = runtime;
          model = model;
          routing = routing;
          loaded = loaded;
          replicas = ground (arith, h, e);
        }
  ]

-- A slice with the endpoint that makes a Service ready.
pub record HasEndpoint (slices : List EndpointSlice) (name : Str) : Type 0 where
  pub slice : EndpointSlice
  pub listed : In slice slices
  pub label : slice.service_label ≡ name
  pub kept : slice.is_deleting ≡ false
  pub port : slice_has_http_port slice ≡ true
  pub serving : any is_serving slice.endpoints ≡ true

add_ready_cases :
    (s : EndpointSlice) (ready_services : List (Str × Bool)) (name : Str)
    → or_zero false (lookup name (add_ready s ready_services)) ≡ true
    → (or_zero false (lookup name ready_services) ≡ true)
      ⊎ ((s.service_label ≡ name)
          × (s.is_deleting ≡ false)
          × (slice_has_http_port s ≡ true)
          × (any is_serving s.endpoints ≡ true))
unfolding add_ready
add_ready_cases s ready_services name h = ground (
  arith,
  h,
  lookup-insert s.service_label name true ready_services,
  str_beq_iff s.service_label name,
)

ready_services_from_sound :
    (all_slices slices : List EndpointSlice) (ready_services : List (Str × Bool)) (name : Str)
    → ((s : EndpointSlice) → In s slices → In s all_slices)
    → (or_zero false (lookup name ready_services) ≡ true → HasEndpoint all_slices name)
    → or_zero false (lookup name (ready_services_from slices ready_services)) ≡ true
    → HasEndpoint all_slices name
unfolding ready_services_from
ready_services_from_sound all_slices [] ready_services name sub before h = before h
ready_services_from_sound all_slices (s ∷ more) ready_services name sub before h =
    ready_services_from_sound all_slices more (add_ready s ready_services) name
      (λ x m. sub x (inr m))
      (λ now. elim (add_ready_cases s ready_services name now) [
        | inl old ↦ before old
        | inr (label, kept, port, serving) ↦ record {
          slice = s;
          listed = sub s (inl refl);
          label = label;
          kept = kept;
          port = port;
          serving = serving;
        }
      ])
      h

-- A Service counts as ready only with a ready endpoint.
pub ready_services-HasEndpoint :
    (slices : List EndpointSlice) (name : Str)
    → or_zero false (lookup name (ready_services_by_name slices)) ≡ true
    → HasEndpoint slices name
ready_services-HasEndpoint slices name h =
    ready_services_from_sound slices slices [] name (λ s m. m)
      (λ none_yet. absurd (unfold lookup in ground (arith, none_yet))) h
