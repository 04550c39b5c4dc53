-- ===== src/Tests/Conditions.antt =====
-- Status conditions and model paths.
use inferops.Base.{
  ℕ, List, [], ◌∷◌, ◌++◌, ◌≡◌, ◌≢◌, ◌↔◌, refl, true, some, Str, str_eq, codes, pos, arith, nat_beq,
  has_prefix, index_byte, trim_prefix, take,
}
use inferops.RoutingPath.Clean.{is_abs}
use inferops.RoutingPath.Segments.{IsPlain}
use inferops.RoutingPath.Defs.{default_model_route}
use inferops.Routing.ModelPath.{parse_model_path, parse_model_path_iff}
use inferops.Conditions.Defs.{Times, Condition, find_condition, set_condition}
use inferops.Conditions.Laws.{SaysSame, set_condition-find}

same_second : (n : ℕ) → nat_beq n n ≡ true
same_second n = ground arith

abbrev seconds : Times
seconds = record { Time = ℕ; is_zero = nat_beq 0; equal = nat_beq; equal_refl = same_second }

abbrev condition : Str → ℕ → Condition ℕ
condition status time = record {
  type = codes "Ready";
  status = status;
  observed_generation = pos 0;
  last_transition_time = time;
  reason = [];
  message = [];
}

abbrev before : List (Condition ℕ)
before = condition (codes "True") 5 ∷ []

-- The status is the same, so the time stays, and the generation is new.
set_condition_test :
    set_condition seconds 9 before (pos 2) (condition (codes "True") 0)
    ≡ (record (condition (codes "True") 5) { observed_generation = pos 2 } ∷ [], true)
unfolding set_condition
set_condition_test = refl

set_condition-find_example :
    ((d : Condition ℕ) × (find_condition
          (set_condition seconds 9 before (pos 2) (condition (codes "True") 0)).0
          (codes "Ready")
        ≡ some d)
      × SaysSame seconds 9 d (record (condition (codes "True") 0) { observed_generation = pos 2 })
      × ((old : Condition ℕ)
          → find_condition before (codes "Ready") ≡ some old
          → old.status ≡ codes "True"
          → d.last_transition_time ≡ old.last_transition_time))
    × ((type : Str)
        → type ≢ codes "Ready"
        → find_condition
            (set_condition seconds 9 before (pos 2) (condition (codes "True") 0)).0
            type
          ≡ find_condition before type)
set_condition-find_example =
    set_condition-find seconds 9 before (pos 2) (condition (codes "True") 0)

parse_model_path_test : parse_model_path (codes "/models/m/v1/x") ≡ some (codes "m", codes "/v1/x")
unfolding parse_model_path has_prefix index_byte trim_prefix take
parse_model_path_test = refl

parse_model_path_iff_example :
    (parse_model_path (codes "/models/m/v1/x") ≡ some (codes "m", codes "/v1/x")) ↔ (
      IsPlain (codes "m")
      × (is_abs (codes "/v1/x") ≡ true)
      × (codes "/models/m/v1/x" ≡ default_model_route (codes "m") ++ codes "/v1/x"))
parse_model_path_iff_example =
    parse_model_path_iff (codes "/models/m/v1/x") (codes "m") (codes "/v1/x")
