-- ===== src/Tests/Contract.antt =====
-- The contract of caches.
use inferops.Base.{[], ◌∷◌, ◌++◌, ◌≡◌, ◌↔◌, arith, refl, true, false, some, codes, ok, Str}
use inferops.CacheContract.{ArtifactSpec, newline, identity_of, has_ready_condition, find_handoff}
use inferops.CacheContract.Laws.{identity_of_iff, IsSameArtifact}
use inferops.Scheduler.Cache.Types.{ModelCache, ready}

abbrev implicit : ArtifactSpec
implicit = record { namespace = codes "n"; name = codes "d"; repo = codes "r"; revision = [] }

abbrev explicit : ArtifactSpec
explicit = record implicit { revision = codes "main" }

identity_of_test : identity_of (some implicit) ≡ identity_of (some explicit)
unfolding identity_of
identity_of_test = refl

abbrev text : Str
text = codes "n\nd\nr\nmain"

implicit_test : identity_of (some implicit) ≡ ok text
unfolding identity_of
implicit_test = refl

explicit_test : identity_of (some explicit) ≡ ok text
unfolding identity_of
explicit_test = refl

abbrev cache : ModelCache
cache = record {
  uid = codes "u";
  spec = record {
    model_repo = codes "r";
    revision = [];
    storage = record {
      type = codes "nodeLocal";
      size = codes "1";
      node_name = [];
      node_selector = [];
      tolerations = [];
      path = codes "/c";
    };
  };
  status = record {
    phase = ready;
    revision = codes "main";
    node_name = codes "a";
    path = codes "/c";
    reserved_size = [];
    conditions = record { type = codes "Ready"; status = codes "True" } ∷ [];
  };
}

-- The handoff of that cache, and none while its condition is not True.
handoff_test :
    find_handoff (some cache)
    ≡ record { is_ready = true; node_name = codes "a"; path = codes "/c"; revision = codes "main" }
unfolding find_handoff has_ready_condition
handoff_test = refl

condition_test :
    has_ready_condition (record { type = codes "Ready"; status = codes "False" } ∷ []) ≡ false
unfolding has_ready_condition
condition_test = refl

abbrev first_artifact : ArtifactSpec
first_artifact = record {
  namespace = codes "ns";
  name = codes "m";
  repo = codes "r";
  revision = [];
}

abbrev second_artifact : ArtifactSpec
second_artifact = record first_artifact { revision = codes "v2" }

abbrev first_identity : Str
first_identity = codes "ns" ++ newline ∷ codes "m" ++ newline ∷ codes "r" ++ newline ∷ codes "main"

abbrev second_identity : Str
second_identity = codes "ns" ++ newline ∷ codes "m" ++ newline ∷ codes "r" ++ newline ∷ codes "v2"

first_test : identity_of (some first_artifact) ≡ ok first_identity
unfolding identity_of
first_test = refl

second_test : identity_of (some second_artifact) ≡ ok second_identity
unfolding identity_of
second_test = refl

identity_of_iff_example :
    (first_identity ≡ second_identity) ↔ IsSameArtifact first_artifact second_artifact
identity_of_iff_example =
    identity_of_iff first_artifact second_artifact first_identity second_identity
      (ground arith, ground arith, ground arith) (ground arith, ground arith, ground arith)
      first_test second_test
