-- ===== src/Neg/Syncer.antt =====
-- The syncer of one service port in pkg/networkendpointgroup/syncer.go: the groups of the zones and the
-- whole of one sync. Events and logs are left out.
pub mod Reaches
pub mod Groups
use ingress_gce.Base.{
  Bool, true, false, ◌&&◌, ◌||◌, not, Option, none, some, List, [], ◌∷◌, ◌++◌, Str, codes, str_eq,
  Error, Result, ok, err, panic, Failure, new_aggregate, length, ◌==◌, if◌then◌else◌,
}
use ingress_gce.Sets.{StringSets}
use ingress_gce.Neg.Endpoint.{retrieve_name}
use ingress_gce.Neg.Cloud.{NetworkEndpointGroup, ZoneGetter, NegCloud}
use ingress_gce.Neg.Sync.{
  Call, Halt, finished, failed, panicked, calculate_difference, sync_network_endpoints,
}
use ingress_gce.Neg.Zones.{
  EndpointSubset, to_zone_network_endpoint_map, retrieve_existing_zone_network_endpoint_map,
}

pub record ServicePort : Type 0 where
  pub namespace : Str
  pub name : Str
  pub target_port : Str

-- The loop stops with an error or a panic of a call, which a zone or a map cannot be read without.
unfoldable pub halted {ℓ} :
    {A : Type ℓ} {World : Type 0} → Result A → (A → World → Halt × World) → World → Halt × World
halted (ok a) rest w = rest a w
halted (err e) rest w = (failed e, w)
halted panic rest w = (panicked, w)

-- The sync goes on if the groups were ensured with no error.
unfoldable pub ensured :
    {World : Type 0} → Result Failure × World → (World → Halt × World) → Halt × World
ensured (ok none, w) rest = rest w
ensured (ok (some e), w) rest = (failed e, w)
ensured (err e, w) rest = (failed e, w)
ensured (panic, w) rest = (panicked, w)

unfoldable pub add_failure : Failure → List Error → List Error
add_failure none errors = errors
add_failure (some e) errors = errors ++ e ∷ []

module _ {World : Type 0} (Z : ZoneGetter World) (C : NegCloud World) where
  open C use {network_url, subnetwork_url}

  -- The names of the networks are compared, not their URLs.
  unfoldable pub matches_cluster : NetworkEndpointGroup → Bool
  matches_cluster g =
      str_eq (retrieve_name g.network) (retrieve_name network_url)
      && str_eq (retrieve_name g.subnetwork) (retrieve_name subnetwork_url)

  abbrev pub new_group : Str → NetworkEndpointGroup
  new_group neg_name = record {
    name = neg_name;
    neg_type = codes "LOAD_BALANCING";
    network_endpoint_type = codes "GCE_VM_IP_PORT";
    network = network_url;
    subnetwork = subnetwork_url;
  }

  unfoldable pub create_group : Str → Str → List Error × World → List Error × World
  create_group neg_name zone (errors, w) =
      let done = C.create_network_endpoint_group (new_group neg_name) zone w in
      (add_failure done.0 errors, done.1)

  -- An error of the lookup is taken for a group that is not there.
  unfoldable pub ensure_group : Str → Str → List Error × World → List Error × World
  ensure_group neg_name zone (errors, w) = elim (C.get_network_endpoint_group neg_name zone w) [
    | ok g ↦
        if matches_cluster g
        then (errors, w)
        else (let gone = C.delete_network_endpoint_group neg_name zone w in
            create_group neg_name zone (add_failure gone.0 errors, gone.1))
    | err e ↦ create_group neg_name zone (errors, w)
    -- a lookup in the cloud does not panic
    | panic ↦ (errors, w)
  ]

  unfoldable pub ensure_groups : Str → List Str → List Error × World → List Error × World
  ensure_groups neg_name [] state = state
  ensure_groups neg_name (zone ∷ zones) state =
      ensure_groups neg_name zones (ensure_group neg_name zone state)

  -- The error of the zones' listing, or the aggregate of the zones' errors, none if there are none.
  unfoldable pub ensure_network_endpoint_groups : Str → World → Result Failure × World
  ensure_network_endpoint_groups neg_name w = elim (Z.list_zones w) [
    | ok zones ↦
        (let done = ensure_groups neg_name zones ([], w) in (ok (new_aggregate done.0), done.1))
    | err e ↦ (err e, w)
    | panic ↦ (panic, w)
  ]

  module _ (S : StringSets) (schedule : List Call → List Call) where
    -- from the two maps on
    unfoldable pub sync_maps : Str → List (Str × S.Set) → List (Str × S.Set) → World → Halt × World
    sync_maps neg_name target_map current_map w =
        let diff = calculate_difference S target_map current_map in
        if length diff.0 == 0 && length diff.1 == 0
        then (finished, w)
        else sync_network_endpoints S C schedule neg_name diff.0 diff.1 w

    -- from the two readings on
    unfoldable pub sync_zones : ServicePort → Str → List EndpointSubset → World → Halt × World
    sync_zones p neg_name subsets w =
        halted (to_zone_network_endpoint_map S Z w p.target_port subsets)
          (λ target_map w1.
            halted (retrieve_existing_zone_network_endpoint_map S Z C w1 neg_name)
              (λ current_map w2. sync_maps neg_name target_map current_map w2) w1)
          w

    -- `found` is what the endpoint lister answers: an error, nothing, or the object's subsets.
    unfoldable pub sync :
        Bool
        → Bool
        → ServicePort
        → Str
        → Result (Option (List EndpointSubset))
        → World
        → Halt × World
    sync stopped shutting_down p neg_name found w =
        if stopped || shutting_down
        then (finished, w)
        else halted found
            (λ object w0. elim object [
              | none ↦ (finished, w0)
              | some subsets ↦
                  ensured (ensure_network_endpoint_groups neg_name w0)
                    (λ w1. sync_zones p neg_name subsets w1)
            ])
            w
