-- ===== src/Neg/Tests.antt =====
-- Syncs of a cluster of two zones, and the properties of the package at them.
mod Cloud
mod Parts
use ingress_gce.Base.{
  ℕ, ◌≡◌, refl, ap, sym, Bool, true, false, not, ◌&&◌, ◌||◌, Option, none, some, List, [], ◌∷◌,
  ◌++◌, Str, codes, itoa, cons_head, has_prefix, last_of, split, split_from, to_digits, str_eq,
  str_eq_iff, Result, ok, err, panic, Failure, All, if◌then◌else◌, Bool-cases, inl, inr, ◌⊎◌, arith,
}
use ingress_gce.Base.Split.{is_safe}
use ingress_gce.Base.Digits.{atoi, digits_value}
use ingress_gce.Base.Int.{pos}
use ingress_gce.Base.Maps.{get, put}
use ingress_gce.Sets.{StringSets, elem}
use ingress_gce.Sets.Listed.{list_sets, ListSet}
use ingress_gce.Neg.Endpoint.{
  retrieve_name, format_int, NetworkEndpoint, encode_endpoint, decode_endpoint, to_network_endpoint,
}
use ingress_gce.Neg.Endpoint.Codec.{encode, IsEncodable}
use ingress_gce.Neg.Cloud.Laws.{holds}
use ingress_gce.Neg.Sync.{
  difference_map, conclude, convert_all, launch, plan, pop_items, run_call, run_calls, then_plan,
  to_network_endpoint_batch, zone_plan, zones_plan, Call, finished, zone_set, calculate_difference,
  sync_network_endpoints,
}
use ingress_gce.Neg.Sync.Batches.{IsEncoded}
use ingress_gce.Neg.Sync.Plans.{IsMap}
use ingress_gce.Neg.Sync.Difference.{calculate_difference_lem}
use ingress_gce.Neg.Sync.Calls.{sync_converges, SameCalls}
use ingress_gce.Neg.Zones.{
  add_subsets, add_addresses, list_in_zones, insert_all, is_zero, is_number, match_one, match_port,
  EndpointAddress, EndpointPort, EndpointSubset, to_zone_network_endpoint_map,
  retrieve_existing_zone_network_endpoint_map,
}
use ingress_gce.Neg.Zones.Existing.{retrieve_existing_lem}
use ingress_gce.Neg.Zones.Target.{
  wants, wants_address, wants_addresses, to_zone_network_endpoint_map_lem,
}
use ingress_gce.Neg.Syncer.{
  ServicePort, halted, ensured, add_failure, matches_cluster, create_group, ensure_group,
  ensure_groups, ensure_network_endpoint_groups, sync_maps, sync_zones, sync,
}
use ingress_gce.Neg.Syncer.Reaches.{Readable, sync-reaches}
use ingress_gce.Neg.Syncer.Groups.{IsReady, ensure_network_endpoint_groups-IsReady}
use ingress_gce.Neg.Tests.Cloud.{
  node_zone, World, cloud, zones, empty_world, cloud-CloudLaws, cloud-GroupLaws,
}

abbrev pub two_zones : List Str
two_zones = codes "zone1" ∷ codes "zone2" ∷ []

abbrev service_port : ServicePort
service_port = record { namespace = codes "ns"; name = codes "svc"; target_port = codes "80" }

abbrev pub neg_name : Str
neg_name = codes "k8s1-uid1-ns-svc-80-0123abcd"

abbrev pub subsets : List EndpointSubset
subsets =
    record {
      addresses =
          record { ip = codes "10.1.2.3"; node_name = some (codes "instance1") }
          ∷ record { ip = codes "10.1.2.4"; node_name = some (codes "instance3") }
          ∷ [];
      ports = record { name = codes "http"; port = 80 } ∷ [];
    }
    ∷ []

abbrev pub first_key : Str
first_key = codes "10.1.2.3||instance1||80"

abbrev second_key : Str
second_key = codes "10.1.2.4||instance3||80"

abbrev pub same_order : List Call → List Call
same_order cs = cs

groups_made : (ensure_network_endpoint_groups zones cloud neg_name empty_world).0 ≡ ok none
unfolding ensure_network_endpoint_groups ensure_groups ensure_group create_group str_eq add_failure
groups_made = refl

ensure_network_endpoint_groups-IsReady_example :
    All
      (λ z.
        IsReady zones cloud cloud-GroupLaws neg_name z
          (ensure_network_endpoint_groups zones cloud neg_name empty_world).1)
      two_zones
ensure_network_endpoint_groups-IsReady_example =
    ensure_network_endpoint_groups-IsReady zones cloud cloud-GroupLaws neg_name two_zones
      empty_world refl groups_made

abbrev ready_world : World
ready_world = (ensure_network_endpoint_groups zones cloud neg_name empty_world).1

nothing_held : (z k : Str) → cloud-CloudLaws.content ready_world neg_name z k ≡ false
unfolding ensure_network_endpoint_groups ensure_groups ensure_group create_group holds
    cloud-CloudLaws str_eq
nothing_held z k = refl

abbrev pub first_endpoint : NetworkEndpoint
first_endpoint = record {
  instance_name = codes "instance1";
  ip_address = codes "10.1.2.3";
  port = pos 80;
}

abbrev second_endpoint : NetworkEndpoint
second_endpoint = record {
  instance_name = codes "instance3";
  ip_address = codes "10.1.2.4";
  port = pos 80;
}

pub first_IsEncodable : IsEncodable first_endpoint
unfolding is_safe
first_IsEncodable = record {
  ip = refl;
  instance_safe = refl;
  number = 80;
  is_port = refl;
  small = omega arith;
}

second_IsEncodable : IsEncodable second_endpoint
unfolding is_safe
second_IsEncodable = record {
  ip = refl;
  instance_safe = refl;
  number = 80;
  is_port = refl;
  small = omega arith;
}

two_of :
    (a b : Bool) (x y k : Str)
    → ((a && str_eq x k || (b && str_eq y k || false)) || false) ≡ true
    → (k ≡ x) ⊎ (k ≡ y)
two_of a b x y k h = elim (Bool-cases (str_eq x k)) [
  | inl e ↦ inl (sym ((str_eq_iff x k).0 e))
  | inr e ↦ inr (sym ((str_eq_iff y k).0 (ground arith)))
]

-- what the two addresses ask for
only_two :
    (z k : Str)
    → wants zones ready_world (codes "80") z k subsets ≡ true
    → (k ≡ encode first_endpoint) ⊎ (k ≡ encode second_endpoint)
unfolding wants wants_addresses wants_address node_zone match_port match_one atoi digits_value
    is_zero is_number str_eq format_int itoa
only_two z k h =
    two_of (str_eq (codes "zone1") z) (str_eq (codes "zone2") z) (encode first_endpoint)
      (encode second_endpoint) k h

cluster_Readable :
    Readable list_sets zones cloud cloud-CloudLaws same_order
      (λ p cs. refl)
      service_port
      neg_name
      subsets
      ready_world
cluster_Readable = record {
  zones = two_zones;
  listed = refl;
  wanted_encoded = λ z k h. elim (only_two z k h) [
    | inl e ↦ record { endpoint = first_endpoint; encodable = first_IsEncodable; form = e }
    | inr e ↦ record { endpoint = second_endpoint; encodable = second_IsEncodable; form = e }
  ];
  held_encoded = λ z k h. absurd (cc (nothing_held z k, h));
  held_listed = λ z k h. absurd (cc (nothing_held z k, h));
}

synced :
    (sync zones cloud list_sets same_order false false service_port neg_name
      (ok (some subsets))
      empty_world).0
    ≡ finished
unfolding sync halted ensured ensure_network_endpoint_groups ensure_groups ensure_group create_group
    str_eq add_failure sync_zones sync_maps to_zone_network_endpoint_map add_subsets match_port
    match_one atoi digits_value add_addresses node_zone retrieve_existing_zone_network_endpoint_map
    list_in_zones calculate_difference difference_map put list_sets zone_set get insert_all
    cons_head has_prefix itoa last_of split split_from to_digits decode_endpoint encode_endpoint
    format_int retrieve_name to_network_endpoint conclude convert_all launch plan pop_items run_call
    run_calls sync_network_endpoints then_plan to_network_endpoint_batch zone_plan zones_plan
    matches_cluster is_number is_zero elem
synced = refl

sync-reaches_example :
    cloud-CloudLaws.content
      (sync zones cloud list_sets same_order false false service_port neg_name
        (ok (some subsets))
        empty_world).1
      neg_name
      (codes "zone1")
      first_key
    ≡ wants zones ready_world (codes "80") (codes "zone1") first_key subsets
sync-reaches_example =
    sync-reaches list_sets zones cloud cloud-CloudLaws same_order (λ p cs. refl) service_port
      neg_name subsets empty_world cluster_Readable synced (codes "zone1") first_key

abbrev pub target : List (Str × list_sets.Set)
target = (codes "zone1", list_sets.insert list_sets.empty first_key) ∷ []
