-- ===== src/Neg/Tests/Parts.antt =====
-- The parts of a sync at the small cluster.
use ingress_gce.Base.{
  ◌≡◌, refl, sym, true, false, ◌||◌, List, [], ◌∷◌, Str, codes, cons_head, has_prefix, last_of,
  split, split_from, to_digits, str_eq, str_eq_iff, itoa, ok, arith,
}
use ingress_gce.Base.Split.{is_safe, is_safe-IsFree}
use ingress_gce.Base.Maps.{get, put}
use ingress_gce.Base.Digits.{atoi, digits_value}
use ingress_gce.Sets.{elem}
use ingress_gce.Sets.Listed.{list_sets}
use ingress_gce.Neg.Endpoint.{encode_endpoint, decode_endpoint, to_network_endpoint, format_int}
use ingress_gce.Neg.Endpoint.Codec.{encode, decode-encode, to_network_endpoint-encode}
use ingress_gce.Neg.Cloud.Laws.{holds}
use ingress_gce.Neg.Sync.{
  difference_map, conclude, convert_all, launch, pop_items, run_call, run_calls, then_plan,
  to_network_endpoint_batch, zone_plan, zones_plan, finished, zone_set, calculate_difference,
  sync_network_endpoints, plan,
}
use ingress_gce.Neg.Sync.Batches.{IsEncoded, AllEncoded}
use ingress_gce.Neg.Sync.Calls.{sync_converges}
use ingress_gce.Neg.Zones.{
  add_subsets, add_addresses, list_in_zones, insert_all, is_zero, is_number, match_one, match_port,
  to_zone_network_endpoint_map, retrieve_existing_zone_network_endpoint_map,
}
use ingress_gce.Neg.Tests.{
  first_endpoint, first_key, first_IsEncodable, neg_name, subsets, same_order, target,
}
use ingress_gce.Neg.Tests.Cloud.{node_zone, cloud, zones, empty_world, cloud-CloudLaws}

decode-encode_example :
    decode_endpoint (encode_endpoint (codes "10.1.2.3") (codes "instance1") (codes "80"))
    ≡ ok (codes "10.1.2.3", codes "instance1", codes "80")
unfolding is_safe
decode-encode_example =
    decode-encode (codes "10.1.2.3") (codes "instance1") (codes "80") refl refl
      (is_safe-IsFree b'|' (codes "80") refl)

to_network_endpoint-encode_example : to_network_endpoint (encode first_endpoint) ≡ ok first_endpoint
to_network_endpoint-encode_example = to_network_endpoint-encode first_endpoint first_IsEncodable

one_key : (k : Str) → (str_eq first_key k || false) ≡ true → IsEncoded k
unfolding format_int itoa encode_endpoint
one_key k h = record {
  endpoint = first_endpoint;
  encodable = first_IsEncodable;
  form = sym ((str_eq_iff first_key k).0 (ground arith));
}

abbrev one_item : list_sets.Set
one_item = list_sets.insert list_sets.empty first_key

one_item-AllEncoded : AllEncoded list_sets one_item
unfolding list_sets elem
one_item-AllEncoded k h = one_key k h

sent :
    (sync_network_endpoints list_sets cloud same_order neg_name
      (calculate_difference list_sets target []).0
      (calculate_difference list_sets target []).1
      empty_world).0
    ≡ finished
unfolding str_eq atoi digits_value calculate_difference difference_map list_sets zone_set get
    cons_head has_prefix itoa last_of split split_from to_digits decode_endpoint encode_endpoint
    format_int to_network_endpoint conclude convert_all launch plan pop_items run_call run_calls
    sync_network_endpoints then_plan to_network_endpoint_batch zone_plan zones_plan elem
sent = refl

sync_converges_example :
    (let diff = calculate_difference list_sets target [] in
      cloud-CloudLaws.content
        (sync_network_endpoints list_sets cloud same_order neg_name diff.0 diff.1 empty_world).1
        neg_name
        (codes "zone1")
        first_key)
    ≡ list_sets.has (zone_set list_sets target (codes "zone1")) first_key
unfolding get cloud-CloudLaws zone_set list_sets elem holds
sync_converges_example =
    sync_converges list_sets cloud cloud-CloudLaws same_order neg_name target [] empty_world
      (λ p cs. refl) (refl, tt) tt (one_item-AllEncoded, tt) tt (codes "zone1") first_key refl sent

abbrev read_target : List (Str × list_sets.Set)
read_target =
    (codes "zone1", list_sets.insert list_sets.empty first_key)
    ∷ (codes "zone2", list_sets.insert list_sets.empty (codes "10.1.2.4||instance3||80"))
    ∷ []

read :
    to_zone_network_endpoint_map list_sets zones empty_world (codes "80") subsets ≡ ok read_target
unfolding to_zone_network_endpoint_map add_subsets match_port match_one atoi digits_value
    add_addresses node_zone list_sets zone_set get put itoa encode_endpoint format_int is_number
    is_zero elem str_eq
read = refl

listed :
    retrieve_existing_zone_network_endpoint_map list_sets zones cloud empty_world neg_name
    ≡ ok ((codes "zone1", list_sets.empty) ∷ (codes "zone2", list_sets.empty) ∷ [])
unfolding retrieve_existing_zone_network_endpoint_map list_in_zones list_sets insert_all put str_eq
listed = refl
