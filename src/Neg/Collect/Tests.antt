-- ===== src/Neg/Collect/Tests.antt =====
-- A garbage collection in a cloud with a group that no service needs.
use ingress_gce.Base.{
  ◌≡◌, refl, ap, true, false, ◌&&◌, Option, none, some, List, [], ◌∷◌, ◌++◌, Str, codes, str_eq,
  str_eq_refl, subst, Error, has_prefix, Result, ok, err, api, plain, if◌then◌else◌, Bool-cases,
  inl, inr,
}
use ingress_gce.Base.Outcome.{err-injective}
use ingress_gce.Http.{is_not_found_error, is_http_error_code}
use ingress_gce.Sets.{elem}
use ingress_gce.Sets.Listed.{list_sets}
use ingress_gce.Neg.Cloud.{NetworkEndpointGroup, NegCloud}
use ingress_gce.Neg.Sync.{finished, halt_of}
use ingress_gce.Neg.Manager.{ServiceKey, ServiceKey_Eq, NegNamer, Manager}
use ingress_gce.Neg.Collect.{
  go_on, ensure_delete_network_endpoint_group, delete_in_zone, delete_in_zones, insert_names,
  listed_names, delete_ports, delete_in_use, unused_names, garbage_collect_neg,
}
use ingress_gce.Neg.Collect.Names.{has_group, some_zone_has, port_uses, in_use}
use ingress_gce.Neg.Collect.Loops.{IsGone, DeletionLaws}
use ingress_gce.Neg.Collect.Keeps.{garbage_collect_neg-IsGone}

-- the groups by name and zone
abbrev World : Type 0
World = Str → Str → Option NetworkEndpointGroup

abbrev old_name : Str
old_name = codes "k8s1-uid1-default-old-80"

abbrev old_group : NetworkEndpointGroup
old_group = record {
  name = old_name;
  neg_type = codes "LOAD_BALANCING";
  network_endpoint_type = codes "GCE_VM_IP_PORT";
  network = codes "default";
  subnetwork = codes "default";
}

found : Option NetworkEndpointGroup → Result NetworkEndpointGroup
found none = err (api 404 (codes "Not Found"))
found (some g) = ok g

drop_group : Str → Str → World → World
drop_group name zone w n z = if str_eq name n && str_eq zone z then none else w n z

-- the listing of the one group that there may be
listing : World → List NetworkEndpointGroup
listing w = elim (w old_name (codes "zone1")) [ none ↦ [] | some g ↦ g ∷ [] ]

abbrev cloud : NegCloud World
cloud = record {
  get_network_endpoint_group = λ name zone w. found (w name zone);
  aggregated_list_network_endpoint_group = λ w. ok ((codes "zone1", listing w) ∷ []);
  create_network_endpoint_group = λ g zone w. (some (plain (codes "quota")), w);
  delete_network_endpoint_group = λ name zone w. (none, drop_group name zone w);
  attach_network_endpoints = λ name zone es w. (some (plain (codes "quota")), w);
  detach_network_endpoints = λ name zone es w. (some (plain (codes "quota")), w);
  list_network_endpoints = λ name zone w. ok [];
  network_url = codes "default";
  subnetwork_url = codes "default";
}

drop_group-other :
    (name zone n z : Str) (w : World) → str_eq name n ≡ false → drop_group name zone w n z ≡ w n z
unfolding drop_group
drop_group-other name zone n z w e = rw e refl

drop_group-here : (name zone : Str) (w : World) → drop_group name zone w name zone ≡ none
unfolding drop_group
drop_group-here name zone w = rw (str_eq_refl name, str_eq_refl zone) refl

drop_group-IsGone :
    (name zone n z : Str) (w : World)
    → IsGone cloud n z w
    → IsGone cloud n z (drop_group name zone w)
unfolding drop_group found is_not_found_error is_http_error_code
drop_group-IsGone name zone n z w (e, gone, missing) =
    elim (Bool-cases (str_eq name n && str_eq zone z)) [
      | inl b ↦ rw b (_, refl, refl)
      | inr b ↦ rw b (e, gone, missing)
    ]

found-missing :
    (o : Option NetworkEndpointGroup) (e : Error)
    → found o ≡ err e
    → is_not_found_error (some e) ≡ true
unfolding found is_not_found_error is_http_error_code
found-missing none e h = subst (λ x. is_not_found_error (some x) ≡ true) (err-injective _ e h) refl
found-missing (some g) e h = absurd (cc h)

cloud-DeletionLaws : DeletionLaws cloud
unfolding found is_not_found_error is_http_error_code
cloud-DeletionLaws = record {
  other_name = λ w name zone n z e. ap found (drop_group-other name zone n z w e);
  deleted = λ w name zone h. (_, ap found (drop_group-here name zone w), refl);
  fails_for_missing = λ w name zone e h. found-missing (w name zone) e h;
  stays_gone = λ w name zone n z g. drop_group-IsGone name zone n z w g;
}

abbrev namer : NegNamer
namer = record {
  neg = λ namespace name port.
      codes "k8s1-uid1-" ++ (namespace ++ (codes "-" ++ (name ++ (codes "-" ++ port))));
  is_neg = λ name. has_prefix (codes "k8s1-uid1") name;
}

abbrev web : ServiceKey
web = record { namespace = codes "default"; name = codes "web" }

abbrev port80 : list_sets.Set
port80 = list_sets.insert list_sets.empty (codes "80")

abbrev manager : Manager list_sets
manager = record { svc_port_map = (web, port80) ∷ []; syncer_map = [] }

-- no other goroutine changes the cloud
abbrev undisturbed : World → World
undisturbed w = w

world : World
world name zone =
    if str_eq name old_name && str_eq zone (codes "zone1") then some old_group else none

one_listed :
    cloud.aggregated_list_network_endpoint_group world ≡ ok ((codes "zone1", old_group ∷ []) ∷ [])
unfolding listing world str_eq
one_listed = refl

done : (garbage_collect_neg list_sets namer cloud undisturbed manager world).0 ≡ finished
unfolding garbage_collect_neg listing world str_eq delete_in_zones delete_in_zone
    ensure_delete_network_endpoint_group unused_names delete_in_use delete_ports listed_names
    insert_names list_sets elem halt_of go_on found drop_group has_prefix
done = refl

garbage_collect_neg-IsGone_example :
    IsGone cloud old_name
      (codes "zone1")
      (garbage_collect_neg list_sets namer cloud undisturbed manager world).1
unfolding some_zone_has has_group in_use port_uses str_eq list_sets elem has_prefix
garbage_collect_neg-IsGone_example =
    garbage_collect_neg-IsGone cloud cloud-DeletionLaws list_sets namer undisturbed manager world
      ((codes "zone1", old_group ∷ []) ∷ []) old_name (codes "zone1") one_listed done refl refl refl
      (λ v g. g)
