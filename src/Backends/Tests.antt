-- ===== src/Backends/Tests.antt =====
-- A cloud of backend services, found by name.
use ingress_gce.Base.{
  ◌≡◌, refl, ap, sym, ◌∙◌, Bool-cases, inl, inr, true, false, Option, none, some, List, map, [],
  ◌∷◌, contains, has_prefix, itoa, to_digits, arith, Str, codes, str_eq, str_eq_refl, str_eq_iff,
  Result, ok, err, api, Failure, if◌then◌else◌,
}
use ingress_gce.Base.Outcome.{ok-injective}
use ingress_gce.Http.{is_http_error_code, is_not_found_error}
use ingress_gce.Namer.{
  Namer, backend, decorate_name, truncate, uid, neg, neg_of, neg_suffix, neg_prefix,
}
use ingress_gce.Trim.{trim_fields_evenly, total_length}
use ingress_gce.Sets.{elem, new_string}
use ingress_gce.Base.Maps.{get as map_get, put, remove, str_Eq}
use ingress_gce.Base.Digits.{all_digits, digits_value}
use ingress_gce.Pools.{snapshot, copy_keys}
use ingress_gce.Sets.Listed.{list_sets}
use ingress_gce.HealthCheck.{protocol_http}
use ingress_gce.HealthChecks.{new}
use ingress_gce.Backends.{
  BackendService, AlphaBackendService, ServiceOf, empty_service, int_val, ServicePort,
  backends_for_negs, port_key, BackendServices, HealthChecker, Parts, State, Done, parse_port,
}
use ingress_gce.Backends.Services.{
  edge_hop, is_superset, try_modes, get_added, get, needs_fix, link_groups, check_service, probed,
  ensure_health_check, track, checked, ensure_service, ensure_linked, ensure_backend_service,
}
use ingress_gce.Backends.Collect.{delete, forget, collect_port, collect_keys, known_ports, gc}
use ingress_gce.Backends.Links.{link, link_named, link_service, zone_negs}
use ingress_gce.Backends.Hop.{ServiceLaws, HasGroup, edge_hop-HasGroup}
use ingress_gce.Backends.Delete.{DeleteLaws, IsGone}
use ingress_gce.Backends.Tracked.{
  IsTracked, port_key-IsPortKey, HasPort, ensure_backend_service-HasPort,
  ensure_backend_service-IsTracked,
}
use ingress_gce.Backends.Sweep.{stale, delete_each, collect_keys-delete_each}
use ingress_gce.Backends.Collected.{gc-IsGone, gc-kept}
use ingress_gce.Backends.Grouped.{AreLinks, AlphaLaws, HasNegs, link-HasNegs}

record World : Type 0 where
  services : Str → Option BackendService
  alphas : Str → Option AlphaBackendService

abbrev no_such : {A : Type 0} → Result A
no_such = err (api 404 (codes "not found"))

found : {B : Type 0} → Str → Option (ServiceOf B) → Result (ServiceOf B)
found name none = no_such
found name (some be) = if str_eq be.name name then ok be else no_such

abbrev write :
    {B : Type 0} → ServiceOf B → (Str → Option (ServiceOf B)) → Str → Option (ServiceOf B)
write be m name = if str_eq be.name name then some be else m name

abbrev drop : {B : Type 0} → Str → (Str → Option (ServiceOf B)) → Str → Option (ServiceOf B)
drop name m other = if str_eq name other then none else m other

abbrev cloud : BackendServices World
cloud = record {
  get_global_backend_service = λ name w. found name (w.services name);
  get_alpha_global_backend_service = λ name w. found name (w.alphas name);
  update_global_backend_service = λ be w. (none, record w { services = write be w.services });
  update_alpha_global_backend_service = λ be w. (none, record w { alphas = write be w.alphas });
  create_global_backend_service = λ be w. (none, record w { services = write be w.services });
  delete_global_backend_service = λ name w. (none, record w { services = drop name w.services });
  list_global_backend_services = λ w. ok [];
  get_global_backend_service_health = λ name group w. ok (some (codes "HEALTHY") ∷ []);
}

abbrev namer : Namer
namer = record { cluster_name = codes "uid1"; firewall_name = codes "fw1" }

abbrev checker : HealthChecker World
checker = record {
  new = new namer;
  sync = λ hc w. (some (codes "v1/healthChecks/check", none), w);
  delete = λ port w. (none, w);
  get_legacy = λ port w. no_such;
  delete_legacy = λ port w. (none, w);
}

abbrev parts : Parts World
parts = record {
  cloud = cloud;
  health_checker = checker;
  node_pool = record {
    ensure_instance_groups_and_ports = λ name ports w. (ok (codes "z1/instanceGroups/ig" ∷ []), w);
  };
  get_network_endpoint_group = λ name zone w. ok zone;
  prober = none;
}

found-write :
    {B : Type 0} (be : ServiceOf B) (m : Str → Option (ServiceOf B))
    → found be.name (write be m be.name) ≡ ok be
unfolding found
found-write be m = rw (str_eq_refl be.name, str_eq_refl be.name) refl

found-named :
    {B : Type 0} (name : Str) (o : Option (ServiceOf B)) (be : ServiceOf B)
    → found name o ≡ ok be
    → be.name ≡ name
unfolding found
found-named name none be h = absurd (cc h)
found-named name (some x) be h = elim (Bool-cases (str_eq x.name name)) [
  | inl b ↦
      sym (ap (λ s. ServiceOf.name s) (ok-injective x be (rw (found, b) at h)))
      ∙ (str_eq_iff x.name name).0 b
  | inr b ↦ absurd (cc (rw (found, b) at h))
]

cloud-ServiceLaws : ServiceLaws cloud
cloud-ServiceLaws = record {
  updated = λ w be h. found-write be w.services;
  named = λ w name be h. found-named name (w.services name) be h;
}

found-drop :
    {B : Type 0} (name : Str) (m : Str → Option (ServiceOf B))
    → found name (drop name m name) ≡ no_such
unfolding found
found-drop name m = rw (str_eq_refl name) refl

parts-DeleteLaws : DeleteLaws parts
unfolding is_http_error_code
parts-DeleteLaws = record {
  deleted = λ w name h. (api 404 (codes "not found"), found-drop name w.services, refl);
  missing = λ w name e h m. absurd (cc h);
  elsewhere = λ w name other ne. rw ne refl;
  health_kept = λ w port name. refl;
}

parts-AlphaLaws : AlphaLaws cloud
parts-AlphaLaws = record {
  updated = λ w be h. found-write be w.alphas;
  named = λ w name be h. found-named name (w.alphas name) be h;
}

abbrev ig : Str
ig = codes "z1/instanceGroups/ig"

abbrev web : ServicePort
web = record {
  port = 30080;
  protocol = protocol_http;
  svc_namespace = codes "ns";
  svc_name = codes "web";
  svc_port = int_val 80;
  svc_target_port = codes "80";
  neg_enabled = false;
}

abbrev neg_web : ServicePort
neg_web = record web { neg_enabled = true }

abbrev be_name : Str
be_name = codes "k8s-be-30080--uid1"

abbrev stored_service : BackendService
stored_service = record empty_service {
  name = be_name;
  backends =
      record {
        group = codes "z0/instanceGroups/ig";
        balancing_mode = [];
        max_rate_per_instance = 0;
      }
      ∷ [];
}

abbrev one_service : World
one_service = record {
  services = λ name. if str_eq be_name name then some stored_service else none;
  alphas = λ name.
      if str_eq be_name name
      then some (record {
        name = be_name;
        description = [];
        protocol = [];
        health_checks = [];
        port = 30080;
        port_name = [];
        backends = [];
      })
      else none;
}

hop_found : cloud.get_global_backend_service be_name one_service ≡ ok stored_service
unfolding found str_eq
hop_found = refl

hop_fine : (edge_hop parts stored_service (ig ∷ []) one_service).0 ≡ none
unfolding edge_hop is_superset elem try_modes str_eq
hop_fine = refl

edge_hop-HasGroup_example :
    HasGroup parts cloud-ServiceLaws be_name ig true
      (edge_hop parts stored_service (ig ∷ []) one_service).2
unfolding elem str_eq contains has_prefix
edge_hop-HasGroup_example =
    edge_hop-HasGroup parts cloud-ServiceLaws stored_service (ig ∷ []) one_service hop_found
      hop_fine ig refl

abbrev ensured_web : Done (State World)
ensured_web = ensure_backend_service parts namer web (ig ∷ []) ([], one_service)

ensured_fine : ensured_web.0 ≡ some none
unfolding ensure_backend_service ensure_linked ensure_service get get_added ensure_health_check
    probed checked check_service needs_fix link_groups edge_hop is_superset elem try_modes str_eq
    found backend decorate_name truncate uid itoa to_digits is_not_found_error is_http_error_code
    track
ensured_fine = refl

ensure_backend_service-HasPort_example : HasPort parts namer web ensured_web.1
ensure_backend_service-HasPort_example =
    ensure_backend_service-HasPort parts namer web (ig ∷ []) ([], one_service) none ensured_fine

ensure_backend_service-IsTracked_example : IsTracked ensured_web.1.0
ensure_backend_service-IsTracked_example =
    ensure_backend_service-IsTracked parts namer web (omega arith) (ig ∷ []) ([], one_service) tt

abbrev two_ports : State World
two_ports = ((port_key 30080, none) ∷ (port_key 30081, none) ∷ [], one_service)

two_ports-IsTracked : IsTracked two_ports.0
two_ports-IsTracked =
    (port_key-IsPortKey 30080 (omega arith), (port_key-IsPortKey 30081 (omega arith), tt))

collect_keys-delete_each_example :
    collect_keys parts namer [] [] (map port_key (30080 ∷ 30081 ∷ [])) two_ports
    ≡ delete_each parts namer (stale [] [] (30080 ∷ 30081 ∷ [])) two_ports
collect_keys-delete_each_example =
    collect_keys-delete_each parts namer [] [] (30080 ∷ 30081 ∷ []) two_ports
      (omega arith, (omega arith, tt))

abbrev other : ServicePort
other = record web { port = 30081 }

abbrev swept : Failure × State World
swept = gc parts namer [] (other ∷ []) two_ports

swept_fine : swept.0 ≡ none
unfolding gc snapshot copy_keys map_get put collect_keys collect_port delete forget known_ports elem
    str_eq port_key itoa to_digits parse_port all_digits digits_value remove
swept_fine = refl

gc-IsGone_example :
    (map_get (port_key 30080) swept.1.0 ≡ none) × IsGone parts (backend namer 30080) swept.1.1
unfolding known_ports elem str_eq port_key itoa to_digits map_get
gc-IsGone_example =
    gc-IsGone parts namer [] parts-DeleteLaws (other ∷ []) two_ports 30080 none two_ports-IsTracked
      swept_fine (omega arith) refl refl

gc-kept_example :
    cloud.get_global_backend_service (backend namer 30081) swept.1.1
    ≡ cloud.get_global_backend_service (backend namer 30081) one_service
unfolding known_ports elem str_eq port_key itoa to_digits
gc-kept_example =
    gc-kept parts namer [] parts-DeleteLaws (other ∷ []) two_ports 30081 two_ports-IsTracked
      (omega arith) refl

abbrev digest : Str → Str
digest text = codes "0123456789abcdef"

link_fine : (link parts list_sets digest namer neg_web (codes "z1" ∷ []) one_service).0 ≡ some none
unfolding link link_named neg neg_of neg_suffix trim_fields_evenly total_length neg_prefix uid
    zone_negs link_service new_string backends_for_negs list_sets found str_eq backend decorate_name
    truncate itoa to_digits
link_fine = refl

link-HasNegs_example :
    (neg_name : Str) × (negs : List Str) × (neg digest namer (codes "ns") (codes "web") (codes "80")
      ≡ some neg_name)
    × AreLinks parts neg_name one_service (codes "z1" ∷ []) negs
    × HasNegs parts parts-AlphaLaws list_sets
        (backend namer 30080)
        negs
        (link parts list_sets digest namer neg_web (codes "z1" ∷ []) one_service).1
link-HasNegs_example =
    link-HasNegs parts parts-AlphaLaws list_sets digest namer neg_web (codes "z1" ∷ []) one_service
      refl link_fine
