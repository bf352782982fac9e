-- ===== src/HealthChecks/Tests.antt =====
-- A cloud with one store of checks, which the two APIs show.
use mathlib.Core.Option
use ingress_gce.Base.{
  ◌≡◌, refl, ap, inl, inr, true, false, Option, none, some, [], ◌∷◌, Str, codes, str_eq,
  str_eq_refl, Result, ok, err, api, if◌then◌else◌, itoa, to_digits,
}
use ingress_gce.Namer.{Namer, backend, decorate_name, truncate, uid}
use ingress_gce.Http.{is_http_error_code}
use ingress_gce.Backends.{BackendServices, ServicePort, Probe, Parts, int_val}
use ingress_gce.Backends.Services.{ensure_health_check}
use ingress_gce.Backends.Health.{joined, health_checker}
use ingress_gce.HealthCheck.{
  AlphaHealthCheck, V1HttpHealthCheck, V1HealthCheck, HealthCheck, Json, protocol_http,
  protocol_https, new_health_check, to_alpha_compute_health_check, copy_via_json,
  default_health_check, default_neg_health_check, zero_check, merge, to_v1_health_check,
  to_alpha_health_check, to_compute_health_check, merge_healthcheck_for_neg, need_to_update,
  with_child,
}
use ingress_gce.HealthChecks.{
  Linked, HealthCheckProvider, new, get, sync, with_default_path, sync_from, get_v1, get_alpha,
  link_created, create, if_converted, get_health_check_link, sync_existing, update,
}
use ingress_gce.HealthChecks.Conversion.{
  IsHttp, sent_http, bare, new_health_check-to_alpha_compute_health_check,
}
use ingress_gce.HealthChecks.Reading.{
  strip_http, widen_http, strip, widen, JsonLaws, CheckLaws, IsWanted,
}
use ingress_gce.HealthChecks.Sync.{HasCheck, sync-HasCheck}
use ingress_gce.HealthChecks.Keeps.{HasPath, sync-HasPath}

abbrev pub json : Json
json = record {
  Bytes = AlphaHealthCheck;
  marshal_alpha = λ c. (c, none);
  marshal_v1 = λ v. (widen v, none);
  unmarshal_alpha = λ b dest. (b, none);
  unmarshal_v1 = λ b dest. (strip b, none);
}

json-JsonLaws : JsonLaws json
unfolding to_v1_health_check to_alpha_health_check copy_via_json
json-JsonLaws = record { to_v1 = λ c h. refl; to_alpha = λ v. refl }

abbrev World : Type 0
World = Str → Option AlphaHealthCheck

found : Option AlphaHealthCheck → Result AlphaHealthCheck
found none = err (api 404 (codes "not found"))
found (some c) = ok c

found_v1 : Option AlphaHealthCheck → Result V1HealthCheck
found_v1 none = err (api 404 (codes "not found"))
found_v1 (some c) = ok (strip c)

abbrev check_link : Str
check_link = codes "links/check"

abbrev write_check : AlphaHealthCheck → World → World
write_check c w name =
    if str_eq c.name name then some (record c { self_link = check_link }) else w name

abbrev cloud : HealthCheckProvider World
cloud = record {
  get_http_health_check = λ name w. err (api 404 (codes "not found"));
  delete_http_health_check = λ name w. (some (api 404 (codes "not found")), w);
  create_alpha_health_check = λ c w. (none, write_check c w);
  create_health_check = λ v w. (none, write_check (widen v) w);
  update_alpha_health_check = λ c w. (none, write_check c w);
  update_health_check = λ v w. (none, write_check (widen v) w);
  delete_health_check = λ name w. (some (api 403 (codes "forbidden")), w);
  get_alpha_health_check = λ name w. found (w name);
  get_health_check = λ name w. found_v1 (w name);
}

strip_children :
    (o : Option V1HttpHealthCheck) → Option.map strip_http (Option.map widen_http o) ≡ o
strip_children none = refl
strip_children (some h) = refl

strip-widen : (v : V1HealthCheck) → strip (widen v) ≡ v
strip-widen v = rw (strip_children v.http_health_check, strip_children v.https_health_check) refl

found_v1-write_check :
    (v : V1HealthCheck) (w : World)
    → (l : Str) × (found_v1 (write_check (widen v) w v.name) ≡ ok (record v { self_link = l }))
unfolding found_v1
found_v1-write_check v w = (
  check_link,
  rw (str_eq_refl v.name) (ap ok (strip-widen (record v { self_link = check_link }))),
)

found-write_check :
    (c : AlphaHealthCheck) (w : World)
    → (l : Str) × (found (write_check c w c.name) ≡ ok (record c { self_link = l }))
unfolding found
found-write_check c w = (check_link, rw (str_eq_refl c.name) refl)

cloud-CheckLaws : CheckLaws cloud
cloud-CheckLaws = record {
  created = λ w v h. found_v1-write_check v w;
  updated = λ w v h. found_v1-write_check v w;
  created_alpha = λ w c h. found-write_check c w;
  updated_alpha = λ w c h. found-write_check c w;
}

abbrev namer : Namer
namer = record { cluster_name = codes "uid1"; firewall_name = codes "fw1" }

abbrev no_checks : World
no_checks name = none

abbrev plain_check : HealthCheck
plain_check = new namer 30080 protocol_http false

abbrev neg_check : HealthCheck
neg_check = new namer 30080 protocol_https true

plain-IsWanted : IsWanted namer plain_check
unfolding new default_health_check IsHttp
plain-IsWanted = record { named = refl; spoken = inl refl; specified = inr refl }

neg-IsWanted : IsWanted namer neg_check
unfolding new default_neg_health_check IsHttp
neg-IsWanted = record { named = refl; spoken = inr refl; specified = inl refl }

abbrev plain_synced : World
plain_synced = (sync json cloud namer (codes "/") plain_check no_checks).1

plain_fine : (sync json cloud namer (codes "/") plain_check no_checks).0 ≡ some (check_link, none)
unfolding sync new with_default_path sync_from get get_v1 get_alpha found found_v1 str_eq
    is_http_error_code link_created create if_converted to_compute_health_check to_v1_health_check
    copy_via_json get_health_check_link merge backend itoa to_digits merge_healthcheck_for_neg
    need_to_update new_health_check sync_existing to_alpha_compute_health_check
    to_alpha_health_check update with_child decorate_name truncate uid default_health_check
    default_neg_health_check
plain_fine = refl

abbrev plain_found : HasCheck json cloud namer plain_check plain_synced
plain_found =
    sync-HasCheck json json-JsonLaws cloud cloud-CheckLaws namer (codes "/") plain_check no_checks
      check_link plain-IsWanted plain_fine

sync-HasCheck_example : HasCheck json cloud namer plain_check plain_synced
sync-HasCheck_example =
    sync-HasCheck json json-JsonLaws cloud cloud-CheckLaws namer (codes "/") plain_check no_checks
      check_link plain-IsWanted plain_fine

-- the plain check's port becomes one of an endpoint group, with another protocol
abbrev old_check : HealthCheck
old_check = record {
  http = record {
    host = codes "host";
    port = 30080;
    port_specification = [];
    request_path = codes "/hand_made";
  };
  check = record zero_check { name = backend namer 30080; check_type = protocol_http };
  for_neg = false;
}

abbrev old_world : World
old_world name = if str_eq (backend namer 30080) name then some (merge old_check).check else none

old_found : get json cloud namer 30080 true old_world ≡ ok old_check
unfolding get get_alpha found str_eq merge backend itoa to_digits decorate_name truncate uid
    new_health_check with_child
old_found = refl

abbrev neg_synced : World
neg_synced = (sync json cloud namer (codes "/") neg_check old_world).1

neg_fine : (sync json cloud namer (codes "/") neg_check old_world).0 ≡ some ([], none)
unfolding sync new with_default_path sync_from get get_v1 get_alpha found found_v1 str_eq
    is_http_error_code link_created create if_converted to_compute_health_check to_v1_health_check
    copy_via_json get_health_check_link merge backend itoa to_digits merge_healthcheck_for_neg
    need_to_update new_health_check sync_existing to_alpha_compute_health_check
    to_alpha_health_check update with_child decorate_name truncate uid default_health_check
    default_neg_health_check
neg_fine = refl

sync-HasPath_example : HasPath json cloud namer old_check neg_check neg_synced
unfolding new default_neg_health_check
sync-HasPath_example =
    sync-HasPath json cloud cloud-CheckLaws namer (codes "/") old_check neg_check old_world []
      neg-IsWanted refl old_found neg_fine

new_health_check-to_alpha_compute_health_check_example :
    new_health_check (to_alpha_compute_health_check neg_check).check
    ≡ ok (bare (record neg_check { http = sent_http neg_check.http }))
new_health_check-to_alpha_compute_health_check_example =
    new_health_check-to_alpha_compute_health_check neg_check neg-IsWanted.spoken

-- the same cloud under the pool of backends, with no services and a probe of every port
abbrev no_services : BackendServices World
no_services = record {
  get_global_backend_service = λ name w. err (api 404 (codes "not found"));
  get_alpha_global_backend_service = λ name w. err (api 404 (codes "not found"));
  update_global_backend_service = λ be w. (some (api 404 (codes "not found")), w);
  update_alpha_global_backend_service = λ be w. (some (api 404 (codes "not found")), w);
  create_global_backend_service = λ be w. (none, w);
  delete_global_backend_service = λ name w. (none, w);
  list_global_backend_services = λ w. ok [];
  get_global_backend_service_health = λ name group w. ok [];
}

abbrev ready : Probe
ready = record {
  path = codes "ready";
  host = [];
  http_headers = (codes "Host", codes "web") ∷ [];
  timeout_seconds = 5;
  period_seconds = 10;
}

abbrev parts : Parts World
parts = record {
  cloud = no_services;
  health_checker = health_checker json cloud namer (codes "/");
  node_pool = record { ensure_instance_groups_and_ports = λ name ports w. (ok [], w) };
  get_network_endpoint_group = λ name zone w. ok zone;
  prober = some (λ p w. ok (some ready));
}

abbrev web : ServicePort
web = record {
  port = 30080;
  protocol = protocol_https;
  svc_namespace = codes "ns";
  svc_name = codes "web";
  svc_port = int_val 80;
  svc_target_port = codes "80";
  neg_enabled = true;
}

abbrev ensured_web : Linked World
ensured_web = ensure_health_check (joined json cloud namer (codes "/") parts) web no_checks
