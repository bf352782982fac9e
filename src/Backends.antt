-- ===== src/Backends.antt =====
-- The backend services of pkg/backends/backends.go: its types, its interfaces and its pure functions.
-- Logs are left out. Of the API's types, the fields that the pool reads or sets.
pub mod Services
pub mod Collect
pub mod Links
pub mod Hop
pub mod Linking
pub mod Ensured
pub mod Delete
pub mod Tracked
pub mod Health
pub mod Settings
pub mod Sweep
pub mod Swept
pub mod Collected
pub mod Grouped
mod Tests
use ingress_gce.Base.{
  ℕ, ◌+◌, ◌<◌, ◌^◌, Bool, true, false, ◌&&◌, ◌||◌, not, Option, none, some, List, [], ◌∷◌, ◌++◌,
  map, Str, codes, str_eq, has_prefix, contains, split, last_of, itoa, Error, plain, Result, ok,
  err, panic, Failure, ltb, if◌then◌else◌,
}
use ingress_gce.Base.Digits.{digits_value, all_digits}
use ingress_gce.Pools.{InMemoryPool}
use ingress_gce.HealthCheck.{HealthCheck, LegacyHealthCheck, default_health_check_interval}
use ingress_gce.HealthChecks.{Linked}

-- The balancing modes that the pool uses, as the API spells them.
abbrev pub rate : Str
rate = codes "RATE"

abbrev pub utilization : Str
utilization = codes "UTILIZATION"

abbrev pub max_rps : ℕ
max_rps = 1

pub record Backend : Type 0 where
  pub group : Str
  pub balancing_mode : Str
  pub max_rate_per_instance : ℕ

pub record AlphaBackend : Type 0 where
  pub group : Str
  pub balancing_mode : Str
  pub max_rate_per_endpoint : ℕ

-- A BackendService of either API, by its type of backend.
pub record ServiceOf (B : Type 0) : Type 0 where
  pub name : Str
  pub description : Str
  pub protocol : Str
  pub health_checks : List Str
  pub port : ℕ
  pub port_name : Str
  pub backends : List B

abbrev pub BackendService : Type 0
BackendService = ServiceOf Backend

abbrev pub AlphaBackendService : Type 0
AlphaBackendService = ServiceOf AlphaBackend

-- &compute.BackendService{}
abbrev pub empty_service : BackendService
empty_service = record {
  name = [];
  description = [];
  protocol = [];
  health_checks = [];
  port = 0;
  port_name = [];
  backends = [];
}

-- An intstr.IntOrString and its String().
pub data IntOrString : Type 0 where
  int_val : ℕ → IntOrString
  str_val : Str → IntOrString

unfoldable pub int_or_string : IntOrString → Str
int_or_string (int_val n) = itoa n
int_or_string (str_val s) = s

pub record ServicePort : Type 0 where
  pub port : ℕ
  pub protocol : Str
  pub svc_namespace : Str
  pub svc_name : Str
  pub svc_port : IntOrString
  pub svc_target_port : Str
  pub neg_enabled : Bool

-- types.NamespacedName.String()
abbrev pub namespaced_name : ServicePort → Str
namespaced_name sp = sp.svc_namespace ++ (codes "/" ++ sp.svc_name)

unfoldable pub description : ServicePort → Str
description sp =
    if str_eq (namespaced_name sp) [] || str_eq (int_or_string sp.svc_port) []
    then []
    else codes "{\"kubernetes.io/service-name\":\""
      ++ (namespaced_name sp
          ++ (codes "\",\"kubernetes.io/service-port\":\""
              ++ (int_or_string sp.svc_port ++ codes "\"}")))

unfoldable pub port_key : ℕ → Str
port_key port = itoa port

unfoldable pub retrieve_object_name : Str → Str
retrieve_object_name url = last_of (split url (codes "/"))

-- An instance group is given by its link, which is all that is read of it.
unfoldable pub backends_for_igs : List Str → Str → List Backend
backends_for_igs igs bm =
    map
      (λ ig. record {
        group = ig;
        balancing_mode = bm;
        max_rate_per_instance = if str_eq bm rate then max_rps else 0;
      })
      igs

-- the same of an endpoint group
unfoldable pub backends_for_negs : List Str → List AlphaBackend
backends_for_negs negs =
    map (λ neg. record { group = neg; balancing_mode = rate; max_rate_per_endpoint = max_rps }) negs

-- An HTTP probe: the source asks for none that has no HTTPGet.
pub record Probe : Type 0 where
  pub path : Str
  pub host : Str
  pub http_headers : List (Str × Str)
  pub timeout_seconds : ℕ
  pub period_seconds : ℕ

unfoldable pub header_host : List (Str × Str) → Str → Str
header_host [] host = host
header_host ((name, value) ∷ headers) host =
    if str_eq name (codes "Host") then value else header_host headers host

unfoldable pub apply_legacy_hc_to_hc : LegacyHealthCheck → HealthCheck → HealthCheck
apply_legacy_hc_to_hc existing hc = record hc {
  check = record (hc.check) {
    description = existing.description;
    check_interval_sec = existing.check_interval_sec;
    healthy_threshold = existing.healthy_threshold;
    timeout_sec = existing.timeout_sec;
    unhealthy_threshold = existing.unhealthy_threshold;
  };
  http = record (hc.http) {
    host = existing.host;
    port = existing.port;
    request_path = existing.request_path;
  };
}

unfoldable pub apply_probe_settings_to_hc : Probe → HealthCheck → HealthCheck
apply_probe_settings_to_hc p hc = record hc {
  http = record (hc.http) {
    request_path = if has_prefix (codes "/") p.path then p.path else codes "/" ++ p.path;
    host = header_host p.http_headers p.host;
  };
  check = record (hc.check) {
    description = codes "Kubernetes L7 health check generated with readiness probe settings.";
    timeout_sec = p.timeout_seconds;
    check_interval_sec =
        if hc.for_neg then p.period_seconds else p.period_seconds + default_health_check_interval;
  };
}

-- strconv.ParseUint(port, 10, 16), which takes digits only
unfoldable pub parse_port : Str → Result ℕ
parse_port [] = err (plain (codes "invalid syntax"))
parse_port (c ∷ s) =
    if not (all_digits (c ∷ s))
    then err (plain (codes "invalid syntax"))
    else if ltb (digits_value 0 (c ∷ s)) (2 ^ 16)
    then ok (digits_value 0 (c ∷ s))
    else err (plain (codes "value out of range"))

pub record BackendServices (World : Type 0) : Type 0 where
  pub get_global_backend_service : Str → World → Result BackendService
  pub get_alpha_global_backend_service : Str → World → Result AlphaBackendService
  pub update_global_backend_service : BackendService → World → Failure × World
  pub update_alpha_global_backend_service : AlphaBackendService → World → Failure × World
  pub create_global_backend_service : BackendService → World → Failure × World
  pub delete_global_backend_service : Str → World → Failure × World
  pub list_global_backend_services : World → Result (List BackendService)
  -- the states of the group's health, of which one may be nil
  pub get_global_backend_service_health : Str → Str → World → Result (List (Option Str))

-- The part of the interface HealthChecker that the pool calls.
pub record HealthChecker (World : Type 0) : Type 0 where
  pub new : ℕ → Str → Bool → HealthCheck
  pub sync : HealthCheck → World → Linked World
  pub delete : ℕ → World → Failure × World
  pub get_legacy : ℕ → World → Result LegacyHealthCheck
  pub delete_legacy : ℕ → World → Failure × World

-- The node pool's EnsureInstanceGroupsAndPorts, which gives the links of the groups.
pub record NodePool (World : Type 0) : Type 0 where
  pub ensure_instance_groups_and_ports : Str → List ℕ → World → Result (List Str) × World

-- What the pool is made of, with no prober until Init. The state is the snapshot, where a service may
-- be nil, and the world.
pub record Parts (World : Type 0) : Type 0 where
  pub cloud : BackendServices World
  pub health_checker : HealthChecker World
  pub node_pool : NodePool World
  pub get_network_endpoint_group : Str → Str → World → Result Str
  pub prober : Option (ServicePort → World → Result (Option Probe))

abbrev pub State : Type 0 → Type 0
State World = InMemoryPool (Option BackendService) × World

-- An error or none, where `none` of the outer option is a panic.
abbrev pub Done : Type 0 → Type 0
Done S = Option Failure × S
