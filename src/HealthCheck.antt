-- ===== src/HealthCheck.antt =====
-- The type HealthCheck of pkg/healthchecks/healthchecks.go and its conversions. Of the API's types, the
-- fields that the controller reads or sets.
use ingress_gce.Base.{
  ℕ, Bool, true, false, not, Option, none, some, [], Str, codes, str_eq, Result, ok, panic, Failure,
  if◌then◌else◌,
}

abbrev pub protocol_http : Str
protocol_http = codes "HTTP"

abbrev pub protocol_https : Str
protocol_https = codes "HTTPS"

-- in seconds
abbrev pub default_health_check_interval : ℕ
default_health_check_interval = 60

abbrev pub default_neg_health_check_interval : ℕ
default_neg_health_check_interval = 15

abbrev pub use_serving_port_specification : Str
use_serving_port_specification = codes "USE_SERVING_PORT"

-- computealpha.HTTPHealthCheck, whose fields are those of the HTTPS one
pub record HttpHealthCheck : Type 0 where
  pub host : Str
  pub port : ℕ
  pub port_specification : Str
  pub request_path : Str

-- the same of the v1 API, which has no port specification
pub record V1HttpHealthCheck : Type 0 where
  pub host : Str
  pub port : ℕ
  pub request_path : Str

-- A HealthCheck of either API, by its type of child.
pub record CheckOf (Child : Type 0) : Type 0 where
  pub name : Str
  pub check_type : Str
  pub check_interval_sec : ℕ
  pub timeout_sec : ℕ
  pub healthy_threshold : ℕ
  pub unhealthy_threshold : ℕ
  pub description : Str
  pub self_link : Str
  pub http_health_check : Option Child
  pub https_health_check : Option Child

abbrev pub AlphaHealthCheck : Type 0
AlphaHealthCheck = CheckOf HttpHealthCheck

abbrev pub V1HealthCheck : Type 0
V1HealthCheck = CheckOf V1HttpHealthCheck

-- compute.HttpHealthCheck, the legacy kind
pub record LegacyHealthCheck : Type 0 where
  pub description : Str
  pub check_interval_sec : ℕ
  pub timeout_sec : ℕ
  pub healthy_threshold : ℕ
  pub unhealthy_threshold : ℕ
  pub host : Str
  pub port : ℕ
  pub request_path : Str

pub record HealthCheck : Type 0 where
  pub http : HttpHealthCheck
  pub check : AlphaHealthCheck
  pub for_neg : Bool

abbrev pub no_http : HttpHealthCheck
no_http = record { host = []; port = 0; port_specification = []; request_path = [] }

-- Go's zero value, into which JSON is read.
abbrev pub zero_check : {Child : Type 0} → CheckOf Child
zero_check = record {
  name = [];
  check_type = [];
  check_interval_sec = 0;
  timeout_sec = 0;
  healthy_threshold = 0;
  unhealthy_threshold = 0;
  description = [];
  self_link = [];
  http_health_check = none;
  https_health_check = none;
}

unfoldable pub default_health_check : ℕ → Str → HealthCheck
default_health_check port protocol = record {
  http = record { host = []; port = port; port_specification = []; request_path = [] };
  check = record zero_check {
    check_interval_sec = default_health_check_interval;
    timeout_sec = 60;
    healthy_threshold = 1;
    unhealthy_threshold = 10;
    description = codes "Default kubernetes L7 Loadbalancing health check.";
    check_type = protocol;
  };
  for_neg = false;
}

unfoldable pub default_neg_health_check : Str → HealthCheck
default_neg_health_check protocol = record {
  http = record {
    host = [];
    port = 0;
    port_specification = use_serving_port_specification;
    request_path = [];
  };
  check = record zero_check {
    check_interval_sec = default_neg_health_check_interval;
    timeout_sec = 15;
    healthy_threshold = 1;
    unhealthy_threshold = 2;
    description = codes "Default kubernetes L7 Loadbalancing health check for NEG.";
    check_type = protocol;
  };
  for_neg = true;
}

-- A child that is nil where the type asks for it is a panic.
unfoldable pub with_child : AlphaHealthCheck → Option HttpHealthCheck → Result HealthCheck
with_child c none = panic
with_child c (some child) = ok (record {
  http = child;
  check = record c { http_health_check = none; https_health_check = none };
  for_neg = false;
})

-- The lookups give no nil without an error, so the pointer is not nil here.
unfoldable pub new_health_check : AlphaHealthCheck → Result HealthCheck
new_health_check c =
    if str_eq c.check_type protocol_http
    then with_child c c.http_health_check
    else if str_eq c.check_type protocol_https
    then with_child c c.https_health_check
    else with_child c (some no_http)

abbrev pub protocol : HealthCheck → Str
protocol hc = hc.check.check_type

-- The pointer to the HTTP settings is followed when it is set: nothing changes them between.
unfoldable pub merge : HealthCheck → HealthCheck
merge hc = record hc {
  check = record (hc.check) {
    http_health_check = if str_eq (protocol hc) protocol_http then some hc.http else none;
    https_health_check =
        if str_eq (protocol hc) protocol_http
        then none
        else if str_eq (protocol hc) protocol_https
        then some hc.http
        else none;
  };
}

-- the object after the call, whose check is the call's result
unfoldable pub to_alpha_compute_health_check : HealthCheck → HealthCheck
to_alpha_compute_health_check hc =
    if str_eq hc.http.port_specification []
    then merge hc
    else merge (record hc { http = record (hc.http) { port = 0 } })

unfoldable pub need_to_update : HealthCheck → HealthCheck → Bool
need_to_update old new_hc =
    if not (str_eq (protocol old) (protocol new_hc))
    then true
    else not (str_eq old.http.port_specification new_hc.http.port_specification)

unfoldable pub merge_healthcheck_for_neg : HealthCheck → HealthCheck → HealthCheck
merge_healthcheck_for_neg old_hc new_hc = record new_hc {
  http = record (old_hc.http) { port = 0; port_specification = new_hc.http.port_specification };
}

-- The MarshalJSON of the API's types and the reader of encoding/json: a value and an error.
pub record Json : Type 1 where
  pub Bytes : Type 0
  pub marshal_alpha : AlphaHealthCheck → Bytes × Failure
  pub marshal_v1 : V1HealthCheck → Bytes × Failure
  pub unmarshal_alpha : Bytes → AlphaHealthCheck → AlphaHealthCheck × Failure
  pub unmarshal_v1 : Bytes → V1HealthCheck → V1HealthCheck × Failure

unfoldable pub copy_via_json :
    {A B Bytes : Type 0} → (A → Bytes × Failure) → (Bytes → B → B × Failure) → B → A → B × Failure
copy_via_json marshal unmarshal dest src =
    let done = marshal src in elim done.1 [ some e ↦ (dest, some e) | none ↦ unmarshal done.0 dest ]

module _ (J : Json) where
  unfoldable pub to_v1_health_check : AlphaHealthCheck → V1HealthCheck × Failure
  to_v1_health_check c = copy_via_json J.marshal_alpha J.unmarshal_v1 zero_check c

  unfoldable pub to_alpha_health_check : V1HealthCheck → AlphaHealthCheck × Failure
  to_alpha_health_check c = copy_via_json J.marshal_v1 J.unmarshal_alpha zero_check c

  unfoldable pub to_compute_health_check : HealthCheck → V1HealthCheck × Failure
  to_compute_health_check hc = to_v1_health_check (merge hc).check
