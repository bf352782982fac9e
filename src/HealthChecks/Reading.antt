-- ===== src/HealthChecks/Reading.antt =====
-- What is read back of a check that was written, by either API.
use mathlib.Core.Option
use ingress_gce.Base.{
  ◌≡◌, ◌⊎◌, inl, inr, refl, sym, true, false, none, [], Str, str_eq, Result, ok, Bool-cases, arith,
}
use ingress_gce.Namer.{Namer, backend}
use ingress_gce.HealthCheck.{
  HttpHealthCheck, V1HttpHealthCheck, AlphaHealthCheck, V1HealthCheck, HealthCheck, Json,
  with_child, new_health_check, protocol, merge, to_alpha_compute_health_check, to_v1_health_check,
  to_alpha_health_check,
}
use ingress_gce.HealthChecks.{HealthCheckProvider}
use ingress_gce.HealthChecks.Conversion.{IsHttp, sent_http}

-- the fields that both APIs have
abbrev pub strip_http : HttpHealthCheck → V1HttpHealthCheck
strip_http h = record { host = h.host; port = h.port; request_path = h.request_path }

abbrev pub widen_http : V1HttpHealthCheck → HttpHealthCheck
widen_http h = record {
  host = h.host;
  port = h.port;
  port_specification = [];
  request_path = h.request_path;
}

abbrev pub strip : AlphaHealthCheck → V1HealthCheck
strip c = record {
  name = c.name;
  check_type = c.check_type;
  check_interval_sec = c.check_interval_sec;
  timeout_sec = c.timeout_sec;
  healthy_threshold = c.healthy_threshold;
  unhealthy_threshold = c.unhealthy_threshold;
  description = c.description;
  self_link = c.self_link;
  http_health_check = Option.map strip_http c.http_health_check;
  https_health_check = Option.map strip_http c.https_health_check;
}

abbrev pub widen : V1HealthCheck → AlphaHealthCheck
widen c = record {
  name = c.name;
  check_type = c.check_type;
  check_interval_sec = c.check_interval_sec;
  timeout_sec = c.timeout_sec;
  healthy_threshold = c.healthy_threshold;
  unhealthy_threshold = c.unhealthy_threshold;
  description = c.description;
  self_link = c.self_link;
  http_health_check = Option.map widen_http c.http_health_check;
  https_health_check = Option.map widen_http c.https_health_check;
}

-- Between the APIs, JSON carries the fields of the same names.
pub record JsonLaws (J : Json) : Type 0 where
  pub to_v1 :
      (c : AlphaHealthCheck)
      → (to_v1_health_check J c).1 ≡ none
      → (to_v1_health_check J c).0 ≡ strip c
  pub to_alpha : (v : V1HealthCheck) → (to_alpha_health_check J v).0 ≡ widen v

-- A check that was created or updated with no error is found as it was given, but for its link.
pub record CheckLaws {World : Type 0} (C : HealthCheckProvider World) : Type 0 where
  pub created :
      (w : World) (v : V1HealthCheck)
      → (C.create_health_check v w).0 ≡ none
      → (link : Str) × (C.get_health_check v.name (C.create_health_check v w).1
          ≡ ok (record v { self_link = link }))
  pub updated :
      (w : World) (v : V1HealthCheck)
      → (C.update_health_check v w).0 ≡ none
      → (link : Str) × (C.get_health_check v.name (C.update_health_check v w).1
          ≡ ok (record v { self_link = link }))
  pub created_alpha :
      (w : World) (c : AlphaHealthCheck)
      → (C.create_alpha_health_check c w).0 ≡ none
      → (link : Str) × (C.get_alpha_health_check c.name (C.create_alpha_health_check c w).1
          ≡ ok (record c { self_link = link }))
  pub updated_alpha :
      (w : World) (c : AlphaHealthCheck)
      → (C.update_alpha_health_check c w).0 ≡ none
      → (link : Str) × (C.get_alpha_health_check c.name (C.update_alpha_health_check c w).1
          ≡ ok (record c { self_link = link }))

-- A check as the controller wants one: named for its port, of a protocol that has settings, and with a
-- port specification for endpoint groups only.
pub record IsWanted (n : Namer) (hc : HealthCheck) : Type 0 where
  pub named : hc.check.name ≡ backend n hc.http.port
  pub spoken : IsHttp (protocol hc)
  pub specified : (hc.for_neg ≡ true) ⊎ (hc.http.port_specification ≡ [])

-- what is found has the protocol and the port specification
pub record Agrees (hc : HealthCheck) (found : Result HealthCheck) : Type 0 where
  pub hit : HealthCheck
  pub is_hit : found ≡ ok hit
  pub same_protocol : protocol hit ≡ protocol hc
  pub same_specification : hit.http.port_specification ≡ hc.http.port_specification

abbrev pub read_back : HttpHealthCheck → AlphaHealthCheck → Str → HealthCheck
read_back http check link = record {
  http = http;
  check = record check { self_link = link; http_health_check = none; https_health_check = none };
  for_neg = false;
}

abbrev v1_hit : HealthCheck → Str → HealthCheck
v1_hit hc link = read_back (widen_http (strip_http hc.http)) hc.check link

-- A check that was sent to the v1 API, read back.
v1_read :
    (hc : HealthCheck) (link : Str)
    → IsHttp (protocol hc)
    → new_health_check (widen (record (strip (merge hc).check) { self_link = link }))
      ≡ ok (v1_hit hc link)
unfolding merge new_health_check with_child IsHttp str_eq
v1_read hc link (inl e) = rw (new_health_check, e) refl
v1_read hc link (inr e) = rw (new_health_check, e) refl

pub merged_read :
    (hc : HealthCheck) (link : Str)
    → IsHttp (protocol hc)
    → new_health_check (record ((merge hc).check) { self_link = link })
      ≡ ok (read_back hc.http hc.check link)
unfolding merge new_health_check with_child IsHttp str_eq
merged_read hc link (inl e) = rw (new_health_check, e) refl
merged_read hc link (inr e) = rw (new_health_check, e) refl

-- a check that was sent to the alpha API, read back
pub alpha_read :
    (hc : HealthCheck) (link : Str)
    → IsHttp (protocol hc)
    → new_health_check (record ((to_alpha_compute_health_check hc).check) { self_link = link })
      ≡ ok (read_back (sent_http hc.http) hc.check link)
unfolding to_alpha_compute_health_check sent_http
alpha_read hc link p = elim (Bool-cases (str_eq hc.http.port_specification [])) [
  | inl b ↦ rw (to_alpha_compute_health_check, sent_http, b) (merged_read hc link p)
  | inr b ↦
      rw (to_alpha_compute_health_check, sent_http, b)
        (merged_read (record hc { http = record (hc.http) { port = 0 } }) link p)
]

sent_http_kept : (h : HttpHealthCheck) → (sent_http h).port_specification ≡ h.port_specification
unfolding sent_http
sent_http_kept h = ground arith

pub to_alpha_named :
    (hc : HealthCheck) → (to_alpha_compute_health_check hc).check.name ≡ hc.check.name
unfolding to_alpha_compute_health_check merge
to_alpha_named hc = elim (Bool-cases (str_eq hc.http.port_specification [])) [
  | inl b ↦ rw (to_alpha_compute_health_check, b) refl
  | inr b ↦ rw (to_alpha_compute_health_check, b) refl
]

pub v1-Agrees :
    (hc : HealthCheck) (link : Str)
    → IsHttp (protocol hc)
    → hc.http.port_specification ≡ []
    → Agrees hc (new_health_check (widen (record (strip (merge hc).check) { self_link = link })))
v1-Agrees hc link p s = record {
  hit = v1_hit hc link;
  is_hit = v1_read hc link p;
  same_protocol = refl;
  same_specification = sym s;
}

pub alpha-Agrees :
    (hc : HealthCheck) (link : Str)
    → IsHttp (protocol hc)
    → Agrees hc
        (new_health_check (record ((to_alpha_compute_health_check hc).check) { self_link = link }))
alpha-Agrees hc link p = record {
  hit = read_back (sent_http hc.http) hc.check link;
  is_hit = alpha_read hc link p;
  same_protocol = refl;
  same_specification = sent_http_kept hc.http;
}
