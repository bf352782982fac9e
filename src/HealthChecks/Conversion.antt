-- ===== src/HealthChecks/Conversion.antt =====
-- The check that is sent to the cloud, and what is read back from it.
use ingress_gce.Base.{
  ◌≡◌, ◌⊎◌, inl, inr, refl, Bool, true, false, Option, none, some, [], Str, str_eq, str_eq_iff, ok,
  Bool-cases, if◌then◌else◌, ◌==◌,
}
use ingress_gce.HealthCheck.{
  HttpHealthCheck, AlphaHealthCheck, HealthCheck, protocol_http, protocol_https, with_child,
  new_health_check, protocol, merge, to_alpha_compute_health_check,
}

-- One of the protocols that a health check has a child for.
unfoldable pub IsHttp : Str → Type 0
IsHttp p = (p ≡ protocol_http) ⊎ (p ≡ protocol_https)

-- the HTTP settings as they are sent: the port gives way to the port specification
unfoldable pub sent_http : HttpHealthCheck → HttpHealthCheck
sent_http h = if str_eq h.port_specification [] then h else record h { port = 0 }

-- the check without its children, as it is read back
unfoldable pub bare : HealthCheck → HealthCheck
bare hc = record hc {
  check = record (hc.check) { http_health_check = none; https_health_check = none };
  for_neg = false;
}

pub new_health_check-merge :
    (hc : HealthCheck) → IsHttp (protocol hc) → new_health_check (merge hc).check ≡ ok (bare hc)
unfolding merge new_health_check with_child bare IsHttp str_eq
new_health_check-merge hc (inl e) = rw (new_health_check, e) refl
new_health_check-merge hc (inr e) = rw (new_health_check, e) refl

-- A check of protocol HTTP or HTTPS that is sent to the alpha API and read back is the same check, but
-- for its port, which is 0 if there is a port specification, and for the mark of its kind of group,
-- which is not stored.
pub new_health_check-to_alpha_compute_health_check :
    (hc : HealthCheck)
    → IsHttp (protocol hc)
    → new_health_check (to_alpha_compute_health_check hc).check
      ≡ ok (bare (record hc { http = sent_http hc.http }))
unfolding to_alpha_compute_health_check sent_http
new_health_check-to_alpha_compute_health_check hc p =
    elim (Bool-cases (str_eq hc.http.port_specification [])) [
      | inl e ↦ rw (to_alpha_compute_health_check, sent_http, e) (new_health_check-merge hc p)
      | inr e ↦
          rw (to_alpha_compute_health_check, sent_http, e)
            (new_health_check-merge (record hc { http = record (hc.http) { port = 0 } }) p)
    ]

-- At most one of the port and its specification.
unfoldable pub one_port : Option HttpHealthCheck → Bool
one_port none = true
one_port (some h) = if str_eq h.port_specification [] then true else h.port == 0

abbrev pub is_set : Option HttpHealthCheck → Bool
is_set none = false
is_set (some h) = true

-- What the API asks of a check: the child of its type and no other, and at most one of the port and
-- its specification.
pub record IsSendable (c : AlphaHealthCheck) : Type 0 where
  pub http_child : is_set c.http_health_check ≡ str_eq c.check_type protocol_http
  pub https_child : is_set c.https_health_check ≡ str_eq c.check_type protocol_https
  pub http_port : one_port c.http_health_check ≡ true
  pub https_port : one_port c.https_health_check ≡ true

is_set-if : (b : Bool) (h : HttpHealthCheck) → is_set (if b then some h else none) ≡ b
is_set-if true h = refl
is_set-if false h = refl

one_port-if :
    (b : Bool) (h : HttpHealthCheck)
    → one_port (some h) ≡ true
    → one_port (if b then some h else none) ≡ true
unfolding one_port
one_port-if true h e = e
one_port-if false h e = refl

merge-IsSendable : (hc : HealthCheck) → one_port (some hc.http) ≡ true → IsSendable (merge hc).check
unfolding merge one_port str_eq
merge-IsSendable hc e = elim (Bool-cases (str_eq (protocol hc) protocol_http)) [
  | inl b ↦
      let same = (str_eq_iff (protocol hc) protocol_http).0 b in
      record {
        http_child = rw (merge, same) refl;
        https_child = rw (merge, same) refl;
        http_port = rw (merge, same) e;
        https_port = rw (merge, same) refl;
      }
  | inr b ↦ record {
    http_child = rw (merge, b) refl;
    https_child = rw (merge, b) (is_set-if (str_eq (protocol hc) protocol_https) hc.http);
    http_port = rw (merge, b) refl;
    https_port = rw (merge, b) (one_port-if (str_eq (protocol hc) protocol_https) hc.http e);
  }
]

-- Every check that goes to the alpha API, of any protocol and with any settings, has the child of its
-- type and no other, and never both a port and a port specification.
pub to_alpha_compute_health_check-IsSendable :
    (hc : HealthCheck) → IsSendable (to_alpha_compute_health_check hc).check
unfolding to_alpha_compute_health_check one_port
to_alpha_compute_health_check-IsSendable hc =
    elim (Bool-cases (str_eq hc.http.port_specification [])) [
      | inl e ↦ rw (to_alpha_compute_health_check, e) (merge-IsSendable hc (rw (one_port, e) refl))
      | inr e ↦
          rw (to_alpha_compute_health_check, e)
            (merge-IsSendable (record hc { http = record (hc.http) { port = 0 } })
              (rw (one_port, e) refl))
    ]
