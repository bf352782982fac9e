-- ===== src/HealthChecks.antt =====
-- The health checks of pkg/healthchecks/healthchecks.go. Logs are left out.
pub mod Conversion
pub mod Reading
pub mod Writes
pub mod Sync
pub mod Keeps
mod Tests
use ingress_gce.Base.{
  ℕ, Bool, true, false, ◌||◌, not, Option, none, some, [], ◌∷◌, Str, codes, str_eq, Result, ok, err,
  panic, Failure, if◌then◌else◌,
}
use ingress_gce.Http.{status_not_found, is_http_error_code}
use ingress_gce.Namer.{Namer, backend}
use ingress_gce.HealthCheck.{
  protocol_http, protocol_https, default_health_check_interval, default_neg_health_check_interval,
  use_serving_port_specification, HttpHealthCheck, V1HttpHealthCheck, CheckOf, AlphaHealthCheck,
  V1HealthCheck, LegacyHealthCheck, HealthCheck, no_http, zero_check, default_health_check,
  default_neg_health_check, with_child, new_health_check, protocol, merge,
  to_alpha_compute_health_check, need_to_update, merge_healthcheck_for_neg, Json, copy_via_json,
  to_v1_health_check, to_alpha_health_check, to_compute_health_check,
}

pub record HealthCheckProvider (World : Type 0) : Type 0 where
  pub get_http_health_check : Str → World → Result LegacyHealthCheck
  pub delete_http_health_check : Str → World → Failure × World
  pub create_alpha_health_check : AlphaHealthCheck → World → Failure × World
  pub create_health_check : V1HealthCheck → World → Failure × World
  pub update_alpha_health_check : AlphaHealthCheck → World → Failure × World
  pub update_health_check : V1HealthCheck → World → Failure × World
  pub delete_health_check : Str → World → Failure × World
  pub get_alpha_health_check : Str → World → Result AlphaHealthCheck
  pub get_health_check : Str → World → Result V1HealthCheck

-- A conversion that fails ends the call that follows it.
unfoldable pub if_converted :
    {World : Type 0}
    → V1HealthCheck × Failure
    → (V1HealthCheck → World → Failure × World)
    → World
    → Failure × World
if_converted (v1hc, none) call w = call v1hc w
if_converted (v1hc, some e) call w = (some e, w)

-- A link and an error, where `none` is a panic.
abbrev pub Linked : Type 0 → Type 0
Linked World = Option (Str × Failure) × World

unfoldable pub new : Namer → ℕ → Str → Bool → HealthCheck
new n port protocol' enable_neg =
    let hc =
      if enable_neg
      then default_neg_health_check protocol'
      else default_health_check port protocol' in
    record hc {
      check = record (hc.check) { name = backend n port };
      http = record (hc.http) { port = port };
    }

unfoldable pub with_default_path : Str → HealthCheck → HealthCheck
with_default_path default_path hc =
    if str_eq hc.http.request_path []
    then record hc { http = record (hc.http) { request_path = default_path } }
    else hc

unfoldable pub get_alpha : Result AlphaHealthCheck → Result HealthCheck
get_alpha (ok c) = new_health_check c
get_alpha (err e) = err e
get_alpha panic = panic

module _ (J : Json) where
  -- The error of the conversion goes to a variable of the inner block, and is lost.
  unfoldable pub get_v1 : Result V1HealthCheck → Result HealthCheck
  get_v1 (ok v1hc) = new_health_check (to_alpha_health_check J v1hc).0
  get_v1 (err e) = err e
  get_v1 panic = panic

module _ {World : Type 0} (J : Json) (C : HealthCheckProvider World) where
  unfoldable pub create : HealthCheck → World → Failure × World
  create hc w =
      if hc.for_neg
      then C.create_alpha_health_check (to_alpha_compute_health_check hc).check w
      else if_converted (to_compute_health_check J hc) C.create_health_check w

  unfoldable pub update : HealthCheck → HealthCheck → World → Failure × World
  update old_hc new_hc w =
      if new_hc.for_neg
      then C.update_alpha_health_check
          (to_alpha_compute_health_check (merge_healthcheck_for_neg old_hc new_hc)).check w
      else if_converted (to_compute_health_check J new_hc) C.update_health_check w

  unfoldable pub sync_existing : HealthCheck → HealthCheck → World → Linked World
  sync_existing existing_hc hc w =
      if need_to_update existing_hc hc
      then (let done = update existing_hc hc w in
          (some (existing_hc.check.self_link, done.0), done.1))
      else (some (existing_hc.check.self_link, none), w)

module _ {World : Type 0} (C : HealthCheckProvider World) (n : Namer) where
  unfoldable pub delete : ℕ → World → Failure × World
  delete port w = C.delete_health_check (backend n port) w

  unfoldable pub get_legacy : ℕ → World → Result LegacyHealthCheck
  get_legacy port w = C.get_http_health_check (backend n port) w

  unfoldable pub delete_legacy : ℕ → World → Failure × World
  delete_legacy port w = C.delete_http_health_check (backend n port) w

module _ {World : Type 0} (J : Json) (C : HealthCheckProvider World) (n : Namer) where
  unfoldable pub get : ℕ → Bool → World → Result HealthCheck
  get port alpha w =
      if alpha
      then get_alpha (C.get_alpha_health_check (backend n port) w)
      else get_v1 J (C.get_health_check (backend n port) w)

  unfoldable pub get_health_check_link : ℕ → World → Option (Str × Failure)
  get_health_check_link port w = elim (get port false w) [
    | ok hc ↦ some (hc.check.self_link, none)
    | err e ↦ some ([], some e)
    | panic ↦ none
  ]

  unfoldable pub link_created : ℕ → Failure × World → Linked World
  link_created node_port (none, w) = (get_health_check_link node_port w, w)
  link_created node_port (some e, w) = (some ([], some e), w)

  -- from the lookup on
  unfoldable pub sync_from : HealthCheck → World → Linked World
  sync_from hc w = elim (get hc.http.port hc.for_neg w) [
    | ok existing_hc ↦ sync_existing J C existing_hc hc w
    | err e ↦
        if not (is_http_error_code (some e) status_not_found)
        then (some ([], some e), w)
        else link_created hc.http.port (create J C hc w)
    | panic ↦ (none, w)
  ]

  unfoldable pub sync : Str → HealthCheck → World → Linked World
  sync default_path hc w = sync_from (with_default_path default_path hc) w
