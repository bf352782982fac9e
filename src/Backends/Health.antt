-- ===== src/Backends/Health.antt =====
-- The pool's health checks, with the health checker of pkg/healthchecks behind its interface.
use mathlib.Core.Option.{some-injective}
use ingress_gce.Base.{
  ℕ, ◌≡◌, refl, ap, sym, subst, ◌∙◌, Bool, true, false, none, some, Str, ok, Bool-cases,
  Option-cases, inl, inr,
}
use ingress_gce.Base.Outcome.{Result-cases}
use ingress_gce.Http.{is_not_found_error}
use ingress_gce.Namer.{Namer, backend}
use ingress_gce.HealthCheck.{
  HealthCheck, LegacyHealthCheck, Json, protocol, default_health_check, default_neg_health_check,
}
use ingress_gce.HealthChecks.{
  HealthCheckProvider, new, get, sync, delete, get_legacy, delete_legacy,
}
use ingress_gce.HealthChecks.Conversion.{IsHttp}
use ingress_gce.HealthChecks.Reading.{JsonLaws, CheckLaws, IsWanted}
use ingress_gce.HealthChecks.Sync.{HasCheck, sync-HasCheck}
use ingress_gce.Backends.{
  ServicePort, Probe, apply_legacy_hc_to_hc, apply_probe_settings_to_hc, HealthChecker, Parts,
}
use ingress_gce.Backends.Services.{sync_probed, probed, ensure_health_check}

-- HealthChecks as an implementation of the interface HealthChecker
unfoldable pub health_checker :
    {World : Type 0} → Json → HealthCheckProvider World → Namer → Str → HealthChecker World
health_checker json C n default_path = record {
  new = new n;
  sync = sync json C n default_path;
  delete = delete C n;
  get_legacy = get_legacy C n;
  delete_legacy = delete_legacy C n;
}

-- A check with the same port, kind of group, protocol and port specification as another.
record Alike (hc' hc : HealthCheck) : Type 0 where
  same_port : hc'.http.port ≡ hc.http.port
  same_kind : hc'.for_neg ≡ hc.for_neg
  same_protocol : protocol hc' ≡ protocol hc
  same_specification : hc'.http.port_specification ≡ hc.http.port_specification
  same_name : hc'.check.name ≡ hc.check.name

new-named :
    (n : Namer) (port : ℕ) (p : Str) (b : Bool)
    → (new n port p b).check.name ≡ backend n (new n port p b).http.port
unfolding new
new-named n port p b = refl

new-protocol : (n : Namer) (port : ℕ) (p : Str) (b : Bool) → protocol (new n port p b) ≡ p
unfolding new default_health_check default_neg_health_check
new-protocol n port p true = refl
new-protocol n port p false = refl

new-IsWanted : (n : Namer) (port : ℕ) (p : Str) (b : Bool) → IsHttp p → IsWanted n (new n port p b)
unfolding new default_health_check default_neg_health_check
new-IsWanted n port p true h = record { named = refl; spoken = h; specified = inl refl }
new-IsWanted n port p false h = record { named = refl; spoken = h; specified = inr refl }

Alike-IsWanted : (n : Namer) (hc' hc : HealthCheck) → Alike hc' hc → IsWanted n hc → IsWanted n hc'
Alike-IsWanted n hc' hc a w = record {
  named = a.same_name ∙ (w.named ∙ ap (backend n) (sym a.same_port));
  spoken = subst IsHttp (sym a.same_protocol) w.spoken;
  specified = elim w.specified [
    | inl neg ↦ inl (a.same_kind ∙ neg)
    | inr plain ↦ inr (a.same_specification ∙ plain)
  ];
}

probe-Alike : (probe : Probe) (hc : HealthCheck) → Alike (apply_probe_settings_to_hc probe hc) hc
unfolding apply_probe_settings_to_hc
probe-Alike probe hc = record {
  same_port = refl;
  same_kind = refl;
  same_protocol = refl;
  same_specification = refl;
  same_name = refl;
}

legacy-Alike :
    (old : LegacyHealthCheck) (hc : HealthCheck)
    → old.port ≡ hc.http.port
    → Alike (apply_legacy_hc_to_hc old hc) hc
unfolding apply_legacy_hc_to_hc
legacy-Alike old hc same = record {
  same_port = same;
  same_kind = refl;
  same_protocol = refl;
  same_specification = refl;
  same_name = refl;
}

same-Alike : (hc : HealthCheck) → Alike hc hc
same-Alike hc = record {
  same_port = refl;
  same_kind = refl;
  same_protocol = refl;
  same_specification = refl;
  same_name = refl;
}

-- the pool over this health checker
abbrev pub joined :
    {World : Type 0} → Json → HealthCheckProvider World → Namer → Str → Parts World → Parts World
joined json C n default_path B = record B { health_checker = health_checker json C n default_path }

module _ {World : Type 0} (J : Json) (LJ : JsonLaws J) (C : HealthCheckProvider World)
    (L : CheckLaws C) (n : Namer) (default_path : Str) (B : Parts World) where
  sync_alike :
      (hc' hc : HealthCheck) (w : World) (link : Str)
      → Alike hc' hc
      → IsWanted n hc
      → (sync J C n default_path hc' w).0 ≡ some (link, none)
      → HasCheck J C n hc (sync J C n default_path hc' w).1
  sync_alike hc' hc w link a wanted h =
      let done =
        sync-HasCheck J LJ C L n default_path hc' w link (Alike-IsWanted n hc' hc a wanted) h in
      let v = (sync J C n default_path hc' w).1 in
      record {
        hit = done.hit;
        is_hit =
            subst (λ port. get J C n port hc.for_neg v ≡ ok done.hit) a.same_port
              (subst (λ b. get J C n hc'.http.port b v ≡ ok done.hit) a.same_kind done.is_hit);
        same_protocol = done.same_protocol ∙ a.same_protocol;
        same_specification = done.same_specification ∙ a.same_specification;
      }

  probed-HasCheck :
      (p : ServicePort) (hc : HealthCheck) (w : World) (link : Str)
      → IsWanted n hc
      → (probed (joined J C n default_path B) p hc w).0 ≡ some (link, none)
      → HasCheck J C n hc (probed (joined J C n default_path B) p hc w).1
  unfolding probed sync_probed health_checker
  probed-HasCheck p hc w link wanted h = elim (Option-cases B.prober) [
    | inl e ↦ rw (probed, e) (sync_alike hc hc w link (same-Alike hc) wanted (rw (probed, e) at h))
    | inr (get_probe, e) ↦ elim (Result-cases (get_probe p w)) [
      | inl (found, f) ↦ elim (Option-cases found) [
        | inl g ↦
            rw (probed, e, f, g)
              (sync_alike hc hc w link (same-Alike hc) wanted (rw (probed, e, f, g) at h))
        | inr (probe, g) ↦
            rw (probed, e, f, g)
              (sync_alike (apply_probe_settings_to_hc probe hc) hc w link (probe-Alike probe hc)
                wanted (rw (probed, e, f, g) at h))
      ]
      | inr (inl (x, f)) ↦ absurd (cc (ap (λ a. a.1) (some-injective _ _ (rw (probed, e, f) at h))))
      | inr (inr f) ↦ absurd (cc (rw (probed, e, f) at h))
    ]
  ]

  -- For a service port of protocol HTTP or HTTPS whose legacy check, if there is one, has the port: if
  -- ensuring its health check reports no error, the cloud has under the port's name, for its kind of
  -- group, a check of the port's protocol and with the default's port specification, with the settings
  -- of a legacy check or of a readiness probe or without.
  pub ensure_health_check-HasCheck :
      (p : ServicePort) (w : World) (link : Str)
      → IsHttp p.protocol
      → ((old : LegacyHealthCheck) → get_legacy C n p.port w ≡ ok old → old.port ≡ p.port)
      → (ensure_health_check (joined J C n default_path B) p w).0 ≡ some (link, none)
      → HasCheck J C n
          (new n p.port p.protocol p.neg_enabled)
          (ensure_health_check (joined J C n default_path B) p w).1
  unfolding ensure_health_check health_checker new
  ensure_health_check-HasCheck p w link http same h =
      let hc = new n p.port p.protocol p.neg_enabled in
      let wanted = new-IsWanted n p.port p.protocol p.neg_enabled http in
      elim (Result-cases (get_legacy C n p.port w)) [
        | inl (old, e) ↦
            rw (ensure_health_check, e)
              (sync_alike (apply_legacy_hc_to_hc old hc) hc w link
                (legacy-Alike old hc (same old e)) wanted (rw (ensure_health_check, e) at h))
        | inr (inl (x, e)) ↦ elim (Bool-cases (is_not_found_error (some x))) [
          | inl b ↦
              rw (ensure_health_check, e, b)
                (probed-HasCheck p hc w link wanted (rw (ensure_health_check, e, b) at h))
          | inr b ↦
              absurd (cc (ap (λ a. a.1) (some-injective _ _ (rw (ensure_health_check, e, b) at h))))
        ]
        | inr (inr e) ↦ absurd (cc (rw (ensure_health_check, e) at h))
      ]
