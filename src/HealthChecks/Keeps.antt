-- ===== src/HealthChecks/Keeps.antt =====
-- What a sync for an endpoint group keeps of the check that was there.
use mathlib.Core.Option.{some-injective}
use ingress_gce.Base.{
  ◌≡◌, inl, inr, refl, sym, ap, subst, ◌∙◌, true, none, some, [], Str, str_eq, ok, Bool-cases,
  arith,
}
use ingress_gce.Namer.{Namer}
use ingress_gce.HealthCheck.{
  HttpHealthCheck, HealthCheck, Json, to_alpha_compute_health_check, need_to_update,
  merge_healthcheck_for_neg,
}
use ingress_gce.HealthChecks.{
  HealthCheckProvider, update, get_alpha, get, with_default_path, sync_existing, sync_from, sync,
}
use ingress_gce.HealthChecks.Conversion.{sent_http}
use ingress_gce.HealthChecks.Reading.{CheckLaws, IsWanted, read_back, alpha_read, to_alpha_named}
use ingress_gce.HealthChecks.Writes.{update_neg}

sent_http_path : (h : HttpHealthCheck) → (sent_http h).request_path ≡ h.request_path
unfolding sent_http
sent_http_path h = ground arith

sent_http_host : (h : HttpHealthCheck) → (sent_http h).host ≡ h.host
unfolding sent_http
sent_http_host h = ground arith

module _ {World : Type 0} (J : Json) (C : HealthCheckProvider World) (n : Namer) where
  -- The check under the port's name has the old one's path and host.
  abbrev pub HasPath : HealthCheck → HealthCheck → World → Type 0
  HasPath old hc w =
      (x : HealthCheck) × (get J C n hc.http.port true w ≡ ok x)
      × (x.http.request_path ≡ old.http.request_path)
      × (x.http.host ≡ old.http.host)

module _ {World : Type 0} (J : Json) (C : HealthCheckProvider World) (L : CheckLaws C)
    (n : Namer) where
  update-HasPath :
      (old hc : HealthCheck) (w : World)
      → IsWanted n hc
      → hc.for_neg ≡ true
      → (update J C old hc w).0 ≡ none
      → HasPath J C n old hc (update J C old hc w).1
  unfolding get get_alpha merge_healthcheck_for_neg
  update-HasPath old hc w wanted e h =
      let run = update_neg J C old hc w e in
      let sent = merge_healthcheck_for_neg old hc in
      let hit =
        L.updated_alpha w (to_alpha_compute_health_check sent).check
          (sym (ap (λ r. r.0) run) ∙ h) in
      let v = (C.update_alpha_health_check (to_alpha_compute_health_check sent).check w).1 in
      subst (λ r. HasPath J C n old hc r.1) (sym run)
        (
          read_back (sent_http sent.http) sent.check hit.0,
          rw
              (subst
                (λ k.
                  C.get_alpha_health_check k v
                  ≡ ok (record ((to_alpha_compute_health_check sent).check) { self_link = hit.0 }))
                (to_alpha_named sent ∙ wanted.named) hit.1)
              (alpha_read sent hit.0 wanted.spoken),
          sent_http_path sent.http,
          sent_http_host sent.http,
        )

  sync_from-HasPath :
      (old hc : HealthCheck) (w : World) (link : Str)
      → IsWanted n hc
      → hc.for_neg ≡ true
      → get J C n hc.http.port true w ≡ ok old
      → (sync_from J C n hc w).0 ≡ some (link, none)
      → HasPath J C n old hc (sync_from J C n hc w).1
  unfolding sync_from sync_existing
  sync_from-HasPath old hc w link wanted e there h =
      let found : get J C n hc.http.port hc.for_neg w ≡ ok old =
        subst (λ b. get J C n hc.http.port b w ≡ ok old) (sym e) there in
      elim (Bool-cases (need_to_update old hc)) [
        | inl b ↦
            rw (sync_from, found, sync_existing, b)
              (update-HasPath old hc w wanted e
                (ap (λ p. p.1) (some-injective _ _ (rw (sync_from, found, sync_existing, b) at h))))
        | inr b ↦ rw (sync_from, found, sync_existing, b) (old, there, refl, refl)
      ]

  -- If a check is found for an endpoint group, a sync that reports no error keeps its request path and
  -- its host, also where it changes the protocol or the port specification, and where the path asked
  -- for is another.
  pub sync-HasPath :
      (default_path : Str) (old hc : HealthCheck) (w : World) (link : Str)
      → IsWanted n hc
      → hc.for_neg ≡ true
      → get J C n hc.http.port true w ≡ ok old
      → (sync J C n default_path hc w).0 ≡ some (link, none)
      → HasPath J C n old hc (sync J C n default_path hc w).1
  unfolding sync with_default_path
  sync-HasPath default_path old hc w link wanted e there h =
      elim (Bool-cases (str_eq hc.http.request_path [])) [
        | inl b ↦
            let hc' = record hc { http = record (hc.http) { request_path = default_path } } in
            rw (sync, with_default_path, b)
              (sync_from-HasPath old hc' w link
                (record {
                  named = wanted.named;
                  spoken = wanted.spoken;
                  specified = wanted.specified;
                })
                e there (rw (sync, with_default_path, b) at h))
        | inr b ↦
            rw (sync, with_default_path, b)
              (sync_from-HasPath old hc w link wanted e there
                (rw (sync, with_default_path, b) at h))
      ]
