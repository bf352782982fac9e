-- ===== src/HealthChecks/Sync.antt =====
-- What a sync of a health check leaves in the cloud.
use mathlib.Core.Option.{some-injective}
use ingress_gce.Base.{
  ℕ, ◌≡◌, inl, inr, refl, sym, ap, subst, false, none, some, [], Str, str_eq, str_eq_iff,
  str_eq_refl, ok, Failure, Bool-cases, arith,
}
use ingress_gce.Base.Outcome.{Result-cases}
use ingress_gce.Http.{status_not_found, is_http_error_code}
use ingress_gce.Namer.{Namer}
use ingress_gce.HealthCheck.{HealthCheck, Json, protocol, need_to_update}
use ingress_gce.HealthChecks.{
  HealthCheckProvider, create, get, with_default_path, link_created, sync_existing, sync_from, sync,
}
use ingress_gce.HealthChecks.Reading.{JsonLaws, CheckLaws, IsWanted, Agrees}
use ingress_gce.HealthChecks.Writes.{create-Agrees, update-Agrees}

need_to_update-eq-false :
    (old hc : HealthCheck)
    → need_to_update old hc ≡ false
    → (protocol old ≡ protocol hc) × (old.http.port_specification ≡ hc.http.port_specification)
unfolding need_to_update
need_to_update-eq-false old hc h = elim (Bool-cases (str_eq (protocol old) (protocol hc))) [
  | inl e ↦ elim (Bool-cases (str_eq old.http.port_specification hc.http.port_specification)) [
    | inl s ↦ (
      (str_eq_iff (protocol old) (protocol hc)).0 e,
      (str_eq_iff old.http.port_specification hc.http.port_specification).0 s,
    )
    | inr s ↦ absurd (ground (arith, h, e, s))
  ]
  | inr e ↦ absurd (ground (arith, h, e))
]

module _ {World : Type 0} (J : Json) (C : HealthCheckProvider World) (n : Namer) where
  -- Under the port's name there is a check with the protocol and the port specification.
  abbrev pub HasCheck : HealthCheck → World → Type 0
  HasCheck hc w = Agrees hc (get J C n hc.http.port hc.for_neg w)

  link_created-none :
      (port : ℕ) (r : Failure × World) (link : Str)
      → (link_created J C n port r).0 ≡ some (link, none)
      → (r.0 ≡ none) × ((link_created J C n port r).1 ≡ r.1)
  unfolding link_created
  link_created-none port (none, w) link h = (refl, refl)
  link_created-none port (some x, w) link h = absurd (cc (ap (λ p. p.1) (some-injective _ _ h)))

  sync_from-unchanged :
      (hc : HealthCheck) (w : World) (found : Agrees hc (get J C n hc.http.port hc.for_neg w))
      → sync_from J C n hc w ≡ (some (found.hit.check.self_link, none), w)
  unfolding sync_from sync_existing need_to_update
  sync_from-unchanged hc w found =
      rw
        (
          sync_from,
          found.is_hit,
          sync_existing,
          need_to_update,
          found.same_protocol,
          str_eq_refl (protocol hc),
          found.same_specification,
          str_eq_refl hc.http.port_specification,
        )
        refl

  -- If there is a check with the wanted protocol and port specification, a sync gives its link with no
  -- error and calls no operation that changes the cloud, whatever the check's other settings are.
  pub sync-unchanged :
      (default_path : Str) (hc : HealthCheck) (w : World) (found : HasCheck hc w)
      → sync J C n default_path hc w ≡ (some (found.hit.check.self_link, none), w)
  unfolding sync with_default_path
  sync-unchanged default_path hc w found = elim (Bool-cases (str_eq hc.http.request_path [])) [
    | inl b ↦
        let hc' = record hc { http = record (hc.http) { request_path = default_path } } in
        rw (sync, with_default_path, b)
          (sync_from-unchanged hc' w (record {
            hit = found.hit;
            is_hit = found.is_hit;
            same_protocol = found.same_protocol;
            same_specification = found.same_specification;
          }))
    | inr b ↦ rw (sync, with_default_path, b) (sync_from-unchanged hc w found)
  ]

module _ {World : Type 0} (J : Json) (LJ : JsonLaws J) (C : HealthCheckProvider World)
    (L : CheckLaws C) (n : Namer) where
  sync_existing-HasCheck :
      (old hc : HealthCheck) (w : World) (link : Str)
      → IsWanted n hc
      → get J C n hc.http.port hc.for_neg w ≡ ok old
      → (sync_existing J C old hc w).0 ≡ some (link, none)
      → HasCheck J C n hc (sync_existing J C old hc w).1
  unfolding sync_existing
  sync_existing-HasCheck old hc w link wanted e h = elim (Bool-cases (need_to_update old hc)) [
    | inl b ↦
        rw (sync_existing, b)
          (update-Agrees J LJ C L n old hc w wanted
            (ap (λ p. p.1) (some-injective _ _ (rw (sync_existing, b) at h))))
    | inr b ↦
        let same = need_to_update-eq-false old hc b in
        rw (sync_existing, b)
          (record { hit = old; is_hit = e; same_protocol = same.0; same_specification = same.1 })
  ]

  sync_from-HasCheck :
      (hc : HealthCheck) (w : World) (link : Str)
      → IsWanted n hc
      → (sync_from J C n hc w).0 ≡ some (link, none)
      → HasCheck J C n hc (sync_from J C n hc w).1
  unfolding sync_from
  sync_from-HasCheck hc w link wanted h =
      elim (Result-cases (get J C n hc.http.port hc.for_neg w)) [
        | inl (old, e) ↦
            rw (sync_from, e)
              (sync_existing-HasCheck old hc w link wanted e (rw (sync_from, e) at h))
        | inr (inl (x, e)) ↦ elim (Bool-cases (is_http_error_code (some x) status_not_found)) [
          | inl b ↦
              let made =
                link_created-none J C n hc.http.port (create J C hc w) link
                  (rw (sync_from, e, b) at h) in
              rw (sync_from, e, b)
                (subst (λ v. Agrees hc (get J C n hc.http.port hc.for_neg v)) (sym made.1)
                  (create-Agrees J LJ C L n hc w wanted made.0))
          | inr b ↦ absurd (cc (ap (λ p. p.1) (some-injective _ _ (rw (sync_from, e, b) at h))))
        ]
        | inr (inr e) ↦ absurd (cc (rw (sync_from, e) at h))
      ]

  -- A sync that reports no error of a check that the controller wants leaves under the port's name, to be
  -- found by the API that is used for its kind of group, a check with the wanted protocol and port
  -- specification, whether it was created, updated or there before.
  pub sync-HasCheck :
      (default_path : Str) (hc : HealthCheck) (w : World) (link : Str)
      → IsWanted n hc
      → (sync J C n default_path hc w).0 ≡ some (link, none)
      → HasCheck J C n hc (sync J C n default_path hc w).1
  unfolding sync with_default_path
  sync-HasCheck default_path hc w link wanted h =
      elim (Bool-cases (str_eq hc.http.request_path [])) [
        | inl b ↦
            let hc' = record hc { http = record (hc.http) { request_path = default_path } } in
            let done =
              sync_from-HasCheck hc' w link
                (record {
                  named = wanted.named;
                  spoken = wanted.spoken;
                  specified = wanted.specified;
                })
                (rw (sync, with_default_path, b) at h) in
            rw (sync, with_default_path, b)
              (record {
                hit = done.hit;
                is_hit = done.is_hit;
                same_protocol = done.same_protocol;
                same_specification = done.same_specification;
              })
        | inr b ↦
            rw (sync, with_default_path, b)
              (sync_from-HasCheck hc w link wanted (rw (sync, with_default_path, b) at h))
      ]
