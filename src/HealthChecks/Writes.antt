-- ===== src/HealthChecks/Writes.antt =====
-- A creation and an update of a health check.
use ingress_gce.Base.{
  ◌≡◌, inl, inr, refl, sym, ap, subst, ◌∙◌, Bool, true, false, none, some, [], Str, ok, Failure,
  Bool-cases, if_true, if_false,
}
use ingress_gce.Namer.{Namer}
use ingress_gce.HealthCheck.{
  V1HealthCheck, HealthCheck, Json, merge, to_alpha_compute_health_check, merge_healthcheck_for_neg,
  to_compute_health_check,
}
use ingress_gce.HealthChecks.{
  HealthCheckProvider, if_converted, create, update, get_v1, get_alpha, get,
}
use ingress_gce.HealthChecks.Conversion.{IsHttp}
use ingress_gce.HealthChecks.Reading.{
  strip, JsonLaws, CheckLaws, IsWanted, Agrees, v1-Agrees, alpha-Agrees, to_alpha_named,
}

if_converted-none :
    {World : Type 0} (r : V1HealthCheck × Failure) (call : V1HealthCheck → World → Failure × World)
    (w : World)
    → (if_converted r call w).0 ≡ none
    → (r.1 ≡ none) × (if_converted r call w ≡ call r.0 w)
unfolding if_converted
if_converted-none (v, none) call w h = (refl, refl)
if_converted-none (v, some e) call w h = cc

-- the two ways of a creation and of an update
module _ {World : Type 0} (J : Json) (C : HealthCheckProvider World) where
  create_neg :
      (hc : HealthCheck) (w : World)
      → hc.for_neg ≡ true
      → create J C hc w ≡ C.create_alpha_health_check (to_alpha_compute_health_check hc).check w
  unfolding create
  create_neg hc w e = if_true _ _ e

  create_ig :
      (hc : HealthCheck) (w : World)
      → hc.for_neg ≡ false
      → create J C hc w ≡ if_converted (to_compute_health_check J hc) C.create_health_check w
  unfolding create
  create_ig hc w e = if_false _ _ e

  pub update_neg :
      (old hc : HealthCheck) (w : World)
      → hc.for_neg ≡ true
      → update J C old hc w
        ≡ C.update_alpha_health_check
            (to_alpha_compute_health_check (merge_healthcheck_for_neg old hc)).check
            w
  unfolding update
  update_neg old hc w e = if_true _ _ e

  update_ig :
      (old hc : HealthCheck) (w : World)
      → hc.for_neg ≡ false
      → update J C old hc w ≡ if_converted (to_compute_health_check J hc) C.update_health_check w
  unfolding update
  update_ig old hc w e = if_false _ _ e

module _ {World : Type 0} (J : Json) (LJ : JsonLaws J) (C : HealthCheckProvider World)
    (L : CheckLaws C) (n : Namer) where
  -- a v1 check that was written, found under its name
  found_v1 :
      (hc : HealthCheck) (link : Str) (w : World)
      → IsWanted n hc
      → hc.http.port_specification ≡ []
      → C.get_health_check (merge hc).check.name w
        ≡ ok (record (strip (merge hc).check) { self_link = link })
      → Agrees hc (get J C n hc.http.port false w)
  unfolding get get_v1 merge
  found_v1 hc link w wanted s hit =
      rw
        (
          subst
              (λ k.
                C.get_health_check k w ≡ ok (record (strip (merge hc).check) { self_link = link }))
              wanted.named hit,
          LJ.to_alpha (record (strip (merge hc).check) { self_link = link }),
        )
        (v1-Agrees hc link wanted.spoken s)

  found_alpha :
      (hc sent : HealthCheck) (link : Str) (w : World)
      → IsWanted n hc
      → sent.check ≡ hc.check
      → sent.http.port_specification ≡ hc.http.port_specification
      → C.get_alpha_health_check (to_alpha_compute_health_check sent).check.name w
        ≡ ok (record ((to_alpha_compute_health_check sent).check) { self_link = link })
      → Agrees hc (get J C n hc.http.port true w)
  unfolding get get_alpha
  found_alpha hc sent link w wanted same spec hit =
      let a = alpha-Agrees sent link (subst (λ c. IsHttp c.check_type) (sym same) wanted.spoken) in
      rw
        (subst
          (λ k.
            C.get_alpha_health_check k w
            ≡ ok (record ((to_alpha_compute_health_check sent).check) { self_link = link }))
          (to_alpha_named sent ∙ (ap (λ c. c.name) same ∙ wanted.named)) hit)
        (record {
          hit = a.hit;
          is_hit = a.is_hit;
          same_protocol = a.same_protocol ∙ ap (λ c. c.check_type) same;
          same_specification = a.same_specification ∙ spec;
        })

  v1_written :
      (write : V1HealthCheck → World → Failure × World)
      → ((w : World) (v : V1HealthCheck)
          → (write v w).0 ≡ none
          → (link : Str) × (C.get_health_check v.name (write v w).1
              ≡ ok (record v { self_link = link })))
      → (hc : HealthCheck) (w : World) → IsWanted n hc
      → hc.http.port_specification ≡ []
      → (if_converted (to_compute_health_check J hc) write w).0 ≡ none
      → Agrees hc
          (get J C n hc.http.port false (if_converted (to_compute_health_check J hc) write w).1)
  unfolding to_compute_health_check
  v1_written write law hc w wanted s h =
      let v = to_compute_health_check J hc in
      let fine = if_converted-none v write w h in
      let same = LJ.to_v1 (merge hc).check fine.0 in
      let written =
        λ (x : V1HealthCheck) (e : x ≡ strip (merge hc).check) (k : (write x w).0 ≡ none).
          subst (λ y. (write y w).0 ≡ none → Agrees hc (get J C n hc.http.port false (write y w).1))
            (sym e)
            (λ g.
              let hit = law w (strip (merge hc).check) g in
              found_v1 hc hit.0 (write (strip (merge hc).check) w).1 wanted s hit.1)
            k in
      subst (λ r. Agrees hc (get J C n hc.http.port false r.1)) (sym fine.1)
        (written v.0 same (sym (ap (λ r. r.0) fine.1) ∙ h))

  plain_specified :
      (hc : HealthCheck) → IsWanted n hc → hc.for_neg ≡ false → hc.http.port_specification ≡ []
  plain_specified hc wanted ig = elim wanted.specified [
    | inl neg ↦ absurd (cc (neg, ig))
    | inr s ↦ s
  ]

  -- the same answer by another name of the world and of the API
  moved :
      (hc : HealthCheck) (b : Bool) (r q : Failure × World)
      → r ≡ q
      → hc.for_neg ≡ b
      → Agrees hc (get J C n hc.http.port b q.1)
      → Agrees hc (get J C n hc.http.port hc.for_neg r.1)
  moved hc b r q run e a =
      subst (λ c. Agrees hc (get J C n hc.http.port c r.1)) (sym e)
        (subst (λ x. Agrees hc (get J C n hc.http.port b x.1)) (sym run) a)

  pub create-Agrees :
      (hc : HealthCheck) (w : World)
      → IsWanted n hc
      → (create J C hc w).0 ≡ none
      → Agrees hc (get J C n hc.http.port hc.for_neg (create J C hc w).1)
  create-Agrees hc w wanted h = elim (Bool-cases hc.for_neg) [
    | inl e ↦
        let run = create_neg J C hc w e in
        let hit =
          L.created_alpha w (to_alpha_compute_health_check hc).check
            (sym (ap (λ r. r.0) run) ∙ h) in
        moved hc true _ _ run e (found_alpha hc hc hit.0 _ wanted refl refl hit.1)
    | inr e ↦
        let run = create_ig J C hc w e in
        moved hc false _ _ run e (
          v1_written C.create_health_check L.created hc w wanted (plain_specified hc wanted e)
            (sym (ap (λ r. r.0) run) ∙ h))
  ]

  pub update-Agrees :
      (old hc : HealthCheck) (w : World)
      → IsWanted n hc
      → (update J C old hc w).0 ≡ none
      → Agrees hc (get J C n hc.http.port hc.for_neg (update J C old hc w).1)
  unfolding merge_healthcheck_for_neg
  update-Agrees old hc w wanted h = elim (Bool-cases hc.for_neg) [
    | inl e ↦
        let run = update_neg J C old hc w e in
        let sent = merge_healthcheck_for_neg old hc in
        let hit =
          L.updated_alpha w (to_alpha_compute_health_check sent).check
            (sym (ap (λ r. r.0) run) ∙ h) in
        moved hc true _ _ run e (found_alpha hc sent hit.0 _ wanted refl refl hit.1)
    | inr e ↦
        let run = update_ig J C old hc w e in
        moved hc false _ _ run e (
          v1_written C.update_health_check L.updated hc w wanted (plain_specified hc wanted e)
            (sym (ap (λ r. r.0) run) ∙ h))
  ]
