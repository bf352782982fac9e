-- ===== src/Backends/Grouped.antt =====
-- What Link leaves in a backend service for endpoint groups.
use mathlib.Core.Option.{some-injective}
use ingress_gce.Base.{
  ◌≡◌, refl, ap, sym, subst, ◌∙◌, true, not, Option, none, some, List, [], ◌∷◌, map, Str, ok,
  Bool-cases, inl, inr, if_false,
}
use ingress_gce.Base.Outcome.{Result-cases, ok-injective}
use ingress_gce.Sets.{StringSets, elem, new_string}
use ingress_gce.Sets.Members.{same_elements}
use ingress_gce.Namer.{Namer, backend, neg}
use ingress_gce.Backends.{
  AlphaBackend, AlphaBackendService, ServicePort, backends_for_negs, BackendServices, Parts,
}
use ingress_gce.Backends.Links.{zone_negs, link_service, link_named, link}

abbrev alpha_groups : AlphaBackendService → List Str
alpha_groups be = map (λ b. AlphaBackend.group b) be.backends

-- A service that was updated with no error is found as it was given, under the name that it was found by.
pub record AlphaLaws {World : Type 0} (C : BackendServices World) : Type 0 where
  pub updated :
      (w : World) (be : AlphaBackendService)
      → (C.update_alpha_global_backend_service be w).0 ≡ none
      → C.get_alpha_global_backend_service be.name (C.update_alpha_global_backend_service be w).1
        ≡ ok be
  pub named :
      (w : World) (name : Str) (be : AlphaBackendService)
      → C.get_alpha_global_backend_service name w ≡ ok be
      → be.name ≡ name

-- The links are those of the groups of the name, one for each of the zones, in their order.
pub AreLinks : {World : Type 0} → Parts World → Str → World → List Str → List Str → Type 0
AreLinks B neg_name w [] [] = Unit
AreLinks B neg_name w [] (link ∷ links) = ⊥
AreLinks B neg_name w (zone ∷ zones) [] = ⊥
AreLinks B neg_name w (zone ∷ zones) (link ∷ links) =
    (B.get_network_endpoint_group neg_name zone w ≡ ok link) × AreLinks B neg_name w zones links

zone_negs-AreLinks :
    {World : Type 0} (B : Parts World) (neg_name : Str) (zones links : List Str) (w : World)
    → zone_negs B neg_name zones w ≡ ok links
    → AreLinks B neg_name w zones links
unfolding zone_negs AreLinks
zone_negs-AreLinks B neg_name [] links w h =
    subst (AreLinks B neg_name w []) (ok-injective _ _ h) tt
zone_negs-AreLinks B neg_name (zone ∷ zones) links w h =
    elim (Result-cases (B.get_network_endpoint_group neg_name zone w)) [
      | inl (link, e) ↦ elim (Result-cases (zone_negs B neg_name zones w)) [
        | inl (rest, f) ↦
            subst (AreLinks B neg_name w (zone ∷ zones))
              (ok-injective _ _ (rw (zone_negs, e, f) at h))
              (e, zone_negs-AreLinks B neg_name zones rest w f)
        | inr (inl (x, f)) ↦ absurd (cc (rw (zone_negs, e, f) at h))
        | inr (inr f) ↦ absurd (cc (rw (zone_negs, e, f) at h))
      ]
      | inr (inl (x, e)) ↦ absurd (cc (rw (zone_negs, e) at h))
      | inr (inr e) ↦ absurd (cc (rw (zone_negs, e) at h))
    ]

groups_of_negs : (negs : List Str) → map (λ b. AlphaBackend.group b) (backends_for_negs negs) ≡ negs
unfolding backends_for_negs
groups_of_negs [] = refl
groups_of_negs (neg ∷ negs) = ap (λ xs. neg ∷ xs) (groups_of_negs negs)

module _ {World : Type 0} (B : Parts World) (L : AlphaLaws B.cloud) (S : StringSets) where
  open B use {cloud}
  open S use {equal}

  -- The service under the name has these groups and no others.
  abbrev pub HasNegs : Str → List Str → World → Type 0
  HasNegs name negs w =
      (be : AlphaBackendService) × (cloud.get_alpha_global_backend_service name w ≡ ok be)
      × ((k : Str) → elem (alpha_groups be) k ≡ elem negs k)

  link_service-HasNegs :
      (negs : List Str) (be : AlphaBackendService) (w : World)
      → cloud.get_alpha_global_backend_service be.name w ≡ ok be
      → (link_service B S negs be w).0 ≡ some none
      → HasNegs be.name negs (link_service B S negs be w).1
  unfolding link_service
  link_service-HasNegs negs be w found h =
      let target = backends_for_negs negs in
      let be' = record be { backends = target } in
      let same = groups_of_negs negs in
      elim (Bool-cases (
        equal (new_string S (alpha_groups be))
          (new_string S (map (λ b. AlphaBackend.group b) target)))) [
            | inl b ↦
                rw (link_service, b)
                  (
                    be,
                    found,
                    λ k.
                        sym (
                          same_elements S (alpha_groups be) (map (λ x. AlphaBackend.group x) target)
                            b k)
                        ∙ ap (λ xs. elem xs k) same,
                  )
            | inr b ↦
                rw (link_service, b)
                  (
                    be',
                    L.updated w be' (some-injective _ _ (rw (link_service, b) at h)),
                    λ k. ap (λ xs. elem xs k) same,
                  )
          ]

  module _ (md5_hex : Str → Str) (n : Namer) where
    link_named-HasNegs :
        (port : ServicePort) (zones : List Str) (name : Option Str) (w : World)
        → (link_named B S md5_hex n port zones name w).0 ≡ some none
        → (neg_name : Str) × (negs : List Str) × (name ≡ some neg_name)
          × (zone_negs B neg_name zones w ≡ ok negs)
          × HasNegs (backend n port.port) negs (link_named B S md5_hex n port zones name w).1
    unfolding link_named
    link_named-HasNegs port zones none w h = absurd (cc h)
    link_named-HasNegs port zones (some neg_name) w h =
        elim (Result-cases (zone_negs B neg_name zones w)) [
          | inl (negs, e) ↦
              elim (Result-cases (cloud.get_alpha_global_backend_service (backend n port.port) w)) [
                | inl (be, f) ↦
                    let name = L.named w (backend n port.port) be f in
                    (
                      neg_name,
                      negs,
                      refl,
                      e,
                      rw (link_named, e, f)
                          (subst (λ k. HasNegs k negs (link_service B S negs be w).1) name
                            (link_service-HasNegs negs be w
                              (subst (λ k. cloud.get_alpha_global_backend_service k w ≡ ok be)
                                (sym name) f)
                              (rw (link_named, e, f) at h))),
                    )
                | inr (inl (x, f)) ↦ absurd (cc (some-injective _ _ (rw (link_named, e, f) at h)))
                | inr (inr f) ↦ absurd (cc (rw (link_named, e, f) at h))
              ]
          | inr (inl (x, e)) ↦ absurd (cc (some-injective _ _ (rw (link_named, e) at h)))
          | inr (inr e) ↦ absurd (cc (rw (link_named, e) at h))
        ]

    -- For a service port for endpoint groups, a link that reports no error: the cloud has an endpoint
    -- group of the port's name in each of the zones, and the port's backend service has afterwards the
    -- groups with the links of these and no others.
    pub link-HasNegs :
        (port : ServicePort) (zones : List Str) (w : World)
        → port.neg_enabled ≡ true
        → (link B S md5_hex n port zones w).0 ≡ some none
        → (neg_name : Str) × (negs : List Str) × (neg md5_hex n port.svc_namespace port.svc_name
              port.svc_target_port
            ≡ some neg_name)
          × AreLinks B neg_name w zones negs
          × HasNegs (backend n port.port) negs (link B S md5_hex n port zones w).1
    unfolding link
    link-HasNegs port zones w e h =
        let name = neg md5_hex n port.svc_namespace port.svc_name port.svc_target_port in
        let run : link B S md5_hex n port zones w ≡ link_named B S md5_hex n port zones name w =
          if_false _ _ (ap not e) in
        let done = link_named-HasNegs port zones name w (sym (ap (λ r. r.0) run) ∙ h) in
        (
          done.0,
          done.1,
          done.2,
          zone_negs-AreLinks B done.0 zones done.1 w done.3,
          subst (λ r. HasNegs (backend n port.port) done.1 r.1) (sym run) done.4,
        )
