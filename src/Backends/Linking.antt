-- ===== src/Backends/Linking.antt =====
-- The steps of Ensure on a service that is there.
use ingress_gce.Base.{
  ℕ, ◌≡◌, refl, ap, ◌∙◌, Bool, false, ◌&&◌, ◌||◌, not, none, List, [], ◌∷◌, Str, str_eq_iff, ok,
  arith, Bool-cases, Option-cases, if-cases, inl, inr,
}
use ingress_gce.Base.Maps.{str_Eq}
use ingress_gce.Sets.{elem}
use ingress_gce.Backends.{BackendService, ServicePort, description, retrieve_object_name, Parts}
use ingress_gce.Backends.Services.{
  only_link, needs_fix, fix, Changed, edge_hop, delete_legacy, link_groups, check_service,
}
use ingress_gce.Backends.Hop.{groups, is_ig, ServiceLaws, edge_hop-Hopped}

-- The service is the port's: its protocol and description, and the health check of the link's name.
pub record Suits (p : ServicePort) (hc_link : Str) (be : BackendService) : Type 0 where
  pub same_protocol : be.protocol ≡ p.protocol
  pub same_description : be.description ≡ description p
  pub same_check : retrieve_object_name (only_link be.health_checks) ≡ retrieve_object_name hc_link

-- the instance groups that the port's service is linked to
abbrev pub linked : ServicePort → List Str → Str → Bool
linked p igs k = is_ig k && (not p.neg_enabled && elem igs k)

-- every one of them is a group of the service
pub Reaches : ServicePort → List Str → BackendService → Type 0
Reaches p igs be =
    (k : Str) → (linked p igs k || elem (groups be.backends) k) ≡ elem (groups be.backends) k

needs_fix-Suits :
    (be : BackendService) (hc_link : Str) (p : ServicePort)
    → needs_fix be hc_link p ≡ false
    → Suits p hc_link be
unfolding needs_fix
needs_fix-Suits be hc_link p h = record {
  same_protocol = (str_eq_iff be.protocol p.protocol).0 (ground (arith, h));
  same_description = (str_eq_iff be.description (description p)).0 (ground (arith, h));
  same_check =
      (str_eq_iff (retrieve_object_name (only_link be.health_checks))
          (retrieve_object_name hc_link)).0
        (ground (arith, h));
}

-- The health checks are other objects: deleting a legacy one changes no service.
pub record LegacyLaws {World : Type 0} (B : Parts World) : Type 0 where
  pub kept :
      (w : World) (port : ℕ) (name : Str)
      → B.cloud.get_global_backend_service name (B.health_checker.delete_legacy port w).1
        ≡ B.cloud.get_global_backend_service name w

module _ {World : Type 0} (B : Parts World) (L : ServiceLaws B.cloud) (K : LegacyLaws B) where
  open B use {cloud}

  delete_legacy-kept :
      (existing_link hc_link : Str) (port : ℕ) (w : World) (name : Str)
      → cloud.get_global_backend_service name (delete_legacy B existing_link hc_link port w)
        ≡ cloud.get_global_backend_service name w
  unfolding delete_legacy
  delete_legacy-kept existing_link hc_link port w name = ground (arith, K.kept w port name)

  -- A step of Ensure on a service, stored as it is returned, that links its groups.
  record Linking (p : ServicePort) (igs : List Str) (be : BackendService) (r : Changed World)
      : Type 0 where
    stored : cloud.get_global_backend_service be.name r.2 ≡ ok r.1
    same_protocol : r.1.protocol ≡ be.protocol
    same_description : r.1.description ≡ be.description
    same_checks : r.1.health_checks ≡ be.health_checks
    reaches : Reaches p igs r.1

  hop_Linking :
      (p : ServicePort) (igs : List Str) (be : BackendService) (w : World)
      → cloud.get_global_backend_service be.name w ≡ ok be
      → (edge_hop B be igs w).0 ≡ none
      → Linking p igs be (edge_hop B be igs w)
  unfolding Reaches
  hop_Linking p igs be w found h =
      let (links, hop, exact) = edge_hop-Hopped B L be igs w found h in
      record {
        stored = hop.stored;
        same_protocol = ap (λ s. s.protocol) hop.changed;
        same_description = ap (λ s. s.description) hop.changed;
        same_checks = ap (λ s. s.health_checks) hop.changed;
        reaches = λ k.
            let same = ap (λ s. elem (groups s.backends) k) hop.changed in
            elim (Bool-cases (is_ig k)) [
              | inl ig ↦ ground (arith, same, exact k ig, ig)
              | inr ig ↦ rw ig refl
            ];
      }

  link_groups-Linking :
      (p : ServicePort) (igs : List Str) (existing_link hc_link : Str) (be : BackendService)
      (w : World)
      → cloud.get_global_backend_service be.name w ≡ ok be
      → (link_groups B p igs existing_link hc_link be w).0 ≡ none
      → Linking p igs be (link_groups B p igs existing_link hc_link be w)
  unfolding link_groups Reaches elem
  link_groups-Linking p [] existing_link hc_link be w found h = record {
    stored = delete_legacy-kept existing_link hc_link p.port w be.name ∙ found;
    same_protocol = refl;
    same_description = refl;
    same_checks = refl;
    reaches = λ k. ground arith;
  }
  link_groups-Linking p (ig ∷ igs) existing_link hc_link be w found h =
      let v = delete_legacy B existing_link hc_link p.port w in
      let found' = delete_legacy-kept existing_link hc_link p.port w be.name ∙ found in
      if-cases p.neg_enabled (none, be, v) (edge_hop B be (ig ∷ igs) v)
        (λ r. r.0 ≡ none → Linking p (ig ∷ igs) be r)
        (λ e fine. record {
          stored = found';
          same_protocol = refl;
          same_description = refl;
          same_checks = refl;
          reaches = λ k. ground (arith, e);
        })
        (λ e fine. hop_Linking p (ig ∷ igs) be v found' fine) h

  -- An update that brings the service to the port's settings, or none, and the groups.
  pub record ServedBy (p : ServicePort) (igs : List Str) (hc_link name : Str) (r : Changed World)
      : Type 0 where
    pub stored : cloud.get_global_backend_service name r.2 ≡ ok r.1
    pub suits : Suits p hc_link r.1
    pub reaches : Reaches p igs r.1

  served :
      (p : ServicePort) (igs : List Str) (hc_link : Str) (be : BackendService) (r : Changed World)
      → Suits p hc_link be
      → Linking p igs be r
      → ServedBy p igs hc_link be.name r
  served p igs hc_link be r s l = record {
    stored = l.stored;
    suits = record {
      same_protocol = l.same_protocol ∙ s.same_protocol;
      same_description = l.same_description ∙ s.same_description;
      same_check = ap (λ c. retrieve_object_name (only_link c)) l.same_checks ∙ s.same_check;
    };
    reaches = l.reaches;
  }

  pub check_service-Served :
      (p : ServicePort) (igs : List Str) (hc_link : Str) (be : BackendService) (w : World)
      → cloud.get_global_backend_service be.name w ≡ ok be
      → (check_service B p igs hc_link be w).0 ≡ none
      → ServedBy p igs hc_link be.name (check_service B p igs hc_link be w)
  unfolding check_service only_link
  check_service-Served p igs hc_link be w found h =
      let existing_link = only_link be.health_checks in
      let be' = fix be hc_link p in
      let done = cloud.update_global_backend_service be' w in
      elim (Bool-cases (needs_fix be hc_link p)) [
        | inl b ↦ elim (Option-cases done.0) [
          | inl e ↦
              rw (check_service, b, e)
                (served p igs hc_link be' _
                  (record { same_protocol = refl; same_description = refl; same_check = refl })
                  (link_groups-Linking p igs existing_link hc_link be' done.1 (L.updated w be' e)
                    (rw (check_service, b, e) at h)))
          | inr (x, e) ↦ absurd (cc (rw (check_service, b, e) at h))
        ]
        | inr b ↦
            rw (check_service, b)
              (served p igs hc_link be _ (needs_fix-Suits be hc_link p b) (
                link_groups-Linking p igs existing_link hc_link be w found
                  (rw (check_service, b) at h)))
      ]
