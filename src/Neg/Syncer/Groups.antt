-- ===== src/Neg/Syncer/Groups.antt =====
-- ensureNetworkEndpointGroups leaves a group of the cluster's network in every zone.
use ingress_gce.Base.{
  ◌≡◌, ◌≢◌, refl, ap, sym, subst, true, false, none, some, List, [], ◌∷◌, Str, str_eq, str_eq_refl,
  str_eq_iff, codes, split, last_of, arith, Error, ok, panic, Failure, new_aggregate, Bool-cases,
  inl, inr, ◌∙◌, All,
}
use ingress_gce.Base.Outcome.{ok-injective, Result-cases}
use ingress_gce.Neg.Endpoint.{retrieve_name}
use ingress_gce.Neg.Cloud.{NetworkEndpointGroup, ZoneGetter, NegCloud}
use ingress_gce.Neg.Syncer.{
  add_failure, matches_cluster, new_group, create_group, ensure_group, ensure_groups,
  ensure_network_endpoint_groups,
}

-- What the syncer relies on of the cloud's groups: a group that was created is found as it was made,
-- a call on one zone changes no other zone, and a lookup does not panic.
pub record GroupLaws {World : Type 0} (C : NegCloud World) : Type 0 where
  pub created :
      (w : World) (g : NetworkEndpointGroup) (zone : Str)
      → (C.create_network_endpoint_group g zone w).0 ≡ none
      → C.get_network_endpoint_group g.name zone (C.create_network_endpoint_group g zone w).1 ≡ ok g
  pub created_elsewhere :
      (w : World) (g : NetworkEndpointGroup) (zone name z : Str)
      → str_eq zone z ≡ false
      → C.get_network_endpoint_group name z (C.create_network_endpoint_group g zone w).1
        ≡ C.get_network_endpoint_group name z w
  pub deleted_elsewhere :
      (w : World) (name zone z : Str)
      → str_eq zone z ≡ false
      → C.get_network_endpoint_group name z (C.delete_network_endpoint_group name zone w).1
        ≡ C.get_network_endpoint_group name z w
  pub no_panic : (w : World) (name zone : Str) → C.get_network_endpoint_group name zone w ≢ panic

pub add_failure-eq-nil :
    (f : Failure) (errors : List Error) → add_failure f errors ≡ [] → (f ≡ none) × (errors ≡ [])
unfolding add_failure
add_failure-eq-nil none errors h = (refl, h)
add_failure-eq-nil (some e) [] h = cc
add_failure-eq-nil (some e) (x ∷ errors) h = cc

pub aggregate-none : (errors : List Error) → new_aggregate errors ≡ none → errors ≡ []
aggregate-none [] h = refl
aggregate-none (e ∷ errors) h = cc

module _ {World : Type 0} (Z : ZoneGetter World) (C : NegCloud World) (L : GroupLaws C) where
  -- The group is in the cluster's network and subnetwork, by the last parts of their URLs.
  abbrev pub InCluster : NetworkEndpointGroup → Type 0
  InCluster g =
      (last_of (split g.network (codes "/")) ≡ last_of (split C.network_url (codes "/")))
      × (last_of (split g.subnetwork (codes "/")) ≡ last_of (split C.subnetwork_url (codes "/")))

  matches_cluster-InCluster :
      (g : NetworkEndpointGroup) → matches_cluster Z C g ≡ true → InCluster g
  unfolding matches_cluster retrieve_name
  matches_cluster-InCluster g h = (
    (str_eq_iff (last_of (split g.network (codes "/")))
          (last_of (split C.network_url (codes "/")))).0
        (ground (arith, h)),
    (str_eq_iff (last_of (split g.subnetwork (codes "/")))
          (last_of (split C.subnetwork_url (codes "/")))).0
        (ground (arith, h)),
  )

  InCluster-matches_cluster :
      (g : NetworkEndpointGroup) → InCluster g → matches_cluster Z C g ≡ true
  unfolding matches_cluster retrieve_name
  InCluster-matches_cluster g (n, s) =
      rw (n, s, str_eq_refl (last_of (split C.network_url (codes "/")))) (str_eq_refl _)

  -- The zone has a group of the name, in the cluster's network and subnetwork.
  pub IsReady : Str → Str → World → Type 0
  IsReady name zone w =
      (g : NetworkEndpointGroup) × (C.get_network_endpoint_group name zone w ≡ ok g) × InCluster g

  -- The three ways through one zone.
  data Way (name zone : Str) (errors : List Error) (w : World) : Type 0 where
    kept :
        IsReady name zone w
        → ensure_group Z C name zone (errors, w) ≡ (errors, w)
        → Way name zone errors w
    made :
        ((z : Str) → IsReady name z w → str_eq zone z ≡ false)
        → ensure_group Z C name zone (errors, w) ≡ create_group Z C name zone (errors, w)
        → Way name zone errors w
    remade :
        ((z : Str) → IsReady name z w → str_eq zone z ≡ false)
        → ensure_group Z C name zone (errors, w)
          ≡ create_group Z C name zone (
            add_failure (C.delete_network_endpoint_group name zone w).0 errors,
            (C.delete_network_endpoint_group name zone w).1,
          )
        → Way name zone errors w

  new_group-InCluster : (name : Str) → InCluster (new_group Z C name)
  new_group-InCluster name = (refl, refl)

  -- a zone that is ready is not one that is not
  elsewhere :
      (name zone z : Str) (w : World)
      → ¬ IsReady name zone w
      → IsReady name z w
      → str_eq zone z ≡ false
  elsewhere name zone z w unready ready = elim (Bool-cases (str_eq zone z)) [
    | inl e ↦ absurd (unready (subst (λ y. IsReady name y w) (sym ((str_eq_iff zone z).0 e)) ready))
    | inr e ↦ e
  ]

  unready_of :
      (name zone : Str) (w : World)
      → ((g : NetworkEndpointGroup)
          → C.get_network_endpoint_group name zone w ≡ ok g
          → matches_cluster Z C g ≡ false)
      → ¬ IsReady name zone w
  unfolding IsReady
  unready_of name zone w h (g, found, match) = cc (InCluster-matches_cluster g match, h g found)

  way : (name zone : Str) (errors : List Error) (w : World) → Way name zone errors w
  unfolding ensure_group
  way name zone errors w = elim (Result-cases (C.get_network_endpoint_group name zone w)) [
    | inl (g, found) ↦ elim (Bool-cases (matches_cluster Z C g)) [
      | inl e ↦
          kept (unfold IsReady in (g, found, matches_cluster-InCluster g e))
            (rw (ensure_group, found, e))
      | inr e ↦
          remade
            (λ z. elsewhere name zone z w (
              unready_of name zone w (λ g' found'.
                subst (λ x. matches_cluster Z C x ≡ false) (ok-injective g g' (sym found ∙ found'))
                  e)))
            (rw (ensure_group, found, e))
    ]
    | inr (inl (x, missing)) ↦
        made
          (λ z.
            elsewhere name zone z w
              (unready_of name zone w (λ g found. absurd (cc (found, missing)))))
          (rw (ensure_group, missing))
    | inr (inr p) ↦ absurd (L.no_panic w name zone p)
  ]

  -- A creation with no error makes its zone ready.
  create_group-IsReady :
      (name zone : Str) (errors : List Error) (w : World)
      → (create_group Z C name zone (errors, w)).0 ≡ []
      → (errors ≡ []) × IsReady name zone (create_group Z C name zone (errors, w)).1
  unfolding create_group IsReady
  create_group-IsReady name zone errors w h =
      let (fine, before) =
        add_failure-eq-nil (C.create_network_endpoint_group (new_group Z C name) zone w).0 errors
          h in
      (
        before,
        (new_group Z C name, L.created w (new_group Z C name) zone fine, new_group-InCluster name),
      )

  create_group-keeps :
      (name zone z : Str) (errors : List Error) (w : World)
      → str_eq zone z ≡ false
      → IsReady name z w
      → IsReady name z (create_group Z C name zone (errors, w)).1
  unfolding create_group IsReady
  create_group-keeps name zone z errors w e (g, found, match) =
      (g, L.created_elsewhere w (new_group Z C name) zone name z e ∙ found, match)

  delete_keeps :
      (name zone z : Str) (w : World)
      → str_eq zone z ≡ false
      → IsReady name z w
      → IsReady name z (C.delete_network_endpoint_group name zone w).1
  unfolding IsReady
  delete_keeps name zone z w e (g, found, match) =
      (g, L.deleted_elsewhere w name zone z e ∙ found, match)

  -- A zone without error is ready afterwards, and no ready zone is disturbed, error or not.
  pub ensure_group-IsReady :
      (name zone : Str) (errors : List Error) (w : World)
      → (ensure_group Z C name zone (errors, w)).0 ≡ []
      → (errors ≡ []) × IsReady name zone (ensure_group Z C name zone (errors, w)).1
  ensure_group-IsReady name zone errors w h = elim (way name zone errors w) [
    | kept ready e ↦ (sym (ap (λ p. p.0) e) ∙ h, rw e ready)
    | made other e ↦ rw e (create_group-IsReady name zone errors w (rw e at h))
    | remade other e ↦
        let gone = C.delete_network_endpoint_group name zone w in
        let (before, ready) =
          create_group-IsReady name zone (add_failure gone.0 errors) gone.1 (rw e at h) in
        ((add_failure-eq-nil gone.0 errors before).1, rw e ready)
  ]

  pub ensure_group-keeps :
      (name zone z : Str) (errors : List Error) (w : World)
      → IsReady name z w
      → IsReady name z (ensure_group Z C name zone (errors, w)).1
  ensure_group-keeps name zone z errors w h = elim (way name zone errors w) [
    | kept ready e ↦ rw e h
    | made other e ↦ rw e (create_group-keeps name zone z errors w (other z h) h)
    | remade other e ↦
        let gone = C.delete_network_endpoint_group name zone w in
        rw e (
          create_group-keeps name zone z (add_failure gone.0 errors) gone.1 (other z h)
            (delete_keeps name zone z w (other z h) h))
  ]

  ensure_groups-keeps :
      (name : Str) (zones : List Str) (z : Str) (s : List Error × World)
      → IsReady name z s.1
      → IsReady name z (ensure_groups Z C name zones s).1
  unfolding ensure_groups
  ensure_groups-keeps name [] z s h = h
  ensure_groups-keeps name (zone ∷ zones) z s h =
      ensure_groups-keeps name zones z (ensure_group Z C name zone s)
        (ensure_group-keeps name zone z s.0 s.1 h)

  ensure_groups-IsReady :
      (name : Str) (zones : List Str) (s : List Error × World)
      → (ensure_groups Z C name zones s).0 ≡ []
      → (s.0 ≡ []) × All (λ z. IsReady name z (ensure_groups Z C name zones s).1) zones
  unfolding ensure_groups
  ensure_groups-IsReady name [] s h = (h, tt)
  ensure_groups-IsReady name (zone ∷ zones) s h =
      let (here, rest) = ensure_groups-IsReady name zones (ensure_group Z C name zone s) h in
      let (before, ready) = ensure_group-IsReady name zone s.0 s.1 here in
      (before, (ensure_groups-keeps name zones zone (ensure_group Z C name zone s) ready, rest))

  -- When ensureNetworkEndpointGroups reports no error, every listed zone has a group of the syncer's
  -- name in a network and a subnetwork whose names, the last parts of their URLs, are the cluster's.
  pub ensure_network_endpoint_groups-IsReady :
      (name : Str) (zones : List Str) (w : World)
      → Z.list_zones w ≡ ok zones
      → (ensure_network_endpoint_groups Z C name w).0 ≡ ok none
      → All (λ z. IsReady name z (ensure_network_endpoint_groups Z C name w).1) zones
  unfolding ensure_network_endpoint_groups
  ensure_network_endpoint_groups-IsReady name zones w hz h =
      let fine : (ensure_groups Z C name zones ([], w)).0 ≡ [] =
        aggregate-none _ (ok-injective _ _ (rw (hz, ensure_network_endpoint_groups) at h)) in
      rw (hz, ensure_network_endpoint_groups) (ensure_groups-IsReady name zones ([], w) fine).1
