-- ===== src/Neg/Collect/Loops.antt =====
-- The loops of the garbage collection: what every deletion keeps, they keep, and what they went through
-- with no error is gone.
use ingress_gce.Base.{
  ◌≡◌, refl, Bool, true, false, ◌||◌, none, some, List, [], ◌∷◌, Str, str_eq, str_eq_iff,
  str_eq_refl, subst, sym, map, ◌⊎◌, Error, ok, err, panic, Failure, arith, Bool-cases, inl, inr,
}
use ingress_gce.Http.{is_not_found_error}
use ingress_gce.Sets.{elem}
use ingress_gce.Neg.Cloud.{NetworkEndpointGroup, NegCloud}
use ingress_gce.Neg.Sync.{Halt, finished, failed, panicked, out_of_fuel, halt_of}
use ingress_gce.Base.Outcome.{Result-cases}
use ingress_gce.Neg.Manager.{ServiceKey_Eq}
use ingress_gce.Neg.Collect.{
  go_on, ensure_delete_network_endpoint_group, delete_in_zone, delete_in_zones,
}

-- A lookup says that there is no such group.
abbrev pub IsGone : {World : Type 0} → NegCloud World → Str → Str → World → Type 0
IsGone C name zone w =
    (e : Error) × (C.get_network_endpoint_group name zone w ≡ err e)
    × (is_not_found_error (some e) ≡ true)

-- What the garbage collection relies on of the cloud: a deletion touches no group of another name, a
-- group whose deletion had no error is gone, and no deletion brings a group back. A lookup fails only
-- where there is no group: the collection takes every error of a lookup for that.
pub record DeletionLaws {World : Type 0} (C : NegCloud World) : Type 0 where
  pub other_name :
      (w : World) (name zone n z : Str)
      → str_eq name n ≡ false
      → C.get_network_endpoint_group n z (C.delete_network_endpoint_group name zone w).1
        ≡ C.get_network_endpoint_group n z w
  pub deleted :
      (w : World) (name zone : Str)
      → (C.delete_network_endpoint_group name zone w).0 ≡ none
      → IsGone C name zone (C.delete_network_endpoint_group name zone w).1
  pub fails_for_missing :
      (w : World) (name zone : Str) (e : Error)
      → C.get_network_endpoint_group name zone w ≡ err e
      → is_not_found_error (some e) ≡ true
  pub stays_gone :
      (w : World) (name zone n z : Str)
      → IsGone C n z w
      → IsGone C n z (C.delete_network_endpoint_group name zone w).1

halt_of-finished : (f : Failure) → halt_of f ≡ finished → f ≡ none
unfolding halt_of
halt_of-finished none h = refl
halt_of-finished (some e) h = cc

-- A predicate that both parts of a sequence keep is kept by the sequence.
go_on-keeps {ℓ} :
    {World : Type 0} (P : World → Type ℓ) (r : Halt × World) (rest : World → Halt × World)
    → P r.1
    → ((w : World) → P w → P (rest w).1)
    → P (go_on r rest).1
unfolding go_on
go_on-keeps P (finished, w) rest p k = k w p
go_on-keeps P (failed e, w) rest p k = p
go_on-keeps P (panicked, w) rest p k = p
go_on-keeps P (out_of_fuel, w) rest p k = p

go_on-finished :
    {World : Type 0} (r : Halt × World) (rest : World → Halt × World)
    → (go_on r rest).0 ≡ finished
    → (r.0 ≡ finished) × (go_on r rest ≡ rest r.1)
unfolding go_on
go_on-finished (finished, w) rest h = (refl, refl)
go_on-finished (failed e, w) rest h = cc
go_on-finished (panicked, w) rest h = cc
go_on-finished (out_of_fuel, w) rest h = cc

or-true : (b : Bool) → (b || true) ≡ true
or-true true = refl
or-true false = refl

module _ {World : Type 0} (C : NegCloud World) (others : World → World) where
  -- The three answers of a lookup.
  look :
      (name zone : Str) (w : World)
      → ((g : NetworkEndpointGroup) × (C.get_network_endpoint_group name zone w ≡ ok g))
        ⊎ ((e : Error) × (C.get_network_endpoint_group name zone w ≡ err e))
        ⊎ (C.get_network_endpoint_group name zone w ≡ panic)
  look name zone w = Result-cases (C.get_network_endpoint_group name zone w)

  ensure_delete-keeps {ℓ} :
      (P : World → Type ℓ) (name zone : Str) (w : World)
      → P w
      → P (C.delete_network_endpoint_group name zone w).1
      → P (ensure_delete_network_endpoint_group C others name zone w).1
  unfolding ensure_delete_network_endpoint_group
  ensure_delete-keeps P name zone w p k = elim (look name zone w) [
    | inl (g, e) ↦ rw (ensure_delete_network_endpoint_group, e) k
    | inr (inl gone) ↦ rw (ensure_delete_network_endpoint_group, gone.1) p
    | inr (inr e) ↦ rw (ensure_delete_network_endpoint_group, e) p
  ]

  -- A predicate that every deletion of the names keeps.
  abbrev pub Kept {ℓ} : (World → Type ℓ) → List Str → Type ℓ
  Kept P names =
      (name zone : Str) (w : World)
      → elem names name ≡ true
      → P w
      → P (C.delete_network_endpoint_group name zone w).1

  Kept-tail {ℓ} :
      (P : World → Type ℓ) (x : Str) (names : List Str) → Kept P (x ∷ names) → Kept P names
  unfolding elem
  Kept-tail P x names k name zone w e p = k name zone w (rw e (or-true _)) p

  Kept-head {ℓ} :
      (P : World → Type ℓ) (x : Str) (names : List Str) (zone : Str) (w : World)
      → Kept P (x ∷ names)
      → P w
      → P (C.delete_network_endpoint_group x zone w).1
  unfolding elem
  Kept-head P x names zone w k p = k x zone w (rw (str_eq_refl x) refl) p

  delete_in_zone-keeps {ℓ} :
      (P : World → Type ℓ) (zone : Str) (names : List Str) (w : World)
      → Kept P names
      → ((v : World) → P v → P (others v))
      → P w
      → P (delete_in_zone C others zone names w).1
  unfolding delete_in_zone
  delete_in_zone-keeps P zone [] w k u p = p
  delete_in_zone-keeps P zone (name ∷ names) w k u p =
      go_on-keeps P (ensure_delete_network_endpoint_group C others name zone (others w))
        (λ next. delete_in_zone C others zone names next)
        (ensure_delete-keeps P name zone (others w) (u w p)
          (Kept-head P name names zone (others w) k (u w p)))
        (λ next q. delete_in_zone-keeps P zone names next (Kept-tail P name names k) u q)

  pub delete_in_zones-keeps {ℓ} :
      (P : World → Type ℓ) (names : List Str) (zones : List (Str × List NetworkEndpointGroup))
      (w : World)
      → Kept P names
      → ((v : World) → P v → P (others v))
      → P w
      → P (delete_in_zones C others names zones w).1
  unfolding delete_in_zones
  delete_in_zones-keeps P names [] w k u p = p
  delete_in_zones-keeps P names ((zone, groups) ∷ zones) w k u p =
      go_on-keeps P (delete_in_zone C others zone names w)
        (λ next. delete_in_zones C others names zones next)
        (delete_in_zone-keeps P zone names w k u p)
        (λ next q. delete_in_zones-keeps P names zones next k u q)

  module _ (L : DeletionLaws C) where
    ensure_delete-IsGone :
        (name zone : Str) (w : World)
        → (ensure_delete_network_endpoint_group C others name zone w).0 ≡ finished
        → IsGone C name zone (ensure_delete_network_endpoint_group C others name zone w).1
    unfolding ensure_delete_network_endpoint_group
    ensure_delete-IsGone name zone w h = elim (look name zone w) [
      | inl (g, e) ↦
          rw (ensure_delete_network_endpoint_group, e)
            (L.deleted w name zone
              (halt_of-finished _ (rw (ensure_delete_network_endpoint_group, e) at h)))
      | inr (inl gone) ↦
          rw (ensure_delete_network_endpoint_group, gone.1)
            (gone.0, gone.1, L.fails_for_missing w name zone gone.0 gone.1)
      | inr (inr e) ↦ absurd (cc (rw (ensure_delete_network_endpoint_group, e) at h))
    ]

    IsGone-Kept : (n z : Str) (names : List Str) → Kept (IsGone C n z) names
    IsGone-Kept n z names name zone w e p = L.stays_gone w name zone n z p

    delete_in_zone-IsGone :
        (zone n : Str) (names : List Str) (w : World)
        → ((v : World) → IsGone C n zone v → IsGone C n zone (others v))
        → elem names n ≡ true
        → (delete_in_zone C others zone names w).0 ≡ finished
        → IsGone C n zone (delete_in_zone C others zone names w).1
    unfolding delete_in_zone elem
    delete_in_zone-IsGone zone n [] w u e h = cc
    delete_in_zone-IsGone zone n (name ∷ names) w u e h =
        let (first, run) =
          go_on-finished (ensure_delete_network_endpoint_group C others name zone (others w))
            (λ next. delete_in_zone C others zone names next) h in
        let next = (ensure_delete_network_endpoint_group C others name zone (others w)).1 in
        elim (Bool-cases (str_eq name n)) [
          | inl same ↦ rw run (
              delete_in_zone-keeps (IsGone C n zone) zone names next (IsGone-Kept n zone names) u (
                subst (λ y. IsGone C y zone next) ((str_eq_iff name n).0 same)
                  (ensure_delete-IsGone name zone (others w) first)))
          | inr other ↦ rw run (
              delete_in_zone-IsGone zone n names next u (ground (arith, e, other))
                (subst (λ r. r.0 ≡ finished) run h))
        ]

    -- the zone is one of the keys
    pub delete_in_zones-IsGone :
        (names : List Str) (zones : List (Str × List NetworkEndpointGroup)) (n z : Str) (w : World)
        → ((v : World) → IsGone C n z v → IsGone C n z (others v))
        → elem names n ≡ true
        → elem (map (λ p. p.0) zones) z ≡ true
        → (delete_in_zones C others names zones w).0 ≡ finished
        → IsGone C n z (delete_in_zones C others names zones w).1
    unfolding delete_in_zones elem
    delete_in_zones-IsGone names [] n z w u e i h = cc
    delete_in_zones-IsGone names ((zone, groups) ∷ zones) n z w u e i h =
        let (first, run) =
          go_on-finished (delete_in_zone C others zone names w)
            (λ next. delete_in_zones C others names zones next) h in
        let next = (delete_in_zone C others zone names w).1 in
        elim (Bool-cases (str_eq zone z)) [
          | inl same ↦ rw run (
              delete_in_zones-keeps (IsGone C n z) names zones next (IsGone-Kept n z names) u (
                subst (λ y. IsGone C n y next) ((str_eq_iff zone z).0 same)
                  (delete_in_zone-IsGone zone n names w
                    (λ v g.
                      subst (λ y. IsGone C n y (others v)) (sym ((str_eq_iff zone z).0 same))
                        (u v (subst (λ y. IsGone C n y v) ((str_eq_iff zone z).0 same) g)))
                    e first)))
          | inr other ↦ rw run (
              delete_in_zones-IsGone names zones n z next u e (ground (arith, i, other))
                (subst (λ r. r.0 ≡ finished) run h))
        ]
