-- ===== src/Neg/Sync/Difference.antt =====
-- calculateDifference: what is missing and what is too many, zone by zone.
use ingress_gce.Base.{
  ◌≡◌, refl, sym, subst, false, ◌&&◌, not, none, List, [], ◌∷◌, Str, str_eq, str_eq_iff,
  str_eq_refl, ltb, if◌then◌else◌, Bool-cases, inl, inr, ◌∙◌, arith,
}
use ingress_gce.Base.Maps.{get, str_Eq}
use ingress_gce.Sets.{StringSets}
use ingress_gce.Neg.Sync.{zone_set, difference_map, calculate_difference}
use ingress_gce.Neg.Sync.Plans.{IsMap, MapEncoded, zone_set-cons, zone_set-none, has-of_empty}

module _ (S : StringSets) where
  open S use {Set, has, len, difference, has-difference}

  difference_map-absent :
      (z : Str) (m other : List (Str × Set))
      → get z m ≡ none
      → get z (difference_map S m other) ≡ none
  unfolding difference_map get
  difference_map-absent z [] other h = refl
  difference_map-absent z ((j, s) ∷ m) other h = ground (arith, difference_map-absent z m other)

  pub difference_map-IsMap :
      (m other : List (Str × Set)) → IsMap S m → IsMap S (difference_map S m other)
  unfolding difference_map
  difference_map-IsMap [] other h = tt
  difference_map-IsMap ((j, s) ∷ m) other h =
      ground (arith, difference_map-absent j m other h.0, difference_map-IsMap m other h.1)

  pub difference_map-MapEncoded :
      (m other : List (Str × Set)) → MapEncoded S m → MapEncoded S (difference_map S m other)
  unfolding difference_map
  difference_map-MapEncoded [] other h = tt
  difference_map-MapEncoded ((j, s) ∷ m) other h =
      elim (Bool-cases (ltb 0 (len (difference s (zone_set S other j))))) [
        | inl e ↦ rw e (
          λ k p. h.0 k (ground (arith, has-difference s (zone_set S other j) k, p)),
          difference_map-MapEncoded m other h.1,
        )
        | inr e ↦ rw e (difference_map-MapEncoded m other h.1)
      ]

  difference_map-keep :
      (j z k : Str) (s : Set) (m other : List (Str × Set))
      → has (zone_set S (difference_map S ((j, s) ∷ m) other) z) k ≡ (
          if str_eq j z && ltb 0 (len (difference s (zone_set S other j)))
          then has (difference s (zone_set S other j)) k
          else has (zone_set S (difference_map S m other) z) k)
  unfolding difference_map
  difference_map-keep j z k s m other =
      ground
        (arith, zone_set-cons S j z (difference s (zone_set S other j)) (difference_map S m other))

  -- the zone at the head of the list
  difference_map-head :
      (j k : Str) (s : Set) (m other : List (Str × Set))
      → get j m ≡ none
      → has (zone_set S (difference_map S ((j, s) ∷ m) other) j) k
        ≡ has (difference s (zone_set S other j)) k
  difference_map-head j k s m other h =
      let diff = difference s (zone_set S other j) in
      let gone =
        zone_set-none S j k (difference_map S m other) (difference_map-absent j m other h) in
      rw (difference_map-keep j j k s m other, str_eq_refl j)
        (elim (Bool-cases (ltb 0 (len diff))) [
          | inl e ↦ rw e
          | inr e ↦ rw e (gone ∙ sym (has-of_empty S diff k (ground arith)))
        ])

  -- Of each zone, the difference has the endpoints of the one map that the other lacks.
  pub difference_map_lem :
      (z k : Str) (m other : List (Str × Set))
      → IsMap S m
      → has (zone_set S (difference_map S m other) z) k
        ≡ (has (zone_set S m z) k && not (has (zone_set S other z) k))
  difference_map_lem z k [] other h =
      let nothing : has (zone_set S [] z) k ≡ false = zone_set-none S z k [] (unfold get in refl) in
      unfold difference_map in rw nothing
  difference_map_lem z k ((j, s) ∷ m) other h = elim (Bool-cases (str_eq j z)) [
    | inl e ↦
        subst
          (λ y.
            has (zone_set S (difference_map S ((j, s) ∷ m) other) y) k
            ≡ (has (zone_set S ((j, s) ∷ m) y) k && not (has (zone_set S other y) k)))
          ((str_eq_iff j z).0 e)
          (rw (difference_map-head j k s m other h.0, zone_set-cons S j j s m, str_eq_refl j)
            (has-difference s (zone_set S other j) k))
    | inr e ↦
        rw (difference_map-keep j z k s m other, zone_set-cons S j z s m, e)
          (difference_map_lem z k m other h.1)
  ]

  -- What calculateDifference gives for maps with distinct zones: per zone, the endpoints to add are those
  -- of the target that are not there, and the endpoints to remove are those that are there and not in the
  -- target.
  pub calculate_difference_lem :
      (target current : List (Str × Set)) (z k : Str)
      → IsMap S target
      → IsMap S current
      → (has (zone_set S (calculate_difference S target current).0 z) k
          ≡ (has (zone_set S target z) k && not (has (zone_set S current z) k)))
        × (has (zone_set S (calculate_difference S target current).1 z) k
            ≡ (has (zone_set S current z) k && not (has (zone_set S target z) k)))
  unfolding calculate_difference
  calculate_difference_lem target current z k mt mc =
      (difference_map_lem z k target current mt, difference_map_lem z k current target mc)
