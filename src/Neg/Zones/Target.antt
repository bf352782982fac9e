-- ===== src/Neg/Zones/Target.antt =====
-- toZoneNetworkEndpointMap: the endpoints of an Endpoints object, by zone.
use ingress_gce.Base.{
  ◌≡◌, ◌⊎◌, refl, ap, sym, subst, Bool, true, false, ◌&&◌, ◌||◌, not, none, some, List, [], ◌∷◌,
  Str, length, str_eq, str_eq_iff, ok, err, panic, Bool-cases, Option-cases, inl, inr, ◌∙◌, ◌==◌,
  arith,
}
use ingress_gce.Base.Outcome.{>>=-eq-ok, ok-injective}
use ingress_gce.Base.Maps.{get, put, str_Eq}
use ingress_gce.Sets.{StringSets}
use ingress_gce.Neg.Endpoint.{encode_endpoint}
use ingress_gce.Neg.Cloud.{ZoneGetter}
use ingress_gce.Neg.Sync.{zone_set}
use ingress_gce.Neg.Sync.Plans.{IsMap, or-false, zone_set-none}
use ingress_gce.Neg.Zones.Existing.{put-IsMap, zone_set-put}
use ingress_gce.Neg.Zones.{
  EndpointAddress, EndpointSubset, match_port, add_addresses, add_subsets,
  to_zone_network_endpoint_map,
}

-- The description of the map, apart from its construction: whether an address at the port stands in
-- the zone under the given encoding.
module _ {World : Type 0} (Z : ZoneGetter World) where
  abbrev in_zone : World → Str → Str → Bool
  in_zone w node z = elim (Z.get_zone_for_node w node) [
    | ok zone ↦ str_eq zone z
    | err e ↦ false
    | panic ↦ false
  ]

  unfoldable pub wants_address : World → Str → Str → Str → EndpointAddress → Bool
  wants_address w port z k a = elim a.node_name [
    | none ↦ false
    | some node ↦ in_zone w node z && str_eq (encode_endpoint a.ip node port) k
  ]

  unfoldable pub wants_addresses : World → Str → Str → Str → List EndpointAddress → Bool
  wants_addresses w port z k [] = false
  wants_addresses w port z k (a ∷ as') =
      wants_address w port z k a || wants_addresses w port z k as'

  unfoldable pub wants : World → Str → Str → Str → List EndpointSubset → Bool
  wants w target_port z k [] = false
  wants w target_port z k (s ∷ subsets) =
      (not (length (match_port target_port s.ports) == 0)
        && wants_addresses w (match_port target_port s.ports) z k s.addresses)
      || wants w target_port z k subsets

module _ (S : StringSets) {World : Type 0} (Z : ZoneGetter World) where
  open S use {Set, has, empty, insert, has-insert, has-empty}

  -- one address: its zone, and the rest of the loop
  add_addresses-first :
      (w : World) (port : Str) (a : EndpointAddress) (as' : List EndpointAddress)
      (m r : List (Str × Set))
      → add_addresses S Z w port (a ∷ as') m ≡ ok r
      → (node : Str) × (zone : Str) × (a.node_name ≡ some node)
        × (Z.get_zone_for_node w node ≡ ok zone)
        × (add_addresses S Z w port as'
              (put zone (insert (zone_set S m zone) (encode_endpoint a.ip node port)) m)
            ≡ ok r)
  unfolding add_addresses
  add_addresses-first w port a as' m r h = elim (Option-cases a.node_name) [
    | inl e ↦ cc (rw (e, add_addresses) at h)
    | inr (node, e) ↦
        let (zone, found, rest) =
          >>=-eq-ok (Z.get_zone_for_node w node)
            (λ zone.
              add_addresses S Z w port as'
                (put zone (insert (zone_set S m zone) (encode_endpoint a.ip node port)) m))
            r (rw (e, add_addresses) at h) in
        (node, zone, e, found, rest)
  ]

  add_step :
      (zone z k enc : Str) (m : List (Str × Set))
      → has (zone_set S (put zone (insert (zone_set S m zone) enc) m) z) k
        ≡ ((str_eq zone z && str_eq enc k) || has (zone_set S m z) k)
  add_step zone z k enc m = elim (Bool-cases (str_eq zone z)) [
    | inl e ↦
        rw (zone_set-put S zone z (insert (zone_set S m zone) enc) m, e, (str_eq_iff zone z).0 e)
          (has-insert (zone_set S m z) enc k)
    | inr e ↦ rw (zone_set-put S zone z (insert (zone_set S m zone) enc) m, e)
  ]

  wants_address-found :
      (w : World) (port z k : Str) (a : EndpointAddress) (node zone : Str)
      → a.node_name ≡ some node
      → Z.get_zone_for_node w node ≡ ok zone
      → wants_address Z w port z k a ≡ (str_eq zone z && str_eq (encode_endpoint a.ip node port) k)
  unfolding wants_address
  wants_address-found w port z k a node zone e found = rw (e, wants_address, in_zone, found)

  add_addresses_lem :
      (w : World) (port z k : Str) (as' : List EndpointAddress) (m r : List (Str × Set))
      → add_addresses S Z w port as' m ≡ ok r
      → has (zone_set S r z) k ≡ (wants_addresses Z w port z k as' || has (zone_set S m z) k)
  unfolding wants_addresses
  add_addresses_lem w port z k [] m r h =
      ap (λ x. has (zone_set S x z) k) (sym (ok-injective m r (unfold add_addresses in h)))
  add_addresses_lem w port z k (a ∷ as') m r h =
      let (node, zone, e, found, rest) = add_addresses-first w port a as' m r h in
      let enc = encode_endpoint a.ip node port in
      let here : wants_address Z w port z k a ≡ (str_eq zone z && str_eq enc k) =
        wants_address-found w port z k a node zone e found in
      ground (
        arith,
        here,
        add_step zone z k enc m,
        add_addresses_lem w port z k as' (put zone (insert (zone_set S m zone) enc) m) r rest,
      )

  add_addresses-IsMap :
      (w : World) (port : Str) (as' : List EndpointAddress) (m r : List (Str × Set))
      → IsMap S m
      → add_addresses S Z w port as' m ≡ ok r
      → IsMap S r
  add_addresses-IsMap w port [] m r hm h =
      subst (IsMap S) (ok-injective m r (unfold add_addresses in h)) hm
  add_addresses-IsMap w port (a ∷ as') m r hm h =
      let (node, zone, e, found, rest) = add_addresses-first w port a as' m r h in
      let s = insert (zone_set S m zone) (encode_endpoint a.ip node port) in
      add_addresses-IsMap w port as' (put zone s m) r (put-IsMap S zone s m hm) rest

  -- a subset that has no port of interest is passed over
  add_subsets-first :
      (w : World) (target_port : Str) (s : EndpointSubset) (subsets : List EndpointSubset)
      (m r : List (Str × Set))
      → add_subsets S Z w target_port (s ∷ subsets) m ≡ ok r
      → ((length (match_port target_port s.ports) == 0) ≡ true)
          × (add_subsets S Z w target_port subsets m ≡ ok r)
        ⊎ ((length (match_port target_port s.ports) == 0) ≡ false)
          × ((next : List (Str × Set)) × (add_addresses S Z w
                  (match_port target_port s.ports)
                  s.addresses
                  m
                ≡ ok next)
              × (add_subsets S Z w target_port subsets next ≡ ok r))
  unfolding add_subsets
  add_subsets-first w target_port s subsets m r h =
      let port = match_port target_port s.ports in
      elim (Bool-cases (length port == 0)) [
        | inl e ↦ inl (e, rw (e, add_subsets) at h)
        | inr e ↦ inr (
          e,
          >>=-eq-ok (add_addresses S Z w port s.addresses m)
              (λ next. add_subsets S Z w target_port subsets next) r (rw (e, add_subsets) at h),
        )
      ]

  add_subsets_lem :
      (w : World) (target_port z k : Str) (subsets : List EndpointSubset) (m r : List (Str × Set))
      → IsMap S m
      → add_subsets S Z w target_port subsets m ≡ ok r
      → IsMap S r
        × (has (zone_set S r z) k ≡ (wants Z w target_port z k subsets || has (zone_set S m z) k))
  unfolding wants
  add_subsets_lem w target_port z k [] m r hm h =
      let same = ok-injective m r (unfold add_subsets in h) in
      (subst (IsMap S) same hm, ap (λ x. has (zone_set S x z) k) (sym same))
  add_subsets_lem w target_port z k (s ∷ subsets) m r hm h =
      let port = match_port target_port s.ports in
      elim (add_subsets-first w target_port s subsets m r h) [
        | inl (e, rest) ↦
            let (im, ih) = add_subsets_lem w target_port z k subsets m r hm rest in (im, rw e ih)
        | inr (e, (next, now, rest)) ↦
            let nm = add_addresses-IsMap w port s.addresses m next hm now in
            let (im, ih) = add_subsets_lem w target_port z k subsets next r nm rest in
            let here = add_addresses_lem w port z k s.addresses m next now in
            (im, rw e (ground (arith, ih, here)))
      ]

  -- The map that toZoneNetworkEndpointMap gives has distinct zones, and the set of each zone holds
  -- exactly the encodings of the addresses of that zone, in subsets with the target port.
  pub to_zone_network_endpoint_map_lem :
      (w : World) (target_port : Str) (subsets : List EndpointSubset) (m : List (Str × Set))
      → to_zone_network_endpoint_map S Z w target_port subsets ≡ ok m
      → IsMap S m × ((z k : Str) → has (zone_set S m z) k ≡ wants Z w target_port z k subsets)
  unfolding to_zone_network_endpoint_map
  to_zone_network_endpoint_map_lem w target_port subsets m h = (
    (add_subsets_lem w target_port [] [] subsets [] m tt h).0,
    λ z k.
        (add_subsets_lem w target_port z k subsets [] m tt h).1
        ∙ rw (zone_set-none S z k [] (unfold get in refl)) (or-false _),
  )
