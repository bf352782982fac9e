-- ===== src/Neg/Zones.antt =====
-- The two maps of a sync in pkg/networkendpointgroup/syncer.go: the endpoints that the Endpoints object
-- asks for, and those that the group has, each by zone.
pub mod Target
pub mod Existing
use ingress_gce.Base.{
  ℕ, zero, suc, Bool, true, false, ◌&&◌, ◌||◌, Option, none, some, List, [], ◌∷◌, Str, codes, itoa,
  length, str_eq, Result, ok, err, panic, ltb, ◌==◌, if◌then◌else◌,
}
use ingress_gce.Base.Outcome.{◌>>=◌}
use ingress_gce.Base.Int.{ℤ, pos, negsuc}
use ingress_gce.Base.Digits.{atoi}
use ingress_gce.Base.Maps.{put, str_Eq}
use ingress_gce.Sets.{StringSets}
use ingress_gce.Neg.Endpoint.{NetworkEndpoint, encode_endpoint}
use ingress_gce.Neg.Endpoint.Codec.{encode}
use ingress_gce.Neg.Cloud.{ZoneGetter, NegCloud}
use ingress_gce.Neg.Sync.{zone_set}

-- The parts of the API's Endpoints object that the package reads; a node's name is a pointer there.
pub record EndpointAddress : Type 0 where
  pub ip : Str
  pub node_name : Option Str

pub record EndpointPort : Type 0 where
  pub name : Str
  pub port : ℕ

pub record EndpointSubset : Type 0 where
  pub addresses : List EndpointAddress
  pub ports : List EndpointPort

unfoldable pub is_zero : ℤ → Bool
is_zero (pos n) = n == 0
is_zero (negsuc n) = false

unfoldable pub is_number : ℤ → ℕ → Bool
is_number (pos n) m = n == m
is_number (negsuc n) m = false

-- what one port of a subset makes of matchPort
unfoldable pub match_one : Str → EndpointPort → Str
unfolding is_zero is_number
match_one target_port p =
    let number = (atoi target_port).0 in
    if is_zero number
    then if str_eq p.name target_port then itoa p.port else []
    else if is_number number p.port
    then target_port
    else []

-- the loop over the ports of a subset, which breaks at the first match
unfoldable pub match_port : Str → List EndpointPort → Str
match_port target_port [] = []
match_port target_port (p ∷ ports) =
    let here = match_one target_port p in
    let rest = match_port target_port ports in if ltb 0 (length here) then here else rest

module _ (S : StringSets) where
  open S use {Set, insert}

  -- the set of the encodings of the listed endpoints
  unfoldable pub insert_all : Set → List NetworkEndpoint → Set
  insert_all s [] = s
  insert_all s (e ∷ es) = insert_all (insert s (encode e)) es

module _ (S : StringSets) {World : Type 0} (Z : ZoneGetter World) where
  open S use {Set, empty, insert}

  -- for _, address := range subset.Addresses
  unfoldable pub add_addresses :
      World → Str → List EndpointAddress → List (Str × Set) → Result (List (Str × Set))
  add_addresses w port [] m = ok m
  add_addresses w port (a ∷ addresses) m = elim a.node_name [
    | none ↦ panic
    | some node ↦ do
      zone ← Z.get_zone_for_node w node
      add_addresses w port addresses
          (put zone (insert (zone_set S m zone) (encode_endpoint a.ip node port)) m)
  ]

  unfoldable pub add_subsets :
      World → Str → List EndpointSubset → List (Str × Set) → Result (List (Str × Set))
  add_subsets w target_port [] m = ok m
  add_subsets w target_port (s ∷ subsets) m =
      let port = match_port target_port s.ports in
      if length port == 0
      then add_subsets w target_port subsets m
      else do next ← add_addresses w port s.addresses m; add_subsets w target_port subsets next

  unfoldable pub to_zone_network_endpoint_map :
      World → Str → List EndpointSubset → Result (List (Str × Set))
  to_zone_network_endpoint_map w target_port subsets = add_subsets w target_port subsets []

  module _ (C : NegCloud World) where
    unfoldable pub list_in_zones :
        World → Str → List Str → List (Str × Set) → Result (List (Str × Set))
    list_in_zones w neg_name [] m = ok m
    list_in_zones w neg_name (zone ∷ zones) m = do
      es ← C.list_network_endpoints neg_name zone w
      list_in_zones w neg_name zones (put zone (insert_all S empty es) m)

    unfoldable pub retrieve_existing_zone_network_endpoint_map :
        World → Str → Result (List (Str × Set))
    retrieve_existing_zone_network_endpoint_map w neg_name = do
      zones ← Z.list_zones w
      list_in_zones w neg_name zones []
