-- ===== src/Neg/Zones/Existing.antt =====
-- retrieveExistingZoneNetworkEndpointMap tells what the group holds.
use mathlib.Core.Path.{ap₂}
use ingress_gce.Base.{
  ◌≡◌, refl, ap, sym, subst, Bool, true, false, ◌&&◌, ◌||◌, none, List, [], ◌∷◌, Str, str_eq,
  str_eq_iff, ok, if◌then◌else◌, Bool-cases, inl, inr, ◌∙◌, arith,
}
use ingress_gce.Base.Outcome.{◌>>=◌, >>=-eq-ok, ok-injective}
use ingress_gce.Base.Maps.{get, put, get-put, str_Eq}
use ingress_gce.Sets.{StringSets, elem}
use ingress_gce.Neg.Endpoint.{NetworkEndpoint}
use ingress_gce.Neg.Endpoint.Codec.{encode}
use ingress_gce.Neg.Cloud.{ZoneGetter, NegCloud}
use ingress_gce.Neg.Cloud.Laws.{CloudLaws, holds}
use ingress_gce.Neg.Sync.{zone_set}
use ingress_gce.Neg.Sync.Plans.{IsMap, or-false, zone_set-none}
use ingress_gce.Neg.Zones.{insert_all, list_in_zones, retrieve_existing_zone_network_endpoint_map}

if_same {ℓ} : {A : Type ℓ} (b : Bool) (a : A) → (if b then a else a) ≡ a
if_same true a = refl
if_same false a = refl

if_false : (b c d : Bool) → d ≡ false → (if b then c else d) ≡ (b && c)
if_false true c d h = refl
if_false false c d h = h

str_eq_comm : (a b : Str) → str_eq a b ≡ str_eq b a
str_eq_comm a b = ground (arith, str_eq_iff a b, str_eq_iff b a)

module _ (S : StringSets) where
  open S use {Set, has, empty, insert, has-insert, has-empty}

  put-absent :
      (z j : Str) (s : Set) (m : List (Str × Set))
      → str_eq j z ≡ false
      → get z m ≡ none
      → get z (put j s m) ≡ none
  put-absent z j s m e h = get-put j z s m ∙ rw (e, h)

  -- A write keeps the keys distinct.
  pub put-IsMap : (j : Str) (s : Set) (m : List (Str × Set)) → IsMap S m → IsMap S (put j s m)
  unfolding put get
  put-IsMap j s [] h = (refl, tt)
  put-IsMap j s ((i, t) ∷ m) h = elim (Bool-cases (str_eq i j)) [
    | inl e ↦ rw e h
    | inr e ↦ rw e (put-absent i j s m (str_eq_comm j i ∙ e) h.0, put-IsMap j s m h.1)
  ]

  pub zone_set-put :
      (j z : Str) (s : Set) (m : List (Str × Set))
      → zone_set S (put j s m) z ≡ (if str_eq j z then s else zone_set S m z)
  unfolding zone_set
  zone_set-put j z s m = rw (zone_set, get-put j z s m) (ground arith)

  insert_all_lem :
      (k : Str) (es : List NetworkEndpoint) (s : Set)
      → has (insert_all S s es) k ≡ (holds es k || has s k)
  unfolding insert_all holds
  insert_all_lem k [] s = refl
  insert_all_lem k (e ∷ es) s =
      ground (arith, insert_all_lem k es (insert s (encode e)), has-insert s (encode e) k)

  module _ {World : Type 0} (Z : ZoneGetter World) (C : NegCloud World) (L : CloudLaws C) where
    told_step :
        (w : World) (name zone z k : Str) (later : Bool) (s : Set) (m : List (Str × Set))
        → has s k ≡ L.content w name zone k
        → (if later then L.content w name z k else has (zone_set S (put zone s m) z) k)
          ≡ (if str_eq zone z || later then L.content w name z k else has (zone_set S m z) k)
    told_step w name zone z k later s m told = elim (Bool-cases (str_eq zone z)) [
      | inl e ↦
          rw (zone_set-put zone z s m, e, told, (str_eq_iff zone z).0 e)
            (if_same later (L.content w name z k))
      | inr e ↦ rw (zone_set-put zone z s m, e)
    ]

    list_in_zones-told :
        (w : World) (name : Str) (zones : List Str) (m r : List (Str × Set)) (z k : Str)
        → list_in_zones S Z C w name zones m ≡ ok r
        → has (zone_set S r z) k
          ≡ (if elem zones z then L.content w name z k else has (zone_set S m z) k)
    unfolding elem
    list_in_zones-told w name [] m r z k h =
        ap (λ x. has (zone_set S x z) k) (sym (ok-injective m r (unfold list_in_zones in h)))
    list_in_zones-told w name (zone ∷ zones) m r z k h =
        let (es, listed, rest) =
          >>=-eq-ok (C.list_network_endpoints name zone w)
            (λ es. list_in_zones S Z C w name zones (put zone (insert_all S empty es) m)) r
            (unfold list_in_zones in h) in
        let told : has (insert_all S empty es) k ≡ L.content w name zone k =
          insert_all_lem k es empty
          ∙ (ap₂ ◌||◌ (L.listed w name zone es listed k) (has-empty k) ∙ or-false _) in
        list_in_zones-told w name zones (put zone (insert_all S empty es) m) r z k rest
        ∙ told_step w name zone z k (elem zones z) (insert_all S empty es) m told

    list_in_zones-IsMap :
        (w : World) (name : Str) (zones : List Str) (m r : List (Str × Set))
        → IsMap S m
        → list_in_zones S Z C w name zones m ≡ ok r
        → IsMap S r
    list_in_zones-IsMap w name [] m r hm h =
        subst (IsMap S) (ok-injective m r (unfold list_in_zones in h)) hm
    list_in_zones-IsMap w name (zone ∷ zones) m r hm h =
        let (es, listed, rest) =
          >>=-eq-ok (C.list_network_endpoints name zone w)
            (λ es. list_in_zones S Z C w name zones (put zone (insert_all S empty es) m)) r
            (unfold list_in_zones in h) in
        list_in_zones-IsMap w name zones (put zone (insert_all S empty es) m) r
          (put-IsMap zone (insert_all S empty es) m hm) rest

    -- The map that retrieveExistingZoneNetworkEndpointMap gives has distinct zones, and tells of every
    -- zone that is listed which endpoints the group holds there, and of other zones none.
    pub retrieve_existing_lem :
        (w : World) (name : Str) (zones : List Str) (m : List (Str × Set))
        → Z.list_zones w ≡ ok zones
        → retrieve_existing_zone_network_endpoint_map S Z C w name ≡ ok m
        → IsMap S m
          × ((z k : Str) → has (zone_set S m z) k ≡ (elem zones z && L.content w name z k))
    unfolding retrieve_existing_zone_network_endpoint_map
    retrieve_existing_lem w name zones m hz h =
        let run : list_in_zones S Z C w name zones [] ≡ ok m = rw (hz, ◌>>=◌) at h in
        (
          list_in_zones-IsMap w name zones [] m tt run,
          λ z k.
              list_in_zones-told w name zones [] m z k run
              ∙ if_false (elem zones z) (L.content w name z k) (has (zone_set S [] z) k)
                  (zone_set-none S z k [] (unfold get in refl)),
        )
