-- ===== src/Neg/Syncer/Reaches.antt =====
-- A sync that reports no error brings the group to what the Endpoints object asks for.
use ingress_gce.Base.{
  ◌≡◌, refl, sym, subst, Bool, true, false, ◌&&◌, none, some, List, [], ◌∷◌, Str, str_eq,
  str_eq_iff, str_eq_refl, Result, ok, err, panic, Failure, length, ◌==◌, Bool-cases, inl, inr, ◌∙◌,
  arith,
}
use ingress_gce.Base.Maps.{get, str_Eq}
use ingress_gce.Sets.{StringSets, elem}
use ingress_gce.Neg.Cloud.{ZoneGetter, NegCloud}
use ingress_gce.Neg.Cloud.Laws.{CloudLaws}
use ingress_gce.Neg.Sync.{Call, Halt, finished, zone_set, calculate_difference}
use ingress_gce.Neg.Sync.Batches.{IsEncoded}
use ingress_gce.Neg.Sync.Plans.{IsMap, MapEncoded, zone_set-cons, zone_set-none}
use ingress_gce.Neg.Sync.Difference.{calculate_difference_lem}
use ingress_gce.Neg.Sync.Calls.{SameCalls, sync_converges}
use ingress_gce.Neg.Zones.{
  EndpointSubset, to_zone_network_endpoint_map, retrieve_existing_zone_network_endpoint_map,
}
use ingress_gce.Neg.Zones.Existing.{retrieve_existing_lem}
use ingress_gce.Neg.Zones.Target.{wants, to_zone_network_endpoint_map_lem}
use ingress_gce.Neg.Syncer.{
  ServicePort, halted, ensure_network_endpoint_groups, sync_maps, sync_zones, ensured, sync,
}

-- A step that did not halt the loop, and what it gave.
halted-finished {ℓ} :
    {A : Type ℓ} {World : Type 0} (r : Result A) (rest : A → World → Halt × World) (w : World)
    → (halted r rest w).0 ≡ finished
    → (a : A) × (r ≡ ok a) × (halted r rest w ≡ rest a w)
unfolding halted
halted-finished (ok a) rest w h = (a, refl, refl)
halted-finished (err e) rest w h = cc
halted-finished panic rest w h = cc

and-true : (a b : Bool) → (a && b) ≡ true → (a ≡ true) × (b ≡ true)
and-true true true h = (refl, refl)
and-true true false h = cc
and-true false b h = cc

implied : (a b : Bool) → (b ≡ true → a ≡ true) → (a && b) ≡ b
implied true b h = refl
implied false true h = h refl
implied false false h = refl

ensured-finished :
    {World : Type 0} (r : Result Failure × World) (rest : World → Halt × World)
    → (ensured r rest).0 ≡ finished
    → ensured r rest ≡ rest r.1
unfolding ensured
ensured-finished (ok none, w) rest h = refl
ensured-finished (ok (some e), w) rest h = cc
ensured-finished (err e, w) rest h = cc
ensured-finished (panic, w) rest h = cc

module _ (S : StringSets) where
  open S use {Set, has}

  -- Every string that the map's sets hold encodes an endpoint.
  MapEncoded-of_lookup :
      (m : List (Str × Set))
      → IsMap S m
      → ((z k : Str) → has (zone_set S m z) k ≡ true → IsEncoded k)
      → MapEncoded S m
  MapEncoded-of_lookup [] hm h = tt
  MapEncoded-of_lookup ((j, s) ∷ m) hm h = (
    λ k p. h j k (rw (zone_set-cons S j j s m, str_eq_refl j) p),
    MapEncoded-of_lookup m hm.1 (λ z k p. h z k (later z k p)),
  )
    where
      later : (z k : Str) → has (zone_set S m z) k ≡ true → has (zone_set S ((j, s) ∷ m) z) k ≡ true
      later z k p = elim (Bool-cases (str_eq j z)) [
        | inl e ↦
            cc (p, zone_set-none S z k m (subst (λ y. get y m ≡ none) ((str_eq_iff j z).0 e) hm.0))
        | inr e ↦ rw (zone_set-cons S j z s m, e) p
      ]

  nil_of_length : (m : List (Str × Set)) → (length m == 0) ≡ true → m ≡ []
  nil_of_length [] h = refl
  nil_of_length (x ∷ m) h = absurd (ground arith)

  has-nil : (m : List (Str × Set)) (z k : Str) → m ≡ [] → has (zone_set S m z) k ≡ false
  has-nil m z k e =
      subst (λ x. has (zone_set S x z) k ≡ false) (sym e)
        (zone_set-none S z k [] (unfold get in refl))

  -- Two maps with no difference agree.
  no_change :
      (target current : List (Str × Set)) (z k : Str)
      → IsMap S target
      → IsMap S current
      → (length (calculate_difference S target current).0 == 0
          && length (calculate_difference S target current).1 == 0)
        ≡ true
      → has (zone_set S current z) k ≡ has (zone_set S target z) k
  no_change target current z k mt mc h =
      let d = calculate_difference_lem S target current z k mt mc in
      let both = and-true _ _ h in
      let none_added =
        has-nil (calculate_difference S target current).0 z k (nil_of_length _ both.0) in
      let none_removed =
        has-nil (calculate_difference S target current).1 z k (nil_of_length _ both.1) in
      ground (arith, d.0, d.1, none_added, none_removed)

  module _ {World : Type 0} (Z : ZoneGetter World) (C : NegCloud World) (L : CloudLaws C)
      (schedule : List Call → List Call) (same : SameCalls schedule) where
    sync_maps-reaches :
        (name : Str) (target current : List (Str × Set)) (w : World)
        → IsMap S target
        → IsMap S current
        → MapEncoded S target
        → MapEncoded S current
        → (z k : Str) → has (zone_set S current z) k ≡ L.content w name z k
        → (sync_maps Z C S schedule name target current w).0 ≡ finished
        → L.content (sync_maps Z C S schedule name target current w).1 name z k
          ≡ has (zone_set S target z) k
    unfolding sync_maps
    sync_maps-reaches name target current w mt mc et ec z k told h =
        let diff = calculate_difference S target current in
        elim (Bool-cases (length diff.0 == 0 && length diff.1 == 0)) [
          | inl e ↦ rw (e, sync_maps) (sym told ∙ no_change target current z k mt mc e)
          | inr e ↦
              rw (e, sync_maps)
                (sync_converges S C L schedule name target current w same mt mc et ec z k told
                  (rw (e, sync_maps) at h))
        ]

    -- What a sync needs of the cluster when it reads the two maps: the zones are listed, and every
    -- endpoint that is asked for or held has an encoding that can be read back.
    pub record Readable (p : ServicePort) (name : Str) (subsets : List EndpointSubset) (w : World)
        : Type 0 where
      pub zones : List Str
      pub listed : Z.list_zones w ≡ ok zones
      pub wanted_encoded : (z k : Str) → wants Z w p.target_port z k subsets ≡ true → IsEncoded k
      pub held_encoded : (z k : Str) → L.content w name z k ≡ true → IsEncoded k
      pub held_listed : (z k : Str) → L.content w name z k ≡ true → elem zones z ≡ true

    sync_zones-reaches :
        (p : ServicePort) (name : Str) (subsets : List EndpointSubset) (w : World)
        → Readable p name subsets w
        → (sync_zones Z C S schedule p name subsets w).0 ≡ finished
        → (z k : Str)
        → L.content (sync_zones Z C S schedule p name subsets w).1 name z k
          ≡ wants Z w p.target_port z k subsets
    unfolding sync_zones
    sync_zones-reaches p name subsets w ready h z k =
        let read_target = to_zone_network_endpoint_map S Z w p.target_port subsets in
        let read_current = retrieve_existing_zone_network_endpoint_map S Z C w name in
        let last = λ (target current : List (Str × Set)) (w2 : World).
          sync_maps Z C S schedule name target current w2 in
        let (target, et, run) =
          halted-finished read_target
            (λ t w1. halted (retrieve_existing_zone_network_endpoint_map S Z C w1 name) (last t) w1)
            w h in
        let (current, ec, run') =
          halted-finished read_current (last target) w (subst (λ r. r.0 ≡ finished) run h) in
        let (mt, wanted) = to_zone_network_endpoint_map_lem S Z w p.target_port subsets target et in
        let (mc, told) = retrieve_existing_lem S Z C L w name ready.zones current ready.listed ec in
        let whole = run ∙ run' in
        let told_all : (z' k' : Str) → has (zone_set S current z') k' ≡ L.content w name z' k' =
          λ z' k'. told z' k' ∙ implied _ _ (ready.held_listed z' k') in
        rw whole (
          sync_maps-reaches name target current w mt mc
            (MapEncoded-of_lookup target mt
              (λ z' k' q. ready.wanted_encoded z' k' (sym (wanted z' k') ∙ q)))
            (MapEncoded-of_lookup current mc
              (λ z' k' q. ready.held_encoded z' k' (sym (told_all z' k') ∙ q)))
            z k (told_all z k) (subst (λ r. r.0 ≡ finished) whole h)
          ∙ wanted z k)

    -- A sync of a running syncer that reports no error leaves the group with exactly the endpoints that
    -- the Endpoints object asks for, in every zone: the object's addresses at the target port, under the
    -- zones of their nodes, as the world tells after the groups have been ensured. There the zones must be
    -- listed, and the endpoints that are asked for or held be encodable, those held in listed zones.
    pub sync-reaches :
        (p : ServicePort) (name : Str) (subsets : List EndpointSubset) (w : World)
        → let ready = (ensure_network_endpoint_groups Z C name w).1 in
          let done = sync Z C S schedule false false p name (ok (some subsets)) w in
          Readable p name subsets ready
          → done.0 ≡ finished
          → (z k : Str) → L.content done.1 name z k ≡ wants Z ready p.target_port z k subsets
    unfolding sync
    sync-reaches p name subsets w ready h z k =
        let run =
          ensured-finished (ensure_network_endpoint_groups Z C name w)
            (λ w1. sync_zones Z C S schedule p name subsets w1) (unfold halted in h) in
        unfold halted in
        rw run (
          sync_zones-reaches p name subsets (ensure_network_endpoint_groups Z C name w).1 ready
            (subst (λ r. r.0 ≡ finished) run (unfold halted in h)) z k)
