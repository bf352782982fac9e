-- ===== src/Instances/Zones.antt =====
-- The nodes by zone, and the calls for each zone.
use ingress_gce.Base.{
  ◌≡◌, refl, ap, sym, ◌∙◌, Bool, true, false, ◌&&◌, ◌||◌, not, none, some, List, [], ◌∷◌, ◌++◌, Str,
  str_eq, str_eq_iff, Error, ok, err, panic, Failure, if◌then◌else◌, arith, Bool-cases, inl, inr,
}
use ingress_gce.Base.Maps.{get, put, str_Eq}
use ingress_gce.Sets.{elem}
use ingress_gce.Base.Outcome.{Result-cases}
use ingress_gce.Instances.{ZoneLister, fail_with, split_nodes_by_zone, nodes_in, each_zone}

pub or-false : (b : Bool) → (b || false) ≡ b
or-false true = refl
or-false false = refl

elem-append : (xs ys : List Str) (k : Str) → elem (xs ++ ys) k ≡ (elem xs k || elem ys k)
unfolding elem
elem-append [] ys k = refl
elem-append (x ∷ xs) ys k = ground (arith, elem-append xs ys k)

-- The node is in this zone, as far as the zone lister tells.
unfoldable pub in_zone : ZoneLister → Str → Str → Bool
in_zone Z node z = elim (Z.get_zone_for_node node) [
  | ok zone ↦ str_eq zone z
  | err e ↦ false
  | panic ↦ false
]

-- some entry of the zone has the node
unfoldable pub assigned : List (Str × List Str) → Str → Str → Bool
assigned [] z k = false
assigned ((zone, names) ∷ m) z k = (str_eq zone z && elem names k) || assigned m z k

nodes_in-cons :
    (j zone : Str) (ns : List Str) (m : List (Str × List Str))
    → nodes_in ((j, ns) ∷ m) zone ≡ (if str_eq j zone then ns else nodes_in m zone)
unfolding nodes_in get
nodes_in-cons j zone ns m = ground arith

-- A write of a zone's nodes with one more.
assigned-put :
    (m : List (Str × List Str)) (zone z name k : Str) (old : List Str)
    → nodes_in m zone ≡ old
    → assigned (put zone (old ++ name ∷ []) m) z k
      ≡ (assigned m z k || (str_eq zone z && str_eq name k))
unfolding assigned put elem
assigned-put [] zone z name k old h =
    let none_yet : old ≡ [] = sym h ∙ (unfold nodes_in get in refl) in rw none_yet (ground arith)
assigned-put ((j, ns) ∷ m) zone z name k old h = elim (Bool-cases (str_eq j zone)) [
  | inl e ↦
      let same : ns ≡ old = sym (rw e at (nodes_in-cons j zone ns m)) ∙ h in
      rw e (
        ground (
          arith,
          elem-append old (name ∷ []) k,
          ap (λ y. str_eq y z) ((str_eq_iff j zone).0 e),
          ap (λ y. elem y k) same,
        ))
  | inr e ↦
      let tail : nodes_in m zone ≡ old = sym (rw e at (nodes_in-cons j zone ns m)) ∙ h in
      rw e (ground (arith, assigned-put m zone z name k old tail))
]

same_node :
    (Z : ZoneLister) (name k z : Str)
    → (str_eq name k && in_zone Z k z) ≡ (str_eq name k && in_zone Z name z)
same_node Z name k z = elim (Bool-cases (str_eq name k)) [
  | inl e ↦ rw e (ap (λ y. in_zone Z y z) (sym ((str_eq_iff name k).0 e)))
  | inr e ↦ rw e refl
]

-- one node of the list: it goes to its zone, or is skipped
split-cons :
    (Z : ZoneLister) (name : Str) (names : List Str) (m : List (Str × List Str)) (z k : Str)
    → (n : List (Str × List Str)) × (split_nodes_by_zone Z (name ∷ names) m
        ≡ split_nodes_by_zone Z names n)
      × (assigned n z k ≡ (assigned m z k || (in_zone Z name z && str_eq name k)))
unfolding split_nodes_by_zone in_zone
split-cons Z name names m z k = elim (Result-cases (Z.get_zone_for_node name)) [
  | inl (zone, e) ↦ (
    put zone (nodes_in m zone ++ name ∷ []) m,
    rw (split_nodes_by_zone, e) refl,
    rw (in_zone, e) (assigned-put m zone z name k (nodes_in m zone) refl),
  )
  | inr (inl (x, e)) ↦
      (m, rw (split_nodes_by_zone, e) refl, rw (in_zone, e) (sym (or-false (assigned m z k))))
  | inr (inr e) ↦
      (m, rw (split_nodes_by_zone, e) refl, rw (in_zone, e) (sym (or-false (assigned m z k))))
]

pub split_nodes_by_zone_lem :
    (Z : ZoneLister) (names : List Str) (m : List (Str × List Str)) (z k : Str)
    → assigned (split_nodes_by_zone Z names m) z k
      ≡ (assigned m z k || (elem names k && in_zone Z k z))
unfolding elem
split_nodes_by_zone_lem Z [] m z k = unfold split_nodes_by_zone in sym (or-false _)
split_nodes_by_zone_lem Z (name ∷ names) m z k =
    let (n, run, here) = split-cons Z name names m z k in
    rw run (ground (arith, split_nodes_by_zone_lem Z names n z k, here, same_node Z name k z))

-- What a call of one zone does to the members, and so the calls for all zones.
module _ {World : Type 0} (member : World → Str → Str → Bool)
    (op : Str → List Str → World → Failure × World) where
  fail_with-eq-nil :
      (f : Failure) (errors : List Error) → fail_with f errors ≡ [] → (f ≡ none) × (errors ≡ [])
  unfolding fail_with
  fail_with-eq-nil none errors h = (refl, h)
  fail_with-eq-nil (some e) [] h = cc
  fail_with-eq-nil (some e) (x ∷ errors) h = cc

  each_zone-fine :
      (m : List (Str × List Str)) (errors : List Error) (w : World)
      → (each_zone op m errors w).0 ≡ []
      → errors ≡ []
  unfolding each_zone
  each_zone-fine [] errors w h = h
  each_zone-fine ((zone, names) ∷ m) errors w h =
      (fail_with-eq-nil (op zone names w).0 errors
        (each_zone-fine m (fail_with (op zone names w).0 errors) (op zone names w).1 h)).1

  pub each_zone-adds :
      ((zone : Str) (names : List Str) (w : World)
        → (op zone names w).0 ≡ none
        → (z k : Str)
        → member (op zone names w).1 z k ≡ (str_eq zone z && elem names k || member w z k))
      → (m : List (Str × List Str)) (errors : List Error) (w : World)
      → (each_zone op m errors w).0 ≡ []
      → (z k : Str) → member (each_zone op m errors w).1 z k ≡ (assigned m z k || member w z k)
  unfolding each_zone assigned
  each_zone-adds law [] errors w h z k = refl
  each_zone-adds law ((zone, names) ∷ m) errors w h z k =
      let next = op zone names w in
      let (fine, before) =
        fail_with-eq-nil next.0 errors (each_zone-fine m (fail_with next.0 errors) next.1 h) in
      ground (
        arith,
        each_zone-adds law m (fail_with next.0 errors) next.1 h z k,
        law zone names w fine z k,
      )

  pub each_zone-removes :
      ((zone : Str) (names : List Str) (w : World)
        → (op zone names w).0 ≡ none
        → (z k : Str)
        → member (op zone names w).1 z k ≡ (not (str_eq zone z && elem names k) && member w z k))
      → (m : List (Str × List Str)) (errors : List Error) (w : World)
      → (each_zone op m errors w).0 ≡ []
      → (z k : Str)
      → member (each_zone op m errors w).1 z k ≡ (not (assigned m z k) && member w z k)
  unfolding each_zone assigned
  each_zone-removes law [] errors w h z k = refl
  each_zone-removes law ((zone, names) ∷ m) errors w h z k =
      let next = op zone names w in
      let (fine, before) =
        fail_with-eq-nil next.0 errors (each_zone-fine m (fail_with next.0 errors) next.1 h) in
      ground (
        arith,
        each_zone-removes law m (fail_with next.0 errors) next.1 h z k,
        law zone names w fine z k,
      )
