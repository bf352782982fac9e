-- ===== src/Instances/Sync.antt =====
-- Which nodes a group has after a sync.
use ingress_gce.Base.{
  ◌≡◌, refl, ap, sym, ◌∙◌, Bool, true, false, ◌&&◌, ◌||◌, not, none, some, List, [], ◌∷◌, Str,
  codes, split, last_of, str_eq, ok, Failure, arith, inl, inr,
}
use ingress_gce.Base.Outcome.{ok-injective, Result-cases}
use ingress_gce.Sets.{StringSets, elem, new_string}
use ingress_gce.Sets.Members.{new_string-has}
use ingress_gce.Neg.Syncer.Groups.{aggregate-none}
use ingress_gce.Instances.{
  ZoneLister, InstanceGroups, split_nodes_by_zone, add_nodes, remove_nodes, unless_empty,
  then_if_fine, insert_instances, list_zones_nodes, list_nodes, sync_group,
}
use ingress_gce.Instances.Zones.{
  in_zone, assigned, split_nodes_by_zone_lem, each_zone-adds, each_zone-removes, or-false,
}

-- some URL is that of the node
unfoldable pub named : List Str → Str → Bool
named [] k = false
named (url ∷ urls) k = str_eq (last_of (split url (codes "/"))) k || named urls k

-- What the pool relies on of the cloud: `member w group zone node` tells which nodes a group has; a
-- listing gives their URLs, and a call with no error changes the given nodes of its zone and no other.
pub record MemberLaws {World : Type 0} (C : InstanceGroups World) : Type 0 where
  pub member : World → Str → Str → Str → Bool
  pub listed :
      (w : World) (group zone : Str) (urls : List Str)
      → C.list_instances_in_instance_group group zone w ≡ ok urls
      → (k : Str) → named urls k ≡ member w group zone k
  pub added :
      (w : World) (group zone : Str) (nodes : List Str)
      → let done =
          C.add_instances_to_instance_group group zone (C.to_instance_references zone nodes) w in
        done.0 ≡ none
        → (z k : Str)
        → member done.1 group z k ≡ (str_eq zone z && elem nodes k || member w group z k)
  pub removed :
      (w : World) (group zone : Str) (nodes : List Str)
      → let done =
          C.remove_instances_from_instance_group group zone
            (C.to_instance_references zone nodes)
            w in
        done.0 ≡ none
        → (z k : Str)
        → member done.1 group z k ≡ (not (str_eq zone z && elem nodes k) && member w group z k)

then_if_fine-none :
    {World : Type 0} (r : Failure × World) (rest : World → Failure × World)
    → (then_if_fine r rest).0 ≡ none
    → (r.0 ≡ none) × (then_if_fine r rest ≡ rest r.1)
unfolding then_if_fine
then_if_fine-none (none, w) rest h = (refl, refl)
then_if_fine-none (some e, w) rest h = cc

module _ {World : Type 0} (Z : ZoneLister) (C : InstanceGroups World) (L : MemberLaws C) where
  add_nodes_lem :
      (group : Str) (names : List Str) (w : World)
      → (unless_empty (add_nodes Z C group) names w).0 ≡ none
      → (z k : Str)
      → L.member (unless_empty (add_nodes Z C group) names w).1 group z k
        ≡ ((elem names k && in_zone Z k z) || L.member w group z k)
  unfolding unless_empty elem str_eq assigned
  add_nodes_lem group [] w h z k = refl
  add_nodes_lem group (x ∷ xs) w h z k =
      unfold add_nodes in
      (each_zone-adds (λ v y n. L.member v group y n)
          (λ zone nodes v.
            C.add_instances_to_instance_group group zone (C.to_instance_references zone nodes) v)
          (λ zone nodes v fine y n. L.added v group zone nodes fine y n)
          (split_nodes_by_zone Z (x ∷ xs) []) [] w (aggregate-none _ (unfold add_nodes in h)) z k
        ∙ ap (λ b. b || L.member w group z k) (split_nodes_by_zone_lem Z (x ∷ xs) [] z k))

  remove_nodes_lem :
      (group : Str) (names : List Str) (w : World)
      → (unless_empty (remove_nodes Z C group) names w).0 ≡ none
      → (z k : Str)
      → L.member (unless_empty (remove_nodes Z C group) names w).1 group z k
        ≡ (not (elem names k && in_zone Z k z) && L.member w group z k)
  unfolding unless_empty elem str_eq assigned
  remove_nodes_lem group [] w h z k = refl
  remove_nodes_lem group (x ∷ xs) w h z k =
      unfold remove_nodes in
      (each_zone-removes (λ v y n. L.member v group y n)
          (λ zone nodes v.
            C.remove_instances_from_instance_group group zone (C.to_instance_references zone nodes)
              v)
          (λ zone nodes v fine y n. L.removed v group zone nodes fine y n)
          (split_nodes_by_zone Z (x ∷ xs) []) [] w (aggregate-none _ (unfold remove_nodes in h)) z k
        ∙ ap (λ b. not b && L.member w group z k) (split_nodes_by_zone_lem Z (x ∷ xs) [] z k))

  -- some listed zone's group has the node
  unfoldable pub anywhere : World → Str → List Str → Str → Bool
  anywhere w group [] k = false
  anywhere w group (zone ∷ zones) k = L.member w group zone k || anywhere w group zones k

  module _ (S : StringSets) where
    open S use {
      Set, has, empty, insert, difference, has-insert, has-empty, has-difference, elem-list,
    }

    insert_instances_lem :
        (urls : List Str) (nodes : Set) (k : Str)
        → has (insert_instances S urls nodes) k ≡ (named urls k || has nodes k)
    unfolding insert_instances named
    insert_instances_lem [] nodes k = refl
    insert_instances_lem (url ∷ urls) nodes k =
        let name = last_of (split url (codes "/")) in
        ground (arith, insert_instances_lem urls (insert nodes name) k, has-insert nodes name k)

    list_zones_nodes_lem :
        (group : Str) (zones : List Str) (nodes r : Set) (w : World)
        → list_zones_nodes Z C S group zones nodes w ≡ ok r
        → (k : Str) → has r k ≡ (anywhere w group zones k || has nodes k)
    unfolding anywhere list_zones_nodes
    list_zones_nodes_lem group [] nodes r w h k = ap (λ s. has s k) (sym (ok-injective nodes r h))
    list_zones_nodes_lem group (zone ∷ zones) nodes r w h k =
        elim (Result-cases (C.list_instances_in_instance_group group zone w)) [
          | inl (urls, e) ↦
              let ih =
                list_zones_nodes_lem group zones (insert_instances S urls nodes) r w
                  (rw (list_zones_nodes, e) at h) k in
              ground (arith, ih, insert_instances_lem urls nodes k, L.listed w group zone urls e k)
          | inr (inl (x, e)) ↦ absurd (cc (rw (list_zones_nodes, e) at h))
          | inr (inr e) ↦ absurd (cc (rw (list_zones_nodes, e) at h))
        ]

    list_nodes_lem :
        (group : Str) (zones : List Str) (r : Set) (w : World)
        → Z.list_zones ≡ ok zones
        → list_nodes Z C S group w ≡ ok r
        → (k : Str) → has r k ≡ anywhere w group zones k
    unfolding list_nodes
    list_nodes_lem group zones r w hz h k =
        list_zones_nodes_lem group zones empty r w (rw (list_nodes, hz) at h) k
        ∙ rw (has-empty k) (or-false _)

    -- A sync of one group with no error is a listing, a removal and an addition, each with no error.
    record Synced (nodes : List Str) (group : Str) (w : World) : Type 0 where
      gce : Set
      listing : list_nodes Z C S group w ≡ ok gce
      removal :
          (unless_empty (remove_nodes Z C group) (S.list (difference gce (new_string S nodes))) w).0
          ≡ none
      addition :
          (unless_empty
            (add_nodes Z C group)
            (S.list (difference (new_string S nodes) gce))
            (unless_empty
              (remove_nodes Z C group)
              (S.list (difference gce (new_string S nodes)))
              w).1).0
          ≡ none
      result :
          (sync_group Z C S nodes group w).1
          ≡ (unless_empty
              (add_nodes Z C group)
              (S.list (difference (new_string S nodes) gce))
              (unless_empty
                (remove_nodes Z C group)
                (S.list (difference gce (new_string S nodes)))
                w).1).1

    sync_group-Synced :
        (nodes : List Str) (group : Str) (w : World)
        → (sync_group Z C S nodes group w).0 ≡ ok none
        → Synced nodes group w
    unfolding sync_group
    sync_group-Synced nodes group w h = elim (Result-cases (list_nodes Z C S group w)) [
      | inl (gce, e) ↦
          let removing =
            unless_empty (remove_nodes Z C group) (S.list (difference gce (new_string S nodes)))
              w in
          let adding = λ (v : World).
            unless_empty (add_nodes Z C group) (S.list (difference (new_string S nodes) gce)) v in
          let both =
            then_if_fine-none removing adding (ok-injective _ _ (rw (sync_group, e) at h)) in
          record {
            gce = gce;
            listing = e;
            removal = both.0;
            addition = sym (ap (λ r. r.0) both.1) ∙ ok-injective _ _ (rw (sync_group, e) at h);
            result = rw (sync_group, e) (ap (λ r. r.1) both.1);
          }
      | inr (inl (x, e)) ↦ absurd (cc (rw (sync_group, e) at h))
      | inr (inr e) ↦ absurd (cc (rw (sync_group, e) at h))
    ]

    in_difference :
        (s t : Set) (k : Str) → elem (S.list (difference s t)) k ≡ (has s k && not (has t k))
    in_difference s t k = elem-list (difference s t) k ∙ has-difference s t k

    sync_group_lem :
        (nodes : List Str) (group : Str) (zones : List Str) (w : World)
        → Z.list_zones ≡ ok zones
        → (sync_group Z C S nodes group w).0 ≡ ok none
        → (z k : Str)
        → L.member (sync_group Z C S nodes group w).1 group z k ≡ (
            (elem nodes k && not (anywhere w group zones k) && in_zone Z k z)
            || (not (anywhere w group zones k && not (elem nodes k) && in_zone Z k z)
                && L.member w group z k))
    sync_group_lem nodes group zones w hz h z k =
        let s = sync_group-Synced nodes group w h in
        let kube = new_string S nodes in
        let after = unless_empty (remove_nodes Z C group) (S.list (difference s.gce kube)) w in
        ap (λ v. L.member v group z k) s.result
        ∙ ground (
          arith,
          add_nodes_lem group (S.list (difference kube s.gce)) after.1 s.addition z k,
          remove_nodes_lem group (S.list (difference s.gce kube)) w s.removal z k,
          in_difference kube s.gce k,
          in_difference s.gce kube k,
          new_string-has S nodes k,
          list_nodes_lem group zones s.gce w hz s.listing k,
        )

    -- A sync of one group that reports no error: a node that is known to be in a zone, and that no other
    -- zone's group had, is afterwards in the group of its zone exactly if it is one of the given nodes.
    pub sync_group-reaches :
        (nodes : List Str) (group : Str) (zones : List Str) (w : World)
        → Z.list_zones ≡ ok zones
        → (sync_group Z C S nodes group w).0 ≡ ok none
        → (z k : Str) → in_zone Z k z ≡ true
        → anywhere w group zones k ≡ L.member w group z k
        → L.member (sync_group Z C S nodes group w).1 group z k ≡ elem nodes k
    sync_group-reaches nodes group zones w hz h z k here alone =
        ground (arith, sync_group_lem nodes group zones w hz h z k, here, alone)

    -- A sync of one group that reports no error leaves every node in the group of a zone that the zone
    -- lister does not give it, whether it is one of the given nodes or not.
    pub sync_group-unplaced :
        (nodes : List Str) (group : Str) (zones : List Str) (w : World)
        → Z.list_zones ≡ ok zones
        → (sync_group Z C S nodes group w).0 ≡ ok none
        → (z k : Str) → in_zone Z k z ≡ false
        → L.member (sync_group Z C S nodes group w).1 group z k ≡ L.member w group z k
    sync_group-unplaced nodes group zones w hz h z k away =
        ground (arith, sync_group_lem nodes group zones w hz h z k, away)
