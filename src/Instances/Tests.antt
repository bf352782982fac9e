-- ===== src/Instances/Tests.antt =====
-- Syncs of a group with two nodes, of which one has left the cluster.
use ingress_gce.Namer.{named_port}
use ingress_gce.Base.{
  ◌≡◌, refl, ap, sym, ◌∙◌, subst, Bool, true, false, ◌&&◌, ◌||◌, not, none, some, List, [], ◌∷◌,
  ◌++◌, Str, codes, split, last_of, split_from, has_prefix, cons_head, str_eq, str_eq_iff, ok, err,
  plain, Failure, if◌then◌else◌, arith, Bool-cases, inl, inr,
}
use ingress_gce.Base.Outcome.{ok-injective}
use ingress_gce.Base.Maps.{get, put}
use ingress_gce.Sets.{elem, new_string}
use ingress_gce.Sets.Listed.{list_sets}
use ingress_gce.Instances.{
  ZoneLister, InstanceGroups, NamedPort, fail_with, nodes_in, split_nodes_by_zone, each_zone,
  add_nodes, remove_nodes, unless_empty, then_if_fine, insert_instances, list_zones_nodes,
  list_nodes, sync_group,
}
use ingress_gce.Instances.Zones.{in_zone}
use ingress_gce.Instances.Sync.{
  named, MemberLaws, anywhere, sync_group-reaches, sync_group-unplaced,
}

-- the URLs of each zone's group; there is one group
abbrev World : Type 0
World = Str → List Str

last_part : Str → Str
last_part url = last_of (split url (codes "/"))

-- names with no slash
all_plain : List Str → Bool
all_plain [] = true
all_plain (x ∷ xs) = str_eq (last_part x) x && all_plain xs

drop_nodes : List Str → List Str → List Str
drop_nodes ns [] = []
drop_nodes ns (x ∷ xs) =
    let rest = drop_nodes ns xs in if elem ns (last_part x) then rest else x ∷ rest

write_zone : Str → List Str → World → World
write_zone zone xs w z = if str_eq zone z then xs else w z

refused : Failure
refused = some (plain (codes "invalid name"))

abbrev cloud : InstanceGroups World
cloud = record {
  get_instance_group = λ name zone w. ok (record { name = name; named_ports = [] });
  create_instance_group = λ ig zone w. (some (plain (codes "quota")), w);
  delete_instance_group = λ name zone w. (some (plain (codes "in use")), w);
  list_instances_in_instance_group = λ name zone w. ok (w zone);
  add_instances_to_instance_group =
      λ name zone ns w. (if all_plain ns then none else refused, write_zone zone (ns ++ w zone) w);
  remove_instances_from_instance_group =
      λ name zone ns w. (none, write_zone zone (drop_nodes ns (w zone)) w);
  to_instance_references = λ zone ns. ns;
  set_named_ports_of_instance_group = λ name zone ports w. (none, w);
}

named-append : (xs ys : List Str) (k : Str) → named (xs ++ ys) k ≡ (named xs k || named ys k)
unfolding named
named-append [] ys k = refl
named-append (x ∷ xs) ys k = ground (arith, named-append xs ys k)

named-plain : (xs : List Str) (k : Str) → all_plain xs ≡ true → named xs k ≡ elem xs k
unfolding named all_plain elem last_part
named-plain [] k h = refl
named-plain (x ∷ xs) k h = elim (Bool-cases (str_eq (last_of (split x (codes "/"))) x)) [
  | inl e ↦
      let same = ap (λ y. str_eq y k) ((str_eq_iff (last_of (split x (codes "/"))) x).0 e) in
      ground (arith, same, named-plain xs k (rw e at h))
  | inr e ↦ absurd (cc (rw e at h))
]

named-drop_nodes :
    (ns xs : List Str) (k : Str) → named (drop_nodes ns xs) k ≡ (not (elem ns k) && named xs k)
unfolding named drop_nodes last_part
named-drop_nodes ns [] k = ground arith
named-drop_nodes ns (x ∷ xs) k = elim (Bool-cases (str_eq (last_of (split x (codes "/"))) k)) [
  | inl e ↦
      let same = ap (elem ns) ((str_eq_iff (last_of (split x (codes "/"))) k).0 e) in
      ground (arith, named-drop_nodes ns xs k, same, e)
  | inr e ↦ ground (arith, named-drop_nodes ns xs k, e)
]

write_zone_lem :
    (zone z k : Str) (xs : List Str) (w : World) (P : Bool → Str → Bool → Type 0)
    → P true zone (named xs k)
    → (str_eq zone z ≡ false → P false z (named (w z) k))
    → P (str_eq zone z) z (named (write_zone zone xs w z) k)
unfolding write_zone
write_zone_lem zone z k xs w P h n = elim (Bool-cases (str_eq zone z)) [
  | inl e ↦ rw e (subst (λ y. P true y (named xs k)) ((str_eq_iff zone z).0 e) h)
  | inr e ↦ rw e (n e)
]

plain_of_none : (b : Bool) → (if b then none else refused) ≡ none → b ≡ true
unfolding refused
plain_of_none true h = refl
plain_of_none false h = cc

unfoldable cloud-MemberLaws : MemberLaws cloud
cloud-MemberLaws = record {
  member = λ w group zone k. named (w zone) k;
  listed = λ w group zone urls h k. ap (λ us. named us k) (sym (ok-injective (w zone) urls h));
  added = λ w group zone ns h z k.
      write_zone_lem zone z k (ns ++ w zone) w (λ b y m. m ≡ (b && elem ns k || named (w y) k))
        (named-append ns (w zone) k
          ∙ ap (λ b. b || named (w zone) k) (named-plain ns k (plain_of_none (all_plain ns) h)))
        (λ e. refl);
  removed = λ w group zone ns h z k.
      write_zone_lem zone z k (drop_nodes ns (w zone)) w
        (λ b y m. m ≡ (not (b && elem ns k) && named (w y) k)) (named-drop_nodes ns (w zone) k)
        (λ e. refl);
}

-- one zone, of which the cluster knows node1 alone
abbrev zones : ZoneLister
zones = record {
  list_zones = ok (codes "zone1" ∷ []);
  get_zone_for_node = λ node.
      if str_eq node (codes "node1")
      then ok (codes "zone1")
      else err (plain (codes "node not found"));
}

-- the group has node2, which has left the cluster
abbrev world : World
world z = codes "node2" ∷ []

abbrev nodes : List Str
nodes = codes "node1" ∷ []

synced : (sync_group zones cloud list_sets nodes (codes "ig") world).0 ≡ ok none
unfolding sync_group list_nodes list_zones_nodes insert_instances list_sets elem new_string
    unless_empty then_if_fine add_nodes remove_nodes each_zone split_nodes_by_zone nodes_in get put
    str_eq fail_with all_plain last_part last_of split split_from has_prefix cons_head
synced = refl

sync_group-reaches_example :
    cloud-MemberLaws.member
      (sync_group zones cloud list_sets nodes (codes "ig") world).1
      (codes "ig")
      (codes "zone1")
      (codes "node1")
    ≡ elem nodes (codes "node1")
unfolding in_zone anywhere named cloud-MemberLaws str_eq last_of split has_prefix
sync_group-reaches_example =
    sync_group-reaches zones cloud cloud-MemberLaws list_sets nodes (codes "ig")
      (codes "zone1" ∷ []) world refl synced (codes "zone1") (codes "node1") refl refl

-- node2 stays in the group
sync_group-unplaced_example :
    cloud-MemberLaws.member
      (sync_group zones cloud list_sets nodes (codes "ig") world).1
      (codes "ig")
      (codes "zone1")
      (codes "node2")
    ≡ cloud-MemberLaws.member world (codes "ig") (codes "zone1") (codes "node2")
unfolding in_zone str_eq
sync_group-unplaced_example =
    sync_group-unplaced zones cloud cloud-MemberLaws list_sets nodes (codes "ig")
      (codes "zone1" ∷ []) world refl synced (codes "zone1") (codes "node2") refl

abbrev web_ports : List NamedPort
web_ports = record { name = named_port 30080; port = 30080 } ∷ []
