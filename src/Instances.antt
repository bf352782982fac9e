-- ===== src/Instances.antt =====
-- The pool of instance groups, pkg/instances/instances.go. The snapshotter of the pool is a Go map whose
-- keys are the groups' names. Logs are left out; a list of errors printed as text is an aggregate.
pub mod Groups
pub mod Ports
pub mod Zones
pub mod Sync
mod Tests
use ingress_gce.Base.{
  ℕ, zero, suc, Bool, true, false, ◌&&◌, ◌||◌, not, Option, none, some, List, [], ◌∷◌, ◌++◌, map,
  Str, codes, split, last_of, Error, Result, ok, err, panic, Failure, new_aggregate, length, ◌==◌,
  if◌then◌else◌,
}
use ingress_gce.Base.Maps.{get, put, remove, str_Eq}
use ingress_gce.Sets.{StringSets, new_string}
use ingress_gce.Http.{
  status_not_found, status_conflict, is_http_error_code, is_not_found_error, is_in_used_by_error,
}
use ingress_gce.Namer.{named_port}

pub record ZoneLister : Type 0 where
  pub list_zones : Result (List Str)
  pub get_zone_for_node : Str → Result Str

pub record NamedPort : Type 0 where
  pub name : Str
  pub port : ℕ

pub record InstanceGroup : Type 0 where
  pub name : Str
  pub named_ports : List NamedPort

-- `InstanceGroups`: a lookup gives a group or an error, never neither
pub record InstanceGroups (World : Type 0) : Type 0 where
  pub get_instance_group : Str → Str → World → Result InstanceGroup
  pub create_instance_group : InstanceGroup → Str → World → Failure × World
  pub delete_instance_group : Str → Str → World → Failure × World
  pub list_instances_in_instance_group : Str → Str → World → Result (List Str)
  pub add_instances_to_instance_group : Str → Str → List Str → World → Failure × World
  pub remove_instances_from_instance_group : Str → Str → List Str → World → Failure × World
  pub to_instance_references : Str → List Str → List Str
  pub set_named_ports_of_instance_group : Str → Str → List NamedPort → World → Failure × World

abbrev pub Pool : Type 0
Pool = List (Str × Unit)

unfoldable pub fail_with : Failure → List Error → List Error
fail_with none errors = errors
fail_with (some e) errors = errors ++ e ∷ []

unfoldable pub nodes_in : List (Str × List Str) → Str → List Str
nodes_in m zone = elim (get zone m) [ none ↦ [] | some names ↦ names ]

-- zone:node names; a node without a zone is skipped
unfoldable pub split_nodes_by_zone :
    ZoneLister → List Str → List (Str × List Str) → List (Str × List Str)
split_nodes_by_zone Z [] m = m
split_nodes_by_zone Z (name ∷ names) m = elim (Z.get_zone_for_node name) [
  | ok zone ↦ split_nodes_by_zone Z names (put zone (nodes_in m zone ++ name ∷ []) m)
  | err e ↦ split_nodes_by_zone Z names m
  | panic ↦ split_nodes_by_zone Z names m
]

-- for zone, nodeNames := range ...: the errors, each zone tried whatever the others gave
unfoldable pub each_zone :
    {World : Type 0}
    → (Str → List Str → World → Failure × World)
    → List (Str × List Str)
    → List Error
    → World
    → List Error × World
each_zone op [] errors w = (errors, w)
each_zone op ((zone, names) ∷ m) errors w =
    let done = op zone names w in each_zone op m (fail_with done.0 errors) done.1

-- a call for a list of nodes, unless the list is empty
unfoldable pub unless_empty :
    {World : Type 0} → (List Str → World → Failure × World) → List Str → World → Failure × World
unless_empty op [] w = (none, w)
unless_empty op (x ∷ xs) w = op (x ∷ xs) w

unfoldable pub then_if_fine :
    {World : Type 0} → Failure × World → (World → Failure × World) → Failure × World
then_if_fine (none, w) rest = rest w
then_if_fine (some e, w) rest = (some e, w)

module _ (S : StringSets) where
  open S use {Set, insert}

  -- the last part of an instance's URL is its name
  unfoldable pub insert_instances : List Str → Set → Set
  insert_instances [] nodes = nodes
  insert_instances (url ∷ urls) nodes =
      insert_instances urls (insert nodes (last_of (split url (codes "/"))))

module _ {World : Type 0} (Z : ZoneLister) (C : InstanceGroups World) where
  unfoldable pub add_nodes : Str → List Str → World → Failure × World
  add_nodes group names w =
      let done =
        each_zone
          (λ zone nodes v.
            C.add_instances_to_instance_group group zone (C.to_instance_references zone nodes) v)
          (split_nodes_by_zone Z names []) [] w in
      (new_aggregate done.0, done.1)

  unfoldable pub remove_nodes : Str → List Str → World → Failure × World
  remove_nodes group names w =
      let done =
        each_zone
          (λ zone nodes v.
            C.remove_instances_from_instance_group group zone (C.to_instance_references zone nodes)
              v)
          (split_nodes_by_zone Z names []) [] w in
      (new_aggregate done.0, done.1)

  module _ (S : StringSets) where
    open S use {Set, empty, difference}

    unfoldable pub list_zones_nodes : Str → List Str → Set → World → Result Set
    list_zones_nodes name [] nodes w = ok nodes
    list_zones_nodes name (zone ∷ zones) nodes w =
        elim (C.list_instances_in_instance_group name zone w) [
          | ok urls ↦ list_zones_nodes name zones (insert_instances S urls nodes) w
          | err e ↦ err e
          | panic ↦ panic
        ]

    unfoldable pub list_nodes : Str → World → Result Set
    list_nodes name w = elim Z.list_zones [
      | ok zones ↦ list_zones_nodes name zones empty w
      | err e ↦ err e
      | panic ↦ panic
    ]

    -- one group of the pool
    unfoldable pub sync_group : List Str → Str → World → Result Failure × World
    sync_group nodes ig w = elim (list_nodes ig w) [
      | ok gce_nodes ↦
          (let kube_nodes = new_string S nodes in
            let done =
              then_if_fine
                (unless_empty (remove_nodes ig) (S.list (difference gce_nodes kube_nodes)) w)
                (λ v. unless_empty (add_nodes ig) (S.list (difference kube_nodes gce_nodes)) v) in
            (ok done.0, done.1))
      | err e ↦ (ok (some e), w)
      | panic ↦ (panic, w)
    ]

    -- for igName := range pool, until the first error
    unfoldable pub sync_groups : List Str → List Str → World → Result Failure × World
    sync_groups nodes [] w = (ok none, w)
    sync_groups nodes (ig ∷ igs) w =
        let done = sync_group nodes ig w in
        let rest = sync_groups nodes igs done.1 in
        elim done.0 [
          | ok f ↦ elim f [ none ↦ rest | some e ↦ (ok (some e), done.1) ]
          | err e ↦ (err e, done.1)
          | panic ↦ (panic, done.1)
        ]

    -- A group that is not found ends the sync with no error.
    unfoldable pub sync : List Str → Pool → World → Result Failure × World
    sync nodes pool w =
        let done = sync_groups nodes (map (λ p. p.0) pool) w in
        (
          elim done.0 [
            | ok f ↦ ok (if is_http_error_code f status_not_found then none else f)
            | err e ↦ err e
            | panic ↦ panic
          ],
          done.1,
        )
