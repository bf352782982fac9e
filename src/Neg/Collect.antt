-- ===== src/Neg/Collect.antt =====
-- The garbage collection of the manager, pkg/networkendpointgroup/manager.go: GC, garbageCollectNEG and
-- ensureDeleteNetworkEndpointGroup. The text that wraps an error is left out.
pub mod Names
pub mod Loops
pub mod Keeps
mod Tests
use ingress_gce.Base.{
  Bool, true, false, Option, none, some, List, [], ◌∷◌, Str, Error, Result, ok, err, panic, Failure,
  if◌then◌else◌,
}
use ingress_gce.Sets.{StringSets}
use ingress_gce.Neg.Cloud.{NetworkEndpointGroup, NegCloud}
use ingress_gce.Neg.Sync.{Halt, finished, failed, panicked, out_of_fuel, halt_of}
use ingress_gce.Neg.Manager.{ServiceKey, NegNamer, Syncers, Manager, collect_stopped}

-- the rest of a loop, unless it returned
unfoldable pub go_on : {World : Type 0} → Halt × World → (World → Halt × World) → Halt × World
go_on (h, w) rest = elim h [
  | finished ↦ rest w
  | failed e ↦ (failed e, w)
  | panicked ↦ (panicked, w)
  | out_of_fuel ↦ (out_of_fuel, w)
]

-- The deletions run after the manager's lock is released. What other goroutines do to the cloud before
-- each of them is `others`, any function of the cloud's state.
module _ {World : Type 0} (C : NegCloud World) (others : World → World) where
  -- An error of the lookup is taken for a group that is not there.
  unfoldable pub ensure_delete_network_endpoint_group : Str → Str → World → Halt × World
  ensure_delete_network_endpoint_group name zone w =
      elim (C.get_network_endpoint_group name zone w) [
        | ok g ↦ (
          halt_of (C.delete_network_endpoint_group name zone w).0,
          (C.delete_network_endpoint_group name zone w).1,
        )
        | err e ↦ (finished, w)
        | panic ↦ (panicked, w)
      ]

  unfoldable pub delete_in_zone : Str → List Str → World → Halt × World
  delete_in_zone zone [] w = (finished, w)
  delete_in_zone zone (name ∷ names) w =
      go_on (ensure_delete_network_endpoint_group name zone (others w))
        (λ next. delete_in_zone zone names next)

  unfoldable pub delete_in_zones :
      List Str → List (Str × List NetworkEndpointGroup) → World → Halt × World
  delete_in_zones names [] w = (finished, w)
  delete_in_zones names ((zone, groups) ∷ zones) w =
      go_on (delete_in_zone zone names w) (λ next. delete_in_zones names zones next)

module _ (S : StringSets) (N : NegNamer) where
  open S use {Set, empty, insert, delete, list}
  open N use {neg, is_neg}

  -- for _, neg := range list
  unfoldable pub insert_names : List NetworkEndpointGroup → Set → Set
  insert_names [] names = names
  insert_names (g ∷ groups) names =
      insert_names groups (if is_neg g.name then insert names g.name else names)

  -- the names of the cluster's groups in all zones
  unfoldable pub listed_names : List (Str × List NetworkEndpointGroup) → Set → Set
  listed_names [] names = names
  listed_names ((zone, groups) ∷ zones) names = listed_names zones (insert_names groups names)

  unfoldable pub delete_ports : ServiceKey → List Str → Set → Set
  delete_ports key [] names = names
  delete_ports key (port ∷ ports) names =
      delete_ports key ports (delete names (neg key.namespace key.name port))

  -- without the names of the groups that a service needs
  unfoldable pub delete_in_use : List (ServiceKey × Set) → Set → Set
  delete_in_use [] names = names
  delete_in_use ((key, ports) ∷ m) names = delete_in_use m (delete_ports key (list ports) names)

  -- The names of the cluster's groups that no service needs.
  unfoldable pub unused_names : List (Str × List NetworkEndpointGroup) → Manager S → Set
  unused_names zones m = delete_in_use m.svc_port_map (listed_names zones empty)

  module _ {World : Type 0} (C : NegCloud World) (others : World → World) where
    -- `m` is the manager as it is while the lock is held, when the names in use are taken out.
    unfoldable pub garbage_collect_neg : Manager S → World → Halt × World
    garbage_collect_neg m w = elim (C.aggregated_list_network_endpoint_group w) [
      | ok zones ↦ delete_in_zones C others (list (unused_names zones m)) zones w
      | err e ↦ (failed e, w)
      | panic ↦ (panicked, w)
    ]

    unfoldable pub gc : Manager S → World → (Halt × World) × Manager S
    gc m w = elim (collect_stopped S m) [
      | none ↦ ((panicked, w), m)
      | some next ↦ (garbage_collect_neg next w, next)
    ]
