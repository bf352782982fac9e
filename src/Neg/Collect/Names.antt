-- ===== src/Neg/Collect/Names.antt =====
-- The names that the garbage collection deletes: the cluster's groups that no service needs.
use ingress_gce.Base.{
  ◌≡◌, refl, ap, ◌∙◌, Bool, true, false, not, ◌&&◌, ◌||◌, some, List, [], ◌∷◌, Str, str_eq,
  str_eq_iff, str_eq_refl, arith, Bool-cases, inl, inr,
}
use mathlib.Core.Option.{some-injective}
use ingress_gce.Base.Maps.{get}
use ingress_gce.Sets.{StringSets, elem}
use ingress_gce.Neg.Cloud.{NetworkEndpointGroup}
use ingress_gce.Neg.Manager.{
  ServiceKey, NegNamer, Manager, ServiceKey_Eq, service_key_eq, service_key_eq_iff,
}
use ingress_gce.Neg.Collect.{insert_names, listed_names, delete_ports, delete_in_use, unused_names}

or-true : (b : Bool) → (b || true) ≡ true
or-true true = refl
or-true false = refl

module _ (S : StringSets) (N : NegNamer) where
  open S use {Set, empty, has, insert, delete, list, has-empty, has-insert, has-delete, elem-list}
  open N use {neg, is_neg}

  -- The zone has a group of the cluster under this name.
  unfoldable pub has_group : List NetworkEndpointGroup → Str → Bool
  has_group [] k = false
  has_group (g ∷ groups) k = (str_eq g.name k && is_neg k) || has_group groups k

  unfoldable pub some_zone_has : List (Str × List NetworkEndpointGroup) → Str → Bool
  some_zone_has [] k = false
  some_zone_has ((zone, groups) ∷ zones) k = has_group groups k || some_zone_has zones k

  unfoldable pub port_uses : ServiceKey → List Str → Str → Bool
  port_uses key [] k = false
  port_uses key (port ∷ ports) k =
      str_eq (neg key.namespace key.name port) k || port_uses key ports k

  -- Some service needs the group of this name.
  unfoldable pub in_use : List (ServiceKey × Set) → Str → Bool
  in_use [] k = false
  in_use ((key, ports) ∷ m) k = port_uses key (list ports) k || in_use m k

  same_is_neg : (a k : Str) → (str_eq a k && is_neg a) ≡ (str_eq a k && is_neg k)
  same_is_neg a k = elim (Bool-cases (str_eq a k)) [
    | inl e ↦ rw e (ap is_neg ((str_eq_iff a k).0 e))
    | inr e ↦ rw e refl
  ]

  insert_names_lem :
      (groups : List NetworkEndpointGroup) (names : Set) (k : Str)
      → has (insert_names S N groups names) k ≡ (has_group groups k || has names k)
  unfolding insert_names has_group
  insert_names_lem [] names k = refl
  insert_names_lem (g ∷ groups) names k = elim (Bool-cases (is_neg g.name)) [
    | inl e ↦ rw e (
        ground (
          arith,
          e,
          insert_names_lem groups (insert names g.name) k,
          has-insert names g.name k,
          same_is_neg g.name k,
        ))
    | inr e ↦ rw e (ground (arith, e, insert_names_lem groups names k, same_is_neg g.name k))
  ]

  listed_names_lem :
      (zones : List (Str × List NetworkEndpointGroup)) (names : Set) (k : Str)
      → has (listed_names S N zones names) k ≡ (some_zone_has zones k || has names k)
  unfolding listed_names some_zone_has
  listed_names_lem [] names k = refl
  listed_names_lem ((zone, groups) ∷ zones) names k = ground (
    arith,
    listed_names_lem zones (insert_names S N groups names) k,
    insert_names_lem groups names k,
  )

  delete_ports_lem :
      (key : ServiceKey) (ports : List Str) (names : Set) (k : Str)
      → has (delete_ports S N key ports names) k ≡ (not (port_uses key ports k) && has names k)
  unfolding delete_ports port_uses
  delete_ports_lem key [] names k = refl
  delete_ports_lem key (port ∷ ports) names k = ground (
    arith,
    delete_ports_lem key ports (delete names (neg key.namespace key.name port)) k,
    has-delete names (neg key.namespace key.name port) k,
  )

  delete_in_use_lem :
      (m : List (ServiceKey × Set)) (names : Set) (k : Str)
      → has (delete_in_use S N m names) k ≡ (not (in_use m k) && has names k)
  unfolding delete_in_use in_use
  delete_in_use_lem [] names k = refl
  delete_in_use_lem ((key, ports) ∷ m) names k = ground (
    arith,
    delete_in_use_lem m (delete_ports S N key (list ports) names) k,
    delete_ports_lem key (list ports) names k,
  )

  -- The names that are left to delete are those of the cluster's groups, in any zone, that no service
  -- needs.
  pub unused_names_lem :
      (zones : List (Str × List NetworkEndpointGroup)) (m : Manager S) (k : Str)
      → has (unused_names S N zones m) k ≡ (not (in_use m.svc_port_map k) && some_zone_has zones k)
  unfolding unused_names
  unused_names_lem zones m k = ground (
    arith,
    delete_in_use_lem m.svc_port_map (listed_names S N zones empty) k,
    listed_names_lem zones empty k,
    has-empty k,
  )

  port_uses-elem :
      (key : ServiceKey) (ports : List Str) (port : Str)
      → elem ports port ≡ true
      → port_uses key ports (neg key.namespace key.name port) ≡ true
  unfolding port_uses elem
  port_uses-elem key [] port h = cc
  port_uses-elem key (x ∷ ports) port h = elim (Bool-cases (str_eq x port)) [
    | inl e ↦
        let same = str_eq_refl (neg key.namespace key.name port) in
        rw ((str_eq_iff x port).0 e, same) refl
    | inr e ↦ rw (port_uses-elem key ports port (ground (arith, e))) (or-true _)
  ]

  -- A port of a service has its group in use.
  pub in_use-port :
      (m : List (ServiceKey × Set)) (key : ServiceKey) (ports : Set) (port : Str)
      → get key m ≡ some ports
      → has ports port ≡ true
      → in_use m (neg key.namespace key.name port) ≡ true
  unfolding in_use get
  in_use-port [] key ports port h p = cc
  in_use-port ((j, qs) ∷ m) key ports port h p = elim (Bool-cases (service_key_eq j key)) [
    | inl e ↦
        let same : qs ≡ ports = some-injective qs ports (rw e at h) in
        rw
          (
            (service_key_eq_iff j key).0 e,
            same,
            port_uses-elem key (list ports) port (elem-list ports port ∙ p),
          )
          refl
    | inr e ↦ rw (in_use-port m key ports port (rw e at h) p) (or-true _)
  ]
