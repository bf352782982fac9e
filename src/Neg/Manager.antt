-- ===== src/Neg/Manager.antt =====
-- The manager of the syncers, pkg/networkendpointgroup/manager.go. Each method is one step, as it runs
-- under the manager's lock; a panic of a syncer's method is `none`.
pub mod Again
pub mod Entries
pub mod Stopped
pub mod Safety
pub mod Ports
pub mod Running
mod Tests
use ingress_gce.Base.{
  ◌≡◌, ◌↔◌, refl, ap, Bool, true, false, ◌&&◌, not, Option, none, some, List, [], ◌∷◌, Str, str_eq,
  str_eq_iff, Error, Result, ok, err, panic, Failure, new_aggregate, if◌then◌else◌, arith,
}
use ingress_gce.Base.Options.{◌>>=◌}
use ingress_gce.Base.Maps.{Eq, get, put, remove}
use ingress_gce.Sets.{StringSets}
use ingress_gce.Neg.Cloud.{NetworkEndpointGroup, NegCloud}
use ingress_gce.Neg.Syncer.{ServicePort, add_failure}
use ingress_gce.Neg.Lifecycle.{Syncer, new_syncer, start, stop, signal}

pub record ServiceKey : Type 0 where
  pub namespace : Str
  pub name : Str

unfoldable pub service_key_eq : ServiceKey → ServiceKey → Bool
service_key_eq a b = str_eq a.namespace b.namespace && str_eq a.name b.name

unfoldable pub service_port_eq : ServicePort → ServicePort → Bool
service_port_eq a b =
    str_eq a.namespace b.namespace && str_eq a.name b.name && str_eq a.target_port b.target_port

pub service_key_eq_iff : (a b : ServiceKey) → (service_key_eq a b ≡ true) ↔ (a ≡ b)
unfolding service_key_eq
service_key_eq_iff a b =
    ground (arith, str_eq_iff a.namespace b.namespace, str_eq_iff a.name b.name)

pub service_port_eq_iff : (a b : ServicePort) → (service_port_eq a b ≡ true) ↔ (a ≡ b)
unfolding service_port_eq
service_port_eq_iff a b = ground (
  arith,
  str_eq_iff a.namespace b.namespace,
  str_eq_iff a.name b.name,
  str_eq_iff a.target_port b.target_port,
)

instance abbrev pub ServiceKey_Eq : Eq ServiceKey
ServiceKey_Eq = record { beq = service_key_eq; beq_iff = service_key_eq_iff }

instance abbrev pub ServicePort_Eq : Eq ServicePort
ServicePort_Eq = record { beq = service_port_eq; beq_iff = service_port_eq_iff }

-- networkEndpointGroupNamer
pub record NegNamer : Type 0 where
  pub neg : Str → Str → Str → Str
  pub is_neg : Str → Bool

abbrev pub Syncers : Type 0
Syncers = List (ServicePort × Syncer)

-- getSyncerKey
abbrev pub syncer_key : ServiceKey → Str → ServicePort
syncer_key key port = record { namespace = key.namespace; name = key.name; target_port = port }

unfoldable pub stop_port : ServiceKey → Str → Syncers → Option Syncers
stop_port key port m = elim (get (syncer_key key port) m) [
  | none ↦ some m
  | some s ↦ elim (stop s) [ none ↦ none | some t ↦ some (put (syncer_key key port) t m) ]
]

unfoldable pub stop_ports : ServiceKey → List Str → Syncers → Option Syncers
stop_ports key [] m = some m
stop_ports key (port ∷ ports) m = do next ← stop_port key port m; stop_ports key ports next

-- the syncer of the port, made if there is none
unfoldable pub syncer_of : ServicePort → Syncers → Syncer
syncer_of k m = elim (get k m) [ none ↦ new_syncer | some s ↦ s ]

unfoldable pub start_port : ServiceKey → Str → List Error × Syncers → List Error × Syncers
start_port key port (errors, m) =
    let k = syncer_key key port in
    let s = syncer_of k m in
    let done = start s in
    if s.stopped then (add_failure done.0 errors, put k done.1 m) else (errors, put k s m)

unfoldable pub start_ports : ServiceKey → List Str → List Error × Syncers → List Error × Syncers
start_ports key [] state = state
start_ports key (port ∷ ports) state = start_ports key ports (start_port key port state)

-- A signal of a stopped syncer is not sent.
unfoldable pub signal_port : ServiceKey → Str → Syncers → Option Syncers
signal_port key port m = elim (get (syncer_key key port) m) [
  | none ↦ some m
  | some s ↦
      if s.stopped
      then some m
      else elim (signal s) [ none ↦ none | some (sent, t) ↦ some (put (syncer_key key port) t m) ]
]

unfoldable pub signal_ports : ServiceKey → List Str → Syncers → Option Syncers
signal_ports key [] m = some m
signal_ports key (port ∷ ports) m = do next ← signal_port key port m; signal_ports key ports next

-- for _, s := range manager.syncerMap { s.Stop() }
unfoldable pub stop_all : Syncers → Option Syncers
stop_all [] = some []
stop_all ((k, s) ∷ m) = do t ← stop s; rest ← stop_all m; some ((k, t) ∷ rest)

unfoldable pub stopped_syncer_keys : Syncers → List ServicePort
stopped_syncer_keys [] = []
stopped_syncer_keys ((k, s) ∷ m) =
    let rest = stopped_syncer_keys m in if s.stopped then k ∷ rest else rest

-- a key without a syncer is a method call on nil
unfoldable pub garbage_collect_syncer : ServicePort → Syncers → Option Syncers
garbage_collect_syncer k m = elim (get k m) [
  | none ↦ none
  | some s ↦ some (if s.stopped && not s.shutting_down then remove k m else m)
]

unfoldable pub garbage_collect_syncers : List ServicePort → Syncers → Option Syncers
garbage_collect_syncers [] m = some m
garbage_collect_syncers (k ∷ ks) m = do
  next ← garbage_collect_syncer k m
  garbage_collect_syncers ks next

module _ (S : StringSets) where
  open S use {Set, empty, difference, list}

  pub record Manager : Type 0 where
    pub svc_port_map : List (ServiceKey × Set)
    pub syncer_map : Syncers

  -- the ports of a service, none if it has no entry
  unfoldable pub ports_of : ServiceKey → Manager → Set
  ports_of key m = elim (get key m.svc_port_map) [ none ↦ empty | some ports ↦ ports ]

  -- The error, and the manager: its ports are those of the call, also after an error.
  unfoldable pub ensure_syncers : ServiceKey → Set → Manager → Option (Failure × Manager)
  ensure_syncers key target_ports m =
      let removes = list (difference (ports_of key m) target_ports) in
      let adds = list (difference target_ports (ports_of key m)) in
      elim (stop_ports key removes m.syncer_map) [
        | none ↦ none
        | some syncers ↦
            (let done = start_ports key adds ([], syncers) in
              some (
                new_aggregate done.0,
                record { svc_port_map = put key target_ports m.svc_port_map; syncer_map = done.1 },
              ))
      ]

  unfoldable pub stop_syncer : ServiceKey → Manager → Option Manager
  stop_syncer key m = elim (get key m.svc_port_map) [
    | none ↦ some m
    | some ports ↦ elim (stop_ports key (list ports) m.syncer_map) [
      | none ↦ none
      | some syncers ↦
          some (record { svc_port_map = remove key m.svc_port_map; syncer_map = syncers })
    ]
  ]

  unfoldable pub sync_service : ServiceKey → Manager → Option Manager
  sync_service key m = elim (get key m.svc_port_map) [
    | none ↦ some m
    | some ports ↦ elim (signal_ports key (list ports) m.syncer_map) [
      | none ↦ none
      | some syncers ↦ some (record m { syncer_map = syncers })
    ]
  ]

  unfoldable pub shut_down : Manager → Option Manager
  shut_down m = elim (stop_all m.syncer_map) [
    | none ↦ none
    | some syncers ↦ some (record m { syncer_map = syncers })
  ]

  -- The part of GC before the groups: the stopped syncers, which the source takes one by one under the
  -- lock, here in one step.
  unfoldable pub collect_stopped : Manager → Option Manager
  collect_stopped m =
      elim (garbage_collect_syncers (stopped_syncer_keys m.syncer_map) m.syncer_map) [
        | none ↦ none
        | some syncers ↦ some (record m { syncer_map = syncers })
      ]
