-- ===== src/Neg/Manager/Safety.antt =====
-- The manager's methods keep its syncers sound, so none of them panics.
use mathlib.Core.Option.{some-injective}
use ingress_gce.Base.{
  ◌≡◌, refl, subst, Bool, true, false, Option, none, some, List, [], ◌∷◌, Str, Error, Failure,
  if◌then◌else◌, Option-cases, Bool-cases, inl, inr,
}
use ingress_gce.Base.Options.{◌>>=◌}
use ingress_gce.Base.Maps.{get, put}
use ingress_gce.Sets.{StringSets}
use ingress_gce.Neg.Syncer.{ServicePort}
use ingress_gce.Neg.Lifecycle.{
  Syncer, start, stop, signal, Reach, fresh, step, starts, stops, signals,
}
use ingress_gce.Neg.Lifecycle.Safety.{calls_are_safe}
use ingress_gce.Neg.Manager.{
  ServiceKey, ServiceKey_Eq, ServicePort_Eq, service_port_eq, Syncers, Manager, syncer_key,
  syncer_of, stop_port, stop_ports, start_port, start_ports, signal_port, signal_ports, stop_all,
  ports_of, ensure_syncers, stop_syncer, sync_service, shut_down, collect_stopped,
}
use ingress_gce.Neg.Manager.Entries.{Managed, Works, get-Reach, put-Managed}
use ingress_gce.Neg.Manager.Stopped.{collected-Works}

stop-works : (s : Syncer) → Reach s → (t : Syncer) × (stop s ≡ some t) × Reach t
stop-works s r = elim (Option-cases (stop s)) [
  | inl e ↦ absurd ((calls_are_safe s r).1 e)
  | inr (t, e) ↦ (t, e, step s t r (stops s t e))
]

signal-works : (s : Syncer) → Reach s → (p : Bool × Syncer) × (signal s ≡ some p) × Reach p.1
signal-works s r = elim (Option-cases (signal s)) [
  | inl e ↦ absurd ((calls_are_safe s r).2 e)
  | inr (p, e) ↦ (p, e, step s p.1 r (signals s p.1 p.0 e))
]

stop_port-Works :
    (key : ServiceKey) (port : Str) (m : Syncers) → Managed m → Works (stop_port key port m)
unfolding stop_port
stop_port-Works key port m h = elim (Option-cases (get (syncer_key key port) m)) [
  | inl e ↦ rw (stop_port, e) (m, refl, h)
  | inr (s, e) ↦
      let (t, f, r) = stop-works s (get-Reach (syncer_key key port) m s h e) in
      rw (stop_port, e, f)
        (put (syncer_key key port) t m, refl, put-Managed (syncer_key key port) t m h r)
]

signal_port-Works :
    (key : ServiceKey) (port : Str) (m : Syncers) → Managed m → Works (signal_port key port m)
unfolding signal_port
signal_port-Works key port m h = elim (Option-cases (get (syncer_key key port) m)) [
  | inl e ↦ rw (signal_port, e) (m, refl, h)
  | inr (s, e) ↦
      let (p, f, r) = signal-works s (get-Reach (syncer_key key port) m s h e) in
      elim (Bool-cases s.stopped) [
        | inl b ↦ rw (signal_port, e, b) (m, refl, h)
        | inr b ↦
            rw (signal_port, e, f, b)
              (put (syncer_key key port) p.1 m, refl, put-Managed (syncer_key key port) p.1 m h r)
      ]
]

stop_ports-Works :
    (key : ServiceKey) (ports : List Str) (m : Syncers) → Managed m → Works (stop_ports key ports m)
unfolding stop_ports
stop_ports-Works key [] m h = (m, refl, h)
stop_ports-Works key (port ∷ ports) m h =
    let (next, e, k) = stop_port-Works key port m h in
    rw (e, ◌>>=◌) (stop_ports-Works key ports next k)

signal_ports-Works :
    (key : ServiceKey) (ports : List Str) (m : Syncers)
    → Managed m
    → Works (signal_ports key ports m)
unfolding signal_ports
signal_ports-Works key [] m h = (m, refl, h)
signal_ports-Works key (port ∷ ports) m h =
    let (next, e, k) = signal_port-Works key port m h in
    rw (e, ◌>>=◌) (signal_ports-Works key ports next k)

stop_all-absent :
    (k : ServicePort) (m r : Syncers) → stop_all m ≡ some r → get k m ≡ none → get k r ≡ none
unfolding stop_all get
stop_all-absent k [] r h e = subst (λ x. get k x ≡ none) (some-injective _ _ h) refl
stop_all-absent k ((j, s) ∷ m) r h e = elim (Option-cases (stop s)) [
  | inl f ↦ absurd (cc (rw (f, ◌>>=◌) at h))
  | inr (t, f) ↦ elim (Option-cases (stop_all m)) [
    | inl g ↦ absurd (cc (rw (f, ◌>>=◌, g, ◌>>=◌) at h))
    | inr (rest, g) ↦
        subst (λ x. get k x ≡ none) (some-injective _ _ (rw (f, ◌>>=◌, g, ◌>>=◌) at h))
          (elim (Bool-cases (service_port_eq j k)) [
            | inl b ↦ absurd (cc (rw b at e))
            | inr b ↦ rw b (stop_all-absent k m rest g (rw b at e))
          ])
  ]
]

stop_all-Works : (m : Syncers) → Managed m → Works (stop_all m)
unfolding stop_all
stop_all-Works [] h = ([], refl, (tt, tt))
stop_all-Works ((k, s) ∷ m) h =
    let (t, e, r) = stop-works s h.0.0 in
    let (rest, f, ih) = stop_all-Works m (h.0.1, h.1.1) in
    rw (e, ◌>>=◌, f, ◌>>=◌)
      ((k, t) ∷ rest, refl, ((r, ih.0), (stop_all-absent k m rest f h.1.0, ih.1)))

syncer_of-Reach : (k : ServicePort) (m : Syncers) → Managed m → Reach (syncer_of k m)
unfolding syncer_of
syncer_of-Reach k m h = elim (Option-cases (get k m)) [
  | inl e ↦ rw (syncer_of, e) fresh
  | inr (s, e) ↦ rw (syncer_of, e) (get-Reach k m s h e)
]

either-Managed :
    (b : Bool) (x y : List Error × Syncers)
    → Managed x.1
    → Managed y.1
    → Managed (if b then x else y).1
either-Managed true x y h k = h
either-Managed false x y h k = k

start_port-Managed :
    (key : ServiceKey) (port : Str) (errors : List Error) (m : Syncers)
    → Managed m
    → Managed (start_port key port (errors, m)).1
unfolding start_port
start_port-Managed key port errors m h =
    let k = syncer_key key port in
    let r = syncer_of-Reach k m h in
    either-Managed (syncer_of k m).stopped _ _
      (put-Managed k (start (syncer_of k m)).1 m h (step _ _ r (starts (syncer_of k m))))
      (put-Managed k (syncer_of k m) m h r)

start_ports-Managed :
    (key : ServiceKey) (ports : List Str) (state : List Error × Syncers)
    → Managed state.1
    → Managed (start_ports key ports state).1
unfolding start_ports
start_ports-Managed key [] state h = h
start_ports-Managed key (port ∷ ports) state h =
    start_ports-Managed key ports (start_port key port state)
      (start_port-Managed key port state.0 state.1 h)

module _ (S : StringSets) where
  open S use {Set, difference, list}

  ensure_syncers-works :
      (key : ServiceKey) (ports : Set) (m : Manager S)
      → Managed m.syncer_map
      → (f : Failure) × (m' : Manager S) × (ensure_syncers S key ports m ≡ some (f, m'))
        × Managed m'.syncer_map
  unfolding ensure_syncers
  ensure_syncers-works key ports m h =
      let (stopped, e, k) =
        stop_ports-Works key (list (difference (ports_of S key m) ports)) m.syncer_map h in
      let adds = list (difference ports (ports_of S key m)) in
      rw (ensure_syncers, e) (_, _, refl, start_ports-Managed key adds ([], stopped) k)

  Goes : Option (Manager S) → Type 0
  Goes r = (m : Manager S) × (r ≡ some m) × Managed m.syncer_map

  stop_syncer-works :
      (key : ServiceKey) (m : Manager S) → Managed m.syncer_map → Goes (stop_syncer S key m)
  unfolding stop_syncer Goes
  stop_syncer-works key m h = elim (Option-cases (get key m.svc_port_map)) [
    | inl e ↦ rw (stop_syncer, e) (m, refl, h)
    | inr (ports, e) ↦
        let (syncers, f, k) = stop_ports-Works key (list ports) m.syncer_map h in
        rw (stop_syncer, e, f) (_, refl, k)
  ]

  sync_service-works :
      (key : ServiceKey) (m : Manager S) → Managed m.syncer_map → Goes (sync_service S key m)
  unfolding sync_service Goes
  sync_service-works key m h = elim (Option-cases (get key m.svc_port_map)) [
    | inl e ↦ rw (sync_service, e) (m, refl, h)
    | inr (ports, e) ↦
        let (syncers, f, k) = signal_ports-Works key (list ports) m.syncer_map h in
        rw (sync_service, e, f) (_, refl, k)
  ]

  shut_down-works : (m : Manager S) → Managed m.syncer_map → Goes (shut_down S m)
  unfolding shut_down Goes
  shut_down-works m h =
      let (syncers, f, k) = stop_all-Works m.syncer_map h in rw (shut_down, f) (_, refl, k)

  collect_stopped-works : (m : Manager S) → Managed m.syncer_map → Goes (collect_stopped S m)
  unfolding collect_stopped Goes
  collect_stopped-works m h =
      let (syncers, e, k) = collected-Works m.syncer_map h in
      rw (collect_stopped, e) (record m { syncer_map = syncers }, refl, k)

  -- A call of one of the manager's methods.
  pub data Method : Type 0 where
    ensures : ServiceKey → Set → Method
    stops_service syncs_service : ServiceKey → Method
    shuts_down collects : Method

  abbrev pub no_failure : Option (Manager S) → Option (Failure × Manager S)
  no_failure none = none
  no_failure (some m) = some (none, m)

  abbrev pub call : Method → Manager S → Option (Failure × Manager S)
  call (ensures key ports) m = ensure_syncers S key ports m
  call (stops_service key) m = no_failure (stop_syncer S key m)
  call (syncs_service key) m = no_failure (sync_service S key m)
  call shuts_down m = no_failure (shut_down S m)
  call collects m = no_failure (collect_stopped S m)

  Goes-returns :
      (r : Option (Manager S))
      → Goes r
      → (f : Failure) × (m' : Manager S) × (no_failure r ≡ some (f, m')) × Managed m'.syncer_map
  unfolding Goes
  Goes-returns r (m, e, h) = (none, m, rw e refl, h)

  -- As long as the manager's map has one syncer for a key, each of them one that calls and the goroutines'
  -- steps lead to, EnsureSyncers, StopSyncer, Sync, ShutDown and, taken as one step, GC's collection of the
  -- stopped syncers return, without a panic of a syncer or of a call on a missing one, and leave such a
  -- map.
  pub call-Managed :
      (c : Method) (m : Manager S)
      → Managed m.syncer_map
      → (f : Failure) × (m' : Manager S) × (call c m ≡ some (f, m')) × Managed m'.syncer_map
  call-Managed (ensures key ports) m h = ensure_syncers-works key ports m h
  call-Managed (stops_service key) m h = Goes-returns _ (stop_syncer-works key m h)
  call-Managed (syncs_service key) m h = Goes-returns _ (sync_service-works key m h)
  call-Managed shuts_down m h = Goes-returns _ (shut_down-works m h)
  call-Managed collects m h = Goes-returns _ (collect_stopped-works m h)
