-- ===== src/Neg/Manager/Running.antt =====
-- Which syncers run after EnsureSyncers.
use mathlib.Core.Option.{some-injective}
use ingress_gce.Base.{
  ◌≡◌, refl, ap, sym, ◌∙◌, subst, true, false, not, ◌&&◌, none, some, List, [], ◌∷◌, Str, str_eq,
  str_eq_iff, Error, arith, Option-cases, Bool-cases, inl, inr,
}
use ingress_gce.Base.Options.{◌>>=◌}
use ingress_gce.Sets.{StringSets, elem}
use ingress_gce.Neg.Syncer.Groups.{aggregate-none}
use ingress_gce.Neg.Manager.{
  ServiceKey, ServiceKey_Eq, ServicePort_Eq, Syncers, Manager, stop_port, stop_ports, start_port,
  start_ports, ports_of, ensure_syncers,
}
use ingress_gce.Neg.Manager.Again.{ensure_syncers-Ensured}
use ingress_gce.Neg.Manager.Ports.{
  IsRunning, IsHalted, stop_port-IsRunning, stop_port-IsHalted, start_port-IsRunning,
  start_port-keeps, start_port-IsHalted,
}

stop_ports-cons :
    (key : ServiceKey) (port : Str) (ports : List Str) (m n : Syncers)
    → stop_ports key (port ∷ ports) m ≡ some n
    → (k : Syncers) × (stop_port key port m ≡ some k) × (stop_ports key ports k ≡ some n)
unfolding stop_ports
stop_ports-cons key port ports m n h = elim (Option-cases (stop_port key port m)) [
  | inl e ↦ absurd (cc (rw (stop_ports, e, ◌>>=◌) at h))
  | inr (k, e) ↦ (k, e, rw (stop_ports, e, ◌>>=◌) at h)
]

stop_ports-IsRunning :
    (key : ServiceKey) (other : Str) (ports : List Str) (m n : Syncers)
    → stop_ports key ports m ≡ some n
    → elem ports other ≡ false
    → IsRunning key other m
    → IsRunning key other n
unfolding elem
stop_ports-IsRunning key other [] m n h e r =
    subst (λ y. IsRunning key other y) (some-injective m n (unfold stop_ports in h)) r
stop_ports-IsRunning key other (port ∷ ports) m n h e r =
    let (k, first, rest) = stop_ports-cons key port ports m n h in
    stop_ports-IsRunning key other ports k n rest (ground (arith, e))
      (stop_port-IsRunning key port other m k first (ground (arith, e)) r)

stop_ports-IsHalted :
    (key : ServiceKey) (other : Str) (ports : List Str) (m n : Syncers)
    → stop_ports key ports m ≡ some n
    → (elem ports other ≡ false → IsHalted key other m)
    → IsHalted key other n
unfolding elem
stop_ports-IsHalted key other [] m n h r =
    subst (λ y. IsHalted key other y) (some-injective m n (unfold stop_ports in h)) (r refl)
stop_ports-IsHalted key other (port ∷ ports) m n h r =
    let (k, first, rest) = stop_ports-cons key port ports m n h in
    stop_ports-IsHalted key other ports k n rest
      (λ e. stop_port-IsHalted key port other m k first (λ f. r (ground (arith, e, f))))

start_ports-fine :
    (key : ServiceKey) (ports : List Str) (s : List Error × Syncers)
    → (start_ports key ports s).0 ≡ []
    → s.0 ≡ []
unfolding start_ports
start_ports-fine key [] s h = h
start_ports-fine key (port ∷ ports) s h =
    (start_port-IsRunning key port s.0 s.1 (start_ports-fine key ports (start_port key port s) h)).0

start_ports-keeps :
    (key : ServiceKey) (other : Str) (ports : List Str) (s : List Error × Syncers)
    → (start_ports key ports s).0 ≡ []
    → IsRunning key other s.1
    → IsRunning key other (start_ports key ports s).1
unfolding start_ports
start_ports-keeps key other [] s h r = r
start_ports-keeps key other (port ∷ ports) s h r =
    start_ports-keeps key other ports (start_port key port s) h (
      start_port-keeps key port other s.0 s.1 (start_ports-fine key ports (start_port key port s) h)
        r)

start_ports-IsRunning :
    (key : ServiceKey) (other : Str) (ports : List Str) (s : List Error × Syncers)
    → (start_ports key ports s).0 ≡ []
    → elem ports other ≡ true
    → IsRunning key other (start_ports key ports s).1
unfolding start_ports elem
start_ports-IsRunning key other [] s h e = cc
start_ports-IsRunning key other (port ∷ ports) s h e = elim (Bool-cases (str_eq port other)) [
  | inl f ↦ start_ports-keeps key other ports (start_port key port s) h (
      subst (λ y. IsRunning key y (start_port key port s).1) ((str_eq_iff port other).0 f)
        (start_port-IsRunning key port s.0 s.1
          (start_ports-fine key ports (start_port key port s) h)).1)
  | inr f ↦ start_ports-IsRunning key other ports (start_port key port s) h (ground (arith, e, f))
]

start_ports-IsHalted :
    (key : ServiceKey) (other : Str) (ports : List Str) (s : List Error × Syncers)
    → elem ports other ≡ false
    → IsHalted key other s.1
    → IsHalted key other (start_ports key ports s).1
unfolding start_ports elem
start_ports-IsHalted key other [] s e r = r
start_ports-IsHalted key other (port ∷ ports) s e r =
    start_ports-IsHalted key other ports (start_port key port s) (ground (arith, e))
      (start_port-IsHalted key port other s.0 s.1 (ground (arith, e)) r)

module _ (S : StringSets) where
  open S use {Set, has, difference, list, has-difference, elem-list}

  in_difference :
      (s t : Set) (k : Str) → elem (list (difference s t)) k ≡ (has s k && not (has t k))
  in_difference s t k = elem-list (difference s t) k ∙ has-difference s t k

  -- An EnsureSyncers with no error, of a service whose ports all had a running syncer: afterwards each of
  -- the new ports has a running syncer, and that of each port that was given up is stopped.
  pub ensure_syncers-IsRunning :
      (key : ServiceKey) (ports : Set) (m m' : Manager S)
      → ensure_syncers S key ports m ≡ some (none, m')
      → ((port : Str) → has (ports_of S key m) port ≡ true → IsRunning key port m.syncer_map)
      → (port : Str)
      → (has ports port ≡ true → IsRunning key port m'.syncer_map)
        × (has (ports_of S key m) port ≡ true
            → has ports port ≡ false
            → IsHalted key port m'.syncer_map)
  ensure_syncers-IsRunning key ports m m' h before port =
      let e = ensure_syncers-Ensured S key ports m m' none h in
      let adds = list (difference ports (ports_of S key m)) in
      let removes = list (difference (ports_of S key m) ports) in
      let fine : (start_ports key adds ([], e.stopped)).0 ≡ [] = aggregate-none _ (sym e.failure) in
      let result : m'.syncer_map ≡ (start_ports key adds ([], e.stopped)).1 =
        ap (λ x. x.syncer_map) e.result in
      let added = in_difference ports (ports_of S key m) port in
      let removed = in_difference (ports_of S key m) ports port in
      (
        λ wanted. elim (Bool-cases (has (ports_of S key m) port)) [
          | inl old ↦ rw result (
              start_ports-keeps key port adds ([], e.stopped) fine
                (stop_ports-IsRunning key port removes m.syncer_map e.stopped e.stops
                  (ground (arith, removed, wanted)) (before port old)))
          | inr new ↦ rw result (
              start_ports-IsRunning key port adds ([], e.stopped) fine
                (ground (arith, added, wanted, new)))
        ],
        λ old unwanted. rw result (
            start_ports-IsHalted key port adds ([], e.stopped) (ground (arith, added, unwanted))
              (stop_ports-IsHalted key port removes m.syncer_map e.stopped e.stops
                (λ n. absurd (ground (arith, removed, n, old, unwanted))))),
      )
