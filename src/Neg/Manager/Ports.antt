-- ===== src/Neg/Manager/Ports.antt =====
-- Which syncers run after a stop or a start of one port.
use mathlib.Core.Option.{some-injective}
use ingress_gce.Base.{
  ◌≡◌, ◌⊎◌, refl, ap, sym, ◌∙◌, subst, Bool, true, false, none, some, List, [], Str, str_eq,
  str_eq_iff, str_eq_refl, Error, if◌then◌else◌, arith, Option-cases, Bool-cases, inl, inr,
}
use ingress_gce.Base.Maps.{get, put, get-put}
use ingress_gce.Neg.Syncer.{add_failure}
use ingress_gce.Neg.Syncer.Groups.{add_failure-eq-nil}
use ingress_gce.Neg.Lifecycle.{Syncer, start, stop, init}
use ingress_gce.Neg.Manager.{
  ServiceKey, ServiceKey_Eq, ServicePort_Eq, service_port_eq, Syncers, syncer_key, syncer_of,
  stop_port, start_port,
}

syncer_key-eq :
    (key : ServiceKey) (a b : Str)
    → service_port_eq (syncer_key key a) (syncer_key key b) ≡ str_eq a b
unfolding service_port_eq
syncer_key-eq key a b = rw (str_eq_refl key.namespace, str_eq_refl key.name) refl

-- The port's syncer is not stopped.
abbrev pub IsRunning : ServiceKey → Str → Syncers → Type 0
IsRunning key port m = (s : Syncer) × (get (syncer_key key port) m ≡ some s) × (s.stopped ≡ false)

-- The port's syncer, if there is one, is stopped.
abbrev pub IsHalted : ServiceKey → Str → Syncers → Type 0
IsHalted key port m = (s : Syncer) → get (syncer_key key port) m ≡ some s → s.stopped ≡ true

stop-stopped : (s t : Syncer) → stop s ≡ some t → t.stopped ≡ true
unfolding stop
stop-stopped s t h = ground arith

start-stopped : (s : Syncer) → (start s).0 ≡ none → (start s).1.stopped ≡ false
unfolding start init
start-stopped s h = ground arith

get-put_key :
    (key : ServiceKey) (port other : Str) (s : Syncer) (m : Syncers)
    → get (syncer_key key other) (put (syncer_key key port) s m)
      ≡ (if str_eq port other then some s else get (syncer_key key other) m)
get-put_key key port other s m =
    get-put (syncer_key key port) (syncer_key key other) s m
    ∙ rw (syncer_key-eq key port other) refl

-- What a stop of one port does: nothing if it has no syncer, and else a write of a stopped one.
stop_port-cases :
    (key : ServiceKey) (port : Str) (m n : Syncers)
    → stop_port key port m ≡ some n
    → ((get (syncer_key key port) m ≡ none) × (m ≡ n))
      ⊎ ((t : Syncer) × (t.stopped ≡ true) × (n ≡ put (syncer_key key port) t m))
unfolding stop_port
stop_port-cases key port m n h = elim (Option-cases (get (syncer_key key port) m)) [
  | inl e ↦ inl (e, some-injective m n (rw (stop_port, e) at h))
  | inr (s, e) ↦ elim (Option-cases (stop s)) [
    | inl f ↦ absurd (cc (rw (stop_port, e, f) at h))
    | inr (t, f) ↦ inr (
      t,
      stop-stopped s t f,
      sym (some-injective (put (syncer_key key port) t m) n (rw (stop_port, e, f) at h)),
    )
  ]
]

pub stop_port-IsRunning :
    (key : ServiceKey) (port other : Str) (m n : Syncers)
    → stop_port key port m ≡ some n
    → str_eq port other ≡ false
    → IsRunning key other m
    → IsRunning key other n
stop_port-IsRunning key port other m n h e (s, found, runs) =
    elim (stop_port-cases key port m n h) [
      | inl (x, same) ↦ (s, subst (λ y. get (syncer_key key other) y ≡ some s) same found, runs)
      | inr (t, stopped, same) ↦ (s, rw (same, get-put_key key port other t m, e) found, runs)
    ]

-- A stop leaves its port and every halted one halted.
pub stop_port-IsHalted :
    (key : ServiceKey) (port other : Str) (m n : Syncers)
    → stop_port key port m ≡ some n
    → (str_eq port other ≡ false → IsHalted key other m)
    → IsHalted key other n
stop_port-IsHalted key port other m n h k s found = elim (stop_port-cases key port m n h) [
  | inl (x, same) ↦
      let before = subst (λ y. get (syncer_key key other) y ≡ some s) (sym same) found in
      elim (Bool-cases (str_eq port other)) [
        | inl e ↦ absurd (
            cc (
              subst (λ y. get (syncer_key key y) m ≡ none) ((str_eq_iff port other).0 e) x,
              before,
            ))
        | inr e ↦ k e s before
      ]
  | inr (t, stopped, same) ↦
      let after = sym (get-put_key key port other t m) ∙ rw same at found in
      elim (Bool-cases (str_eq port other)) [
        | inl e ↦ subst (λ y. y.stopped ≡ true) (some-injective t s (rw e at after)) stopped
        | inr e ↦ k e s (rw e at after)
      ]
]

-- What a start of one port does: a stopped syncer is started, another is left as it is.
data Started (key : ServiceKey) (port : Str) (errors : List Error) (m : Syncers) : Type 0 where
  begun :
      (s : Syncer)
      → s ≡ syncer_of (syncer_key key port) m
      → s.stopped ≡ true
      → start_port key port (errors, m)
        ≡ (add_failure (start s).0 errors, put (syncer_key key port) (start s).1 m)
      → Started key port errors m
  ran :
      (s : Syncer)
      → s.stopped ≡ false
      → start_port key port (errors, m) ≡ (errors, put (syncer_key key port) s m)
      → Started key port errors m

if_true {ℓ} : {A : Type ℓ} (b : Bool) (x y : A) → b ≡ true → (if b then x else y) ≡ x
if_true true x y h = refl
if_true false x y h = cc

if_not {ℓ} : {A : Type ℓ} (b : Bool) (x y : A) → b ≡ false → (if b then x else y) ≡ y
if_not false x y h = refl
if_not true x y h = cc

start_port-Started :
    (key : ServiceKey) (port : Str) (errors : List Error) (m : Syncers) → Started key port errors m
unfolding start_port
start_port-Started key port errors m =
    let s = syncer_of (syncer_key key port) m in
    elim (Bool-cases s.stopped) [
      | inl b ↦ begun s refl b (if_true s.stopped _ _ b)
      | inr b ↦ ran s b (if_not s.stopped _ _ b)
    ]

IsRunning-after :
    (key : ServiceKey) (port other : Str) (s : Syncer) (m : Syncers)
    → s.stopped ≡ false
    → (str_eq port other ≡ false → IsRunning key other m)
    → IsRunning key other (put (syncer_key key port) s m)
IsRunning-after key port other s m runs k = elim (Bool-cases (str_eq port other)) [
  | inl e ↦ (s, get-put_key key port other s m ∙ rw e refl, runs)
  | inr e ↦ let (t, found, q) = k e in (t, get-put_key key port other s m ∙ rw e found, q)
]

same_port : (port : Str) → (str_eq port port ≡ false) → ⊥
same_port port h = cc (h, str_eq_refl port)

pub start_port-IsRunning :
    (key : ServiceKey) (port : Str) (errors : List Error) (m : Syncers)
    → (start_port key port (errors, m)).0 ≡ []
    → (errors ≡ []) × IsRunning key port (start_port key port (errors, m)).1
start_port-IsRunning key port errors m h = elim (start_port-Started key port errors m) [
  | begun s same b e ↦
      let (fine, before) = add_failure-eq-nil (start s).0 errors (sym (ap (λ p. p.0) e) ∙ h) in
      (
        before,
        rw e (
            IsRunning-after key port port (start s).1 m (start-stopped s fine)
              (λ n. absurd (same_port port n))),
      )
  | ran s b e ↦ (
    sym (ap (λ p. p.0) e) ∙ h,
    rw e (IsRunning-after key port port s m b (λ n. absurd (same_port port n))),
  )
]

-- A start with no error leaves every running syncer running.
pub start_port-keeps :
    (key : ServiceKey) (port other : Str) (errors : List Error) (m : Syncers)
    → (start_port key port (errors, m)).0 ≡ []
    → IsRunning key other m
    → IsRunning key other (start_port key port (errors, m)).1
start_port-keeps key port other errors m h r = elim (start_port-Started key port errors m) [
  | begun s same b e ↦
      let (fine, before) = add_failure-eq-nil (start s).0 errors (sym (ap (λ p. p.0) e) ∙ h) in
      rw e (IsRunning-after key port other (start s).1 m (start-stopped s fine) (λ n. r))
  | ran s b e ↦ rw e (IsRunning-after key port other s m b (λ n. r))
]

pub start_port-IsHalted :
    (key : ServiceKey) (port other : Str) (errors : List Error) (m : Syncers)
    → str_eq port other ≡ false
    → IsHalted key other m
    → IsHalted key other (start_port key port (errors, m)).1
start_port-IsHalted key port other errors m n h t found =
    elim (start_port-Started key port errors m) [
      | begun s same b e ↦
          h t (rw n at (sym (get-put_key key port other (start s).1 m) ∙ rw e at found))
      | ran s b e ↦ h t (rw n at (sym (get-put_key key port other s m) ∙ rw e at found))
    ]
