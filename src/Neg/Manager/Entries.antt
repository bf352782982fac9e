-- ===== src/Neg/Manager/Entries.antt =====
-- The manager's map of syncers: what a look-up, a put and a removal keep of it.
use mathlib.Core.Option.{some-injective}
use ingress_gce.Base.{
  sym, ◌∙◌, if_false, ◌≡◌, refl, subst, false, Option, none, some, [], ◌∷◌, All, Bool-cases, inl,
  inr,
}
use ingress_gce.Base.Maps.{get, put, remove, get-put, get-remove}
use ingress_gce.Neg.Syncer.{ServicePort}
use ingress_gce.Neg.Lifecycle.{Syncer, Reach}
use ingress_gce.Neg.Manager.{
  ServiceKey_Eq, ServicePort_Eq, service_port_eq, service_port_eq_iff, Syncers,
}

-- Every syncer is one that calls and steps lead to.
abbrev pub AllReach : Syncers → Type 0
AllReach m = All (λ e. Reach e.1) m

-- No key has two entries.
abbrev pub Distinct : Syncers → Type 0
Distinct [] = Unit
Distinct ((k, s) ∷ m) = (get k m ≡ none) × Distinct m

-- It is a map of syncers that calls and steps lead to.
abbrev pub Managed : Syncers → Type 0
Managed m = AllReach m × Distinct m

-- A method returns, and keeps the syncers so.
abbrev pub Works : Option Syncers → Type 0
Works r = (m : Syncers) × (r ≡ some m) × Managed m

get-AllReach :
    (k : ServicePort) (m : Syncers) (s : Syncer) → AllReach m → get k m ≡ some s → Reach s
unfolding get
get-AllReach k [] s h e = cc
get-AllReach k ((j, t) ∷ m) s h e = elim (Bool-cases (service_port_eq j k)) [
  | inl b ↦ subst Reach (some-injective t s (rw b at e)) h.0
  | inr b ↦ get-AllReach k m s h.1 (rw b at e)
]

pub get-Reach :
    (k : ServicePort) (m : Syncers) (s : Syncer) → Managed m → get k m ≡ some s → Reach s
get-Reach k m s h e = get-AllReach k m s h.0 e

put-AllReach :
    (k : ServicePort) (s : Syncer) (m : Syncers) → AllReach m → Reach s → AllReach (put k s m)
unfolding put
put-AllReach k s [] h r = (r, tt)
put-AllReach k s ((j, t) ∷ m) h r = elim (Bool-cases (service_port_eq j k)) [
  | inl b ↦ rw b (r, h.1)
  | inr b ↦ rw b (h.0, put-AllReach k s m h.1 r)
]

other_key : (j k : ServicePort) → service_port_eq j k ≡ false → service_port_eq k j ≡ false
other_key j k h = elim (Bool-cases (service_port_eq k j)) [
  | inl e ↦ absurd (cc (h, (service_port_eq_iff j k).1 (sym ((service_port_eq_iff k j).0 e))))
  | inr e ↦ e
]

put-Distinct : (k : ServicePort) (s : Syncer) (m : Syncers) → Distinct m → Distinct (put k s m)
unfolding put
put-Distinct k s [] d = (unfold get in refl, tt)
put-Distinct k s ((j, t) ∷ m) d = elim (Bool-cases (service_port_eq j k)) [
  | inl b ↦ rw b d
  | inr b ↦ rw b (get-put k j s m ∙ (if_false _ _ (other_key j k b) ∙ d.0), put-Distinct k s m d.1)
]

pub remove-AllReach : (k : ServicePort) (m : Syncers) → AllReach m → AllReach (remove k m)
unfolding remove
remove-AllReach k [] h = tt
remove-AllReach k ((j, t) ∷ m) h = elim (Bool-cases (service_port_eq j k)) [
  | inl b ↦ rw b (remove-AllReach k m h.1)
  | inr b ↦ rw b (h.0, remove-AllReach k m h.1)
]

pub remove-Distinct : (k : ServicePort) (m : Syncers) → Distinct m → Distinct (remove k m)
unfolding remove
remove-Distinct k [] d = tt
remove-Distinct k ((j, t) ∷ m) d = elim (Bool-cases (service_port_eq j k)) [
  | inl b ↦ rw b (remove-Distinct k m d.1)
  | inr b ↦
      rw b (get-remove k j m ∙ (if_false _ _ (other_key j k b) ∙ d.0), remove-Distinct k m d.1)
]

pub put-Managed :
    (k : ServicePort) (s : Syncer) (m : Syncers) → Managed m → Reach s → Managed (put k s m)
put-Managed k s m h r = (put-AllReach k s m h.0 r, put-Distinct k s m h.1)
