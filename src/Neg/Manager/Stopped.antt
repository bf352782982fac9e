-- ===== src/Neg/Manager/Stopped.antt =====
-- The collection of the stopped syncers returns: each of their keys is in the map once.
use ingress_gce.Base.{
  ◌∙◌, if_true, if_false, not, ◌&&◌, if-cases, ◌≡◌, refl, subst, false, none, some, List, [], ◌∷◌,
  All, Bool-cases, inl, inr,
}
use ingress_gce.Base.Options.{◌>>=◌}
use ingress_gce.Base.Maps.{get, remove, get-remove}
use ingress_gce.Neg.Syncer.{ServicePort}
use ingress_gce.Neg.Lifecycle.{Syncer}
use ingress_gce.Neg.Manager.{
  ServiceKey_Eq, ServicePort_Eq, service_port_eq, service_port_eq_iff, stopped_syncer_keys,
  garbage_collect_syncer, garbage_collect_syncers, Syncers,
}
use ingress_gce.Neg.Manager.Entries.{Distinct, Managed, Works, remove-AllReach, remove-Distinct}

-- There is a syncer of the key.
abbrev IsPresent : Syncers → ServicePort → Type 0
IsPresent m k = (s : Syncer) × (get k m ≡ some s)

-- No key stands twice.
abbrev NoDup : List ServicePort → Type 0
NoDup [] = Unit
NoDup (k ∷ ks) = All (λ j. service_port_eq k j ≡ false) ks × NoDup ks

All-IsPresent-cons :
    (k : ServicePort) (s : Syncer) (m : Syncers) (ks : List ServicePort)
    → All (IsPresent m) ks
    → All (IsPresent ((k, s) ∷ m)) ks
unfolding get
All-IsPresent-cons k s m [] a = tt
All-IsPresent-cons k s m (j ∷ ks) a = (
  elim (Bool-cases (service_port_eq k j)) [
    | inl b ↦ (s, if_true _ _ b)
    | inr b ↦ (a.0.0, if_false _ _ b ∙ a.0.1)
  ],
  All-IsPresent-cons k s m ks a.1,
)

stopped-IsPresent : (m : Syncers) → All (IsPresent m) (stopped_syncer_keys m)
unfolding stopped_syncer_keys get
stopped-IsPresent [] = tt
stopped-IsPresent ((k, s) ∷ m) =
    let rest = All-IsPresent-cons k s m (stopped_syncer_keys m) (stopped-IsPresent m) in
    if-cases s.stopped (k ∷ stopped_syncer_keys m) (stopped_syncer_keys m)
      (All (IsPresent ((k, s) ∷ m)))
      (λ _. ((s, if_true _ _ ((service_port_eq_iff k k).1 refl)), rest)) (λ _. rest)

apart_from :
    (k : ServicePort) (m : Syncers) (ks : List ServicePort)
    → get k m ≡ none
    → All (IsPresent m) ks
    → All (λ j. service_port_eq k j ≡ false) ks
apart_from k m [] e a = tt
apart_from k m (j ∷ ks) e a = (
  elim (Bool-cases (service_port_eq k j)) [
    | inl b ↦ absurd (cc (subst (λ x. get x m ≡ none) ((service_port_eq_iff k j).0 b) e, a.0.1))
    | inr b ↦ b
  ],
  apart_from k m ks e a.1,
)

stopped-NoDup : (m : Syncers) → Distinct m → NoDup (stopped_syncer_keys m)
unfolding stopped_syncer_keys
stopped-NoDup [] d = tt
stopped-NoDup ((k, s) ∷ m) d =
    let rest = stopped-NoDup m d.1 in
    if-cases s.stopped (k ∷ stopped_syncer_keys m) (stopped_syncer_keys m) NoDup
      (λ _. (apart_from k m (stopped_syncer_keys m) d.0 (stopped-IsPresent m), rest)) (λ _. rest)

remove-IsPresent :
    (k : ServicePort) (m : Syncers) (ks : List ServicePort)
    → All (λ j. service_port_eq k j ≡ false) ks
    → All (IsPresent m) ks
    → All (IsPresent (remove k m)) ks
remove-IsPresent k m [] ne a = tt
remove-IsPresent k m (j ∷ ks) ne a =
    ((a.0.0, get-remove k j m ∙ (if_false _ _ ne.0 ∙ a.0.1)), remove-IsPresent k m ks ne.1 a.1)

garbage_collect_syncers-Works :
    (ks : List ServicePort) (m : Syncers)
    → Managed m
    → NoDup ks
    → All (IsPresent m) ks
    → Works (garbage_collect_syncers ks m)
unfolding garbage_collect_syncers garbage_collect_syncer
garbage_collect_syncers-Works [] m h d a = (m, refl, h)
garbage_collect_syncers-Works (k ∷ ks) m h d a =
    let (s, e) = a.0 in
    elim (Bool-cases (s.stopped && not s.shutting_down)) [
      | inl b ↦
          rw (garbage_collect_syncer, e, b, ◌>>=◌)
            (garbage_collect_syncers-Works ks (remove k m)
              (remove-AllReach k m h.0, remove-Distinct k m h.1) d.1
              (remove-IsPresent k m ks d.0 a.1))
      | inr b ↦
          rw (garbage_collect_syncer, e, b, ◌>>=◌) (garbage_collect_syncers-Works ks m h d.1 a.1)
    ]

pub collected-Works :
    (m : Syncers) → Managed m → Works (garbage_collect_syncers (stopped_syncer_keys m) m)
collected-Works m h =
    garbage_collect_syncers-Works (stopped_syncer_keys m) m h (stopped-NoDup m h.1)
      (stopped-IsPresent m)
