-- ===== src/Backends/Swept.antt =====
-- What deletions one after the other leave in the cloud and in the snapshot.
use ingress_gce.Base.{
  ℕ, ◌≡◌, refl, ap, sym, subst, ◌∙◌, true, false, none, List, [], ◌∷◌, map, Str, str_eq, str_eq_iff,
  arith, Bool-cases, Option-cases, inl, inr, if◌then◌else◌,
}
use ingress_gce.Base.Digits.{digits_value, value-itoa}
use ingress_gce.Base.Maps.{get as map_get, get-remove, str_Eq}
use ingress_gce.Sets.{elem}
use ingress_gce.Namer.{Namer, backend}
use ingress_gce.Backends.{port_key, Parts, State}
use ingress_gce.Backends.Collect.{delete}
use ingress_gce.Backends.Delete.{
  IsGone, DeleteLaws, done, kept, delete-Deletion, delete-elsewhere, delete-IsGone,
}
use ingress_gce.Backends.Sweep.{delete_each}

pub port_key-injective : (p q : ℕ) → port_key p ≡ port_key q → p ≡ q
unfolding port_key
port_key-injective p q e = sym (value-itoa p) ∙ (ap (digits_value 0) e ∙ value-itoa q)

module _ {World : Type 0} (B : Parts World) (n : Namer) where
  open B use {cloud}

  -- the names of the services
  abbrev pub names : List ℕ → List Str
  names ps = map (λ p. backend n p) ps

  pub delete_each-pool :
      (ps : List ℕ) (s : State World) (k : Str)
      → (delete_each B n ps s).0 ≡ none
      → map_get k (delete_each B n ps s).1.0
        ≡ (if elem (map port_key ps) k then none else map_get k s.0)
  unfolding delete_each elem
  delete_each-pool [] s k h = refl
  delete_each-pool (p ∷ ps) s k h = elim (delete-Deletion B n p s) [
    | done fine gone ↦
        let ih = delete_each-pool ps (delete B n p s).1 k (rw (delete_each, fine) at h) in
        rw (delete_each, fine)
          (ground (arith, ih, ap (map_get k) gone, get-remove (port_key p) k s.0))
    | kept e hit other same ↦ absurd (cc (hit, rw (delete_each, hit) at h))
  ]

  module _ (L : DeleteLaws B) where
    -- A service that is gone stays so.
    IsGone-delete :
        (p : ℕ) (name : Str) (s : State World)
        → (delete B n p s).0 ≡ none
        → IsGone B name s.1
        → IsGone B name (delete B n p s).1.1
    IsGone-delete p name s h (e, g, m) = elim (Bool-cases (str_eq (backend n p) name)) [
      | inl b ↦
          subst (λ k. IsGone B k (delete B n p s).1.1) ((str_eq_iff (backend n p) name).0 b)
            (delete-IsGone B n L p s h)
      | inr b ↦ (e, delete-elsewhere B n L p s name b ∙ g, m)
    ]

    -- what one more deletion makes of it
    IsGone-delete_each :
        (ps : List ℕ) (s : State World) (name : Str)
        → (delete_each B n ps s).0 ≡ none
        → IsGone B name s.1
        → IsGone B name (delete_each B n ps s).1.1
    unfolding delete_each
    IsGone-delete_each [] s name h g = g
    IsGone-delete_each (p ∷ ps) s name h g = elim (Option-cases (delete B n p s).0) [
      | inl e ↦
          rw (delete_each, e)
            (IsGone-delete_each ps (delete B n p s).1 name (rw (delete_each, e) at h)
              (IsGone-delete p name s e g))
      | inr (x, e) ↦ absurd (cc (e, rw (delete_each, e) at h))
    ]

    pub delete_each-deletes :
        (ps : List ℕ) (s : State World) (name : Str)
        → (delete_each B n ps s).0 ≡ none
        → elem (names ps) name ≡ true
        → IsGone B name (delete_each B n ps s).1.1
    unfolding delete_each elem
    delete_each-deletes [] s name h m = absurd (cc m)
    delete_each-deletes (p ∷ ps) s name h m = elim (Option-cases (delete B n p s).0) [
      | inl e ↦ elim (Bool-cases (str_eq (backend n p) name)) [
        | inl b ↦
            rw (delete_each, e)
              (IsGone-delete_each ps (delete B n p s).1 name (rw (delete_each, e) at h) (
                subst (λ k. IsGone B k (delete B n p s).1.1) ((str_eq_iff (backend n p) name).0 b)
                  (delete-IsGone B n L p s e)))
        | inr b ↦
            rw (delete_each, e)
              (delete_each-deletes ps (delete B n p s).1 name (rw (delete_each, e) at h)
                (ground (arith, m, b)))
      ]
      | inr (x, e) ↦ absurd (cc (e, rw (delete_each, e) at h))
    ]

    pub delete_each-elsewhere :
        (ps : List ℕ) (s : State World) (name : Str)
        → elem (names ps) name ≡ false
        → cloud.get_global_backend_service name (delete_each B n ps s).1.1
          ≡ cloud.get_global_backend_service name s.1
    unfolding delete_each elem
    delete_each-elsewhere [] s name m = refl
    delete_each-elsewhere (p ∷ ps) s name m =
        let first = delete-elsewhere B n L p s name (ground (arith, m)) in
        elim (Option-cases (delete B n p s).0) [
          | inl e ↦
              rw (delete_each, e)
                (delete_each-elsewhere ps (delete B n p s).1 name (ground (arith, m)) ∙ first)
          | inr (x, e) ↦ rw (delete_each, e) first
        ]
