-- ===== src/Backends/Sweep.antt =====
-- What GC deletes of the snapshot's ports.
use mathlib.Core.Option.{some-injective}
use ingress_gce.Base.{
  ℕ, ◌≡◌, ◌≢◌, ◌<◌, ◌^◌, refl, ap, sym, subst, ◌∙◌, true, false, ◌||◌, none, some, List, [], ◌∷◌,
  map, Str, itoa, Error, ok, Failure, All, Bool-cases, Option-cases, inl, inr, lt→ltb, if_true,
  if_false, if◌then◌else◌,
}
use ingress_gce.Base.Digits.{
  digits_value, all_digits, all_digits-of_All, itoa-IsDigit, itoa-ne-nil, value-itoa,
}
use ingress_gce.Base.Maps.{str_Eq}
use ingress_gce.Sets.{elem}
use ingress_gce.Namer.{Namer}
use ingress_gce.Backends.{port_key, parse_port, Parts, State}
use ingress_gce.Backends.Collect.{delete, collect_port, collect_keys}
use ingress_gce.Backends.Delete.{is_missing, done, kept, delete-Deletion}

parse_port-digits :
    (s : Str)
    → s ≢ []
    → all_digits s ≡ true
    → digits_value 0 s < 2 ^ 16
    → parse_port s ≡ ok (digits_value 0 s)
unfolding parse_port
parse_port-digits [] ne d h = absurd (ne refl)
parse_port-digits (c ∷ s) ne d h = rw (d, lt→ltb (digits_value 0 (c ∷ s)) (2 ^ 16) h) refl

-- A key is read back as the port that it was made of, if the port has 16 bits.
pub parse_port-port_key : (p : ℕ) → p < 2 ^ 16 → parse_port (port_key p) ≡ ok p
unfolding port_key
parse_port-port_key p h =
    subst (λ v. parse_port (itoa p) ≡ ok v) (value-itoa p)
      (parse_port-digits (itoa p) (itoa-ne-nil p) (all_digits-of_All (itoa p) (itoa-IsDigit p))
        (subst (λ v. v < 2 ^ 16) (sym (value-itoa p)) h))

-- the ports to delete, in their order
unfoldable pub stale : List Str → List Str → List ℕ → List ℕ
stale known ignored [] = []
stale known ignored (p ∷ ps) =
    let rest = stale known ignored ps in
    if elem known (port_key p) || elem ignored (port_key p) then rest else p ∷ rest

stale-known :
    (known ignored : List Str) (p : ℕ) (ps : List ℕ)
    → (elem known (port_key p) || elem ignored (port_key p)) ≡ true
    → stale known ignored (p ∷ ps) ≡ stale known ignored ps
unfolding stale
stale-known known ignored p ps b = if_true _ _ b

stale-stale :
    (known ignored : List Str) (p : ℕ) (ps : List ℕ)
    → (elem known (port_key p) || elem ignored (port_key p)) ≡ false
    → stale known ignored (p ∷ ps) ≡ p ∷ stale known ignored ps
unfolding stale
stale-stale known ignored p ps b = if_false _ _ b

module _ {World : Type 0} (B : Parts World) (n : Namer) where
  collect_port-known :
      (known ignored : List Str) (p : ℕ) (s : State World)
      → (elem known (port_key p) || elem ignored (port_key p)) ≡ true
      → collect_port B n known ignored p s ≡ (none, s)
  unfolding collect_port
  collect_port-known known ignored p s b = if_true _ _ b

  collect_port-stale :
      (known ignored : List Str) (p : ℕ) (s : State World)
      → (elem known (port_key p) || elem ignored (port_key p)) ≡ false
      → collect_port B n known ignored p s ≡ delete B n p s
  unfolding collect_port
  collect_port-stale known ignored p s b = if_false _ _ b

  -- the deletions one after the other, up to the first error
  unfoldable pub delete_each : List ℕ → State World → Failure × State World
  delete_each [] s = (none, s)
  delete_each (p ∷ ps) s =
      let first = delete B n p s in
      let rest = delete_each ps first.1 in elim first.0 [ none ↦ rest | some e ↦ first ]

  -- The error that GC looks for is never one of a deletion.
  not_missing :
      (p : ℕ) (s : State World) (e : Error) → (delete B n p s).0 ≡ some e → is_missing e ≡ false
  not_missing p s e h = elim (delete-Deletion B n p s) [
    | done fine gone ↦ absurd (cc (fine, h))
    | kept x hit other same ↦
        subst (λ y. is_missing y ≡ false) (some-injective x e (sym hit ∙ h)) other
  ]

  -- For the keys of ports of 16 bits, the loop of GC is this: the deletions of the ports that are neither
  -- known nor ignored, in the order of the keys, up to the first error.
  pub collect_keys-delete_each :
      (known ignored : List Str) (ps : List ℕ) (s : State World)
      → All (λ p. p < 2 ^ 16) ps
      → collect_keys B n known ignored (map port_key ps) s ≡ delete_each (stale known ignored ps) s
  unfolding collect_keys delete_each
  collect_keys-delete_each known ignored [] s small = unfold stale in refl
  collect_keys-delete_each known ignored (p ∷ ps) s small =
      let ih = λ (t : State World). collect_keys-delete_each known ignored ps t small.1 in
      elim (Bool-cases (elem known (port_key p) || elem ignored (port_key p))) [
        | inl b ↦
            rw
              (
                collect_keys,
                parse_port-port_key p small.0,
                collect_port-known known ignored p s b,
                collect_port-known known ignored p s b,
                stale-known known ignored p ps b,
              )
              (ih s)
        | inr b ↦ elim (Option-cases (delete B n p s).0) [
          | inl e ↦
              rw
                (
                  collect_keys,
                  parse_port-port_key p small.0,
                  collect_port-stale known ignored p s b,
                  e,
                  collect_port-stale known ignored p s b,
                  stale-stale known ignored p ps b,
                  delete_each,
                  e,
                )
                (ih (delete B n p s).1)
          | inr (x, e) ↦
              rw
                (
                  collect_keys,
                  parse_port-port_key p small.0,
                  collect_port-stale known ignored p s b,
                  e,
                  not_missing p s x e,
                  collect_port-stale known ignored p s b,
                  stale-stale known ignored p ps b,
                  delete_each,
                  e,
                )
                (ap (λ f. (f, (delete B n p s).1)) (sym e))
        ]
      ]
