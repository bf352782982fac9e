-- ===== src/Base/Outcome.antt =====
-- Go's pair of a value and an error, and the errors that the program tells apart.
use Prim.Native.Nat.{ℕ}
use mathlib.Core.Path.{◌≡◌, refl, ap}
use mathlib.Core.Logic.{◌⊎◌, inl, inr}
use mathlib.Core.List.{List, [], ◌∷◌}
use mathlib.Core.Option.{Option, none, some}

-- `api` is a googleapi.Error with its HTTP code and message, `aggregate` an error that wraps others
-- as text, `plain` any other error by its message.
mutual
  pub data Error : Type 0 where
    api : ℕ → List ℕ → Error
    plain : List ℕ → Error
    aggregate : Errors → Error

  pub data Errors : Type 0 where
    end : Errors
    more : Error → Errors → Errors

unfoldable pub wrap : List Error → Errors
wrap [] = end
wrap (e ∷ es) = more e (wrap es)

-- `panic` stands for a run of the Go program that panics.
pub data Result {ℓ} (A : Type ℓ) : Type ℓ where
  ok : A → Result A
  err : Error → Result A
  panic : Result A

-- Go's `error`: nothing, or an error.
abbrev pub Failure : Type 0
Failure = Option Error

infixl 5 ◌>>=◌ ◌>>◌
abbrev pub ◌>>=◌ {ℓ κ} : {A : Type ℓ} {B : Type κ} → Result A → (A → Result B) → Result B
ok a >>= f = f a
err e >>= f = err e
panic >>= f = panic

abbrev pub ◌>>◌ {ℓ} : {B : Type ℓ} → Result (Unit {0}) → Result B → Result B
m >> k = m >>= λ _. k

-- utilerrors.NewAggregate: no error for an empty list
abbrev pub new_aggregate : List Error → Failure
new_aggregate [] = none
new_aggregate (e ∷ es) = some (aggregate (wrap (e ∷ es)))

-- Inversion of a successful chain.
pub >>=-eq-ok {ℓ κ} :
    {A : Type ℓ} {B : Type κ} (m : Result A) (f : A → Result B) (b : B)
    → (m >>= f) ≡ ok b
    → (a : A) × (m ≡ ok a) × (f a ≡ ok b)
>>=-eq-ok (ok a) f b h = (a, refl, h)
>>=-eq-ok (err e) f b h = cc
>>=-eq-ok panic f b h = cc

ok_or {ℓ} : {A : Type ℓ} → A → Result A → A
ok_or d (ok a) = a
ok_or d (err e) = d
ok_or d panic = d

pub ok-injective {ℓ} : {A : Type ℓ} (a b : A) → ok a ≡ ok b → a ≡ b
unfolding ok_or
ok-injective a b h = ap (ok_or a) h

err_or {ℓ} : {A : Type ℓ} → Error → Result A → Error
err_or d (ok a) = d
err_or d (err e) = e
err_or d panic = d

pub err-injective {ℓ} : {A : Type ℓ} (d e : Error) → ◌≡◌ {A = Result A} (err d) (err e) → d ≡ e
unfolding err_or
err-injective d e h = ap (err_or d) h

pub Result-cases {ℓ} :
    {A : Type ℓ} (r : Result A) → ((a : A) × (r ≡ ok a)) ⊎ ((e : Error) × (r ≡ err e)) ⊎ (r ≡ panic)
Result-cases (ok a) = inl (a, refl)
Result-cases (err e) = inr (inl (e, refl))
Result-cases panic = inr (inr refl)
