-- ===== src/Base/Digits.antt =====
-- Laws of the decimal text of a number: `itoa`, and its value read back.
use Prim.Native.Nat.{ℕ, zero, suc, ◌+◌, ◌-◌, ◌*◌, ◌/◌, ◌%◌, ◌^◌, ◌<◌}
use mathlib.Core.Path.{◌≡◌, refl, ap, ◌∙◌}
use mathlib.Core.Logic.{◌≢◌}
use mathlib.Core.Bool.{Bool, true, false, not, ◌&&◌}
use mathlib.Core.List.{[], ◌∷◌}
use native.Mathlib.Omega.{arith}
use native.Mathlib.Decide.{dec_lt}
use ingress_gce.Base.Tests.{lt→ltb, le→ltb, ◌==◌, leb, ltb, if◌then◌else◌}
use ingress_gce.Base.Lists.{All}
use ingress_gce.Base.Text.{Str, to_digits, itoa}
use ingress_gce.Base.Split.{is_safe}
use ingress_gce.Base.Int.{ℤ, pos, sub_ℕ}

abbrev pub is_digit : ℕ → Bool
is_digit c = leb 48 c && leb c 57

-- the value of a string of digits, as strconv.Atoi computes it
unfoldable pub digits_value : ℕ → Str → ℕ
digits_value v [] = v
digits_value v (c ∷ s) = digits_value (v * 10 + (c - 48)) s

abbrev pub IsDigit : ℕ → Type 0
IsDigit c = is_digit c ≡ true

to_digits-IsDigit : (f n : ℕ) (acc : Str) → All IsDigit acc → All IsDigit (to_digits f n acc)
unfolding to_digits
to_digits-IsDigit zero n acc h = h
to_digits-IsDigit (suc f) n acc h =
    ground (arith, to_digits-IsDigit f (n / 10) ((48 + n % 10) ∷ acc))

pub itoa-IsDigit : (n : ℕ) → All IsDigit (itoa n)
unfolding itoa
itoa-IsDigit n = to_digits-IsDigit (suc n) n [] tt

to_digits-ne-nil : (f n : ℕ) (acc : Str) → acc ≢ [] → to_digits f n acc ≢ []
unfolding to_digits
to_digits-ne-nil zero n acc h = h
to_digits-ne-nil (suc f) n acc h = ground (arith, to_digits-ne-nil f (n / 10) ((48 + n % 10) ∷ acc))

pub itoa-ne-nil : (n : ℕ) → itoa n ≢ []
unfolding itoa to_digits
itoa-ne-nil n = ground (arith, to_digits-ne-nil n (n / 10) ((48 + n % 10) ∷ []))

value-to_digits :
    (f n : ℕ) (acc : Str) → n < f → digits_value 0 (to_digits f n acc) ≡ digits_value n acc
unfolding to_digits digits_value
value-to_digits zero n acc h = absurd (omega arith)
value-to_digits (suc f) n acc h = elim (dec_lt n 10) [
  | yes p ↦ rw (lt→ltb n 10 p) (ap (λ v. digits_value v acc) (omega arith))
  | no p ↦ rw (le→ltb n 10 (omega arith)) (
      value-to_digits f (n / 10) ((48 + n % 10) ∷ acc) (omega arith)
      ∙ ap (λ v. digits_value v acc) (omega arith))
]

-- Atoi undoes Itoa.
pub value-itoa : (n : ℕ) → digits_value 0 (itoa n) ≡ n
unfolding itoa digits_value
value-itoa n = value-to_digits (suc n) n [] (omega arith)

-- A text of digits is safe for any byte that is no digit.
pub is_safe-digits : (d : ℕ) (s : Str) → is_digit d ≡ false → All IsDigit s → is_safe d s ≡ true
unfolding is_safe
is_safe-digits d [] n h = refl
is_safe-digits d (c ∷ []) n h = ground arith
is_safe-digits d (c ∷ e ∷ s) n h = ground (arith, is_safe-digits d (e ∷ s) n h.1)

unfoldable pub all_digits : Str → Bool
all_digits [] = true
all_digits (c ∷ s) = is_digit c && all_digits s

atoi_value : Bool → Str → ℤ × Bool
atoi_value negative [] = (pos 0, false)
atoi_value negative (c ∷ s) =
    let v = digits_value 0 (c ∷ s) in
    if not (all_digits (c ∷ s))
    then (pos 0, false)
    else if negative
    then if ltb (2 ^ 63) v then (sub_ℕ 0 (2 ^ 63), false) else (sub_ℕ 0 v, true)
    else if ltb v (2 ^ 63)
    then (pos v, true)
    else (pos (2 ^ 63 - 1), false)

-- strconv.Atoi: the value, which is 0 or the nearest 64-bit int where there is an error, and whether
-- there is none.
unfoldable pub atoi : Str → ℤ × Bool
unfolding atoi_value all_digits
atoi [] = (pos 0, false)
atoi (c ∷ s) =
    if c == b'-'
    then atoi_value true s
    else if c == b'+'
    then atoi_value false s
    else atoi_value false (c ∷ s)

pub all_digits-of_All : (s : Str) → All IsDigit s → all_digits s ≡ true
unfolding all_digits
all_digits-of_All [] h = refl
all_digits-of_All (c ∷ s) h = ground (arith, all_digits-of_All s h.1)

no_sign : (c : ℕ) → is_digit c ≡ true → ((c == b'-') ≡ false) × ((c == b'+') ≡ false)
no_sign c h = ground arith

atoi_value-digits :
    (c : ℕ) (s : Str) (n : ℕ)
    → All IsDigit (c ∷ s)
    → digits_value 0 (c ∷ s) ≡ n
    → n < 2 ^ 63
    → atoi_value false (c ∷ s) ≡ (pos n, true)
unfolding atoi_value
atoi_value-digits c s n h e b = rw (all_digits-of_All (c ∷ s) h, e, lt→ltb n (2 ^ 63) b)

atoi-digits :
    (s : Str) (n : ℕ)
    → All IsDigit s
    → s ≢ []
    → digits_value 0 s ≡ n
    → n < 2 ^ 63
    → atoi s ≡ (pos n, true)
unfolding atoi
atoi-digits [] n h ne e b = absurd (ne refl)
atoi-digits (c ∷ s) n h ne e b =
    let (minus, plus) = no_sign c h.0 in rw (atoi, minus, plus) (atoi_value-digits c s n h e b)

-- Atoi undoes Itoa on what an int holds.
pub atoi-itoa : (n : ℕ) → n < 2 ^ 63 → atoi (itoa n) ≡ (pos n, true)
atoi-itoa n h = atoi-digits (itoa n) n (itoa-IsDigit n) (itoa-ne-nil n) (value-itoa n) h
