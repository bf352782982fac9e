-- ===== src/Trim/Sums.antt =====
-- The arithmetic of `trim_fields_evenly`: the cuts of the fields, rounded down, against the excess.
use native.Mathlib.Nat.{mul_comm, div-add-mod, mod-lt}
use ingress_gce.Base.{
  ℕ, ◌+◌, ◌-◌, ◌*◌, ◌/◌, ◌≤◌, ◌<◌, ◌≡◌, refl, ap, List, [], ◌∷◌, map, Str, length, All, arith,
}
use ingress_gce.Base.Int.{pos}
use ingress_gce.Trim.{total_length, trimmed_length, subtract_all}

-- len(s)*excess/total
abbrev pub cut : ℕ → ℕ → Str → ℕ
cut e t s = length s * e / t

abbrev pub keep : ℕ → ℕ → Str → ℕ
keep e t s = length s - cut e t s - 1

abbrev pub sum_cut : ℕ → ℕ → List Str → ℕ
sum_cut e t [] = 0
sum_cut e t (s ∷ fields) = cut e t s + sum_cut e t fields

abbrev pub sum : List ℕ → ℕ
sum [] = 0
sum (n ∷ ns) = n + sum ns

abbrev pub IsNonempty : Str → Type 0
IsNonempty s = 1 ≤ length s

pub div-mul-le : (n t : ℕ) → 0 < t → n / t * t ≤ n
div-mul-le n t h = omega (arith, div-add-mod n t, mul_comm t (n / t))

pub lt-div-mul : (n t : ℕ) → 0 < t → n + 1 ≤ (n / t + 1) * t
lt-div-mul n t h = omega (arith, div-add-mod n t, mod-lt n {m = t} h, mul_comm t (n / t))

pub cut-lt : (e t : ℕ) (s : Str) → IsNonempty s → e < t → cut e t s < length s
cut-lt e t s n h = grind (arith, div-mul-le (length s * e) t)

sum_cut_upper :
    (e t : ℕ) (fields : List Str) → 0 < t → sum_cut e t fields * t ≤ total_length fields * e
unfolding total_length
sum_cut_upper e t [] h = omega arith
sum_cut_upper e t (s ∷ fields) h =
    omega (arith, div-mul-le (length s * e) t h, sum_cut_upper e t fields h)

sum_cut_lower :
    (e t : ℕ) (fields : List Str)
    → 0 < t
    → total_length fields * e + length fields ≤ (sum_cut e t fields + length fields) * t
unfolding total_length
sum_cut_lower e t [] h = omega arith
sum_cut_lower e t (s ∷ fields) h =
    omega (arith, lt-div-mul (length s * e) t h, sum_cut_lower e t fields h)

unfoldable pub keeps : ℕ → ℕ → List Str → List ℕ
keeps e t [] = []
keeps e t (s ∷ fields) = keep e t s ∷ keeps e t fields

-- Over fields that are not empty no length is negative.
pub lengths-eq :
    (e t : ℕ) (fields : List Str)
    → All IsNonempty fields
    → e < t
    → map (trimmed_length e t) fields ≡ map pos (keeps e t fields)
unfolding keeps trimmed_length
lengths-eq e t [] n h = refl
lengths-eq e t (s ∷ fields) n h = ground (arith, cut-lt e t s n.0 h, lengths-eq e t fields n.1 h)

pub sum-keeps :
    (e t : ℕ) (fields : List Str)
    → All IsNonempty fields
    → e < t
    → sum (keeps e t fields) + sum_cut e t fields + length fields ≡ total_length fields
unfolding keeps total_length
sum-keeps e t [] n h = omega arith
sum-keeps e t (s ∷ fields) n h = omega (arith, cut-lt e t s n.0 h, sum-keeps e t fields n.1 h)

pub subtract_all-pos :
    (r : ℕ) (ns : List ℕ) → sum ns ≤ r → subtract_all (pos r) (map pos ns) ≡ pos (r - sum ns)
unfolding subtract_all
subtract_all-pos r [] h = ap pos {x = r} {y = r - 0} (omega arith)
subtract_all-pos r (n ∷ ns) h = ground (arith, subtract_all-pos (r - n) ns)

le-of-mul-le : (a b t : ℕ) → 0 < t → a * t ≤ t * b → a ≤ b
le-of-mul-le a b t p h = grind arith

lt-of-mul-lt : (b a t : ℕ) → t * b < a * t → b < a
lt-of-mul-lt b a t h = grind arith

-- What is left to hand out: at least one byte, and at most one for each field.
pub sum_cut_bounds :
    (m : ℕ) (fields : List Str)
    → 1 ≤ length fields
    → m < total_length fields
    → (sum_cut (total_length fields - m) (total_length fields) fields ≤ total_length fields - m)
      × (total_length fields - m
          < sum_cut (total_length fields - m) (total_length fields) fields + length fields)
sum_cut_bounds m fields n h =
    let t = total_length fields in
    let e = t - m in
    let sc = sum_cut e t fields in
    (
      le-of-mul-le sc e t (omega arith) (sum_cut_upper e t fields (omega arith)),
      lt-of-mul-lt e (sc + length fields) t (omega (arith, sum_cut_lower e t fields (omega arith))),
    )
