-- ===== src/Sets/Listed.antt =====
-- The interface of sets met by lists without repetition: its laws can hold.
use ingress_gce.Base.{
  str_eq_refl, ◌==◌, ◌↔◌, ◌∙◌, true, Bool, ◌≡◌, refl, ap, subst, false, not, ◌&&◌, ◌||◌, Option,
  none, some, List, [], ◌∷◌, Str, str_eq, str_eq_iff, length, if◌then◌else◌, arith, Bool-cases, inl,
  inr,
}
use ingress_gce.Sets.{elem, StringSets}

-- each string once
abbrev pub Distinct : List Str → Type 0
Distinct [] = Unit
Distinct (x ∷ xs) = (elem xs x ≡ false) × Distinct xs

pub record ListSet : Type 0 where
  pub items : List Str
  pub distinct : Distinct items

pub without : Str → List Str → List Str
without x [] = []
without x (y ∷ ys) = let rest = without x ys in if str_eq x y then rest else y ∷ rest

pub elem-without :
    (x k : Str) (ys : List Str) → elem (without x ys) k ≡ (not (str_eq x k) && elem ys k)
unfolding elem without
elem-without x k [] = ground arith
elem-without x k (y ∷ ys) =
    ground (arith, elem-without x k ys, str_eq_iff x k, str_eq_iff x y, str_eq_iff y k)

pub without-Distinct : (x : Str) (ys : List Str) → Distinct ys → Distinct (without x ys)
unfolding without
without-Distinct x [] d = tt
without-Distinct x (y ∷ ys) d = ground (arith, elem-without x y ys, without-Distinct x ys d.1)

-- the items of the first list that the second does not hold
pub minus : List Str → List Str → List Str
minus [] ys = []
minus (x ∷ xs) ys = let rest = minus xs ys in if elem ys x then rest else x ∷ rest

pub elem-minus :
    (xs ys : List Str) (k : Str) → elem (minus xs ys) k ≡ (elem xs k && not (elem ys k))
unfolding minus elem
elem-minus [] ys k = refl
elem-minus (x ∷ xs) ys k = elim (Bool-cases (str_eq x k)) [
  | inl e ↦ ground (arith, elem-minus xs ys k, ap (elem ys) ((str_eq_iff x k).0 e))
  | inr e ↦ ground (arith, elem-minus xs ys k)
]

pub minus-Distinct : (xs ys : List Str) → Distinct xs → Distinct (minus xs ys)
unfolding minus
minus-Distinct [] ys d = tt
minus-Distinct (x ∷ xs) ys d = ground (arith, elem-minus xs ys x, minus-Distinct xs ys d.1)

pub add : Str → List Str → List Str
add x xs = if elem xs x then xs else x ∷ xs

pub elem-add : (x k : Str) (xs : List Str) → elem (add x xs) k ≡ (str_eq x k || elem xs k)
unfolding add elem
elem-add x k xs = elim (Bool-cases (str_eq x k)) [
  | inl e ↦ ground (arith, ap (elem xs) ((str_eq_iff x k).0 e))
  | inr e ↦ ground arith
]

pub add-Distinct : (x : Str) (xs : List Str) → Distinct xs → Distinct (add x xs)
unfolding add
add-Distinct x xs d = ground arith

pub pop_items : (xs : List Str) → Distinct xs → Option (Str × ListSet)
pop_items [] d = none
pop_items (x ∷ xs) d = some (x, record { items = xs; distinct = d.1 })

pub pop_items-none : (xs : List Str) (d : Distinct xs) → pop_items xs d ≡ none → length xs ≡ 0
unfolding pop_items
pop_items-none [] d h = refl
pop_items-none (x ∷ xs) d h = cc

first_or : Str → Option (Str × ListSet) → Str
first_or y none = y
first_or y (some p) = p.0

rest_or : List Str → Option (Str × ListSet) → List Str
rest_or ys none = ys
rest_or ys (some p) = p.1.items

-- What is popped is the head, and what is left is the tail, which does not hold it.
pub record Popped (xs : List Str) (x : Str) (t : ListSet) : Type 0 where
  pub form : xs ≡ x ∷ t.items
  pub gone : elem t.items x ≡ false

pub pop_items-some :
    (xs : List Str) (d : Distinct xs) (t : ListSet) (x : Str)
    → pop_items xs d ≡ some (x, t)
    → Popped xs x t
unfolding pop_items first_or rest_or
pop_items-some [] d t x h = cc
pop_items-some (y ∷ ys) d t x h =
    let e : y ≡ x = ap (first_or y) h in
    let r : ys ≡ t.items = ap (rest_or ys) h in
    record {
      form = cc (e, r);
      gone = subst (λ zs. elem zs x ≡ false) r (subst (λ z. elem ys z ≡ false) e d.0);
    }

pub same_items : List Str → List Str → Bool
same_items xs ys = length (minus xs ys) == 0 && length (minus ys xs) == 0

nil_of_length : (xs : List Str) → (length xs == 0) ≡ true → xs ≡ []
nil_of_length [] h = refl
nil_of_length (x ∷ xs) h = absurd (ground arith)

length_nil : (xs : List Str) → ((k : Str) → elem xs k ≡ false) → (length xs == 0) ≡ true
unfolding elem
length_nil [] h = refl
length_nil (x ∷ xs) h = absurd (ground (arith, h x, str_eq_refl x))

covers :
    (xs ys : List Str) (k : Str)
    → (length (minus xs ys) == 0) ≡ true
    → elem xs k ≡ true
    → elem ys k ≡ true
covers xs ys k h e =
    let gone : elem (minus xs ys) k ≡ false =
      ap (λ zs. elem zs k) (nil_of_length (minus xs ys) h) ∙ (unfold elem in refl) in
    ground (arith, elem-minus xs ys k, gone, e)

pub same_items_iff :
    (xs ys : List Str) → (same_items xs ys ≡ true) ↔ ((k : Str) → elem xs k ≡ elem ys k)
unfolding same_items
same_items_iff xs ys = (
  λ h k.
      let l : (length (minus xs ys) == 0) ≡ true = ground (arith, h) in
      let r : (length (minus ys xs) == 0) ≡ true = ground (arith, h) in
      ground (arith, covers xs ys k l, covers ys xs k r),
  λ h. ground (
    arith,
    length_nil (minus xs ys) (λ k. ground (arith, elem-minus xs ys k, h k)),
    length_nil (minus ys xs) (λ k. ground (arith, elem-minus ys xs k, h k)),
  ),
)

unfoldable pub list_sets : StringSets
unfolding elem add minus without pop_items same_items
list_sets = record {
  Set = ListSet;
  empty = record { items = []; distinct = tt };
  has = λ s k. elem s.items k;
  insert = λ s x. record { items = add x s.items; distinct = add-Distinct x s.items s.distinct };
  delete =
      λ s x. record { items = without x s.items; distinct = without-Distinct x s.items s.distinct };
  difference = λ s t. record {
    items = minus s.items t.items;
    distinct = minus-Distinct s.items t.items s.distinct;
  };
  list = λ s. s.items;
  len = λ s. length s.items;
  pop_any = λ s. pop_items s.items s.distinct;
  equal = λ s t. same_items s.items t.items;
  has-empty = λ k. refl;
  has-insert = λ s x k. elem-add x k s.items;
  has-delete = λ s x k. elem-without x k s.items;
  has-difference = λ s t k. elem-minus s.items t.items k;
  elem-list = λ s k. refl;
  len-list = λ s. refl;
  pop_any-none = λ s h. pop_items-none s.items s.distinct h;
  pop_any-has = λ s t x h k. ap (λ xs. elem xs k) (pop_items-some s.items s.distinct t x h).form;
  pop_any-gone = λ s t x h. (pop_items-some s.items s.distinct t x h).gone;
  pop_any-len = λ s t x h. ap length (pop_items-some s.items s.distinct t x h).form;
  equal_iff = λ s t. same_items_iff s.items t.items;
}
