-- ===== src/Base/Split.antt =====
-- Laws of `split`: its parts hold no separator, and it undoes a join.
use mathlib.Core.Path.{◌≡◌, refl, ap, ◌∙◌}
use mathlib.Core.Logic.{inl, inr}
use mathlib.Core.Bool.{Bool, true, false, not, ◌&&◌}
use mathlib.Core.List.{List, [], ◌∷◌, ◌++◌}
use Prim.Native.Nat.{ℕ, zero, suc, ◌-◌}
use native.Mathlib.Omega.{arith}
use ingress_gce.Base.Tests.{◌==◌, Bool-cases}
use ingress_gce.Base.Lists.{length, All}
use ingress_gce.Base.Text.{Str, has_prefix, contains, cons_head, split_from, split, last_of}

pub has_prefix_trans :
    (a b c : Str) → has_prefix a b ≡ true → has_prefix b c ≡ true → has_prefix a c ≡ true
unfolding has_prefix
has_prefix_trans [] b c p q = refl
has_prefix_trans (x ∷ a) [] c p q = cc
has_prefix_trans (x ∷ a) (y ∷ b) [] p q = cc
has_prefix_trans (x ∷ a) (y ∷ b) (z ∷ c) p q = ground (arith, has_prefix_trans a b c)

pub has_prefix-cons :
    (c : ℕ) (a s : Str) → has_prefix a s ≡ true → has_prefix (c ∷ a) (c ∷ s) ≡ true
unfolding has_prefix
has_prefix-cons c a s h = ground arith

split_from-hit :
    (sep : Str) (c : ℕ) (s : Str)
    → has_prefix sep (c ∷ s) ≡ true
    → split_from sep 0 (c ∷ s) ≡ [] ∷ split_from sep (length sep - 1) s
unfolding split_from
split_from-hit sep c s h = rw (h, split_from)

split_from-miss :
    (sep : Str) (c : ℕ) (s : Str)
    → has_prefix sep (c ∷ s) ≡ false
    → split_from sep 0 (c ∷ s) ≡ cons_head c (split_from sep 0 s)
unfolding split_from
split_from-miss sep c s h = rw (h, split_from)

contains-cons :
    (sep : Str) (c : ℕ) (s : Str)
    → has_prefix sep (c ∷ s) ≡ false
    → contains sep s ≡ false
    → contains sep (c ∷ s) ≡ false
unfolding contains
contains-cons sep c s p q = rw (p, q)

-- A prefix of a text without the separator in front has none in front.
has_prefix-false :
    (a b c : Str) → has_prefix b c ≡ true → has_prefix a c ≡ false → has_prefix a b ≡ false
has_prefix-false a b c p q = elim (Bool-cases (has_prefix a b)) [
  | inl e ↦ cc (has_prefix_trans a b c e p)
  | inr e ↦ e
]

-- The first part of a split is free of the separator, and a prefix of the text.
record FirstPart (sep s : Str) : Type 0 where
  head : Str
  rest : List Str
  parts : split_from sep 0 s ≡ head ∷ rest
  clean : contains sep head ≡ false
  starts : has_prefix head s ≡ true

first_part : (d : ℕ) (sep s : Str) → FirstPart (d ∷ sep) s
unfolding split_from contains has_prefix
first_part d sep [] = record { head = []; rest = []; parts = refl; clean = refl; starts = refl }
first_part d sep (c ∷ s) = elim (Bool-cases (has_prefix (d ∷ sep) (c ∷ s))) [
  | inl e ↦ record {
    head = [];
    rest = split_from (d ∷ sep) (length (d ∷ sep) - 1) s;
    parts = split_from-hit (d ∷ sep) c s e;
    clean = refl;
    starts = refl;
  }
  | inr e ↦
      let ih = first_part d sep s in
      let same = has_prefix-cons c ih.head s ih.starts in
      record {
        head = c ∷ ih.head;
        rest = ih.rest;
        parts = split_from-miss (d ∷ sep) c s e ∙ unfold cons_head in ap (cons_head c) ih.parts;
        clean =
            contains-cons (d ∷ sep) c ih.head
              (has_prefix-false (d ∷ sep) (c ∷ ih.head) (c ∷ s) same e) ih.clean;
        starts = same;
      }
]

abbrev pub IsFree : Str → Str → Type 0
IsFree sep t = contains sep t ≡ false

IsFree-head :
    (sep : Str) (c : ℕ) (s : Str) (f : FirstPart sep s)
    → has_prefix sep (c ∷ s) ≡ false
    → All (IsFree sep) (split_from sep 0 s)
    → All (IsFree sep) (cons_head c (split_from sep 0 s))
unfolding cons_head
IsFree-head sep c s f miss h = rw f.parts (
  contains-cons sep c f.head
      (has_prefix-false sep (c ∷ f.head) (c ∷ s) (has_prefix-cons c f.head s f.starts) miss)
      f.clean,
  (rw f.parts at h).1,
)

-- No part of a split holds the separator.
pub split_from-IsFree :
    (d : ℕ) (sep : Str) (k : ℕ) (s : Str) → All (IsFree (d ∷ sep)) (split_from (d ∷ sep) k s)
unfolding split_from
split_from-IsFree d sep k [] = (unfold contains has_prefix in refl, tt)
split_from-IsFree d sep (suc k) (c ∷ s) = split_from-IsFree d sep k s
split_from-IsFree d sep zero (c ∷ s) = elim (Bool-cases (has_prefix (d ∷ sep) (c ∷ s))) [
  | inl e ↦
      rw (split_from-hit (d ∷ sep) c s e)
        (unfold contains has_prefix in refl, split_from-IsFree d sep (length (d ∷ sep) - 1) s)
  | inr e ↦
      rw (split_from-miss (d ∷ sep) c s e)
        (IsFree-head (d ∷ sep) c s (first_part d sep s) e (split_from-IsFree d sep zero s))
]

last_of-IsFree :
    (d : ℕ) (sep : Str) (ts : List Str) → All (IsFree (d ∷ sep)) ts → IsFree (d ∷ sep) (last_of ts)
unfolding last_of
last_of-IsFree d sep [] h = unfold contains has_prefix in refl
last_of-IsFree d sep (t ∷ []) h = h.0
last_of-IsFree d sep (t ∷ u ∷ ts) h = last_of-IsFree d sep (u ∷ ts) h.1

pub last_of-split_IsFree : (d : ℕ) (sep s : Str) → IsFree (d ∷ sep) (last_of (split s (d ∷ sep)))
unfolding split
last_of-split_IsFree d sep s = last_of-IsFree d sep _ (split_from-IsFree d sep 0 s)

contains-head : (sep : Str) (c : ℕ) (s : Str) → has_prefix sep (c ∷ s) ≡ true → ¬ IsFree sep (c ∷ s)
unfolding contains
contains-head sep c s e h = cc (rw e at h)

contains-tail : (sep : Str) (c : ℕ) (s : Str) → IsFree sep (c ∷ s) → IsFree sep s
unfolding contains
contains-tail sep c s h = elim (Bool-cases (has_prefix sep (c ∷ s))) [
  | inl e ↦ cc (rw e at h)
  | inr e ↦ rw e at h
]

-- A text without the separator is its own only part.
pub split-of_free : (sep s : Str) → IsFree sep s → split_from sep 0 s ≡ s ∷ []
unfolding split_from contains cons_head
split-of_free sep [] h = refl
split-of_free sep (c ∷ s) h = elim (Bool-cases (has_prefix sep (c ∷ s))) [
  | inl e ↦ absurd (contains-head sep c s e h)
  | inr e ↦
      split_from-miss sep c s e ∙ ap (cons_head c) (split-of_free sep s (contains-tail sep c s h))
]

-- The byte `d` does not stand twice in a row, and not at the end.
unfoldable pub is_safe : ℕ → Str → Bool
is_safe d [] = true
is_safe d (c ∷ []) = not (c == d)
is_safe d (c ∷ e ∷ s) = not (c == d && e == d) && is_safe d (e ∷ s)

is_safe-tail : (d c : ℕ) (s : Str) → is_safe d (c ∷ s) ≡ true → is_safe d s ≡ true
unfolding is_safe
is_safe-tail d c [] h = refl
is_safe-tail d c (e ∷ s) h = ground arith

is_safe-head :
    (d c : ℕ) (s u : Str)
    → is_safe d (c ∷ s) ≡ true
    → has_prefix (d ∷ d ∷ []) (c ∷ s ++ (d ∷ d ∷ u)) ≡ false
unfolding is_safe has_prefix
is_safe-head d c [] u h = ground arith
is_safe-head d c (e ∷ s) u h = ground arith

has_prefix-twice : (d : ℕ) (u : Str) → has_prefix (d ∷ d ∷ []) (d ∷ d ∷ u) ≡ true
unfolding has_prefix
has_prefix-twice d u = ground arith

-- A separator of two equal bytes between two texts is found where it stands.
pub split-join :
    (d : ℕ) (s u : Str)
    → is_safe d s ≡ true
    → split_from (d ∷ d ∷ []) 0 (s ++ (d ∷ d ∷ u)) ≡ s ∷ split_from (d ∷ d ∷ []) 0 u
unfolding cons_head
split-join d [] u h =
    split_from-hit (d ∷ d ∷ []) d (d ∷ u) (has_prefix-twice d u) ∙ (unfold split_from in refl)
split-join d (c ∷ s) u h =
    split_from-miss (d ∷ d ∷ []) c (s ++ (d ∷ d ∷ u)) (is_safe-head d c s u h)
    ∙ ap (cons_head c) (split-join d s u (is_safe-tail d c s h))

has_prefix-safe :
    (d c : ℕ) (s : Str) → is_safe d (c ∷ s) ≡ true → has_prefix (d ∷ d ∷ []) (c ∷ s) ≡ false
unfolding is_safe has_prefix
has_prefix-safe d c [] h = ground arith
has_prefix-safe d c (e ∷ s) h = ground arith

pub is_safe-IsFree : (d : ℕ) (s : Str) → is_safe d s ≡ true → IsFree (d ∷ d ∷ []) s
unfolding contains
is_safe-IsFree d [] h = unfold has_prefix in refl
is_safe-IsFree d (c ∷ s) h = rw (has_prefix-safe d c s h, is_safe-IsFree d s (is_safe-tail d c s h))
