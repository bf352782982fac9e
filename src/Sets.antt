-- ===== src/Sets.antt =====
-- The sets of strings of k8s.io/apimachinery (sets.String), which the program only calls: an interface
-- of operations with their documented behaviour. PopAny may give any item.
pub mod Listed
pub mod Members
use mathlib.Core.Logic.{◌↔◌}
use ingress_gce.Base.{
  ℕ, zero, suc, ◌≡◌, Bool, true, false, not, ◌&&◌, ◌||◌, Option, none, some, List, [], ◌∷◌, Str,
  str_eq, length,
}

-- Whether a list holds a string.
unfoldable pub elem : List Str → Str → Bool
elem [] k = false
elem (x ∷ xs) k = str_eq x k || elem xs k

pub record StringSets : Type 1 where
  pub Set : Type 0
  pub empty : Set
  pub has : Set → Str → Bool
  pub insert : Set → Str → Set
  pub delete : Set → Str → Set
  pub difference : Set → Set → Set
  pub list : Set → List Str
  pub len : Set → ℕ
  pub pop_any : Set → Option (Str × Set)
  pub equal : Set → Set → Bool
  pub has-empty : (k : Str) → has empty k ≡ false
  pub has-insert : (s : Set) (x k : Str) → has (insert s x) k ≡ (str_eq x k || has s k)
  pub has-delete : (s : Set) (x k : Str) → has (delete s x) k ≡ (not (str_eq x k) && has s k)
  pub has-difference : (s t : Set) (k : Str) → has (difference s t) k ≡ (has s k && not (has t k))
  pub elem-list : (s : Set) (k : Str) → elem (list s) k ≡ has s k
  pub len-list : (s : Set) → len s ≡ length (list s)
  pub pop_any-none : (s : Set) → pop_any s ≡ none → len s ≡ 0
  pub pop_any-has :
      (s t : Set) (x : Str)
      → pop_any s ≡ some (x, t)
      → (k : Str) → has s k ≡ (str_eq x k || has t k)
  pub pop_any-gone : (s t : Set) (x : Str) → pop_any s ≡ some (x, t) → has t x ≡ false
  pub pop_any-len : (s t : Set) (x : Str) → pop_any s ≡ some (x, t) → len s ≡ suc (len t)
  pub equal_iff : (s t : Set) → (equal s t ≡ true) ↔ ((k : Str) → has s k ≡ has t k)

module _ (S : StringSets) where
  open S use {Set, empty, insert}

  -- sets.NewString(items...)
  unfoldable pub new_string : List Str → Set
  new_string [] = empty
  new_string (x ∷ xs) = insert (new_string xs) x
