-- ===== src/Sets/Members.antt =====
-- The members of a set that was made of a list.
use ingress_gce.Base.{◌≡◌, sym, ◌∙◌, true, List, [], ◌∷◌, Str, arith}
use ingress_gce.Sets.{StringSets, elem, new_string}

module _ (S : StringSets) where
  pub new_string-has : (xs : List Str) (k : Str) → S.has (new_string S xs) k ≡ elem xs k
  unfolding new_string elem
  new_string-has [] k = S.has-empty k
  new_string-has (x ∷ xs) k =
      ground (arith, S.has-insert (new_string S xs) x k, new_string-has xs k)

  pub same_elements :
      (xs ys : List Str)
      → S.equal (new_string S xs) (new_string S ys) ≡ true
      → (k : Str) → elem ys k ≡ elem xs k
  same_elements xs ys h k =
      sym (new_string-has ys k)
      ∙ (sym ((S.equal_iff (new_string S xs) (new_string S ys)).0 h k) ∙ new_string-has xs k)
