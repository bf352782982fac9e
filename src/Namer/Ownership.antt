-- ===== src/Namer/Ownership.antt =====
-- Which names carry the cluster's UID: SetUID, NameBelongsToCluster and the names of the cluster.
use ingress_gce.Base.{
  ℕ, ◌+◌, ◌^◌, ◌≤◌, ◌<◌, ◌≡◌, ◌≢◌, ◌⊎◌, ◌↔◌, refl, ap, true, Bool-cases, inl, inr, List, [], ◌∷◌,
  ◌++◌, Str, codes, str_eq, str_eq_iff, has_prefix, has_prefix-append, contains, split, itoa,
  length, length-append, All, if◌then◌else◌, ◌∙◌, arith,
}
use ingress_gce.Base.Split.{
  IsFree, is_safe, split-of_free, split-join, last_of-split_IsFree, is_safe-IsFree,
  has_prefix_trans,
}
use ingress_gce.Base.Digits.{IsDigit, itoa-IsDigit, itoa-ne-nil, is_safe-digits}
use ingress_gce.Namer.{
  Namer, set_uid, uid, decorate_name, name_belongs_to_cluster, parts_belong, backend,
}
use ingress_gce.Namer.Bounds.{truncate-short, length-itoa}

-- Whatever name SetUID is given, the UID that it keeps holds no delimiter.
pub set_uid-IsFree : (name : Str) (n : Namer) → IsFree (codes "--") (uid (set_uid name n))
unfolding set_uid uid
set_uid-IsFree name n = elim (Bool-cases (contains (codes "--") name)) [
  | inl e ↦ rw e (last_of-split_IsFree b'-' (codes "-") name)
  | inr e ↦ rw (e, if◌then◌else◌) e
]

parts_belong-two : (t u c : Str) → (parts_belong c (t ∷ u ∷ []) ≡ true) ↔ (c ≡ u)
unfolding parts_belong
parts_belong-two t u c = let (there, back) = str_eq_iff u c in (λ h. cc (there h), λ h. back (cc h))

parts_belong-one : (t c : Str) → (parts_belong c (t ∷ []) ≡ true) ↔ (c ≡ [])
unfolding parts_belong
parts_belong-one t c = str_eq_iff c []

abbrev pub Owned : Namer → Str → Type 0
Owned n name = name_belongs_to_cluster n name ≡ true

Owned-of_parts :
    (m : Namer) (name : Str) (parts : List Str)
    → has_prefix (codes "k8s-") name ≡ true
    → split name (codes "--") ≡ parts
    → Owned m name ↔ (parts_belong (uid m) parts ≡ true)
unfolding name_belongs_to_cluster
Owned-of_parts m name parts p e = rw (e, p) ((λ h. h), (λ h. h))

decorate_cases :
    (n : Namer) (name : Str)
    → length name + length (uid n) ≤ 60
    → ((uid n ≡ []) × (decorate_name n name ≡ name))
      ⊎ (decorate_name n name ≡ name ++ (codes "--" ++ uid n))
unfolding decorate_name
decorate_cases n name room = elim (Bool-cases (str_eq n.cluster_name [])) [
  | inl e ↦ inl ((str_eq_iff n.cluster_name []).0 e, rw e)
  | inr e ↦ inr (
      rw e (
        truncate-short (name ++ (codes "--" ++ n.cluster_name))
          (omega (arith, length-append name (codes "--" ++ n.cluster_name)))))
]

split-decorated :
    (name u : Str)
    → is_safe b'-' name ≡ true
    → IsFree (codes "--") u
    → split (name ++ (codes "--" ++ u)) (codes "--") ≡ name ∷ u ∷ []
unfolding split
split-decorated name u safe free =
    split-join b'-' name u safe ∙ ap (λ ts. name ∷ ts) (split-of_free (codes "--") u free)

iff_trans : {A B C : Type 0} → A ↔ B → B ↔ C → A ↔ C
iff_trans e f = (λ a. f.0 (e.0 a), λ c. e.1 (f.1 c))

prefix-kept :
    (name rest : Str)
    → has_prefix (codes "k8s-") name ≡ true
    → has_prefix (codes "k8s-") (name ++ rest) ≡ true
prefix-kept name rest h =
    has_prefix_trans (codes "k8s-") name (name ++ rest) h (has_prefix-append name rest)

-- A decorated name that is not cut belongs to exactly the clusters with the same UID.
pub decorate-Owned_iff :
    (m n : Namer) (name : Str)
    → has_prefix (codes "k8s-") name ≡ true
    → is_safe b'-' name ≡ true
    → IsFree (codes "--") (uid n)
    → length name + length (uid n) ≤ 60
    → Owned m (decorate_name n name) ↔ (uid m ≡ uid n)
decorate-Owned_iff m n name p safe free room = elim (decorate_cases n name room) [
  | inl (none_set, plain) ↦
      rw (plain, none_set)
        (iff_trans
          (Owned-of_parts m name (name ∷ []) p
            (unfold split in split-of_free (codes "--") name (is_safe-IsFree b'-' name safe)))
          (parts_belong-one name (uid m)))
  | inr decorated ↦ rw decorated (
      iff_trans
        (Owned-of_parts m (name ++ (codes "--" ++ uid n)) (name ∷ uid n ∷ [])
          (prefix-kept name (codes "--" ++ uid n) p) (split-decorated name (uid n) safe free))
        (parts_belong-two name (uid n) (uid m)))
]

is_safe-backend : (s : Str) → All IsDigit s → s ≢ [] → is_safe b'-' (codes "k8s-be-" ++ s) ≡ true
unfolding is_safe
is_safe-backend [] h n = absurd (n refl)
is_safe-backend (c ∷ s) h n = ground (arith, is_safe-digits b'-' (c ∷ s) refl h)

-- Every backend name of a cluster is recognised as that cluster's, and as no other's, if the UID has
-- at most 34 bytes.
pub backend-Owned_iff :
    (m n : Namer) (port : ℕ)
    → port < 2 ^ 63
    → IsFree (codes "--") (uid n)
    → length (uid n) ≤ 34
    → Owned m (backend n port) ↔ (uid m ≡ uid n)
unfolding backend
backend-Owned_iff m n port h free room =
    decorate-Owned_iff m n (codes "k8s-be-" ++ itoa port) (unfold has_prefix in refl)
      (is_safe-backend (itoa port) (itoa-IsDigit port) (itoa-ne-nil port)) free
      (omega (arith, length-itoa port h))
