-- ===== src/LoadBalancers/UrlMaps/Same.antt =====
-- What the comparison of two url maps tells.
use ingress_gce.Base.{
  ◌≡◌, ◌↔◌, refl, ap, ◌∙◌, Bool, true, List, [], ◌∷◌, Str, str_eq, str_eq_iff, str_eq_refl, arith,
}
use ingress_gce.Base.Maps.{str_Eq}
use ingress_gce.LoadBalancers.{HostRule, PathRule, PathMatcher, UrlMap}
use ingress_gce.LoadBalancers.UrlMaps.{
  lists_equal, host_rules_equal, path_rules_equal, path_matchers_equal, maps_equal,
}

lists_equal_eq :
    {A : Type 0} (same : A → A → Bool)
    → ((a b : A) → same a b ≡ true → a ≡ b)
    → (xs ys : List A) → lists_equal same xs ys ≡ true
    → xs ≡ ys
unfolding lists_equal
lists_equal_eq same eq [] [] h = refl
lists_equal_eq same eq [] (y ∷ ys) h = absurd (cc h)
lists_equal_eq same eq (x ∷ xs) [] h = absurd (cc h)
lists_equal_eq same eq (x ∷ xs) (y ∷ ys) h =
    let first = eq x y (ground (arith, h)) in
    let rest = lists_equal_eq same eq xs ys (ground (arith, h)) in
    ap (λ z. z ∷ xs) first ∙ ap (λ zs. y ∷ zs) rest

lists_equal_refl :
    {A : Type 0} (same : A → A → Bool)
    → ((a : A) → same a a ≡ true)
    → (xs : List A) → lists_equal same xs xs ≡ true
unfolding lists_equal
lists_equal_refl same r [] = refl
lists_equal_refl same r (x ∷ xs) = rw (r x, lists_equal_refl same r xs) refl

str_eq_eq : (a b : Str) → str_eq a b ≡ true → a ≡ b
str_eq_eq a b h = (str_eq_iff a b).0 h

host_rules_equal_eq : (a b : HostRule) → host_rules_equal a b ≡ true → a ≡ b
unfolding host_rules_equal
host_rules_equal_eq a b h =
    let d = str_eq_eq a.description b.description (ground (arith, h)) in
    let s = lists_equal_eq str_eq str_eq_eq a.hosts b.hosts (ground (arith, h)) in
    let m = str_eq_eq a.path_matcher b.path_matcher (ground (arith, h)) in cc (d, s, m)

path_rules_equal_eq : (a b : PathRule) → path_rules_equal a b ≡ true → a ≡ b
unfolding path_rules_equal
path_rules_equal_eq a b h =
    let p = lists_equal_eq str_eq str_eq_eq a.paths b.paths (ground (arith, h)) in
    let s = str_eq_eq a.service b.service (ground (arith, h)) in cc (p, s)

path_matchers_equal_eq : (a b : PathMatcher) → path_matchers_equal a b ≡ true → a ≡ b
unfolding path_matchers_equal
path_matchers_equal_eq a b h =
    let d = str_eq_eq a.default_service b.default_service (ground (arith, h)) in
    let t = str_eq_eq a.description b.description (ground (arith, h)) in
    let m = str_eq_eq a.name b.name (ground (arith, h)) in
    let r =
      lists_equal_eq path_rules_equal path_rules_equal_eq a.path_rules b.path_rules
        (ground (arith, h)) in
    cc (d, t, m, r)

host_rules_equal_refl : (a : HostRule) → host_rules_equal a a ≡ true
unfolding host_rules_equal
host_rules_equal_refl a =
    rw
      (
        str_eq_refl a.description,
        lists_equal_refl str_eq str_eq_refl a.hosts,
        str_eq_refl a.path_matcher,
      )
      refl

path_rules_equal_refl : (a : PathRule) → path_rules_equal a a ≡ true
unfolding path_rules_equal
path_rules_equal_refl a =
    rw (lists_equal_refl str_eq str_eq_refl a.paths, str_eq_refl a.service) refl

path_matchers_equal_refl : (a : PathMatcher) → path_matchers_equal a a ≡ true
unfolding path_matchers_equal
path_matchers_equal_refl a =
    rw
      (
        str_eq_refl a.default_service,
        str_eq_refl a.description,
        str_eq_refl a.name,
        lists_equal_refl path_rules_equal path_rules_equal_refl a.path_rules,
      )
      refl

-- The same content: the default service, the host rules and the path matchers, in their order.
pub record SameRules (a b : UrlMap) : Type 0 where
  pub same_default : a.default_service ≡ b.default_service
  pub same_hosts : a.host_rules ≡ b.host_rules
  pub same_matchers : a.path_matchers ≡ b.path_matchers

-- mapsEqual tells exactly whether two url maps have the same default service, and the same host rules
-- and path matchers in the same order; it compares no names and no links of the maps themselves.
pub maps_equal_iff : (a b : UrlMap) → (maps_equal a b ≡ true) ↔ SameRules a b
unfolding maps_equal
maps_equal_iff a b = (
  λ h. record {
    same_default = str_eq_eq a.default_service b.default_service (ground (arith, h));
    same_hosts =
        lists_equal_eq host_rules_equal host_rules_equal_eq a.host_rules b.host_rules
          (ground (arith, h));
    same_matchers =
        lists_equal_eq path_matchers_equal path_matchers_equal_eq a.path_matchers b.path_matchers
          (ground (arith, h));
  },
  λ s.
      rw
        (
          s.same_default,
          str_eq_refl b.default_service,
          s.same_hosts,
          lists_equal_refl host_rules_equal host_rules_equal_refl b.host_rules,
          s.same_matchers,
          lists_equal_refl path_matchers_equal path_matchers_equal_refl b.path_matchers,
        )
        refl,
)
