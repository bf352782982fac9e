-- ===== src/LoadBalancers/UrlMaps/Routes.antt =====
-- Where a url map sends a request, and what an update makes of it.
use mathlib.Core.Option.{some-injective}
use ingress_gce.Base.{
  ◌∙◌, true, sym, map, subst, arith, ◌≡◌, refl, ap, Option, none, some, List, [], ◌∷◌, Str, str_eq,
  str_eq_iff, str_eq_refl, ok, Bool-cases, Option-cases, inl, inr, if◌then◌else◌,
}
use ingress_gce.Base.Maps.{get, str_Eq}
use ingress_gce.Sets.{elem}
use ingress_gce.Pools.Laws.{elem-keys}
use ingress_gce.LoadBalancers.{HostRule, PathRule, PathMatcher, UrlMap, LoadBalancers}
use ingress_gce.LoadBalancers.UrlMaps.{
  GceUrlMap, lists_equal, path_rules, name_for_path_matcher, host_rules, path_matchers, new_url_map,
  or_nil, matcher,
}

-- The name of the first matcher whose host rule holds the host.
find_host : List HostRule → Str → Option Str
find_host [] host = none
find_host (r ∷ rs) host =
    let rest = find_host rs host in
    if lists_equal str_eq r.hosts (host ∷ []) then some r.path_matcher else rest

find_matcher : List PathMatcher → Str → Option PathMatcher
find_matcher [] name = none
find_matcher (m ∷ ms) name =
    let rest = find_matcher ms name in if str_eq m.name name then some m else rest

find_path : List PathRule → Str → Option Str
find_path [] path = none
find_path (r ∷ rs) path =
    let rest = find_path rs path in
    if lists_equal str_eq r.paths (path ∷ []) then some r.service else rest

or_default : Str → Option Str → Str
or_default d none = d
or_default d (some service) = service

matched : Str → Option PathMatcher → Str → Str
unfolding or_default find_path
matched d none path = d
matched d (some m) path = or_default m.default_service (find_path m.path_rules path)

unfoldable pub hosted : UrlMap → Option Str → Str → Str
unfolding matched find_matcher
hosted um none path = um.default_service
hosted um (some name) path = matched um.default_service (find_matcher um.path_matchers name) path

-- the service that a url map has for a host and a path, as they are written in its rules
unfoldable pub route : UrlMap → Str → Str → Str
unfolding hosted find_host
route um host path = hosted um (find_host um.host_rules host) path

-- the link that the rules of an ingress have for them
pub routed : GceUrlMap → Str → Str → Str → Str
unfolding or_default or_nil
routed g d host path = elim (get host g) [
  | none ↦ d
  | some paths ↦ or_default d (or_nil (get path paths))
]

one_equal : (x y : Str) → lists_equal str_eq (x ∷ []) (y ∷ []) ≡ str_eq x y
unfolding lists_equal
one_equal x y = ground arith

find_path-path_rules :
    (paths : List (Str × Option Str)) (rules : List PathRule) (path : Str)
    → path_rules paths ≡ some rules
    → find_path rules path ≡ or_nil (get path paths)
unfolding find_path path_rules get or_nil
find_path-path_rules [] rules path h =
    subst (λ rs. find_path rs path ≡ none) (some-injective _ _ h) refl
find_path-path_rules ((p, none) ∷ paths) rules path h = absurd (cc h)
find_path-path_rules ((p, some link) ∷ paths) rules path h =
    elim (Option-cases (path_rules paths)) [
      | inl e ↦ absurd (cc (rw (path_rules, e) at h))
      | inr (rest, e) ↦
          subst (λ rs. find_path rs path ≡ or_nil (get path ((p, some link) ∷ paths)))
            (some-injective _ _ (rw (path_rules, e) at h))
            (elim (Bool-cases (str_eq p path)) [
              | inl b ↦ rw (one_equal p path, b) refl
              | inr b ↦ rw (one_equal p path, b) (find_path-path_rules paths rest path e)
            ])
    ]

-- The sums of the rules' hosts tell them apart from the host.
pub Apart : (Str → Str) → Str → GceUrlMap → Type 0
Apart md5_hex host [] = Unit
Apart md5_hex host ((h, paths) ∷ g) = (md5_hex h ≡ md5_hex host → h ≡ host) × Apart md5_hex host g

-- The sums of the rules' hosts tell them apart.
abbrev pub HasSums : (Str → Str) → GceUrlMap → Type 0
HasSums md5_hex g =
    (a b : Str)
    → elem (map (λ e. e.0) g) a ≡ true
    → elem (map (λ e. e.0) g) b ≡ true
    → md5_hex a ≡ md5_hex b
    → a ≡ b

Apart-of :
    (md5_hex : Str → Str) (host : Str) (g : GceUrlMap)
    → ((h : Str) → elem (map (λ e. e.0) g) h ≡ true → md5_hex h ≡ md5_hex host → h ≡ host)
    → Apart md5_hex host g
unfolding Apart elem
Apart-of md5_hex host [] h = tt
Apart-of md5_hex host ((j, paths) ∷ g) h =
    (h j (ground (arith, str_eq_refl j)), Apart-of md5_hex host g (λ k i. h k (ground (arith, i))))

module _ (md5_hex : Str → Str) where
  names_apart :
      (a b : Str)
      → (md5_hex a ≡ md5_hex b → a ≡ b)
      → str_eq (name_for_path_matcher md5_hex a) (name_for_path_matcher md5_hex b) ≡ str_eq a b
  unfolding name_for_path_matcher str_eq
  names_apart a b injective = elim (Bool-cases (str_eq a b)) [
    | inl e ↦ rw ((str_eq_iff a b).0 e, str_eq_refl (md5_hex b), str_eq_refl b) refl
    | inr e ↦ elim (Bool-cases (str_eq (md5_hex a) (md5_hex b))) [
      | inl f ↦
          absurd (cc (e, (str_eq_iff a b).1 (injective ((str_eq_iff (md5_hex a) (md5_hex b)).0 f))))
      | inr f ↦ rw (e, f) refl
    ]
  ]

  name_of : Str → Option (List (Str × Option Str)) → Option Str
  name_of host none = none
  name_of host (some paths) = some (name_for_path_matcher md5_hex host)

  find_host-host_rules :
      (g : GceUrlMap) (host : Str)
      → find_host (host_rules md5_hex g) host ≡ name_of host (get host g)
  unfolding find_host host_rules get name_of
  find_host-host_rules [] host = refl
  find_host-host_rules ((h, paths) ∷ g) host = elim (Bool-cases (str_eq h host)) [
    | inl e ↦
        rw (one_equal h host, e)
          (ap (λ x. some (name_for_path_matcher md5_hex x)) ((str_eq_iff h host).0 e))
    | inr e ↦ rw (one_equal h host, e) (find_host-host_rules g host)
  ]

  find_matcher-path_matchers :
      (d host : Str) (g : GceUrlMap) (matchers : List PathMatcher) (paths : List (Str × Option Str))
      → Apart md5_hex host g
      → path_matchers md5_hex d g ≡ some matchers
      → get host g ≡ some paths
      → (rules : List PathRule) × (path_rules paths ≡ some rules)
        × (find_matcher matchers (name_for_path_matcher md5_hex host)
            ≡ some (matcher md5_hex d host rules))
  unfolding find_matcher path_matchers get Apart
  find_matcher-path_matchers d host [] matchers paths apart h hit = absurd (cc hit)
  find_matcher-path_matchers d host ((j, ps) ∷ g) matchers paths apart h hit =
      elim (Option-cases (path_rules ps)) [
        | inl e ↦ absurd (cc (rw (path_matchers, e) at h))
        | inr (rules, e) ↦ elim (Option-cases (path_matchers md5_hex d g)) [
          | inl f ↦ absurd (cc (rw (path_matchers, e, f) at h))
          | inr (ms, f) ↦
              subst
                (λ all.
                  (rs : List PathRule) × (path_rules paths ≡ some rs)
                  × (find_matcher all (name_for_path_matcher md5_hex host)
                      ≡ some (matcher md5_hex d host rs)))
                (some-injective _ _ (rw (path_matchers, e, f) at h))
                (elim (Bool-cases (str_eq j host)) [
                  | inl b ↦
                      rw (names_apart j host apart.0, b)
                        (
                          rules,
                          ap path_rules (sym (some-injective ps paths (rw b at hit))) ∙ e,
                          ap (λ x. some (matcher md5_hex d x rules)) ((str_eq_iff j host).0 b),
                        )
                  | inr b ↦
                      rw (names_apart j host apart.0, b)
                        (find_matcher-path_matchers d host g ms paths apart.1 f (rw b at hit))
                ])
        ]
      ]

  pub route-new_url_map :
      (um new : UrlMap) (d : Str) (g : GceUrlMap) (host path : Str)
      → HasSums md5_hex g
      → new_url_map md5_hex um d g ≡ some new
      → route new host path ≡ routed g d host path
  unfolding route new_url_map hosted matched routed name_of or_default
  route-new_url_map um new d g host path sums h = elim (Option-cases (path_matchers md5_hex d g)) [
    | inl e ↦ absurd (cc (rw (new_url_map, e) at h))
    | inr (ms, e) ↦
        subst (λ x. route x host path ≡ routed g d host path)
          (some-injective _ _ (rw (new_url_map, e) at h))
          (elim (Option-cases (get host g)) [
            | inl f ↦ rw (find_host-host_rules g host, f, routed) refl
            | inr (paths, f) ↦
                let here : elem (map (λ e. e.0) g) host ≡ true =
                  elim (Bool-cases (elem (map (λ e. e.0) g) host)) [
                    | inl b ↦ b
                    | inr b ↦ absurd (cc (elem-keys g host b, f))
                  ] in
                let apart = Apart-of md5_hex host g (λ k i same. sums k host i here same) in
                let (rules, built, hit) = find_matcher-path_matchers d host g ms paths apart e f in
                rw
                  (
                    find_host-host_rules g host,
                    f,
                    hit,
                    find_path-path_rules paths rules path built,
                    routed,
                  )
                  refl
          ])
  ]

  module _ {World : Type 0} (C : LoadBalancers World) where
    -- the cloud's map under the name has for every host and path the link that the rules have
    abbrev pub IsRouted : Str → GceUrlMap → Str → World → Type 0
    IsRouted name g d w =
        (um : UrlMap) × (C.get_url_map name w ≡ ok um)
        × ((host path : Str) → route um host path ≡ routed g d host path)
