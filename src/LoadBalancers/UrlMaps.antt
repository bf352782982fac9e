-- ===== src/LoadBalancers/UrlMaps.antt =====
-- The url map of a load balancer, pkg/loadbalancers/loadbalancers.go, and the rules of an ingress,
-- GCEURLMap of pkg/utils/utils.go: for each host, the paths and the links of their backends.
pub mod Same
pub mod Routes
pub mod Updates
use ingress_gce.Base.{
  ℕ, Bool, true, false, ◌&&◌, ◌||◌, not, Option, none, some, List, [], ◌∷◌, ◌++◌, map, Str, codes,
  str_eq, split, last_of, plain, Error, Result, ok, err, panic, Failure, if◌then◌else◌,
}
use ingress_gce.Base.Maps.{get, put, remove, str_Eq}
use ingress_gce.Sets.{StringSets, new_string}
use ingress_gce.LoadBalancers.{
  HostRule, PathRule, PathMatcher, UrlMap, L7, LoadBalancers, Done, State, after, with_found,
}
use ingress_gce.LoadBalancers.Checks.{refuse}

abbrev pub default_backend_key : Str
default_backend_key = codes "DefaultBackend"

-- The link of a backend, none for a nil one.
abbrev pub GceUrlMap : Type 0
GceUrlMap = List (Str × List (Str × Option Str))

-- Go's lookup of a pointer in a map: nil for a missing key
unfoldable pub or_nil : Option (Option Str) → Option Str
or_nil none = none
or_nil (some link) = link

unfoldable pub put_default_backend : Option Str → GceUrlMap → GceUrlMap
put_default_backend link g = put default_backend_key ((default_backend_key, link) ∷ []) g

-- The read is destructive: the host of the default backend is taken out.
unfoldable pub get_default_backend : GceUrlMap → Option Str × GceUrlMap
get_default_backend g = elim (get default_backend_key g) [
  | none ↦ (none, g)
  | some h ↦ (or_nil (get default_backend_key h), remove default_backend_key g)
]

-- a list of rules, by a test of two
unfoldable pub lists_equal : {A : Type 0} → (A → A → Bool) → List A → List A → Bool
lists_equal same [] [] = true
lists_equal same [] (y ∷ ys) = false
lists_equal same (x ∷ xs) [] = false
lists_equal same (x ∷ xs) (y ∷ ys) = same x y && lists_equal same xs ys

unfoldable pub host_rules_equal : HostRule → HostRule → Bool
host_rules_equal a b =
    str_eq a.description b.description
    && (lists_equal str_eq a.hosts b.hosts && str_eq a.path_matcher b.path_matcher)

unfoldable pub path_rules_equal : PathRule → PathRule → Bool
path_rules_equal a b = lists_equal str_eq a.paths b.paths && str_eq a.service b.service

unfoldable pub path_matchers_equal : PathMatcher → PathMatcher → Bool
path_matchers_equal a b =
    str_eq a.default_service b.default_service
    && (str_eq a.description b.description
        && (str_eq a.name b.name && lists_equal path_rules_equal a.path_rules b.path_rules))

unfoldable pub maps_equal : UrlMap → UrlMap → Bool
maps_equal a b =
    str_eq a.default_service b.default_service
    && (lists_equal host_rules_equal a.host_rules b.host_rules
        && lists_equal path_matchers_equal a.path_matchers b.path_matchers)

-- A rule with a nil backend is a panic, none.
unfoldable pub path_rules : List (Str × Option Str) → Option (List PathRule)
path_rules [] = some []
path_rules ((path, none) ∷ rest) = none
path_rules ((path, some link) ∷ rest) = elim (path_rules rest) [
  | none ↦ none
  | some rules ↦ some (record { paths = path ∷ []; service = link } ∷ rules)
]

-- `md5_hex` is the lower-case hexadecimal text of crypto/md5's sum, a parameter.
module _ (md5_hex : Str → Str) where
  unfoldable pub name_for_path_matcher : Str → Str
  name_for_path_matcher host_rule = codes "host" ++ md5_hex host_rule

  unfoldable pub host_rules : GceUrlMap → List HostRule
  host_rules g =
      map
        (λ e. record {
          description = [];
          hosts = e.0 ∷ [];
          path_matcher = name_for_path_matcher e.0;
        })
        g

  abbrev pub matcher : Str → Str → List PathRule → PathMatcher
  matcher default_service host rules = record {
    name = name_for_path_matcher host;
    description = [];
    default_service = default_service;
    path_rules = rules;
  }

  unfoldable pub path_matchers : Str → GceUrlMap → Option (List PathMatcher)
  path_matchers default_service [] = some []
  path_matchers default_service ((host, paths) ∷ g) = elim (path_rules paths) [
    | none ↦ none
    | some rules ↦ elim (path_matchers default_service g) [
      | none ↦ none
      | some matchers ↦ some (matcher default_service host rules ∷ matchers)
    ]
  ]

  -- the whole map is replaced
  unfoldable pub new_url_map : UrlMap → Str → GceUrlMap → Option UrlMap
  new_url_map um default_service g = elim (path_matchers default_service g) [
    | none ↦ none
    | some matchers ↦ some (record um {
      default_service = default_service;
      host_rules = host_rules g;
      path_matchers = matchers;
    })
  ]

  module _ {World : Type 0} (C : LoadBalancers World) where
    abbrev keep : L7 → UrlMap → L7
    keep l um = record l { um = some um }

    unfoldable pub write_url_map : UrlMap → State World → Done (State World)
    write_url_map um (l, w) = after (C.update_url_map um w) (keep l um) (λ v.
        with_found (C.get_url_map um.name v) (keep l um, v)
          (λ found. (some none, (keep l found, v))))

    unfoldable pub is_unchanged : Result UrlMap → UrlMap → Bool
    is_unchanged (ok old) um = maps_equal old um
    is_unchanged (err e) um = false
    is_unchanged panic um = false

    unfoldable pub set_url_map : UrlMap → State World → Done (State World)
    set_url_map um (l, w) =
        if is_unchanged (C.get_url_map um.name w) um
        then (some none, (keep l um, w))
        else write_url_map um (l, w)

    -- The default backend of the ingress, or else the controller's; without one the code panics.
    unfoldable pub default_service : L7 → Option Str → Option Str
    default_service l (some link) = some link
    default_service l none = l.glbc_default_backend

    unfoldable pub with_default : Option Str → UrlMap → GceUrlMap → State World → Done (State World)
    with_default none um g s = (none, s)
    with_default (some link) um g s = elim (new_url_map um link g) [
      | none ↦ (none, s)
      | some new ↦ set_url_map new s
    ]

    unfoldable pub update_url_map : GceUrlMap → State World → Done (State World)
    update_url_map g (l, w) = elim l.um [
      | none ↦ refuse (codes "cannot add url without an urlmap") (l, w)
      | some um ↦
          (let read = get_default_backend g in
            with_default (default_service l read.0) um read.1 (l, w))
    ]

-- the last part of each link that has one
unfoldable pub link_names : List Str → List Str
link_names [] = []
link_names (link ∷ links) =
    let rest = link_names links in
    let name = last_of (split link (codes "/")) in if str_eq name [] then rest else name ∷ rest

unfoldable pub rule_links : List PathMatcher → List Str
rule_links [] = []
rule_links (m ∷ ms) = map (λ r. PathRule.service r) m.path_rules ++ rule_links ms

module _ (S : StringSets) where
  open S use {list}

  unfoldable pub backend_names : L7 → List Str
  backend_names l = elim l.um [
    | none ↦ []
    | some um ↦
        list (new_string S (link_names (rule_links um.path_matchers ++ um.default_service ∷ [])))
  ]
