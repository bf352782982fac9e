-- ===== src/LoadBalancers/Checks.antt =====
-- The edge hop of a load balancer, pkg/loadbalancers/loadbalancers.go: each resource is looked up, made
-- or corrected, in the order of their links.
pub mod Proxy
pub mod Chain
use ingress_gce.Base.{
  ℕ, Bool, true, false, ◌&&◌, ◌||◌, not, Option, none, some, List, [], ◌∷◌, Str, codes, str_eq,
  plain, Error, Result, ok, err, panic, Failure, if◌then◌else◌,
}
use ingress_gce.Http.{status_conflict, is_http_error_code, ignore_http_not_found, compare_links}
use ingress_gce.Namer.{target_proxy, forwarding_rule, url_map}
use ingress_gce.LoadBalancers.{
  http, https, http_default_port_range, https_default_port_range, L7RuntimeInfo, UrlMap,
  TargetHttpProxy, TargetHttpsProxy, ForwardingRule, SslCertificate, Address, L7, LoadBalancers,
  Done, State, proceed, after, with_found,
}
use ingress_gce.LoadBalancers.ForwardingRules.{
  point_rule, found_rule, create_rule, is_wrong, recreate_rule, check_forwarding_rule, managed_ip,
  effective_ip, with_rule,
}
use ingress_gce.LoadBalancers.Certs.{check_ssl_cert, delete_old_ssl_cert}

-- the error of a check that lacks what it links to
unfoldable pub refuse : {S : Type 0} → Str → S → Done S
refuse message s = (some (some (plain message)), s)

-- A name that the namer has for both protocols.
unfoldable pub with_name : {S : Type 0} → Option Str → S → (Str → Done S) → Done S
with_name none s next = (none, s)
with_name (some name) s next = next name

-- the certificate that the proxy is compared by, where none is a panic
unfoldable pub first_cert : List Str → Option Str
first_cert [] = none
first_cert (link ∷ links) = some link

module _ {World : Type 0} (C : LoadBalancers World) where
  abbrev keep_um : L7 → World → UrlMap → Done (State World)
  keep_um l w um = (some none, (record l { um = some um }, w))

  unfoldable pub create_url_map : Str → State World → Done (State World)
  create_url_map backend (l, w) =
      after
        (C.create_url_map
          (record {
            name = url_map l.name;
            self_link = [];
            default_service = backend;
            host_rules = [];
            path_matchers = [];
          })
          w)
        l (λ v. with_found (C.get_url_map (url_map l.name) v) (l, v) (keep_um l v))

  unfoldable pub check_url_map : State World → Done (State World)
  check_url_map (l, w) = elim l.glbc_default_backend [
    | none ↦ refuse (codes "cannot create urlmap without default backend") (l, w)
    | some backend ↦ elim (C.get_url_map (url_map l.name) w) [
      | ok um ↦ keep_um l w um
      | err e ↦ create_url_map backend (l, w)
      | panic ↦ (none, (l, w))
    ]
  ]

  abbrev keep_tp : L7 → World → TargetHttpProxy → Done (State World)
  keep_tp l w tp = (some none, (record l { tp = some tp }, w))

  unfoldable pub create_proxy : Str → UrlMap → State World → Done (State World)
  create_proxy name um (l, w) =
      after
        (C.create_target_http_proxy (record { name = name; self_link = []; url_map = um.self_link })
          w)
        l (λ v. with_found (C.get_target_http_proxy name v) (l, v) (keep_tp l v))

  -- The proxy is there: its link is corrected.
  unfoldable pub correct_proxy : UrlMap → TargetHttpProxy → State World → Done (State World)
  correct_proxy um proxy (l, w) =
      if not (compare_links proxy.url_map um.self_link)
      then after (C.set_url_map_for_target_http_proxy proxy um w) l (λ v. keep_tp l v proxy)
      else keep_tp l w proxy

  unfoldable pub check_proxy : State World → Done (State World)
  check_proxy (l, w) = elim l.um [
    | none ↦ refuse (codes "cannot create proxy without urlmap") (l, w)
    | some um ↦
        with_name (target_proxy l.name http) (l, w)
          (λ name. elim (C.get_target_http_proxy name w) [
            | ok proxy ↦ correct_proxy um proxy (l, w)
            | err e ↦ create_proxy name um (l, w)
            | panic ↦ (none, (l, w))
          ])
  ]

  abbrev keep_tps : L7 → World → TargetHttpsProxy → Done (State World)
  keep_tps l w tps = (some none, (record l { tps = some tps }, w))

  unfoldable pub create_https_proxy :
      Str → UrlMap → SslCertificate → State World → Done (State World)
  create_https_proxy name um cert (l, w) =
      after
        (C.create_target_https_proxy
          (record {
            name = name;
            self_link = [];
            url_map = um.self_link;
            ssl_certificates = cert.self_link ∷ [];
          })
          w)
        l (λ v. with_found (C.get_target_https_proxy name v) (l, v) (keep_tps l v))

  unfoldable pub correct_cert : SslCertificate → TargetHttpsProxy → State World → Done (State World)
  correct_cert cert proxy (l, w) = elim (first_cert proxy.ssl_certificates) [
    | none ↦ (none, (l, w))
    | some link ↦
        if not (compare_links link cert.self_link)
        then after (C.set_ssl_certificate_for_target_https_proxy proxy cert w) l
            (λ v. keep_tps l v proxy)
        else keep_tps l w proxy
  ]

  unfoldable pub correct_https_proxy :
      UrlMap → SslCertificate → TargetHttpsProxy → State World → Done (State World)
  correct_https_proxy um cert proxy (l, w) =
      if not (compare_links proxy.url_map um.self_link)
      then after (C.set_url_map_for_target_https_proxy proxy um w) l
          (λ v. correct_cert cert proxy (l, v))
      else correct_cert cert proxy (l, w)

  unfoldable pub secure : SslCertificate → Option UrlMap → State World → Done (State World)
  secure cert none s = refuse (codes "no UrlMap, will not create HTTPS proxy") s
  secure cert (some um) (l, w) =
      with_name (target_proxy l.name https) (l, w)
        (λ name. elim (C.get_target_https_proxy name w) [
          | ok proxy ↦ correct_https_proxy um cert proxy (l, w)
          | err e ↦ create_https_proxy name um cert (l, w)
          | panic ↦ (none, (l, w))
        ])

  unfoldable pub check_https_proxy : State World → Done (State World)
  check_https_proxy (l, w) = elim l.ssl_cert [
    | none ↦ (some none, (l, w))
    | some cert ↦ secure cert l.um (l, w)
  ]

  unfoldable pub check_http_forwarding_rule : State World → Done (State World)
  check_http_forwarding_rule (l, w) = elim l.tp [
    | none ↦ refuse (codes "cannot create forwarding rule without proxy") (l, w)
    | some tp ↦
        with_name (forwarding_rule l.name http) (l, w)
          (λ name.
            with_rule C
              (check_forwarding_rule C name tp.self_link (effective_ip C l w).0
                http_default_port_range w)
              l (λ fw. record l { fw = some fw }))
  ]

  unfoldable pub check_https_forwarding_rule : State World → Done (State World)
  check_https_forwarding_rule (l, w) = elim l.tps [
    | none ↦ (some none, (l, w))
    | some tps ↦
        with_name (forwarding_rule l.name https) (l, w)
          (λ name.
            with_rule C
              (check_forwarding_rule C name tps.self_link (effective_ip C l w).0
                https_default_port_range w)
              l (λ fw. record l { fws = some fw }))
  ]

  abbrev keep_ip : L7 → World → Address → Done (State World)
  keep_ip l w a = (some none, (record l { ip = some a }, w))

  -- An address that is reserved already is taken to be usable.
  unfoldable pub reserve_ip : Str → ForwardingRule → State World → Done (State World)
  reserve_ip name fw (l, w) =
      let done = C.reserve_global_address (record { name = name; address = fw.ip_address }) w in
      elim done.0 [
        | none ↦ with_found (C.get_global_address name done.1) (l, done.1) (keep_ip l done.1)
        | some e ↦
            if is_http_error_code (some e) status_conflict || is_http_error_code (some e) 400
            then (some none, (l, done.1))
            else (some (some e), (l, done.1))
      ]

  unfoldable pub manage_ip : ForwardingRule → State World → Done (State World)
  manage_ip fw (l, w) =
      if not (effective_ip C l w).1
      then (some none, (l, w))
      else with_name (forwarding_rule l.name http) (l, w)
          (λ name. elim (C.get_global_address name w) [
            | ok a ↦ keep_ip l w a
            | err e ↦ reserve_ip name fw (l, w)
            | panic ↦ (none, (l, w))
          ])

  unfoldable pub check_static_ip : State World → Done (State World)
  check_static_ip (l, w) = elim l.fw [
    | none ↦ refuse (codes "will not create static IP without a forwarding rule") (l, w)
    | some fw ↦
        if str_eq fw.ip_address []
        then refuse (codes "will not create static IP without a forwarding rule") (l, w)
        else manage_ip fw (l, w)
  ]

  unfoldable pub edge_hop_http : State World → Done (State World)
  edge_hop_http s = proceed (check_proxy s) check_http_forwarding_rule

  unfoldable pub edge_hop_https : State World → Done (State World)
  edge_hop_https s =
      proceed (proceed (proceed (check_ssl_cert C s) check_https_proxy) check_https_forwarding_rule)
        (delete_old_ssl_cert C)

  unfoldable pub wants_tls : L7RuntimeInfo → Bool
  wants_tls ri = (elim ri.tls [ none ↦ false | some tls ↦ true ]) || not (str_eq ri.tls_name [])

  unfoldable pub maybe_http : State World → Done (State World)
  maybe_http (l, w) =
      if l.runtime_info.allow_http then edge_hop_http (l, w) else (some none, (l, w))

  unfoldable pub maybe_static_ip : State World → Done (State World)
  maybe_static_ip (l, w) =
      if l.runtime_info.allow_http && wants_tls l.runtime_info
      then check_static_ip (l, w)
      else (some none, (l, w))

  unfoldable pub maybe_https : State World → Done (State World)
  maybe_https (l, w) =
      if wants_tls l.runtime_info then edge_hop_https (l, w) else (some none, (l, w))

  unfoldable pub edge_hop : State World → Done (State World)
  edge_hop s = proceed (proceed (proceed (check_url_map s) maybe_http) maybe_static_ip) maybe_https

  -- the address of the forwarding rules
  unfoldable pub get_ip : L7 → Str
  get_ip l = elim l.fw [
    | some fw ↦ fw.ip_address
    | none ↦ elim l.fws [ some fw ↦ fw.ip_address | none ↦ [] ]
  ]
