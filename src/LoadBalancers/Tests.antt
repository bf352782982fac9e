-- ===== src/LoadBalancers/Tests.antt =====
-- The properties of the load balancers at a small one.
mod Cloud
mod Pool
use ingress_gce.Base.{
  ◌≡◌, ◌≢◌, ◌↔◌, refl, arith, ap, true, false, Option, none, some, [], ◌∷◌, Str, codes, str_eq,
  str_eq_refl, Result, ok, err, Failure, api, if◌then◌else◌, split, last_of,
}
use ingress_gce.Base.Maps.{str_Eq}
use ingress_gce.Base.Outcome.{ok-injective}
use ingress_gce.LoadBalancers.{
  L7RuntimeInfo, TlsCerts, UrlMap, TargetHttpProxy, TargetHttpsProxy, ForwardingRule,
  SslCertificate, Address, L7, LoadBalancers,
}
use ingress_gce.Http.{compare_links, ignore_http_not_found, is_not_found_error, is_http_error_code}
use ingress_gce.Namer.{target_proxy, forwarding_rule, ssl_cert, truncate}
use ingress_gce.LoadBalancers.{proceed, after, with_found}
use ingress_gce.LoadBalancers.Checks.{
  with_name, correct_proxy, create_proxy, check_proxy, check_http_forwarding_rule, edge_hop_http,
}
use ingress_gce.LoadBalancers.ForwardingRules.{
  with_rule, create_rule, found_rule, is_wrong, point_rule, check_forwarding_rule, effective_ip,
}
use ingress_gce.LoadBalancers.ForwardingRules.Pointed.{RuleLaws}
use ingress_gce.LoadBalancers.Checks.Chain.{HttpChain, edge_hop_http-HttpChain}
use ingress_gce.LoadBalancers.Certs.{
  cert_is_named, next_certificate_name, has_certificate, expected_cert_name, ssl_cert_link_in_use,
  link_of_proxy, resource_name_from_link, populate, populate_ssl_cert, create_cert, wrap_failure,
  replace_cert, check_secret_cert, check_ssl_cert,
}
use ingress_gce.LoadBalancers.Certs.Secret.{
  HasCert, next_certificate_name_lem, check_ssl_cert-HasCert,
}
use ingress_gce.LoadBalancers.UrlMaps.{GceUrlMap, maps_equal}
use ingress_gce.LoadBalancers.Certs.Secret.{CertLaws}
use ingress_gce.LoadBalancers.UrlMaps.Updates.{UrlMapLaws}
use ingress_gce.LoadBalancers.UrlMaps.Same.{SameRules, maps_equal_iff}
use ingress_gce.LoadBalancers.Tests.Cloud.{
  World, um, find, make, change, drop, rule_name, map_name, proxy_name, https_name, cert_name,
  linked, created_cert, address_of, refused, put_rule, put_um, put_tp, put_tps, put_cert, keep_cert,
  cloud, cloud-RuleLaws, cloud-CertLaws, cloud-ProxyLaws, info, tls, lb, empty, stale,
}

stale_fine : (edge_hop_http cloud (lb, stale)).0 ≡ some none
unfolding edge_hop_http check_proxy check_http_forwarding_rule proceed with_name target_proxy str_eq
    find truncate correct_proxy compare_links after change forwarding_rule with_rule
    check_forwarding_rule is_wrong effective_ip point_rule
stale_fine = refl

edge_hop_http-HttpChain_example : HttpChain cloud lb um (edge_hop_http cloud (lb, stale)).1.1
edge_hop_http-HttpChain_example =
    edge_hop_http-HttpChain cloud cloud-ProxyLaws cloud-RuleLaws um lb stale refl stale_fine

empty_fine : (edge_hop_http cloud (lb, empty)).0 ≡ some none
unfolding edge_hop_http check_proxy check_http_forwarding_rule proceed with_name target_proxy str_eq
    find create_proxy after make with_found truncate forwarding_rule with_rule check_forwarding_rule
    create_rule found_rule point_rule compare_links
empty_fine = refl

abbrev with_um : World
with_um = record empty { um = some um }

abbrev rules : GceUrlMap
rules =
    (codes "a.example", (codes "/x", some (codes "links/x")) ∷ [])
    ∷ (codes "DefaultBackend", (codes "DefaultBackend", some (codes "links/d")) ∷ [])
    ∷ (codes "b.example", (codes "/y", some (codes "links/y")) ∷ [])
    ∷ []

-- a stand-in for the sum, with 32 hexadecimal digits
abbrev short_sum : Str → Str
short_sum s =
    if str_eq (codes "a.example") s
    then codes "0123456789abcdef0123456789abcdef"
    else codes "fedcba9876543210fedcba9876543210"

maps_equal_iff_example : (maps_equal um um ≡ true) ↔ SameRules um um
maps_equal_iff_example = maps_equal_iff um um

cert_fine : (check_ssl_cert cloud (lb, empty)).0 ≡ some none
unfolding check_ssl_cert populate_ssl_cert expected_cert_name resource_name_from_link
    ssl_cert_link_in_use target_proxy truncate link_of_proxy find str_eq proceed check_secret_cert
    has_certificate replace_cert next_certificate_name cert_is_named ssl_cert drop wrap_failure
    ignore_http_not_found is_not_found_error is_http_error_code after create_cert created_cert
    populate split last_of
cert_fine = refl

check_ssl_cert-HasCert_example : HasCert (codes "cert") (check_ssl_cert cloud (lb, empty)).1.0
check_ssl_cert-HasCert_example =
    check_ssl_cert-HasCert cloud cloud-CertLaws tls (lb, empty) refl refl cert_fine

-- the certificate with the first of the two names
abbrev first_cert : SslCertificate
first_cert = record {
  name = ssl_cert (codes "lb") true;
  self_link = codes "links/cert";
  certificate = codes "old";
  private_key = [];
}

next_certificate_name_lem_example :
    ssl_cert (codes "lb") true ≢ next_certificate_name (record lb { ssl_cert = some first_cert })
next_certificate_name_lem_example =
    next_certificate_name_lem (record lb { ssl_cert = some first_cert }) first_cert (omega arith)
      refl
