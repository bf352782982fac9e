-- ===== src/LoadBalancers.antt =====
-- The load balancers of pkg/loadbalancers/loadbalancers.go: types and interfaces. Logs are left out. Of
-- the API's types, the fields that the controller reads or sets; a pointer that may be nil is an Option.
pub mod Certs
pub mod ForwardingRules
pub mod Checks
pub mod UrlMaps
pub mod L7s
mod Tests
use ingress_gce.Base.{
  ℕ, Bool, Option, none, some, List, [], Str, codes, Result, ok, err, panic, Failure,
}

abbrev pub http_default_port_range : Str
http_default_port_range = codes "80-80"

abbrev pub https_default_port_range : Str
https_default_port_range = codes "443-443"

abbrev pub http : Str
http = codes "HTTP"

abbrev pub https : Str
https = codes "HTTPS"

pub record TlsCerts : Type 0 where
  pub key : Str
  pub cert : Str
  pub chain : Str

pub record L7RuntimeInfo : Type 0 where
  pub name : Str
  pub ip : Str
  pub tls : Option TlsCerts
  pub tls_name : Str
  pub allow_http : Bool
  pub static_ip_name : Str

pub record HostRule : Type 0 where
  pub description : Str
  pub hosts : List Str
  pub path_matcher : Str

pub record PathRule : Type 0 where
  pub paths : List Str
  pub service : Str

pub record PathMatcher : Type 0 where
  pub name : Str
  pub description : Str
  pub default_service : Str
  pub path_rules : List PathRule

pub record UrlMap : Type 0 where
  pub name : Str
  pub self_link : Str
  pub default_service : Str
  pub host_rules : List HostRule
  pub path_matchers : List PathMatcher

pub record TargetHttpProxy : Type 0 where
  pub name : Str
  pub self_link : Str
  pub url_map : Str

pub record TargetHttpsProxy : Type 0 where
  pub name : Str
  pub self_link : Str
  pub url_map : Str
  pub ssl_certificates : List Str

pub record ForwardingRule : Type 0 where
  pub name : Str
  pub ip_address : Str
  pub target : Str
  pub port_range : Str

pub record SslCertificate : Type 0 where
  pub name : Str
  pub self_link : Str
  pub certificate : Str
  pub private_key : Str

pub record Address : Type 0 where
  pub name : Str
  pub address : Str

-- The default backend is given by its link, which is all that is read of it.
pub record L7 : Type 0 where
  pub name : Str
  pub runtime_info : L7RuntimeInfo
  pub um : Option UrlMap
  pub tp : Option TargetHttpProxy
  pub tps : Option TargetHttpsProxy
  pub fw : Option ForwardingRule
  pub fws : Option ForwardingRule
  pub ip : Option Address
  pub ssl_cert : Option SslCertificate
  pub old_ssl_cert : Option SslCertificate
  pub glbc_default_backend : Option Str

-- A lookup gives a resource or an error, never neither.
pub record LoadBalancers (World : Type 0) : Type 0 where
  pub get_global_forwarding_rule : Str → World → Result ForwardingRule
  pub create_global_forwarding_rule : ForwardingRule → World → Failure × World
  pub delete_global_forwarding_rule : Str → World → Failure × World
  pub set_proxy_for_global_forwarding_rule : Str → Str → World → Failure × World
  pub get_url_map : Str → World → Result UrlMap
  pub create_url_map : UrlMap → World → Failure × World
  pub update_url_map : UrlMap → World → Failure × World
  pub delete_url_map : Str → World → Failure × World
  pub get_target_http_proxy : Str → World → Result TargetHttpProxy
  pub create_target_http_proxy : TargetHttpProxy → World → Failure × World
  pub delete_target_http_proxy : Str → World → Failure × World
  pub set_url_map_for_target_http_proxy : TargetHttpProxy → UrlMap → World → Failure × World
  pub get_target_https_proxy : Str → World → Result TargetHttpsProxy
  pub create_target_https_proxy : TargetHttpsProxy → World → Failure × World
  pub delete_target_https_proxy : Str → World → Failure × World
  pub set_url_map_for_target_https_proxy : TargetHttpsProxy → UrlMap → World → Failure × World
  pub set_ssl_certificate_for_target_https_proxy :
      TargetHttpsProxy → SslCertificate → World → Failure × World
  pub get_ssl_certificate : Str → World → Result SslCertificate
  pub create_ssl_certificate : SslCertificate → World → Result SslCertificate × World
  pub delete_ssl_certificate : Str → World → Failure × World
  pub reserve_global_address : Address → World → Failure × World
  pub get_global_address : Str → World → Result Address
  pub delete_global_address : Str → World → Failure × World

-- An error or none, where `none` of the outer option is a panic, or the end of the program.
abbrev pub Done : Type 0 → Type 0
Done S = Option Failure × S

-- the load balancer, whose fields the calls change, and the cloud
abbrev pub State : Type 0 → Type 0
State World = L7 × World

-- what follows a step that reported no error
unfoldable pub proceed : {S : Type 0} → Done S → (S → Done S) → Done S
proceed (some none, s) next = next s
proceed (some (some e), s) next = (some (some e), s)
proceed (none, s) next = (none, s)

-- what follows a call of the cloud that reported no error
unfoldable pub after :
    {World : Type 0} → Failure × World → L7 → (World → Done (State World)) → Done (State World)
after (none, w) l next = next w
after (some e, w) l next = (some (some e), (l, w))

-- what follows a lookup
unfoldable pub with_found :
    {A World : Type 0} → Result A → State World → (A → Done (State World)) → Done (State World)
with_found (ok a) s next = next a
with_found (err e) s next = (some (some e), s)
with_found panic s next = (none, s)
