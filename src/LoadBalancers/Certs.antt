-- ===== src/LoadBalancers/Certs.antt =====
-- The certificates of a load balancer, pkg/loadbalancers/loadbalancers.go.
pub mod Secret
use ingress_gce.Base.{
  Bool, true, false, ◌&&◌, ◌||◌, not, Option, none, some, List, [], ◌∷◌, Str, codes, str_eq, split,
  last_of, plain, Error, Result, ok, err, panic, Failure, if◌then◌else◌,
}
use ingress_gce.Http.{ignore_http_not_found}
use ingress_gce.Namer.{target_proxy, ssl_cert, is_ssl_cert}
use ingress_gce.LoadBalancers.{
  https, TlsCerts, TargetHttpsProxy, SslCertificate, L7, LoadBalancers, Done, State, proceed, after,
}

unfoldable pub resource_name_from_link : Str → Str
resource_name_from_link link = last_of (split link (codes "/"))

unfoldable pub first_link : List Str → Str
first_link [] = []
first_link (link ∷ links) = link

unfoldable pub cert_is_named : Option SslCertificate → Str → Bool
cert_is_named none name = false
cert_is_named (some c) name = str_eq c.name name

unfoldable pub next_certificate_name : L7 → Str
next_certificate_name l =
    if cert_is_named l.ssl_cert (ssl_cert l.name true)
    then ssl_cert l.name false
    else ssl_cert l.name true

unfoldable pub has_certificate : Option SslCertificate → Str → Bool
has_certificate none cert = false
has_certificate (some c) cert = str_eq cert c.certificate

-- whether there is an old certificate of the controller that is no longer used
unfoldable pub is_old : Option SslCertificate → Option SslCertificate → Bool
is_old none current = false
is_old (some old) none = false
is_old (some old) (some current) = not (str_eq old.name current.name) && is_ssl_cert old.name

module _ {World : Type 0} (C : LoadBalancers World) where
  unfoldable pub delete_old : Option SslCertificate → State World → Done (State World)
  delete_old none (l, w) = (some none, (l, w))
  delete_old (some old) (l, w) =
      let done = C.delete_ssl_certificate old.name w in
      after (ignore_http_not_found done.0, done.1) l
        (λ w'. (some none, (record l { old_ssl_cert = none }, w')))

  unfoldable pub delete_old_ssl_cert : State World → Done (State World)
  delete_old_ssl_cert (l, w) =
      if not (is_old l.old_ssl_cert l.ssl_cert)
      then (some none, (l, w))
      else delete_old l.old_ssl_cert (l, w)

  unfoldable pub link_of_proxy : Result TargetHttpsProxy → Str
  link_of_proxy (ok proxy) = first_link proxy.ssl_certificates
  link_of_proxy (err e) = []
  link_of_proxy panic = []

  -- The name exists, since the protocol is HTTPS.
  unfoldable pub ssl_cert_link_in_use : L7 → World → Str
  ssl_cert_link_in_use l w = elim (target_proxy l.name https) [
    | none ↦ []
    | some name ↦ link_of_proxy (C.get_target_https_proxy name w)
  ]

  unfoldable pub expected_cert_name : L7 → World → Str
  expected_cert_name l w = elim l.ssl_cert [
    | some c ↦ c.name
    | none ↦ resource_name_from_link (ssl_cert_link_in_use l w)
  ]

  -- A lookup that fails leaves no certificate.
  unfoldable pub populate : Result SslCertificate → State World → Done (State World)
  populate (ok c) (l, w) = (some none, (record l { ssl_cert = some c }, w))
  populate (err e) (l, w) =
      (some (ignore_http_not_found (some e)), (record l { ssl_cert = none }, w))
  populate panic s = (none, s)

  unfoldable pub populate_ssl_cert : State World → Done (State World)
  populate_ssl_cert (l, w) =
      if str_eq (expected_cert_name l w) []
      then (some none, (l, w))
      else populate (C.get_ssl_certificate (expected_cert_name l w) w) (l, w)

  -- The cert of the secret; without one the code panics.
  unfoldable pub create_cert : Str → TlsCerts → State World → Done (State World)
  create_cert name tls (l, w) =
      let done =
        C.create_ssl_certificate
          (record { name = name; self_link = []; certificate = tls.cert; private_key = tls.key })
          w in
      elim done.0 [
        | ok c ↦ (some none, (record l { old_ssl_cert = l.ssl_cert; ssl_cert = some c }, done.1))
        | err e ↦ (some (some e), (l, done.1))
        | panic ↦ (none, (l, done.1))
      ]

  unfoldable pub wrap_failure : Failure → Failure
  wrap_failure none = none
  wrap_failure (some e) = some (plain (codes "unable to delete ssl certificate"))

  unfoldable pub replace_cert : TlsCerts → State World → Done (State World)
  replace_cert tls (l, w) =
      let done = C.delete_ssl_certificate (next_certificate_name l) w in
      after (wrap_failure (ignore_http_not_found done.0), done.1) l
        (λ w'. create_cert (next_certificate_name l) tls (l, w'))

  unfoldable pub check_secret_cert : State World → Done (State World)
  check_secret_cert (l, w) = elim l.runtime_info.tls [
    | none ↦ (none, (l, w))
    | some tls ↦
        if has_certificate l.ssl_cert tls.cert then (some none, (l, w)) else replace_cert tls (l, w)
  ]

  unfoldable pub use_pre_shared : Result SslCertificate → State World → Done (State World)
  use_pre_shared (ok c) (l, w) = (some none, (record l { ssl_cert = some c }, w))
  use_pre_shared (err e) s = (some (some e), s)
  use_pre_shared panic s = (none, s)

  unfoldable pub check_ssl_cert : State World → Done (State World)
  check_ssl_cert (l, w) =
      if not (str_eq l.runtime_info.tls_name [])
      then use_pre_shared (C.get_ssl_certificate l.runtime_info.tls_name w) (l, w)
      else proceed (populate_ssl_cert (l, w)) check_secret_cert
