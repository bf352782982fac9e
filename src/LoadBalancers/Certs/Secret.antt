-- ===== src/LoadBalancers/Certs/Secret.antt =====
-- The certificate of a secret, and the name of its successor.
use mathlib.Core.Option.{some-injective}
use ingress_gce.Base.{
  ◌≡◌, ◌≢◌, ◌≤◌, refl, ap, sym, subst, ◌∙◌, true, false, not, Option, none, some, [], ◌++◌, Str,
  codes, str_eq, str_eq_iff, length, length-append, Result, ok, err, panic, arith, Bool-cases,
  Option-cases, elim_some, if-cases, if_false, inl, inr, if◌then◌else◌,
}
use ingress_gce.Base.Outcome.{Result-cases}
use ingress_gce.Http.{ignore_http_not_found}
use ingress_gce.Namer.{ssl_cert}
use ingress_gce.Namer.Bounds.{truncate-short}
use ingress_gce.LoadBalancers.{
  TlsCerts, SslCertificate, L7, LoadBalancers, Done, State, proceed, after,
}
use ingress_gce.LoadBalancers.Certs.{
  cert_is_named, next_certificate_name, has_certificate, expected_cert_name, populate,
  populate_ssl_cert, create_cert, wrap_failure, replace_cert, check_secret_cert, check_ssl_cert,
}

pub proceed-none :
    {S : Type 0} (r : Done S) (next : S → Done S)
    → (proceed r next).0 ≡ some none
    → (r.0 ≡ some none) × (proceed r next ≡ next r.1)
unfolding proceed
proceed-none (some none, s) next h = (refl, refl)
proceed-none (some (some e), s) next h = absurd (cc (some-injective _ _ h))
proceed-none (none, s) next h = absurd (cc h)

names_differ :
    (name : Str) → length name ≤ 52 → str_eq (ssl_cert name true) (ssl_cert name false) ≡ false
unfolding ssl_cert
names_differ name h = elim (Bool-cases (str_eq (ssl_cert name true) (ssl_cert name false))) [
  | inl e ↦
      let first = codes "k8s-ssl-" ++ name in
      let second = codes "k8s-ssl-1-" ++ name in
      let short = length-append (codes "k8s-ssl-") name in
      let long = length-append (codes "k8s-ssl-1-") name in
      let same : first ≡ second =
        sym (truncate-short first (omega (arith, short, h)))
        ∙ ((str_eq_iff (ssl_cert name true) (ssl_cert name false)).0 e
            ∙ truncate-short second (omega (arith, long, h))) in
      absurd (omega (arith, short, long, ap length same))
  | inr e ↦ e
]

other_name :
    (c : Option SslCertificate) (a b : Str)
    → str_eq a b ≡ false
    → cert_is_named c a ≡ true
    → cert_is_named c b ≡ false
unfolding cert_is_named
other_name none a b ne h = refl
other_name (some c) a b ne h = subst (λ x. str_eq x b ≡ false) (sym ((str_eq_iff c.name a).0 h)) ne

next_certificate_name-other :
    (l : L7) → length l.name ≤ 52 → cert_is_named l.ssl_cert (next_certificate_name l) ≡ false
unfolding next_certificate_name cert_is_named
next_certificate_name-other l h =
    if-cases (cert_is_named l.ssl_cert (ssl_cert l.name true)) (ssl_cert l.name false)
      (ssl_cert l.name true) (λ k. cert_is_named l.ssl_cert k ≡ false)
      (λ e.
        other_name l.ssl_cert (ssl_cert l.name true) (ssl_cert l.name false) (names_differ l.name h)
          e)
      (λ e. e)

-- The name of the next certificate is not the name of the certificate that the load balancer holds, if
-- the load balancer's name has at most 52 bytes.
pub next_certificate_name_lem :
    (l : L7) (c : SslCertificate)
    → length l.name ≤ 52
    → l.ssl_cert ≡ some c
    → c.name ≢ next_certificate_name l
unfolding cert_is_named
next_certificate_name_lem l c h held same =
    let other = next_certificate_name-other l h in
    absurd (cc (held, other, (str_eq_iff c.name (next_certificate_name l)).1 same))

-- A certificate that was created with no error has the text that it was given.
pub record CertLaws {World : Type 0} (C : LoadBalancers World) : Type 0 where
  pub created :
      (w : World) (c x : SslCertificate)
      → (C.create_ssl_certificate c w).0 ≡ ok x
      → x.certificate ≡ c.certificate

-- The load balancer holds a certificate with the text.
pub HasCert : Str → L7 → Type 0
HasCert text l = (c : SslCertificate) × (l.ssl_cert ≡ some c) × (c.certificate ≡ text)

has_certificate-HasCert :
    (l : L7) (text : Str) → has_certificate l.ssl_cert text ≡ true → HasCert text l
unfolding has_certificate HasCert
has_certificate-HasCert l text h = elim (Option-cases l.ssl_cert) [
  | inl e ↦ absurd (cc (rw e at h))
  | inr (c, e) ↦ (c, e, sym ((str_eq_iff text c.certificate).0 (rw e at h)))
]

module _ {World : Type 0} (C : LoadBalancers World) (L : CertLaws C) where
  create_cert-HasCert :
      (name : Str) (tls : TlsCerts) (s : State World)
      → (create_cert C name tls s).0 ≡ some none
      → HasCert tls.cert (create_cert C name tls s).1.0
  unfolding create_cert HasCert
  create_cert-HasCert name tls s h =
      let made =
        C.create_ssl_certificate
          (record { name = name; self_link = []; certificate = tls.cert; private_key = tls.key })
          s.1 in
      elim (Result-cases made.0) [
        | inl (c, e) ↦ rw (create_cert, e) (c, refl, L.created s.1 _ c e)
        | inr (inl (x, e)) ↦ absurd (cc (some-injective _ _ (rw (create_cert, e) at h)))
        | inr (inr e) ↦ absurd (cc (rw (create_cert, e) at h))
      ]

  replace_cert-HasCert :
      (tls : TlsCerts) (s : State World)
      → (replace_cert C tls s).0 ≡ some none
      → HasCert tls.cert (replace_cert C tls s).1.0
  unfolding replace_cert after
  replace_cert-HasCert tls s h =
      let gone = C.delete_ssl_certificate (next_certificate_name s.0) s.1 in
      elim (Option-cases (wrap_failure C (ignore_http_not_found gone.0))) [
        | inl e ↦
            rw (replace_cert, after, e)
              (create_cert-HasCert (next_certificate_name s.0) tls (s.0, gone.1)
                (rw (replace_cert, after, e) at h))
        | inr (x, e) ↦ absurd (cc (some-injective _ _ (rw (replace_cert, after, e) at h)))
      ]

  check_secret_cert-HasCert :
      (tls : TlsCerts) (s : State World)
      → s.0.runtime_info.tls ≡ some tls
      → (check_secret_cert C s).0 ≡ some none
      → HasCert tls.cert (check_secret_cert C s).1.0
  unfolding check_secret_cert
  check_secret_cert-HasCert tls s e h =
      let run : check_secret_cert C s ≡ (
          if has_certificate s.0.ssl_cert tls.cert then (some none, s) else replace_cert C tls s) =
        elim_some _ _ e in
      subst (λ r. HasCert tls.cert r.1.0) (sym run)
        (if-cases (has_certificate s.0.ssl_cert tls.cert) (some none, s) (replace_cert C tls s)
          (λ r. r.0 ≡ some none → HasCert tls.cert r.1.0)
          (λ b fine. has_certificate-HasCert s.0 tls.cert b)
          (λ b fine. replace_cert-HasCert tls s fine) (sym (ap (λ r. r.0) run) ∙ h))

  populate-info :
      (found : Result SslCertificate) (s : State World)
      → (populate C found s).1.0.runtime_info ≡ s.0.runtime_info
  unfolding populate
  populate-info (ok c) s = refl
  populate-info (err e) s = refl
  populate-info panic s = refl

  populate_ssl_cert-info :
      (s : State World) → (populate_ssl_cert C s).1.0.runtime_info ≡ s.0.runtime_info
  unfolding populate_ssl_cert
  populate_ssl_cert-info s =
      if-cases (str_eq (expected_cert_name C s.0 s.1) []) (some none, s)
        (populate C (C.get_ssl_certificate (expected_cert_name C s.0 s.1) s.1) s)
        (λ r. r.1.0.runtime_info ≡ s.0.runtime_info) (λ b. refl)
        (λ b. populate-info (C.get_ssl_certificate (expected_cert_name C s.0 s.1) s.1) s)

  -- For an ingress with a secret and no pre-shared certificate, a check that reports no error leaves the
  -- load balancer with a certificate of the secret's text, the one that it had or a new one.
  pub check_ssl_cert-HasCert :
      (tls : TlsCerts) (s : State World)
      → s.0.runtime_info.tls_name ≡ []
      → s.0.runtime_info.tls ≡ some tls
      → (check_ssl_cert C s).0 ≡ some none
      → HasCert tls.cert (check_ssl_cert C s).1.0
  unfolding check_ssl_cert
  check_ssl_cert-HasCert tls s plain e h =
      let run : check_ssl_cert C s ≡ proceed (populate_ssl_cert C s) (check_secret_cert C) =
        if_false _ _ (ap not ((str_eq_iff s.0.runtime_info.tls_name []).1 plain)) in
      let (fine, next) =
        proceed-none (populate_ssl_cert C s) (check_secret_cert C) (sym (ap (λ r. r.0) run) ∙ h) in
      let both = run ∙ next in
      subst (λ r. HasCert tls.cert r.1.0) (sym both)
        (check_secret_cert-HasCert tls (populate_ssl_cert C s).1
          (ap (λ i. i.tls) (populate_ssl_cert-info s) ∙ e) (sym (ap (λ r. r.0) both) ∙ h))
