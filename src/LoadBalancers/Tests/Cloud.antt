-- ===== src/LoadBalancers/Tests/Cloud.antt =====
-- A cloud that has at most one resource of a kind, and a load balancer.
use ingress_gce.Base.{
  ◌≡◌, refl, ap, sym, subst, true, Option, none, some, [], ◌∷◌, Str, codes, str_eq, str_eq_refl,
  str_eq_iff, Result, ok, err, Failure, api, if◌then◌else◌, inl, inr, Bool-cases,
}
use ingress_gce.Base.Maps.{str_Eq}
use ingress_gce.Base.Outcome.{ok-injective}
use ingress_gce.LoadBalancers.{
  L7RuntimeInfo, TlsCerts, UrlMap, TargetHttpProxy, TargetHttpsProxy, ForwardingRule,
  SslCertificate, Address, L7, LoadBalancers,
}
use ingress_gce.LoadBalancers.ForwardingRules.Pointed.{RuleLaws}
use ingress_gce.LoadBalancers.Checks.Proxy.{ProxyLaws}
use ingress_gce.LoadBalancers.Certs.Secret.{CertLaws}
use ingress_gce.LoadBalancers.UrlMaps.Updates.{UrlMapLaws}

pub record World : Type 0 where
  pub rule : Option ForwardingRule
  pub um : Option UrlMap
  pub tp : Option TargetHttpProxy
  pub tps : Option TargetHttpsProxy
  pub cert : Option SslCertificate

module _ {A : Type 0} (name_of : A → Str) where
  unfoldable pub find : Option A → Str → Result A
  find none name = err (api 404 (codes "not found"))
  find (some a) name = if str_eq (name_of a) name then ok a else err (api 404 (codes "not found"))

  -- a name is free if there is no resource
  unfoldable pub make : A → Option A → Failure × Option A
  make a none = (none, some a)
  make a (some b) = (some (api 409 (codes "exists")), some b)

  unfoldable pub change : Str → (A → A) → Option A → Failure × Option A
  change name f none = (some (api 404 (codes "not found")), none)
  change name f (some a) =
      if str_eq (name_of a) name
      then (none, some (f a))
      else (some (api 404 (codes "not found")), some a)

  unfoldable pub drop : Str → Option A → Failure × Option A
  drop name none = (some (api 404 (codes "not found")), none)
  drop name (some a) =
      if str_eq (name_of a) name then (none, none) else (some (api 404 (codes "not found")), some a)

  find-name : (slot : Option A) (name : Str) (a : A) → find slot name ≡ ok a → name_of a ≡ name
  unfolding find
  find-name none name a h = absurd (cc h)
  find-name (some b) name a h = elim (Bool-cases (str_eq (name_of b) name)) [
    | inl e ↦
        subst (λ x. name_of x ≡ name) (ok-injective b a (rw e at h))
          ((str_eq_iff (name_of b) name).0 e)
    | inr e ↦ absurd (cc (rw e at h))
  ]

  find-make :
      (slot : Option A) (a b : A)
      → (make a slot).0 ≡ none
      → find (make a slot).1 (name_of a) ≡ ok b
      → b ≡ a
  unfolding find make
  find-make none a b h f = sym (ok-injective a b (rw (str_eq_refl (name_of a)) at f))
  find-make (some c) a b h f = absurd (cc h)

  find-change :
      (slot : Option A) (a : A) (f : A → A)
      → ((b : A) → name_of (f b) ≡ name_of b)
      → find slot (name_of a) ≡ ok a
      → find (change (name_of a) f slot).1 (name_of a) ≡ ok (f a)
  unfolding find change
  find-change none a f same h = absurd (cc h)
  find-change (some b) a f same h = elim (Bool-cases (str_eq (name_of b) (name_of a))) [
    | inl e ↦
        let eq = ok-injective b a (rw e at h) in
        rw (eq, str_eq_refl (name_of a), same a, str_eq_refl (name_of a)) refl
    | inr e ↦ absurd (cc (rw e at h))
  ]

abbrev pub rule_name : ForwardingRule → Str
rule_name r = r.name

abbrev pub map_name : UrlMap → Str
map_name r = r.name

abbrev pub proxy_name : TargetHttpProxy → Str
proxy_name r = r.name

abbrev pub https_name : TargetHttpsProxy → Str
https_name r = r.name

abbrev pub cert_name : SslCertificate → Str
cert_name r = r.name

abbrev pub linked : SslCertificate → SslCertificate
linked c = record c { self_link = c.name }

unfoldable pub created_cert :
    SslCertificate → Option SslCertificate → Result SslCertificate × Option SslCertificate
created_cert c none = (ok (linked c), some (linked c))
created_cert c (some d) = (err (api 409 (codes "exists")), some d)

abbrev pub address_of : Str → Result Address
address_of name = err (api 404 (codes "not found"))

abbrev pub refused : World → Failure × World
refused w = (some (api 403 (codes "forbidden")), w)

abbrev pub put_rule : World → Failure × Option ForwardingRule → Failure × World
put_rule w done = (done.0, record w { rule = done.1 })

abbrev pub put_um : World → Failure × Option UrlMap → Failure × World
put_um w done = (done.0, record w { um = done.1 })

abbrev pub put_tp : World → Failure × Option TargetHttpProxy → Failure × World
put_tp w done = (done.0, record w { tp = done.1 })

abbrev pub put_tps : World → Failure × Option TargetHttpsProxy → Failure × World
put_tps w done = (done.0, record w { tps = done.1 })

abbrev pub put_cert : World → Failure × Option SslCertificate → Failure × World
put_cert w done = (done.0, record w { cert = done.1 })

abbrev pub keep_cert :
    World → Result SslCertificate × Option SslCertificate → Result SslCertificate × World
keep_cert w done = (done.0, record w { cert = done.1 })

abbrev pub cloud : LoadBalancers World
cloud = record {
  get_global_forwarding_rule = λ name w. find rule_name w.rule name;
  create_global_forwarding_rule = λ r w. put_rule w (make rule_name r w.rule);
  delete_global_forwarding_rule = λ name w. put_rule w (drop rule_name name w.rule);
  set_proxy_for_global_forwarding_rule =
      λ name link w. put_rule w (change rule_name name (λ r. record r { target = link }) w.rule);
  get_url_map = λ name w. find map_name w.um name;
  create_url_map = λ um w. put_um w (make map_name (record um { self_link = um.name }) w.um);
  update_url_map = λ um w. put_um w (change map_name um.name (λ old. um) w.um);
  delete_url_map = λ name w. put_um w (drop map_name name w.um);
  get_target_http_proxy = λ name w. find proxy_name w.tp name;
  create_target_http_proxy =
      λ p w. put_tp w (make proxy_name (record p { self_link = p.name }) w.tp);
  delete_target_http_proxy = λ name w. put_tp w (drop proxy_name name w.tp);
  set_url_map_for_target_http_proxy =
      λ p um w. put_tp w (change proxy_name p.name (λ q. record q { url_map = um.self_link }) w.tp);
  get_target_https_proxy = λ name w. find https_name w.tps name;
  create_target_https_proxy =
      λ p w. put_tps w (make https_name (record p { self_link = p.name }) w.tps);
  delete_target_https_proxy = λ name w. put_tps w (drop https_name name w.tps);
  set_url_map_for_target_https_proxy = λ p um w.
      put_tps w (change https_name p.name (λ q. record q { url_map = um.self_link }) w.tps);
  set_ssl_certificate_for_target_https_proxy = λ p c w.
      put_tps w
        (change https_name p.name (λ q. record q { ssl_certificates = c.self_link ∷ [] }) w.tps);
  get_ssl_certificate = λ name w. find cert_name w.cert name;
  create_ssl_certificate = λ c w. keep_cert w (created_cert c w.cert);
  delete_ssl_certificate = λ name w. put_cert w (drop cert_name name w.cert);
  reserve_global_address = λ a w. refused w;
  get_global_address = λ name w. address_of name;
  delete_global_address = λ name w. refused w;
}

pub cloud-RuleLaws : RuleLaws cloud
cloud-RuleLaws = record {
  created = λ w r x h f.
      let same = find-make rule_name w.rule r x h f in
      (ap (λ y. y.target) same, ap (λ y. y.port_range) same);
  pointed = λ w fw link hit h.
      find-change rule_name w.rule fw (λ r. record r { target = link }) (λ r. refl) hit;
  named = λ w name fw hit. find-name rule_name w.rule name fw hit;
  create_keeps = λ w r. record { kept_http = λ k. refl; kept_https = λ k. refl };
  delete_keeps = λ w name. record { kept_http = λ k. refl; kept_https = λ k. refl };
  point_keeps = λ w name link. record { kept_http = λ k. refl; kept_https = λ k. refl };
}

created_cert-text :
    (slot : Option SslCertificate) (c x : SslCertificate)
    → (created_cert c slot).0 ≡ ok x
    → x.certificate ≡ c.certificate
unfolding created_cert
created_cert-text none c x h = ap (λ y. y.certificate) (sym (ok-injective (linked c) x h))
created_cert-text (some d) c x h = absurd (cc h)

pub cloud-CertLaws : CertLaws cloud
cloud-CertLaws = record { created = λ w c x h. created_cert-text w.cert c x h }

find-update :
    (slot : Option UrlMap) (um : UrlMap)
    → (change map_name um.name (λ old. um) slot).0 ≡ none
    → find map_name (change map_name um.name (λ old. um) slot).1 um.name ≡ ok um
unfolding find change
find-update none um h = absurd (cc h)
find-update (some b) um h = elim (Bool-cases (str_eq b.name um.name)) [
  | inl e ↦ rw (e, str_eq_refl um.name) refl
  | inr e ↦ absurd (cc (rw e at h))
]

pub cloud-UrlMapLaws : UrlMapLaws cloud
cloud-UrlMapLaws = record {
  updated = λ w um h. (
    um,
    find-update w.um um h,
    record { same_default = refl; same_hosts = refl; same_matchers = refl },
  );
}

pub cloud-ProxyLaws : ProxyLaws cloud
cloud-ProxyLaws = record {
  created = λ w p x h f.
      ap (λ y. y.url_map) (find-make proxy_name w.tp (record p { self_link = p.name }) x h f);
  linked = λ w p um hit h.
      find-change proxy_name w.tp p (λ q. record q { url_map = um.self_link }) (λ q. refl) hit;
  named = λ w name p hit. find-name proxy_name w.tp name p hit;
}

abbrev pub info : L7RuntimeInfo
info = record {
  name = codes "lb";
  ip = [];
  tls = some (record { key = codes "key"; cert = codes "cert"; chain = [] });
  tls_name = [];
  allow_http = true;
  static_ip_name = [];
}

abbrev pub tls : TlsCerts
tls = record { key = codes "key"; cert = codes "cert"; chain = [] }

abbrev pub um : UrlMap
um = record {
  name = codes "um";
  self_link = codes "links/um";
  default_service = codes "links/old";
  host_rules = [];
  path_matchers = [];
}

abbrev pub lb : L7
lb = record {
  name = codes "lb";
  runtime_info = info;
  um = some um;
  tp = none;
  tps = none;
  fw = none;
  fws = none;
  ip = none;
  ssl_cert = none;
  old_ssl_cert = none;
  glbc_default_backend = some (codes "links/default");
}

abbrev pub empty : World
empty = record { rule = none; um = some um; tp = none; tps = none; cert = none }

-- a rule and a proxy that point elsewhere
abbrev pub stale : World
stale = record {
  rule = some (record {
    name = codes "k8s-fw-lb";
    ip_address = [];
    target = codes "links/other";
    port_range = codes "80-80";
  });
  um = some um;
  tp = some (record {
    name = codes "k8s-tp-lb";
    self_link = codes "links/tp";
    url_map = codes "links/other";
  });
  tps = none;
  cert = none;
}
