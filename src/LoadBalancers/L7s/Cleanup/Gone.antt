-- ===== src/LoadBalancers/L7s/Cleanup/Gone.antt =====
-- What a clean-up takes out of the cloud.
use ingress_gce.Base.{
  if_true, str_eq_iff, ◌∙◌, [], Str, Result, inl, inr, ◌≡◌, ap, Option, none, some,
}
use ingress_gce.LoadBalancers.{
  ForwardingRule, Address, TargetHttpProxy, TargetHttpsProxy, UrlMap, SslCertificate, L7,
  LoadBalancers, State,
}
use ingress_gce.LoadBalancers.L7s.{owned_cert, cleanup}
use ingress_gce.LoadBalancers.L7s.Cleanup.{IsMissing, Settled, Shrinks, CleanupLaws, Cleaning}
use ingress_gce.LoadBalancers.L7s.Cleanup.Whole.{cleanup-Cleaning, cleanup-HoldsNothing}

module _ {World : Type 0} (C : LoadBalancers World) (L : CleanupLaws C) where
  -- The cloud has none of the rules, proxies, address and url map that the load balancer holds, by their
  -- names, nor its current certificate, unless that is pre-shared. Nothing is said of the old certificate.
  pub record Vanished (l : L7) (w : World) : Type 0 where
    pub gone_fw :
        (r : ForwardingRule) → l.fw ≡ some r → IsMissing (C.get_global_forwarding_rule r.name w)
    pub gone_fws :
        (r : ForwardingRule) → l.fws ≡ some r → IsMissing (C.get_global_forwarding_rule r.name w)
    pub gone_ip : (r : Address) → l.ip ≡ some r → IsMissing (C.get_global_address r.name w)
    pub gone_tps :
        (r : TargetHttpsProxy) → l.tps ≡ some r → IsMissing (C.get_target_https_proxy r.name w)
    pub gone_cert :
        (r : SslCertificate)
        → l.runtime_info.tls_name ≡ []
        → l.ssl_cert ≡ some r
        → IsMissing (C.get_ssl_certificate r.name w)
    pub gone_tp :
        (r : TargetHttpProxy) → l.tp ≡ some r → IsMissing (C.get_target_http_proxy r.name w)
    pub gone_um : (r : UrlMap) → l.um ≡ some r → IsMissing (C.get_url_map r.name w)

  pub Vanished-Shrinks : (l : L7) (v w : World) → Shrinks C v w → Vanished l v → Vanished l w
  Vanished-Shrinks l v w s a = record {
    gone_fw = λ r e. s.no_rule r.name (a.gone_fw r e);
    gone_fws = λ r e. s.no_rule r.name (a.gone_fws r e);
    gone_ip = λ r e. s.no_address r.name (a.gone_ip r e);
    gone_tps = λ r e. s.no_https r.name (a.gone_tps r e);
    gone_cert = λ r p e. s.no_cert r.name (a.gone_cert r p e);
    gone_tp = λ r e. s.no_http r.name (a.gone_tp r e);
    gone_um = λ r e. s.no_map r.name (a.gone_um r e);
  }

  gone_of :
      {A : Type 0} (name : A → Str) (lookup : Str → Result A) (o p : Option A)
      → Settled name lookup o p
      → p ≡ none
      → (a : A) → o ≡ some a
      → IsMissing (lookup (name a))
  gone_of name lookup o p s e a f = elim s [
    | inl same ↦ absurd (cc (same, e, f))
    | inr (_, gone) ↦ gone a f
  ]

  cert_gone :
      (s t : State World)
      → Cleaning C s t
      → owned_cert t.0 ≡ none
      → (c : SslCertificate) → s.0.runtime_info.tls_name ≡ []
      → s.0.ssl_cert ≡ some c
      → IsMissing (C.get_ssl_certificate c.name t.1)
  unfolding owned_cert
  cert_gone s t k e c plain f = elim k.cert [
    | inl same ↦
        let kept : t.0.runtime_info.tls_name ≡ [] = ap (λ i. i.tls_name) k.info ∙ plain in
        let held : owned_cert t.0 ≡ t.0.ssl_cert =
          if_true _ _ ((str_eq_iff t.0.runtime_info.tls_name []).1 kept) in
        absurd (cc (held, same, e, f))
    | inr (_, gone) ↦ gone c f
  ]

  -- A clean-up that reports no error: the cloud has none of the resources that the load balancer held,
  -- except a pre-shared certificate and an old one.
  pub cleanup-Vanished :
      (s : State World) → (cleanup C s).0 ≡ some none → Vanished s.0 (cleanup C s).1.1
  cleanup-Vanished s h =
      let k = cleanup-Cleaning C L s in
      let z = cleanup-HoldsNothing C L s h in
      record {
        gone_fw = gone_of (λ r. ForwardingRule.name r) _ _ _ k.fw z.no_fw;
        gone_fws = gone_of (λ r. ForwardingRule.name r) _ _ _ k.fws z.no_fws;
        gone_ip = gone_of (λ r. Address.name r) _ _ _ k.ip z.no_ip;
        gone_tps = gone_of (λ r. TargetHttpsProxy.name r) _ _ _ k.tps z.no_tps;
        gone_cert = cert_gone s (cleanup C s).1 k z.no_owned;
        gone_tp = gone_of (λ r. TargetHttpProxy.name r) _ _ _ k.tp z.no_tp;
        gone_um = gone_of (λ r. UrlMap.name r) _ _ _ k.um z.no_um;
      }
