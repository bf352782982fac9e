-- ===== src/LoadBalancers/Checks/Chain.antt =====
-- The chain from the forwarding rule over the proxy to the url map.
use ingress_gce.Base.{◌≡◌, ap, sym, subst, ◌∙◌, none, some, Str, ok, elim_some}
use ingress_gce.Namer.{target_proxy, forwarding_rule}
use ingress_gce.LoadBalancers.{
  http, http_default_port_range, L7, UrlMap, TargetHttpProxy, ForwardingRule, LoadBalancers, Done,
  State,
}
use ingress_gce.LoadBalancers.Certs.Secret.{proceed-none}
use ingress_gce.LoadBalancers.Checks.{
  with_name, check_proxy, check_http_forwarding_rule, edge_hop_http,
}
use ingress_gce.LoadBalancers.ForwardingRules.{check_forwarding_rule, effective_ip, with_rule}
use ingress_gce.LoadBalancers.ForwardingRules.Pointed.{
  RuleLaws, Pointed, check_forwarding_rule-Pointed,
}
use ingress_gce.LoadBalancers.Checks.Proxy.{
  with_name-none, with_rule-none, ProxyLaws, check_proxy-Linked,
}

module _ {World : Type 0} (C : LoadBalancers World) where
  -- In the cloud, the load balancer's rule for port 80 points to its proxy, which links to the url map.
  pub record HttpChain (l : L7) (um : UrlMap) (w : World) : Type 0 where
    pub proxy_name : Str
    pub rule_name : Str
    pub proxy : TargetHttpProxy
    pub rule : ForwardingRule
    pub proxy_named : target_proxy l.name http ≡ some proxy_name
    pub rule_named : forwarding_rule l.name http ≡ some rule_name
    pub proxy_stored : C.get_target_http_proxy proxy_name w ≡ ok proxy
    pub rule_stored : C.get_global_forwarding_rule rule_name w ≡ ok rule
    pub rule_target : rule.target ≡ proxy.self_link
    pub rule_range : rule.port_range ≡ http_default_port_range
    pub proxy_map : proxy.url_map ≡ um.self_link

  module _ (P : ProxyLaws C) (L : RuleLaws C) where
    check_http_forwarding_rule-Pointed :
        (tp : TargetHttpProxy) (l : L7) (w : World)
        → l.tp ≡ some tp
        → (check_http_forwarding_rule C (l, w)).0 ≡ some none
        → (name : Str) × (forwarding_rule l.name http ≡ some name)
          × Pointed C name tp.self_link http_default_port_range w
              (check_http_forwarding_rule C (l, w)).1.1
    unfolding check_http_forwarding_rule
    check_http_forwarding_rule-Pointed tp l w e h =
        let named = forwarding_rule l.name http in
        let ip = (effective_ip C l w).0 in
        let set : ForwardingRule → L7 = λ fw. record l { fw = some fw } in
        let step : Str → Done (State World) = λ name.
          with_rule C (check_forwarding_rule C name tp.self_link ip http_default_port_range w) l
            set in
        let run : check_http_forwarding_rule C (l, w) ≡ with_name named (l, w) step =
          elim_some _ _ e in
        let (name, known, next) = with_name-none named (l, w) step (sym (ap (λ r. r.0) run) ∙ h) in
        let both = run ∙ next in
        let check = check_forwarding_rule C name tp.self_link ip http_default_port_range w in
        let (fw, found, kept) = with_rule-none C check l set (sym (ap (λ r. r.0) both) ∙ h) in
        (
          name,
          known,
          subst (λ v. Pointed C name tp.self_link http_default_port_range w v)
              (sym (ap (λ r. r.1.1) both ∙ ap (λ s. s.1) kept))
              (check_forwarding_rule-Pointed C L name tp.self_link ip http_default_port_range fw w
                found),
        )

    -- An HTTP edge hop that reports no error, of a load balancer with a url map: in the cloud its rule for
    -- port 80, found, pointed elsewhere or made, points to its proxy, which links to the url map.
    pub edge_hop_http-HttpChain :
        (um : UrlMap) (l : L7) (w : World)
        → l.um ≡ some um
        → (edge_hop_http C (l, w)).0 ≡ some none
        → HttpChain l um (edge_hop_http C (l, w)).1.1
    unfolding edge_hop_http
    edge_hop_http-HttpChain um l w e h =
        let (fine, next) = proceed-none (check_proxy C (l, w)) (check_http_forwarding_rule C) h in
        let mid = (check_proxy C (l, w)).1 in
        let (proxy_name, proxy_named, linked) = check_proxy-Linked C P um l w e fine in
        let (rule_name, rule_named, pointed) =
          check_http_forwarding_rule-Pointed linked.kept mid.0 mid.1 linked.held
            (sym (ap (λ r. r.0) next) ∙ h) in
        subst (λ v. HttpChain l um v) (sym (ap (λ r. r.1.1) next))
          (record {
            proxy_name = proxy_name;
            rule_name = rule_name;
            proxy = linked.proxy;
            rule = pointed.rule;
            proxy_named = proxy_named;
            rule_named = ap (λ k. forwarding_rule k http) (sym linked.same_name) ∙ rule_named;
            proxy_stored = pointed.keeps.kept_http proxy_name ∙ linked.stored;
            rule_stored = pointed.stored;
            rule_target = pointed.to_link ∙ linked.same_link;
            rule_range = pointed.for_range;
            proxy_map = linked.to_map;
          })
