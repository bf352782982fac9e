-- ===== src/LoadBalancers/ForwardingRules/Pointed.antt =====
-- A forwarding rule after its check.
use mathlib.Core.Option.{some-injective}
use ingress_gce.Base.{
  ◌≡◌, refl, sym, subst, ◌∙◌, false, none, some, Str, str_eq_iff, ok, arith, Bool-cases,
  Option-cases, inl, inr,
}
use ingress_gce.Base.Outcome.{Result-cases}
use ingress_gce.Http.{ignore_http_not_found, compare_links}
use ingress_gce.LoadBalancers.{ForwardingRule, LoadBalancers}
use ingress_gce.LoadBalancers.ForwardingRules.{
  point_rule, found_rule, create_rule, is_wrong, recreate_rule, check_forwarding_rule,
}

module _ {World : Type 0} (C : LoadBalancers World) where
  -- The calls between two states change no proxy.
  pub record KeepsProxies (v w : World) : Type 0 where
    pub kept_http : (k : Str) → C.get_target_http_proxy k v ≡ C.get_target_http_proxy k w
    pub kept_https : (k : Str) → C.get_target_https_proxy k v ≡ C.get_target_https_proxy k w

  -- A rule that was created or pointed elsewhere with no error is found so, under its name, and the calls
  -- on rules change no proxy.
  pub record RuleLaws : Type 0 where
    pub created :
        (w : World) (r x : ForwardingRule)
        → (C.create_global_forwarding_rule r w).0 ≡ none
        → C.get_global_forwarding_rule r.name (C.create_global_forwarding_rule r w).1 ≡ ok x
        → (x.target ≡ r.target) × (x.port_range ≡ r.port_range)
    pub pointed :
        (w : World) (fw : ForwardingRule) (link : Str)
        → C.get_global_forwarding_rule fw.name w ≡ ok fw
        → (C.set_proxy_for_global_forwarding_rule fw.name link w).0 ≡ none
        → C.get_global_forwarding_rule fw.name
            (C.set_proxy_for_global_forwarding_rule fw.name link w).1
          ≡ ok (record fw { target = link })
    pub named :
        (w : World) (name : Str) (fw : ForwardingRule)
        → C.get_global_forwarding_rule name w ≡ ok fw
        → fw.name ≡ name
    pub create_keeps :
        (w : World) (r : ForwardingRule) → KeepsProxies (C.create_global_forwarding_rule r w).1 w
    pub delete_keeps :
        (w : World) (name : Str) → KeepsProxies (C.delete_global_forwarding_rule name w).1 w
    pub point_keeps :
        (w : World) (name link : Str)
        → KeepsProxies (C.set_proxy_for_global_forwarding_rule name link w).1 w

  KeepsProxies-refl : (w : World) → KeepsProxies w w
  KeepsProxies-refl w = record { kept_http = λ k. refl; kept_https = λ k. refl }

  pub KeepsProxies-trans : (u v w : World) → KeepsProxies u v → KeepsProxies v w → KeepsProxies u w
  KeepsProxies-trans u v w a b = record {
    kept_http = λ k. a.kept_http k ∙ b.kept_http k;
    kept_https = λ k. a.kept_https k ∙ b.kept_https k;
  }

  -- The rule of the name is for the ports and points to the link, and the proxies are as they were.
  pub record Pointed (name link range : Str) (before after : World) : Type 0 where
    pub rule : ForwardingRule
    pub stored : C.get_global_forwarding_rule name after ≡ ok rule
    pub to_link : rule.target ≡ link
    pub for_range : rule.port_range ≡ range
    pub keeps : KeepsProxies after before

  module _ (L : RuleLaws) where
    point_rule-Pointed :
        (name link range : Str) (fw x : ForwardingRule) (w : World)
        → C.get_global_forwarding_rule name w ≡ ok fw
        → fw.port_range ≡ range
        → (point_rule C link fw w).0 ≡ some (ok x)
        → Pointed name link range w (point_rule C link fw w).1
    unfolding point_rule compare_links
    point_rule-Pointed name link range fw x w hit ports h =
        let same = L.named w name fw hit in
        let done = C.set_proxy_for_global_forwarding_rule fw.name link w in
        elim (Bool-cases (compare_links fw.target link)) [
          | inl b ↦
              rw (point_rule, b)
                (record {
                  rule = fw;
                  stored = hit;
                  to_link = (str_eq_iff fw.target link).0 (ground (arith, b));
                  for_range = ports;
                  keeps = KeepsProxies-refl w;
                })
          | inr b ↦ elim (Option-cases done.0) [
            | inl e ↦
                rw (point_rule, b, e)
                  (record {
                    rule = record fw { target = link };
                    stored =
                        subst
                          (λ k.
                            C.get_global_forwarding_rule k done.1
                            ≡ ok (record fw { target = link }))
                          same
                          (L.pointed w fw link
                            (subst (λ k. C.get_global_forwarding_rule k w ≡ ok fw) (sym same) hit)
                            e);
                    to_link = refl;
                    for_range = ports;
                    keeps = L.point_keeps w fw.name link;
                  })
            | inr (y, e) ↦ absurd (cc (some-injective _ _ (rw (point_rule, b, e) at h)))
          ]
        ]

    later :
        (name link range : Str) (u v w : World)
        → KeepsProxies v u
        → Pointed name link range v w
        → Pointed name link range u w
    later name link range u v w k p = record {
      rule = p.rule;
      stored = p.stored;
      to_link = p.to_link;
      for_range = p.for_range;
      keeps = KeepsProxies-trans w v u p.keeps k;
    }

    create_rule-Pointed :
        (name link ip range : Str) (x : ForwardingRule) (w : World)
        → (create_rule C name link ip range w).0 ≡ some (ok x)
        → Pointed name link range w (create_rule C name link ip range w).1
    unfolding create_rule found_rule
    create_rule-Pointed name link ip range x w h =
        let r : ForwardingRule = record {
          name = name;
          ip_address = ip;
          target = link;
          port_range = range;
        } in
        let done = C.create_global_forwarding_rule r w in
        elim (Option-cases done.0) [
          | inl e ↦ elim (Result-cases (C.get_global_forwarding_rule name done.1)) [
            | inl (fw, f) ↦
                rw (create_rule, e, f)
                  (later name link range w done.1 _ (L.create_keeps w r) (
                    point_rule-Pointed name link range fw x done.1 f (L.created w r fw e f).1
                      (rw (create_rule, e, f) at h)))
            | inr (inl (y, f)) ↦ absurd (cc (some-injective _ _ (rw (create_rule, e, f) at h)))
            | inr (inr f) ↦ absurd (cc (rw (create_rule, e, f) at h))
          ]
          | inr (y, e) ↦ absurd (cc (some-injective _ _ (rw (create_rule, e) at h)))
        ]

    recreate_rule-Pointed :
        (name link ip range : Str) (x : ForwardingRule) (w : World)
        → (recreate_rule C name link ip range w).0 ≡ some (ok x)
        → Pointed name link range w (recreate_rule C name link ip range w).1
    unfolding recreate_rule
    recreate_rule-Pointed name link ip range x w h =
        let done = C.delete_global_forwarding_rule name w in
        elim (Option-cases (ignore_http_not_found done.0)) [
          | inl e ↦
              rw (recreate_rule, e)
                (later name link range w done.1 _ (L.delete_keeps w name)
                  (create_rule-Pointed name link ip range x done.1 (rw (recreate_rule, e) at h)))
          | inr (y, e) ↦ absurd (cc (some-injective _ _ (rw (recreate_rule, e) at h)))
        ]

    range_of :
        (fw : ForwardingRule) (ip range : Str)
        → is_wrong C fw ip range ≡ false
        → fw.port_range ≡ range
    unfolding is_wrong
    range_of fw ip range h = (str_eq_iff fw.port_range range).0 (ground (arith, h))

    -- A check of a forwarding rule that gives one, found, pointed elsewhere or made anew: the cloud's rule
    -- of the name is for the ports and points to the proxy, and no proxy was changed.
    pub check_forwarding_rule-Pointed :
        (name link ip range : Str) (x : ForwardingRule) (w : World)
        → (check_forwarding_rule C name link ip range w).0 ≡ some (ok x)
        → Pointed name link range w (check_forwarding_rule C name link ip range w).1
    unfolding check_forwarding_rule
    check_forwarding_rule-Pointed name link ip range x w h =
        elim (Result-cases (C.get_global_forwarding_rule name w)) [
          | inl (fw, e) ↦ elim (Bool-cases (is_wrong C fw ip range)) [
            | inl b ↦
                rw (check_forwarding_rule, e, b)
                  (recreate_rule-Pointed name link ip range x w
                    (rw (check_forwarding_rule, e, b) at h))
            | inr b ↦
                rw (check_forwarding_rule, e, b)
                  (point_rule-Pointed name link range fw x w e (range_of fw ip range b)
                    (rw (check_forwarding_rule, e, b) at h))
          ]
          | inr (inl (y, e)) ↦
              rw (check_forwarding_rule, e)
                (create_rule-Pointed name link ip range x w (rw (check_forwarding_rule, e) at h))
          | inr (inr e) ↦ absurd (cc (rw (check_forwarding_rule, e) at h))
        ]
