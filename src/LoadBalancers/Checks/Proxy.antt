-- ===== src/LoadBalancers/Checks/Proxy.antt =====
-- The HTTP proxy of a load balancer after its check.
use mathlib.Core.Option.{some-injective}
use ingress_gce.Base.{
  ◌≡◌, refl, ap, sym, subst, ◌∙◌, Option, none, some, [], Str, str_eq_iff, Result, ok, err, panic,
  arith, Bool-cases, Option-cases, elim_some, inl, inr,
}
use ingress_gce.Base.Outcome.{Result-cases}
use ingress_gce.Http.{compare_links}
use ingress_gce.Namer.{target_proxy}
use ingress_gce.LoadBalancers.{
  http, L7, UrlMap, TargetHttpProxy, ForwardingRule, LoadBalancers, Done, State, after, with_found,
}
use ingress_gce.LoadBalancers.Checks.{with_name, correct_proxy, create_proxy, check_proxy}
use ingress_gce.LoadBalancers.ForwardingRules.{with_rule}

pub with_name-none :
    {S : Type 0} (o : Option Str) (s : S) (next : Str → Done S)
    → (with_name o s next).0 ≡ some none
    → (name : Str) × (o ≡ some name) × (with_name o s next ≡ next name)
unfolding with_name
with_name-none none s next h = absurd (cc h)
with_name-none (some name) s next h = (name, refl, refl)

module _ {World : Type 0} (C : LoadBalancers World) where
  pub with_rule-none :
      (r : Option (Result ForwardingRule) × World) (l : L7) (set : ForwardingRule → L7)
      → (with_rule C r l set).0 ≡ some none
      → (fw : ForwardingRule) × (r.0 ≡ some (ok fw)) × ((with_rule C r l set).1 ≡ (set fw, r.1))
  unfolding with_rule
  with_rule-none (some (ok fw), w) l set h = (fw, refl, refl)
  with_rule-none (some (err e), w) l set h = absurd (cc (some-injective _ _ h))
  with_rule-none (some panic, w) l set h = absurd (cc h)
  with_rule-none (none, w) l set h = absurd (cc h)

  -- A proxy that was created or linked elsewhere with no error is found so, under its name.
  pub record ProxyLaws : Type 0 where
    pub created :
        (w : World) (p x : TargetHttpProxy)
        → (C.create_target_http_proxy p w).0 ≡ none
        → C.get_target_http_proxy p.name (C.create_target_http_proxy p w).1 ≡ ok x
        → x.url_map ≡ p.url_map
    pub linked :
        (w : World) (p : TargetHttpProxy) (um : UrlMap)
        → C.get_target_http_proxy p.name w ≡ ok p
        → (C.set_url_map_for_target_http_proxy p um w).0 ≡ none
        → C.get_target_http_proxy p.name (C.set_url_map_for_target_http_proxy p um w).1
          ≡ ok (record p { url_map = um.self_link })
    pub named :
        (w : World) (name : Str) (p : TargetHttpProxy)
        → C.get_target_http_proxy name w ≡ ok p
        → p.name ≡ name

  -- The proxy under the name links to the url map, and the load balancer, whose name is kept, has its
  -- link.
  pub record Linked (l : L7) (name : Str) (um : UrlMap) (s : State World) : Type 0 where
    pub proxy : TargetHttpProxy
    pub kept : TargetHttpProxy
    pub stored : C.get_target_http_proxy name s.1 ≡ ok proxy
    pub to_map : proxy.url_map ≡ um.self_link
    pub held : s.0.tp ≡ some kept
    pub same_link : kept.self_link ≡ proxy.self_link
    pub same_name : s.0.name ≡ l.name

  module _ (P : ProxyLaws) where
    correct_proxy-Linked :
        (name : Str) (um : UrlMap) (proxy : TargetHttpProxy) (l : L7) (w : World)
        → C.get_target_http_proxy name w ≡ ok proxy
        → (correct_proxy C um proxy (l, w)).0 ≡ some none
        → Linked l name um (correct_proxy C um proxy (l, w)).1
    unfolding correct_proxy after compare_links
    correct_proxy-Linked name um proxy l w hit h =
        let same = P.named w name proxy hit in
        let done = C.set_url_map_for_target_http_proxy proxy um w in
        elim (Bool-cases (compare_links proxy.url_map um.self_link)) [
          | inl b ↦
              rw (correct_proxy, b)
                (record {
                  proxy = proxy;
                  kept = proxy;
                  stored = hit;
                  to_map = (str_eq_iff proxy.url_map um.self_link).0 (ground (arith, b));
                  held = refl;
                  same_link = refl;
                  same_name = refl;
                })
          | inr b ↦ elim (Option-cases done.0) [
            | inl e ↦
                rw (correct_proxy, b, after, e)
                  (record {
                    proxy = record proxy { url_map = um.self_link };
                    kept = proxy;
                    stored =
                        subst
                          (λ k.
                            C.get_target_http_proxy k done.1
                            ≡ ok (record proxy { url_map = um.self_link }))
                          same
                          (P.linked w proxy um
                            (subst (λ k. C.get_target_http_proxy k w ≡ ok proxy) (sym same) hit) e);
                    to_map = refl;
                    held = refl;
                    same_link = refl;
                    same_name = refl;
                  })
            | inr (y, e) ↦ absurd (cc (some-injective _ _ (rw (correct_proxy, b, after, e) at h)))
          ]
        ]

    create_proxy-Linked :
        (name : Str) (um : UrlMap) (l : L7) (w : World)
        → (create_proxy C name um (l, w)).0 ≡ some none
        → Linked l name um (create_proxy C name um (l, w)).1
    unfolding create_proxy after with_found
    create_proxy-Linked name um l w h =
        let p : TargetHttpProxy = record { name = name; self_link = []; url_map = um.self_link } in
        let done = C.create_target_http_proxy p w in
        elim (Option-cases done.0) [
          | inl e ↦ elim (Result-cases (C.get_target_http_proxy name done.1)) [
            | inl (x, f) ↦
                rw (create_proxy, after, e, with_found, f)
                  (record {
                    proxy = x;
                    kept = x;
                    stored = f;
                    to_map = P.created w p x e f;
                    held = refl;
                    same_link = refl;
                    same_name = refl;
                  })
            | inr (inl (y, f)) ↦
                absurd (cc (some-injective _ _ (rw (create_proxy, after, e, with_found, f) at h)))
            | inr (inr f) ↦ absurd (cc (rw (create_proxy, after, e, with_found, f) at h))
          ]
          | inr (y, e) ↦ absurd (cc (some-injective _ _ (rw (create_proxy, after, e) at h)))
        ]

    pub check_proxy-Linked :
        (um : UrlMap) (l : L7) (w : World)
        → l.um ≡ some um
        → (check_proxy C (l, w)).0 ≡ some none
        → (name : Str) × (target_proxy l.name http ≡ some name)
          × Linked l name um (check_proxy C (l, w)).1
    unfolding check_proxy
    check_proxy-Linked um l w e h =
        let named = target_proxy l.name http in
        let step : Str → Done (State World) = λ name. elim (C.get_target_http_proxy name w) [
          | ok proxy ↦ correct_proxy C um proxy (l, w)
          | err e ↦ create_proxy C name um (l, w)
          | panic ↦ (none, (l, w))
        ] in
        let run : check_proxy C (l, w) ≡ with_name named (l, w) step = elim_some _ _ e in
        let (name, known, next) = with_name-none named (l, w) step (sym (ap (λ r. r.0) run) ∙ h) in
        let both = run ∙ next in
        let fine = sym (ap (λ r. r.0) both) ∙ h in
        (
          name,
          known,
          subst (λ r. Linked l name um r.1) (sym both)
              (elim (Result-cases (C.get_target_http_proxy name w)) [
                | inl (proxy, f) ↦ rw f (correct_proxy-Linked name um proxy l w f (rw f at fine))
                | inr (inl (y, f)) ↦ rw f (create_proxy-Linked name um l w (rw f at fine))
                | inr (inr f) ↦ absurd (cc (rw f at fine))
              ]),
        )
