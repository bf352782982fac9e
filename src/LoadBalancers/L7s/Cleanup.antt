-- ===== src/LoadBalancers/L7s/Cleanup.antt =====
-- What a clean-up of a load balancer leaves, pkg/loadbalancers/loadbalancers.go.
pub mod Steps
pub mod Whole
pub mod Gone
use mathlib.Core.Option.{some-injective}
use mathlib.Core.Logic.{◌⊎◌}
use ingress_gce.Base.{
  ◌≡◌, refl, ap, sym, subst, ◌∙◌, Option, none, some, Str, Result, ok, err, panic, Failure,
  Option-cases, inl, inr, if-cases, str_eq, [],
}
use ingress_gce.Http.{ignore_http_not_found}
use ingress_gce.LoadBalancers.{
  L7RuntimeInfo, UrlMap, TargetHttpProxy, TargetHttpsProxy, ForwardingRule, SslCertificate, Address,
  L7, LoadBalancers, Done, State, proceed, after,
}
use ingress_gce.LoadBalancers.Certs.Secret.{proceed-none}
use ingress_gce.LoadBalancers.L7s.{
  owned_cert, discard, clean_fw, clean_fws, clean_ip, clean_tps, clean_cert, clean_tp, clean_um,
  cleanup,
}

-- A lookup found nothing.
abbrev pub IsMissing : {A : Type 0} → Result A → Type 0
IsMissing {A} r = (a : A) → ¬ (r ≡ ok a)

-- A resource that was held is still held, or it is not held any more and a lookup of its name, in the
-- cloud as it is now, finds nothing.
abbrev pub Settled : {A : Type 0} → (A → Str) → (Str → Result A) → Option A → Option A → Type 0
Settled {A} name lookup o o' =
    (o' ≡ o) ⊎ ((o' ≡ none) × ((a : A) → o ≡ some a → IsMissing (lookup (name a))))

Settled-trans :
    {A : Type 0} (name : A → Str) (before now : Str → Result A) (o p q : Option A)
    → ((k : Str) → IsMissing (before k) → IsMissing (now k))
    → Settled name before o p
    → Settled name now p q
    → Settled name now o q
Settled-trans {A} name before now o p q mono a b = elim a [
  | inl e ↦ subst (λ x. Settled name now x q) e b
  | inr (e, gone) ↦
      let missing : (a : A) → o ≡ some a → IsMissing (now (name a)) =
        λ x f. mono (name x) (gone x f) in
      elim b [ inl f ↦ inr (f ∙ e, missing) | inr (f, g) ↦ inr (f, missing) ]
]

pub Settled-none :
    {A : Type 0} (name : A → Str) (now : Str → Result A) (o p : Option A)
    → o ≡ none
    → Settled name now o p
    → p ≡ none
Settled-none name now o p e s = elim s [ inl f ↦ f ∙ e | inr (f, g) ↦ f ]

module _ {World : Type 0} (C : LoadBalancers World) where
  -- No resource appears.
  pub record Shrinks (v w : World) : Type 0 where
    pub no_rule :
        (k : Str)
        → IsMissing (C.get_global_forwarding_rule k v)
        → IsMissing (C.get_global_forwarding_rule k w)
    pub no_address :
        (k : Str) → IsMissing (C.get_global_address k v) → IsMissing (C.get_global_address k w)
    pub no_https :
        (k : Str)
        → IsMissing (C.get_target_https_proxy k v)
        → IsMissing (C.get_target_https_proxy k w)
    pub no_cert :
        (k : Str) → IsMissing (C.get_ssl_certificate k v) → IsMissing (C.get_ssl_certificate k w)
    pub no_http :
        (k : Str)
        → IsMissing (C.get_target_http_proxy k v)
        → IsMissing (C.get_target_http_proxy k w)
    pub no_map : (k : Str) → IsMissing (C.get_url_map k v) → IsMissing (C.get_url_map k w)

  pub Shrinks-refl : (w : World) → Shrinks w w
  Shrinks-refl w = record {
    no_rule = λ k m. m;
    no_address = λ k m. m;
    no_https = λ k m. m;
    no_cert = λ k m. m;
    no_http = λ k m. m;
    no_map = λ k m. m;
  }

  Shrinks-trans : (u v w : World) → Shrinks u v → Shrinks v w → Shrinks u w
  Shrinks-trans u v w a b = record {
    no_rule = λ k m. b.no_rule k (a.no_rule k m);
    no_address = λ k m. b.no_address k (a.no_address k m);
    no_https = λ k m. b.no_https k (a.no_https k m);
    no_cert = λ k m. b.no_cert k (a.no_cert k m);
    no_http = λ k m. b.no_http k (a.no_http k m);
    no_map = λ k m. b.no_map k (a.no_map k m);
  }

  -- After a deletion that reports no error but perhaps a 404 the resource is not found, and a deletion
  -- makes no resource appear.
  pub record DeleteLaws {A : Type 0} (delete : Str → World → Failure × World)
      (lookup : Str → World → Result A) : Type 0 where
    pub deleted :
        (k : Str) (w : World)
        → ignore_http_not_found (delete k w).0 ≡ none
        → IsMissing (lookup k (delete k w).1)
    pub shrinks : (k : Str) (w : World) → Shrinks w (delete k w).1

  pub record CleanupLaws : Type 0 where
    pub rules : DeleteLaws C.delete_global_forwarding_rule C.get_global_forwarding_rule
    pub addresses : DeleteLaws C.delete_global_address C.get_global_address
    pub https_proxies : DeleteLaws C.delete_target_https_proxy C.get_target_https_proxy
    pub certs : DeleteLaws C.delete_ssl_certificate C.get_ssl_certificate
    pub http_proxies : DeleteLaws C.delete_target_http_proxy C.get_target_http_proxy
    pub maps : DeleteLaws C.delete_url_map C.get_url_map

  -- Between two states every resource that the load balancer held is held or gone; the old certificate,
  -- which a clean-up does not delete, is held.
  pub record Cleaning (s t : State World) : Type 0 where
    pub shrinks : Shrinks s.1 t.1
    pub info : t.0.runtime_info ≡ s.0.runtime_info
    pub old : t.0.old_ssl_cert ≡ s.0.old_ssl_cert
    pub fw :
        Settled (λ r. ForwardingRule.name r) (λ k. C.get_global_forwarding_rule k t.1) s.0.fw t.0.fw
    pub fws :
        Settled
          (λ r. ForwardingRule.name r)
          (λ k. C.get_global_forwarding_rule k t.1)
          s.0.fws
          t.0.fws
    pub ip : Settled (λ r. Address.name r) (λ k. C.get_global_address k t.1) s.0.ip t.0.ip
    pub tps :
        Settled (λ r. TargetHttpsProxy.name r) (λ k. C.get_target_https_proxy k t.1) s.0.tps t.0.tps
    pub cert :
        Settled
          (λ r. SslCertificate.name r)
          (λ k. C.get_ssl_certificate k t.1)
          s.0.ssl_cert
          t.0.ssl_cert
    pub tp :
        Settled (λ r. TargetHttpProxy.name r) (λ k. C.get_target_http_proxy k t.1) s.0.tp t.0.tp
    pub um : Settled (λ r. UrlMap.name r) (λ k. C.get_url_map k t.1) s.0.um t.0.um

  -- The calls change the cloud only.
  pub Cleaning-same : (l : L7) (v w : World) → Shrinks v w → Cleaning (l, v) (l, w)
  Cleaning-same l v w s = record {
    shrinks = s;
    info = refl;
    old = refl;
    fw = inl refl;
    fws = inl refl;
    ip = inl refl;
    tps = inl refl;
    cert = inl refl;
    tp = inl refl;
    um = inl refl;
  }

  pub Cleaning-trans : (s t u : State World) → Cleaning s t → Cleaning t u → Cleaning s u
  Cleaning-trans s t u a b = record {
    shrinks = Shrinks-trans s.1 t.1 u.1 a.shrinks b.shrinks;
    info = b.info ∙ a.info;
    old = b.old ∙ a.old;
    fw = Settled-trans _ _ _ _ _ _ b.shrinks.no_rule a.fw b.fw;
    fws = Settled-trans _ _ _ _ _ _ b.shrinks.no_rule a.fws b.fws;
    ip = Settled-trans _ _ _ _ _ _ b.shrinks.no_address a.ip b.ip;
    tps = Settled-trans _ _ _ _ _ _ b.shrinks.no_https a.tps b.tps;
    cert = Settled-trans _ _ _ _ _ _ b.shrinks.no_cert a.cert b.cert;
    tp = Settled-trans _ _ _ _ _ _ b.shrinks.no_http a.tp b.tp;
    um = Settled-trans _ _ _ _ _ _ b.shrinks.no_map a.um b.um;
  }

  -- How a deletion of one resource can end.
  pub discard-cases :
      {A : Type 0} (o : Option A) (name : A → Str) (delete : Str → World → Failure × World)
      (clear : L7 → L7) (lookup : Str → World → Result A) (s : State World)
      (P : State World → Type 0)
      → DeleteLaws delete lookup
      → ((w : World) → Shrinks s.1 w → P (s.0, w))
      → ((w : World)
          → Shrinks s.1 w
          → ((a : A) → o ≡ some a → IsMissing (lookup (name a) w))
          → P (clear s.0, w))
      → P (discard o name delete clear s).1
  unfolding discard after
  discard-cases none name delete clear lookup s P laws same cleared = same s.1 (Shrinks-refl s.1)
  discard-cases {A} (some a) name delete clear lookup s P laws same cleared =
      let done = delete (name a) s.1 in
      let less = laws.shrinks (name a) s.1 in
      elim (Option-cases (ignore_http_not_found done.0)) [
        | inl e ↦
            let gone : (b : A) → some a ≡ some b → IsMissing (lookup (name b) done.1) = λ b f.
              subst (λ x. IsMissing (lookup (name x) done.1)) (some-injective a b f)
                (laws.deleted (name a) s.1 e) in
            rw (discard, after, e) (cleared done.1 less gone)
        | inr (x, e) ↦ rw (discard, after, e) (same done.1 less)
      ]

  pub discard-none :
      {A B : Type 0} (o : Option A) (name : A → Str) (delete : Str → World → Failure × World)
      (clear : L7 → L7) (s : State World) (field : L7 → Option B)
      → (o ≡ none → field s.0 ≡ none)
      → ((l : L7) → field (clear l) ≡ none)
      → (discard o name delete clear s).0 ≡ some none
      → field (discard o name delete clear s).1.0 ≡ none
  unfolding discard after
  discard-none none name delete clear s field absent cleared h = absent refl
  discard-none (some a) name delete clear s field absent cleared h =
      elim (Option-cases (ignore_http_not_found (delete (name a) s.1).0)) [
        | inl e ↦ rw (discard, after, e) (cleared s.0)
        | inr (x, e) ↦ absurd (cc (some-injective _ _ (rw (discard, after, e) at h)))
      ]

  pub proceed-Cleaning :
      (r : Done (State World)) (next : State World → Done (State World))
      → ((t : State World) → Cleaning t (next t).1)
      → Cleaning r.1 (proceed r next).1
  unfolding proceed
  proceed-Cleaning (some none, t) next c = c t
  proceed-Cleaning (some (some e), (l, w)) next c = Cleaning-same l w w (Shrinks-refl w)
  proceed-Cleaning (none, (l, w)) next c = Cleaning-same l w w (Shrinks-refl w)
