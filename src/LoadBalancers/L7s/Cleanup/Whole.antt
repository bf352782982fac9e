-- ===== src/LoadBalancers/L7s/Cleanup/Whole.antt =====
-- A whole clean-up.
use ingress_gce.Base.{
  inl, inr, if-cases, str_eq, [], if◌then◌else◌, ◌≡◌, refl, ap, sym, subst, ◌∙◌, Option, none, some,
}
use ingress_gce.LoadBalancers.{
  ForwardingRule, Address, TargetHttpProxy, TargetHttpsProxy, SslCertificate, L7, LoadBalancers,
  Done, State, proceed,
}
use ingress_gce.LoadBalancers.Certs.Secret.{proceed-none}
use ingress_gce.LoadBalancers.L7s.{
  owned_cert, clean_fw, clean_fws, clean_ip, clean_tps, clean_cert, clean_tp, clean_um, cleanup,
}
use ingress_gce.LoadBalancers.L7s.Cleanup.{
  Settled-none, CleanupLaws, Cleaning, Cleaning-trans, discard-none, proceed-Cleaning,
}
use ingress_gce.LoadBalancers.L7s.Cleanup.Steps.{
  clean_fw-Cleaning, clean_fws-Cleaning, clean_ip-Cleaning, clean_tps-Cleaning, clean_cert-Cleaning,
  clean_tp-Cleaning, clean_um-Cleaning,
}

-- The load balancer holds no resource, but perhaps a certificate that it does not own.
pub record HoldsNothing (l : L7) : Type 0 where
  pub no_fw : l.fw ≡ none
  pub no_fws : l.fws ≡ none
  pub no_ip : l.ip ≡ none
  pub no_tps : l.tps ≡ none
  pub no_owned : owned_cert l ≡ none
  pub no_tp : l.tp ≡ none
  pub no_um : l.um ≡ none

-- from the first states of a run to its last
module _ {World : Type 0} (C : LoadBalancers World) (L : CleanupLaws C) where
  abbrev upto_fws : State World → Done (State World)
  upto_fws s = proceed (clean_fw C s) (clean_fws C)

  abbrev upto_ip : State World → Done (State World)
  upto_ip s = proceed (upto_fws s) (clean_ip C)

  abbrev upto_tps : State World → Done (State World)
  upto_tps s = proceed (upto_ip s) (clean_tps C)

  abbrev upto_cert : State World → Done (State World)
  upto_cert s = proceed (upto_tps s) (clean_cert C)

  abbrev upto_tp : State World → Done (State World)
  upto_tp s = proceed (upto_cert s) (clean_tp C)

  last : (s : State World) → Cleaning C (upto_tp s).1 (cleanup C s).1
  unfolding cleanup
  last s = proceed-Cleaning C (upto_tp s) (clean_um C) (clean_um-Cleaning C L)

  from_cert : (s : State World) → Cleaning C (upto_cert s).1 (cleanup C s).1
  from_cert s =
      Cleaning-trans C _ _ _ (proceed-Cleaning C (upto_cert s) (clean_tp C) (clean_tp-Cleaning C L))
        (last s)

  from_tps : (s : State World) → Cleaning C (upto_tps s).1 (cleanup C s).1
  from_tps s =
      Cleaning-trans C _ _ _
        (proceed-Cleaning C (upto_tps s) (clean_cert C) (clean_cert-Cleaning C L)) (from_cert s)

  from_ip : (s : State World) → Cleaning C (upto_ip s).1 (cleanup C s).1
  from_ip s =
      Cleaning-trans C _ _ _ (proceed-Cleaning C (upto_ip s) (clean_tps C) (clean_tps-Cleaning C L))
        (from_tps s)

  from_fws : (s : State World) → Cleaning C (upto_fws s).1 (cleanup C s).1
  from_fws s =
      Cleaning-trans C _ _ _ (proceed-Cleaning C (upto_fws s) (clean_ip C) (clean_ip-Cleaning C L))
        (from_ip s)

  from_fw : (s : State World) → Cleaning C (clean_fw C s).1 (cleanup C s).1
  from_fw s =
      Cleaning-trans C _ _ _
        (proceed-Cleaning C (clean_fw C s) (clean_fws C) (clean_fws-Cleaning C L)) (from_fws s)

  -- Whatever the outcome of a clean-up, each forwarding rule, address, proxy, current certificate and url
  -- map that the load balancer held it still holds, or its name is not found in the cloud any more; the
  -- old certificate it still holds, no resource appears and the runtime info is kept.
  pub cleanup-Cleaning : (s : State World) → Cleaning C s (cleanup C s).1
  cleanup-Cleaning s = Cleaning-trans C _ _ _ (clean_fw-Cleaning C L s) (from_fw s)

  -- what a step that reported no error has made of the field that it clears
  step-none :
      {A : Type 0} (field : L7 → Option A) (r : Done (State World))
      (next : State World → Done (State World))
      → ((t : State World) → (next t).0 ≡ some none → field (next t).1.0 ≡ none)
      → (proceed r next).0 ≡ some none
      → (r.0 ≡ some none) × (field (proceed r next).1.0 ≡ none)
  step-none field r next clears h =
      let (fine, run) = proceed-none r next h in
      (fine, subst (λ x. field x.1.0 ≡ none) (sym run) (clears r.1 (sym (ap (λ x. x.0) run) ∙ h)))

  clean_fw-none : (s : State World) → (clean_fw C s).0 ≡ some none → (clean_fw C s).1.0.fw ≡ none
  unfolding clean_fw
  clean_fw-none s h = discard-none C s.0.fw _ _ _ s (λ l. l.fw) (λ e. e) (λ l. refl) h

  clean_fws-none :
      (s : State World) → (clean_fws C s).0 ≡ some none → (clean_fws C s).1.0.fws ≡ none
  unfolding clean_fws
  clean_fws-none s h = discard-none C s.0.fws _ _ _ s (λ l. l.fws) (λ e. e) (λ l. refl) h

  clean_ip-none : (s : State World) → (clean_ip C s).0 ≡ some none → (clean_ip C s).1.0.ip ≡ none
  unfolding clean_ip
  clean_ip-none s h = discard-none C s.0.ip _ _ _ s (λ l. l.ip) (λ e. e) (λ l. refl) h

  clean_tps-none :
      (s : State World) → (clean_tps C s).0 ≡ some none → (clean_tps C s).1.0.tps ≡ none
  unfolding clean_tps
  clean_tps-none s h = discard-none C s.0.tps _ _ _ s (λ l. l.tps) (λ e. e) (λ l. refl) h

  clean_tp-none : (s : State World) → (clean_tp C s).0 ≡ some none → (clean_tp C s).1.0.tp ≡ none
  unfolding clean_tp
  clean_tp-none s h = discard-none C s.0.tp _ _ _ s (λ l. l.tp) (λ e. e) (λ l. refl) h

  clean_um-none : (s : State World) → (clean_um C s).0 ≡ some none → (clean_um C s).1.0.um ≡ none
  unfolding clean_um
  clean_um-none s h = discard-none C s.0.um _ _ _ s (λ l. l.um) (λ e. e) (λ l. refl) h

  unfoldable pub own : Option SslCertificate → L7 → Option SslCertificate
  own o l = if str_eq l.runtime_info.tls_name [] then o else none

  own-none : (l : L7) (o : Option SslCertificate) → o ≡ none → own o l ≡ none
  unfolding own
  own-none l o e =
      if-cases (str_eq l.runtime_info.tls_name []) o none (λ x. x ≡ none) (λ b. e) (λ b. refl)

  clean_cert-none :
      (s : State World) → (clean_cert C s).0 ≡ some none → owned_cert (clean_cert C s).1.0 ≡ none
  unfolding clean_cert owned_cert own
  clean_cert-none s h =
      discard-none C (owned_cert s.0) _ _ _ s owned_cert (λ e. e) (λ l. own-none l none refl) h

  owned_cert-kept :
      (s t : State World) → Cleaning C s t → owned_cert s.0 ≡ none → owned_cert t.0 ≡ none
  unfolding owned_cert own
  owned_cert-kept s t c e = elim c.cert [
    | inl f ↦
        subst (λ i. own t.0.ssl_cert (record t.0 { runtime_info = i }) ≡ none) (sym c.info)
          (subst (λ o. own o s.0 ≡ none) (sym f) e)
    | inr (f, g) ↦ own-none t.0 t.0.ssl_cert f
  ]

  pub cleanup-HoldsNothing :
      (s : State World) → (cleanup C s).0 ≡ some none → HoldsNothing (cleanup C s).1.0
  unfolding cleanup
  cleanup-HoldsNothing s h =
      let (tp_fine, um_none) = step-none (λ l. l.um) (upto_tp s) (clean_um C) clean_um-none h in
      let (cert_fine, tp_none) =
        step-none (λ l. l.tp) (upto_cert s) (clean_tp C) clean_tp-none tp_fine in
      let (tps_fine, cert_none) =
        step-none owned_cert (upto_tps s) (clean_cert C) clean_cert-none cert_fine in
      let (ip_fine, tps_none) =
        step-none (λ l. l.tps) (upto_ip s) (clean_tps C) clean_tps-none tps_fine in
      let (fws_fine, ip_none) =
        step-none (λ l. l.ip) (upto_fws s) (clean_ip C) clean_ip-none ip_fine in
      let (fw_fine, fws_none) =
        step-none (λ l. l.fws) (clean_fw C s) (clean_fws C) clean_fws-none fws_fine in
      record {
        no_fw =
            Settled-none (λ r. ForwardingRule.name r)
              (λ k. C.get_global_forwarding_rule k (cleanup C s).1.1) _ _ (clean_fw-none s fw_fine)
              (from_fw s).fw;
        no_fws =
            Settled-none (λ r. ForwardingRule.name r)
              (λ k. C.get_global_forwarding_rule k (cleanup C s).1.1) _ _ fws_none (from_fws s).fws;
        no_ip =
            Settled-none (λ r. Address.name r) (λ k. C.get_global_address k (cleanup C s).1.1) _ _
              ip_none (from_ip s).ip;
        no_tps =
            Settled-none (λ r. TargetHttpsProxy.name r)
              (λ k. C.get_target_https_proxy k (cleanup C s).1.1) _ _ tps_none (from_tps s).tps;
        no_owned = owned_cert-kept (upto_cert s).1 (cleanup C s).1 (from_cert s) cert_none;
        no_tp =
            Settled-none (λ r. TargetHttpProxy.name r)
              (λ k. C.get_target_http_proxy k (cleanup C s).1.1) _ _ tp_none (last s).tp;
        no_um = um_none;
      }
