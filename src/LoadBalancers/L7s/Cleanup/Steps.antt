-- ===== src/LoadBalancers/L7s/Cleanup/Steps.antt =====
-- Each step of a clean-up.
use ingress_gce.Base.{refl, Option, none, inl, inr, if-cases, str_eq, []}
use ingress_gce.LoadBalancers.{SslCertificate, LoadBalancers, Done, State}
use ingress_gce.LoadBalancers.L7s.{
  owned_cert, discard, clean_fw, clean_fws, clean_ip, clean_tps, clean_cert, clean_tp, clean_um,
}
use ingress_gce.LoadBalancers.L7s.Cleanup.{
  Shrinks-refl, CleanupLaws, Cleaning, Cleaning-same, discard-cases,
}

module _ {World : Type 0} (C : LoadBalancers World) (L : CleanupLaws C) where
  pub clean_fw-Cleaning : (s : State World) → Cleaning C s (clean_fw C s).1
  unfolding clean_fw
  clean_fw-Cleaning s =
      discard-cases C s.0.fw _ _ _ _ s (Cleaning C s) L.rules
        (λ w less. Cleaning-same C s.0 s.1 w less)
        (λ w less gone. record {
          shrinks = less;
          info = refl;
          old = refl;
          fw = inr (refl, gone);
          fws = inl refl;
          ip = inl refl;
          tps = inl refl;
          cert = inl refl;
          tp = inl refl;
          um = inl refl;
        })

  pub clean_fws-Cleaning : (s : State World) → Cleaning C s (clean_fws C s).1
  unfolding clean_fws
  clean_fws-Cleaning s =
      discard-cases C s.0.fws _ _ _ _ s (Cleaning C s) L.rules
        (λ w less. Cleaning-same C s.0 s.1 w less)
        (λ w less gone. record {
          shrinks = less;
          info = refl;
          old = refl;
          fw = inl refl;
          fws = inr (refl, gone);
          ip = inl refl;
          tps = inl refl;
          cert = inl refl;
          tp = inl refl;
          um = inl refl;
        })

  pub clean_ip-Cleaning : (s : State World) → Cleaning C s (clean_ip C s).1
  unfolding clean_ip
  clean_ip-Cleaning s =
      discard-cases C s.0.ip _ _ _ _ s (Cleaning C s) L.addresses
        (λ w less. Cleaning-same C s.0 s.1 w less)
        (λ w less gone. record {
          shrinks = less;
          info = refl;
          old = refl;
          fw = inl refl;
          fws = inl refl;
          ip = inr (refl, gone);
          tps = inl refl;
          cert = inl refl;
          tp = inl refl;
          um = inl refl;
        })

  pub clean_tps-Cleaning : (s : State World) → Cleaning C s (clean_tps C s).1
  unfolding clean_tps
  clean_tps-Cleaning s =
      discard-cases C s.0.tps _ _ _ _ s (Cleaning C s) L.https_proxies
        (λ w less. Cleaning-same C s.0 s.1 w less)
        (λ w less gone. record {
          shrinks = less;
          info = refl;
          old = refl;
          fw = inl refl;
          fws = inl refl;
          ip = inl refl;
          tps = inr (refl, gone);
          cert = inl refl;
          tp = inl refl;
          um = inl refl;
        })

  pub clean_cert-Cleaning : (s : State World) → Cleaning C s (clean_cert C s).1
  unfolding clean_cert owned_cert discard
  clean_cert-Cleaning s =
      let run : Option SslCertificate → Done (State World) = λ o.
        discard o (λ r. SslCertificate.name r) C.delete_ssl_certificate
          (λ l. record l { ssl_cert = none }) s in
      if-cases (str_eq s.0.runtime_info.tls_name []) s.0.ssl_cert none (λ o. Cleaning C s (run o).1)
        (λ e.
          discard-cases C s.0.ssl_cert _ _ _ _ s (Cleaning C s) L.certs
            (λ w less. Cleaning-same C s.0 s.1 w less)
            (λ w less gone. record {
              shrinks = less;
              info = refl;
              old = refl;
              fw = inl refl;
              fws = inl refl;
              ip = inl refl;
              tps = inl refl;
              cert = inr (refl, gone);
              tp = inl refl;
              um = inl refl;
            }))
        (λ e. Cleaning-same C s.0 s.1 s.1 (Shrinks-refl C s.1))

  pub clean_tp-Cleaning : (s : State World) → Cleaning C s (clean_tp C s).1
  unfolding clean_tp
  clean_tp-Cleaning s =
      discard-cases C s.0.tp _ _ _ _ s (Cleaning C s) L.http_proxies
        (λ w less. Cleaning-same C s.0 s.1 w less)
        (λ w less gone. record {
          shrinks = less;
          info = refl;
          old = refl;
          fw = inl refl;
          fws = inl refl;
          ip = inl refl;
          tps = inl refl;
          cert = inl refl;
          tp = inr (refl, gone);
          um = inl refl;
        })

  pub clean_um-Cleaning : (s : State World) → Cleaning C s (clean_um C s).1
  unfolding clean_um
  clean_um-Cleaning s =
      discard-cases C s.0.um _ _ _ _ s (Cleaning C s) L.maps
        (λ w less. Cleaning-same C s.0 s.1 w less)
        (λ w less gone. record {
          shrinks = less;
          info = refl;
          old = refl;
          fw = inl refl;
          fws = inl refl;
          ip = inl refl;
          tps = inl refl;
          cert = inl refl;
          tp = inl refl;
          um = inr (refl, gone);
        })
