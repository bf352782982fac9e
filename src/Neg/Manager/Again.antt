-- ===== src/Neg/Manager/Again.antt =====
-- A call of EnsureSyncers after one that failed.
use mathlib.Core.Option.{some-injective}
use ingress_gce.Base.{
  ◌≡◌, refl, ap, sym, ◌∙◌, false, none, some, List, [], ◌∷◌, Str, str_eq_refl, Failure,
  new_aggregate, arith, Option-cases, inl, inr,
}
use ingress_gce.Base.Maps.{put, get-put, beq_refl}
use ingress_gce.Sets.{StringSets, elem}
use ingress_gce.Neg.Manager.{
  ServiceKey, ServiceKey_Eq, Syncers, Manager, ports_of, ensure_syncers, stop_ports, start_ports,
}

module _ (S : StringSets) where
  open S use {Set, has, difference, list, has-difference, elem-list}

  nil_of_elem : (xs : List Str) → ((k : Str) → elem xs k ≡ false) → xs ≡ []
  unfolding elem
  nil_of_elem [] h = refl
  nil_of_elem (x ∷ xs) h = absurd (ground (arith, h x, str_eq_refl x))

  self-difference : (s : Set) → list (difference s s) ≡ []
  self-difference s =
      nil_of_elem (list (difference s s))
        (λ k. ground (arith, elem-list (difference s s) k, has-difference s s k))

  -- A manager that has these very ports for the service changes nothing.
  ensure_syncers-same :
      (key : ServiceKey) (ports : Set) (m : Manager S)
      → ports_of S key m ≡ ports
      → (m' : Manager S) × (ensure_syncers S key ports m ≡ some (none, m'))
        × (m'.syncer_map ≡ m.syncer_map)
  unfolding ensure_syncers stop_ports start_ports
  ensure_syncers-same key ports m h = (
    record m { svc_port_map = put key ports m.svc_port_map },
    rw (ensure_syncers, h, self-difference ports, h, self-difference ports) refl,
    refl,
  )

  -- What a call leaves as the service's ports, and as the syncers
  pub record Ensured (key : ServiceKey) (ports : Set) (m : Manager S) (f : Failure) (m' : Manager S)
      : Type 0 where
    pub stopped : Syncers
    pub stops :
        stop_ports key (list (difference (ports_of S key m) ports)) m.syncer_map ≡ some stopped
    pub result : m' ≡ record {
      svc_port_map = put key ports m.svc_port_map;
      syncer_map = (start_ports key (list (difference ports (ports_of S key m))) ([], stopped)).1;
    }
    pub failure :
        f
        ≡ new_aggregate
            (start_ports key (list (difference ports (ports_of S key m))) ([], stopped)).0

  pub ensure_syncers-Ensured :
      (key : ServiceKey) (ports : Set) (m m' : Manager S) (f : Failure)
      → ensure_syncers S key ports m ≡ some (f, m')
      → Ensured key ports m f m'
  unfolding ensure_syncers
  ensure_syncers-Ensured key ports m m' f h =
      let ends = stop_ports key (list (difference (ports_of S key m) ports)) m.syncer_map in
      elim (Option-cases ends) [
        | inl e ↦ absurd (cc (rw (ensure_syncers, e) at h))
        | inr (stopped, e) ↦
            let same = some-injective _ (f, m') (rw (ensure_syncers, e) at h) in
            record {
              stopped = stopped;
              stops = e;
              result = sym (ap (λ p. p.1) same);
              failure = sym (ap (λ p. p.0) same);
            }
      ]

  ports_of-put :
      (key : ServiceKey) (ports : Set) (svc : List (ServiceKey × Set)) (syncers : Syncers)
      → ports_of S key (record { svc_port_map = put key ports svc; syncer_map = syncers }) ≡ ports
  unfolding ports_of
  ports_of-put key ports svc syncers = rw (ports_of, get-put key key ports svc, beq_refl key) refl

  -- An EnsureSyncers, whatever its result, makes a second one with the same ports a success that starts
  -- and stops no syncer: a port that the first call could not start is not tried again.
  pub ensure_syncers-again :
      (key : ServiceKey) (ports : Set) (m m' : Manager S) (f : Failure)
      → ensure_syncers S key ports m ≡ some (f, m')
      → (m'' : Manager S) × (ensure_syncers S key ports m' ≡ some (none, m''))
        × (m''.syncer_map ≡ m'.syncer_map)
  ensure_syncers-again key ports m m' f h =
      let e = ensure_syncers-Ensured key ports m m' f h in
      ensure_syncers-same key ports m'
        (ap (ports_of S key) e.result ∙ ports_of-put key ports m.svc_port_map _)
