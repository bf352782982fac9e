-- ===== src/LoadBalancers/L7s/Gc.antt =====
-- A garbage collection of the load balancers, GC of pkg/loadbalancers/loadbalancers.go.
use ingress_gce.Base.{
  ◌≡◌, ℕ, refl, ap, sym, subst, ◌∙◌, true, false, none, some, List, [], ◌∷◌, map, Str, str_eq,
  str_eq_iff, Bool-cases, Option-cases, inl, inr, All,
}
use ingress_gce.Base.Maps.{get, str_Eq}
use ingress_gce.Sets.{elem}
use ingress_gce.Namer.{Namer, load_balancer}
use ingress_gce.Pools.{snapshot}
use ingress_gce.Pools.Laws.{elem-keys, snapshot_lem}
use ingress_gce.Backends.{ServicePort}
use ingress_gce.LoadBalancers.{L7, LoadBalancers}
use ingress_gce.LoadBalancers.Certs.Secret.{proceed-none}
use ingress_gce.LoadBalancers.L7s.{BackendPool, L7s, delete, delete_unknown, delete_default, gc}
use ingress_gce.LoadBalancers.L7s.Cleanup.{Shrinks, CleanupLaws}
use ingress_gce.LoadBalancers.L7s.Cleanup.Gone.{Vanished-Shrinks}
use ingress_gce.LoadBalancers.L7s.Collected.{
  proceed-keeps, delete-other, IsOut, unknown-keeps, unknown-IsOut,
}

-- Deleting the default backend makes no resource of a load balancer appear.
pub record PoolLaws {World : Type 0} (C : LoadBalancers World) (D : BackendPool World)
    : Type 0 where
  pub delete_shrinks : (port : ℕ) (w : World) → Shrinks C w (D.delete port w).1

-- The namer gives back every key of the pool as it is.
abbrev pub HasNames : Namer → L7s → Type 0
HasNames n p = All (λ j. load_balancer n j ≡ j) (map (λ e. e.0) (snapshot p.lbs))

module _ {World : Type 0} (C : LoadBalancers World) (n : Namer) (D : BackendPool World)
    (default_port : ServicePort) where
  default-cases :
      (names : List Str) (s : L7s × World) (P : L7s × World → Type 0)
      → P s
      → ((p : L7s) → p.lbs ≡ s.0.lbs → P (p, (D.delete default_port.port s.1).1))
      → P (delete_default C n D default_port names s).1
  unfolding delete_default
  default-cases (name ∷ names) s P same other = same
  default-cases [] s P same other =
      let done = D.delete default_port.port s.1 in
      elim (Option-cases done.0) [
        | inl e ↦ rw (delete_default, e) (other _ refl)
        | inr (x, e) ↦ rw (delete_default, e) (other s.0 refl)
      ]

  -- If the namer gives back the keys of the pool as they are: whatever its outcome, a collection does not change the pool's entry of a known load balancer.
  pub gc-known :
      (names : List Str) (s : L7s × World) (k : Str)
      → HasNames n s.0
      → elem (map (load_balancer n) names) k ≡ true
      → get k (gc C n D default_port names s).1.0.lbs ≡ get k s.0.lbs
  unfolding gc
  gc-known names s k named known =
      let known_names = map (load_balancer n) names in
      let keys = map (λ e. e.0) (snapshot s.0.lbs) in
      let P : L7s × World → Type 0 = λ t. get k t.0.lbs ≡ get k s.0.lbs in
      let step : (j : Str) (t : L7s × World)
          → load_balancer n j ≡ j
          → elem known_names j ≡ false
          → P t
          → P (delete C n j t).1 =
        λ j t same other p. elim (Bool-cases (str_eq j k)) [
          | inl e ↦ absurd (cc (ap (elem known_names) ((str_eq_iff j k).0 e), other, known))
          | inr e ↦ delete-other C n j k t.0 t.1 same e ∙ p
        ] in
      proceed-keeps P (delete_unknown C n known_names keys s)
        (delete_default C n D default_port names)
        (unknown-keeps C n known_names P step keys named s refl)
        (λ t p. default-cases names t P p (λ q e. ap (get k) e ∙ p))

  module _ (L : CleanupLaws C) (G : PoolLaws C D) where
    -- If the namer gives back the keys of the pool as they are: after a collection that reports no error,
    -- a load balancer of the pool that is none of the known ones is out of the pool, and the cloud has
    -- none of the forwarding rules, proxies, address and url map that it held, nor its current
    -- certificate, unless that is pre-shared. Of an old certificate nothing is said.
    pub gc-IsOut :
        (names : List Str) (s : L7s × World) (k : Str) (lb : L7)
        → HasNames n s.0
        → elem (map (load_balancer n) names) k ≡ false
        → get k s.0.lbs ≡ some lb
        → (gc C n D default_port names s).0 ≡ some none
        → IsOut C n L k lb (gc C n D default_port names s).1
    unfolding gc IsOut
    gc-IsOut names s k lb named unknown hit h =
        let known = map (load_balancer n) names in
        let keys = map (λ e. e.0) (snapshot s.0.lbs) in
        let (fine, run) =
          proceed-none (delete_unknown C n known keys s) (delete_default C n D default_port names)
            h in
        let mid = (delete_unknown C n known keys s).1 in
        let among : elem keys k ≡ true = elim (Bool-cases (elem keys k)) [
          | inl e ↦ e
          | inr e ↦ absurd (cc (elem-keys (snapshot s.0.lbs) k e, snapshot_lem s.0.lbs k, hit))
        ] in
        let out = unknown-IsOut C n L known keys k lb s named unknown among hit fine in
        subst (λ r. IsOut C n L k lb r.1) (sym run)
          (default-cases names mid (IsOut C n L k lb) out (λ p e. (
            ap (get k) e ∙ out.0,
            Vanished-Shrinks C L lb mid.1 (D.delete default_port.port mid.1).1
                (G.delete_shrinks default_port.port mid.1) out.1,
          )))
