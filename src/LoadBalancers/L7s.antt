-- ===== src/LoadBalancers/L7s.antt =====
-- The clean-up of a load balancer and the pool of all of them, pkg/loadbalancers/loadbalancers.go.
pub mod Cleanup
pub mod Collected
pub mod Gc
use ingress_gce.Base.{
  ℕ, Option, none, some, List, [], ◌∷◌, map, Str, codes, str_eq, plain, Result, ok, err, panic,
  Failure, if◌then◌else◌,
}
use ingress_gce.Base.Maps.{get as map_get, str_Eq}
use ingress_gce.Sets.{elem}
use ingress_gce.Http.{ignore_http_not_found}
use ingress_gce.Namer.{Namer, load_balancer}
use ingress_gce.Pools.{InMemoryPool, snapshot, add_item, delete_item}
use ingress_gce.Backends.{ServicePort}
use ingress_gce.LoadBalancers.{
  L7RuntimeInfo, UrlMap, TargetHttpProxy, TargetHttpsProxy, ForwardingRule, SslCertificate, Address,
  L7, LoadBalancers, Done, State, proceed, after,
}
use ingress_gce.LoadBalancers.Checks.{edge_hop}

-- The part of the interface BackendPool that the pool calls; Ensure is given no instance groups.
pub record BackendPool (World : Type 0) : Type 0 where
  pub ensure : List ServicePort → World → Failure × World
  pub get : ℕ → World → Result Str × World
  pub delete : ℕ → World → Failure × World
  pub shutdown : World → Failure × World
  pub status : Str → World → Str

pub record L7s : Type 0 where
  pub lbs : InMemoryPool L7
  pub glbc_default_backend : Option Str

unfoldable pub owned_cert : L7 → Option SslCertificate
owned_cert l = if str_eq l.runtime_info.tls_name [] then l.ssl_cert else none

-- a resource that is there is deleted, and then forgotten
unfoldable pub discard :
    {A World : Type 0}
    → Option A
    → (A → Str)
    → (Str → World → Failure × World)
    → (L7 → L7)
    → State World
    → Done (State World)
discard none name delete clear s = (some none, s)
discard (some a) name delete clear (l, w) =
    let done = delete (name a) w in
    after (ignore_http_not_found done.0, done.1) l (λ v. (some none, (clear l, v)))

module _ {World : Type 0} (C : LoadBalancers World) where
  unfoldable pub clean_fw : State World → Done (State World)
  clean_fw s =
      discard s.0.fw (λ r. ForwardingRule.name r) C.delete_global_forwarding_rule
        (λ l. record l { fw = none }) s

  unfoldable pub clean_fws : State World → Done (State World)
  clean_fws s =
      discard s.0.fws (λ r. ForwardingRule.name r) C.delete_global_forwarding_rule
        (λ l. record l { fws = none }) s

  unfoldable pub clean_ip : State World → Done (State World)
  clean_ip s =
      discard s.0.ip (λ r. Address.name r) C.delete_global_address (λ l. record l { ip = none }) s

  unfoldable pub clean_tps : State World → Done (State World)
  clean_tps s =
      discard s.0.tps (λ r. TargetHttpsProxy.name r) C.delete_target_https_proxy
        (λ l. record l { tps = none }) s

  unfoldable pub clean_cert : State World → Done (State World)
  clean_cert s =
      discard (owned_cert s.0) (λ r. SslCertificate.name r) C.delete_ssl_certificate
        (λ l. record l { ssl_cert = none }) s

  unfoldable pub clean_tp : State World → Done (State World)
  clean_tp s =
      discard s.0.tp (λ r. TargetHttpProxy.name r) C.delete_target_http_proxy
        (λ l. record l { tp = none }) s

  unfoldable pub clean_um : State World → Done (State World)
  clean_um s = discard s.0.um (λ r. UrlMap.name r) C.delete_url_map (λ l. record l { um = none }) s

  -- forwarding rules, address, proxies with their certificate, and the url map last
  unfoldable pub cleanup : State World → Done (State World)
  cleanup s =
      proceed
        (proceed
          (proceed (proceed (proceed (proceed (clean_fw s) clean_fws) clean_ip) clean_tps)
            clean_cert)
          clean_tp)
        clean_um

module _ (n : Namer) where
  unfoldable pub create : L7s → L7RuntimeInfo → L7
  create p ri = record {
    name = load_balancer n ri.name;
    runtime_info = ri;
    um = none;
    tp = none;
    tps = none;
    fw = none;
    fws = none;
    ip = none;
    ssl_cert = none;
    old_ssl_cert = none;
    glbc_default_backend = p.glbc_default_backend;
  }

  -- A name that is decorated already is decorated again.
  unfoldable pub get : Str → L7s → Option L7
  get name p = map_get (load_balancer n name) p.lbs

  -- the load balancer that Add checks, with the new runtime info
  unfoldable pub get_or_create : L7RuntimeInfo → L7s → L7
  get_or_create ri p = elim (get (load_balancer n ri.name) p) [
    | none ↦ create p ri
    | some lb ↦ record lb { runtime_info = ri }
  ]

abbrev pub put_lb : Str → L7 → L7s → L7s
put_lb name lb p = record p { lbs = add_item name lb p.lbs }

abbrev pub drop_lb : Str → L7s → L7s
drop_lb name p = record p { lbs = delete_item name p.lbs }

module _ {World : Type 0} (C : LoadBalancers World) (n : Namer) where
  -- The load balancer is in the pool also where its check fails: the pool has the same object.
  unfoldable pub add : L7RuntimeInfo → L7s × World → Done (L7s × World)
  add ri (p, w) =
      let done = edge_hop C (get_or_create n ri p, w) in
      (done.0, (put_lb (load_balancer n ri.name) done.1.0 p, done.1.1))

  unfoldable pub add_all : List L7RuntimeInfo → L7s × World → Done (L7s × World)
  add_all [] s = (some none, s)
  add_all (ri ∷ ris) s = proceed (add ri s) (add_all ris)

  -- the end of Delete, where the object in the pool is the one that was cleaned up in part
  unfoldable pub cleaned : Str → L7s → Done (State World) → Done (L7s × World)
  cleaned name p (some none, (lb, w)) = (some none, (drop_lb name p, w))
  cleaned name p (some (some e), (lb, w)) = (some (some e), (put_lb (load_balancer n name) lb p, w))
  cleaned name p (none, (lb, w)) = (none, (put_lb (load_balancer n name) lb p, w))

  unfoldable pub delete : Str → L7s × World → Done (L7s × World)
  delete name (p, w) = elim (get n (load_balancer n name) p) [
    | none ↦ (some (some (plain (codes "loadbalancer not in pool"))), (p, w))
    | some lb ↦ cleaned (load_balancer n name) p (cleanup C (lb, w))
  ]

  unfoldable pub delete_unknown : List Str → List Str → L7s × World → Done (L7s × World)
  delete_unknown known [] s = (some none, s)
  delete_unknown known (name ∷ names) s =
      let rest = proceed (delete name s) (delete_unknown known names) in
      let skip = delete_unknown known names s in if elem known name then skip else rest

  module _ (D : BackendPool World) (default_port : ServicePort) where
    unfoldable pub fetch_default : L7s × World → Done (L7s × World)
    fetch_default (p, w) =
        let found = D.get default_port.port w in
        elim found.0 [
          | ok link ↦ (some none, (record p { glbc_default_backend = some link }, found.1))
          | err e ↦ (some (some e), (p, found.1))
          | panic ↦ (none, (p, found.1))
        ]

    unfoldable pub ensure_default : L7s × World → Done (L7s × World)
    ensure_default (p, w) =
        let done = D.ensure (default_port ∷ []) w in
        elim done.0 [ none ↦ fetch_default (p, done.1) | some e ↦ (some (some e), (p, done.1)) ]

    unfoldable pub sync : List L7RuntimeInfo → L7s × World → Done (L7s × World)
    sync [] s = (some none, s)
    sync (ri ∷ ris) s = proceed (ensure_default s) (add_all (ri ∷ ris))

    unfoldable pub delete_default : List Str → L7s × World → Done (L7s × World)
    delete_default (name ∷ names) s = (some none, s)
    delete_default [] (p, w) =
        let done = D.delete default_port.port w in
        elim done.0 [
          | none ↦ (some none, (record p { glbc_default_backend = none }, done.1))
          | some e ↦ (some (some e), (p, done.1))
        ]

    unfoldable pub gc : List Str → L7s × World → Done (L7s × World)
    gc names s =
        proceed (delete_unknown (map (load_balancer n) names) (map (λ e. e.0) (snapshot s.0.lbs)) s)
          (delete_default names)

    unfoldable pub shutdown_backends : L7s × World → Done (L7s × World)
    shutdown_backends (p, w) = let done = D.shutdown w in (some done.0, (p, done.1))

    unfoldable pub shutdown : L7s × World → Done (L7s × World)
    shutdown s = proceed (gc [] s) shutdown_backends
