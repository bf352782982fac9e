-- ===== src/LoadBalancers/Tests/Pool.antt =====
-- A pool with two load balancers, of which a collection takes one out.
use ingress_gce.Base.{
  ◌≡◌, refl, true, false, Option, none, some, List, [], ◌∷◌, map, Str, codes, str_eq, Result, ok,
  api, Bool-cases, inl, inr, split, last_of, has_prefix,
}
use ingress_gce.Base.Maps.{get, put, remove, str_Eq}
use ingress_gce.Sets.{elem}
use ingress_gce.Http.{ignore_http_not_found, is_not_found_error, is_http_error_code}
use ingress_gce.Namer.{Namer, load_balancer, truncate}
use ingress_gce.Pools.{snapshot, copy_keys}
use ingress_gce.Backends.{ServicePort, int_val}
use ingress_gce.LoadBalancers.{L7, ForwardingRule, Done, proceed, after}
use ingress_gce.LoadBalancers.L7s.{
  BackendPool, L7s, owned_cert, discard, cleanup, clean_fw, clean_fws, clean_ip, clean_tps,
  clean_cert, clean_tp, clean_um, cleaned, delete, delete_unknown, delete_default, gc,
}
use ingress_gce.LoadBalancers.L7s as L7Pool
use ingress_gce.LoadBalancers.L7s.Cleanup.{IsMissing, Shrinks-refl, CleanupLaws, Cleaning}
use ingress_gce.LoadBalancers.L7s.Cleanup.Whole.{cleanup-Cleaning}
use ingress_gce.LoadBalancers.L7s.Collected.{IsOut}
use ingress_gce.LoadBalancers.L7s.Gc.{HasNames, PoolLaws, gc-known, gc-IsOut}
use ingress_gce.LoadBalancers.Tests.Cloud.{
  World, find, drop, cloud, lb, empty, rule_name, map_name, proxy_name, https_name, cert_name,
  refused,
}

module _ {A : Type 0} (name_of : A → Str) where
  drop-missing :
      (name : Str) (slot : Option A)
      → ignore_http_not_found (drop name_of name slot).0 ≡ none
      → IsMissing (find name_of (drop name_of name slot).1 name)
  unfolding drop find
  drop-missing name none h a e = absurd (cc e)
  drop-missing name (some b) h a e = elim (Bool-cases (str_eq (name_of b) name)) [
    | inl f ↦ absurd (cc (rw (f, find) at e))
    | inr f ↦ absurd (cc (rw (f, find, f) at e))
  ]

  drop-shrinks :
      (name k : Str) (slot : Option A)
      → IsMissing (find name_of slot k)
      → IsMissing (find name_of (drop name_of name slot).1 k)
  unfolding drop find
  drop-shrinks name k none m = m
  drop-shrinks name k (some b) m = elim (Bool-cases (str_eq (name_of b) name)) [
    | inl f ↦ rw f (λ a e. absurd (cc e))
    | inr f ↦ rw f m
  ]

refused-missing :
    {A : Type 0} (r : Result A)
    → ignore_http_not_found (some (api 403 (codes "forbidden"))) ≡ none
    → IsMissing r
unfolding ignore_http_not_found is_http_error_code
refused-missing r h = absurd (cc h)

cloud-CleanupLaws : CleanupLaws cloud
cloud-CleanupLaws = record {
  rules = record {
    deleted = λ k w h. drop-missing rule_name k w.rule h;
    shrinks = λ k w. record {
      no_rule = λ j m. drop-shrinks rule_name k j w.rule m;
      no_address = λ j m. m;
      no_https = λ j m. m;
      no_cert = λ j m. m;
      no_http = λ j m. m;
      no_map = λ j m. m;
    };
  };
  addresses = record {
    deleted = λ k w h. refused-missing _ h;
    shrinks = λ k w. Shrinks-refl cloud w;
  };
  https_proxies = record {
    deleted = λ k w h. drop-missing https_name k w.tps h;
    shrinks = λ k w. record {
      no_rule = λ j m. m;
      no_address = λ j m. m;
      no_https = λ j m. drop-shrinks https_name k j w.tps m;
      no_cert = λ j m. m;
      no_http = λ j m. m;
      no_map = λ j m. m;
    };
  };
  certs = record {
    deleted = λ k w h. drop-missing cert_name k w.cert h;
    shrinks = λ k w. record {
      no_rule = λ j m. m;
      no_address = λ j m. m;
      no_https = λ j m. m;
      no_cert = λ j m. drop-shrinks cert_name k j w.cert m;
      no_http = λ j m. m;
      no_map = λ j m. m;
    };
  };
  http_proxies = record {
    deleted = λ k w h. drop-missing proxy_name k w.tp h;
    shrinks = λ k w. record {
      no_rule = λ j m. m;
      no_address = λ j m. m;
      no_https = λ j m. m;
      no_cert = λ j m. m;
      no_http = λ j m. drop-shrinks proxy_name k j w.tp m;
      no_map = λ j m. m;
    };
  };
  maps = record {
    deleted = λ k w h. drop-missing map_name k w.um h;
    shrinks = λ k w. record {
      no_rule = λ j m. m;
      no_address = λ j m. m;
      no_https = λ j m. m;
      no_cert = λ j m. m;
      no_http = λ j m. m;
      no_map = λ j m. drop-shrinks map_name k j w.um m;
    };
  };
}

abbrev namer : Namer
namer = record { cluster_name = codes "uid1"; firewall_name = codes "fw1" }

abbrev backends : BackendPool World
backends = record {
  ensure = λ ports w. refused w;
  get = λ port w. (ok (codes "links/default"), w);
  delete = λ port w. (none, w);
  shutdown = λ w. refused w;
  status = λ name w. codes "HEALTHY";
}

cloud-PoolLaws : PoolLaws cloud backends
cloud-PoolLaws = record { delete_shrinks = λ port w. Shrinks-refl cloud w }

abbrev default_port : ServicePort
default_port = record {
  port = 30000;
  protocol = codes "HTTP";
  svc_namespace = codes "kube-system";
  svc_name = codes "default-http-backend";
  svc_port = int_val 80;
  svc_target_port = codes "80";
  neg_enabled = false;
}

abbrev old_rule : ForwardingRule
old_rule = record {
  name = codes "k8s-fw-old";
  ip_address = [];
  target = codes "links/tp";
  port_range = codes "80-80";
}

abbrev old_lb : L7
old_lb = record lb { fw = some old_rule }

abbrev pool : L7s
pool = record {
  lbs = (codes "ns-web--uid1", lb) ∷ (codes "ns-old--uid1", old_lb) ∷ [];
  glbc_default_backend = some (codes "links/default");
}

abbrev with_rule : World
with_rule = record empty { rule = some old_rule }

abbrev names : List Str
names = codes "ns/web" ∷ []

abbrev collected : Done (L7s × World)
collected = gc cloud namer backends default_port names (pool, with_rule)

collected_fine : collected.0 ≡ some none
unfolding gc proceed delete_unknown delete delete_default L7Pool.get load_balancer elem snapshot
    copy_keys get put remove str_eq last_of split has_prefix truncate cleaned cleanup clean_fw
    clean_fws clean_ip clean_tps clean_cert clean_tp clean_um owned_cert discard after
    ignore_http_not_found is_not_found_error is_http_error_code drop find
collected_fine = refl

keys_given_back : HasNames namer pool
unfolding load_balancer snapshot copy_keys get put str_eq last_of split has_prefix truncate
keys_given_back = (refl, (refl, tt))

unknown_old : elem (map (load_balancer namer) names) (codes "ns-old--uid1") ≡ false
unfolding load_balancer elem str_eq last_of split has_prefix truncate
unknown_old = refl

known_web : elem (map (load_balancer namer) names) (codes "ns-web--uid1") ≡ true
unfolding load_balancer elem str_eq last_of split has_prefix truncate
known_web = refl

old_hit : get (codes "ns-old--uid1") pool.lbs ≡ some old_lb
unfolding get str_eq
old_hit = refl

gc-IsOut_example : IsOut cloud namer cloud-CleanupLaws (codes "ns-old--uid1") old_lb collected.1
gc-IsOut_example =
    gc-IsOut cloud namer backends default_port cloud-CleanupLaws cloud-PoolLaws names
      (pool, with_rule) (codes "ns-old--uid1") old_lb keys_given_back unknown_old old_hit
      collected_fine

gc-known_example :
    get (codes "ns-web--uid1") collected.1.0.lbs ≡ get (codes "ns-web--uid1") pool.lbs
gc-known_example =
    gc-known cloud namer backends default_port names (pool, with_rule) (codes "ns-web--uid1")
      keys_given_back known_web

cleanup-Cleaning_example : Cleaning cloud (old_lb, with_rule) (cleanup cloud (old_lb, with_rule)).1
cleanup-Cleaning_example = cleanup-Cleaning cloud cloud-CleanupLaws (old_lb, with_rule)
