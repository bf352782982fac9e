-- ===== src/LoadBalancers/ForwardingRules.antt =====
-- The forwarding rules of a load balancer, pkg/loadbalancers/loadbalancers.go.
pub mod Pointed
use ingress_gce.Base.{
  ℕ, Bool, true, false, ◌&&◌, ◌||◌, not, Option, none, some, List, [], ◌∷◌, Str, codes, str_eq,
  plain, Error, Result, ok, err, panic, Failure, if◌then◌else◌,
}
use ingress_gce.Http.{status_conflict, is_http_error_code, ignore_http_not_found, compare_links}
use ingress_gce.Namer.{target_proxy, forwarding_rule, url_map}
use ingress_gce.LoadBalancers.{
  http, https, http_default_port_range, https_default_port_range, L7RuntimeInfo, UrlMap,
  TargetHttpProxy, TargetHttpsProxy, ForwardingRule, SslCertificate, Address, L7, LoadBalancers,
  Done, State, proceed, after, with_found,
}

module _ {World : Type 0} (C : LoadBalancers World) where
  -- The answer of a check of a forwarding rule: a rule or an error, with the world; `none` is a panic.
  unfoldable pub point_rule : Str → ForwardingRule → World → Option (Result ForwardingRule) × World
  point_rule proxy_link fw w =
      if compare_links fw.target proxy_link
      then (some (ok fw), w)
      else (let done = C.set_proxy_for_global_forwarding_rule fw.name proxy_link w in
          elim done.0 [ none ↦ (some (ok fw), done.1) | some e ↦ (some (err e), done.1) ])

  unfoldable pub found_rule :
      Str → Result ForwardingRule → World → Option (Result ForwardingRule) × World
  found_rule proxy_link (ok fw) w = point_rule proxy_link fw w
  found_rule proxy_link (err e) w = (some (err e), w)
  found_rule proxy_link panic w = (none, w)

  unfoldable pub create_rule :
      Str → Str → Str → Str → World → Option (Result ForwardingRule) × World
  create_rule name proxy_link ip port_range w =
      let done =
        C.create_global_forwarding_rule
          (record { name = name; ip_address = ip; target = proxy_link; port_range = port_range })
          w in
      elim done.0 [
        | none ↦ found_rule proxy_link (C.get_global_forwarding_rule name done.1) done.1
        | some e ↦ (some (err e), done.1)
      ]

  unfoldable pub is_wrong : ForwardingRule → Str → Str → Bool
  is_wrong fw ip port_range =
      (not (str_eq ip []) && not (str_eq fw.ip_address ip)) || not (str_eq fw.port_range port_range)

  unfoldable pub recreate_rule :
      Str → Str → Str → Str → World → Option (Result ForwardingRule) × World
  recreate_rule name proxy_link ip port_range w =
      let done = C.delete_global_forwarding_rule name w in
      elim (ignore_http_not_found done.0) [
        | none ↦ create_rule name proxy_link ip port_range done.1
        | some e ↦ (some (err e), done.1)
      ]

  unfoldable pub check_forwarding_rule :
      Str → Str → Str → Str → World → Option (Result ForwardingRule) × World
  check_forwarding_rule name proxy_link ip port_range w =
      elim (C.get_global_forwarding_rule name w) [
        | ok fw ↦
            if is_wrong fw ip port_range
            then recreate_rule name proxy_link ip port_range w
            else point_rule proxy_link fw w
        | err e ↦ create_rule name proxy_link ip port_range w
        | panic ↦ (none, w)
      ]

  abbrev pub managed_ip : L7 → Str × Bool
  managed_ip l = elim l.ip [ some a ↦ (a.address, true) | none ↦ ([], true) ]

  -- the address to use, and whether the controller manages it
  unfoldable pub effective_ip : L7 → World → Str × Bool
  effective_ip l w =
      if str_eq l.runtime_info.static_ip_name []
      then managed_ip l
      else elim (C.get_global_address l.runtime_info.static_ip_name w) [
        | ok a ↦ (a.address, false)
        | err e ↦ managed_ip l
        | panic ↦ managed_ip l
      ]

  -- the rule is kept in the load balancer
  unfoldable pub with_rule :
      Option (Result ForwardingRule) × World → L7 → (ForwardingRule → L7) → Done (State World)
  with_rule (some (ok fw), w) l set = (some none, (set fw, w))
  with_rule (some (err e), w) l set = (some (some e), (l, w))
  with_rule (some panic, w) l set = (none, (l, w))
  with_rule (none, w) l set = (none, (l, w))
