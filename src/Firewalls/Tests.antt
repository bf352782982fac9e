-- ===== src/Firewalls/Tests.antt =====
-- The rule of a cluster with one ingress.
use ingress_gce.Base.{
  ◌≡◌, ◌≢◌, refl, false, Option, none, some, List, [], ◌∷◌, Str, codes, str_eq, str_eq_refl, Result,
  ok, err, panic, api, if◌then◌else◌,
}
use ingress_gce.Sets.Listed.{list_sets}
use ingress_gce.Namer.{Namer}
use ingress_gce.Firewalls.{
  FirewallRule, Firewall, Commands, xpn_error, create_firewall_object, create_firewall, sync_rule,
  sync,
}
use ingress_gce.Firewalls.Sync.{RuleLaws, HasRule, Synced, sync-HasRule, sync-Synced}

abbrev World : Type 0
World = Str → Option FirewallRule

found : Option FirewallRule → Result FirewallRule
found none = err (api 404 (codes "not found"))
found (some rule) = ok rule

write_rule : FirewallRule → World → World
write_rule f w name = if str_eq f.name name then some f else w name

abbrev cloud : Firewall World
cloud = record {
  create_firewall = λ f w. (none, write_rule f w);
  get_firewall = λ name w. found (w name);
  delete_firewall = λ name w. (some (api 403 (codes "forbidden")), w);
  update_firewall = λ f w. (none, write_rule f w);
  get_node_tags = λ nodes w. ok (codes "node" ∷ []);
  network_project_id = codes "p";
  network_url = codes "default";
  on_xpn = false;
}

found-write_rule : (f : FirewallRule) (w : World) → found (write_rule f w f.name) ≡ ok f
unfolding write_rule found
found-write_rule f w = rw (str_eq_refl f.name) refl

found-no_panic : (r : Option FirewallRule) → found r ≢ panic
unfolding found
found-no_panic none h = cc
found-no_panic (some r) h = cc

cloud-RuleLaws : RuleLaws cloud
cloud-RuleLaws = record {
  created = λ w f h. found-write_rule f w;
  updated = λ w f h. found-write_rule f w;
  no_panic = λ w name. found-no_panic (w name);
}

abbrev commands : Commands
commands = record {
  create_cmd = λ f project. codes "create";
  update_cmd = λ f project. codes "update";
  delete_cmd = λ name project. codes "delete";
}

abbrev namer : Namer
namer = record { cluster_name = codes "uid1"; firewall_name = codes "fw1" }

abbrev no_rules : World
no_rules name = none

abbrev synced_world : World
synced_world =
    (sync cloud commands namer list_sets (30080 ∷ 30081 ∷ []) (codes "node1" ∷ []) no_rules).1

synced :
    (sync cloud commands namer list_sets (30080 ∷ 30081 ∷ []) (codes "node1" ∷ []) no_rules).0
    ≡ ok none
unfolding sync sync_rule create_firewall_object create_firewall xpn_error found
synced = refl

sync-Synced_example :
    (tags : List Str) × (cloud.get_node_tags (codes "node1" ∷ []) no_rules ≡ ok tags)
    × Synced cloud cloud-RuleLaws commands namer list_sets
        (30080 ∷ 30081 ∷ [])
        tags
        no_rules
        synced_world
sync-Synced_example =
    sync-Synced cloud cloud-RuleLaws commands namer list_sets 30080 (30081 ∷ [])
      (codes "node1" ∷ []) no_rules synced

has_rule : HasRule cloud cloud-RuleLaws commands namer list_sets (30080 ∷ 30081 ∷ []) synced_world
has_rule =
    sync-HasRule cloud cloud-RuleLaws commands namer list_sets 30080 (30081 ∷ [])
      (codes "node1" ∷ []) no_rules synced
