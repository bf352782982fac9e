-- ===== src/Firewalls.antt =====
-- The firewall rule of the load balancers, pkg/firewalls/firewalls.go. Logs are left out; the command
-- for the network's admin is made by the cloud provider's library.
pub mod Sync
mod Tests
use ingress_gce.Base.{
  ℕ, Bool, true, false, ◌&&◌, ◌||◌, Option, none, some, List, [], ◌∷◌, ◌++◌, map, Str, codes, itoa,
  Error, Result, ok, err, panic, Failure, ltb, if◌then◌else◌, ◌==◌,
}
use ingress_gce.Sets.{StringSets, new_string}
use ingress_gce.Http.{is_not_found_error, is_forbidden_error}
use ingress_gce.Namer.{Namer, firewall_rule}

-- Src ranges from which the GCE L7 performs health checks.
abbrev pub l7_src_ranges : List Str
l7_src_ranges = codes "130.211.0.0/22" ∷ codes "35.191.0.0/16" ∷ []

pub record FirewallAllowed : Type 0 where
  pub ip_protocol : Str
  pub ports : List Str

-- the fields of the API's Firewall that the pool sets
pub record FirewallRule : Type 0 where
  pub name : Str
  pub description : Str
  pub source_ranges : List Str
  pub network : Str
  pub allowed : List FirewallAllowed
  pub target_tags : List Str

-- The error of a method: a FirewallSyncError with the error within and its message, or another.
pub data SyncError : Type 0 where
  firewall_sync_error : Failure → Str → SyncError
  other_error : Error → SyncError

pub record Firewall (World : Type 0) : Type 0 where
  pub create_firewall : FirewallRule → World → Failure × World
  pub get_firewall : Str → World → Result FirewallRule
  pub delete_firewall : Str → World → Failure × World
  pub update_firewall : FirewallRule → World → Failure × World
  pub get_node_tags : List Str → World → Result (List Str)
  pub network_project_id : Str
  pub network_url : Str
  pub on_xpn : Bool

-- The commands that the cloud provider's library prints.
pub record Commands : Type 0 where
  pub create_cmd : FirewallRule → Str → Str
  pub update_cmd : FirewallRule → Str → Str
  pub delete_cmd : Str → Str → Str

-- sort.Strings, by the order of bytes
unfoldable pub str_le : Str → Str → Bool
str_le [] t = true
str_le (c ∷ s) [] = false
str_le (c ∷ s) (d ∷ t) =
    let rest = str_le s t in if ltb c d then true else if c == d then rest else false

unfoldable pub insert_sorted : Str → List Str → List Str
insert_sorted x [] = x ∷ []
insert_sorted x (y ∷ ys) =
    let rest = insert_sorted x ys in if str_le x y then x ∷ y ∷ ys else y ∷ rest

unfoldable pub sort_strings : List Str → List Str
sort_strings [] = []
sort_strings (x ∷ xs) = insert_sorted x (sort_strings xs)

-- a forbidden change on XPN asks the network's admin
unfoldable pub xpn_error : Bool → Str → Failure → Option SyncError
xpn_error on_xpn cmd none = none
xpn_error on_xpn cmd (some e) =
    if is_forbidden_error (some e) && on_xpn
    then some (
        firewall_sync_error (some e)
          (codes "Firewall change required by network admin: `" ++ (cmd ++ codes "`")))
    else some (other_error e)

-- The ports of all protocols of the rule.
unfoldable pub allowed_ports : List FirewallAllowed → List Str
allowed_ports [] = []
allowed_ports (a ∷ as') = a.ports ++ allowed_ports as'

module _ (S : StringSets) where
  open S use {equal}

  -- whether the rule has the ports and the source ranges that it should have
  unfoldable pub is_current : List ℕ → FirewallRule → Bool
  is_current node_ports rule =
      equal (new_string S (map itoa node_ports)) (new_string S (allowed_ports rule.allowed))
      && equal (new_string S l7_src_ranges) (new_string S rule.source_ranges)

module _ {World : Type 0} (C : Firewall World) (G : Commands) (n : Namer) where
  unfoldable pub create_firewall_object :
      Str → Str → List ℕ → List Str → World → Result FirewallRule
  create_firewall_object firewall_name description node_ports node_names w =
      elim (C.get_node_tags node_names w) [
        | ok tags ↦ ok (record {
          name = firewall_name;
          description = description;
          source_ranges = l7_src_ranges;
          network = C.network_url;
          allowed =
              record { ip_protocol = codes "tcp"; ports = sort_strings (map itoa node_ports) } ∷ [];
          target_tags = sort_strings tags;
        })
        | err e ↦ err e
        | panic ↦ panic
      ]

  unfoldable pub create_firewall : FirewallRule → World → Option SyncError × World
  create_firewall f w =
      let done = C.create_firewall f w in
      (xpn_error C.on_xpn (G.create_cmd f C.network_project_id) done.0, done.1)

  unfoldable pub update_firewall : FirewallRule → World → Option SyncError × World
  update_firewall f w =
      let done = C.update_firewall f w in
      (xpn_error C.on_xpn (G.update_cmd f C.network_project_id) done.0, done.1)

  unfoldable pub delete_firewall : Str → World → Option SyncError × World
  delete_firewall name w =
      let done = C.delete_firewall name w in
      if is_not_found_error done.0
      then (none, done.1)
      else (xpn_error C.on_xpn (G.delete_cmd name C.network_project_id) done.0, done.1)

  unfoldable pub shutdown : World → Option SyncError × World
  shutdown w = delete_firewall (firewall_rule n) w

  module _ (S : StringSets) where
    unfoldable pub sync_rule : List ℕ → FirewallRule → World → Option SyncError × World
    sync_rule node_ports firewall w = elim (C.get_firewall (firewall_rule n) w) [
      | ok rule ↦ if is_current S node_ports rule then (none, w) else update_firewall firewall w
      | err e ↦ create_firewall firewall w
      -- a lookup in the cloud does not panic
      | panic ↦ (none, w)
    ]

    unfoldable pub sync : List ℕ → List Str → World → Result (Option SyncError) × World
    sync [] node_names w = (let done = shutdown w in (ok done.0, done.1))
    sync (p ∷ ps) node_names w =
        elim (create_firewall_object (firewall_rule n) (codes "GCE L7 firewall rule") (p ∷ ps)
          node_names w) [
            | ok firewall ↦ (let done = sync_rule (p ∷ ps) firewall w in (ok done.0, done.1))
            | err e ↦ (ok (some (other_error e)), w)
            | panic ↦ (panic, w)
          ]
