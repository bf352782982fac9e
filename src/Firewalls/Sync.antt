-- ===== src/Firewalls/Sync.antt =====
-- The rule after a sync.
use mathlib.Core.Logic.{◌⊎◌}
use ingress_gce.Base.{
  ℕ, ◌≡◌, ◌≢◌, refl, sym, ◌∙◌, subst, Bool, true, ◌||◌, none, some, List, [], ◌∷◌, ◌++◌, map, Str,
  codes, itoa, str_eq, ok, panic, Failure, arith, Bool-cases, inl, inr,
}
use ingress_gce.Base.Outcome.{ok-injective, Result-cases}
use ingress_gce.Sets.{StringSets, elem, new_string}
use ingress_gce.Sets.Members.{new_string-has, same_elements}
use ingress_gce.Namer.{Namer, firewall_rule}
use ingress_gce.Firewalls.{
  l7_src_ranges, FirewallAllowed, FirewallRule, Firewall, Commands, insert_sorted, sort_strings,
  xpn_error, allowed_ports, create_firewall_object, create_firewall, update_firewall, is_current,
  sync_rule, sync,
}

-- What the pool relies on of the cloud: a rule that was created or updated with no error is found as it
-- was given, and a lookup does not panic.
pub record RuleLaws {World : Type 0} (C : Firewall World) : Type 0 where
  pub created :
      (w : World) (f : FirewallRule)
      → (C.create_firewall f w).0 ≡ none
      → C.get_firewall f.name (C.create_firewall f w).1 ≡ ok f
  pub updated :
      (w : World) (f : FirewallRule)
      → (C.update_firewall f w).0 ≡ none
      → C.get_firewall f.name (C.update_firewall f w).1 ≡ ok f
  pub no_panic : (w : World) (name : Str) → C.get_firewall name w ≢ panic

xpn_error-none : (b : Bool) (cmd : Str) (f : Failure) → xpn_error b cmd f ≡ none → f ≡ none
unfolding xpn_error
xpn_error-none b cmd none h = refl
xpn_error-none b cmd (some e) h = absurd (ground arith)

elem-insert_sorted :
    (x k : Str) (ys : List Str) → elem (insert_sorted x ys) k ≡ (str_eq x k || elem ys k)
unfolding insert_sorted elem
elem-insert_sorted x k [] = refl
elem-insert_sorted x k (y ∷ ys) = ground (arith, elem-insert_sorted x k ys)

elem-sort_strings : (xs : List Str) (k : Str) → elem (sort_strings xs) k ≡ elem xs k
unfolding sort_strings elem
elem-sort_strings [] k = refl
elem-sort_strings (x ∷ xs) k =
    ground (arith, elem-insert_sorted x k (sort_strings xs), elem-sort_strings xs k)

elem-append_nil : (xs : List Str) (k : Str) → elem (xs ++ []) k ≡ elem xs k
unfolding elem
elem-append_nil [] k = refl
elem-append_nil (x ∷ xs) k = ground (arith, elem-append_nil xs k)

-- The rule lists these ports and the ranges of the health checks, and no others.
pub record Opens (node_ports : List ℕ) (rule : FirewallRule) : Type 0 where
  pub ports : (k : Str) → elem (allowed_ports rule.allowed) k ≡ elem (map itoa node_ports) k
  pub ranges : (k : Str) → elem rule.source_ranges k ≡ elem l7_src_ranges k

-- The rule is for TCP to the ports and nothing else, for nodes with one of the tags.
pub record ForNodes (node_ports : List ℕ) (tags : List Str) (rule : FirewallRule) : Type 0 where
  pub entry : FirewallAllowed
  pub only_entry : rule.allowed ≡ entry ∷ []
  pub is_tcp : entry.ip_protocol ≡ codes "tcp"
  pub entry_ports : (k : Str) → elem entry.ports k ≡ elem (map itoa node_ports) k
  pub targets : (k : Str) → elem rule.target_tags k ≡ elem tags k

module _ (S : StringSets) where
  is_current-Opens :
      (node_ports : List ℕ) (rule : FirewallRule)
      → is_current S node_ports rule ≡ true
      → Opens node_ports rule
  unfolding is_current
  is_current-Opens node_ports rule h = record {
    ports = λ k.
        same_elements S (map itoa node_ports) (allowed_ports rule.allowed) (ground (arith, h)) k;
    ranges = λ k. same_elements S l7_src_ranges rule.source_ranges (ground (arith, h)) k;
  }

  Opens-is_current :
      (node_ports : List ℕ) (rule : FirewallRule)
      → Opens node_ports rule
      → is_current S node_ports rule ≡ true
  unfolding is_current
  Opens-is_current node_ports rule o =
      let same = λ (xs ys : List Str) (e : (k : Str) → elem ys k ≡ elem xs k).
        (S.equal_iff (new_string S xs) (new_string S ys)).1
          (λ k. new_string-has S xs k ∙ (sym (e k) ∙ sym (new_string-has S ys k))) in
      rw
        (
          same (map itoa node_ports) (allowed_ports rule.allowed) o.ports,
          same l7_src_ranges rule.source_ranges o.ranges,
        )
        refl

module _ {World : Type 0} (C : Firewall World) (L : RuleLaws C) (G : Commands) (n : Namer) where
  object-Opens :
      (name description : Str) (node_ports : List ℕ) (node_names : List Str) (w : World)
      (f : FirewallRule)
      → create_firewall_object C G n name description node_ports node_names w ≡ ok f
      → (tags : List Str) × (C.get_node_tags node_names w ≡ ok tags)
        × Opens node_ports f
        × ForNodes node_ports tags f
        × (f.name ≡ name)
        × (f.network ≡ C.network_url)
  unfolding create_firewall_object allowed_ports
  object-Opens name description node_ports node_names w f h =
      elim (Result-cases (C.get_node_tags node_names w)) [
        | inl (tags, e) ↦
            subst
              (λ r.
                (ts : List Str) × (C.get_node_tags node_names w ≡ ok ts)
                × Opens node_ports r
                × ForNodes node_ports ts r
                × (r.name ≡ name)
                × (r.network ≡ C.network_url))
              (ok-injective _ f (rw (create_firewall_object, e) at h))
              (
                tags,
                e,
                record {
                  ports = λ k.
                      elem-append_nil (sort_strings (map itoa node_ports)) k
                      ∙ elem-sort_strings (map itoa node_ports) k;
                  ranges = λ k. refl;
                },
                record {
                  entry = record {
                    ip_protocol = codes "tcp";
                    ports = sort_strings (map itoa node_ports);
                  };
                  only_entry = refl;
                  is_tcp = refl;
                  entry_ports = λ k. elem-sort_strings (map itoa node_ports) k;
                  targets = λ k. elem-sort_strings tags k;
                },
                refl,
                refl,
              )
        | inr (inl (x, e)) ↦ absurd (cc (rw (create_firewall_object, e) at h))
        | inr (inr e) ↦ absurd (cc (rw (create_firewall_object, e) at h))
      ]

  module _ (S : StringSets) where
    -- There is a rule under the cluster's name that opens the ports.
    pub HasRule : List ℕ → World → Type 0
    HasRule node_ports w =
        (rule : FirewallRule) × (C.get_firewall (firewall_rule n) w ≡ ok rule)
        × Opens node_ports rule

    -- After a sync: a rule under the cluster's name lists the ports and the ranges. It is the rule that was
    -- there before, or a new one for TCP to these ports, on the cluster's network, for the tags.
    pub record Synced (node_ports : List ℕ) (tags : List Str) (before after : World) : Type 0 where
      pub rule : FirewallRule
      pub stored : C.get_firewall (firewall_rule n) after ≡ ok rule
      pub opens : Opens node_ports rule
      pub origin :
          (C.get_firewall (firewall_rule n) before ≡ ok rule)
          ⊎ (ForNodes node_ports tags rule × (rule.network ≡ C.network_url))

    sync_rule-Synced :
        (node_ports : List ℕ) (tags : List Str) (f : FirewallRule) (w : World)
        → Opens node_ports f
        → ForNodes node_ports tags f × (f.network ≡ C.network_url)
        → f.name ≡ firewall_rule n
        → (sync_rule C G n S node_ports f w).0 ≡ none
        → Synced node_ports tags w (sync_rule C G n S node_ports f w).1
    unfolding sync_rule update_firewall create_firewall
    sync_rule-Synced node_ports tags f w o new named h =
        elim (Result-cases (C.get_firewall (firewall_rule n) w)) [
          | inl (rule, e) ↦ elim (Bool-cases (is_current S node_ports rule)) [
            | inl b ↦
                rw (sync_rule, e, b)
                  (record {
                    rule = rule;
                    stored = e;
                    opens = is_current-Opens S node_ports rule b;
                    origin = inl e;
                  })
            | inr b ↦
                let fine =
                  xpn_error-none _ _ (C.update_firewall f w).0 (rw (sync_rule, e, b) at h) in
                rw (sync_rule, e, b)
                  (record {
                    rule = f;
                    stored =
                        subst (λ x. C.get_firewall x (C.update_firewall f w).1 ≡ ok f) named
                          (L.updated w f fine);
                    opens = o;
                    origin = inr new;
                  })
          ]
          | inr (inl (x, e)) ↦
              let fine = xpn_error-none _ _ (C.create_firewall f w).0 (rw (sync_rule, e) at h) in
              rw (sync_rule, e)
                (record {
                  rule = f;
                  stored =
                      subst (λ x. C.get_firewall x (C.create_firewall f w).1 ≡ ok f) named
                        (L.created w f fine);
                  opens = o;
                  origin = inr new;
                })
          | inr (inr e) ↦ absurd (L.no_panic w (firewall_rule n) e)
        ]

    -- A sync with ports that reports no error: the nodes have tags, and there is a rule under the cluster's
    -- name that lists exactly these ports and exactly the ranges of the health checks, in whatever order.
    -- It is the rule that was there before, or else one on the cluster's network with a single entry, for
    -- TCP to these ports, and for exactly these tags.
    pub sync-Synced :
        (p : ℕ) (ps : List ℕ) (node_names : List Str) (w : World)
        → (sync C G n S (p ∷ ps) node_names w).0 ≡ ok none
        → (tags : List Str) × (C.get_node_tags node_names w ≡ ok tags)
          × Synced (p ∷ ps) tags w (sync C G n S (p ∷ ps) node_names w).1
    unfolding sync
    sync-Synced p ps node_names w h =
        let object =
          create_firewall_object C G n (firewall_rule n) (codes "GCE L7 firewall rule") (p ∷ ps)
            node_names w in
        elim (Result-cases object) [
          | inl (f, e) ↦
              let (tags, read, o, new, named, net) =
                object-Opens (firewall_rule n) (codes "GCE L7 firewall rule") (p ∷ ps) node_names w
                  f e in
              rw (sync, e)
                (
                  tags,
                  read,
                  sync_rule-Synced (p ∷ ps) tags f w o (new, net) named
                      (ok-injective _ _ (rw (sync, e) at h)),
                )
          | inr (inl (x, e)) ↦ absurd (cc (ok-injective _ _ (rw (sync, e) at h)))
          | inr (inr e) ↦ absurd (cc (rw (sync, e) at h))
        ]

    -- A sync with ports that reports no error leaves a rule under the cluster's name that lists exactly
    -- these ports and the ranges of the health checks.
    pub sync-HasRule :
        (p : ℕ) (ps : List ℕ) (node_names : List Str) (w : World)
        → (sync C G n S (p ∷ ps) node_names w).0 ≡ ok none
        → HasRule (p ∷ ps) (sync C G n S (p ∷ ps) node_names w).1
    unfolding HasRule
    sync-HasRule p ps node_names w h =
        let (tags, read, done) = sync-Synced p ps node_names w h in
        (done.rule, done.stored, done.opens)

    -- A sync of ports whose rule is there changes nothing, unless the nodes' tags cannot be told: so a
    -- second sync after one with no error is without effect.
    pub sync-idle :
        (p : ℕ) (ps : List ℕ) (node_names tags : List Str) (w : World)
        → HasRule (p ∷ ps) w
        → C.get_node_tags node_names w ≡ ok tags
        → sync C G n S (p ∷ ps) node_names w ≡ (ok none, w)
    unfolding sync sync_rule HasRule create_firewall_object
    sync-idle p ps node_names tags w (rule, found, o) e =
        rw (sync, create_firewall_object, e, sync_rule, found, Opens-is_current S (p ∷ ps) rule o)
          refl
