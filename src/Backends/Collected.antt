-- ===== src/Backends/Collected.antt =====
-- What GC leaves in the cloud and in the snapshot.
use ingress_gce.Base.{
  ℕ, ◌≡◌, ◌<◌, ◌^◌, refl, ap, sym, subst, ◌∙◌, Bool, true, false, not, ◌&&◌, ◌||◌, Option, none,
  some, List, [], ◌∷◌, map, Str, str_eq, str_eq_iff, str_eq_refl, All, arith, Bool-cases,
  Option-cases, inl, inr, if_true,
}
use ingress_gce.Base.Maps.{get as map_get, str_Eq}
use ingress_gce.Sets.{elem}
use ingress_gce.Namer.{Namer, backend}
use ingress_gce.Namer.Port.{backend-injective}
use ingress_gce.Pools.{InMemoryPool, copy_keys, snapshot}
use ingress_gce.Pools.Laws.{snapshot_lem, elem-keys}
use ingress_gce.Backends.{BackendService, ServicePort, port_key, Parts, State}
use ingress_gce.Backends.Collect.{known_ports, gc}
use ingress_gce.Backends.Delete.{IsGone, DeleteLaws}
use ingress_gce.Backends.Tracked.{IsTracked, port_key-IsPortKey, put-IsTracked}
use ingress_gce.Backends.Sweep.{stale, delete_each, collect_keys-delete_each}
use ingress_gce.Backends.Swept.{
  port_key-injective, names, delete_each-pool, delete_each-deletes, delete_each-elsewhere,
}

abbrev Snapshot : Type 0
Snapshot = InMemoryPool (Option BackendService)

-- the ports of the keys
record Ports (keys : List Str) : Type 0 where
  ports : List ℕ
  form : keys ≡ map port_key ports
  small : All (λ p. p < 2 ^ 16) ports

keys-Ports : (pool : Snapshot) → IsTracked pool → Ports (map (λ e. e.0) pool)
keys-Ports [] t = record { ports = []; form = refl; small = tt }
keys-Ports ((k, v) ∷ pool) t =
    let rest = keys-Ports pool t.1 in
    let (p, small, read, e) = t.0 in
    record {
      ports = p ∷ rest.ports;
      form = ap (λ x. x ∷ map (λ y. y.0) pool) e ∙ ap (λ xs. port_key p ∷ xs) rest.form;
      small = (small, rest.small);
    }

copy_keys-IsTracked :
    (pool : Snapshot) (ps : List ℕ) (snap : Snapshot)
    → All (λ p. p < 2 ^ 16) ps
    → IsTracked snap
    → IsTracked (copy_keys pool (map port_key ps) snap)
unfolding copy_keys
copy_keys-IsTracked pool [] snap small t = t
copy_keys-IsTracked pool (p ∷ ps) snap small t = elim (Option-cases (map_get (port_key p) pool)) [
  | inl e ↦ rw (copy_keys, e) (copy_keys-IsTracked pool ps snap small.1 t)
  | inr (v, e) ↦
      rw (copy_keys, e)
        (copy_keys-IsTracked pool ps _ small.1
          (put-IsTracked (port_key p) v snap (port_key-IsPortKey p small.0) t))
]

snapshot-IsTracked : (pool : Snapshot) → IsTracked pool → IsTracked (snapshot pool)
unfolding snapshot
snapshot-IsTracked pool t =
    let ports = keys-Ports pool t in
    subst (λ keys. IsTracked (copy_keys pool keys [])) (sym ports.form)
      (copy_keys-IsTracked pool ports.ports [] ports.small tt)

-- A port's key that the snapshot has is among the keys.
has_key :
    (keys : List ℕ) (pool : Snapshot) (k : Str) (v : Option BackendService)
    → map (λ e. e.0) (snapshot pool) ≡ map port_key keys
    → map_get k pool ≡ some v
    → elem (map port_key keys) k ≡ true
has_key keys pool k v form h = elim (Bool-cases (elem (map (λ e. e.0) (snapshot pool)) k)) [
  | inl b ↦ subst (λ xs. elem xs k ≡ true) form b
  | inr b ↦ absurd (cc (sym (snapshot_lem pool k) ∙ elem-keys (snapshot pool) k b, h))
]

module _ (n : Namer) (known ignored : List Str) where
  abbrev safe : ℕ → Bool
  safe p = elem known (port_key p) || elem ignored (port_key p)

  -- The ports to delete are those of the keys that are neither known nor ignored.
  stale-elem :
      (ps : List ℕ) (k : Str)
      → elem (map port_key (stale known ignored ps)) k
        ≡ (elem (map port_key ps) k && not (elem known k || elem ignored k))
  unfolding stale elem
  stale-elem [] k = refl
  stale-elem (p ∷ ps) k = elim (Bool-cases (str_eq (port_key p) k)) [
    | inl b ↦
        let same = (str_eq_iff (port_key p) k).0 b in
        ground (arith, stale-elem ps k, b, ap (elem known) same, ap (elem ignored) same)
    | inr b ↦ ground (arith, stale-elem ps k, b)
  ]

  -- By its name or by its key, a port is listed or not.
  names-elem :
      (ps : List ℕ) (p : ℕ)
      → All (λ q. q < 2 ^ 16) ps
      → p < 2 ^ 16
      → elem (map (λ q. backend n q) ps) (backend n p) ≡ elem (map port_key ps) (port_key p)
  unfolding elem
  names-elem [] p small h = refl
  names-elem (q ∷ ps) p small h = elim (Bool-cases (str_eq (port_key q) (port_key p))) [
    | inl b ↦
        let same = port_key-injective q p ((str_eq_iff (port_key q) (port_key p)).0 b) in
        rw (b, same, str_eq_refl (backend n p)) refl
    | inr b ↦ elim (Bool-cases (str_eq (backend n q) (backend n p))) [
      | inl c ↦
          let same =
            backend-injective n n q p (omega (arith, small.0)) (omega (arith, h))
              ((str_eq_iff (backend n q) (backend n p)).0 c) in
          absurd (
            cc (
              b,
              subst (λ y. str_eq (port_key q) (port_key y) ≡ true) same (str_eq_refl (port_key q)),
            ))
      | inr c ↦ rw (b, c) (names-elem ps p small.1 h)
    ]
  ]

  stale-small :
      (ps : List ℕ) → All (λ q. q < 2 ^ 16) ps → All (λ q. q < 2 ^ 16) (stale known ignored ps)
  unfolding stale
  stale-small [] small = tt
  stale-small (p ∷ ps) small = elim (Bool-cases (safe p)) [
    | inl b ↦ rw (stale, b) (stale-small ps small.1)
    | inr b ↦ rw (stale, b) (small.0, stale-small ps small.1)
  ]

module _ {World : Type 0} (B : Parts World) (n : Namer) (ignored : List Str) where
  abbrev stale_ports : List ServicePort → (s : State World) → IsTracked s.0 → List ℕ
  stale_ports ps s t =
      stale (known_ports ps) ignored (keys-Ports (snapshot s.0) (snapshot-IsTracked s.0 t)).ports

  gc-delete_each :
      (ps : List ServicePort) (s : State World) (t : IsTracked s.0)
      → gc B n ignored ps s ≡ delete_each B n (stale_ports ps s t) s
  unfolding gc
  gc-delete_each ps s t =
      let keys = keys-Ports (snapshot s.0) (snapshot-IsTracked s.0 t) in
      rw keys.form (collect_keys-delete_each B n (known_ports ps) ignored keys.ports s keys.small)

  stale_names :
      (ps : List ServicePort) (s : State World) (t : IsTracked s.0) (p : ℕ)
      → p < 2 ^ 16
      → elem (names B n (stale_ports ps s t)) (backend n p)
        ≡ elem (map port_key (stale_ports ps s t)) (port_key p)
  stale_names ps s t p small =
      let keys = keys-Ports (snapshot s.0) (snapshot-IsTracked s.0 t) in
      names-elem n (known_ports ps) ignored (stale_ports ps s t) p
        (stale-small n (known_ports ps) ignored keys.ports keys.small) small

  module _ (L : DeleteLaws B) where
    -- After a collection with no error from a snapshot whose keys are ports of 16 bits: a port that the
    -- snapshot had, and that is neither one of the given service ports nor ignored, is no longer in the
    -- snapshot, and the cloud has no backend service of it.
    pub gc-IsGone :
        (ps : List ServicePort) (s : State World) (p : ℕ) (v : Option BackendService)
        → IsTracked s.0
        → (gc B n ignored ps s).0 ≡ none
        → p < 2 ^ 16
        → map_get (port_key p) s.0 ≡ some v
        → (elem (known_ports ps) (port_key p) || elem ignored (port_key p)) ≡ false
        → (map_get (port_key p) (gc B n ignored ps s).1.0 ≡ none)
          × IsGone B (backend n p) (gc B n ignored ps s).1.1
    gc-IsGone ps s p v t h small has unknown =
        let keys = keys-Ports (snapshot s.0) (snapshot-IsTracked s.0 t) in
        let run = gc-delete_each ps s t in
        let fine : (delete_each B n (stale_ports ps s t) s).0 ≡ none =
          sym (ap (λ r. r.0) run) ∙ h in
        let listed : elem (map port_key (stale_ports ps s t)) (port_key p) ≡ true =
          stale-elem n (known_ports ps) ignored keys.ports (port_key p)
          ∙ rw (has_key keys.ports s.0 (port_key p) v keys.form has, unknown) refl in
        (
          ap (λ r. map_get (port_key p) r.1.0) run
              ∙ (delete_each-pool B n (stale_ports ps s t) s (port_key p) fine
                  ∙ if_true _ _ listed),
          subst (λ r. IsGone B (backend n p) r.1.1) (sym run)
              (delete_each-deletes B n L (stale_ports ps s t) s (backend n p) fine
                (stale_names ps s t p small ∙ listed)),
        )

    -- Whatever its outcome, a collection from such a snapshot does not change the backend service of a
    -- given service port or of an ignored port.
    pub gc-kept :
        (ps : List ServicePort) (s : State World) (p : ℕ)
        → IsTracked s.0
        → p < 2 ^ 16
        → (elem (known_ports ps) (port_key p) || elem ignored (port_key p)) ≡ true
        → B.cloud.get_global_backend_service (backend n p) (gc B n ignored ps s).1.1
          ≡ B.cloud.get_global_backend_service (backend n p) s.1
    gc-kept ps s p t small known =
        let keys = keys-Ports (snapshot s.0) (snapshot-IsTracked s.0 t) in
        ap (λ r. B.cloud.get_global_backend_service (backend n p) r.1.1) (gc-delete_each ps s t)
        ∙ delete_each-elsewhere B n L (stale_ports ps s t) s (backend n p) (
            stale_names ps s t p small
            ∙ (stale-elem n (known_ports ps) ignored keys.ports (port_key p)
                ∙ rw known (ground arith)))
