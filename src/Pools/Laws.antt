-- ===== src/Pools/Laws.antt =====
-- What a snapshot and a replenishing keep.
use ingress_gce.Base.{
  ◌≡◌, refl, ap, sym, ◌∙◌, subst, false, ◌⊎◌, Option, none, some, List, [], ◌∷◌, map, Str, str_eq,
  str_eq_iff, Result, ok, err, panic, if◌then◌else◌, arith, Bool-cases, Option-cases, inl, inr,
}
use ingress_gce.Base.Maps.{get, put, get-put, str_Eq}
use ingress_gce.Sets.{elem}
use ingress_gce.Base.Outcome.{Result-cases}
use ingress_gce.Pools.{InMemoryPool, copy_keys, snapshot, add_items, replenish_pool}

module _ {V : Type 0} where
  -- the first of two answers
  abbrev pub or_else : Option V → Option V → Option V
  or_else none d = d
  or_else (some v) d = some v

  -- The write of a key that is the looked up one, and of one that is not.
  put_at :
      (key k : Str) (item : V) (m : InMemoryPool V) (P : Option V → Type 0)
      → (key ≡ k → P (some item))
      → (str_eq key k ≡ false → P (get k m))
      → P (get k (put key item m))
  put_at key k item m P same other = elim (Bool-cases (str_eq key k)) [
    | inl e ↦ rw (get-put key k item m, e) (same ((str_eq_iff key k).0 e))
    | inr e ↦ rw (get-put key k item m, e) (other e)
  ]

  -- one key of the copy
  copy_step :
      (p : InMemoryPool V) (key : Str) (keys : List Str) (snap : InMemoryPool V)
      → ((get key p ≡ none) × (copy_keys p (key ∷ keys) snap ≡ copy_keys p keys snap))
        ⊎ ((item : V) × (get key p ≡ some item)
            × (copy_keys p (key ∷ keys) snap ≡ copy_keys p keys (put key item snap)))
  unfolding copy_keys
  copy_step p key keys snap = elim (Option-cases (get key p)) [
    | inl e ↦ inl (e, rw (copy_keys, e) refl)
    | inr (item, e) ↦ inr (item, e, rw (copy_keys, e) refl)
  ]

  copy_keys-absent :
      (p : InMemoryPool V) (keys : List Str) (snap : InMemoryPool V) (k : Str)
      → get k p ≡ none
      → get k (copy_keys p keys snap) ≡ get k snap
  copy_keys-absent p [] snap k h = unfold copy_keys in refl
  copy_keys-absent p (key ∷ keys) snap k h = elim (copy_step p key keys snap) [
    | inl (e, run) ↦ ap (get k) run ∙ copy_keys-absent p keys snap k h
    | inr (item, e, run) ↦
        ap (get k) run
        ∙ (copy_keys-absent p keys (put key item snap) k h
            ∙ put_at key k item snap (λ o. o ≡ get k snap)
                (λ same. absurd (cc (subst (λ y. get y p ≡ some item) same e, h))) (λ other. refl))
  ]

  copy_keys-present :
      (p : InMemoryPool V) (keys : List Str) (snap : InMemoryPool V) (k : Str) (v : V)
      → get k p ≡ some v
      → (elem keys k ≡ false → get k snap ≡ some v)
      → get k (copy_keys p keys snap) ≡ some v
  unfolding elem
  copy_keys-present p [] snap k v h s = unfold copy_keys in s refl
  copy_keys-present p (key ∷ keys) snap k v h s = elim (copy_step p key keys snap) [
    | inl (e, run) ↦
        let other = elim (Bool-cases (str_eq key k)) as (λ x. str_eq key k ≡ false) [
          | inl same ↦ absurd (cc (subst (λ y. get y p ≡ none) ((str_eq_iff key k).0 same) e, h))
          | inr n ↦ n
        ] in
        ap (get k) run ∙ copy_keys-present p keys snap k v h (λ n. s (ground (arith, n, other)))
    | inr (item, e, run) ↦
        ap (get k) run
        ∙ copy_keys-present p keys (put key item snap) k v h (λ n.
          put_at key k item snap (λ o. o ≡ some v)
            (λ same. sym (subst (λ y. get y p ≡ some item) same e) ∙ h)
            (λ other. s (ground (arith, n, other))))
  ]

  -- A key that the pool has is among its keys.
  pub elem-keys :
      (p : InMemoryPool V) (k : Str) → elem (map (λ e. e.0) p) k ≡ false → get k p ≡ none
  unfolding elem get
  elem-keys [] k h = refl
  elem-keys ((j, v) ∷ p) k h = ground (arith, elem-keys p k, h)

  -- A snapshot has each key of the pool, with the pool's item, and no other key.
  pub snapshot_lem : (p : InMemoryPool V) (k : Str) → get k (snapshot p) ≡ get k p
  unfolding snapshot
  snapshot_lem p k = elim (Option-cases (get k p)) [
    | inl e ↦ copy_keys-absent p (map (λ x. x.0) p) [] k e ∙ (unfold get in sym e)
    | inr (v, e) ↦
        copy_keys-present p (map (λ x. x.0) p) [] k v e (λ n. absurd (cc (elem-keys p k n, e)))
        ∙ sym e
  ]

  module _ (key_getter : V → Result Str) where
    item_at : V → Str → Option V
    item_at item k = elim (key_getter item) [
      | ok key ↦ if str_eq key k then some item else none
      | err e ↦ none
      | panic ↦ none
    ]

    -- the last listed item of a key
    pub last_listed : List V → Str → Option V
    last_listed [] k = none
    last_listed (item ∷ items) k = or_else (last_listed items k) (item_at item k)

    -- one listed item
    add_step :
        (item : V) (items : List V) (p : InMemoryPool V) (k : Str)
        → (q : InMemoryPool V) × (add_items key_getter (item ∷ items) p
            ≡ add_items key_getter items q)
          × (get k q ≡ or_else (item_at item k) (get k p))
    unfolding add_items item_at
    add_step item items p k = elim (Result-cases (key_getter item)) [
      | inl (key, e) ↦ (
        put key item p,
        rw (add_items, e) refl,
        rw (item_at, e)
            (elim (Bool-cases (str_eq key k)) [
              | inl b ↦ rw (get-put key k item p, b) refl
              | inr b ↦ rw (get-put key k item p, b) refl
            ]),
      )
      | inr (inl (x, e)) ↦ (p, rw (add_items, e) refl, rw (item_at, e) refl)
      | inr (inr e) ↦ (p, rw (add_items, e) refl, rw (item_at, e) refl)
    ]

    or_else_assoc : (a b c : Option V) → or_else a (or_else b c) ≡ or_else (or_else a b) c
    or_else_assoc none b c = refl
    or_else_assoc (some v) b c = refl

    add_items_lem :
        (items : List V) (p : InMemoryPool V) (k : Str)
        → get k (add_items key_getter items p) ≡ or_else (last_listed items k) (get k p)
    unfolding last_listed
    add_items_lem [] p k = unfold add_items in refl
    add_items_lem (item ∷ items) p k =
        let (q, run, here) = add_step item items p k in
        ap (get k) run
        ∙ (add_items_lem items q k
            ∙ (ap (or_else (last_listed items k)) here
                ∙ or_else_assoc (last_listed items k) (item_at item k) (get k p)))

    -- After a listing with no error, each key has the last listed item of that key, and a key of which
    -- none was listed keeps what it had.
    pub replenish_pool_lem :
        (items : List V) (p : InMemoryPool V) (k : Str)
        → get k (replenish_pool key_getter (ok items) p) ≡ or_else (last_listed items k) (get k p)
    unfolding replenish_pool
    replenish_pool_lem items p k = add_items_lem items p k
