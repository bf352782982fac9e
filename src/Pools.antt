-- ===== src/Pools.antt =====
-- The pools of pkg/storage/pools.go. The thread-safe store of client-go is a Go map under a lock.
pub mod Laws
use ingress_gce.Base.{Option, none, some, List, [], ◌∷◌, map, Str, Result, ok, err, panic}
use ingress_gce.Base.Maps.{get, put, remove, str_Eq}

abbrev pub InMemoryPool : Type 0 → Type 0
InMemoryPool V = List (Str × V)

module _ {V : Type 0} where
  -- for _, key := range p.ListKeys()
  unfoldable pub copy_keys : InMemoryPool V → List Str → InMemoryPool V → InMemoryPool V
  copy_keys p [] snap = snap
  copy_keys p (key ∷ keys) snap = elim (get key p) [
    | none ↦ copy_keys p keys snap
    | some item ↦ copy_keys p keys (put key item snap)
  ]

  unfoldable pub snapshot : InMemoryPool V → InMemoryPool V
  snapshot p = copy_keys p (map (λ e. e.0) p) []

  abbrev pub add_item : Str → V → InMemoryPool V → InMemoryPool V
  add_item key item p = put key item p

  abbrev pub delete_item : Str → InMemoryPool V → InMemoryPool V
  delete_item key p = remove key p

  module _ (key_getter : V → Result Str) where
    -- an item without a key is skipped
    unfoldable pub add_items : List V → InMemoryPool V → InMemoryPool V
    add_items [] p = p
    add_items (item ∷ items) p = elim (key_getter item) [
      | ok key ↦ add_items items (add_item key item p)
      | err e ↦ add_items items p
      | panic ↦ add_items items p
    ]

    -- A listing that fails changes nothing.
    unfoldable pub replenish_pool : Result (List V) → InMemoryPool V → InMemoryPool V
    replenish_pool (ok items) p = add_items items p
    replenish_pool (err e) p = p
    replenish_pool panic p = p
