-- ===== src/Neg/Sync/Batches.antt =====
-- Batches: their size, that they empty the set, and that they hold the set's endpoints.
use mathlib.Core.Path.{ap₂}
use ingress_gce.Base.{
  ℕ, zero, suc, ◌+◌, ◌≤◌, ◌≡◌, refl, ap, sym, Bool, true, false, ◌||◌, some, List, [], ◌∷◌, Str, ok,
  str_eq, str_eq_refl, length, Option-cases, inl, inr, ◌∙◌, arith,
}
use ingress_gce.Base.Outcome.{◌>>=◌}
use ingress_gce.Sets.{StringSets, elem}
use ingress_gce.Neg.Endpoint.{NetworkEndpoint, to_network_endpoint}
use ingress_gce.Neg.Endpoint.Codec.{IsEncodable, encode, to_network_endpoint-encode}
use ingress_gce.Neg.Cloud.Laws.{holds}
use ingress_gce.Neg.Sync.{convert_all, pop_items, batch_size, to_network_endpoint_batch}

-- A string that encodes an endpoint.
pub record IsEncoded (k : Str) : Type 0 where
  pub endpoint : NetworkEndpoint
  pub encodable : IsEncodable endpoint
  pub form : k ≡ encode endpoint

-- A list of such strings converts to the endpoints that they encode.
pub record Converted (xs : List Str) : Type 0 where
  pub endpoints : List NetworkEndpoint
  pub result : convert_all xs ≡ ok endpoints
  pub same : (k : Str) → holds endpoints k ≡ elem xs k
  pub count : length endpoints ≡ length xs

convert_all-cons :
    (x : Str) (xs : List Str) (e : NetworkEndpoint) (es : List NetworkEndpoint)
    → to_network_endpoint x ≡ ok e
    → convert_all xs ≡ ok es
    → convert_all (x ∷ xs) ≡ ok (e ∷ es)
unfolding convert_all
convert_all-cons x xs e es p q = rw (p, ◌>>=◌, q)

convert_encoded : (x : Str) (e : IsEncoded x) → to_network_endpoint x ≡ ok e.endpoint
convert_encoded x e =
    ap to_network_endpoint e.form ∙ to_network_endpoint-encode e.endpoint e.encodable

pub convert_all_lem : (xs : List Str) → ((k : Str) → elem xs k ≡ true → IsEncoded k) → Converted xs
unfolding convert_all holds elem
convert_all_lem [] h = record { endpoints = []; result = refl; same = λ k. refl; count = refl }
convert_all_lem (x ∷ xs) h =
    let e = h x (rw (str_eq_refl x)) in
    let rest = convert_all_lem xs (λ k p. h k (ground (arith, p))) in
    record {
      endpoints = e.endpoint ∷ rest.endpoints;
      result = convert_all-cons x xs e.endpoint rest.endpoints (convert_encoded x e) rest.result;
      same = λ k. ap₂ ◌||◌ (ap (λ y. str_eq y k) (sym e.form)) (rest.same k);
      count = ap suc rest.count;
    }

or-true : (b : Bool) → (b || true) ≡ true
or-true true = refl
or-true false = refl

module _ (S : StringSets) where
  open S use {Set, has, len, pop_any, pop_any-none, pop_any-has, pop_any-gone, pop_any-len}

  pop_items-step :
      (n : ℕ) (s : Set) (p : Str × Set)
      → pop_any s ≡ some p
      → pop_items S (suc n) s ≡ (p.0 ∷ (pop_items S n p.1).0, (pop_items S n p.1).1)
  unfolding pop_items
  pop_items-step n s p e = rw (e, pop_items)

  -- Popping as many items as there are takes them out, each once.
  pub record Pops (n : ℕ) (s : Set) : Type 0 where
    pub count : length (pop_items S n s).0 ≡ n
    pub left : len (pop_items S n s).1 + n ≡ len s
    pub split : (k : Str) → has s k ≡ (elem (pop_items S n s).0 k || has (pop_items S n s).1 k)

  pub pop_items_lem : (n : ℕ) (s : Set) → n ≤ len s → Pops n s
  unfolding pop_items elem
  pop_items_lem zero s h = record { count = refl; left = omega arith; split = λ k. refl }
  pop_items_lem (suc n) s h = elim (Option-cases (pop_any s)) [
    | inl e ↦ absurd (omega (arith, pop_any-none s e))
    | inr (p, e) ↦
        let fewer = pop_any-len s p.1 p.0 e in
        let step = pop_items-step n s p e in
        let ih = pop_items_lem n p.1 (omega (arith, fewer)) in
        record {
          count = rw step (ap suc ih.count);
          left = rw step (omega (arith, fewer, ih.left));
          split = λ k. rw step (ground (arith, pop_any-has s p.1 p.0 e k, ih.split k));
        }
  ]

  -- A batch of a set of encoded endpoints: it holds what it takes out of the set, at most 500 and at
  -- least one endpoint if there is one.
  pub record Batch (s : Set) : Type 0 where
    pub endpoints : List NetworkEndpoint
    pub result : (to_network_endpoint_batch S s).0 ≡ ok endpoints
    pub size : length endpoints ≡ batch_size S s
    pub left : len (to_network_endpoint_batch S s).1 + length endpoints ≡ len s
    pub split : (k : Str) → has s k ≡ (holds endpoints k || has (to_network_endpoint_batch S s).1 k)

  abbrev pub AllEncoded : Set → Type 0
  AllEncoded s = (k : Str) → has s k ≡ true → IsEncoded k

  batch_size-le : (s : Set) → batch_size S s ≤ len s
  batch_size-le s = ground arith

  pub batch_lem : (s : Set) → AllEncoded s → Batch s
  unfolding to_network_endpoint_batch
  batch_lem s h =
      let n = batch_size S s in
      let pops = pop_items_lem n s (batch_size-le s) in
      let c = convert_all_lem (pop_items S n s).0 (λ k p. h k (pops.split k ∙ rw p)) in
      record {
        endpoints = c.endpoints;
        result = c.result;
        size = c.count ∙ pops.count;
        left = omega (arith, c.count, pops.count, pops.left);
        split = λ k. rw (c.same k) (pops.split k);
      }

  pub batch-AllEncoded : (s : Set) → AllEncoded s → AllEncoded (to_network_endpoint_batch S s).1
  batch-AllEncoded s h k p = h k ((batch_lem s h).split k ∙ rw p (or-true _))
