-- ===== src/Neg/Sync/Plans.antt =====
-- The plan of a sync: it ends, and its calls hold the endpoints of the two maps.
use mathlib.Core.Path.{ap₂}
use native.Mathlib.Nat.{le_refl}
use ingress_gce.Base.{
  ℕ, zero, suc, ◌≤◌, ◌≡◌, refl, sym, subst, Bool, true, false, ◌&&◌, ◌||◌, none, List, [], ◌∷◌,
  ◌++◌, Str, ok, str_eq, str_eq_iff, length, ◌==◌, if◌then◌else◌, Bool-cases, inl, inr, ◌∙◌, arith,
}
use ingress_gce.Base.Maps.{get, str_Eq}
use ingress_gce.Sets.{StringSets, elem}
use ingress_gce.Neg.Endpoint.{NetworkEndpoint}
use ingress_gce.Neg.Cloud.Laws.{holds}
use ingress_gce.Neg.Sync.{
  Call, attach, detach, Plan, finished, then_plan, launch, to_network_endpoint_batch, zone_plan,
  zones_plan, plan, zone_set,
}
use ingress_gce.Neg.Sync.Batches.{AllEncoded, Batch, batch_lem, batch-AllEncoded}

-- Whether some call satisfies the test.
unfoldable pub any : (Call → Bool) → List Call → Bool
any p [] = false
any p (c ∷ cs) = p c || any p cs

pub any-append : (p : Call → Bool) (cs ds : List Call) → any p (cs ++ ds) ≡ (any p cs || any p ds)
unfolding any
any-append p [] ds = refl
any-append p (c ∷ cs) ds = ground (arith, any-append p cs ds)

-- A plan that has finished, and whose calls satisfy `p` as the Boolean says.
pub record Done (p : Call → Bool) (b : Bool) (q : Plan) : Type 0 where
  pub halts : q.halt ≡ finished
  pub some_call : any p q.calls ≡ b

pub then_plan-Done :
    {p : Call → Bool} (b c : Bool) (q r : Plan)
    → Done p b q
    → Done p c r
    → Done p (b || c) (then_plan q r)
unfolding then_plan
then_plan-Done {p} b c q r hq hr = record {
  halts = rw (hq.halts, then_plan) hr.halts;
  some_call =
      rw (hq.halts, then_plan) (any-append p q.calls r.calls ∙ ap₂ ◌||◌ hq.some_call hr.some_call);
}

unfoldable pub attaches : Str → Str → Call → Bool
attaches z k (attach zone es) = str_eq zone z && holds es k
attaches z k (detach zone es) = false

unfoldable pub detaches : Str → Str → Call → Bool
detaches z k (attach zone es) = false
detaches z k (detach zone es) = str_eq zone z && holds es k

pub or-false : (b : Bool) → (b || false) ≡ b
or-false true = refl
or-false false = refl

and-false : (b : Bool) → (b && false) ≡ false
and-false true = refl
and-false false = refl

module _ (S : StringSets) where
  open S use {Set, has, len, list, elem-list, len-list}

  elem_of_length : (xs : List Str) (k : Str) → length xs ≡ 0 → elem xs k ≡ false
  unfolding elem
  elem_of_length [] k h = refl
  elem_of_length (x ∷ xs) k h = absurd (omega arith)

  pub has-of_empty : (s : Set) (k : Str) → len s ≡ 0 → has s k ≡ false
  has-of_empty s k h = sym (elem-list s k) ∙ elem_of_length (list s) k (sym (len-list s) ∙ h)

  zone_plan-empty :
      (make : List NetworkEndpoint → Call) (fuel : ℕ) (s : Set)
      → len s ≡ 0
      → zone_plan S make fuel s ≡ record { calls = []; halt = finished }
  unfolding zone_plan
  zone_plan-empty make zero s h = rw h
  zone_plan-empty make (suc fuel) s h = rw h

  zone_plan-step :
      (make : List NetworkEndpoint → Call) (fuel : ℕ) (s : Set) (es : List NetworkEndpoint)
      → (len s == 0) ≡ false
      → (to_network_endpoint_batch S s).0 ≡ ok es
      → zone_plan S make (suc fuel) s ≡ record {
        calls = make es ∷ (zone_plan S make fuel (to_network_endpoint_batch S s).1).calls;
        halt = (zone_plan S make fuel (to_network_endpoint_batch S s).1).halt;
      }
  unfolding zone_plan launch
  zone_plan-step make fuel s es e r = rw (e, r)

  Done-empty :
      (p : Call → Bool) (make : List NetworkEndpoint → Call) (c : Bool) (k : Str)
      → (fuel : ℕ) (s : Set) → len s ≡ 0
      → Done p (c && has s k) (zone_plan S make fuel s)
  unfolding any
  Done-empty p make c k fuel s h =
      rw (zone_plan-empty make fuel s h)
        (record { halts = refl; some_call = rw (has-of_empty s k h) (sym (and-false c)) })

  Batch-smaller :
      (s : Set) (b : Batch S s) (fuel : ℕ)
      → (len s == 0) ≡ false
      → len s ≤ suc fuel
      → len (to_network_endpoint_batch S s).1 ≤ fuel
  Batch-smaller s b fuel e h = ground (arith, b.left, b.size)

  -- The loop over one zone finishes, and some call of it satisfies a test on single endpoints exactly
  -- if the set has the endpoint.
  pub zone_plan-Done :
      (p : Call → Bool) (make : List NetworkEndpoint → Call) (c : Bool) (k : Str)
      → ((es : List NetworkEndpoint) → p (make es) ≡ (c && holds es k))
      → (fuel : ℕ) (s : Set) → len s ≤ fuel
      → AllEncoded S s
      → Done p (c && has s k) (zone_plan S make fuel s)
  unfolding any
  zone_plan-Done p make c k hp zero s h enc = Done-empty p make c k zero s (omega arith)
  zone_plan-Done p make c k hp (suc fuel) s h enc = elim (Bool-cases (len s == 0)) [
    | inl e ↦ Done-empty p make c k (suc fuel) s (ground arith)
    | inr e ↦
        let b = batch_lem S s enc in
        let ih =
          zone_plan-Done p make c k hp fuel (to_network_endpoint_batch S s).1
            (Batch-smaller s b fuel e h) (batch-AllEncoded S s enc) in
        rw (zone_plan-step make fuel s b.endpoints e b.result) (record {
          halts = ih.halts;
          some_call = ground (arith, hp b.endpoints, ih.some_call, b.split k);
        })
  ]

  -- The keys of a Go map are distinct.
  abbrev pub IsMap : List (Str × Set) → Type 0
  IsMap [] = Unit
  IsMap ((zone, s) ∷ m) = (get zone m ≡ none) × IsMap m

  abbrev pub MapEncoded : List (Str × Set) → Type 0
  MapEncoded [] = Unit
  MapEncoded ((zone, s) ∷ m) = AllEncoded S s × MapEncoded m

  -- some entry of the zone has the endpoint
  unfoldable pub some_entry : (Str → Bool) → List (Str × Set) → Str → Bool
  some_entry c [] k = false
  some_entry c ((zone, s) ∷ m) k = (c zone && has s k) || some_entry c m k

  pub zones_plan-Done :
      (p : Call → Bool) (make : Str → List NetworkEndpoint → Call) (c : Str → Bool) (k : Str)
      → ((z : Str) (es : List NetworkEndpoint) → p (make z es) ≡ (c z && holds es k))
      → (m : List (Str × Set)) → MapEncoded m
      → Done p (some_entry c m k) (zones_plan S make m)
  unfolding zones_plan some_entry any
  zones_plan-Done p make c k hp [] h = record { halts = refl; some_call = refl }
  zones_plan-Done p make c k hp ((zone, s) ∷ m) h =
      then_plan-Done (c zone && has s k) (some_entry c m k) (zone_plan S (make zone) (len s) s)
        (zones_plan S make m)
        (zone_plan-Done p (make zone) (c zone) k (hp zone) (len s) s (le_refl (len s)) h.0)
        (zones_plan-Done p make c k hp m h.1)

  pub zone_set-cons :
      (j z : Str) (s : Set) (m : List (Str × Set))
      → zone_set S ((j, s) ∷ m) z ≡ (if str_eq j z then s else zone_set S m z)
  unfolding zone_set get
  zone_set-cons j z s m = ground arith

  pub zone_set-none :
      (z k : Str) (m : List (Str × Set)) → get z m ≡ none → has (zone_set S m z) k ≡ false
  unfolding zone_set
  zone_set-none z k m h = rw (h, zone_set) (S.has-empty k)

  -- In a map, the entries of a zone are the zone's set.
  pub some_entry-lookup :
      (z k : Str) (m : List (Str × Set))
      → IsMap m
      → some_entry (λ j. str_eq j z) m k ≡ has (zone_set S m z) k
  unfolding some_entry
  some_entry-lookup z k [] h = sym (zone_set-none z k [] (unfold get in refl))
  some_entry-lookup z k ((j, s) ∷ m) h = elim (Bool-cases (str_eq j z)) [
    | inl e ↦
        rw
          (
            zone_set-cons j z s m,
            e,
            some_entry-lookup z k m h.1,
            zone_set-none z k m (subst (λ y. get y m ≡ none) ((str_eq_iff j z).0 e) h.0),
          )
          (or-false (has s k))
    | inr e ↦ rw (zone_set-cons j z s m, e) (some_entry-lookup z k m h.1)
  ]

  some_entry-never : (m : List (Str × Set)) (k : Str) → some_entry (λ j. false) m k ≡ false
  unfolding some_entry
  some_entry-never [] k = refl
  some_entry-never ((j, s) ∷ m) k = some_entry-never m k

  -- On maps of encoded endpoints with distinct zones the loops over the batches finish; some launched call
  -- attaches an endpoint in a zone exactly if the one map has it there, and some call detaches it exactly
  -- if the other has.
  pub plan-Done :
      (add remove : List (Str × Set)) (z k : Str)
      → IsMap add
      → IsMap remove
      → MapEncoded add
      → MapEncoded remove
      → Done (attaches z k) (has (zone_set S add z) k) (plan S add remove)
        × Done (detaches z k) (has (zone_set S remove z) k) (plan S add remove)
  unfolding plan attaches detaches
  plan-Done add remove z k ma mr ea er =
      let at = λ (j : Str). str_eq j z in
      let never = λ (j : Str). false in
      let p = attaches z k in
      let q = detaches z k in
      (
        then_plan-Done false (has (zone_set S add z) k) (zones_plan S detach remove)
            (zones_plan S attach add)
            (subst (λ b. Done p b (zones_plan S detach remove)) (some_entry-never remove k)
              (zones_plan-Done p detach never k (λ _ _. refl) remove er))
            (subst (λ b. Done p b (zones_plan S attach add)) (some_entry-lookup z k add ma)
              (zones_plan-Done p attach at k (λ _ _. refl) add ea)),
        subst (λ b. Done q b (plan S add remove)) (or-false _)
            (then_plan-Done (has (zone_set S remove z) k) false (zones_plan S detach remove)
              (zones_plan S attach add)
              (subst (λ b. Done q b (zones_plan S detach remove)) (some_entry-lookup z k remove mr)
                (zones_plan-Done q detach at k (λ _ _. refl) remove er))
              (subst (λ b. Done q b (zones_plan S attach add)) (some_entry-never add k)
                (zones_plan-Done q attach never k (λ _ _. refl) add ea))),
      )
