-- ===== src/LoadBalancers/L7s/Collected.antt =====
-- What a garbage collection of the pool of load balancers leaves, pkg/loadbalancers/loadbalancers.go.
use mathlib.Core.Option.{some-injective}
use mathlib.Core.Logic.{◌⊎◌}
use ingress_gce.Base.{
  ◌≡◌, refl, ap, sym, subst, ◌∙◌, true, false, none, some, List, [], ◌∷◌, Str, str_eq, str_eq_iff,
  str_eq_refl, Error, plain, codes, Bool-cases, Option-cases, inl, inr, if-cases, elim_some,
  elim_none, arith, All,
}
use ingress_gce.Base.Maps.{get, get-remove, get-put, str_Eq}
use ingress_gce.Sets.{elem}
use ingress_gce.Namer.{Namer, load_balancer}
use ingress_gce.LoadBalancers.{L7, LoadBalancers, Done, State, proceed}
use ingress_gce.LoadBalancers.Certs.Secret.{proceed-none}
use ingress_gce.LoadBalancers.L7s.{
  BackendPool, L7s, put_lb, drop_lb, cleanup, cleaned, delete, delete_unknown, delete_default, gc,
}
use ingress_gce.LoadBalancers.L7s as Pool
use ingress_gce.LoadBalancers.L7s.Cleanup.{Shrinks, Shrinks-refl, CleanupLaws}
use ingress_gce.LoadBalancers.L7s.Cleanup.Whole.{cleanup-Cleaning}
use ingress_gce.LoadBalancers.L7s.Cleanup.Gone.{Vanished, Vanished-Shrinks, cleanup-Vanished}

cleaned-none :
    {World : Type 0} (C : LoadBalancers World) (n : Namer) (name : Str) (p : L7s)
    (r : Done (State World))
    → (cleaned C n name p r).0 ≡ some none
    → (r.0 ≡ some none) × ((cleaned C n name p r).1 ≡ (drop_lb name p, r.1.1))
unfolding cleaned
cleaned-none C n name p (some none, (lb, w)) h = (refl, refl)
cleaned-none C n name p (some (some e), (lb, w)) h = absurd (cc (some-injective _ _ h))
cleaned-none C n name p (none, (lb, w)) h = absurd (cc h)

-- Other keys than the deleted one are not touched.
cleaned-other :
    {World : Type 0} (C : LoadBalancers World) (n : Namer) (name k : Str) (p : L7s)
    (r : Done (State World))
    → load_balancer n name ≡ name
    → str_eq name k ≡ false
    → get k (cleaned C n name p r).1.0.lbs ≡ get k p.lbs
unfolding cleaned
cleaned-other C n name k p (some none, (lb, w)) same ne = rw (get-remove name k p.lbs, ne) refl
cleaned-other C n name k p (some (some e), (lb, w)) same ne =
    rw (same, get-put name k lb p.lbs, ne) refl
cleaned-other C n name k p (none, (lb, w)) same ne = rw (same, get-put name k lb p.lbs, ne) refl

cleaned-world :
    {World : Type 0} (C : LoadBalancers World) (n : Namer) (name : Str) (p : L7s)
    (r : Done (State World))
    → (cleaned C n name p r).1.1 ≡ r.1.1
unfolding cleaned
cleaned-world C n name p (some none, (lb, w)) = refl
cleaned-world C n name p (some (some e), (lb, w)) = refl
cleaned-world C n name p (none, (lb, w)) = refl

pub proceed-keeps :
    {S : Type 0} (P : S → Type 0) (r : Done S) (next : S → Done S)
    → P r.1
    → ((t : S) → P t → P (next t).1)
    → P (proceed r next).1
unfolding proceed
proceed-keeps P (some none, s) next p step = step s p
proceed-keeps P (some (some e), s) next p step = p
proceed-keeps P (none, s) next p step = p

module _ {World : Type 0} (C : LoadBalancers World) (n : Namer) where
  -- the deletion of a key of the pool, which the namer gives back as it is
  delete-run :
      (j : Str) (p : L7s) (w : World)
      → load_balancer n j ≡ j
      → ((x : Error) × (get j p.lbs ≡ none) × (delete C n j (p, w) ≡ (some (some x), (p, w))))
        ⊎ ((lb : L7) × (get j p.lbs ≡ some lb)
            × (delete C n j (p, w) ≡ cleaned C n j p (cleanup C (lb, w))))
  unfolding delete Pool.get
  delete-run j p w same =
      let twice : load_balancer n (load_balancer n j) ≡ j = ap (load_balancer n) same ∙ same in
      elim (Option-cases (get j p.lbs)) [
        | inl e ↦ inl (
          plain (codes "loadbalancer not in pool"),
          e,
          elim_none _ _ (ap (λ i. get i p.lbs) twice ∙ e),
        )
        | inr (lb, e) ↦ inr (
          lb,
          e,
          elim_some _ _ (ap (λ i. get i p.lbs) twice ∙ e)
              ∙ ap (λ i. cleaned C n i p (cleanup C (lb, w))) same,
        )
      ]

  pub delete-other :
      (j k : Str) (p : L7s) (w : World)
      → load_balancer n j ≡ j
      → str_eq j k ≡ false
      → get k (delete C n j (p, w)).1.0.lbs ≡ get k p.lbs
  delete-other j k p w same ne = elim (delete-run j p w same) [
    | inl (x, e, run) ↦ ap (λ r. get k r.1.0.lbs) run
    | inr (lb, e, run) ↦
        ap (λ r. get k r.1.0.lbs) run ∙ cleaned-other C n j k p (cleanup C (lb, w)) same ne
  ]

  -- one key of the loop: skipped or deleted
  unknown-step :
      (known : List Str) (j : Str) (js : List Str) (s : L7s × World)
      (P : Done (L7s × World) → Type 0)
      → (elem known j ≡ true → P (delete_unknown C n known js s))
      → (elem known j ≡ false → P (proceed (delete C n j s) (delete_unknown C n known js)))
      → P (delete_unknown C n known (j ∷ js) s)
  unfolding delete_unknown
  unknown-step known j js s P skip gone = if-cases (elem known j) _ _ P skip gone

  -- What holds of the state of each deletion holds at the end of the loop, whatever the outcome.
  pub unknown-keeps :
      (known : List Str) (P : L7s × World → Type 0)
      → ((j : Str) (s : L7s × World)
          → load_balancer n j ≡ j
          → elem known j ≡ false
          → P s
          → P (delete C n j s).1)
      → (js : List Str) → All (λ j. load_balancer n j ≡ j) js
      → (s : L7s × World) → P s
      → P (delete_unknown C n known js s).1
  unfolding delete_unknown proceed
  unknown-keeps known P step [] a s p = p
  unknown-keeps known P step (j ∷ js) a s p =
      unknown-step known j js s (λ r. P r.1) (λ b. unknown-keeps known P step js a.1 s p)
        (λ b.
          proceed-keeps P (delete C n j s) (delete_unknown C n known js) (step j s a.0 b p)
            (λ t q. unknown-keeps known P step js a.1 t q))

  module _ (L : CleanupLaws C) where
    -- A deletion of a key with no error: its load balancer is taken out, and its resources are gone.
    pub delete-Vanished :
        (j : Str) (p : L7s) (w : World) (lb : L7)
        → load_balancer n j ≡ j
        → get j p.lbs ≡ some lb
        → (delete C n j (p, w)).0 ≡ some none
        → (get j (delete C n j (p, w)).1.0.lbs ≡ none) × Vanished C L lb (delete C n j (p, w)).1.1
    delete-Vanished j p w lb same hit h = elim (delete-run j p w same) [
      | inl (x, e, run) ↦ absurd (cc (hit, e))
      | inr (lb', e, run) ↦
          let (fine, done) =
            cleaned-none C n j p (cleanup C (lb', w)) (sym (ap (λ r. r.0) run) ∙ h) in
          let all : (delete C n j (p, w)).1 ≡ (drop_lb j p, (cleanup C (lb', w)).1.1) =
            ap (λ r. r.1) run ∙ done in
          let eq : lb' ≡ lb = some-injective lb' lb (sym e ∙ hit) in
          (
            rw (all, get-remove j j p.lbs, str_eq_refl j) refl,
            rw all (
                subst (λ l. Vanished C L l (cleanup C (lb', w)).1.1) eq
                  (cleanup-Vanished C L (lb', w) fine)),
          )
    ]

    delete-Shrinks :
        (j : Str) (p : L7s) (w : World)
        → load_balancer n j ≡ j
        → Shrinks C w (delete C n j (p, w)).1.1
    delete-Shrinks j p w same = elim (delete-run j p w same) [
      | inl (x, e, run) ↦ subst (λ r. Shrinks C w r.1.1) (sym run) (Shrinks-refl C w)
      | inr (lb, e, run) ↦
          subst (λ v. Shrinks C w v)
            (sym (ap (λ r. r.1.1) run ∙ cleaned-world C n j p (cleanup C (lb, w))))
            (cleanup-Cleaning C L (lb, w)).shrinks
    ]

    -- The load balancer of the key is out of the pool and its resources are gone.
    unfoldable pub IsOut : Str → L7 → L7s × World → Type 0
    IsOut k lb s = (get k s.0.lbs ≡ none) × Vanished C L lb s.1

    delete-IsOut :
        (k : Str) (lb : L7) (j : Str) (s : L7s × World)
        → load_balancer n j ≡ j
        → IsOut k lb s
        → IsOut k lb (delete C n j s).1
    unfolding IsOut
    delete-IsOut k lb j s same (none_left, gone) = (
      elim (Bool-cases (str_eq j k)) [
        | inl b ↦ elim (delete-run j s.0 s.1 same) [
          | inl (x, e, run) ↦ ap (λ r. get k r.1.0.lbs) run ∙ none_left
          | inr (l, e, run) ↦
              absurd (cc (subst (λ i. get i s.0.lbs ≡ some l) ((str_eq_iff j k).0 b) e, none_left))
        ]
        | inr b ↦ delete-other j k s.0 s.1 same b ∙ none_left
      ],
      Vanished-Shrinks C L lb s.1 (delete C n j s).1.1 (delete-Shrinks j s.0 s.1 same) gone,
    )

    pub unknown-IsOut :
        (known js : List Str) (k : Str) (lb : L7) (s : L7s × World)
        → All (λ j. load_balancer n j ≡ j) js
        → elem known k ≡ false
        → elem js k ≡ true
        → get k s.0.lbs ≡ some lb
        → (delete_unknown C n known js s).0 ≡ some none
        → IsOut k lb (delete_unknown C n known js s).1
    unfolding elem IsOut
    unknown-IsOut known [] k lb s a not_known among hit h = absurd (cc among)
    unknown-IsOut known (j ∷ js) k lb s a not_known among hit h =
        unknown-step known j js s (λ r. r.0 ≡ some none → IsOut k lb r.1)
          (λ b fine. elim (Bool-cases (str_eq j k)) [
            | inl e ↦ absurd (cc (ap (elem known) ((str_eq_iff j k).0 e), b, not_known))
            | inr e ↦
                unknown-IsOut known js k lb s a.1 not_known (ground (arith, among, e)) hit fine
          ])
          (λ b fine.
            let (deleted, run) = proceed-none (delete C n j s) (delete_unknown C n known js) fine in
            let mid = (delete C n j s).1 in
            let rest : (delete_unknown C n known js mid).0 ≡ some none =
              sym (ap (λ r. r.0) run) ∙ fine in
            subst (λ r. IsOut k lb r.1) (sym run)
              (elim (Bool-cases (str_eq j k)) [
                | inl e ↦
                    let eq = (str_eq_iff j k).0 e in
                    unknown-keeps known (IsOut k lb)
                      (λ i t same _ out. delete-IsOut k lb i t same out) js a.1 mid
                      (subst (λ i. IsOut i lb mid) eq
                        (delete-Vanished j s.0 s.1 lb a.0
                          (subst (λ i. get i s.0.lbs ≡ some lb) (sym eq) hit) deleted))
                | inr e ↦
                    unknown-IsOut known js k lb mid a.1 not_known (ground (arith, among, e))
                      (delete-other j k s.0 s.1 a.0 e ∙ hit) rest
              ]))
          h
