-- ===== src/Neg/Sync/Calls.antt =====
-- The launched calls against the cloud: when a sync reports no error, every zone of the group holds the
-- target's endpoints, whatever the order in which the goroutines ran.
use ingress_gce.Base.{
  ◌≡◌, refl, Bool, false, ◌&&◌, ◌||◌, not, none, List, [], ◌∷◌, Str, Error, Option-cases, inl, inr,
  ◌∙◌, arith,
}
use ingress_gce.Sets.{StringSets}
use ingress_gce.Neg.Cloud.{NegCloud}
use ingress_gce.Neg.Cloud.Laws.{CloudLaws}
use ingress_gce.Neg.Sync.{
  Call, attach, detach, Halt, finished, failed, panicked, out_of_fuel, conclude, plan, zone_set,
  calculate_difference, run_call, run_calls, sync_network_endpoints,
}
use ingress_gce.Neg.Sync.Plans.{any, attaches, detaches, IsMap, MapEncoded, plan-Done}
use ingress_gce.Neg.Sync.Difference.{
  calculate_difference_lem, difference_map-IsMap, difference_map-MapEncoded,
}

-- The scheduler runs the calls that were launched and no others.
abbrev pub SameCalls : (List Call → List Call) → Type 0
SameCalls schedule = (p : Call → Bool) (cs : List Call) → any p (schedule cs) ≡ any p cs

disjoint : (a d t c : Bool) → a ≡ (t && not c) → d ≡ (c && not t) → (a && d) ≡ false
disjoint a d t c p q = ground arith

converge :
    (a d t c r : Bool) {w : Bool}
    → a ≡ (t && not c)
    → d ≡ (c && not t)
    → c ≡ w
    → r ≡ (a || (not d && w))
    → r ≡ t
converge a d t c r p q e f = ground arith

conclude-finished : (h : Halt) (errors : List Error) → conclude h errors ≡ finished → errors ≡ []
unfolding conclude
conclude-finished finished [] p = refl
conclude-finished finished (e ∷ es) p = cc
conclude-finished (failed e) errors p = cc
conclude-finished panicked errors p = cc
conclude-finished out_of_fuel errors p = cc

module _ (S : StringSets) {World : Type 0} (C : NegCloud World) (L : CloudLaws C) where
  open L use {content, attached, detached}

  run_call-content :
      (name z k : Str) (c : Call) (w : World)
      → (run_call S C name c w).0 ≡ none
      → content (run_call S C name c w).1 name z k
        ≡ (attaches z k c || (not (detaches z k c) && content w name z k))
  unfolding run_call attaches detaches
  run_call-content name z k (attach zone es) w h = attached w name zone es h z k
  run_call-content name z k (detach zone es) w h = detached w name zone es h z k

  -- a run with no error starts with a call that succeeds
  run_calls-first :
      (name : Str) (c : Call) (cs : List Call) (w : World)
      → (run_calls S C name (c ∷ cs) w).0 ≡ []
      → ((run_call S C name c w).0 ≡ none)
        × ((run_calls S C name cs (run_call S C name c w).1).0 ≡ [])
  unfolding run_calls
  run_calls-first name c cs w h = elim (Option-cases (run_call S C name c w).0) [
    | inl e ↦ (e, rw (e, run_calls) at h)
    | inr (x, e) ↦ cc (rw (e, run_calls) at h)
  ]

  -- Calls that all succeed, none of which undoes another, leave what they attach and take what they
  -- detach.
  run_calls-content :
      (name z k : Str) (cs : List Call) (w : World)
      → (run_calls S C name cs w).0 ≡ []
      → (any (attaches z k) cs && any (detaches z k) cs) ≡ false
      → content (run_calls S C name cs w).1 name z k
        ≡ (any (attaches z k) cs || (not (any (detaches z k) cs) && content w name z k))
  unfolding run_calls any
  run_calls-content name z k [] w h d = refl
  run_calls-content name z k (c ∷ cs) w h d =
      let (first, rest) = run_calls-first name c cs w h in
      ground (
        arith,
        run_call-content name z k c w first,
        run_calls-content name z k cs (run_call S C name c w).1 rest (ground arith),
      )

  -- When syncNetworkEndpoints reports no error for the difference of two maps of encoded endpoints, with
  -- distinct zones, and the one map told what the group holds, then the group holds the endpoints of the
  -- other map: in every zone, and in whatever order the goroutines ran.
  pub sync_converges :
      (schedule : List Call → List Call) (name : Str) (target current : List (Str × S.Set))
      (w : World)
      → SameCalls schedule
      → IsMap S target
      → IsMap S current
      → MapEncoded S target
      → MapEncoded S current
      → (z k : Str) → S.has (zone_set S current z) k ≡ content w name z k
      → let diff = calculate_difference S target current in
        let done = sync_network_endpoints S C schedule name diff.0 diff.1 w in
        done.0 ≡ finished → content done.1 name z k ≡ S.has (zone_set S target z) k
  unfolding sync_network_endpoints
  sync_converges schedule name target current w same mt mc et ec z k told h =
      let add = (calculate_difference S target current).0 in
      let remove = (calculate_difference S target current).1 in
      let calls = (plan S add remove).calls in
      let missing = calculate_difference_lem S target current z k mt mc in
      let done =
        plan-Done S add remove z k
          (unfold calculate_difference in difference_map-IsMap S target current mt)
          (unfold calculate_difference in difference_map-IsMap S current target mc)
          (unfold calculate_difference in difference_map-MapEncoded S target current et)
          (unfold calculate_difference in difference_map-MapEncoded S current target ec) in
      let attached_calls = same (attaches z k) calls ∙ (done.0.some_call ∙ missing.0) in
      let detached_calls = same (detaches z k) calls ∙ (done.1.some_call ∙ missing.1) in
      converge _ _ _ _ _ attached_calls detached_calls told (
        run_calls-content name z k (schedule calls) w
          (conclude-finished (plan S add remove).halt (run_calls S C name (schedule calls) w).0 h)
          (disjoint _ _ _ _ attached_calls detached_calls))
