-- ===== src/Neg/Lifecycle/Shutdown.antt =====
-- A syncer that shuts down comes to its end, whatever its goroutine does.
use ingress_gce.Base.{
  ℕ, suc, ◌+◌, ◌≤◌, ◌<◌, ◌≡◌, refl, sym, ◌∙◌, Bool, true, false, none, some, Failure, arith,
}
use ingress_gce.Neg.Lifecycle.{
  Channel, unset, opened, closed, Loop, absent, syncing, working, waiting, Syncer, after_sync,
  LoopStep, skipped, begun, synced, signalled, drained, finished, retried, Reach,
}
use ingress_gce.Neg.Lifecycle.Safety.{IsSound, is_closed, Reach-IsSound, LoopStep-IsSound}

-- The goroutine's steps, one after the other.
pub data Run : ℕ → Syncer → Syncer → Type 0 where
  stay : (s : Syncer) → Run 0 s s
  move : (n : ℕ) (s t u : Syncer) → Run n s t → LoopStep t u → Run (suc n) s u

pending : Channel → ℕ
pending unset = 0
pending (opened true) = 2
pending (opened false) = 0
pending (closed true) = 2
pending (closed false) = 0

-- how many steps are left at most
steps_left : Loop → ℕ
steps_left absent = 0
steps_left (waiting false) = 1
steps_left syncing = 2
steps_left (waiting true) = 3
steps_left working = 4

measure : Syncer → ℕ
measure s = steps_left s.loop + pending s.sync_ch

LoopStep-measure :
    {s t : Syncer}
    → LoopStep s t
    → IsSound s
    → s.shutting_down ≡ true
    → t.shutting_down ≡ true
    → measure t < measure s
unfolding measure steps_left pending
LoopStep-measure (skipped s e q) h d d' = unfold after_sync in ground arith
LoopStep-measure (begun s e q) h d d' = absurd (ground arith)
LoopStep-measure (synced s f e) h d d' = unfold after_sync in ground arith
LoopStep-measure (signalled s timer e c) h d d' = absurd (ground (arith, h.closing d))
LoopStep-measure (drained s timer e c) h d d' = ground arith
LoopStep-measure (finished s timer e c) h d d' = cc
LoopStep-measure (retried s e) h d d' = ground arith

-- A sync's end sets the loop, and nothing of the shutting down.
after_sync-shutting_down :
    (f : Failure) (s : Syncer) → (after_sync f s).shutting_down ≡ s.shutting_down
unfolding after_sync
after_sync-shutting_down none s = refl
after_sync-shutting_down (some e) s = ground arith

LoopStep-before : {s t : Syncer} → LoopStep s t → t.shutting_down ≡ true → s.shutting_down ≡ true
LoopStep-before (skipped s e q) d = sym (after_sync-shutting_down none s) ∙ d
LoopStep-before (begun s e q) d = d
LoopStep-before (synced s f e) d = sym (after_sync-shutting_down f s) ∙ d
LoopStep-before (signalled s timer e c) d = d
LoopStep-before (drained s timer e c) d = d
LoopStep-before (finished s timer e c) d = cc
LoopStep-before (retried s e) d = d

at_select :
    (s : Syncer) (timer : Bool) (ch : Channel)
    → s.loop ≡ waiting timer
    → s.sync_ch ≡ ch
    → is_closed ch ≡ true
    → (t : Syncer) × LoopStep s t
at_select s timer unset e c h = cc
at_select s timer (opened p) e c h = cc
at_select s timer (closed true) e c h = (_, drained s timer e c)
at_select s timer (closed false) e c h = (_, finished s timer e c)

next_step :
    (s : Syncer) (l : Loop)
    → s.loop ≡ l
    → IsSound s
    → s.shutting_down ≡ true
    → (t : Syncer) × LoopStep s t
next_step s absent e h d = absurd (ground (arith, h.alive))
next_step s syncing e h d = (_, skipped s e (ground arith))
next_step s working e h d = (_, synced s none e)
next_step s (waiting timer) e h d = at_select s timer s.sync_ch e refl (h.closing d)

Run-measure :
    {n : ℕ} {s t : Syncer}
    → Run n s t
    → IsSound s
    → t.shutting_down ≡ true
    → IsSound t × (measure t + n ≤ measure s)
Run-measure (stay s) h d = (h, omega arith)
Run-measure (move n s t u r l) h d =
    let before = LoopStep-before l d in
    let (sound, bound) = Run-measure r h before in
    (LoopStep-IsSound l sound, omega (arith, bound, LoopStep-measure l sound before d))

measure-small : (s : Syncer) → measure s ≤ 6
unfolding measure steps_left pending
measure-small s = ground arith

measure-big : (s : Syncer) → IsSound s → s.shutting_down ≡ true → 1 ≤ measure s
unfolding measure steps_left pending
measure-big s h d = ground arith

-- Of a syncer that shuts down, after any steps of its goroutine: as long as it still shuts down, the
-- goroutine has made at most five steps and can make another. So it ends, and the syncer may be started
-- again.
pub shutdown_ends :
    {n : ℕ} {s t : Syncer}
    → Reach s
    → s.shutting_down ≡ true
    → Run n s t
    → t.shutting_down ≡ true
    → (n ≤ 5) × (u : Syncer) × LoopStep t u
shutdown_ends {n} {s} {t} r d run still =
    let (sound, bound) = Run-measure run (Reach-IsSound r) still in
    (
      omega (arith, bound, measure-small s, measure-big t sound still),
      (next_step t t.loop refl sound still).0,
      (next_step t t.loop refl sound still).1,
    )
