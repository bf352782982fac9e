-- ===== src/Neg/Lifecycle/Safety.antt =====
-- The invariant of a syncer's life: at most one goroutine runs, and no channel is misused.
use ingress_gce.Base.{◌≡◌, ◌≢◌, refl, Bool, true, false, not, ◌||◌, none, some, arith}
use ingress_gce.Neg.Lifecycle.{
  Channel, unset, opened, closed, Loop, absent, syncing, working, waiting, Syncer, start, stop,
  signal, after_sync, LoopStep, skipped, begun, synced, signalled, drained, finished, retried, Step,
  starts, stops, signals, loops, Reach, fresh, step,
}

abbrev pub is_alive : Loop → Bool
is_alive absent = false
is_alive syncing = true
is_alive working = true
is_alive (waiting timer) = true

abbrev pub is_open : Channel → Bool
is_open unset = false
is_open (opened p) = true
is_open (closed p) = false

abbrev pub is_closed : Channel → Bool
is_closed unset = false
is_closed (opened p) = false
is_closed (closed p) = true

-- A goroutine runs exactly while the syncer is not stopped or is shutting down; the channel is open
-- exactly while it is not stopped, and closed while it shuts down, which it does only if stopped.
pub record IsSound (s : Syncer) : Type 0 where
  pub alive : is_alive s.loop ≡ (not s.stopped || s.shutting_down)
  pub open_channel : is_open s.sync_ch ≡ not s.stopped
  pub closing : s.shutting_down ≡ true → is_closed s.sync_ch ≡ true
  pub stopping : s.shutting_down ≡ true → s.stopped ≡ true

start-IsSound : (s : Syncer) → IsSound s → IsSound (start s).1
unfolding start
start-IsSound s h = ground arith

stop-IsSound : (s t : Syncer) → stop s ≡ some t → IsSound s → IsSound t
unfolding stop
stop-IsSound s t e h = ground arith

signal-IsSound : (s t : Syncer) (sent : Bool) → signal s ≡ some (sent, t) → IsSound s → IsSound t
unfolding signal
signal-IsSound s t sent e h = ground arith

pub LoopStep-IsSound : {s t : Syncer} → LoopStep s t → IsSound s → IsSound t
LoopStep-IsSound (skipped s e q) h = unfold after_sync in ground arith
LoopStep-IsSound (begun s e q) h = ground arith
LoopStep-IsSound (synced s f e) h = unfold after_sync in ground arith
LoopStep-IsSound (signalled s timer e c) h = ground arith
LoopStep-IsSound (drained s timer e c) h = ground arith
LoopStep-IsSound (finished s timer e c) h = ground arith
LoopStep-IsSound (retried s e) h = ground arith

Step-IsSound : {s t : Syncer} → Step s t → IsSound s → IsSound t
Step-IsSound (starts s) h = start-IsSound s h
Step-IsSound (stops s t e) h = stop-IsSound s t e h
Step-IsSound (signals s t sent e) h = signal-IsSound s t sent e h
Step-IsSound (loops s t l) h = LoopStep-IsSound l h

-- In every state that a syncer can come to, by any calls and any steps of its goroutine in between, the
-- invariant holds.
pub Reach-IsSound : {s : Syncer} → Reach s → IsSound s
Reach-IsSound fresh = record {
  alive = refl;
  open_channel = refl;
  closing = λ e. cc;
  stopping = λ e. cc;
}
Reach-IsSound (step s t r st) = Step-IsSound st (Reach-IsSound r)

-- So a start that succeeds finds no goroutine running, and neither a stop nor a signal ever panics.
pub calls_are_safe :
    (s : Syncer)
    → Reach s
    → ((start s).0 ≡ none → s.loop ≡ absent) × (stop s ≢ none) × (signal s ≢ none)
unfolding start stop signal
calls_are_safe s r =
    let h = Reach-IsSound r in (ground (arith, h), ground (arith, h), ground (arith, h))
