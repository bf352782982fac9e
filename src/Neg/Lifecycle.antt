-- ===== src/Neg/Lifecycle.antt =====
-- The life of a syncer in pkg/networkendpointgroup/syncer.go: Start, Stop, Sync and the loop of its
-- goroutine, with the delay of its retries. Each method is one step, since the manager calls them under
-- its lock; the goroutine's steps may come between any two of them.
pub mod Safety
pub mod Retries
pub mod Shutdown
mod Tests
use ingress_gce.Base.{
  ℕ, ◌+◌, ◌*◌, ◌^◌, ◌≡◌, Bool, true, false, not, ◌&&◌, ◌||◌, Option, none, some, Str, codes, plain,
  Failure, ltb, if◌then◌else◌,
}

abbrev pub max_retries : ℕ
max_retries = 15

-- in nanoseconds, as time.Duration
abbrev pub min_retry_delay : ℕ
min_retry_delay = 5 * 10 ^ 9

abbrev pub max_retry_delay : ℕ
max_retry_delay = 300 * 10 ^ 9

-- syncCh: no channel yet, or one with room for one signal, which may be there, and may be closed
pub data Channel : Type 0 where
  unset : Channel
  opened closed : Bool → Channel

-- Where the goroutine stands: there is none, it is about to sync, it is in a sync that has begun, or it
-- is at the `select`, with a timer for a retry or without.
pub data Loop : Type 0 where
  absent syncing working : Loop
  waiting : Bool → Loop

pub record Syncer : Type 0 where
  pub stopped : Bool
  pub shutting_down : Bool
  pub sync_ch : Channel
  pub last_retry_delay : ℕ
  pub retry_count : ℕ
  pub loop : Loop

abbrev pub new_syncer : Syncer
new_syncer = record {
  stopped = true;
  shutting_down = false;
  sync_ch = unset;
  last_retry_delay = 0;
  retry_count = 0;
  loop = absent;
}

unfoldable pub init : Syncer → Syncer
init s = record s { stopped = false; sync_ch = opened false }

unfoldable pub start : Syncer → Failure × Syncer
unfolding init
start s =
    if not s.stopped
    then (some (plain (codes "NEG syncer is already running")), s)
    else if s.shutting_down
    then (some (plain (codes "NEG syncer is shutting down")), s)
    else (none, record (init s) { loop = syncing })

-- close(ch) panics on a channel that is nil or closed.
unfoldable pub close : Channel → Option Channel
close unset = none
close (opened p) = some (closed p)
close (closed p) = none

unfoldable pub stop : Syncer → Option Syncer
unfolding close
stop s = if s.stopped then some s else elim (close s.sync_ch) [
  | none ↦ none
  | some ch ↦ some (record s { stopped = true; shutting_down = true; sync_ch = ch })
]

-- A send that does not block: a full or nil channel takes nothing, a closed one panics.
unfoldable pub send : Channel → Option (Bool × Channel)
send unset = some (false, unset)
send (opened false) = some (true, opened true)
send (opened true) = some (false, opened true)
send (closed p) = none

unfoldable pub signal : Syncer → Option (Bool × Syncer)
unfolding send
signal s = if s.stopped then some (false, s) else elim (send s.sync_ch) [
  | none ↦ none
  | some (sent, ch) ↦ some (sent, record s { sync_ch = ch })
]

unfoldable pub next_retry_delay : Syncer → Syncer
next_retry_delay s =
    let doubled = s.last_retry_delay * 2 in
    record s {
      retry_count = s.retry_count + 1;
      last_retry_delay =
          if ltb doubled min_retry_delay
          then min_retry_delay
          else if ltb max_retry_delay doubled
          then max_retry_delay
          else doubled;
    }

unfoldable pub reset_retry_delay : Syncer → Syncer
reset_retry_delay s = record s { retry_count = 0; last_retry_delay = 0 }

-- From the result of a sync to the `select`: the timer is set unless there were too many retries.
unfoldable pub after_sync : Failure → Syncer → Syncer
unfolding next_retry_delay reset_retry_delay
after_sync none s = record (reset_retry_delay s) { loop = waiting false }
after_sync (some e) s =
    if ltb max_retries s.retry_count
    then record s { loop = waiting false }
    else record (next_retry_delay s) { loop = waiting true }

-- The goroutine's steps. A sync of a syncer that is stopped or shuts down does nothing and has no error;
-- one that has begun may end in any way, also if a stop comes before its end.
pub data LoopStep : Syncer → Syncer → Type 0 where
  skipped :
      (s : Syncer)
      → s.loop ≡ syncing
      → (s.stopped || s.shutting_down) ≡ true
      → LoopStep s (after_sync none s)
  begun :
      (s : Syncer)
      → s.loop ≡ syncing
      → (s.stopped || s.shutting_down) ≡ false
      → LoopStep s (record s { loop = working })
  synced : (s : Syncer) (f : Failure) → s.loop ≡ working → LoopStep s (after_sync f s)
  signalled :
      (s : Syncer) (timer : Bool)
      → s.loop ≡ waiting timer
      → s.sync_ch ≡ opened true
      → LoopStep s (record s { sync_ch = opened false; loop = syncing })
  drained :
      (s : Syncer) (timer : Bool)
      → s.loop ≡ waiting timer
      → s.sync_ch ≡ closed true
      → LoopStep s (record s { sync_ch = closed false; loop = syncing })
  finished :
      (s : Syncer) (timer : Bool)
      → s.loop ≡ waiting timer
      → s.sync_ch ≡ closed false
      → LoopStep s (record s { shutting_down = false; loop = absent })
  retried : (s : Syncer) → s.loop ≡ waiting true → LoopStep s (record s { loop = syncing })

-- A method call or a step of the goroutine.
pub data Step : Syncer → Syncer → Type 0 where
  starts : (s : Syncer) → Step s (start s).1
  stops : (s t : Syncer) → stop s ≡ some t → Step s t
  signals : (s t : Syncer) (sent : Bool) → signal s ≡ some (sent, t) → Step s t
  loops : (s t : Syncer) → LoopStep s t → Step s t

pub data Reach : Syncer → Type 0 where
  fresh : Reach new_syncer
  step : (s t : Syncer) → Reach s → Step s t → Reach t
