-- ===== src/Neg/Lifecycle/Tests.antt =====
-- The life of one syncer, call by call.
use ingress_gce.Base.{◌+◌, ◌≤◌, ◌<◌, ◌≡◌, ◌≢◌, refl, true, false, none, plain, codes}
use ingress_gce.Neg.Lifecycle.{
  closed, absent, syncing, waiting, Syncer, new_syncer, init, start, stop, signal, close,
  after_sync, reset_retry_delay, max_retries, LoopStep, skipped, starts, stops, Reach, fresh, step,
}
use ingress_gce.Neg.Lifecycle.Safety.{IsSound, Reach-IsSound, calls_are_safe}
use ingress_gce.Neg.Lifecycle.Shutdown.{Run, stay, move, shutdown_ends}
use ingress_gce.Neg.Lifecycle.Retries.{after_failures, backoff, after_failures-backoff}

started : Reach (start new_syncer).1
started = step new_syncer (start new_syncer).1 fresh (starts new_syncer)

-- what a stop makes of a syncer that has just been started
abbrev stopping : Syncer
stopping = record {
  stopped = true;
  shutting_down = true;
  sync_ch = closed false;
  last_retry_delay = 0;
  retry_count = 0;
  loop = syncing;
}

abbrev at_select : Syncer
at_select = record stopping { loop = waiting false }

stopping-Reach : Reach stopping
unfolding start init stop close
stopping-Reach =
    step (start new_syncer).1 stopping started (stops (start new_syncer).1 stopping refl)

Reach-IsSound_example : IsSound stopping
Reach-IsSound_example = Reach-IsSound stopping-Reach

calls_are_safe_example :
    ((start stopping).0 ≡ none → stopping.loop ≡ absent)
    × (stop stopping ≢ none)
    × (signal stopping ≢ none)
calls_are_safe_example = calls_are_safe stopping stopping-Reach

one_step : Run 1 stopping at_select
unfolding after_sync reset_retry_delay
one_step = move 0 stopping stopping at_select (stay stopping) (skipped stopping refl refl)

shutdown_ends_example : (1 ≤ 5) × (u : Syncer) × LoopStep at_select u
shutdown_ends_example = shutdown_ends stopping-Reach refl one_step refl

after_failures-backoff_example :
    let t = after_failures (λ n. plain (codes "no")) 3 (reset_retry_delay stopping) in
    (3 ≤ max_retries + 1
      → (t.retry_count ≡ 3) × (t.last_retry_delay ≡ backoff 3) × (0 < 3 → t.loop ≡ waiting true))
    × (max_retries + 1 < 3
        → (t.retry_count ≡ max_retries + 1)
          × (t.last_retry_delay ≡ backoff (max_retries + 1))
          × (t.loop ≡ waiting false))
after_failures-backoff_example = after_failures-backoff (λ n. plain (codes "no")) 3 stopping
