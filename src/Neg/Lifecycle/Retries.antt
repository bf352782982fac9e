-- ===== src/Neg/Lifecycle/Retries.antt =====
-- The delay and the number of retries after syncs that fail one after the other.
use native.Mathlib.Nat.{pow-suc}
use ingress_gce.Base.{
  ℕ, zero, suc, ◌+◌, ◌*◌, ◌^◌, ◌≤◌, ◌<◌, ◌≡◌, refl, ap, sym, ◌∙◌, Bool-cases, inl, inr, ◌==◌, true,
  false, some, Error, ltb, if◌then◌else◌, arith,
}
use ingress_gce.Neg.Lifecycle.{
  waiting, Syncer, max_retries, min_retry_delay, max_retry_delay, next_retry_delay,
  reset_retry_delay, after_sync,
}

-- the syncer after n more syncs that fail with these errors
pub after_failures : (ℕ → Error) → ℕ → Syncer → Syncer
after_failures errors zero s = s
after_failures errors (suc n) s = after_sync (some (errors n)) (after_failures errors n s)

-- 5 s doubled with each retry, up to 300 s
pub backoff : ℕ → ℕ
backoff zero = 0
backoff (suc n) =
    let d = min_retry_delay * 2 ^ n in if ltb max_retry_delay d then max_retry_delay else d

clamp_lem :
    (low high d : ℕ)
    → low ≤ high
    → low ≤ d
    → (if ltb high (d * 2) then high else d * 2) ≡ (
        let b = if ltb high d then high else d in
        if ltb (b * 2) low then low else if ltb high (b * 2) then high else b * 2)
clamp_lem low high d h k = ground arith

doubled : (n : ℕ) → min_retry_delay * 2 ^ suc n ≡ min_retry_delay * 2 ^ n * 2
doubled n = omega (arith, pow-suc 2 n)

above : (n : ℕ) → min_retry_delay ≤ min_retry_delay * 2 ^ n
above zero = omega arith
above (suc n) = omega (arith, above n, doubled n)

backoff-suc :
    (n : ℕ)
    → backoff (suc n) ≡ (
        if ltb (backoff n * 2) min_retry_delay
        then min_retry_delay
        else if ltb max_retry_delay (backoff n * 2)
        then max_retry_delay
        else backoff n * 2)
unfolding backoff
backoff-suc zero = refl
backoff-suc (suc n) =
    rw (doubled n)
      (clamp_lem min_retry_delay max_retry_delay (min_retry_delay * 2 ^ n) (omega arith) (above n))

ltb_small : (n : ℕ) → n ≤ max_retries → ltb max_retries n ≡ false
ltb_small n h = ground arith

early_failure :
    (e : Error) (n : ℕ) (t : Syncer)
    → n ≤ max_retries
    → t.retry_count ≡ n
    → t.last_retry_delay ≡ backoff n
    → ((after_sync (some e) t).retry_count ≡ suc n)
      × ((after_sync (some e) t).last_retry_delay ≡ backoff (suc n))
      × ((after_sync (some e) t).loop ≡ waiting true)
unfolding after_sync next_retry_delay
early_failure e n t h c d = rw (backoff-suc n, sym d, c, ltb_small n h) (omega arith, refl, refl)

late_failure :
    (e : Error) (t : Syncer)
    → t.retry_count ≡ max_retries + 1
    → ((after_sync (some e) t).retry_count ≡ max_retries + 1)
      × ((after_sync (some e) t).last_retry_delay ≡ t.last_retry_delay)
      × ((after_sync (some e) t).loop ≡ waiting false)
unfolding after_sync
late_failure e t c = ground arith

-- Up to the 16th failure since the last success each one sets the timer, for a delay of 5 s that doubles
-- with each and stays at 300 s; the count of retries is that of the failures. From the 17th failure on no
-- timer is set, and the syncer waits for a signal.
pub after_failures-backoff :
    (errors : ℕ → Error) (n : ℕ) (s : Syncer)
    → let t = after_failures errors n (reset_retry_delay s) in
      (n ≤ max_retries + 1
        → (t.retry_count ≡ n) × (t.last_retry_delay ≡ backoff n) × (0 < n → t.loop ≡ waiting true))
      × (max_retries + 1 < n
          → (t.retry_count ≡ max_retries + 1)
            × (t.last_retry_delay ≡ backoff (max_retries + 1))
            × (t.loop ≡ waiting false))
unfolding after_failures reset_retry_delay
after_failures-backoff errors zero s =
    (λ h. (refl, unfold backoff in refl, λ p. absurd (omega arith)), λ h. absurd (omega arith))
after_failures-backoff errors (suc n) s =
    let (early, late) = after_failures-backoff errors n s in
    let t = after_failures errors n (reset_retry_delay s) in
    let now = early_failure (errors n) n t in
    (
      λ h. (
        (now (omega arith) (early (omega arith)).0 (early (omega arith)).1).0,
        (now (omega arith) (early (omega arith)).0 (early (omega arith)).1).1,
        λ p. (now (omega arith) (early (omega arith)).0 (early (omega arith)).1).2,
      ),
      λ h.
          let worn : (t.retry_count ≡ max_retries + 1)
              × (t.last_retry_delay ≡ backoff (max_retries + 1)) =
            elim (Bool-cases (n == max_retries + 1)) [
              | inl e ↦
                  let full : n ≡ max_retries + 1 = ground arith in
                  ((early (omega arith)).0 ∙ full, (early (omega arith)).1 ∙ ap backoff full)
              | inr e ↦
                  let more : max_retries + 1 < n = ground arith in ((late more).0, (late more).1)
            ] in
          let after = late_failure (errors n) t worn.0 in (after.0, after.1 ∙ worn.1, after.2),
    )
