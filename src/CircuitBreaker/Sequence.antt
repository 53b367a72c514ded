-- ===== src/CircuitBreaker/Sequence.antt =====
-- Calls that do not overlap: the counter is the length of the current row of failures, and the
-- breaker is closed exactly while that is below the threshold.
use tei_nlp_converter.Base.{
  ℕ, ◌+◌, ◌*◌, ◌⊎◌, Option, none, some, ◌≤◌, ◌<◌, ◌≡◌, ◌∙◌, ◌≢◌, ◌↔◌, refl, Bool, List, [], ◌∷◌,
  arith, if◌then◌else◌, Exc,
}
use tei_nlp_converter.CircuitBreaker.{
  closed, opened, CircuitBreaker, init, should_attempt_reset, Outcome, returns, raises, Reply,
  rejected, returned, raised, call_sync, run,
}

pub record IsCounting (b : CircuitBreaker) : Type 0 where
  pub below : b.state ≡ closed → b.failure_count < b.failure_threshold
  pub above : b.state ≢ closed → b.failure_threshold ≤ b.failure_count

-- Before the end of the recovery time of so many seconds, or without a last failure.
abbrev pub Waits : ℕ → ℕ → Option ℕ → Type 0
Waits now seconds none = Unit
Waits now seconds (some t) = now < t + seconds * 1_000_000

module _ {ℓ} {A : Type ℓ} where
  -- How a reply changes the current row of failures.
  abbrev pub streak_step : (Exc → Bool) → ℕ → Reply A → ℕ
  streak_step expected n rejected = n
  streak_step expected n (returned a) = 0
  streak_step expected n (raised e) = if expected e then n + 1 else n

  -- The row of failures after some replies.
  pub streak : (Exc → Bool) → ℕ → List (Reply A) → ℕ
  streak expected n [] = n
  streak expected n (r ∷ rs) = streak expected (streak_step expected n r) rs

  -- What the caller gets from the function itself.
  abbrev pub reply_of : Outcome A → Reply A
  reply_of (returns a) = returned a
  reply_of (raises e) = raised e

  -- A call is rejected exactly if the breaker is open and the recovery time, in seconds, has not passed
  -- since the last failure (or none is known). A rejected call leaves the whole breaker as it was, and
  -- a call that is not rejected gives the caller what the function returns or raises.
  pub call_sync_rejects_iff :
      (now now' : ℕ) (o : Outcome A) (b : CircuitBreaker)
      → (((call_sync now now' o b).0 ≡ rejected)
          ↔ ((b.state ≡ opened) × Waits now b.recovery_timeout b.last_failure_time))
        × ((call_sync now now' o b ≡ (rejected, b)) ⊎ ((call_sync now now' o b).0 ≡ reply_of o))
  unfolding call_sync should_attempt_reset
  call_sync_rejects_iff now now' (returns a) b = ground arith
  call_sync_rejects_iff now now' (raises e) b = ground arith

  -- Rejected or not, a call leaves the settings alone; a rejected call leaves the breaker alone.
  call_sync_settings :
      (now now' : ℕ) (o : Outcome A) (b : CircuitBreaker)
      → ((call_sync now now' o b).1.expected_exception ≡ b.expected_exception)
        × ((call_sync now now' o b).1.failure_threshold ≡ b.failure_threshold)
  unfolding call_sync
  call_sync_settings now now' (returns a) b = ground arith
  call_sync_settings now now' (raises e) b = ground arith

  streak_step-call_sync :
      (now now' : ℕ) (o : Outcome A) (b : CircuitBreaker)
      → (call_sync now now' o b).1.failure_count
        ≡ streak_step b.expected_exception b.failure_count (call_sync now now' o b).0
  unfolding call_sync
  streak_step-call_sync now now' (returns a) b = ground arith
  streak_step-call_sync now now' (raises e) b = ground arith

  call_sync-IsCounting :
      (now now' : ℕ) (o : Outcome A) (b : CircuitBreaker)
      → 0 < b.failure_threshold
      → IsCounting b
      → IsCounting (call_sync now now' o b).1
  unfolding call_sync
  call_sync-IsCounting now now' (returns a) b pos h = ground arith
  call_sync-IsCounting now now' (raises e) b pos h = ground arith

  streak-run :
      (calls : List (ℕ × ℕ × Outcome A)) (b : CircuitBreaker)
      → (run calls b).1.failure_count ≡ streak b.expected_exception b.failure_count (run calls b).0
  unfolding run streak
  streak-run [] b = refl
  streak-run ((now, now', o) ∷ calls) b = rw (
    streak-run calls (call_sync now now' o b).1,
    (call_sync_settings now now' o b).0,
    streak_step-call_sync now now' o b,
  )

  run-IsCounting :
      (calls : List (ℕ × ℕ × Outcome A)) (b : CircuitBreaker)
      → 0 < b.failure_threshold
      → IsCounting b
      → IsCounting (run calls b).1 × ((run calls b).1.failure_threshold ≡ b.failure_threshold)
  unfolding run
  run-IsCounting [] b pos h = (h, refl)
  run-IsCounting ((now, now', o) ∷ calls) b pos h =
      let kept = (call_sync_settings now now' o b).1 in
      let (counting, same) =
        run-IsCounting calls (call_sync now now' o b).1 (rw kept pos)
          (call_sync-IsCounting now now' o b pos h) in
      (counting, same ∙ kept)

  -- Of a new breaker with a threshold above 0, after any calls that do not overlap: it is closed
  -- exactly if fewer failures than the threshold stand in the current row of failures, as the
  -- replies show it.
  pub run-closed_iff :
      (threshold timeout : ℕ) (expected : Exc → Bool) (calls : List (ℕ × ℕ × Outcome A))
      → 0 < threshold
      → ((run calls (init threshold timeout expected)).1.state ≡ closed)
        ↔ (streak expected 0 (run calls (init threshold timeout expected)).0 < threshold)
  unfolding init
  run-closed_iff threshold timeout expected calls pos =
      let b = init threshold timeout expected in
      let start : IsCounting b = record { below = λ _. pos; above = λ h. absurd (h refl) } in
      let (counting, same) = run-IsCounting calls b pos start in
      closed_by_count (run calls b).1 _ _ counting (streak-run calls b) same
    where
      closed_by_count :
          (c : CircuitBreaker) (n t : ℕ)
          → IsCounting c
          → c.failure_count ≡ n
          → c.failure_threshold ≡ t
          → (c.state ≡ closed) ↔ (n < t)
      closed_by_count c n t h p q = grind arith
