-- ===== src/CircuitBreaker.antt =====
-- circuit_breaker.py: the breaker around calls of an external service. `call` and `call_sync` have
-- one body, which is `enter`, the call of the function, and `leave`; only `call` lets other calls
-- run between them. Times are microseconds; `now` is what `datetime.now()` returns.
pub mod Sequence
pub mod Interleaving
mod Examples
use tei_nlp_converter.Base.{
  ℕ, ◌+◌, ◌*◌, Bool, true, false, Option, none, some, List, [], ◌∷◌, leb, if◌then◌else◌, Exc,
}

pub data CircuitState : Type 0 where
  closed opened half_open : CircuitState

pub record CircuitBreaker : Type 0 where
  pub failure_threshold : ℕ
  pub recovery_timeout : ℕ
  pub expected_exception : Exc → Bool
  pub failure_count : ℕ
  pub last_failure_time : Option ℕ
  pub state : CircuitState

pub init : ℕ → ℕ → (Exc → Bool) → CircuitBreaker
init failure_threshold recovery_timeout expected_exception = record {
  failure_threshold = failure_threshold;
  recovery_timeout = recovery_timeout;
  expected_exception = expected_exception;
  failure_count = 0;
  last_failure_time = none;
  state = closed;
}

-- `time_since_failure >= timedelta(seconds=…)`, also for a clock that went back
pub should_attempt_reset : ℕ → CircuitBreaker → Bool
should_attempt_reset now b = elim b.last_failure_time [
  | none ↦ false
  | some t ↦ leb (t + b.recovery_timeout * 1_000_000) now
]

pub on_success : CircuitBreaker → CircuitBreaker
on_success b = elim b.state [
  | half_open ↦ record b { failure_count = 0; state = closed }
  | _ ↦ record b { failure_count = 0 }
]

-- the second test of `_on_failure`
reopen : CircuitBreaker → CircuitBreaker
reopen b = elim b.state [ half_open ↦ record b { state = opened } | _ ↦ b ]

pub on_failure : ℕ → CircuitBreaker → CircuitBreaker
unfolding reopen
on_failure now b =
    let failed = record b { failure_count = b.failure_count + 1; last_failure_time = some now } in
    reopen (
      if leb b.failure_threshold (b.failure_count + 1)
      then record failed { state = opened }
      else failed)

-- What the wrapped function does once it is called.
pub data Outcome {ℓ} (A : Type ℓ) : Type ℓ where
  returns : A → Outcome A
  raises : Exc → Outcome A

-- What the caller gets; `rejected` is `CircuitBreakerError`, and the function is not called.
pub data Reply {ℓ} (A : Type ℓ) : Type ℓ where
  rejected : Reply A
  returned : A → Reply A
  raised : Exc → Reply A

-- Up to the `try`: whether the function is called, and the breaker.
pub enter : ℕ → CircuitBreaker → Bool × CircuitBreaker
unfolding should_attempt_reset
enter now b = elim b.state [
  | opened ↦
      if should_attempt_reset now b then (true, record b { state = half_open }) else (false, b)
  | _ ↦ (true, b)
]

module _ {ℓ} {A : Type ℓ} where
  -- From the outcome of the function on.
  pub leave : ℕ → Outcome A → CircuitBreaker → Reply A × CircuitBreaker
  unfolding on_success on_failure
  leave now (returns a) b = (returned a, on_success b)
  leave now (raises e) b =
      if b.expected_exception e then (raised e, on_failure now b) else (raised e, b)

  pub call_sync : ℕ → ℕ → Outcome A → CircuitBreaker → Reply A × CircuitBreaker
  unfolding enter leave
  call_sync now now' o b =
      let (admitted, b') = enter now b in if admitted then leave now' o b' else (rejected, b')

  -- One call after the other: the replies, and the breaker in the end.
  pub run : List (ℕ × ℕ × Outcome A) → CircuitBreaker → List (Reply A) × CircuitBreaker
  run [] b = ([], b)
  run ((now, now', o) ∷ calls) b =
      let (reply, b') = call_sync now now' o b in
      let (replies, b'') = run calls b' in (reply ∷ replies, b'')
