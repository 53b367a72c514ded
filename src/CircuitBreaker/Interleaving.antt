-- ===== src/CircuitBreaker/Interleaving.antt =====
-- Calls of `call` that overlap: each awaits its function between `enter` and `leave`, and the event
-- loop may run any other call there.
use tei_nlp_converter.Base.{
  ℕ, suc, ◌+◌, ◌*◌, ◌≤◌, ◌≡◌, ◌≢◌, refl, Bool, true, false, none, arith, Option-cases, inl, inr,
  Exc,
}
use tei_nlp_converter.CircuitBreaker.{
  closed, opened, half_open, CircuitBreaker, init, Outcome, returns, raises, enter, leave,
}

-- A step of the event loop: a call is let in and awaits its function, or is rejected, or the
-- function of a waiting call ends. The number is that of the waiting calls.
pub data Step {ℓ} (A : Type ℓ) : CircuitBreaker × ℕ → CircuitBreaker × ℕ → Type ℓ where
  admit :
      (now : ℕ) (b : CircuitBreaker) (n : ℕ)
      → (enter now b).0 ≡ true
      → Step A (b, n) ((enter now b).1, suc n)
  reject :
      (now : ℕ) (b : CircuitBreaker) (n : ℕ)
      → (enter now b).0 ≡ false
      → Step A (b, n) ((enter now b).1, n)
  finish :
      (now : ℕ) (o : Outcome A) (b : CircuitBreaker) (n : ℕ)
      → Step A (b, suc n) ((leave now o b).1, n)

pub data Reach {ℓ} (A : Type ℓ) (s : CircuitBreaker × ℕ) : CircuitBreaker × ℕ → Type ℓ where
  here : Reach A s s
  next : {t u : CircuitBreaker × ℕ} → Reach A s t → Step A t u → Reach A s u

-- Whoever is not closed knows when it failed last.
abbrev pub IsDated : CircuitBreaker × ℕ → Type 0
IsDated s = s.0.state ≢ closed → s.0.last_failure_time ≢ none

module _ {ℓ} {A : Type ℓ} where
  Step-IsDated : {s t : CircuitBreaker × ℕ} → Step A s t → IsDated s → IsDated t
  unfolding enter leave
  Step-IsDated (admit now b n h) dated = ground arith
  Step-IsDated (reject now b n h) dated = ground arith
  Step-IsDated (finish now (returns a) b n) dated = ground arith
  Step-IsDated (finish now (raises e) b n) dated = ground arith

  Reach-IsDated : {s t : CircuitBreaker × ℕ} → IsDated s → Reach A s t → IsDated t
  Reach-IsDated h here = h
  Reach-IsDated h (next r st) = Step-IsDated st (Reach-IsDated h r)

enter_late :
    (b : CircuitBreaker)
    → b.state ≡ opened
    → b.last_failure_time ≢ none
    → (t : ℕ) × ((now : ℕ) → t ≤ now → enter now b ≡ (true, record b { state = half_open }))
unfolding enter
enter_late b o dated = elim (Option-cases b.last_failure_time) [
  | inl never ↦ absurd (dated never)
  | inr (t, last) ↦ (t + b.recovery_timeout * 1_000_000, λ now late. ground arith)
]

-- However the calls overlap, a breaker that was opened does not stay shut for good: from some time
-- on, the next call is let in and the breaker is half open.
pub opened_recovers {ℓ} :
    {A : Type ℓ} (threshold timeout : ℕ) (expected : Exc → Bool) {b : CircuitBreaker} {n : ℕ}
    → Reach A (init threshold timeout expected, 0) (b, n)
    → b.state ≡ opened
    → (t : ℕ) × ((now : ℕ) → t ≤ now → enter now b ≡ (true, record b { state = half_open }))
unfolding init
opened_recovers threshold timeout expected {b} r o =
    enter_late b o (Reach-IsDated (λ h. absurd (h refl)) r (λ c. cc (c, o)))
