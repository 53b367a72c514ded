-- ===== src/CircuitBreaker/Examples.antt =====
-- Tests and instances for circuit_breaker.py.
use tei_nlp_converter.Base.{
  ℕ, ◌≤◌, ◌<◌, ◌⊎◌, ◌≡◌, ◌↔◌, refl, Bool, true, some, List, [], ◌∷◌, arith, Exc, other_error,
}
use tei_nlp_converter.CircuitBreaker.{
  closed, opened, half_open, CircuitBreaker, init, Outcome, returns, raises, rejected, returned,
  raised, enter, leave, call_sync, run,
}
use tei_nlp_converter.CircuitBreaker.Sequence.{streak, run-closed_iff, call_sync_rejects_iff, Waits}
use tei_nlp_converter.CircuitBreaker.Interleaving.{
  Reach, here, next, admit, finish, opened_recovers,
}

abbrev answer : Outcome ℕ
answer = returns 7

abbrev any : Exc → Bool
any e = true

abbrev down : Outcome ℕ
down = raises (other_error "refused")

-- two failures, a rejected call, and a call after the recovery time
abbrev calls : List (ℕ × ℕ × Outcome ℕ)
calls = (1, 2, down) ∷ (3, 4, down) ∷ (5, 6, returns 7) ∷ (1_000_005, 1_000_006, returns 8) ∷ []

run_example : run calls (init 2 1 any) ≡ (
  raised (other_error "refused") ∷ raised (other_error "refused") ∷ rejected ∷ returned 8 ∷ [],
  record (init 2 1 any) { last_failure_time = some 4 },
)
unfolding run call_sync init
run_example = refl

run-closed_iff_example :
    ((run calls (init 2 1 any)).1.state ≡ closed) ↔ (streak any 0 (run calls (init 2 1 any)).0 < 2)
run-closed_iff_example = run-closed_iff 2 1 any calls (omega arith)

abbrev broken : CircuitBreaker
broken = record (init 2 1 any) { failure_count = 2; last_failure_time = some 4; state = opened }

call_sync_rejects_iff_example :
    (((call_sync 5 6 answer broken).0 ≡ rejected) ↔ ((broken.state ≡ opened) × Waits 5 1 (some 4)))
    × ((call_sync 5 6 answer broken ≡ (rejected, broken))
        ⊎ ((call_sync 5 6 answer broken).0 ≡ returned 7))
unfolding init
call_sync_rejects_iff_example = call_sync_rejects_iff 5 6 answer broken

abbrev tripped : CircuitBreaker
tripped = record (init 1 1 any) { failure_count = 1; last_failure_time = some 2; state = opened }

trip : Reach ℕ (init 1 1 any, 0) (tripped, 0)
unfolding init enter leave
trip = next (next here (admit 1 (init 1 1 any) 0 refl)) (finish 2 down (init 1 1 any) 0)

opened_recovers_example :
    (t : ℕ) × ((now : ℕ)
      → t ≤ now
      → enter now tripped ≡ (true, record tripped { state = half_open }))
opened_recovers_example = opened_recovers 1 1 any trip refl
