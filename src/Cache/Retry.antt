-- ===== src/Cache/Retry.antt =====
-- How many lost connections a command survives.
use tei_nlp_converter.Base.{ℕ, zero, suc, Bool, true, false, ◌≡◌, ◌≢◌, refl, arith, ◌<◌}
use tei_nlp_converter.Cache.Redis.{
  Reply, done, connection_error, redis_error, Ended, returned, exhausted, failed, pause, attempts,
  still, with_retry,
}

module _ {ℓ κ} {S : Type ℓ} {B : Type κ} (reset : S → S) (f : S → Reply B × S) where
  -- The server after `k` calls, each followed by a reset.
  unfoldable pub after : ℕ → S → S
  after zero s = s
  after (suc k) s = after k (reset (f s).1)

  -- The first `k` calls lose the connection.
  unfoldable pub Loses : ℕ → S → Type κ
  Loses zero s = Unit
  Loses (suc k) s = ((f s).0 ≡ connection_error) × Loses k (reset (f s).1)

  -- How the command ends with a reply that is no lost connection.
  unfoldable pub ended_by : Reply B → Ended B
  ended_by (done b) = returned b
  ended_by connection_error = exhausted
  ended_by redis_error = failed

  attempts_ended :
      (n : ℕ) (tried : Bool) (s : S) (r : Reply B)
      → (f s).0 ≡ r
      → r ≢ connection_error
      → attempts reset f tried (suc n) s ≡ (ended_by r, (f s).1)
  unfolding attempts ended_by
  attempts_ended n tried s (done b) e kept = rw (attempts, e) refl
  attempts_ended n tried s connection_error e kept = absurd (kept refl)
  attempts_ended n tried s redis_error e kept = rw (attempts, e) refl

  attempts_lost :
      (n : ℕ) (tried : Bool) (s : S)
      → (f s).0 ≡ connection_error
      → attempts reset f tried (suc n) s ≡ attempts reset f true n (pause reset n (f s).1)
  unfolding attempts
  attempts_lost n tried s e = rw (attempts, e) refl

  pause_before : (n : ℕ) (s : S) → pause reset (suc n) s ≡ reset s
  unfolding pause
  pause_before n s = ground arith

  attempts_recover :
      (k n : ℕ) (tried : Bool) (s : S)
      → k < n
      → Loses k s
      → (f (after k s)).0 ≢ connection_error
      → attempts reset f tried n s ≡ (ended_by (f (after k s)).0, (f (after k s)).1)
  unfolding after Loses
  attempts_recover k zero tried s less lost kept = absurd (omega (arith, less))
  attempts_recover zero (suc n) tried s less lost kept = attempts_ended n tried s (f s).0 refl kept
  attempts_recover (suc k) (suc zero) tried s less lost kept = absurd (omega (arith, less))
  attempts_recover (suc k) (suc (suc n)) tried s less lost kept =
      rw (attempts_lost (suc n) tried s lost.0, pause_before n (f s).1)
        (attempts_recover k (suc n) true (reset (f s).1) (omega (arith, less)) lost.1 kept)

  -- A command that loses the connection fewer times than there are retries ends as its first reply
  -- says that is no lost connection, after that call, and Redis counts as available as before.
  pub with_retry_recovers :
      (k max_retries : ℕ) (available : Bool) (s : S)
      → k < max_retries
      → Loses k s
      → (f (after k s)).0 ≢ connection_error
      → with_retry reset max_retries f available s
        ≡ (ended_by (f (after k s)).0, available, (f (after k s)).1)
  unfolding with_retry ended_by
  with_retry_recovers k max_retries available s less lost kept =
      rw (with_retry, attempts_recover k max_retries false s less lost kept)
        (by_reply (f (after k s)).0 _ kept)
    where
      by_reply :
          (r : Reply B) (s' : S)
          → r ≢ connection_error
          → Path
              (Ended B × Bool × S)
              (ended_by r, still (ended_by r) available, s')
              (ended_by r, available, s')
      by_reply (done b) s' kept = refl
      by_reply connection_error s' kept = absurd (kept refl)
      by_reply redis_error s' kept = refl

  attempts_give_up :
      (n : ℕ) (tried : Bool) (s : S)
      → Loses (suc n) s
      → (attempts reset f tried (suc n) s).0 ≡ exhausted
  unfolding Loses
  attempts_give_up zero tried s lost =
      unfold attempts in rw (attempts_lost zero tried s lost.0) refl
  attempts_give_up (suc n) tried s lost =
      rw (attempts_lost (suc n) tried s lost.0, pause_before n (f s).1)
        (attempts_give_up n true (reset (f s).1) lost.1)

  -- One that loses it every time raises the connection error, and Redis no longer counts as available.
  pub with_retry_gives_up :
      (n : ℕ) (available : Bool) (s : S)
      → Loses (suc n) s
      → ((with_retry reset (suc n) f available s).0 ≡ exhausted)
        × ((with_retry reset (suc n) f available s).1 ≡ false)
  unfolding with_retry
  with_retry_gives_up n available s lost =
      let spent = attempts_give_up n false s lost in rw (with_retry, spent) (refl, refl)
