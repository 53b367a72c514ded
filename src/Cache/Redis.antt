-- ===== src/Cache/Redis.antt =====
-- The client of Redis and `pickle`, which cache_manager.py uses, as parameters; `_with_retry`.
use tei_nlp_converter.Base.{
  ℕ, zero, suc, String, Bool, true, false, Option, List, Exc, nat_beq, if◌then◌else◌,
}

-- What a command of the client does: every exception of the library is a `RedisError`, of which
-- `connection_error` is a `RedisConnectionError` and `redis_error` another one.
pub data Reply {ℓ} (B : Type ℓ) : Type ℓ where
  done : B → Reply B
  connection_error : Reply B
  redis_error : Reply B

-- The commands that the code uses, on the state `S` of the server; values are texts of bytes.
-- `reset` is `connection_pool.reset()`, whose exceptions are swallowed.
pub record Redis {ℓ} (S : Type ℓ) : Type ℓ where
  pub ping : S → Reply (Unit {0}) × S
  pub get : String → S → Reply (Option String) × S
  pub setex : String → ℕ → String → S → Reply (Unit {0}) × S
  pub delete : List String → S → Reply ℕ × S
  pub scan : ℕ → String → S → Reply (ℕ × List String) × S
  pub reset : S → S

-- What `pickle.loads` does: a value, an `UnpicklingError` or `EOFError`, or another exception.
pub data Loaded {ℓ} (V : Type ℓ) : Type ℓ where
  loaded : V → Loaded V
  corrupt : Loaded V
  load_raises : Exc → Loaded V

-- What `pickle.dumps` does: the bytes, a `PicklingError`, or another exception.
pub data Dumped : Type 0 where
  dumped : String → Dumped
  unpicklable : Dumped
  dump_raises : Exc → Dumped

pub record Pickle {ℓ} (V : Type ℓ) : Type ℓ where
  pub loads : String → Loaded V
  pub dumps : V → Dumped

-- How `_with_retry` ends. Without an attempt it raises `None`, which is a `TypeError`.
pub data Ended {ℓ} (B : Type ℓ) : Type ℓ where
  returned : B → Ended B
  exhausted : Ended B
  failed : Ended B
  no_attempt : Ended B

-- After the last lost connection nothing is reset.
unfoldable pub pause {ℓ} : {S : Type ℓ} → (S → S) → ℕ → S → S
pause reset attempts_left s = if nat_beq attempts_left 0 then s else reset s

-- Whether Redis is still taken to be available.
abbrev pub still {κ} : {B : Type κ} → Ended B → Bool → Bool
still exhausted available = false
still (returned b) available = available
still failed available = available
still no_attempt available = false

module _ {ℓ κ} {S : Type ℓ} {B : Type κ} where
  -- The rounds that are left, of which there was none before or one that lost the connection.
  unfoldable pub attempts : (S → S) → (S → Reply B × S) → Bool → ℕ → S → Ended B × S
  unfolding pause
  attempts reset f tried zero s = ((if tried then exhausted else no_attempt), s)
  attempts reset f tried (suc n) s =
      let (reply, s') = f s in
      elim reply [
        | done b ↦ (returned b, s')
        | connection_error ↦ attempts reset f true n (pause reset n s')
        | redis_error ↦ (failed, s')
      ]

  -- `_with_retry`: how it ends, and whether Redis is still taken to be available.
  unfoldable pub with_retry : (S → S) → ℕ → (S → Reply B × S) → Bool → S → Ended B × Bool × S
  unfolding attempts
  with_retry reset max_retries f available s =
      let (ended, s') = attempts reset f false max_retries s in (ended, still ended available, s')
