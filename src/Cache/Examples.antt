-- ===== src/Cache/Examples.antt =====
-- Tests and instances for cache_manager.py: a server that takes every command but reads.
use tei_nlp_converter.Base.{
  ℕ, ◌+◌, ◌*◌, ◌≤◌, Bool, true, false, none, some, List, [], ◌∷◌, Exc, Result, ok, ltb,
  if◌then◌else◌, length, ◌≡◌, ◌≢◌, refl, arith, get as lookup, put, sort, insert, remove,
}
use tei_nlp_converter.Cache.Redis.{
  Reply, done, connection_error, Redis, Pickle, loaded, dumped, dump_raises, returned, exhausted,
  with_retry,
}
use tei_nlp_converter.Cache.Retry.{Loses, after, ended_by, with_retry_recovers}
use tei_nlp_converter.Cache.Manager.{CacheManager, Times, seconds, init, get}
use tei_nlp_converter.Cache.Manager.Writes.{set}
use tei_nlp_converter.Cache.Manager.Bound.{
  step, Call, get_call, set_call, clear_pattern_call, run, length-run,
}
use tei_nlp_converter.Cache.Manager.Fallback.{IsDown, get-set_down}
use tei_nlp_converter.Cache.Manager.Wrap.{
  Printer, generate_cache_key, wrapper, wrapper_mixes_arguments,
}

-- A command that answers from the third call on; a reset counts for nothing.
abbrev flaky : ℕ → Reply ℕ × ℕ
flaky s = ((if ltb s 2 then connection_error else done s), s + 1)

with_retry_recovers_example : with_retry (λ s. s) 3 flaky true 0 ≡ (returned 2, true, 3)
unfolding Loses after ended_by
with_retry_recovers_example =
    with_retry_recovers (λ s. s) flaky 2 3 true 0 (omega arith) (refl, (refl, tt)) (λ e. cc e)

two_retries : with_retry (λ s. s) 2 flaky true 0 ≡ (exhausted, false, 2)
unfolding with_retry
two_retries = refl

abbrev server : Redis ℕ
server = record {
  ping = λ s. (done tt, s);
  get = λ key s. (connection_error, s + 1);
  setex = λ key ttl value s. (done tt, s + 1);
  delete = λ keys s. (done 0, s + 1);
  scan = λ cursor pattern s. (done (0, []), s + 1);
  reset = λ s. s;
}

abbrev pickle : Pickle ℕ
pickle = record { loads = λ bytes. loaded 0; dumps = λ value. dumped "pickled" }

abbrev manager : CacheManager ℕ ℕ
manager = init 0 3600 2 3 (some 0)

abbrev at : ℕ → Times
at n = record { checked = n; pinged = n; used = n; used_again = n }

-- A memory cache of two keeps the two values that were stored last.
abbrev three_sets : List (Call ℕ)
three_sets =
    set_call (at 1) "a" 7 none ∷ set_call (at 2) "b" 8 none ∷ set_call (at 3) "c" 9 none ∷ []

oldest_evicted :
    ((get server pickle (at 4) "a" (run server pickle three_sets manager)).0 ≡ ok none)
    × ((get server pickle (at 4) "c" (run server pickle three_sets manager)).0 ≡ ok (some 9))
unfolding run get step init with_retry lookup put sort insert remove
oldest_evicted = (refl, refl)

length-run_example :
    length
      (run server pickle
        (set_call (at 1) "a" 7 none ∷ get_call (at 2) "a" ∷ clear_pattern_call 5 (at 3) "a*" ∷ [])
        (init 0 3600 2 3 (some 0))).memory_cache
    ≤ 2
length-run_example =
    length-run server pickle 0 3600 2 3 (some 0)
      (set_call (at 1) "a" 7 none ∷ get_call (at 2) "a" ∷ clear_pattern_call 5 (at 3) "a*" ∷ [])

server-IsDown : IsDown server
unfolding IsDown
server-IsDown key s o e = cc e

pickle_takes : (value : ℕ) (e : Exc) → pickle.dumps value ≢ dump_raises e
pickle_takes value e h = cc h

get-set_down_example :
    (success : Bool) × ((set server pickle (at 1) "a" 7 none manager).0 ≡ ok success)
    × ((get server pickle (at 2) "a" (set server pickle (at 1) "a" 7 none manager).1).0
        ≡ ok (if ltb 2 (1 + seconds 3600) then some 7 else none))
unfolding init
get-set_down_example =
    get-set_down server pickle (at 1) (at 2) "a" 7 none manager server-IsDown (omega arith)
      (pickle_takes 7)

-- Arguments that are printed as nothing, and a digest that is the text itself.
abbrev printer : Printer ℕ
printer = record { show_args = λ args. "()"; show_kwargs = λ kwargs. ""; hexdigest = λ s. s }

-- A function of one argument, that counts its calls.
abbrev double : ℕ → ℕ → Result ℕ × ℕ
double n w = (ok (n * 2), w + 1)

wrapper_mixes_arguments_example :
    let called =
      wrapper server pickle
        (λ value. false)
        (at 1)
        (at 2)
        (generate_cache_key printer "nlp" "double" (3 ∷ []) [])
        none
        (double 3)
        manager
        0 in
    let again =
      wrapper server pickle
        (λ value. false)
        (at 3)
        (at 4)
        (generate_cache_key printer "nlp" "double" (5 ∷ []) [])
        none
        (double 5)
        called.1
        1 in
    (called.0 ≡ ok 6) × (again.0 ≡ ok 6) × (again.2 ≡ 1)
unfolding get init with_retry lookup
wrapper_mixes_arguments_example =
    wrapper_mixes_arguments printer "nlp" "double" 3 5 [] [] server pickle (λ value. false) (at 1)
      (at 2) (at 3) (at 4) none (double 3) (double 5) manager 0 1 1 6 server-IsDown (omega arith)
      (pickle_takes 6) refl refl refl refl
