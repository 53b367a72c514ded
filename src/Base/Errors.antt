-- ===== src/Base/Errors.antt =====
-- Python exceptions as values: what a call that may raise returns.
use Prim.Native.String.{String, ◌++◌}
use mathlib.Core.Bool.{Bool, true, false}
use mathlib.Core.Option.{Option, none, some}
use mathlib.Core.Path.{◌≡◌, refl, sym, subst}
use mathlib.Core.Logic.{◌≢◌, ◌⊎◌, inl, inr}
use tei_nlp_converter.Base.Tests.{if◌then◌else◌}

pub data Exc : Type 0 where
  key_error : String → Exc
  type_error : String → Exc
  value_error : String → Exc
  index_error : Exc
  other_error : String → Exc

-- `str(e)`: of a `KeyError` it is the key between quotes.
unfoldable pub message : Exc → String
message (key_error k) = "'" ++ k ++ "'"
message (type_error m) = m
message (value_error m) = m
message index_error = "list index out of range"
message (other_error m) = m

-- `diverges`: the call does not come back.
pub data Result {ℓ} (A : Type ℓ) : Type ℓ where
  ok : A → Result A
  raise : Exc → Result A
  diverges : Result A

-- The lines of a block one after the other: what is no value ends it.
infixl 5 ◌>>=◌
unfoldable pub ◌>>=◌ {α β} : {X : Type α} {Y : Type β} → Result X → (X → Result Y) → Result Y
diverges >>= rest = diverges
raise e >>= rest = raise e
ok x >>= rest = rest x

-- `try: … except Exception as e: handler(e)`
abbrev pub catch {ℓ} : {A : Type ℓ} → Result A → (Exc → Result A) → Result A
catch (ok a) handler = ok a
catch (raise e) handler = handler e
catch diverges handler = diverges

-- `d[key]`, where the key may be missing.
abbrev pub item {ℓ} : {A : Type ℓ} → String → Option A → Result A
item key none = raise (key_error key)
item key (some a) = ok a

-- A block that returns has a first line that returns.
pub >>=-ok {α β} :
    {X : Type α} {Y : Type β} (first : Result X) (after : X → Result Y) {y : Y}
    → (first >>= after) ≡ ok y
    → (x : X) × (first ≡ ok x) × (after x ≡ ok y)
unfolding ◌>>=◌
>>=-ok (ok x) after h = (x, refl, h)
>>=-ok (raise e) after h = cc
>>=-ok diverges after h = cc

pub ok-injective {ℓ} : {A : Type ℓ} {a b : A} → ok a ≡ ok b → a ≡ b
ok-injective h = cc

-- What holds of the value, if the call returns one.
pub record Ensures {ℓ κ} {A : Type ℓ} (P : A → Type κ) (r : Result A) : Type (ℓ ⊔ κ) where
  pub at : (a : A) → r ≡ ok a → P a

module _ {ℓ κ} {A : Type ℓ} {P : A → Type κ} where
  pub Ensures-ok : (a : A) → P a → Ensures P (ok a)
  Ensures-ok a h = record { at = λ b e. subst P (ok-injective e) h }

  pub Ensures-raise : (e : Exc) → Ensures P (raise e)
  Ensures-raise e = record { at = λ a h. absurd (cc h) }

  pub Ensures-if :
      (b : Bool) {m n : Result A} → Ensures P m → Ensures P n → Ensures P (if b then m else n)
  Ensures-if true hm hn = hm
  Ensures-if false hm hn = hn

  pub Ensures-map {μ} :
      {Q : A → Type μ} {r : Result A} → ((a : A) → Q a → P a) → Ensures Q r → Ensures P r
  Ensures-map f q = record { at = λ a h. f a (q.at a h) }

  -- The rest of a `do` block may use what holds of the first value.
  pub Ensures-bind {μ ν} :
      {B : Type μ} {Q : B → Type ν} (m : Result B) (f : B → Result A)
      → Ensures Q m
      → ((b : B) → Q b → Ensures P (f b))
      → Ensures P (m >>= f)
  unfolding ◌>>=◌
  Ensures-bind (ok b) f q h = h b (q.at b refl)
  Ensures-bind (raise e) f q h = record { at = λ a p. cc }
  Ensures-bind diverges f q h = record { at = λ a p. cc }

pub Ensures-item {ℓ} :
    {A : Type ℓ} (key : String) (o : Option A) → Ensures (λ a. o ≡ some a) (item key o)
Ensures-item key none = record { at = λ a h. cc }
Ensures-item key (some b) = record { at = λ a h. cc }

-- The call returns, with a value of which `P` holds.
pub record Returns {ℓ κ} {A : Type ℓ} (P : A → Type κ) (r : Result A) : Type (ℓ ⊔ κ) where
  pub value : A
  pub is_ok : r ≡ ok value
  pub good : P value

module _ {ℓ κ} {A : Type ℓ} {P : A → Type κ} where
  pub Returns-ok : (a : A) → P a → Returns P (ok a)
  Returns-ok a h = record { value = a; is_ok = refl; good = h }

  pub Returns-if :
      (b : Bool) {m n : Result A} → Returns P m → Returns P n → Returns P (if b then m else n)
  Returns-if true hm hn = hm
  Returns-if false hm hn = hn

  pub Returns-map {μ} :
      {Q : A → Type μ} {r : Result A} → ((a : A) → Q a → P a) → Returns Q r → Returns P r
  Returns-map f q = record { value = q.value; is_ok = q.is_ok; good = f q.value q.good }

  pub Returns-bind {μ ν} :
      {B : Type μ} {Q : B → Type ν} (m : Result B) (f : B → Result A)
      → Returns Q m
      → ((b : B) → Q b → Returns P (f b))
      → Returns P (m >>= f)
  unfolding ◌>>=◌
  Returns-bind {Q} (ok b) f q h = h b (subst Q (sym (ok-injective q.is_ok)) q.good)
  Returns-bind (raise e) f q h = absurd (cc (q.is_ok))
  Returns-bind diverges f q h = absurd (cc (q.is_ok))

pub Returns-both {ℓ κ μ} :
    {A : Type ℓ} {P : A → Type κ} {Q : A → Type μ} {r : Result A}
    → Returns P r
    → Returns Q r
    → Returns (λ a. P a × Q a) r
Returns-both {Q} p q = record {
  value = p.value;
  is_ok = p.is_ok;
  good = (p.good, subst Q (ok-injective (cc (p.is_ok, q.is_ok))) q.good);
}

pub Returns-item {ℓ} :
    {A : Type ℓ} (key : String) (o : Option A) → o ≢ none → Returns (λ a. o ≡ some a) (item key o)
Returns-item key none h = absurd (h refl)
Returns-item key (some b) h = Returns-ok b refl

pub Result-cases {ℓ} :
    {A : Type ℓ} (r : Result A)
    → ((a : A) × (r ≡ ok a)) ⊎ ((e : Exc) × (r ≡ raise e)) ⊎ (r ≡ diverges)
Result-cases (ok a) = inl (a, refl)
Result-cases (raise e) = inr (inl (e, refl))
Result-cases diverges = inr (inr refl)

-- The call comes back, with a value or an exception.
pub record Settles {ℓ} {A : Type ℓ} (r : Result A) : Type ℓ where
  pub settles : r ≢ diverges

module _ {ℓ} {A : Type ℓ} where
  pub Settles-ok : (a : A) → Settles (ok a)
  Settles-ok a = record { settles = λ h. cc }

  pub Settles-raise : (e : Exc) → Settles {A = A} (raise e)
  Settles-raise e = record { settles = λ h. cc }

  pub Settles-item : (key : String) (o : Option A) → Settles (item key o)
  Settles-item key none = Settles-raise _
  Settles-item key (some a) = Settles-ok a

  pub Settles-if :
      (b : Bool) {m n : Result A} → Settles m → Settles n → Settles (if b then m else n)
  Settles-if true hm hn = hm
  Settles-if false hm hn = hn

  pub Settles-bind {μ} :
      {B : Type μ} (m : Result B) (f : B → Result A)
      → Settles m
      → ((b : B) → m ≡ ok b → Settles (f b))
      → Settles (m >>= f)
  unfolding ◌>>=◌
  Settles-bind (ok b) f s h = h b refl
  Settles-bind (raise e) f s h = Settles-raise e
  Settles-bind diverges f s h = absurd (s.settles refl)

  -- Where every exception is caught, a value is returned.
  pub catch_returns :
      (r : Result A) (handler : Exc → A)
      → Settles r
      → (a : A) × (catch r (λ e. ok (handler e)) ≡ ok a)
  catch_returns (ok a) handler s = (a, refl)
  catch_returns (raise e) handler s = (handler e, refl)
  catch_returns diverges handler s = absurd (s.settles refl)

pub ruleset settles_rules = (Settles-ok, Settles-raise, Settles-item, Settles-if, Settles-bind)
