-- ===== src/ByteBuffer/State.antt =====
-- The state of a ByteBuffer and what a call on it can come to (ByteBuffer.h).
use warhead_discord_client.Common.{ℕ, Bool, List}

-- `_rpos`, `_wpos`, `_storage`
pub record ByteBuffer : Type 0 where
  pub rpos : ℕ
  pub wpos : ℕ
  pub storage : List ℕ

-- `ByteBufferException` and its subclasses, with the arguments of their constructors.
pub data Exception : Type 0 where
  plain : Exception
  position : (add : Bool) (pos size value_size : ℕ) → Exception
  source : (pos size value_size : ℕ) → Exception
  invalid_value : List ℕ → Exception

-- `assert_failed` ends the process; `undefined` is an access outside the storage.
pub data Outcome (A : Type 0) : Type 0 where
  ok : A → Outcome A
  throw : Exception → Outcome A
  assert_failed : Outcome A
  undefined : Outcome A

-- A call leaves a buffer behind also when it throws.
abbrev pub M : Type 0 → Type 0
M A = ByteBuffer → Outcome A × ByteBuffer

abbrev pub pure : {A : Type 0} → A → M A
pure a b = (ok a, b)

abbrev pub and_then : {A B : Type 0} → Outcome A → (A → M B) → M B
and_then (ok a) k b = k a b
and_then (throw e) k b = (throw e, b)
and_then assert_failed k b = (assert_failed, b)
and_then undefined k b = (undefined, b)

infixl 5 ◌>>=◌ ◌>>◌
abbrev pub ◌>>=◌ : {A B : Type 0} → M A → (A → M B) → M B
◌>>=◌ m k b = let (o, b') = m b in and_then o k b'

abbrev pub ◌>>◌ : {B : Type 0} → M (Unit {0}) → M B → M B
m >> k = m >>= λ _. k
