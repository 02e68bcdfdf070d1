-- ===== src/Cache.antt =====
-- `django.core.cache.cache`, the key-value store with expiry that iam/otp.py and
-- notifications/idempotency.py share, over an unknown state, and what its documentation promises.
pub mod Memory
use toupac.Prelude.{ℕ, String, Bool, Option, some, none, ◌+◌, ◌*◌, ◌≡◌, ltb, str_eq, if◌then◌else◌}

-- microseconds in a second
abbrev pub second : ℕ
second = 1000000

-- An instant is the first argument of every call: the cache reads the clock itself.
pub record Cache {ℓ} (V : Type ℓ) : Type (ℓ ⊔ 1) where
  pub Store : Type 0
  -- `cache.get(key)`
  pub get : ℕ → String → Store → Option V
  -- `cache.set(key, value, timeout=seconds)`
  pub set : ℕ → String → V → ℕ → Store → Store
  -- `cache.delete(key)`
  pub delete : String → Store → Store

-- The timeout is "the number of seconds to use for the cache", and keys do not interfere.
pub record IsLawful {ℓ} {V : Type ℓ} (C : Cache V) : Type ℓ where
  pub get-set :
      (now later : ℕ) (k j : String) (v : V) (timeout : ℕ) (s : C.Store)
      → C.get later j (C.set now k v timeout s) ≡ (
          if str_eq j k
          then (if ltb later (now + timeout * second) then some v else none)
          else C.get later j s)
  pub get-delete :
      (now : ℕ) (k j : String) (s : C.Store)
      → C.get now j (C.delete k s) ≡ (if str_eq j k then none else C.get now j s)
