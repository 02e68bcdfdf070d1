-- ===== src/Cache/Memory.antt =====
-- A store in memory that keeps the promises: each key with its value and the instant it expires.
use toupac.Prelude.{ℕ, String, Option, some, none, ◌+◌, ◌*◌, ltb, str_eq, if◌then◌else◌, arith}
use toupac.Cache.{Cache, IsLawful, second}

abbrev alive {ℓ} : {V : Type ℓ} → ℕ → Option (V × ℕ) → Option V
alive now none = none
alive now (some (v, deadline)) = if ltb now deadline then some v else none

abbrev pub memory_cache : (V : Type 0) → Cache V
memory_cache V = record {
  Store = String → Option (V × ℕ);
  get = λ now k s. alive now (s k);
  set = λ now k v timeout s j. if str_eq j k then some (v, now + timeout * second) else s j;
  delete = λ k s j. if str_eq j k then none else s j;
}

abbrev pub empty_store {ℓ} : {V : Type ℓ} → String → Option (V × ℕ)
empty_store k = none

pub memory_cache-IsLawful : (V : Type 0) → IsLawful (memory_cache V)
memory_cache-IsLawful V = record {
  get-set = λ now later k j v timeout s. ground arith;
  get-delete = λ now k j s. ground arith;
}
