-- ===== src/Iam/Tests.antt =====
-- A client with a code, and the theorems on iam/otp.py applied to it.
use Prim.Native.String.{◌++◌}
use toupac.Prelude.{ℕ, ◌*◌, ◌≡◌, ◌≢◌, refl, String, some, none, [], ◌∷◌, map, str_eq, arith}
use toupac.Prelude.Decimal.{padded}
use toupac.Cache.{Cache, second}
use toupac.Cache.Memory.{memory_cache, memory_cache-IsLawful, empty_store}
use toupac.Iam.Otp.{
  Challenge, granted, generate_code, create_challenge, verify_challenge, verify_all, peek_challenge,
  mask_target,
}
use toupac.Iam.Otp.Judged.{admitted}
use toupac.Iam.Otp.Guesses.{
  verify_all-create_challenge, verify_challenge-create_challenge, admissions,
}
use toupac.Iam.Otp.Masks.{mask_target-hides}

-- A hash that can be followed by eye.
abbrev hash : String → String
hash code = "#" ++ code

abbrev cache : Cache Challenge
cache = memory_cache Challenge

abbrev made : (String × String) × cache.Store
made = create_challenge hash cache 0 "c1" 4217 "user-7" "phone" "+221771234567" empty_store

code_made : made.0 ≡ ("c1", "004217")
unfolding create_challenge generate_code padded
code_made = refl

right_at_the_third :
    map admitted
      (verify_all hash cache "c1"
        ((1, "1") ∷ (2, "2") ∷ (3, "004217") ∷ (4, "004217") ∷ [])
        made.1).0
    ≡ none ∷ none ∷ some "user-7" ∷ none ∷ []
unfolding create_challenge generate_code padded verify_all verify_challenge
right_at_the_third = refl

masked :
    (mask_target "phone" "+221771234567" ≡ "+2217****67")
    × (mask_target "email" "fatou@ex.com" ≡ "fa***@ex.com")
unfolding mask_target
masked = (refl, refl)

-- An address with nothing before its `@` is shown in clear.
shown : mask_target "email" "@ex.com" ≡ "@ex.com"
unfolding mask_target
shown = refl

verify_all-create_challenge_example :
    map admitted (verify_all hash cache "c1" ((5, "123456") ∷ (second, "004217") ∷ []) made.1).0
    ≡ admissions
        (λ submitted. str_eq (hash submitted) (hash made.0.1))
        "user-7"
        (300 * second)
        3
        ((5, "123456") ∷ (second, "004217") ∷ [])
verify_all-create_challenge_example =
    verify_all-create_challenge hash (memory_cache-IsLawful Challenge) "c1" 0 4217 "user-7" "phone"
      "+221771234567" empty_store ((5, "123456") ∷ (second, "004217") ∷ [])
      (omega arith, (omega arith, tt))

verify_challenge-create_challenge_example :
    let (verdict, after) = verify_challenge hash cache 7 "c1" made.0.1 made.1 in
    (verdict ≡ granted "user-7") × ((later : ℕ) → peek_challenge hash cache later "c1" after ≡ none)
verify_challenge-create_challenge_example =
    verify_challenge-create_challenge hash (memory_cache-IsLawful Challenge) "c1" 0 4217 "user-7"
      "phone" "+221771234567" empty_store 7 (omega arith)

mask_target-hides_example : mask_target "phone" "77123" ≢ "77123"
mask_target-hides_example = mask_target-hides "phone" "77123" refl refl refl
