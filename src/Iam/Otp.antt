-- ===== src/Iam/Otp.antt =====
-- iam/otp.py: one-time codes kept in the cache for five minutes, three attempts for each.
pub mod Judged
pub mod Guesses
pub mod Masks
use Prim.Native.Char.{Char, code}
use Prim.Native.String.{◌++◌}
use toupac.Prelude.{
  ℕ, zero, suc, ◌+◌, ◌-◌, ◌*◌, ◌/◌, String, Bool, true, false, not, Option, some, none, List, [],
  ◌∷◌, leb, ◌==◌, str_eq, if◌then◌else◌,
}
use toupac.Prelude.Decimal.{padded}
use toupac.Prelude.Text.{is_empty, char_count, slice_to}
use toupac.Cache.{Cache, second}

-- The target's type as the caller writes it; any other text is allowed and is masked whole.
abbrev phone : String
phone = "phone"

abbrev email : String
email = "email"

-- OTP_TTL_SECONDS
abbrev pub otp_ttl_seconds : ℕ
otp_ttl_seconds = 300

-- OTP_MAX_ATTEMPTS
abbrev pub otp_max_attempts : ℕ
otp_max_attempts = 3

-- The payload in the cache. `expires_at` is an instant in microseconds, which `isoformat` writes and
-- `fromisoformat` reads without loss.
pub record Challenge : Type 0 where
  pub user_id : String
  pub code_hash : String
  pub target_type : String
  pub target : String
  pub expires_at : ℕ
  pub attempts : ℕ

-- The codes `ERROR_*` of `verify_challenge`.
pub data OtpError : Type 0 where
  not_found expired too_many_attempts wrong_code : OtpError

-- `(user_id, None)` or `(None, error)`
pub data Verdict : Type 0 where
  granted : String → Verdict
  refused : OtpError → Verdict

-- `_challenge_key`
abbrev pub challenge_key : String → String
challenge_key challenge_id = "otp:" ++ challenge_id

-- `generate_code`, at what `secrets.randbelow(1_000_000)` gives
unfoldable pub generate_code : ℕ → String
unfolding padded
generate_code drawn = padded 6 drawn

-- `_remaining_seconds`. Python gives a negative number after the deadline, where this gives 0: the
-- caller tests `remaining <= 0`, and reads no other value of it then.
unfoldable pub remaining_seconds : Challenge → ℕ → ℕ
remaining_seconds payload now = (payload.expires_at - now) / second

-- What `verify_challenge` does to the key of the challenge.
pub data Write : Type 0 where
  leave : Write
  erase : Write
  rewrite : Challenge → ℕ → Write

module _ (sha256_hex : String → String) where
  -- The decision of `verify_challenge` on the payload that `cache.get` gave.
  unfoldable pub judge : ℕ → String → Option Challenge → Verdict × Write
  unfolding remaining_seconds
  judge now submitted none = (refused not_found, leave)
  judge now submitted (some payload) =
      let remaining = remaining_seconds payload now in
      let attempts = payload.attempts + 1 in
      if leb remaining 0
      then (refused expired, erase)
      else if leb otp_max_attempts payload.attempts
      then (refused too_many_attempts, erase)
      else if str_eq (sha256_hex submitted) payload.code_hash
      then (granted payload.user_id, erase)
      else if leb otp_max_attempts attempts
      then (refused too_many_attempts, erase)
      else (refused wrong_code, rewrite (record payload { attempts = attempts }) remaining)

  module _ (C : Cache Challenge) where
    abbrev apply_write : ℕ → String → Write → C.Store → C.Store
    apply_write now key leave s = s
    apply_write now key erase s = C.delete key s
    apply_write now key (rewrite payload timeout) s = C.set now key payload timeout s

    -- `create_challenge`, at the identifier that `uuid4` gives and the number that is drawn
    unfoldable pub create_challenge :
        ℕ → String → ℕ → String → String → String → C.Store → (String × String) × C.Store
    create_challenge now uuid drawn user_id target_type target s =
        let code = generate_code drawn in
        let payload : Challenge = record {
          user_id = user_id;
          code_hash = sha256_hex code;
          target_type = target_type;
          target = target;
          expires_at = now + otp_ttl_seconds * second;
          attempts = 0;
        } in
        ((uuid, code), C.set now (challenge_key uuid) payload otp_ttl_seconds s)

    -- `verify_challenge`. The call reads the clock and the cache at one instant.
    unfoldable pub verify_challenge : ℕ → String → String → C.Store → Verdict × C.Store
    unfolding judge
    verify_challenge now challenge_id submitted s =
        let key = challenge_key challenge_id in
        let judged = judge now submitted (C.get now key s) in
        (judged.0, apply_write now key judged.1 s)

    -- `peek_challenge`
    unfoldable pub peek_challenge : ℕ → String → C.Store → Option Challenge
    peek_challenge now challenge_id s = C.get now (challenge_key challenge_id) s

    -- A client that tries codes one after the other: the verdicts, and the store at the end.
    unfoldable pub verify_all : String → List (ℕ × String) → C.Store → List Verdict × C.Store
    verify_all challenge_id [] s = ([], s)
    verify_all challenge_id ((now, submitted) ∷ guesses) s =
        let step = verify_challenge now challenge_id submitted s in
        let rest = verify_all challenge_id guesses step.1 in (step.0 ∷ rest.0, rest.1)

-- `"*" * n`
abbrev pub stars : ℕ → String
stars zero = String.[]
stars (suc n) = String.◌∷◌ "*" (stars n)

-- `s[n:]`
abbrev slice_from : ℕ → String → String
slice_from zero s = s
slice_from (suc n) String.[] = String.[]
slice_from (suc n) (String.◌∷◌ c s) = slice_from n s

-- `s.partition("@")`: what stands before the separator, whether it is there, what stands behind it
abbrev prepend_before : Char → String × Bool × String → String × Bool × String
prepend_before c parts = (String.◌∷◌ c parts.0, parts.1, parts.2)

abbrev partition_at : String → String × Bool × String
partition_at String.[] = (String.[], false, String.[])
partition_at (String.◌∷◌ c s) =
    let rest = partition_at s in
    if code c == b'@' then (String.[], true, s) else prepend_before c rest

abbrev mask_phone : String → String
mask_phone target =
    if leb (char_count target) 7
    then stars (char_count target)
    else slice_to 5 target ++ "****" ++ slice_from (char_count target - 2) target

abbrev mask_address : String → String × Bool × String → String
mask_address target (local, found, domain) =
    if not found
    then stars (char_count target)
    else if leb (char_count local) 2
    then stars (char_count local) ++ "@" ++ domain
    else slice_to 2 local ++ "***@" ++ domain

unfoldable pub mask_target : String → String → String
unfolding slice_to
mask_target target_type target =
    if is_empty target
    then String.[]
    else if str_eq target_type phone
    then mask_phone target
    else if str_eq target_type email
    then mask_address target (partition_at target)
    else stars (char_count target)
