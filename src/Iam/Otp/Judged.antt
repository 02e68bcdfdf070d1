-- ===== src/Iam/Otp/Judged.antt =====
-- The branches of `judge`, each with the payloads that take it.
use toupac.Prelude.{
  ℕ, ◌+◌, ◌≤◌, ◌<◌, ◌≡◌, String, Bool, true, false, Option, some, none, str_eq, arith,
}
use toupac.Cache.{second}
use toupac.Iam.Otp.{
  Challenge, Verdict, granted, refused, expired, too_many_attempts, wrong_code, erase, rewrite,
  judge, otp_max_attempts, remaining_seconds,
}

-- Whom a verdict lets in.
abbrev pub admitted : Verdict → Option String
admitted (granted user) = some user
admitted (refused e) = none

module _ (sha256_hex : String → String) where
  abbrev pub is_code_of : Challenge → String → Bool
  is_code_of p submitted = str_eq (sha256_hex submitted) p.code_hash

  pub judge_late :
      (p : Challenge) (now : ℕ) (submitted : String)
      → p.expires_at < now + second
      → judge sha256_hex now submitted (some p) ≡ (refused expired, erase)
  unfolding judge
  judge_late p now submitted h = ground arith

  pub judge_right :
      (p : Challenge) (now : ℕ) (submitted : String)
      → now + second ≤ p.expires_at
      → p.attempts < otp_max_attempts
      → is_code_of p submitted ≡ true
      → judge sha256_hex now submitted (some p) ≡ (granted p.user_id, erase)
  unfolding judge
  judge_right p now submitted h k r = ground arith

  pub judge_last :
      (p : Challenge) (now : ℕ) (submitted : String)
      → now + second ≤ p.expires_at
      → p.attempts + 1 ≡ otp_max_attempts
      → is_code_of p submitted ≡ false
      → judge sha256_hex now submitted (some p) ≡ (refused too_many_attempts, erase)
  unfolding judge
  judge_last p now submitted h k r = ground arith

  pub judge_wrong :
      (p : Challenge) (now : ℕ) (submitted : String)
      → now + second ≤ p.expires_at
      → p.attempts + 1 < otp_max_attempts
      → is_code_of p submitted ≡ false
      → judge sha256_hex now submitted (some p) ≡ (
        refused wrong_code,
        rewrite (record p { attempts = p.attempts + 1 }) (remaining_seconds p now),
      )
  unfolding judge
  judge_wrong p now submitted h k r = ground arith
