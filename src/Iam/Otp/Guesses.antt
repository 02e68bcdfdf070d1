-- ===== src/Iam/Otp/Guesses.antt =====
-- What a client obtains from a challenge: the run of `verify_challenge` over the codes it tries.
use toupac.Prelude.{
  ℕ, zero, suc, ◌+◌, ◌*◌, ◌≤◌, ◌<◌, ◌≡◌, refl, ap, ◌∙◌, String, Bool, false, Option, some, none,
  List, [], ◌∷◌, map, leb, ltb, str_eq, if◌then◌else◌, arith, Bool-cases, inl, inr, ◌⊎◌, eq_iff,
}
use toupac.Cache.{Cache, IsLawful, second}
use toupac.Iam.Otp.Judged.{admitted, is_code_of, judge_late, judge_right, judge_last, judge_wrong}
use toupac.Iam.Otp.{
  Challenge, granted, challenge_key, judge, verify_challenge, verify_all, create_challenge,
  peek_challenge, generate_code, otp_max_attempts, otp_ttl_seconds, remaining_seconds,
}

-- Nobody, once for each guess.
abbrev pub nobody : List (ℕ × String) → List (Option String)
nobody [] = []
nobody (g ∷ guesses) = none ∷ nobody guesses

-- The contract of a challenge: `left` wrong guesses remain before it closes, a guess counts if it
-- comes a full second before the deadline, and the first right one lets the user in and closes it.
pub admissions : (String → Bool) → String → ℕ → ℕ → List (ℕ × String) → List (Option String)
admissions is_right user deadline zero guesses = nobody guesses
admissions is_right user deadline (suc left) [] = []
admissions is_right user deadline (suc left) ((now, submitted) ∷ guesses) =
    let closed = none ∷ nobody guesses in
    let wrong = none ∷ admissions is_right user deadline left guesses in
    if leb (now + second) deadline
    then (if is_right submitted then some user ∷ nobody guesses else wrong)
    else closed

-- The guesses come one after the other, none before `from`.
abbrev pub InOrder : ℕ → List (ℕ × String) → Type 0
InOrder from [] = Unit
InOrder from ((now, submitted) ∷ guesses) = (from ≤ now) × InOrder now guesses

module _ (sha256_hex : String → String) where
  module _ {C : Cache Challenge} (lawful : IsLawful C) (id : String) where
    abbrev IsGone : C.Store → Type 0
    IsGone s = (now : ℕ) → C.get now (challenge_key id) s ≡ none

    -- The payload is there until a second before its deadline, and no other payload ever is.
    record Holds (p : Challenge) (s : C.Store) : Type 0 where
      there : (now : ℕ) → now + second ≤ p.expires_at → C.get now (challenge_key id) s ≡ some p
      alone :
          (now : ℕ)
          → (C.get now (challenge_key id) s ≡ none) ⊎ (C.get now (challenge_key id) s ≡ some p)

    get-set_self :
        (now later : ℕ) (p : Challenge) (timeout : ℕ) (s : C.Store)
        → C.get later (challenge_key id) (C.set now (challenge_key id) p timeout s)
          ≡ (if ltb later (now + timeout * second) then some p else none)
    get-set_self now later p timeout s =
        lawful.get-set now later (challenge_key id) (challenge_key id) p timeout s
        ∙ rw ((eq_iff (challenge_key id) (challenge_key id)).1 refl)

    delete-IsGone : (s : C.Store) → IsGone (C.delete (challenge_key id) s)
    delete-IsGone s now =
        lawful.get-delete now (challenge_key id) (challenge_key id) s
        ∙ rw ((eq_iff (challenge_key id) (challenge_key id)).1 refl)

    verify_gone :
        (guesses : List (ℕ × String)) (s : C.Store)
        → IsGone s
        → map admitted (verify_all sha256_hex C id guesses s).0 ≡ nobody guesses
    unfolding verify_all verify_challenge judge
    verify_gone [] s h = refl
    verify_gone ((now, submitted) ∷ guesses) s h =
        rw (h now) (ap (λ l. none ∷ l) (verify_gone guesses s h))

    verify_late :
        (p : Challenge) (from : ℕ) (guesses : List (ℕ × String)) (s : C.Store)
        → ((now : ℕ)
            → (C.get now (challenge_key id) s ≡ none) ⊎ (C.get now (challenge_key id) s ≡ some p))
        → p.expires_at < from + second
        → InOrder from guesses
        → map admitted (verify_all sha256_hex C id guesses s).0 ≡ nobody guesses
    unfolding verify_all verify_challenge
    verify_late p from [] s h late o = refl
    verify_late p from ((now, submitted) ∷ guesses) s h late o = elim (h now) [
      | inl gone ↦ rw gone (ap (λ l. none ∷ l) (verify_late p now guesses s h (omega arith) o.1))
      | inr left ↦
          rw (left, judge_late sha256_hex p now submitted (omega arith))
            (ap (λ l. none ∷ l)
              (verify_gone guesses (C.delete (challenge_key id) s) (delete-IsGone s)))
    ]

    set-Holds :
        (now : ℕ) (p : Challenge) (timeout : ℕ) (s : C.Store)
        → p.expires_at < now + (timeout + 1) * second
        → Holds p (C.set now (challenge_key id) p timeout s)
    set-Holds now p timeout s h = record {
      there = λ later k. ground (arith, get-set_self now later p timeout s);
      alone = λ later. ground (arith, get-set_self now later p timeout s);
    }

    -- One guess, given what a wrong one leads to.
    verify_guess :
        (left now : ℕ) (submitted : String) (p : Challenge) (guesses : List (ℕ × String))
        (s : C.Store)
        → p.attempts < otp_max_attempts
        → Holds p s
        → InOrder now guesses
        → (now + second ≤ p.expires_at
            → is_code_of sha256_hex p submitted ≡ false
            → map admitted (verify_all sha256_hex C id ((now, submitted) ∷ guesses) s).0
              ≡ none ∷ admissions (is_code_of sha256_hex p) p.user_id p.expires_at left guesses)
        → map admitted (verify_all sha256_hex C id ((now, submitted) ∷ guesses) s).0
          ≡ admissions
              (is_code_of sha256_hex p)
              p.user_id
              p.expires_at
              (suc left)
              ((now, submitted) ∷ guesses)
    unfolding verify_all verify_challenge admissions
    verify_guess left now submitted p guesses s e h o next =
        elim (Bool-cases (leb (now + second) p.expires_at)) [
          | inl in_time ↦ elim (Bool-cases (is_code_of sha256_hex p submitted)) [
            | inl right ↦
                rw
                  (
                    in_time,
                    right,
                    h.there now (ground arith),
                    judge_right sha256_hex p now submitted (ground arith) e right,
                  )
                  (ap (λ l. some p.user_id ∷ l)
                    (verify_gone guesses (C.delete (challenge_key id) s) (delete-IsGone s)))
            | inr wrong ↦ rw (in_time, wrong) (next (ground arith) wrong)
          ]
          | inr out ↦ rw out (
              verify_late p now ((now, submitted) ∷ guesses) s h.alone (ground arith)
                (omega arith, o))
        ]

    -- The run of an open challenge is what the contract says.
    verify_open :
        (left from : ℕ) (p : Challenge) (guesses : List (ℕ × String)) (s : C.Store)
        → p.attempts + suc left ≡ otp_max_attempts
        → Holds p s
        → InOrder from guesses
        → map admitted (verify_all sha256_hex C id guesses s).0
          ≡ admissions (is_code_of sha256_hex p) p.user_id p.expires_at (suc left) guesses
    unfolding verify_all verify_challenge admissions remaining_seconds
    verify_open left from p [] s e h o = refl
    verify_open zero from p ((now, submitted) ∷ guesses) s e h o =
        verify_guess 0 now submitted p guesses s (omega arith) h o.1 λ k wrong.
          rw (h.there now k, judge_last sha256_hex p now submitted k (omega arith) wrong)
            (ap (λ l. none ∷ l)
              (verify_gone guesses (C.delete (challenge_key id) s) (delete-IsGone s)))
    verify_open (suc left) from p ((now, submitted) ∷ guesses) s e h o =
        verify_guess (suc left) now submitted p guesses s (omega arith) h o.1 λ k wrong.
          let p' = record p { attempts = p.attempts + 1 } in
          let timeout = remaining_seconds p now in
          rw (h.there now k, judge_wrong sha256_hex p now submitted k (omega arith) wrong)
            (ap (λ l. none ∷ l)
              (verify_open left now p' guesses (C.set now (challenge_key id) p' timeout s)
                (omega arith) (set-Holds now p' timeout s (omega arith)) o.1))

    module _ (from drawn : ℕ) (user_id target_type target : String) (s : C.Store) where
      abbrev created : (String × String) × C.Store
      created = create_challenge sha256_hex C from id drawn user_id target_type target s

      abbrev payload : Challenge
      payload = record {
        user_id = user_id;
        code_hash = sha256_hex (generate_code drawn);
        target_type = target_type;
        target = target;
        expires_at = from + otp_ttl_seconds * second;
        attempts = 0;
      }

      -- After `create_challenge`, the guesses of a client, one after the other, get in exactly
      -- where the contract lets them: at most three guesses count, each a full second before the five
      -- minutes are over, and the first whose hash is that of the code gets in and closes the
      -- challenge. The cache keeps its promises.
      pub verify_all-create_challenge :
          (guesses : List (ℕ × String))
          → InOrder from guesses
          → map admitted (verify_all sha256_hex C id guesses created.1).0
            ≡ admissions
                (λ submitted. str_eq (sha256_hex submitted) (sha256_hex created.0.1))
                user_id
                (from + otp_ttl_seconds * second)
                otp_max_attempts
                guesses
      unfolding create_challenge
      verify_all-create_challenge guesses o =
          verify_open 2 from payload guesses created.1 refl
            (set-Holds from payload otp_ttl_seconds s (omega arith)) o

      -- The code that `create_challenge` returns lets its user in, from the creation until a second
      -- before the five minutes are over, and the challenge is gone then. The cache keeps its promises.
      pub verify_challenge-create_challenge :
          (now : ℕ)
          → now + second ≤ from + otp_ttl_seconds * second
          → let (verdict, after) = verify_challenge sha256_hex C now id created.0.1 created.1 in
            (verdict ≡ granted user_id)
            × ((later : ℕ) → peek_challenge sha256_hex C later id after ≡ none)
      unfolding create_challenge verify_challenge judge peek_challenge
      verify_challenge-create_challenge now h =
          let made : Holds payload created.1 =
            set-Holds from payload otp_ttl_seconds s (omega arith) in
          rw
            (
              made.there now h,
              judge_right sha256_hex payload now created.0.1 h (omega arith)
                  ((eq_iff (sha256_hex created.0.1) _).1 refl),
            )
            (refl, delete-IsGone created.1)
