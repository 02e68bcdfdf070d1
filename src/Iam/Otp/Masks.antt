-- ===== src/Iam/Otp/Masks.antt =====
-- What `mask_target` shows of a target.
use Prim.Native.Char.{code}
use Prim.Native.String.{◌++◌}
use Prim.Native.String.append
use mathlib.Core.Path.{subst}
use toupac.Prelude.{
  ◌-◌, ◌≡◌, ◌≢◌, refl, String, Bool, true, false, ◌||◌, leb, ◌==◌, str_eq, Bool-cases, inl, inr,
  or_right,
}
use toupac.Prelude.Text.{is_empty, char_count, slice_to}
use toupac.Iam.Otp.{
  mask_target, mask_phone, mask_address, partition_at, stars, slice_from, email, phone,
}

-- `"*" in s`
abbrev pub has_star : String → Bool
has_star String.[] = false
has_star (String.◌∷◌ c s) = code c == b'*' || has_star s

has_star-append_right : (s t : String) → has_star t ≡ true → has_star (s ++ t) ≡ true
has_star-append_right String.[] t h = rw (append.nil t) h
has_star-append_right (String.◌∷◌ c s) t h =
    rw (append.cons c s t)
      (or_right (code c == b'*') (has_star (s ++ t)) (has_star-append_right s t h))

has_star-stars : (s : String) → is_empty s ≡ false → has_star (stars (char_count s)) ≡ true
has_star-stars String.[] h = cc
has_star-stars (String.◌∷◌ c s) h = refl

has_star-append_left : (s t : String) → has_star s ≡ true → has_star (s ++ t) ≡ true
has_star-append_left String.[] t h = cc
has_star-append_left (String.◌∷◌ c s) t h = elim (Bool-cases (code c == b'*')) [
  | inl star ↦ rw (append.cons c s t, star) refl
  | inr other ↦ rw (append.cons c s t, other) (has_star-append_left s t (rw other at h))
]

-- The address `@domain`, which an empty local part leaves as it is.
abbrev pub starts_with_at : String → Bool
starts_with_at String.[] = false
starts_with_at (String.◌∷◌ c s) = code c == b'@'

has_star-mask_address :
    (target : String) (parts : String × Bool × String)
    → is_empty target ≡ false
    → is_empty parts.0 ≡ false
    → has_star (mask_address target parts) ≡ true
has_star-mask_address target (local, found, domain) h k = elim (Bool-cases found) [
  | inr none_there ↦ rw none_there (has_star-stars target h)
  | inl there ↦ elim (Bool-cases (leb (char_count local) 2)) [
    | inl short ↦
        rw (there, short)
          (has_star-append_left (stars (char_count local)) ("@" ++ domain) (has_star-stars local k))
    | inr long ↦
        rw (there, long)
          (has_star-append_right (slice_to 2 local) ("***@" ++ domain)
            (has_star-append_left "***@" domain refl))
  ]
]

has_star-mask_phone :
    (target : String) → is_empty target ≡ false → has_star (mask_phone target) ≡ true
has_star-mask_phone target h = elim (Bool-cases (leb (char_count target) 7)) [
  | inl short ↦ rw short (has_star-stars target h)
  | inr long ↦ rw long (
      has_star-append_right (slice_to 5 target)
        ("****" ++ slice_from (char_count target - 2) target)
        (has_star-append_left "****" (slice_from (char_count target - 2) target) refl))
]

local-partition_at :
    (target : String)
    → is_empty target ≡ false
    → starts_with_at target ≡ false
    → is_empty (partition_at target).0 ≡ false
local-partition_at String.[] h k = h
local-partition_at (String.◌∷◌ c s) h k = rw k refl

has_star-mask_target :
    (target_type target : String)
    → is_empty target ≡ false
    → starts_with_at target ≡ false
    → has_star (mask_target target_type target) ≡ true
unfolding mask_target
has_star-mask_target target_type target h k = elim (Bool-cases (str_eq target_type phone)) [
  | inl is_phone ↦ rw (h, is_phone) (has_star-mask_phone target h)
  | inr no_phone ↦ elim (Bool-cases (str_eq target_type email)) [
    | inl is_email ↦
        rw (h, no_phone, is_email)
          (has_star-mask_address target (partition_at target) h (local-partition_at target h k))
    | inr no_email ↦ rw (h, no_phone, no_email) (has_star-stars target h)
  ]
]

-- A target with no star in it is never shown as it is, whatever its type: its mask is another text.
-- It is not empty, and does not begin with `@`.
pub mask_target-hides :
    (target_type target : String)
    → is_empty target ≡ false
    → starts_with_at target ≡ false
    → has_star target ≡ false
    → mask_target target_type target ≢ target
mask_target-hides target_type target h k clear e =
    let star : has_star target ≡ true =
      subst (λ t. has_star t ≡ true) e (has_star-mask_target target_type target h k) in
    cc
