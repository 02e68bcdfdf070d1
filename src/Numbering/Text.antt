-- ===== src/Numbering/Text.antt =====
-- Numbers as texts: their parts, and their order.
use Prim.Native.Char.{code}
use Prim.Native.String.{◌++◌}
use Prim.Native.String.append
use toupac.Prelude.{
  ℕ, zero, suc, ◌+◌, ◌/◌, ◌%◌, ◌^◌, ◌<◌, ◌≡◌, refl, ◌∙◌, String, Bool, true, false, ◌&&◌, ◌||◌,
  some, none, ltb, ◌==◌, if◌then◌else◌, ==_refl, arith,
}
use toupac.Prelude.Decimal.{padded, digits, digit, code-digit, width}
use native.Mathlib.Nat.{pow-suc}
use toupac.Numbering.{text_lt, starts_with, behind_hyphen, last_part, number}

pub starts_with-append : (p t : String) → starts_with (p ++ "-") (p ++ String.◌∷◌ "-" t) ≡ true
starts_with-append String.[] t = rw (append.nil "-", append.nil (String.◌∷◌ "-" t)) refl
starts_with-append (String.◌∷◌ c p) t =
    rw (append.cons c p "-", append.cons c p (String.◌∷◌ "-" t), ==_refl (code c))
      (starts_with-append p t)

pub text_lt-append : (p s t : String) → text_lt (p ++ s) (p ++ t) ≡ text_lt s t
text_lt-append String.[] s t = rw (append.nil s, append.nil t) refl
text_lt-append (String.◌∷◌ c p) s t =
    rw (append.cons c p s, append.cons c p t) (ground (arith, text_lt-append p s t))

behind_hyphen-append :
    (p t : String) → behind_hyphen t ≡ none → behind_hyphen (p ++ String.◌∷◌ "-" t) ≡ some t
behind_hyphen-append String.[] t h = rw (append.nil (String.◌∷◌ "-" t), h) refl
behind_hyphen-append (String.◌∷◌ c p) t h =
    rw (append.cons c p (String.◌∷◌ "-" t), behind_hyphen-append p t h) refl

behind_hyphen-digits :
    (w n : ℕ) (s : String) → behind_hyphen s ≡ none → behind_hyphen (digits w n s) ≡ none
unfolding digits
behind_hyphen-digits zero n s h = h
behind_hyphen-digits (suc w) n s h =
    behind_hyphen-digits w (n / 10) (String.◌∷◌ (digit (n % 10)) s)
      (rw h (ground (arith, code-digit (n % 10))))

pub last_part-number : (s : String) (k : ℕ) → last_part (number s k) ≡ padded 4 k
unfolding padded
last_part-number s k =
    rw
      (behind_hyphen-append s (padded 4 k)
        (behind_hyphen-digits (if ltb 4 (width k) then width k else 4) k String.[] refl))
      refl

compare_last :
    (a b c d : ℕ) (rest : Bool)
    → c ≡ a % 10 + 48
    → d ≡ b % 10 + 48
    → (ltb (a / 10) (b / 10)
        || (a / 10 == b / 10 && (if ltb c d then true else if c == d then rest else false)))
      ≡ (ltb a b || (a == b && rest))
compare_last a b c d rest h k = ground arith

-- Of two numbers with as many digits, the smaller one is the smaller text.
pub text_lt-digits :
    (w a b : ℕ) (s t : String)
    → a < 10 ^ w
    → b < 10 ^ w
    → text_lt (digits w a s) (digits w b t) ≡ (ltb a b || (a == b && text_lt s t))
unfolding digits
text_lt-digits zero a b s t h k = ground arith
text_lt-digits (suc w) a b s t h k =
    text_lt-digits w (a / 10) (b / 10) (String.◌∷◌ (digit (a % 10)) s)
      (String.◌∷◌ (digit (b % 10)) t) (omega (arith, pow-suc 10 w)) (omega (arith, pow-suc 10 w))
    ∙ compare_last a b (code (digit (a % 10))) (code (digit (b % 10))) (text_lt s t)
        (code-digit (a % 10) (omega arith)) (code-digit (b % 10) (omega arith))
