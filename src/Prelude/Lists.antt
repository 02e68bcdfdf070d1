-- ===== src/Prelude/Lists.antt =====
-- Lists over the native numbers, with Boolean tests where the program's queries have them.
use Prim.Native.Nat.{ℕ, zero, suc, ◌+◌}
use mathlib.Core.Path.{◌≡◌, refl, ap}
use mathlib.Core.Bool.{Bool, true, false, ◌&&◌, ◌||◌}
use mathlib.Core.Option
use mathlib.Core.Option.{Option, none, some}
use mathlib.Core.List.{List, [], ◌∷◌, ◌++◌}
use native.Mathlib.Omega.{arith}
use mathlib.Core.Logic.{inl, inr}
use toupac.Prelude.Tests.{if◌then◌else◌, ltb, is_some, Bool-cases}

module _ {ℓ} {A : Type ℓ} where
  abbrev pub length : List A → ℕ
  length [] = 0
  length (x ∷ xs) = suc (length xs)

  abbrev pub take : ℕ → List A → List A
  take zero xs = []
  take (suc n) [] = []
  take (suc n) (x ∷ xs) = x ∷ take n xs

  -- Every element satisfies `P`.
  abbrev pub All {κ} : (A → Type κ) → List A → Type κ
  All P [] = Unit
  All P (x ∷ xs) = P x × All P xs

  -- `.exists()` after a filter
  abbrev pub any : (A → Bool) → List A → Bool
  any p [] = false
  any p (x ∷ xs) = p x || any p xs

  abbrev pub all : (A → Bool) → List A → Bool
  all p [] = true
  all p (x ∷ xs) = p x && all p xs

  -- `.filter(...)`, and a comprehension's `if`
  abbrev pub select : (A → Bool) → List A → List A
  select p [] = []
  select p (x ∷ xs) = let rest = select p xs in if p x then x ∷ rest else rest

  -- `.filter(...).update(...)`
  abbrev pub update_where : (A → Bool) → (A → A) → List A → List A
  update_where p f [] = []
  update_where p f (x ∷ xs) = (if p x then f x else x) ∷ update_where p f xs

  pub length-append : (xs ys : List A) → length (xs ++ ys) ≡ length xs + length ys
  length-append [] ys = omega arith
  length-append (x ∷ xs) ys = omega (arith, length-append xs ys)

  pub length-update_where :
      (p : A → Bool) (f : A → A) (xs : List A) → length (update_where p f xs) ≡ length xs
  length-update_where p f [] = refl
  length-update_where p f (x ∷ xs) = ap suc (length-update_where p f xs)

  pub select-append :
      (p : A → Bool) (xs ys : List A) → select p (xs ++ ys) ≡ select p xs ++ select p ys
  select-append p [] ys = refl
  select-append p (x ∷ xs) ys = elim (Bool-cases (p x)) [
    | inl yes_x ↦ rw (yes_x, select-append p xs ys) refl
    | inr no_x ↦ rw (no_x, select-append p xs ys) refl
  ]

  pub All-append {κ} : (P : A → Type κ) (xs ys : List A) → All P xs → All P ys → All P (xs ++ ys)
  All-append P [] ys hx hy = hy
  All-append P (x ∷ xs) ys hx hy = (hx.0, All-append P xs ys hx.1 hy)

  -- the smaller of two rows by key, the first if there is no second
  abbrev pub least_of : (A → ℕ) → A → Option A → A
  least_of key x none = x
  least_of key x (some y) = if ltb (key y) (key x) then y else x

  -- `.filter(p).first()`: the row with the least primary key among those selected
  abbrev pub first : (A → ℕ) → (A → Bool) → List A → Option A
  first key p [] = none
  first key p (x ∷ xs) =
      let rest = first key p xs in if p x then some (least_of key x rest) else rest

module _ {ℓ} {A : Type ℓ} where
  pub first_of_none :
      (key : A → ℕ) (p : A → Bool) (xs : List A) → any p xs ≡ false → first key p xs ≡ none
  first_of_none key p [] h = refl
  first_of_none key p (x ∷ xs) h = ground (arith, first_of_none key p xs)

  -- the only row that is selected, at the end of the table
  pub first-append_last :
      (key : A → ℕ) (p : A → Bool) (xs : List A) (x : A)
      → any p xs ≡ false
      → p x ≡ true
      → first key p (xs ++ x ∷ []) ≡ some x
  first-append_last key p [] x h k = ground arith
  first-append_last key p (y ∷ ys) x h k = ground (arith, first-append_last key p ys x)

  pub update_where_none :
      (p : A → Bool) (f : A → A) (xs : List A) → any p xs ≡ false → update_where p f xs ≡ xs
  update_where_none p f [] h = refl
  update_where_none p f (x ∷ xs) h = ground (arith, update_where_none p f xs)

  pub update_where-append :
      (p : A → Bool) (f : A → A) (xs ys : List A)
      → update_where p f (xs ++ ys) ≡ update_where p f xs ++ update_where p f ys
  update_where-append p f [] ys = refl
  update_where-append p f (x ∷ xs) ys = rw (update_where-append p f xs ys)

  pub any-append : (p : A → Bool) (xs ys : List A) → any p (xs ++ ys) ≡ (any p xs || any p ys)
  any-append p [] ys = refl
  any-append p (x ∷ xs) ys = ground (arith, any-append p xs ys)

  pub any_or_false :
      (p q : A → Bool) (xs : List A)
      → any (λ x. p x || q x) xs ≡ false
      → (any p xs ≡ false) × (any q xs ≡ false)
  any_or_false p q [] h = (refl, refl)
  any_or_false p q (x ∷ xs) h = ground (arith, any_or_false p q xs)

  -- a row added behind others, and then rewritten
  pub update_where_last :
      (p : A → Bool) (f : A → A) (xs : List A) (x : A)
      → any p xs ≡ false
      → p x ≡ true
      → update_where p f (xs ++ x ∷ []) ≡ xs ++ f x ∷ []
  update_where_last p f [] x h k = ground arith
  update_where_last p f (y ∷ ys) x h k = ground (arith, update_where_last p f ys x)

  least_of-map :
      (key : A → ℕ) (f : A → A) (x : A) (o : Option A)
      → ((x : A) → key (f x) ≡ key x)
      → least_of key (f x) (Option.map f o) ≡ f (least_of key x o)
  least_of-map key f x none h = refl
  least_of-map key f x (some y) h = ground (arith, h x, h y)

  -- a query sees the rows that an update selects as the update leaves them
  pub first-update_where :
      (key : A → ℕ) (p q : A → Bool) (f : A → A) (xs : List A)
      → ((x : A) → key (f x) ≡ key x)
      → ((x : A) → p (f x) ≡ p x)
      → ((x : A) → p x ≡ true → q x ≡ true)
      → first key p (update_where q f xs) ≡ Option.map f (first key p xs)
  first-update_where key p q f [] hk hp hq = refl
  first-update_where key p q f (x ∷ xs) hk hp hq = ground (
    arith,
    first-update_where key p q f xs hk hp hq,
    hk x,
    hp x,
    hq x,
    least_of-map key f x (first key p xs) hk,
  )

  selected_step :
      (key : A → ℕ) (p : A → Bool) (y : A) (o : Option A) (x : A)
      → ((z : A) → o ≡ some z → p z ≡ true)
      → (if p y then some (least_of key y o) else o) ≡ some x
      → p x ≡ true
  selected_step key p y none x h k = ground arith
  selected_step key p y (some z) x h k = ground (arith, h z refl)

  -- what a query finds it selects
  pub first-some :
      (key : A → ℕ) (p : A → Bool) (xs : List A) (x : A) → first key p xs ≡ some x → p x ≡ true
  first-some key p [] x h = cc
  first-some key p (y ∷ ys) x h = selected_step key p y (first key p ys) x (first-some key p ys) h

  -- a query finds a row where there is one
  pub first-any :
      (key : A → ℕ) (p : A → Bool) (xs : List A) → any p xs ≡ true → is_some (first key p xs) ≡ true
  first-any key p [] h = cc
  first-any key p (x ∷ xs) h = ground (arith, first-any key p xs)
