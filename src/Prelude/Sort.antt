-- ===== src/Prelude/Sort.antt =====
-- `sorted(rows, key=...)`, which is stable, and a query's `order_by`.
use Prim.Native.Nat.{ℕ, suc}
use mathlib.Core.Path.{◌≡◌, refl, ap, ◌∙◌}
use mathlib.Core.Bool.{Bool, true, false, ◌&&◌}
use mathlib.Core.List.{List, [], ◌∷◌, Perm}
use mathlib.Core.List.Perm
use native.Mathlib.Omega.{arith}
use toupac.Prelude.Tests.{if◌then◌else◌, leb}
use toupac.Prelude.Lists.{all, All, length}

module _ {A : Type 0} (key : A → ℕ) where
  -- a row in front of the first one that is not before it
  abbrev pub insert : A → List A → List A
  insert x [] = x ∷ []
  insert x (y ∷ ys) = let rest = insert x ys in if leb (key x) (key y) then x ∷ y ∷ ys else y ∷ rest

  abbrev pub sort_by : List A → List A
  sort_by [] = []
  sort_by (x ∷ xs) = insert x (sort_by xs)

  -- every row is followed by rows with a key that is not smaller
  abbrev pub is_sorted : List A → Bool
  is_sorted [] = true
  is_sorted (x ∷ xs) = all (λ y. leb (key x) (key y)) xs && is_sorted xs

  all-insert :
      (p : A → Bool) (x : A) (xs : List A)
      → p x ≡ true
      → all p xs ≡ true
      → all p (insert x xs) ≡ true
  all-insert p x [] h k = ground arith
  all-insert p x (y ∷ ys) h k = ground (arith, all-insert p x ys h)

  all_le_trans :
      (a b : ℕ) (xs : List A)
      → leb a b ≡ true
      → all (λ y. leb b (key y)) xs ≡ true
      → all (λ y. leb a (key y)) xs ≡ true
  all_le_trans a b [] h k = refl
  all_le_trans a b (y ∷ ys) h k = ground (arith, all_le_trans a b ys h)

  insert-is_sorted : (x : A) (xs : List A) → is_sorted xs ≡ true → is_sorted (insert x xs) ≡ true
  insert-is_sorted x [] h = refl
  insert-is_sorted x (y ∷ ys) h = ground (
    arith,
    insert-is_sorted x ys,
    all_le_trans (key x) (key y) ys,
    all-insert (λ z. leb (key y) (key z)) x ys,
  )

  pub sort_by-is_sorted : (xs : List A) → is_sorted (sort_by xs) ≡ true
  sort_by-is_sorted [] = refl
  sort_by-is_sorted (x ∷ xs) = insert-is_sorted x (sort_by xs) (sort_by-is_sorted xs)

  insert-perm_if :
      (b : Bool) (x y : A) (ys rest : List A)
      → Perm (x ∷ ys) rest
      → Perm (x ∷ y ∷ ys) (if b then x ∷ y ∷ ys else y ∷ rest)
  insert-perm_if true x y ys rest h = Perm.refl _
  insert-perm_if false x y ys rest h = Perm.trans (Perm.swap y x ys) (Perm.cons y h)

  insert-Perm : (x : A) (xs : List A) → Perm (x ∷ xs) (insert x xs)
  insert-Perm x [] = Perm.refl _
  insert-Perm x (y ∷ ys) = insert-perm_if (leb (key x) (key y)) x y ys _ (insert-Perm x ys)

  pub sort_by-Perm : (xs : List A) → Perm xs (sort_by xs)
  sort_by-Perm [] = Perm.refl _
  sort_by-Perm (x ∷ xs) = Perm.trans (Perm.cons x (sort_by-Perm xs)) (insert-Perm x (sort_by xs))

  All-if {κ} :
      (P : A → Type κ) (b : Bool) (xs ys : List A)
      → All P xs
      → All P ys
      → All P (if b then xs else ys)
  All-if P true xs ys h k = h
  All-if P false xs ys h k = k

  pub All-insert {κ} : (P : A → Type κ) (x : A) (xs : List A) → P x → All P xs → All P (insert x xs)
  All-insert P x [] h k = (h, k)
  All-insert P x (y ∷ ys) h k =
      All-if P (leb (key x) (key y)) (x ∷ y ∷ ys) (y ∷ insert x ys) (h, k)
        (k.0, All-insert P x ys h k.1)

  pub length-insert : (x : A) (xs : List A) → length (insert x xs) ≡ suc (length xs)
  length-insert x [] = refl
  length-insert x (y ∷ ys) = ground (arith, length-insert x ys)

  pub length-sort_by : (xs : List A) → length (sort_by xs) ≡ length xs
  length-sort_by [] = refl
  length-sort_by (x ∷ xs) = length-insert x (sort_by xs) ∙ ap suc (length-sort_by xs)

  pub All-sort_by {κ} : (P : A → Type κ) (xs : List A) → All P xs → All P (sort_by xs)
  All-sort_by P [] h = h
  All-sort_by P (x ∷ xs) h = All-insert P x (sort_by xs) h.0 (All-sort_by P xs h.1)
