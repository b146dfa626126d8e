-- ===== src/Prelude/Count.antt =====
-- Counting and filtering by a Boolean test: what a list holds, whatever its order.
use Prim.Native.Nat.{◌≤◌, ◌<◌, ◌+◌}
use mathlib.Core.Path.{◌≡◌, refl, sym, ◌∙◌}
use mathlib.Core.Logic.{◌⊎◌, inl, inr}
use mathlib.Core.List.{List, [], ◌∷◌, ◌++◌}
use mathlib.Core.Bool.{Bool, true, false, not, ◌&&◌}
use native.Mathlib.Omega.{arith}
use epoller.Prelude.Tests.{Bool-cases}
use epoller.Prelude.Lists.{length, keep_if, count_if}

module _ {A : Type 0} where
  -- Membership, by recursion.
  abbrev pub In : A → List A → Type 0
  In a [] = ⊥
  In a (x ∷ xs) = (a ≡ x) ⊎ In a xs

  pub length-count_if : (xs : List A) → length xs ≡ count_if (λ _. true) xs
  length-count_if [] = refl
  length-count_if (x ∷ xs) = omega (arith, length-count_if xs)

  pub count_if-append :
      (p : A → Bool) (xs ys : List A) → count_if p (xs ++ ys) ≡ count_if p xs + count_if p ys
  count_if-append p [] ys = omega arith
  count_if-append p (x ∷ xs) ys = ground (arith, count_if-append p xs ys)

  pub count_if-keep_if :
      (p f : A → Bool) (xs : List A) → count_if p (keep_if f xs) ≡ count_if (λ x. f x && p x) xs
  count_if-keep_if p f [] = refl
  count_if-keep_if p f (x ∷ xs) = ground (arith, count_if-keep_if p f xs)

  pub count_if-keep_if_le :
      (p f : A → Bool) (xs : List A) → count_if p (keep_if f xs) ≤ count_if p xs
  count_if-keep_if_le p f [] = omega arith
  count_if-keep_if_le p f (x ∷ xs) = ground (arith, count_if-keep_if_le p f xs)

  pub keep_if-keep_if :
      (p f : A → Bool) (xs : List A) → keep_if p (keep_if f xs) ≡ keep_if (λ x. f x && p x) xs
  keep_if-keep_if p f [] = refl
  keep_if-keep_if p f (x ∷ xs) = ground (arith, keep_if-keep_if p f xs)

  pub keep_if_ext :
      (p q : A → Bool) (xs : List A) → ((a : A) → In a xs → p a ≡ q a) → keep_if p xs ≡ keep_if q xs
  keep_if_ext p q [] h = refl
  keep_if_ext p q (x ∷ xs) h =
      ground (arith, h x (inl refl), keep_if_ext p q xs (λ a i. h a (inr i)))

  pub count_if_ext :
      (p q : A → Bool) (xs : List A)
      → ((a : A) → In a xs → p a ≡ q a)
      → count_if p xs ≡ count_if q xs
  count_if_ext p q [] h = refl
  count_if_ext p q (x ∷ xs) h =
      ground (arith, h x (inl refl), count_if_ext p q xs (λ a i. h a (inr i)))

  pub keep_if_none :
      (p : A → Bool) (xs : List A) → count_if p xs ≡ 0 → keep_if (λ x. not (p x)) xs ≡ xs
  keep_if_none p [] h = refl
  keep_if_none p (x ∷ xs) h = ground (arith, keep_if_none p xs)

  pub count_if_pos : (p : A → Bool) (xs : List A) (a : A) → In a xs → p a ≡ true → 0 < count_if p xs
  count_if_pos p [] a i h = absurd i
  count_if_pos p (x ∷ xs) a (inl e) h = ground arith
  count_if_pos p (x ∷ xs) a (inr i) h = ground (arith, count_if_pos p xs a i h)

  pub In-count_if :
      (p : A → Bool) (xs : List A) → 0 < count_if p xs → (a : A) × In a xs × (p a ≡ true)
  In-count_if p [] h = absurd (omega arith)
  In-count_if p (x ∷ xs) h = elim (Bool-cases (p x)) [
    | inl hit ↦ (x, inl refl, hit)
    | inr miss ↦ let (a, i, e) = In-count_if p xs (ground arith) in (a, inr i, e)
  ]

  pub keep_if_all : (p : A → Bool) (xs : List A) → ((a : A) → p a ≡ true) → keep_if p xs ≡ xs
  keep_if_all p [] h = refl
  keep_if_all p (x ∷ xs) h = ground (arith, h x, keep_if_all p xs h)

  pub count_if-false : (xs : List A) → count_if (λ _. false) xs ≡ 0
  count_if-false [] = refl
  count_if-false (x ∷ xs) = ground (arith, count_if-false xs)

  -- Two elements that pass a test which at most one passes are the same.
  pub count_if_unique :
      (p : A → Bool) (xs : List A) (a b : A)
      → count_if p xs ≤ 1
      → In a xs
      → In b xs
      → p a ≡ true
      → p b ≡ true
      → a ≡ b
  count_if_unique p [] a b h i j pa pb = absurd i
  count_if_unique p (x ∷ xs) a b h (inl e) (inl f) pa pb = e ∙ sym f
  count_if_unique p (x ∷ xs) a b h (inl e) (inr j) pa pb =
      absurd (ground (arith, count_if_pos p xs b j pb))
  count_if_unique p (x ∷ xs) a b h (inr i) (inl f) pa pb =
      absurd (ground (arith, count_if_pos p xs a i pa))
  count_if_unique p (x ∷ xs) a b h (inr i) (inr j) pa pb =
      count_if_unique p xs a b (ground arith) i j pa pb
