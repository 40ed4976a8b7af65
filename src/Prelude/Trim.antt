-- ===== src/Prelude/Trim.antt =====
-- Trimming by a test on the element: the loops and the `position`/`rposition` pairs of the source
-- that drop the longest prefix, and then the longest suffix, whose elements pass the test.
use mathlib.Core.Path.{◌≡◌, refl, ap, ◌∙◌}
use mathlib.Core.Bool.{Bool, false, ◌&&◌}
use mathlib.Core.List.{List, [], ◌∷◌, ◌++◌}
use mathlib.Core.Logic.{inl, inr}
use native.Mathlib.Omega.{arith}
use callbook_rs.Prelude.Tests.{if◌then◌else◌, Bool-cases}
use Prim.Native.Nat.{◌≤◌}
use callbook_rs.Prelude.Lists.{take, drop, length, All, Holds, is_empty}

abbrev pub Fails {ℓ} : {A : Type ℓ} → (A → Bool) → A → Type 0
Fails p x = p x ≡ false

module _ {ℓ} {A : Type ℓ} (p : A → Bool) where
  unfoldable pub trim_start : List A → List A
  trim_start [] = []
  trim_start (x ∷ xs) = if p x then trim_start xs else x ∷ xs

  unfoldable pub trim_end : List A → List A
  trim_end [] = []
  trim_end (x ∷ xs) = let rest = trim_end xs in if is_empty rest && p x then [] else x ∷ rest

  unfoldable pub trim : List A → List A
  trim xs = trim_end (trim_start xs)

  pub trim_start-All {κ} : (P : A → Type κ) (xs : List A) → All P xs → All P (trim_start xs)
  unfolding trim_start
  trim_start-All P [] h = h
  trim_start-All P (x ∷ xs) h = elim (Bool-cases (p x)) [
    | inl e ↦ rw e (trim_start-All P xs h.1)
    | inr e ↦ rw e h
  ]

  pub trim_end-All {κ} : (P : A → Type κ) (xs : List A) → All P xs → All P (trim_end xs)
  unfolding trim_end
  trim_end-All P [] h = h
  trim_end-All P (x ∷ xs) h = elim (Bool-cases (is_empty (trim_end xs) && p x)) [
    | inl e ↦ rw e tt
    | inr e ↦ rw e (h.0, trim_end-All P xs h.1)
  ]

  pub trim_start-Fails : (xs : List A) → All (Fails p) xs → trim_start xs ≡ xs
  unfolding trim_start
  trim_start-Fails [] h = refl
  trim_start-Fails (x ∷ xs) h = ground arith

  pub trim_end-Fails : (xs : List A) → All (Fails p) xs → trim_end xs ≡ xs
  unfolding trim_end
  trim_end-Fails [] h = refl
  trim_end-Fails (x ∷ xs) h = ground (arith, trim_end-Fails xs h.1)

  pub trim_end-Holds : (xs : List A) → All (Holds p) xs → trim_end xs ≡ []
  unfolding trim_end
  trim_end-Holds [] h = refl
  trim_end-Holds (x ∷ xs) h = ground (arith, trim_end-Holds xs h.1)

  -- A suffix of elements that pass the test is dropped.
  pub trim_end-append : (xs ys : List A) → All (Holds p) ys → trim_end (xs ++ ys) ≡ trim_end xs
  unfolding trim_end
  trim_end-append [] ys h = trim_end-Holds ys h
  trim_end-append (x ∷ xs) ys h = rw (trim_end-append xs ys h)

  pub trim_end-trim_end : (xs : List A) → trim_end (trim_end xs) ≡ trim_end xs
  unfolding trim_end
  trim_end-trim_end [] = refl
  trim_end-trim_end (x ∷ xs) = ground (arith, trim_end-trim_end xs)

  -- What is left after trimming starts with an element that fails the test.
  abbrev StartsClean : List A → Type 0
  StartsClean [] = Unit
  StartsClean (x ∷ xs) = p x ≡ false

  trim_start-StartsClean : (xs : List A) → StartsClean (trim_start xs)
  unfolding trim_start
  trim_start-StartsClean [] = tt
  trim_start-StartsClean (x ∷ xs) = elim (Bool-cases (p x)) [
    | inl e ↦ rw e (trim_start-StartsClean xs)
    | inr e ↦ rw e e
  ]

  trim_start-trim_end_clean :
      (xs : List A) → StartsClean xs → trim_start (trim_end xs) ≡ trim_end xs
  unfolding trim_start trim_end
  trim_start-trim_end_clean [] h = refl
  trim_start-trim_end_clean (x ∷ xs) h = ground arith

  pub trim-trim : (xs : List A) → trim (trim xs) ≡ trim xs
  unfolding trim
  trim-trim xs =
      ap trim_end (trim_start-trim_end_clean (trim_start xs) (trim_start-StartsClean xs))
      ∙ trim_end-trim_end (trim_start xs)

  pub trim-All {κ} : (P : A → Type κ) (xs : List A) → All P xs → All P (trim xs)
  unfolding trim
  trim-All P xs h = trim_end-All P (trim_start xs) (trim_start-All P xs h)

  pub trim-Fails : (xs : List A) → All (Fails p) xs → trim xs ≡ xs
  unfolding trim
  trim-Fails xs h = ap trim_end (trim_start-Fails xs h) ∙ trim_end-Fails xs h

  -- What `trim_end` drops passes the test, and what it keeps is a prefix.
  pub drop-trim_end : (xs : List A) → All (Holds p) (drop (length (trim_end xs)) xs)
  unfolding trim_end
  drop-trim_end [] = tt
  drop-trim_end (x ∷ xs) = ground (arith, drop-trim_end xs)

  pub take-trim_end : (xs : List A) → take (length (trim_end xs)) xs ≡ trim_end xs
  unfolding trim_end
  take-trim_end [] = refl
  take-trim_end (x ∷ xs) = ground (arith, take-trim_end xs)

  pub length-trim_end : (xs : List A) → length (trim_end xs) ≤ length xs
  unfolding trim_end
  length-trim_end [] = omega arith
  length-trim_end (x ∷ xs) = ground (arith, length-trim_end xs)
