-- ===== src/Prelude/Search.antt =====
-- `slice::partition_point`: binary search for the end of the prefix whose elements pass a test.
use Prim.Native.Nat.{ℕ, zero, suc, ◌+◌, ◌-◌, ◌/◌, ◌≤◌, ◌<◌}
use mathlib.Core.Path.{◌≡◌, refl, ap, ◌∙◌}
use mathlib.Core.Bool.{Bool, true, false, not}
use mathlib.Core.List.{List, [], ◌∷◌}
use mathlib.Core.Logic.{inl, inr}
use mathlib.Core.Option.{none, some}
use native.Mathlib.Omega.{arith}
use callbook_rs.Prelude.Tests.{ltb, Bool-cases}
use callbook_rs.Prelude.Lists.{length, get_elem?, drop, filter, All}
use callbook_rs.Prelude.Trim.{Fails}

-- One round halves `lo..hi`; the fuel is a bound on the width of the range.
unfoldable pub bisect : ℕ → (ℕ → Bool) → ℕ → ℕ → ℕ
bisect zero test lo hi = lo
bisect (suc fuel) test lo hi =
    let mid = lo + (hi - lo) / 2 in
    elim (ltb lo hi) [
      | true ↦ elim (test mid) [
        | true ↦ bisect fuel test (mid + 1) hi
        | false ↦ bisect fuel test lo mid
      ]
      | false ↦ lo
    ]

-- If the test passes below `k` and fails from `k` on, the search ends at `k`.
pub bisect_lem :
    (fuel k : ℕ) (test : ℕ → Bool) (lo hi : ℕ)
    → lo ≤ k
    → k ≤ hi
    → hi - lo < fuel
    → ((i : ℕ) → i < k → test i ≡ true)
    → ((i : ℕ) → k ≤ i → i < hi → test i ≡ false)
    → bisect fuel test lo hi ≡ k
unfolding bisect
bisect_lem zero k test lo hi p q m below above = absurd (omega arith)
bisect_lem (suc fuel) k test lo hi p q m below above =
    let mid = lo + (hi - lo) / 2 in
    ground (
      arith,
      below mid,
      above mid,
      bisect_lem fuel k test (mid + 1) hi,
      bisect_lem fuel k test lo mid,
    )

module _ {ℓ} {A : Type ℓ} (p : A → Bool) where
  abbrev test_at : List A → ℕ → Bool
  test_at xs i = elim (get_elem? xs i) [ none ↦ false | some x ↦ p x ]

  unfoldable pub partition_point : List A → ℕ
  unfolding bisect
  partition_point xs = bisect (suc (length xs)) (test_at xs) 0 (length xs)

  -- All that pass the test stand in front of all that fail it.
  abbrev pub IsPartitioned : List A → Type 0
  IsPartitioned [] = Unit
  IsPartitioned (x ∷ xs) = (p x ≡ false → All (Fails p) xs) × IsPartitioned xs

  abbrev passing : List A → ℕ
  passing xs = length (filter p xs)

  pub filter-Fails : (xs : List A) → All (Fails p) xs → filter p xs ≡ []
  filter-Fails [] h = refl
  filter-Fails (x ∷ xs) h = ground (arith, filter-Fails xs h.1)

  passing-le : (xs : List A) → passing xs ≤ length xs
  passing-le [] = omega arith
  passing-le (x ∷ xs) = ground (arith, passing-le xs)

  test_at-Fails : (xs : List A) (i : ℕ) → All (Fails p) xs → test_at xs i ≡ false
  test_at-Fails [] i h = refl
  test_at-Fails (x ∷ xs) zero h = h.0
  test_at-Fails (x ∷ xs) (suc i) h = test_at-Fails xs i h.1

  test_at_below : (xs : List A) (i : ℕ) → IsPartitioned xs → i < passing xs → test_at xs i ≡ true
  test_at_below [] i h lt = absurd (omega arith)
  test_at_below (x ∷ xs) zero h lt = elim (Bool-cases (p x)) [
    | inl e ↦ e
    | inr e ↦ absurd (ground (arith, filter-Fails xs (h.0 e)))
  ]
  test_at_below (x ∷ xs) (suc i) h lt = elim (Bool-cases (p x)) [
    | inl e ↦ test_at_below xs i h.1 (ground arith)
    | inr e ↦ absurd (ground (arith, filter-Fails xs (h.0 e)))
  ]

  test_at_above : (xs : List A) (i : ℕ) → IsPartitioned xs → passing xs ≤ i → test_at xs i ≡ false
  test_at_above [] i h le = refl
  test_at_above (x ∷ xs) zero h le = ground arith
  test_at_above (x ∷ xs) (suc i) h le = elim (Bool-cases (p x)) [
    | inl e ↦ test_at_above xs i h.1 (ground arith)
    | inr e ↦ test_at-Fails xs i (h.0 e)
  ]

  pub partition_point_lem :
      (xs : List A) → IsPartitioned xs → partition_point xs ≡ length (filter p xs)
  unfolding partition_point
  partition_point_lem xs h =
      bisect_lem (suc (length xs)) (passing xs) (test_at xs) 0 (length xs) (omega arith)
        (passing-le xs) (omega arith) (λ i lt. test_at_below xs i h lt)
        (λ i le _. test_at_above xs i h le)

  filter-not-Fails : (xs : List A) → All (Fails p) xs → filter (λ x. not (p x)) xs ≡ xs
  filter-not-Fails [] h = refl
  filter-not-Fails (x ∷ xs) h = ground (arith, filter-not-Fails xs h.1)

  drop-passing :
      (xs : List A) → IsPartitioned xs → drop (passing xs) xs ≡ filter (λ x. not (p x)) xs
  drop-passing [] h = refl
  drop-passing (x ∷ xs) h = elim (Bool-cases (p x)) [
    | inl e ↦ rw e (drop-passing xs h.1)
    | inr e ↦ rw (e, filter-Fails xs (h.0 e)) (rw (filter-not-Fails xs (h.0 e)))
  ]

  -- On a partitioned list, what stands from the partition point on is what fails the test.
  pub drop-partition_point :
      (xs : List A) → IsPartitioned xs → drop (partition_point xs) xs ≡ filter (λ x. not (p x)) xs
  drop-partition_point xs h = ap (λ n. drop n xs) (partition_point_lem xs h) ∙ drop-passing xs h
