-- ===== src/Prelude/Order.antt =====
-- The order of byte strings (`[u8]::cmp`, which is also `str::cmp`): lexicographic.
use mathlib.Core.Path.{◌≡◌, refl}
use mathlib.Core.Bool.{Bool, true, false, ◌&&◌, ◌||◌, not}
use mathlib.Core.List.{[], ◌∷◌}
use native.Mathlib.Omega.{arith}
use callbook_rs.Prelude.Tests.{ltb, ◌==◌}
use callbook_rs.Prelude.Ascii.{Bytes, starts_with}

unfoldable pub lt_bytes : Bytes → Bytes → Bool
lt_bytes xs [] = false
lt_bytes [] (y ∷ ys) = true
lt_bytes (x ∷ xs) (y ∷ ys) = ltb x y || (x == y && lt_bytes xs ys)

abbrev pub le_bytes : Bytes → Bytes → Bool
le_bytes xs ys = not (lt_bytes ys xs)

pub lt_bytes_irrefl : (xs : Bytes) → lt_bytes xs xs ≡ false
unfolding lt_bytes
lt_bytes_irrefl [] = refl
lt_bytes_irrefl (x ∷ xs) = ground (arith, lt_bytes_irrefl xs)

pub lt_bytes_trans :
    (xs ys zs : Bytes) → lt_bytes xs ys ≡ true → lt_bytes ys zs ≡ true → lt_bytes xs zs ≡ true
unfolding lt_bytes
lt_bytes_trans xs [] zs h k = ground arith
lt_bytes_trans xs (y ∷ ys) [] h k = ground arith
lt_bytes_trans [] (y ∷ ys) (z ∷ zs) h k = refl
lt_bytes_trans (x ∷ xs) (y ∷ ys) (z ∷ zs) h k = ground (arith, lt_bytes_trans xs ys zs)

pub lt_bytes_connex : (xs ys : Bytes) → lt_bytes xs ys ≡ false → lt_bytes ys xs ≡ false → xs ≡ ys
unfolding lt_bytes
lt_bytes_connex [] [] h k = refl
lt_bytes_connex [] (y ∷ ys) h k = ground arith
lt_bytes_connex (x ∷ xs) [] h k = ground arith
lt_bytes_connex (x ∷ xs) (y ∷ ys) h k = ground (arith, lt_bytes_connex xs ys)

pub lt_bytes_asym : (xs ys : Bytes) → lt_bytes xs ys ≡ true → lt_bytes ys xs ≡ false
unfolding lt_bytes
lt_bytes_asym xs [] h = ground arith
lt_bytes_asym [] (y ∷ ys) h = refl
lt_bytes_asym (x ∷ xs) (y ∷ ys) h = ground (arith, lt_bytes_asym xs ys)

-- `xs ≤ ys < zs` gives `xs < zs`, and `xs < ys ≤ zs` gives `xs < zs`.
pub le_lt_trans :
    (xs ys zs : Bytes) → lt_bytes ys xs ≡ false → lt_bytes ys zs ≡ true → lt_bytes xs zs ≡ true
unfolding lt_bytes
le_lt_trans xs ys [] h k = ground arith
le_lt_trans [] ys (z ∷ zs) h k = refl
le_lt_trans (x ∷ xs) [] (z ∷ zs) h k = ground arith
le_lt_trans (x ∷ xs) (y ∷ ys) (z ∷ zs) h k = ground (arith, le_lt_trans xs ys zs)

pub lt_le_trans :
    (xs ys zs : Bytes) → lt_bytes xs ys ≡ true → lt_bytes zs ys ≡ false → lt_bytes xs zs ≡ true
unfolding lt_bytes
lt_le_trans xs [] zs h k = ground arith
lt_le_trans xs (y ∷ ys) [] h k = ground arith
lt_le_trans [] (y ∷ ys) (z ∷ zs) h k = refl
lt_le_trans (x ∷ xs) (y ∷ ys) (z ∷ zs) h k = ground (arith, lt_le_trans xs ys zs)

pub le_trans_bytes :
    (xs ys zs : Bytes) → lt_bytes ys xs ≡ false → lt_bytes zs ys ≡ false → lt_bytes zs xs ≡ false
unfolding lt_bytes
le_trans_bytes [] ys zs h k = ground arith
le_trans_bytes (x ∷ xs) [] zs h k = ground arith
le_trans_bytes (x ∷ xs) (y ∷ ys) [] h k = ground arith
le_trans_bytes (x ∷ xs) (y ∷ ys) (z ∷ zs) h k = ground (arith, le_trans_bytes xs ys zs)

-- A string is not below its own prefix.
pub le-starts_with : (k p : Bytes) → starts_with k p ≡ true → lt_bytes k p ≡ false
unfolding lt_bytes starts_with
le-starts_with k [] h = refl
le-starts_with [] (y ∷ p) h = ground arith
le-starts_with (x ∷ k) (y ∷ p) h = ground (arith, le-starts_with k p)

-- The strings that start with `p` are an interval of the order: from `p ≤ k ≤ m`, if `m` starts
-- with `p` then so does `k`.
pub starts_with_interval :
    (p k m : Bytes)
    → lt_bytes k p ≡ false
    → lt_bytes m k ≡ false
    → starts_with m p ≡ true
    → starts_with k p ≡ true
unfolding lt_bytes starts_with
starts_with_interval [] k m h g e = refl
starts_with_interval (y ∷ p) [] m h g e = ground arith
starts_with_interval (y ∷ p) (x ∷ k) [] h g e = ground arith
starts_with_interval (y ∷ p) (x ∷ k) (z ∷ m) h g e = ground (arith, starts_with_interval p k m)
