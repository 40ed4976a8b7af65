-- ===== src/Cipher/Xor.antt =====
-- Laws of `unmask` on bytes, by evaluation over every byte and key.
use callbook_rs.Prelude.{ℕ, zero, suc, ◌<◌, ◌≡◌, refl, Bool, true, ◌&&◌, ltb, ◌==◌, arith, IsByte}
use callbook_rs.Cipher.{unmask, period}

-- The test holds at every number below the bound.
every_below : (ℕ → Bool) → ℕ → Bool
every_below test zero = true
every_below test (suc bound) = every_below test bound && test bound

every_below_lem :
    (test : ℕ → Bool) (bound i : ℕ) → i < bound → every_below test bound ≡ true → test i ≡ true
unfolding every_below
every_below_lem test zero i lt e = absurd (omega arith)
every_below_lem test (suc bound) i lt e = ground (arith, every_below_lem test bound i)

abbrev good_at : ℕ → ℕ → Bool
good_at k e = unmask k (unmask k e) == e && ltb (unmask k e) 256

unmask_table : every_below (λ k. every_below (good_at k) 256) period ≡ true
unfolding every_below unmask
unmask_table = refl

good_at_lem : (k e : ℕ) → k < period → IsByte e → good_at k e ≡ true
good_at_lem k e hk he =
    every_below_lem (good_at k) 256 e he
      (every_below_lem (λ k. every_below (good_at k) 256) period k hk unmask_table)

pub unmask-unmask : (k e : ℕ) → k < period → IsByte e → unmask k (unmask k e) ≡ e
unmask-unmask k e hk he = ground (arith, good_at_lem k e hk he)

pub unmask-IsByte : (k e : ℕ) → k < period → IsByte e → IsByte (unmask k e)
unmask-IsByte k e hk he = ground (arith, good_at_lem k e hk he)
