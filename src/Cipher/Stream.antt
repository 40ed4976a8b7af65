-- ===== src/Cipher/Stream.antt =====
-- The block loop of `decode_phase_into` against the byte-by-byte decoding.
use callbook_rs.Prelude.{
  ℕ, zero, suc, ◌+◌, ◌-◌, ◌*◌, ◌/◌, ◌%◌, ◌^◌, ◌≤◌, ◌<◌, ◌≡◌, ◌⊎◌, inl, inr, refl, sym, ap, ◌∙◌,
  Bytes, [], ◌∷◌, ◌++◌, min, length, take, drop, length-take, length-drop, take-append-drop, arith,
  IsByte, All, ltb, Bool-cases, ltb→le, ltb→lt, ap₂,
}
use callbook_rs.Cipher.{
  period, unmask, decode_dat_byte, start_key, unmask_run, decode_blocks, decode_phase,
  phase_for_dat_offset, decode_from,
}
use callbook_rs.Cipher.Xor.{unmask-unmask, unmask-IsByte}

pub decode_from-append :
    (o : ℕ) (xs ys : Bytes)
    → decode_from o (xs ++ ys) ≡ decode_from o xs ++ decode_from (o + length xs) ys
unfolding decode_from
decode_from-append o [] ys = let e : o + 0 ≡ o = omega arith in rw e
decode_from-append o (x ∷ xs) ys =
    let e : o + 1 + length xs ≡ o + suc (length xs) = omega arith in
    rw (decode_from-append (o + 1) xs ys, e)

pub length-decode_from : (o : ℕ) (xs : Bytes) → length (decode_from o xs) ≡ length xs
unfolding decode_from
length-decode_from o [] = refl
length-decode_from o (x ∷ xs) = ap suc (length-decode_from (o + 1) xs)

-- Decoding a decoded byte string again gives it back: the stream is its own inverse.
pub decode_from-decode_from :
    (o : ℕ) (xs : Bytes) → All IsByte xs → decode_from o (decode_from o xs) ≡ xs
unfolding decode_from decode_dat_byte
decode_from-decode_from o [] h = refl
decode_from-decode_from o (x ∷ xs) h =
    ap₂ ◌∷◌ (unmask-unmask ((o + 4) % period) x (omega arith) h.0)
      (decode_from-decode_from (o + 1) xs h.1)

pub decode_from-IsByte : (o : ℕ) (xs : Bytes) → All IsByte xs → All IsByte (decode_from o xs)
unfolding decode_from decode_dat_byte
decode_from-IsByte o [] h = tt
decode_from-IsByte o (x ∷ xs) h =
    (unmask-IsByte ((o + 4) % period) x (omega arith) h.0, decode_from-IsByte (o + 1) xs h.1)

unmask_run-decode_from :
    (o q key : ℕ) (bs : Bytes)
    → o + 4 ≡ q * 101 + key
    → key + length bs ≤ 101
    → unmask_run key bs ≡ decode_from o bs
unfolding unmask_run decode_from decode_dat_byte
unmask_run-decode_from o q key [] e fits = refl
unmask_run-decode_from o q key (b ∷ bs) e fits =
    let e' : key % 2 ^ 8 ≡ (o + 4) % 101 = omega arith in
    ap₂ ◌∷◌ (ap (λ k. unmask k b) e')
      (unmask_run-decode_from (o + 1) q (key + 1) bs (omega arith) (omega arith))

drop_all : (n : ℕ) (bs : Bytes) → length bs ≤ n → drop n bs ≡ []
drop_all zero [] h = refl
drop_all zero (b ∷ bs) h = absurd (omega arith)
drop_all (suc n) [] h = refl
drop_all (suc n) (b ∷ bs) h = drop_all n bs (omega arith)

take_all : (n : ℕ) (bs : Bytes) → length bs ≤ n → take n bs ≡ bs
take_all zero [] h = refl
take_all zero (b ∷ bs) h = absurd (omega arith)
take_all (suc n) [] h = refl
take_all (suc n) (b ∷ bs) h = ap (λ r. b ∷ r) (take_all n bs (omega arith))

-- One round of the loop over the whole remaining slice `bs`.
decode_block :
    (o q key : ℕ) (bs : Bytes)
    → o + 4 ≡ q * 101 + key
    → key < 101
    → unmask_run key (take (min (period - key) (length bs)) bs)
      ≡ decode_from o (take (min (period - key) (length bs)) bs)
decode_block o q key bs e lt =
    unmask_run-decode_from o q key (take (min (period - key) (length bs)) bs) e
      (omega (arith, length-take {0} (min (period - key) (length bs)) bs))

decode_blocks-nil : (fuel key : ℕ) → decode_blocks fuel key [] ≡ []
unfolding decode_blocks
decode_blocks-nil zero key = refl
decode_blocks-nil (suc fuel) key = refl

-- What is left after one round is empty, or starts a new period.
block_end :
    (o q key : ℕ) (bs : Bytes) (n : ℕ)
    → o + 4 ≡ q * 101 + key
    → key < 101
    → n ≡ min (period - key) (length bs)
    → (drop n bs ≡ []) ⊎ (o + n + 4 ≡ (q + 1) * 101 + 0)
block_end o q key bs n e lt en = elim (Bool-cases (ltb (period - key) (length bs))) [
  | inl more ↦ inr (omega (arith, ltb→lt (period - key) (length bs) more))
  | inr last ↦ inl (drop_all n bs (omega (arith, ltb→le (period - key) (length bs) last)))
]

decode_blocks-decode_from :
    (fuel o q key : ℕ) (bs : Bytes)
    → o + 4 ≡ q * 101 + key
    → key < 101
    → length bs ≤ fuel
    → decode_blocks fuel key bs ≡ decode_from o bs
unfolding decode_blocks
decode_blocks-decode_from zero o q key [] e lt fits = unfold decode_from in refl
decode_blocks-decode_from (suc fuel) o q key [] e lt fits = unfold decode_from in refl
decode_blocks-decode_from zero o q key (b ∷ bs) e lt fits = absurd (omega arith)
decode_blocks-decode_from (suc fuel) o q key (b ∷ bs) e lt fits =
    let n : ℕ = min (period - key) (length (b ∷ bs)) in
    let len : length (take n (b ∷ bs)) ≡ n = omega (arith, length-take {0} n (b ∷ bs)) in
    let rest : decode_blocks fuel 0 (drop n (b ∷ bs)) ≡ decode_from (o + n) (drop n (b ∷ bs)) =
      elim (block_end o q key (b ∷ bs) n e lt refl) [
        | inl none_left ↦ rw none_left (decode_blocks-nil fuel 0 ∙ unfold decode_from in refl)
        | inr next ↦
            decode_blocks-decode_from fuel (o + n) (q + 1) 0 (drop n (b ∷ bs)) next (omega arith)
              (omega (arith, length-drop {0} n (b ∷ bs)))
      ] in
    ap₂ ◌++◌ (decode_block o q key (b ∷ bs) e lt) rest
    ∙ ap (λ l. decode_from o (take n (b ∷ bs)) ++ decode_from (o + l) (drop n (b ∷ bs))) (sym len)
    ∙ sym (decode_from-append o (take n (b ∷ bs)) (drop n (b ∷ bs)))
    ∙ ap (decode_from o) (take-append-drop n (b ∷ bs))

-- For a file offset below 2^63 the phase that the offset implies starts the stream at the key of
-- that absolute position.
start_key-phase : (o : ℕ) → o < 2 ^ 63 → start_key o (phase_for_dat_offset o) ≡ (o + 4) % 101
unfolding start_key phase_for_dat_offset
start_key-phase o h = ground arith

-- `decode_phase` with the phase of the slice's own offset decodes each byte by its absolute
-- position, as `decode_dat_byte` does, whatever the slice; offsets are below 2^63.
pub decode_phase-decode_from :
    (o : ℕ) (raw : Bytes)
    → o < 2 ^ 63
    → decode_phase o raw (phase_for_dat_offset o) ≡ decode_from o raw
unfolding decode_phase
decode_phase-decode_from o raw h =
    decode_blocks-decode_from (length raw) o ((o + 4) / 101) (start_key o (phase_for_dat_offset o))
      raw (omega (arith, start_key-phase o h)) (omega (arith, start_key-phase o h)) (omega arith)

start_key-lt : (o phase : ℕ) → start_key o phase < 101
unfolding start_key
start_key-lt o phase = ground arith

-- Any phase decodes as at some absolute position.
decode_phase_as_from :
    (o phase : ℕ) (raw : Bytes)
    → decode_phase o raw phase ≡ decode_from (start_key o phase + 97) raw
unfolding decode_phase
decode_phase_as_from o phase raw =
    decode_blocks-decode_from (length raw) (start_key o phase + 97) 1 (start_key o phase) raw
      (omega arith) (start_key-lt o phase) (omega arith)

pub length-decode_phase :
    (o phase : ℕ) (raw : Bytes) → length (decode_phase o raw phase) ≡ length raw
length-decode_phase o phase raw =
    ap length (decode_phase_as_from o phase raw) ∙ length-decode_from (start_key o phase + 97) raw

-- Decoding with any offset and phase is its own inverse on byte strings, so the same function
-- encodes.
pub decode_phase-decode_phase :
    (o phase : ℕ) (raw : Bytes)
    → All IsByte raw
    → decode_phase o (decode_phase o raw phase) phase ≡ raw
decode_phase-decode_phase o phase raw h =
    ap (λ t. decode_phase o t phase) (decode_phase_as_from o phase raw)
    ∙ decode_phase_as_from o phase (decode_from (start_key o phase + 97) raw)
    ∙ decode_from-decode_from (start_key o phase + 97) raw h
