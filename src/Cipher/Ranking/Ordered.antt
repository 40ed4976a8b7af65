-- ===== src/Cipher/Ranking/Ordered.antt =====
-- The order of `decode_candidates` of v2_dat.rs, and the candidates it holds.
use callbook_rs.Prelude.{
  All, Bool, Bool-cases, Bytes, List, [], any, ap, arith, false, inl, inr, ltb, map, not, refl,
  subst, sym, true, zero, ℕ, ◌&&◌, ◌+◌, ◌<◌, ◌^◌, ◌||◌, ◌∙◌, ◌∷◌, ◌≡◌, ◌⊎◌,
}
use callbook_rs.Cipher.Score.{raised, score_candidate, score_candidate-lt, i32_lt-raised}
use callbook_rs.Cipher.{decode_phase, suc}
use callbook_rs.Cipher.Ranking.{
  DecodedV2Candidate, candidate_of, ranks_before, insert_ranked, sort_ranked, phases_from,
  rank_phases, decode_candidates,
}

-- `c` stands before `d`: its score is the higher integer, or it is the same and its phase is lower.
abbrev pub Precedes : DecodedV2Candidate → DecodedV2Candidate → Type 0
Precedes c d =
    (raised d.score < raised c.score) ⊎ (raised c.score ≡ raised d.score) × (c.phase < d.phase)

-- Each candidate precedes all that follow it.
abbrev pub Ranked : List DecodedV2Candidate → Type 0
Ranked [] = Unit
Ranked (c ∷ cs) = All (Precedes c) cs × Ranked cs

abbrev Fits : DecodedV2Candidate → Type 0
Fits c = c.score < 2 ^ 32

-- Of a higher phase than `c`.
abbrev IsAbove : DecodedV2Candidate → DecodedV2Candidate → Type 0
IsAbove c d = (c.phase < d.phase) × Fits d

-- By rising phase.
abbrev Rising : List DecodedV2Candidate → Type 0
Rising [] = Unit
Rising (c ∷ cs) = Fits c × All (IsAbove c) cs × Rising cs

ranks_before-raised :
    (a b : DecodedV2Candidate)
    → Fits a
    → Fits b
    → ranks_before a b ≡ (
        ltb (raised b.score) (raised a.score)
        || not (ltb (raised a.score) (raised b.score)) && ltb a.phase b.phase)
unfolding ranks_before
ranks_before-raised a b ha hb =
    rw (i32_lt-raised b.score a.score hb ha, i32_lt-raised a.score b.score ha hb) refl

ranks_before-Precedes :
    (a b : DecodedV2Candidate) → Fits a → Fits b → ranks_before a b ≡ true → Precedes a b
ranks_before-Precedes a b ha hb h = let e = sym (ranks_before-raised a b ha hb) ∙ h in ground arith

-- What does not rank before a candidate of a lower phase follows it.
not_before-Precedes :
    (a b : DecodedV2Candidate) → Fits b → IsAbove b a → ranks_before a b ≡ false → Precedes b a
not_before-Precedes a b hb (lt, ha) h =
    let e = sym (ranks_before-raised a b ha hb) ∙ h in ground arith

Precedes-trans : (a b c : DecodedV2Candidate) → Precedes a b → Precedes b c → Precedes a c
Precedes-trans a b c (inl h) (inl k) = inl (omega arith)
Precedes-trans a b c (inl h) (inr k) = inl (omega (arith, k.0))
Precedes-trans a b c (inr h) (inl k) = inl (omega (arith, h.0))
Precedes-trans a b c (inr h) (inr k) = inr (omega (arith, h.0, k.0), omega (arith, h.1, k.1))

All-Precedes :
    (a b : DecodedV2Candidate) (cs : List DecodedV2Candidate)
    → Precedes a b
    → All (Precedes b) cs
    → All (Precedes a) cs
All-Precedes a b [] h k = tt
All-Precedes a b (c ∷ cs) h (k, ks) = (Precedes-trans a b c h k, All-Precedes a b cs h ks)

insert_ranked-All :
    (P : DecodedV2Candidate → Type 0) (c : DecodedV2Candidate) (cs : List DecodedV2Candidate)
    → P c
    → All P cs
    → All P (insert_ranked c cs)
unfolding insert_ranked
insert_ranked-All P c [] h hs = (h, tt)
insert_ranked-All P c (d ∷ ds) h (k, ks) = elim (Bool-cases (ranks_before d c)) [
  | inl e ↦ rw e (k, insert_ranked-All P c ds h ks)
  | inr e ↦ rw e (h, (k, ks))
]

sort_ranked-All :
    (P : DecodedV2Candidate → Type 0) (cs : List DecodedV2Candidate)
    → All P cs
    → All P (sort_ranked cs)
unfolding sort_ranked
sort_ranked-All P [] h = tt
sort_ranked-All P (c ∷ cs) (h, hs) =
    insert_ranked-All P c (sort_ranked cs) h (sort_ranked-All P cs hs)

insert_ranked-Ranked :
    (c : DecodedV2Candidate) (cs : List DecodedV2Candidate)
    → Fits c
    → All (IsAbove c) cs
    → Ranked cs
    → Ranked (insert_ranked c cs)
unfolding insert_ranked
insert_ranked-Ranked c [] fits above h = (tt, tt)
insert_ranked-Ranked c (d ∷ ds) fits (above, more) (h, hs) = elim (Bool-cases (ranks_before d c)) [
  | inl e ↦ rw e (
    insert_ranked-All (Precedes d) c ds (ranks_before-Precedes d c above.1 fits e) h,
    insert_ranked-Ranked c ds fits more hs,
  )
  | inr e ↦
      let first = not_before-Precedes d c fits above e in
      rw e ((first, All-Precedes c d ds first h), (h, hs))
]

sort_ranked-Ranked : (cs : List DecodedV2Candidate) → Rising cs → Ranked (sort_ranked cs)
unfolding sort_ranked
sort_ranked-Ranked [] h = tt
sort_ranked-Ranked (c ∷ cs) (fits, above, h) =
    insert_ranked-Ranked c (sort_ranked cs) fits (sort_ranked-All (IsAbove c) cs above)
      (sort_ranked-Ranked cs h)

any-insert_ranked :
    (p : DecodedV2Candidate → Bool) (c : DecodedV2Candidate) (cs : List DecodedV2Candidate)
    → any p (insert_ranked c cs) ≡ (p c || any p cs)
unfolding insert_ranked
any-insert_ranked p c [] = refl
any-insert_ranked p c (d ∷ ds) = elim (Bool-cases (ranks_before d c)) [
  | inl e ↦ rw (e, any-insert_ranked p c ds) (or_swap (p d) (p c) (any p ds))
  | inr e ↦ rw e refl
]
  where
    or_swap : (a b c : Bool) → (a || (b || c)) ≡ (b || (a || c))
    or_swap a b c = ground arith

any-sort_ranked :
    (p : DecodedV2Candidate → Bool) (cs : List DecodedV2Candidate)
    → any p (sort_ranked cs) ≡ any p cs
unfolding sort_ranked
any-sort_ranked p [] = refl
any-sort_ranked p (c ∷ cs) =
    any-insert_ranked p c (sort_ranked cs) ∙ ap (λ b. p c || b) (any-sort_ranked p cs)

any-map :
    (p : DecodedV2Candidate → Bool) (f : ℕ → DecodedV2Candidate) (xs : List ℕ)
    → any p (map f xs) ≡ any (λ x. p (f x)) xs
any-map p f [] = refl
any-map p f (x ∷ xs) = ap (λ b. p (f x) || b) (any-map p f xs)

decode_candidates-rank_phases :
    (dat_offset : ℕ) (raw_bytes idx_key : Bytes)
    → decode_candidates dat_offset raw_bytes idx_key ≡ rank_phases 101 dat_offset raw_bytes idx_key
unfolding decode_candidates
decode_candidates-rank_phases dat_offset raw_bytes idx_key = refl

module _ (dat_offset : ℕ) (raw_bytes idx_key : Bytes) where
  -- The decoding with a phase, and its score.
  abbrev pub decoding : ℕ → DecodedV2Candidate
  decoding phase = record {
    phase = phase;
    bytes = decode_phase dat_offset raw_bytes phase;
    score = score_candidate (decode_phase dat_offset raw_bytes phase) idx_key;
  }

  All-phases_from :
      (c : DecodedV2Candidate) (n from : ℕ)
      → c.phase < from
      → All (IsAbove c) (map decoding (phases_from n from))
  All-phases_from c zero from h = tt
  All-phases_from c (suc n) from h = (
    (h, score_candidate-lt (decode_phase dat_offset raw_bytes from) idx_key),
    All-phases_from c n (from + 1) (omega arith),
  )

  phases_from-Rising : (n from : ℕ) → Rising (map decoding (phases_from n from))
  phases_from-Rising zero from = tt
  phases_from-Rising (suc n) from = (
    score_candidate-lt (decode_phase dat_offset raw_bytes from) idx_key,
    All-phases_from (decoding from) n (from + 1) (omega arith),
    phases_from-Rising n (from + 1),
  )

  rank_phases-Ranked :
      (n : ℕ) (p : DecodedV2Candidate → Bool)
      → Ranked (rank_phases n dat_offset raw_bytes idx_key)
        × (any p (rank_phases n dat_offset raw_bytes idx_key)
            ≡ any (λ phase. p (decoding phase)) (phases_from n 0))
  unfolding rank_phases candidate_of
  rank_phases-Ranked n p =
      let found = map decoding (phases_from n 0) in
      (
        sort_ranked-Ranked found (phases_from-Rising n 0),
        any-sort_ranked p found ∙ any-map p decoding (phases_from n 0),
      )

  -- The candidates stand by falling score, read as an integer, and those of the same score by
  -- rising phase; and for every property, there is one with it among them exactly where one of the
  -- phases 0 to 100, with the bytes it decodes to and their score, has it.
  pub decode_candidates-Ranked :
      (p : DecodedV2Candidate → Bool)
      → Ranked (decode_candidates dat_offset raw_bytes idx_key)
        × (any p (decode_candidates dat_offset raw_bytes idx_key)
            ≡ any (λ phase. p (decoding phase)) (phases_from 101 0))
  decode_candidates-Ranked p =
      subst (λ cs. Ranked cs × (any p cs ≡ any (λ phase. p (decoding phase)) (phases_from 101 0)))
        (sym (decode_candidates-rank_phases dat_offset raw_bytes idx_key))
        (rank_phases-Ranked 101 p)
