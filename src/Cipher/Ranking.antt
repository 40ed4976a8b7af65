-- ===== src/Cipher/Ranking.antt =====
-- `decode_candidates` and `best_candidate` of v2_dat.rs.
pub mod Ordered
use callbook_rs.Prelude.{
  All, Bool, Bool-cases, Bytes, List, Option, [], any, ap, arith, false, if◌then◌else◌, inl, inr,
  ltb, map, not, refl, some, subst, sym, true, zero, ℕ, ◌&&◌, ◌+◌, ◌<◌, ◌^◌, ◌||◌, ◌∙◌, ◌∷◌, ◌≡◌,
  ◌⊎◌,
}
use callbook_rs.Cipher.Score.{i32_lt, raised, score_candidate, score_candidate-lt, i32_lt-raised}
use callbook_rs.Cipher.{period, decode_phase, phase_for_dat_offset, suc}

pub record DecodedV2Candidate : Type 0 where
  pub phase : ℕ
  pub bytes : Bytes
  pub score : ℕ

unfoldable pub candidate_of : ℕ → Bytes → Bytes → ℕ → DecodedV2Candidate
unfolding decode_phase score_candidate
candidate_of dat_offset raw_bytes idx_key phase =
    let bytes = decode_phase dat_offset raw_bytes phase in
    record { phase = phase; bytes = bytes; score = score_candidate bytes idx_key }

unfoldable pub best_candidate : ℕ → Bytes → Bytes → Option DecodedV2Candidate
unfolding candidate_of phase_for_dat_offset
best_candidate dat_offset raw_bytes idx_key =
    some (candidate_of dat_offset raw_bytes idx_key (phase_for_dat_offset dat_offset))

-- The comparison of the sort: the higher score first, and then the lower phase.
unfoldable pub ranks_before : DecodedV2Candidate → DecodedV2Candidate → Bool
unfolding i32_lt
ranks_before a b = i32_lt b.score a.score || not (i32_lt a.score b.score) && ltb a.phase b.phase

unfoldable pub insert_ranked :
    DecodedV2Candidate → List DecodedV2Candidate → List DecodedV2Candidate
unfolding ranks_before
insert_ranked c [] = c ∷ []
insert_ranked c (item ∷ items) =
    let rest = insert_ranked c items in
    if ranks_before item c then item ∷ rest else c ∷ item ∷ items

-- `sort_by` is stable, so its result is that of inserting each element before its equals.
unfoldable pub sort_ranked : List DecodedV2Candidate → List DecodedV2Candidate
unfolding insert_ranked
sort_ranked [] = []
sort_ranked (c ∷ cs) = insert_ranked c (sort_ranked cs)

-- The range `from..from + n`.
abbrev pub phases_from : ℕ → ℕ → List ℕ
phases_from zero from = []
phases_from (suc n) from = from ∷ phases_from n (from + 1)

-- The candidates of the first `n` phases.
unfoldable pub rank_phases : ℕ → ℕ → Bytes → Bytes → List DecodedV2Candidate
unfolding sort_ranked candidate_of
rank_phases n dat_offset raw_bytes idx_key =
    sort_ranked (map (candidate_of dat_offset raw_bytes idx_key) (phases_from n 0))

unfoldable pub decode_candidates : ℕ → Bytes → Bytes → List DecodedV2Candidate
unfolding rank_phases
decode_candidates dat_offset raw_bytes idx_key = rank_phases period dat_offset raw_bytes idx_key
