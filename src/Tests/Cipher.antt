-- ===== src/Tests/Cipher.antt =====
-- The XOR stream.
use callbook_rs.Prelude.{
  true, false, [], ◌∷◌, ◌-◌, ◌^◌, All, Bytes, IsByte, any, arith, bytes_eq, codes, map_option, refl,
  some, ℕ, ◌≡◌,
}
use callbook_rs.Cipher.{decode_phase, phase_for_dat_offset, decode_from, unmask}
use callbook_rs.Cipher.Ranking.{best_candidate, decode_candidates, phases_from}
use callbook_rs.Cipher.Ranking.Ordered.{Ranked, decoding, decode_candidates-Ranked}
use callbook_rs.Cipher.Score.{score_candidate, i32_lt}
use callbook_rs.Cipher.Stream.{decode_phase-decode_from}

-- The plain text of a record that starts at offset 1542.
abbrev encoded : Bytes
encoded = decode_from 1542 (codes "K1A")

decode_1542 : decode_phase 1542 encoded (phase_for_dat_offset 1542) ≡ codes "K1A"
unfolding decode_phase phase_for_dat_offset decode_from unmask
decode_1542 = refl

decode_phase-decode_from_example :
    decode_phase 1542 encoded (phase_for_dat_offset 1542) ≡ decode_from 1542 encoded
decode_phase-decode_from_example = decode_phase-decode_from 1542 encoded (omega arith)

k1a-IsByte : All IsByte (codes "K1A")
k1a-IsByte = (omega arith, (omega arith, (omega arith, tt)))

decode_candidates-Ranked_example :
    Ranked (decode_candidates 1542 encoded (codes "K1A"))
    × (any (λ c. bytes_eq c.bytes (codes "K1A")) (decode_candidates 1542 encoded (codes "K1A"))
        ≡ any
            (λ phase. bytes_eq (decoding 1542 encoded (codes "K1A") phase).bytes (codes "K1A"))
            (phases_from 101 0))
decode_candidates-Ranked_example =
    decode_candidates-Ranked 1542 encoded (codes "K1A") (λ c. bytes_eq c.bytes (codes "K1A"))

best_1542 :
    map_option {B = ℕ × ℕ} (λ c. (c.phase, c.score)) (best_candidate 1542 encoded (codes "k1a"))
    ≡ some (57, 203)
unfolding best_candidate decode_from unmask
best_1542 = refl

-- Two control bytes score -6, which is below 2.
negative_score : score_candidate (1 ∷ 2 ∷ []) (codes "K1A") ≡ 2 ^ 32 - 6
unfolding score_candidate
negative_score = refl

negative_first : i32_lt (2 ^ 32 - 6) 2 ≡ true
unfolding i32_lt
negative_first = refl

negative_last : i32_lt 2 (2 ^ 32 - 6) ≡ false
unfolding i32_lt
negative_last = refl
