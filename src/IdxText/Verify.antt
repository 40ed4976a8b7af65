-- ===== src/IdxText/Verify.antt =====
-- `VerifyReport` and `verify` of the text index.
pub mod Clean
pub mod Licensed
use callbook_rs.Prelude.{
  Bool, Bytes, List, Option, [], false, filter, if◌then◌else◌, leb, length, ltb, none, not, refl,
  some, suc, zero, ℕ, ◌&&◌, ◌+◌, ◌-◌, ◌==◌, ◌||◌, ◌∷◌, ◌≡◌,
}
use callbook_rs.Prelude.Order.{lt_bytes}
use callbook_rs.IdxText.Line.{TextEntry}
use callbook_rs.IdxText.Build.{TextIdxFile, iter}

pub record VerifyReport : Type 0 where
  pub entries : ℕ
  pub non_ascii_bytes : ℕ
  pub parse_failures : ℕ
  pub key_order_violations : ℕ
  pub offset_monotonicity_violations : ℕ
  pub first_key : Option Bytes
  pub last_key : Option Bytes
  pub first_offset : Option ℕ
  pub last_offset : Option ℕ

unfoldable pub is_clean : VerifyReport → Bool
is_clean rep =
    rep.non_ascii_bytes == 0
    && rep.parse_failures == 0
    && rep.key_order_violations == 0
    && rep.offset_monotonicity_violations == 0
    && ltb 0 rep.entries

unfoldable pub is_idx_byte : ℕ → Bool
is_idx_byte b = b == 0x0d || b == 0x0a || b == 0x09 || (leb 0x20 b && leb b 0x7e)

abbrev empty_report : ℕ → VerifyReport
empty_report non_ascii = record {
  entries = 0;
  non_ascii_bytes = non_ascii;
  parse_failures = 0;
  key_order_violations = 0;
  offset_monotonicity_violations = 0;
  first_key = none;
  last_key = none;
  first_offset = none;
  last_offset = none;
}

-- The report and the two `prev_*` variables of the loop.
pub record Walk : Type 0 where
  pub rep : VerifyReport
  pub prev_key : Option Bytes
  pub prev_off : Option ℕ

abbrev pub bump_if : Bool → ℕ → ℕ
bump_if b n = if b then n + 1 else n

-- `if let Some(prev) = … { if entry.key < prev … }`, and the test on the offset.
abbrev pub key_goes_back : Option Bytes → Bytes → Bool
key_goes_back none key = false
key_goes_back (some prev) key = lt_bytes key prev

abbrev pub offset_stays : Option ℕ → ℕ → Bool
offset_stays none off = false
offset_stays (some prev) off = leb off prev

abbrev or_first {ℓ} : {A : Type ℓ} → Option Bytes → Option A → A → Option A
or_first none old new = some new
or_first (some k) old new = old

unfoldable pub visit_entry : Walk → TextEntry → Walk
visit_entry w e = record {
  rep = record w.rep {
    entries = w.rep.entries + 1;
    key_order_violations = bump_if (key_goes_back w.prev_key e.key) w.rep.key_order_violations;
    offset_monotonicity_violations =
        bump_if (offset_stays w.prev_off e.dat_offset) w.rep.offset_monotonicity_violations;
    first_key = or_first w.rep.first_key w.rep.first_key e.key;
    first_offset = or_first w.rep.first_key w.rep.first_offset e.dat_offset;
  };
  prev_key = some e.key;
  prev_off = some e.dat_offset;
}

unfoldable pub visit_entries : Walk → List TextEntry → Walk
unfolding visit_entry
visit_entries w [] = w
visit_entries w (e ∷ es) = visit_entries (visit_entry w e) es

-- The last assignments of `verify`.
unfoldable pub conclude : TextIdxFile → Walk → VerifyReport
conclude idx w = record w.rep {
  last_key = w.prev_key;
  last_offset = w.prev_off;
  parse_failures =
      if ltb w.rep.entries idx.line_count
      then idx.line_count - w.rep.entries
      else w.rep.parse_failures;
}

abbrev pub start_walk : TextIdxFile → Walk
start_walk idx = record {
  rep = empty_report (length (filter (λ b. not (is_idx_byte b)) idx.mmap));
  prev_key = none;
  prev_off = none;
}

unfoldable pub verify : TextIdxFile → VerifyReport
unfolding is_idx_byte visit_entries conclude
verify idx = conclude idx (visit_entries (start_walk idx) (iter idx))
