-- ===== src/Country.antt =====
-- The matcher of crates/callbook/src/country.rs: rules, the index by first byte, and the two
-- lookups on a normalised callsign. Where the code panics the model returns `none`.
pub mod Ranges
pub mod Index
pub mod Lookup
pub mod Parse
use callbook_rs.Prelude.{
  ℕ, zero, suc, Bool, true, false, Bytes, List, [], ◌∷◌, ◌++◌, ◌+◌, ◌-◌, Option, none, some, ltb,
  leb, ◌==◌, ◌&&◌, ◌||◌, if◌then◌else◌, bytes_eq, min, max, take, length, get_elem?, starts_with,
  not, ◌>>=◌, map_option, replicate,
}
use callbook_rs.Prelude.Order.{le_bytes}

-- A rule with the metadata of its country.
pub record CountryRule {ℓ} (CountryInfo : Type ℓ) : Type ℓ where
  pub start : Bytes
  pub end : Bytes
  pub country : CountryInfo

-- `str::is_char_boundary` at or below the length: not before a continuation byte.
abbrev pub boundary_before : ℕ → Option ℕ → Bool
boundary_before index none = true
boundary_before index (some b) = index == 0 || not (leb 0x80 b && leb b 0xbf)

abbrev pub is_char_boundary : Bytes → ℕ → Bool
is_char_boundary s index = boundary_before index (get_elem? s index)

-- `&s[..index]`, for an index within the string.
unfoldable pub slice_to : Bytes → ℕ → Option Bytes
slice_to s index = if is_char_boundary s index then some (take index s) else none

unfoldable pub prefix_range_matches : Bytes → Bytes → Bytes → Option Bool
unfolding slice_to
prefix_range_matches call start end =
    let width = min (max (length start) (length end)) (length call) in
    if bytes_eq start end then some (starts_with call start) else do
      head ← slice_to call width
      start_head ← slice_to start (min (length start) width)
      end_head ← slice_to end (min (length end) width)
      some (le_bytes start_head head && le_bytes head end_head)

abbrev pub first_or : ℕ → Bytes → ℕ
first_or default [] = default
first_or default (b ∷ bs) = b

-- Both ends of `matching_first_bytes`.
unfoldable pub first_byte_low : Bytes → Bytes → ℕ
first_byte_low start end = min (first_or 0 start) (first_or (first_or 0 start) end)

unfoldable pub first_byte_high : Bytes → Bytes → ℕ
first_byte_high start end = max (first_or 0 start) (first_or (first_or 0 start) end)

-- `index[byte].push(rule_index)`.
unfoldable pub push_at : ℕ → ℕ → List (List ℕ) → Option (List (List ℕ))
push_at rule_index byte [] = none
push_at rule_index zero (slot ∷ index) = some ((slot ++ rule_index ∷ []) ∷ index)
push_at rule_index (suc byte) (slot ∷ index) =
    map_option (λ rest. slot ∷ rest) (push_at rule_index byte index)

-- The inner loop, over `count` bytes from `byte` on.
unfoldable pub push_range : ℕ → ℕ → ℕ → List (List ℕ) → Option (List (List ℕ))
unfolding push_at
push_range rule_index zero byte index = some index
push_range rule_index (suc count) byte index = do
  index' ← push_at rule_index byte index
  push_range rule_index count (byte + 1) index'

abbrev pub push_rule {ℓ} :
    {Info : Type ℓ} → ℕ → CountryRule Info → List (List ℕ) → Option (List (List ℕ))
push_rule rule_index rule index =
    let low = first_byte_low rule.start rule.end in
    push_range rule_index (first_byte_high rule.start rule.end + 1 - low) low index

unfoldable pub push_rules {ℓ} :
    {Info : Type ℓ} → ℕ → List (CountryRule Info) → List (List ℕ) → Option (List (List ℕ))
unfolding push_range first_byte_low first_byte_high
push_rules rule_index [] index = some index
push_rules rule_index (rule ∷ rules) index = do
  index' ← push_rule rule_index rule index
  push_rules (rule_index + 1) rules index'

unfoldable pub build_first_byte_index {ℓ} :
    {Info : Type ℓ} → List (CountryRule Info) → Option (List (List ℕ))
unfolding push_rules
build_first_byte_index rules = push_rules 0 rules (replicate 128 [])

-- The loop over all rules, and with it `lookup_linear_normalized`.
unfoldable pub lookup_linear {ℓ} :
    {Info : Type ℓ} → Bytes → List (CountryRule Info) → Option (Option Info)
unfolding prefix_range_matches
lookup_linear call [] = some none
lookup_linear call (rule ∷ rules) =
    let rest = lookup_linear call rules in
    prefix_range_matches call rule.start rule.end >>= λ matches.
    if matches then some (some rule.country) else rest

-- The loop over the candidates.
unfoldable pub lookup_candidates {ℓ} :
    {Info : Type ℓ} → Bytes → List (CountryRule Info) → List ℕ → Option (Option Info)
unfolding prefix_range_matches
lookup_candidates call rules [] = some none
lookup_candidates call rules (index ∷ candidates) =
    let rest = lookup_candidates call rules candidates in
    get_elem? rules index >>= λ rule. prefix_range_matches call rule.start rule.end >>= λ matches.
    if matches then some (some rule.country) else rest

-- The candidates of the first byte, where it is ASCII.
abbrev pub candidates_of : List (List ℕ) → Bytes → Option (List ℕ)
candidates_of index [] = none
candidates_of index (b ∷ call) = if ltb b 128 then get_elem? index b else none

abbrev pub lookup_among {ℓ} :
    {Info : Type ℓ} → Bytes → List (CountryRule Info) → Option (List ℕ) → Option (Option Info)
lookup_among call rules none = lookup_linear call rules
lookup_among call rules (some candidates) = lookup_candidates call rules candidates

-- `lookup_info` on the trimmed, upper-cased callsign.
unfoldable pub lookup_info {ℓ} :
    {Info : Type ℓ} → List (CountryRule Info) → List (List ℕ) → Bytes → Option (Option Info)
unfolding lookup_linear lookup_candidates
lookup_info rules first_byte_index call =
    lookup_among call rules (candidates_of first_byte_index call)
