-- ===== src/Country/Parse/Order.antt =====
-- The rules of a parsed file: they can be indexed, and long starts come first.
use callbook_rs.Prelude.{
  All, Bool-cases, Bytes, List, Option, Option-cases, [], ap, arith, codes, drop, false, filter_map,
  inl, inr, is_ascii_lowercase, is_empty, leb, length, ltb, none, refl, some, some-injective,
  starts_with, subst, to_ascii_uppercase, true, unwrap_or, ℕ, ◌&&◌, ◌++◌, ◌-◌, ◌||◌, ◌∙◌, ◌∷◌, ◌≡◌,
  ◌≤◌,
}
use callbook_rs.Prelude.Text.{str_trim, to_uppercase}
use callbook_rs.Prelude.Text.All.{str_trim-All, take-All, drop-All}
use callbook_rs.Country.{CountryRule, is_char_boundary}
use callbook_rs.Country.Ranges.{IsAscii, range_test}
use callbook_rs.Country.Lookup.{RuleOk, first_match}
use callbook_rs.Country.Parse.{
  CountryInfo, CountryInfoSource, get_range, field_at, rule_of, parse_rule, parse_country_info,
  comes_before, insert_rule, sort_rules,
}

pub to_uppercase-IsAscii : (s : Bytes) → All IsAscii s → All IsAscii (to_uppercase s)
unfolding to_ascii_uppercase is_ascii_lowercase
to_uppercase-IsAscii [] h = tt
to_uppercase-IsAscii (b ∷ bs) h = (ground (arith, h.0), to_uppercase-IsAscii bs h.1)

is_empty-to_uppercase : (s : Bytes) → is_empty (to_uppercase s) ≡ is_empty s
is_empty-to_uppercase [] = refl
is_empty-to_uppercase (b ∷ bs) = refl

field_at-IsAscii :
    (line : Bytes) (start end : ℕ) → All IsAscii line → All IsAscii (field_at line start end)
unfolding get_range
field_at-IsAscii line start end h =
    str_trim-All IsAscii (unwrap_or (get_range line start end) [])
      (elim (Bool-cases (
        leb end (length line)
        && leb start end
        && is_char_boundary line start
        && is_char_boundary line end)) [
          | inl e ↦
              rw e
                (take-All IsAscii (end - start) (drop start line) (drop-All IsAscii start line h))
          | inr e ↦ rw e tt
        ])

module _ {F64 : Type 0} (parse_f64 : Bytes → Option F64) where
  rule_of-RuleOk :
      (start end : Bytes) (parsed : CountryInfo F64) (rule : CountryRule (CountryInfo F64))
      → All IsAscii start
      → All IsAscii end
      → (is_empty start || is_empty end) ≡ false
      → rule_of start end parsed ≡ some rule
      → RuleOk rule
  rule_of-RuleOk start end parsed rule s t ne e = elim (Bool-cases (is_empty parsed.name)) [
    | inl f ↦ let no : none ≡ some rule = rw f at e in absurd (ground arith)
    | inr f ↦ subst RuleOk (some-injective (rw f at e)) (
      (to_uppercase-IsAscii start s, to_uppercase-IsAscii end t),
      is_empty-to_uppercase start ∙ ground (arith, ne),
      is_empty-to_uppercase end ∙ ground (arith, ne),
    )
  ]

  parse_rule-RuleOk :
      (source : CountryInfoSource) (line : Bytes) (rule : CountryRule (CountryInfo F64))
      → All IsAscii line
      → parse_rule parse_f64 source line ≡ some rule
      → RuleOk rule
  unfolding parse_rule
  parse_rule-RuleOk source line rule h e =
      let start = field_at line 0 6 in
      let end = field_at line 6 12 in
      let skip = starts_with line (codes "#") || is_empty (str_trim line) || ltb (length line) 12 in
      elim (Bool-cases skip) [
        | inl f ↦ let no : none ≡ some rule = rw f at e in absurd (ground arith)
        | inr f ↦ elim (Bool-cases (is_empty start || is_empty end)) [
          | inl g ↦ let no : none ≡ some rule = rw (f, g) at e in absurd (ground arith)
          | inr g ↦
              rule_of-RuleOk start end
                (parse_country_info parse_f64 (field_at line 12 (length line)) source) rule
                (field_at-IsAscii line 0 6 h) (field_at-IsAscii line 6 12 h) g (rw (f, g) at e)
        ]
      ]

  pub parse_rules-RuleOk :
      (source : CountryInfoSource) (lines : List Bytes)
      → All (All IsAscii) lines
      → All RuleOk (filter_map (parse_rule parse_f64 source) lines)
  parse_rules-RuleOk source [] h = tt
  parse_rules-RuleOk source (line ∷ lines) h =
      elim (Option-cases (parse_rule parse_f64 source line)) [
        | inl e ↦ rw e (parse_rules-RuleOk source lines h.1)
        | inr (rule, e) ↦
            rw e (parse_rule-RuleOk source line rule h.0 e, parse_rules-RuleOk source lines h.1)
      ]

module _ {Info : Type 0} where
  insert_rule-All :
      (P : CountryRule Info → Type 0) (rule : CountryRule Info) (rules : List (CountryRule Info))
      → P rule
      → All P rules
      → All P (insert_rule rule rules)
  unfolding insert_rule
  insert_rule-All P rule [] p h = (p, tt)
  insert_rule-All P rule (r ∷ rules) p h = elim (Bool-cases (comes_before r rule)) [
    | inl e ↦ rw e (h.0, insert_rule-All P rule rules p h.1)
    | inr e ↦ rw e (p, h)
  ]

  pub sort_rules-All :
      (P : CountryRule Info → Type 0) (rules : List (CountryRule Info))
      → All P rules
      → All P (sort_rules rules)
  unfolding sort_rules
  sort_rules-All P [] h = tt
  sort_rules-All P (r ∷ rules) h =
      insert_rule-All P r (sort_rules rules) h.0 (sort_rules-All P rules h.1)

  -- No start is longer than this one.
  abbrev pub NoLonger : CountryRule Info → CountryRule Info → Type 0
  NoLonger rule r = length r.start ≤ length rule.start

  abbrev pub LongestFirst : List (CountryRule Info) → Type 0
  LongestFirst [] = Unit
  LongestFirst (r ∷ rules) = All (NoLonger r) rules × LongestFirst rules

  NoLonger-trans :
      (a b : CountryRule Info) (rules : List (CountryRule Info))
      → NoLonger a b
      → All (NoLonger b) rules
      → All (NoLonger a) rules
  NoLonger-trans a b [] h k = tt
  NoLonger-trans a b (r ∷ rules) h k = (omega (arith, h, k.0), NoLonger-trans a b rules h k.1)

  before-NoLonger : (a b : CountryRule Info) → comes_before a b ≡ true → NoLonger a b
  before-NoLonger a b h = ground (arith, h)

  after-NoLonger : (a b : CountryRule Info) → comes_before a b ≡ false → NoLonger b a
  after-NoLonger a b h = ground (arith, h)

  insert_rule-LongestFirst :
      (rule : CountryRule Info) (rules : List (CountryRule Info))
      → LongestFirst rules
      → LongestFirst (insert_rule rule rules)
  unfolding insert_rule
  insert_rule-LongestFirst rule [] h = (tt, tt)
  insert_rule-LongestFirst rule (r ∷ rules) h = elim (Bool-cases (comes_before r rule)) [
    | inl e ↦ rw e (
      insert_rule-All (NoLonger r) rule rules (before-NoLonger r rule e) h.0,
      insert_rule-LongestFirst rule rules h.1,
    )
    | inr e ↦
        let less = after-NoLonger r rule e in rw e ((less, NoLonger-trans rule r rules less h.0), h)
  ]

  pub sort_rules-LongestFirst : (rules : List (CountryRule Info)) → LongestFirst (sort_rules rules)
  unfolding sort_rules
  sort_rules-LongestFirst [] = tt
  sort_rules-LongestFirst (r ∷ rules) =
      insert_rule-LongestFirst r (sort_rules rules) (sort_rules-LongestFirst rules)

  -- The rule does not match.
  abbrev pub Misses : Bytes → CountryRule Info → Type 0
  Misses call r = range_test call r.start r.end ≡ false

  -- The country is that of a rule that matches, where no rule before it matches and no rule behind it
  -- has a longer start; without a country, no rule matches.
  abbrev pub IsBest : Bytes → List (CountryRule Info) → Option Info → Type 0
  IsBest call rules none = All (Misses call) rules
  IsBest call rules (some info) =
      (pre : List (CountryRule Info)) × (rule : CountryRule Info) × (post : List (CountryRule Info))
      × (rules ≡ pre ++ (rule ∷ post))
      × (rule.country ≡ info)
      × (range_test call rule.start rule.end ≡ true)
      × All (Misses call) pre
      × All (NoLonger rule) post

  IsBest-cons :
      (call : Bytes) (r : CountryRule Info) (rules : List (CountryRule Info)) (o : Option Info)
      → Misses call r
      → IsBest call rules o
      → IsBest call (r ∷ rules) o
  IsBest-cons call r rules none miss h = (miss, h)
  IsBest-cons call r rules (some info) miss h =
      let (pre, rule, post, at, is, matches, before, after) = h in
      (r ∷ pre, rule, post, ap (λ rs. r ∷ rs) at, is, matches, (miss, before), after)

  pub first_match-IsBest :
      (call : Bytes) (rules : List (CountryRule Info))
      → LongestFirst rules
      → IsBest call rules (first_match call rules)
  first_match-IsBest call [] h = tt
  first_match-IsBest call (r ∷ rules) h = elim (Bool-cases (range_test call r.start r.end)) [
    | inl f ↦ rw f ([], r, rules, refl, refl, f, tt, h.0)
    | inr f ↦
        rw f
          (IsBest-cons call r rules (first_match call rules) f (first_match-IsBest call rules h.1))
  ]
