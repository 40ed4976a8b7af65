-- ===== src/Country/Lookup.antt =====
-- The indexed and the linear lookup, against the first rule that matches.
use callbook_rs.Prelude.{
  All, Bool, Bool-cases, Bytes, List, Option, [], ap, arith, false, get_elem?, if◌then◌else◌, inl,
  inr, is_empty, leb, length, lt→ltb, min, none, refl, some, subst, sym, true, ℕ, ◌&&◌, ◌++◌, ◌+◌,
  ◌∙◌, ◌∷◌, ◌≡◌,
}
use callbook_rs.Country.{
  CountryRule, build_first_byte_index, lookup_linear, lookup_candidates, lookup_info,
  prefix_range_matches, first_byte_low, first_byte_high,
}
use callbook_rs.Country.Ranges.{IsAscii, range_test, prefix_range_matches-ascii, range_test-outside}
use callbook_rs.Country.Index.{
  RuleAscii, candidates_from, in_range, build_first_byte_index-candidates,
}

-- What `parse_with_source` ensures of its rules, on an ASCII file.
abbrev pub RuleOk {ℓ} : {Info : Type ℓ} → CountryRule Info → Type 0
RuleOk rule = RuleAscii rule × (is_empty rule.start ≡ false) × (is_empty rule.end ≡ false)

-- The country of the first rule that matches.
abbrev pub first_match {ℓ} : {Info : Type ℓ} → Bytes → List (CountryRule Info) → Option Info
first_match call [] = none
first_match call (rule ∷ rules) =
    let rest = first_match call rules in
    if range_test call rule.start rule.end then some rule.country else rest

module _ {ℓ} {Info : Type ℓ} (call : Bytes) (ascii : All IsAscii call) where
  matches_rule :
      (rule : CountryRule Info)
      → RuleOk rule
      → prefix_range_matches call rule.start rule.end ≡ some (range_test call rule.start rule.end)
  matches_rule rule ok = prefix_range_matches-ascii call rule.start rule.end ascii ok.0.0 ok.0.1

  some_if :
      (t : Bool) (c : Info) (o : Option Info)
      → (if t then some (some c) else some o) ≡ some (if t then some c else o)
  some_if true c o = refl
  some_if false c o = refl

  pub lookup_linear-first_match :
      (rules : List (CountryRule Info))
      → All RuleOk rules
      → lookup_linear call rules ≡ some (first_match call rules)
  unfolding lookup_linear
  lookup_linear-first_match [] ok = refl
  lookup_linear-first_match (rule ∷ rules) ok =
      rw (matches_rule rule ok.0, lookup_linear-first_match rules ok.1)
        (some_if (range_test call rule.start rule.end) rule.country (first_match call rules))

get_elem?-append {ℓ} :
    {A : Type ℓ} (pre : List A) (x : A) (xs : List A)
    → get_elem? (pre ++ (x ∷ xs)) (length pre) ≡ some x
get_elem?-append [] x xs = refl
get_elem?-append (p ∷ pre) x xs = get_elem?-append pre x xs

length_snoc {ℓ} : {A : Type ℓ} (pre : List A) (x : A) → length (pre ++ (x ∷ [])) ≡ length pre + 1
length_snoc [] x = refl
length_snoc (p ∷ pre) x = omega (arith, length_snoc pre x)

snoc_append {ℓ} :
    {A : Type ℓ} (pre : List A) (x : A) (xs : List A) → (pre ++ (x ∷ [])) ++ xs ≡ pre ++ (x ∷ xs)
snoc_append [] x xs = refl
snoc_append (p ∷ pre) x xs = ap (λ r. p ∷ r) (snoc_append pre x xs)

not_matching :
    (b : ℕ) (call start end : Bytes)
    → is_empty start ≡ false
    → is_empty end ≡ false
    → (leb (first_byte_low start end) b && leb b (first_byte_high start end)) ≡ false
    → range_test (b ∷ call) start end ≡ false
unfolding first_byte_low first_byte_high
not_matching b call [] end h k out = absurd (ground arith)
not_matching b call (s ∷ start) [] h k out = absurd (ground arith)
not_matching b call (s ∷ start) (e ∷ end) h k out =
    range_test-outside b call s start e end (elim (Bool-cases (leb (min s e) b)) [
      | inl low ↦ inr (ground arith)
      | inr low ↦ inl (ground arith)
    ])

module _ {ℓ} {Info : Type ℓ} (b : ℕ) (call : Bytes) (ascii : All IsAscii (b ∷ call)) where
  lookup_candidates-first_match :
      (pre rules : List (CountryRule Info)) (n : ℕ)
      → n ≡ length pre
      → All RuleOk rules
      → lookup_candidates (b ∷ call) (pre ++ rules) (candidates_from n b rules)
        ≡ some (first_match (b ∷ call) rules)
  unfolding lookup_candidates
  lookup_candidates-first_match pre [] n e ok = refl
  lookup_candidates-first_match pre (rule ∷ rules) n e ok =
      let all : (pre ++ (rule ∷ [])) ++ rules ≡ pre ++ (rule ∷ rules) =
        snoc_append pre rule rules in
      let later =
        subst
          (λ rs.
            lookup_candidates (b ∷ call) rs (candidates_from (n + 1) b rules)
            ≡ some (first_match (b ∷ call) rules))
          all
          (lookup_candidates-first_match (pre ++ (rule ∷ [])) rules (n + 1)
            (ap (λ m. m + 1) e ∙ sym (length_snoc pre rule)) ok.1) in
      elim (Bool-cases (in_range b rule)) [
        | inl inside ↦
            let found : get_elem? (pre ++ (rule ∷ rules)) n ≡ some rule =
              ap (get_elem? (pre ++ (rule ∷ rules))) e ∙ get_elem?-append pre rule rules in
            rw (inside, found, matches_rule (b ∷ call) ascii rule ok.0, later)
              (some_if (b ∷ call) ascii (range_test (b ∷ call) rule.start rule.end) rule.country
                (first_match (b ∷ call) rules))
        | inr outside ↦
            let no = not_matching b call rule.start rule.end ok.0.1 ok.0.2 outside in
            rw (outside, no) later
      ]

rules_ascii {ℓ} :
    {Info : Type ℓ} (rules : List (CountryRule Info)) → All RuleOk rules → All RuleAscii rules
rules_ascii [] h = tt
rules_ascii (rule ∷ rules) h = (h.0.0, rules_ascii rules h.1)

-- On rules with non-empty ASCII prefixes the index is built without a panic, and on every ASCII
-- callsign the indexed and the linear lookup both return, without a panic, the country of the first
-- rule that matches.
pub lookup_info-lookup_linear {ℓ} :
    {Info : Type ℓ} (rules : List (CountryRule Info)) (call : Bytes)
    → All RuleOk rules
    → All IsAscii call
    → (index : List (List ℕ)) × (build_first_byte_index rules ≡ some index)
      × (lookup_info rules index call ≡ some (first_match call rules))
      × (lookup_linear call rules ≡ some (first_match call rules))
unfolding lookup_info
lookup_info-lookup_linear rules [] ok ascii =
    let (index, e, at) = build_first_byte_index-candidates rules (rules_ascii rules ok) in
    let linear = lookup_linear-first_match [] ascii rules ok in (index, e, linear, linear)
lookup_info-lookup_linear rules (b ∷ call) ok ascii =
    let (index, e, at) = build_first_byte_index-candidates rules (rules_ascii rules ok) in
    let small = lt→ltb b 128 ascii.0 in
    (
      index,
      e,
      rw (small, at b ascii.0) (lookup_candidates-first_match b call ascii [] rules 0 refl ok),
      lookup_linear-first_match (b ∷ call) ascii rules ok,
    )
