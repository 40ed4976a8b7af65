-- ===== src/Country/Index.antt =====
-- What `build_first_byte_index` builds on rules with ASCII prefixes: for each byte the numbers of the
-- rules whose range of first bytes holds it, in order.
use callbook_rs.Prelude.{
  All, Bool, Bytes, List, Option, [], ap, arith, false, get_elem?, if◌then◌else◌, leb, length, ltb,
  map_option, refl, replicate, some, suc, sym, true, zero, ℕ, ◌&&◌, ◌++◌, ◌+◌, ◌-◌, ◌<◌, ◌==◌, ◌∙◌,
  ◌∷◌, ◌≡◌, ◌≤◌,
}
use callbook_rs.Country.{
  CountryRule, push_at, push_range, push_rule, push_rules, build_first_byte_index, first_byte_low,
  first_byte_high, first_or,
}
use callbook_rs.Country.Ranges.{IsAscii}

-- A step that succeeds, keeps the number of slots, and appends the rule where the test holds.
abbrev Pushed : Option (List (List ℕ)) → List (List ℕ) → ℕ → (ℕ → Bool) → Type 0
Pushed result index i test =
    (index' : List (List ℕ)) × (result ≡ some index')
    × (length index' ≡ length index)
    × ((b : ℕ) (l : List ℕ)
        → get_elem? index b ≡ some l
        → get_elem? index' b ≡ some (if test b then l ++ (i ∷ []) else l))

first :
    (i b : ℕ) (l slot : List ℕ) (index : List (List ℕ))
    → get_elem? (slot ∷ index) b ≡ some l
    → get_elem? ((slot ++ (i ∷ [])) ∷ index) b ≡ some (if b == 0 then l ++ (i ∷ []) else l)
first i zero l slot index e = ap (map_option (λ m. m ++ (i ∷ []))) e
first i (suc b) l slot index e = let no : (suc b == 0) ≡ false = ground arith in rw no e

later :
    (i byte b : ℕ) (l slot : List ℕ) (index index' : List (List ℕ))
    → ((b : ℕ) (l : List ℕ)
        → get_elem? index b ≡ some l
        → get_elem? index' b ≡ some (if b == byte then l ++ (i ∷ []) else l))
    → get_elem? (slot ∷ index) b ≡ some l
    → get_elem? (slot ∷ index') b ≡ some (if b == suc byte then l ++ (i ∷ []) else l)
later i byte zero l slot index index' at e =
    let no : (0 == suc byte) ≡ false = ground arith in rw no e
later i byte (suc b) l slot index index' at e =
    let same : (suc b == suc byte) ≡ (b == byte) = ground arith in rw same (at b l e)

push_at-Pushed :
    (i byte : ℕ) (index : List (List ℕ))
    → byte < length index
    → Pushed (push_at i byte index) index i (λ b. b == byte)
unfolding push_at
push_at-Pushed i byte [] h = absurd (omega arith)
push_at-Pushed i zero (slot ∷ index) h =
    ((slot ++ (i ∷ [])) ∷ index, refl, refl, λ b l e. first i b l slot index e)
push_at-Pushed i (suc byte) (slot ∷ index) h =
    let (index', e, len, at) = push_at-Pushed i byte index (omega arith) in
    (
      slot ∷ index',
      ap (map_option (λ rest. slot ∷ rest)) e,
      ap suc len,
      λ b l g. later i byte b l slot index index' at g,
    )

one_range :
    (i byte count b : ℕ) (l : List ℕ)
    → (if leb (byte + 1) b && ltb b (byte + 1 + count)
        then (if b == byte then l ++ (i ∷ []) else l) ++ (i ∷ [])
        else if b == byte
        then l ++ (i ∷ [])
        else l)
      ≡ (if leb byte b && ltb b (byte + suc count) then l ++ (i ∷ []) else l)
one_range i byte count b l = ground arith

last_byte :
    (low high b : ℕ)
    → low ≤ high
    → (leb low b && ltb b (low + (high + 1 - low))) ≡ (leb low b && leb b high)
last_byte low high b h = ground arith

append_nil : (l : List ℕ) → l ++ [] ≡ l
append_nil [] = refl
append_nil (x ∷ l) = ap (λ r. x ∷ r) (append_nil l)

append_assoc : (l : List ℕ) (n : ℕ) (r : List ℕ) → (l ++ (n ∷ [])) ++ r ≡ l ++ (n ∷ r)
append_assoc [] n r = refl
append_assoc (x ∷ l) n r = ap (λ t. x ∷ t) (append_assoc l n r)

one_more :
    (t : Bool) (n : ℕ) (l r : List ℕ)
    → (if t then l ++ (n ∷ []) else l) ++ r ≡ l ++ (if t then n ∷ r else r)
one_more true n l r = append_assoc l n r
one_more false n l r = refl

push_range-Pushed :
    (i count byte : ℕ) (index : List (List ℕ))
    → byte + count ≤ length index
    → Pushed (push_range i count byte index) index i (λ b. leb byte b && ltb b (byte + count))
unfolding push_range
push_range-Pushed i zero byte index h = (
  index,
  refl,
  refl,
  λ b l e. let no : (leb byte b && ltb b (byte + 0)) ≡ false = ground arith in rw no e,
)
push_range-Pushed i (suc count) byte index h =
    let (index', e, len, at) = push_at-Pushed i byte index (omega arith) in
    let (index'', e', len', at') =
      push_range-Pushed i count (byte + 1) index' (omega (arith, len)) in
    (
      index'',
      rw e e',
      len' ∙ len,
      λ b l g. at' b _ (at b l g) ∙ ap some (one_range i byte count b l),
    )

abbrev pub in_range {ℓ} : {Info : Type ℓ} → ℕ → CountryRule Info → Bool
in_range b rule =
    leb (first_byte_low rule.start rule.end) b && leb b (first_byte_high rule.start rule.end)

-- The numbers of the rules whose range holds the byte, counted from `n` on.
abbrev pub candidates_from {ℓ} : {Info : Type ℓ} → ℕ → ℕ → List (CountryRule Info) → List ℕ
candidates_from n b [] = []
candidates_from n b (rule ∷ rules) =
    let rest = candidates_from (n + 1) b rules in if in_range b rule then n ∷ rest else rest

abbrev pub RuleAscii {ℓ} : {Info : Type ℓ} → CountryRule Info → Type 0
RuleAscii rule = All IsAscii rule.start × All IsAscii rule.end

first_or-IsAscii : (d : ℕ) (s : Bytes) → IsAscii d → All IsAscii s → IsAscii (first_or d s)
first_or-IsAscii d [] h a = h
first_or-IsAscii d (b ∷ s) h a = a.0

first_byte_high-IsAscii :
    (start end : Bytes) → All IsAscii start → All IsAscii end → IsAscii (first_byte_high start end)
unfolding first_byte_high
first_byte_high-IsAscii start end s e =
    let a = first_or-IsAscii 0 start (omega arith) s in
    let b = first_or-IsAscii (first_or 0 start) end a e in omega (arith, a, b)

first_byte_low-high : (start end : Bytes) → first_byte_low start end ≤ first_byte_high start end
unfolding first_byte_low first_byte_high
first_byte_low-high start end = omega arith

push_rule-Pushed {ℓ} :
    {Info : Type ℓ} (n : ℕ) (rule : CountryRule Info) (index : List (List ℕ))
    → RuleAscii rule
    → length index ≡ 128
    → Pushed (push_rule n rule index) index n (λ b. in_range b rule)
push_rule-Pushed n rule index (s, e) len =
    let low = first_byte_low rule.start rule.end in
    let high = first_byte_high rule.start rule.end in
    let le = first_byte_low-high rule.start rule.end in
    let lt = first_byte_high-IsAscii rule.start rule.end s e in
    let (index', r, same, at) =
      push_range-Pushed n (high + 1 - low) low index (omega (arith, le, lt, len)) in
    (
      index',
      r,
      same,
      λ b l g. at b l g ∙ ap (λ t. some (if t then l ++ (n ∷ []) else l)) (last_byte low high b le),
    )

pub push_rules-candidates {ℓ} :
    {Info : Type ℓ} (n : ℕ) (rules : List (CountryRule Info)) (index : List (List ℕ))
    → All RuleAscii rules
    → length index ≡ 128
    → (index' : List (List ℕ)) × (push_rules n rules index ≡ some index')
      × ((b : ℕ) (l : List ℕ)
          → get_elem? index b ≡ some l
          → get_elem? index' b ≡ some (l ++ candidates_from n b rules))
unfolding push_rules
push_rules-candidates n [] index ok len = (index, refl, λ b l g. g ∙ ap some (sym (append_nil l)))
push_rules-candidates n (rule ∷ rules) index (here, ok) len =
    let (index', e, same, at) = push_rule-Pushed n rule index here len in
    let (index'', e', at') = push_rules-candidates (n + 1) rules index' ok (same ∙ len) in
    (
      index'',
      rw e e',
      λ b l g.
          at' b _ (at b l g)
          ∙ ap some (one_more (in_range b rule) n l (candidates_from (n + 1) b rules)),
    )

get_elem?-replicate {ℓ} :
    {A : Type ℓ} (n b : ℕ) (a : A) → b < n → get_elem? (replicate n a) b ≡ some a
get_elem?-replicate zero b a h = absurd (omega arith)
get_elem?-replicate (suc n) zero a h = refl
get_elem?-replicate (suc n) (suc b) a h = get_elem?-replicate n b a (omega arith)

-- On rules with ASCII prefixes the index is built, and the slot of an ASCII byte holds its
-- candidates.
pub build_first_byte_index-candidates {ℓ} :
    {Info : Type ℓ} (rules : List (CountryRule Info))
    → All RuleAscii rules
    → (index : List (List ℕ)) × (build_first_byte_index rules ≡ some index)
      × ((b : ℕ) → IsAscii b → get_elem? index b ≡ some (candidates_from 0 b rules))
unfolding build_first_byte_index
build_first_byte_index-candidates rules ok =
    let (index, e, at) = push_rules-candidates 0 rules (replicate 128 []) ok refl in
    (index, e, λ b h. at b [] (get_elem?-replicate 128 b [] h))
