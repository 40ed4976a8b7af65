-- ===== src/Callsign/Parse.antt =====
-- What `Callsign::parse` accepts, the form of the key that it builds, and that the printed callsign
-- parses back to the same key.
use callbook_rs.Prelude.{
  ℕ, zero, suc, ◌-◌, ◌≤◌, ◌≡◌, ◌≢◌, refl, ap, ◌∙◌, Bytes, true, false, [], ◌∷◌, ◌++◌, map, some,
  Option-cases, inl, inr, ◌↔◌, ◌==◌, ltb, arith, length, length-append, length-replicate, replicate,
  All, Holds, Bool-cases, is_ascii_whitespace, ltb→le, le→ltb,
}
use mathlib.Core.List.{cons-ne-nil}
use callbook_rs.Prelude.Trim.{Fails, trim_end-append, trim-Fails, trim_end-Fails}
use callbook_rs.Error.{ok, err, invalid_callsign}
use callbook_rs.Callsign.{
  key_len, Callsign, ascii_upper, is_callsign_char, strip_ascii_whitespace, fill_key, parse_trimmed,
  parse, as_str,
}

-- The upper-cased text that `parse` keeps.
abbrev pub normalize : Bytes → Bytes
normalize input = map ascii_upper (strip_ascii_whitespace input)

abbrev pub IsCallsignText : Bytes → Type 0
IsCallsignText t = (t ≢ []) × (length t ≤ key_len) × All (Holds is_callsign_char) t

is_callsign_char-not_space : (b : ℕ) → is_callsign_char b ≡ true → (b == b' ') ≡ false
unfolding is_callsign_char
is_callsign_char-not_space b h = ground arith

is_callsign_char-not_whitespace :
    (b : ℕ) → is_callsign_char b ≡ true → is_ascii_whitespace b ≡ false
unfolding is_callsign_char is_ascii_whitespace
is_callsign_char-not_whitespace b h = ground arith

pub ascii_upper-is_callsign_char : (b : ℕ) → is_callsign_char b ≡ true → ascii_upper b ≡ b
unfolding is_callsign_char ascii_upper
ascii_upper-is_callsign_char b h = ground arith

All-map-Fails : (t : Bytes) → All (Holds is_callsign_char) t → All (Fails (λ b. b == b' ')) t
All-map-Fails [] h = tt
All-map-Fails (x ∷ t) h = (is_callsign_char-not_space x h.0, All-map-Fails t h.1)

All-not_whitespace :
    (t : Bytes) → All (Holds is_callsign_char) t → All (Fails is_ascii_whitespace) t
All-not_whitespace [] h = tt
All-not_whitespace (x ∷ t) h = (is_callsign_char-not_whitespace x h.0, All-not_whitespace t h.1)

map-ascii_upper : (t : Bytes) → All (Holds is_callsign_char) t → map ascii_upper t ≡ t
map-ascii_upper [] h = refl
map-ascii_upper (x ∷ t) h =
    ap (λ y. y ∷ map ascii_upper t) (ascii_upper-is_callsign_char x h.0)
    ∙ ap (λ r. x ∷ r) (map-ascii_upper t h.1)

All-spaces : (n : ℕ) → All (Holds (λ b. b == b' ')) (replicate n b' ')
All-spaces zero = tt
All-spaces (suc n) = (refl, All-spaces n)

-- The loop succeeds exactly on a source of callsign characters, and then pads what it copied.
fill_key-some :
    (n : ℕ) (src : Bytes)
    → length src ≤ n
    → All (Holds is_callsign_char) (map ascii_upper src)
    → fill_key (replicate n b' ') src
      ≡ some (map ascii_upper src ++ replicate (n - length src) b' ')
unfolding fill_key
fill_key-some zero [] le h = refl
fill_key-some zero (b ∷ src) le h = absurd (omega arith)
fill_key-some (suc n) [] le h = let e : suc n - 0 ≡ suc n = omega arith in rw e
fill_key-some (suc n) (b ∷ src) le h =
    let e : suc n - suc (length src) ≡ n - length src = omega arith in
    rw (h.0, fill_key-some n src (omega arith) h.1, e)

fill_key-chars :
    (n : ℕ) (src : Bytes) {key : Bytes}
    → length src ≤ n
    → fill_key (replicate n b' ') src ≡ some key
    → All (Holds is_callsign_char) (map ascii_upper src)
unfolding fill_key
fill_key-chars zero [] le h = tt
fill_key-chars zero (b ∷ src) le h = absurd (omega arith)
fill_key-chars (suc n) [] le h = tt
fill_key-chars (suc n) (b ∷ src) {key} le h =
    elim (Option-cases (fill_key (replicate n b' ') src)) [
      | inl e ↦ absurd (ground arith)
      | inr (r, e) ↦ (ground arith, fill_key-chars n src (omega arith) e)
    ]

strip-text : (t : Bytes) → All (Holds is_callsign_char) t → strip_ascii_whitespace t ≡ t
unfolding strip_ascii_whitespace
strip-text t h = trim-Fails is_ascii_whitespace t (All-not_whitespace t h)

-- The key of a text.
abbrev pub padded_key : Bytes → Callsign
padded_key text = record { key = text ++ replicate (key_len - length text) b' ' }

length-map-ascii_upper : (t : Bytes) → length (map ascii_upper t) ≡ length t
length-map-ascii_upper [] = refl
length-map-ascii_upper (x ∷ t) = ap suc (length-map-ascii_upper t)

parse_trimmed-ok :
    (input t : Bytes)
    → IsCallsignText (map ascii_upper t)
    → parse_trimmed input t ≡ ok (padded_key (map ascii_upper t))
unfolding parse_trimmed
parse_trimmed-ok input [] (ne, le, good) = absurd (ne refl)
parse_trimmed-ok input (b ∷ t) (ne, le, good) =
    let fits : suc (length t) ≤ 26 = omega (arith, length-map-ascii_upper t) in
    rw
      (
        le→ltb 26 (suc (length t)) fits,
        fill_key-some 26 (b ∷ t) fits good,
        length-map-ascii_upper t,
      )
      refl

-- An early return with an error excludes success.
err-ne-ok : {input : Bytes} {c : Callsign} → err (invalid_callsign input) ≢ ok c
err-ne-ok h = cc

parse_trimmed-IsCallsignText :
    (input t : Bytes) {c : Callsign}
    → parse_trimmed input t ≡ ok c
    → IsCallsignText (map ascii_upper t)
unfolding parse_trimmed
parse_trimmed-IsCallsignText input [] h = absurd (err-ne-ok h)
parse_trimmed-IsCallsignText input (b ∷ t) {c} h = elim (Bool-cases (ltb 26 (suc (length t)))) [
  | inl long ↦ absurd (err-ne-ok (rw long at h))
  | inr short ↦
      let fits : suc (length t) ≤ 26 = ltb→le 26 _ short in
      elim (Option-cases (fill_key (replicate key_len b' ') (b ∷ t))) [
        | inl e ↦ absurd (err-ne-ok (rw (short, e) at h))
        | inr (key, e) ↦ (
          cons-ne-nil _ _,
          omega (arith, length-map-ascii_upper t),
          fill_key-chars 26 (b ∷ t) fits e,
        )
      ]
]

-- `Callsign::parse` succeeds exactly when the trimmed, upper-cased input is a text of one to 26
-- characters A-Z, 0-9 and '/', and then the key is that text padded with spaces.
pub parse_iff :
    (input : Bytes) (c : Callsign)
    → (parse input ≡ ok c) ↔ (IsCallsignText (normalize input) × (c ≡ padded_key (normalize input)))
unfolding parse
parse_iff input c = (
  λ h.
      let valid = parse_trimmed-IsCallsignText input (strip_ascii_whitespace input) h in
      (valid, cc (h, parse_trimmed-ok input (strip_ascii_whitespace input) valid)),
  λ h. rw h.1 (parse_trimmed-ok input (strip_ascii_whitespace input) h.0),
)

as_str-padded_key : (t : Bytes) → IsCallsignText t → as_str (padded_key t) ≡ t
unfolding as_str
as_str-padded_key t (ne, le, good) =
    trim_end-append (λ b. b == b' ') t _ (All-spaces (key_len - length t))
    ∙ trim_end-Fails (λ b. b == b' ') t (All-map-Fails t good)

-- The callsign that `parse` returns prints as the trimmed, upper-cased input.
pub as_str-parse : (input : Bytes) (c : Callsign) → parse input ≡ ok c → as_str c ≡ normalize input
as_str-parse input c h =
    let (valid, e) = (parse_iff input c).0 h in rw e (as_str-padded_key (normalize input) valid)

normalize-text : (t : Bytes) → IsCallsignText t → normalize t ≡ t
normalize-text t (ne, le, good) = ap (map ascii_upper) (strip-text t good) ∙ map-ascii_upper t good

-- The printed callsign parses back to the same key: what `parse` returns is a fixed point.
pub parse-as_str : (input : Bytes) (c : Callsign) → parse input ≡ ok c → parse (as_str c) ≡ ok c
parse-as_str input c h =
    let (valid, e) = (parse_iff input c).0 h in
    let printed = as_str-parse input c h in
    let fixed = normalize-text (normalize input) valid in
    rw printed ((parse_iff (normalize input) c).1 (rw fixed (valid, e)))

-- The key of a callsign that `parse` returns has 26 bytes.
pub parse-key_len : (input : Bytes) (c : Callsign) → parse input ≡ ok c → length c.key ≡ key_len
parse-key_len input c h =
    let (valid, e) = (parse_iff input c).0 h in
    rw e (
      omega (
        arith,
        length-append {0} (normalize input) (replicate (key_len - length (normalize input)) b' '),
        length-replicate {A = ℕ} (key_len - length (normalize input)) b' ',
        valid.1,
      ))
