-- ===== src/Hci/Header/Match.antt =====
-- `decode_header_key` and `decoded_header_matches` read the same headers.
use callbook_rs.Prelude.{
  ==_iff, ==_refl, All, Bool-cases, Bytes, Holds, [], ap, append-nil, append_assoc, arith, false,
  inl, inr, is_ascii_graphic, length, ltb, none, not, refl, some, subst, sym, take, true, ℕ, ◌++◌,
  ◌+◌, ◌<◌, ◌==◌, ◌||◌, ◌↔◌, ◌∙◌, ◌∷◌, ◌≡◌, ◌≢◌,
}
use callbook_rs.Hci.Header.{
  HciHeaderKey, KeyScan, key_scan, scan_year, push_byte, hash_from, hash_key, header_loop,
  match_loop, decode_header_key, decoded_header_matches, decode_hci_byte, is_key_byte, end_header,
}

hash-scan_year : (i b : ℕ) (scan : KeyScan) → (scan_year i b scan).hash ≡ scan.hash
unfolding scan_year
hash-scan_year i b scan = ground arith

key-scan_year : (i b : ℕ) (scan : KeyScan) → (scan_year i b scan).key ≡ scan.key
unfolding scan_year
key-scan_year i b scan = ground arith

-- The header that the loop returns from here has this key behind what was read, its hash and this
-- length.
abbrev Reads : HciHeaderKey → KeyScan → Bytes → ℕ → Type 0
Reads h scan key n =
    (h.hash ≡ hash_from scan.hash key) × (h.key ≡ scan.key ++ key) × (h.header_len ≡ n)

Reads-step :
    (h : HciHeaderKey) (i b : ℕ) (scan : KeyScan) (key : Bytes) (n : ℕ)
    → Reads h (scan_year i b (push_byte b scan)) key n
    → Reads h scan (b ∷ key) n
Reads-step h i b scan key n (hash, text, size) = (
  hash ∙ ap (λ v. hash_from v key) (hash-scan_year i b (push_byte b scan)),
  text
      ∙ ap (λ v. v ++ key) (key-scan_year i b (push_byte b scan))
      ∙ append_assoc scan.key (b ∷ []) key,
  size,
)

key_byte-not_terminator :
    (b : ℕ)
    → is_key_byte b ≡ true
    → ((b == 0xb5) ≡ false) × ((ltb 0xb4 b || not (is_key_byte b)) ≡ false)
unfolding is_key_byte is_ascii_graphic
key_byte-not_terminator b h = (ground arith, ground arith)

length-pos : (key : Bytes) → key ≢ [] → 0 < length key
length-pos [] ne = absurd (ne refl)
length-pos (b ∷ key) ne = omega arith

match_loop-header_loop :
    (o i : ℕ) (key bytes : Bytes) (scan : KeyScan) (n : ℕ)
    → All (Holds is_key_byte) key
    → 0 < i + length key
    → match_loop o i key bytes ≡ some n
    → (h : HciHeaderKey) × (header_loop o i scan bytes ≡ some h) × Reads h scan key n
unfolding match_loop header_loop
match_loop-header_loop o i key [] scan n good pos h = absurd (ground arith)
match_loop-header_loop o i [] (x ∷ bytes) scan n good pos h =
    elim (Bool-cases (decode_hci_byte o i x == 0xb5)) [
      | inl e ↦
          let some_n : some (i + 1) ≡ some n = rw e at h in
          let later : (i == 0) ≡ false = ground arith in
          (end_header i scan, rw (e, later) refl, (refl, sym (append-nil scan.key), cc some_n))
      | inr e ↦ let no : none ≡ some n = rw e at h in absurd (ground arith)
    ]
match_loop-header_loop o i (k ∷ key) (x ∷ bytes) scan n good pos h =
    let b = decode_hci_byte o i x in
    elim (Bool-cases (b == k)) [
      | inl e ↦
          let same : b ≡ k = (==_iff b k).0 e in
          let (plain, fine) = key_byte-not_terminator b (rw same good.0) in
          let later : match_loop o (i + 1) key bytes ≡ some n = rw e at h in
          let (header, found, reads) =
            match_loop-header_loop o (i + 1) key bytes (scan_year i b (push_byte b scan)) n good.1
              (omega arith) later in
          let here = Reads-step header i b scan key n reads in
          (header, rw (plain, fine) found, subst (λ c. Reads header scan (c ∷ key) n) same here)
      | inr e ↦ let no : none ≡ some n = rw e at h in absurd (ground arith)
    ]

header_loop-match_loop :
    (o i : ℕ) (bytes : Bytes) (scan : KeyScan) (h : HciHeaderKey)
    → header_loop o i scan bytes ≡ some h
    → (key : Bytes) × (match_loop o i key bytes ≡ some h.header_len) × Reads h scan key h.header_len
unfolding match_loop header_loop
header_loop-match_loop o i [] scan h e = absurd (ground arith)
header_loop-match_loop o i (x ∷ bytes) scan h e =
    let b = decode_hci_byte o i x in
    elim (Bool-cases (b == 0xb5)) [
      | inl stop ↦ elim (Bool-cases (i == 0)) [
        | inl first ↦ let no : none ≡ some h = rw (stop, first) at e in absurd (ground arith)
        | inr later ↦
            let same : some (end_header i scan) ≡ some h = rw (stop, later) at e in
            let is : end_header i scan ≡ h = cc same in
            (
              [],
              rw stop (ap (λ r. some r.header_len) is),
              subst (λ r. Reads r scan [] r.header_len) is (refl, sym (append-nil scan.key), refl),
            )
      ]
      | inr go ↦ elim (Bool-cases (ltb 0xb4 b || not (is_key_byte b))) [
        | inl bad ↦ let no : none ≡ some h = rw (go, bad) at e in absurd (ground arith)
        | inr good ↦
            let next = rw (go, good) at e in
            let (key, found, reads) =
              header_loop-match_loop o (i + 1) bytes (scan_year i b (push_byte b scan)) h next in
            (b ∷ key, rw (==_refl b) found, Reads-step h i b scan key h.header_len reads)
      ]
    ]

-- For a key of printable bytes, a record's header matches the key with a header length exactly when
-- `decode_header_key` returns that key and that length, and then with the hash of the key.
pub decoded_header_matches-decode_header_key :
    (dat_offset : ℕ) (raw_bytes key : Bytes) (n : ℕ)
    → All (Holds is_key_byte) key
    → key ≢ []
    → (decoded_header_matches dat_offset raw_bytes key ≡ some n) ↔ (
        (h : HciHeaderKey) × (decode_header_key dat_offset raw_bytes ≡ some h)
        × (h.hash ≡ hash_key key)
        × (h.key ≡ key)
        × (h.header_len ≡ n))
unfolding decoded_header_matches decode_header_key hash_key
decoded_header_matches-decode_header_key o raw key n good ne = (
  λ m.
      let (h, e, reads) =
        match_loop-header_loop o 0 key (take 100 raw) key_scan n good
          (omega (arith, length-pos key ne)) m in
      (h, e, reads.0, reads.1, reads.2),
  λ found.
      let (h, e, hash, text, size) = found in
      let (k, m, reads) = header_loop-match_loop o 0 (take 100 raw) key_scan h e in
      let same : k ≡ key = sym reads.1 ∙ text in
      subst (λ l. match_loop o 0 l (take 100 raw) ≡ some n) same (m ∙ ap some size),
)
