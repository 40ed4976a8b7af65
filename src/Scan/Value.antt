-- ===== src/Scan/Value.antt =====
-- What the loop of `scan_dat` keeps of the bytes of one record: its key and the value of its last
-- interest tag.
use callbook_rs.Prelude.{
  Bool, Bool-cases, Bytes, Option, [], ap, append-nil, append_assoc, ap₂, arith, false,
  if◌then◌else◌, inl, inr, none, or_else, or_else-none, refl, some, sym, then_some, true, unwrap_or,
  ℕ, ◌++◌, ◌==◌, ◌∙◌, ◌∷◌, ◌≡◌,
}
use callbook_rs.V2Record.Text.{is_tag}
use callbook_rs.Scan.{RecordScan, new_scan, start_record, is_interest_tag, scan_byte}

abbrev pub until_tag : Bytes → Bytes
until_tag [] = []
until_tag (b ∷ bs) = if is_tag b then [] else b ∷ until_tag bs

-- The value of the last interest tag of a record.
abbrev pub last_interest : Bytes → Option Bytes
last_interest [] = none
last_interest (b ∷ bs) = or_else (last_interest bs) (then_some (b == 0xd5) (until_tag bs))

abbrev pub interest_value : Bytes → Bytes
interest_value body = unwrap_or (last_interest body) []

abbrev pub feed : Bytes → RecordScan → RecordScan
feed [] scan = scan
feed (b ∷ bs) scan = feed bs (scan_byte b scan)

-- Before the first mark nothing is kept.
pub feed-new_scan : (bs : Bytes) → feed bs new_scan ≡ new_scan
unfolding scan_byte
feed-new_scan [] = refl
feed-new_scan (b ∷ bs) = elim (Bool-cases (is_tag b)) [
  | inl e ↦ rw e (feed-new_scan bs)
  | inr e ↦ rw e (feed-new_scan bs)
]

abbrev pub scan_at : Bytes → Bytes → Option ℕ → Bool → RecordScan
scan_at key raw tag complete = record {
  key = key;
  interest_raw = raw;
  current_tag = tag;
  in_record = true;
  key_complete = complete;
}

-- A scan of which the key and the raw codes are known.
abbrev pub Keeps : RecordScan → Bytes → Bytes → Type 0
Keeps scan key raw = (scan.key ≡ key) × (scan.interest_raw ≡ raw) × (scan.in_record ≡ true)

abbrev open_value : Option ℕ → Bytes → Bytes
open_value tag bs = if is_interest_tag tag then until_tag bs else []

interest_is_tag : (b : ℕ) → is_tag b ≡ false → (b == 0xd5) ≡ false
interest_is_tag b h = ground arith

subst-Keeps :
    {scan scan' : RecordScan} {key key' raw raw' : Bytes}
    → scan ≡ scan'
    → key ≡ key'
    → raw ≡ raw'
    → Keeps scan' key raw
    → Keeps scan key' raw'
subst-Keeps s k r (a, b, c) =
    (ap (λ x. x.key) s ∙ a ∙ k, ap (λ x. x.interest_raw) s ∙ b ∙ r, ap (λ x. x.in_record) s ∙ c)

if_same {ℓ} : {A : Type ℓ} (b : Bool) (a : A) → (if b then a else a) ≡ a
if_same true a = refl
if_same false a = refl

open_value-tag :
    (b : ℕ) (bs : Bytes) (tag : Option ℕ) → is_tag b ≡ true → open_value tag (b ∷ bs) ≡ []
open_value-tag b bs tag e =
    ap (λ v. if is_interest_tag tag then v else []) (rw e refl) ∙ if_same (is_interest_tag tag) []

open_value-byte :
    (b : ℕ) (bs raw : Bytes) (tag : Option ℕ)
    → is_tag b ≡ false
    → raw ++ open_value tag (b ∷ bs)
      ≡ (if is_interest_tag tag then raw ++ (b ∷ []) else raw) ++ open_value tag bs
open_value-byte b bs raw tag e = elim (Bool-cases (is_interest_tag tag)) [
  | inl f ↦ rw (f, e) (sym (append_assoc raw (b ∷ []) (until_tag bs)))
  | inr f ↦ rw f refl
]

last_interest-byte :
    (b : ℕ) (bs : Bytes) → is_tag b ≡ false → last_interest (b ∷ bs) ≡ last_interest bs
last_interest-byte b bs e =
    ap (λ t. or_else (last_interest bs) (then_some t (until_tag bs))) (interest_is_tag b e)
    ∙ or_else-none (last_interest bs)

-- A later interest tag takes the place of the value that is open.
value_behind_tag :
    (b : ℕ) (bs raw : Bytes) (tag : Option ℕ) (later : Option Bytes)
    → is_tag b ≡ true
    → unwrap_or later ((if b == 0xd5 then [] else raw) ++ open_value (some b) bs)
      ≡ unwrap_or
          (or_else later (then_some (b == 0xd5) (until_tag bs)))
          (raw ++ open_value tag (b ∷ bs))
value_behind_tag b bs raw tag (some value) e = refl
value_behind_tag b bs raw tag none e = elim (Bool-cases (b == 0xd5)) [
  | inl f ↦ rw f refl
  | inr f ↦ rw f (ap (λ v. raw ++ v) (sym (open_value-tag b bs tag e)))
]

-- Behind the first tag: the value goes on to the next tag, and a later interest tag replaces it.
feed-value :
    (bs key raw : Bytes) (tag : Option ℕ)
    → Keeps
        (feed bs (scan_at key raw tag true))
        key
        (unwrap_or (last_interest bs) (raw ++ open_value tag bs))
unfolding scan_byte
feed-value [] key raw tag = elim (Bool-cases (is_interest_tag tag)) [
  | inl e ↦ rw (e, append-nil raw) (refl, refl, refl)
  | inr e ↦ rw (e, append-nil raw) (refl, refl, refl)
]
feed-value (b ∷ bs) key raw tag = elim (Bool-cases (is_tag b)) [
  | inl e ↦
      let raw' = if b == 0xd5 then [] else raw in
      subst-Keeps (ap (feed bs) (rw e refl)) refl
        (value_behind_tag b bs raw tag (last_interest bs) e) (feed-value bs key raw' (some b))
  | inr e ↦
      let raw' = if is_interest_tag tag then raw ++ (b ∷ []) else raw in
      let value : unwrap_or (last_interest bs) (raw' ++ open_value tag bs)
          ≡ unwrap_or (last_interest (b ∷ bs)) (raw ++ open_value tag (b ∷ bs)) =
        ap₂ unwrap_or (sym (last_interest-byte b bs e)) (sym (open_value-byte b bs raw tag e)) in
      elim (Bool-cases (is_interest_tag tag)) [
        | inl f ↦
            subst-Keeps (ap (feed bs) (rw (e, f) refl)) refl value (feed-value bs key raw' tag)
        | inr f ↦
            subst-Keeps (ap (feed bs) (rw (e, f) refl)) refl value (feed-value bs key raw' tag)
      ]
]

value_first :
    (b : ℕ) (bs : Bytes) (later : Option Bytes)
    → unwrap_or later (open_value (some b) bs)
      ≡ unwrap_or (or_else later (then_some (b == 0xd5) (until_tag bs))) []
value_first b bs (some value) = refl
value_first b bs none = elim (Bool-cases (b == 0xd5)) [ inl f ↦ rw f refl | inr f ↦ rw f refl ]

until_tag-tag : (b : ℕ) (bs : Bytes) → is_tag b ≡ true → until_tag (b ∷ bs) ≡ []
until_tag-tag b bs e = rw e refl

until_tag-byte : (b : ℕ) (bs : Bytes) → is_tag b ≡ false → until_tag (b ∷ bs) ≡ b ∷ until_tag bs
until_tag-byte b bs e = rw e refl

pub feed-key :
    (bs key : Bytes)
    → Keeps (feed bs (scan_at key [] none false)) (key ++ until_tag bs) (interest_value bs)
unfolding scan_byte
feed-key [] key = (sym (append-nil key), refl, refl)
feed-key (b ∷ bs) key = elim (Bool-cases (is_tag b)) [
  | inl e ↦
      subst-Keeps
        (ap (feed bs) (rw e (ap (λ r. scan_at key r (some b) true) (if_same (b == 0xd5) []))))
        (sym (append-nil key) ∙ ap (λ t. key ++ t) (sym (until_tag-tag b bs e)))
        (value_first b bs (last_interest bs)) (feed-value bs key [] (some b))
  | inr e ↦
      subst-Keeps (ap (feed bs) (rw e refl))
        (append_assoc key (b ∷ []) (until_tag bs)
          ∙ ap (λ t. key ++ t) (sym (until_tag-byte b bs e)))
        (ap (λ o. unwrap_or o []) (sym (last_interest-byte b bs e))) (feed-key bs (key ++ (b ∷ [])))
]

pub start_record-new_scan : start_record new_scan ≡ scan_at [] [] none false
unfolding start_record
start_record-new_scan = refl
