-- ===== src/Error.antt =====
-- `Error` of crates/callbook/src/error.rs, and the `Result` alias. Paths are byte strings; the
-- errors that wrap those of `std::io`, `zip` and `csv` carry no payload, since those crates'
-- error values are not read by this one.
use callbook_rs.Prelude.{Bytes, ◌≡◌, refl}

pub data Error : Type 0 where
  data_path_not_found no_data_files : Bytes → Error
  malformed_header : Bytes → Error
  invalid_callsign invalid_interest_code : Bytes → Error
  io zip csv : Error

pub data Result {ℓ} (T : Type ℓ) : Type ℓ where
  err : Error → Result T
  ok : T → Result T

-- The `?` operator.
infixl 5 ◌>>=◌
abbrev pub ◌>>=◌ {ℓ κ} : {T : Type ℓ} {U : Type κ} → Result T → (T → Result U) → Result U
err why >>= next = err why
ok value >>= next = next value

pub >>=-eq-ok {ℓ κ} :
    {T : Type ℓ} {U : Type κ} (r : Result T) (next : T → Result U) {out : U}
    → (r >>= next) ≡ ok out
    → (value : T) × (r ≡ ok value) × (next value ≡ ok out)
>>=-eq-ok (err why) next e = cc
>>=-eq-ok (ok value) next e = (value, refl, e)

pub bind_congr {ℓ κ} :
    {T : Type ℓ} {U : Type κ} (r : Result T) {f g : T → Result U}
    → ((value : T) → f value ≡ g value)
    → (r >>= f) ≡ (r >>= g)
bind_congr (err why) same = refl
bind_congr (ok value) same = same value
