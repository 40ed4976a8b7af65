-- ===== src/Sidecar/Float.antt =====
-- `f64`, as the readers of sidecar.rs use it: what they call is an interface, and the laws of the
-- order are those that IEEE 754 gives to numbers that are no NaN.
use callbook_rs.Prelude.{Bytes, Option, Bool, true, ◌≡◌, ℕ}

pub record Float : Type 1 where
  pub F64 : Type 0
  -- `str::parse`.
  pub parse_f64 : Bytes → Option F64
  -- `f64::from` of an integer, and the literals.
  pub of_nat : ℕ → F64
  pub negate : F64 → F64
  pub divide : F64 → F64 → F64
  -- `f64::min` and `f64::max`.
  pub minimum : F64 → F64 → F64
  pub maximum : F64 → F64 → F64
  pub le_f64 : F64 → F64 → Bool
  pub is_finite : F64 → Bool

-- A NaN is not below itself.
abbrev pub IsNumber : (fl : Float) → fl.F64 → Type 0
IsNumber fl x = fl.le_f64 x x ≡ true

pub record FloatLaws (fl : Float) : Type 0 where
  pub le_f64_trans :
      (x y z : fl.F64) → fl.le_f64 x y ≡ true → fl.le_f64 y z ≡ true → fl.le_f64 x z ≡ true
  pub le-minimum-left :
      (x y : fl.F64) → IsNumber fl x → IsNumber fl y → fl.le_f64 (fl.minimum x y) x ≡ true
  pub le-minimum-right :
      (x y : fl.F64) → IsNumber fl x → IsNumber fl y → fl.le_f64 (fl.minimum x y) y ≡ true
  pub minimum-IsNumber :
      (x y : fl.F64) → IsNumber fl x → IsNumber fl y → IsNumber fl (fl.minimum x y)
  pub le-maximum-left :
      (x y : fl.F64) → IsNumber fl x → IsNumber fl y → fl.le_f64 x (fl.maximum x y) ≡ true
  pub le-maximum-right :
      (x y : fl.F64) → IsNumber fl x → IsNumber fl y → fl.le_f64 y (fl.maximum x y) ≡ true
  pub maximum-IsNumber :
      (x y : fl.F64) → IsNumber fl x → IsNumber fl y → IsNumber fl (fl.maximum x y)
