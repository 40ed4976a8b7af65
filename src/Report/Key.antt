-- ===== src/Report/Key.antt =====
-- The key of a snapshot, its callsign with its vintage: an equivalence, and an order.
use callbook_rs.Prelude.{
  ap₂, and-true, ==_iff, ◌==◌, ◌&&◌, ◌||◌, ltb, [], ◌∷◌, Bytes, ℕ, ◌≡◌, arith, true, false, refl,
  bytes_eq, bytes_eq_iff,
}
use callbook_rs.Prelude.Order.{lt_bytes, lt_bytes_asym, le_trans_bytes}
use callbook_rs.Modern.Snapshot.{CallSnapshot}
use callbook_rs.Report.{same_key, precedes, vintage_rank}

bytes_eq_comm : (x y : Bytes) → bytes_eq x y ≡ bytes_eq y x
unfolding bytes_eq
bytes_eq_comm [] [] = refl
bytes_eq_comm [] (b ∷ y) = refl
bytes_eq_comm (a ∷ x) [] = refl
bytes_eq_comm (a ∷ x) (b ∷ y) = ground (arith, bytes_eq_comm x y)

==_comm : (u v : ℕ) → (u == v) ≡ (v == u)
==_comm u v = ground arith

pub same_key_comm : (a b : CallSnapshot) → same_key a b ≡ same_key b a
unfolding same_key
same_key_comm a b =
    ap₂ ◌&&◌ (bytes_eq_comm a.callsign b.callsign)
      (==_comm (vintage_rank a.vintage) (vintage_rank b.vintage))

same_parts :
    (x y z : Bytes) (u v w : ℕ)
    → (bytes_eq x y && u == v) ≡ true
    → (bytes_eq x z && u == w) ≡ (bytes_eq y z && v == w)
same_parts x y z u v w h =
    let both = and-true (bytes_eq x y) (u == v) h in
    let names = (bytes_eq_iff x y).0 both.0 in
    let years = (==_iff u v).0 both.1 in rw (names, years) refl

-- Snapshots with the same key are told apart from the same snapshots.
pub same_key_congr : (a b c : CallSnapshot) → same_key a b ≡ true → same_key a c ≡ same_key b c
unfolding same_key
same_key_congr a b c h =
    same_parts a.callsign b.callsign c.callsign (vintage_rank a.vintage) (vintage_rank b.vintage)
      (vintage_rank c.vintage) h

asym_parts :
    (x y : Bytes) (u v : ℕ)
    → (ltb u v || (u == v && lt_bytes x y)) ≡ true
    → (ltb v u || (v == u && lt_bytes y x)) ≡ false
asym_parts x y u v h = ground (arith, lt_bytes_asym x y)

pub precedes_asym : (a b : CallSnapshot) → precedes a b ≡ true → precedes b a ≡ false
unfolding precedes
precedes_asym a b h =
    asym_parts a.callsign b.callsign (vintage_rank a.vintage) (vintage_rank b.vintage) h

le_parts :
    (x y z : Bytes) (u v w : ℕ)
    → (ltb v u || (v == u && lt_bytes y x)) ≡ false
    → (ltb w v || (w == v && lt_bytes z y)) ≡ false
    → (ltb w u || (w == u && lt_bytes z x)) ≡ false
le_parts x y z u v w h k = ground (arith, le_trans_bytes x y z)

pub precedes_le_trans :
    (a b c : CallSnapshot) → precedes b a ≡ false → precedes c b ≡ false → precedes c a ≡ false
unfolding precedes
precedes_le_trans a b c h k =
    le_parts a.callsign b.callsign c.callsign (vintage_rank a.vintage) (vintage_rank b.vintage)
      (vintage_rank c.vintage) h k
