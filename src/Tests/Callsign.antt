-- ===== src/Tests/Callsign.antt =====
-- Callsigns and errors.
use callbook_rs.Prelude.Trim.{trim, trim_end, trim_start}
use callbook_rs.Prelude.{codes, length, refl, ◌↔◌, ◌≡◌, is_ascii_whitespace}
use callbook_rs.Error.{ok, err, invalid_callsign}
use callbook_rs.Callsign.{Callsign, parse, as_str, key_len, strip_ascii_whitespace, fill_key}
use callbook_rs.Callsign.Parse.{
  padded_key, normalize, IsCallsignText, parse_iff, parse-as_str, parse-key_len,
}

abbrev w1aw : Callsign
w1aw = padded_key (codes "W1AW")

parse-w1aw : parse (codes " w1aw ") ≡ ok w1aw
unfolding parse strip_ascii_whitespace trim trim_end trim_start is_ascii_whitespace fill_key
parse-w1aw = refl

parse_dash : parse (codes "W1-AW") ≡ err (invalid_callsign (codes "W1-AW"))
unfolding parse strip_ascii_whitespace trim trim_end trim_start is_ascii_whitespace fill_key
parse_dash = refl

parse_blank : parse (codes "  ") ≡ err (invalid_callsign (codes "  "))
unfolding parse strip_ascii_whitespace trim trim_end trim_start is_ascii_whitespace
parse_blank = refl

as_str-w1aw : as_str w1aw ≡ codes "W1AW"
unfolding as_str trim_end
as_str-w1aw = refl

parse_iff_example : (parse (codes " w1aw ") ≡ ok w1aw) ↔ (
    IsCallsignText (normalize (codes " w1aw ")) × (w1aw ≡ padded_key (normalize (codes " w1aw "))))
parse_iff_example = parse_iff (codes " w1aw ") w1aw

parse-as_str_example : parse (as_str w1aw) ≡ ok w1aw
parse-as_str_example = parse-as_str (codes " w1aw ") w1aw parse-w1aw

parse-key_len_example : length w1aw.key ≡ key_len
parse-key_len_example = parse-key_len (codes " w1aw ") w1aw parse-w1aw
