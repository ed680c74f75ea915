-- ===== src/Scdo/BigInt/Tests.antt =====
-- Runs of the texts of big integers and witnesses of their properties.
use eip_toolkit.Prelude.{◌≡◌, refl, subst, none, some, codes, text, ok, err}
use eip_toolkit.Prelude.Int.{pos, negsuc}
use eip_toolkit.Strings.{trim_left, trim_right, has_prefix}
use eip_toolkit.Scdo.BigInt.{
  read_digits, read_magnitude, set_string_16, set_string_0, hex_from, format_hex, unmarshal_hex_big,
  marshal_hex_big,
}
use eip_toolkit.Scdo.BigInt.Digits.{unmarshal_hex_big-marshal_hex_big}

printed :
    (marshal_hex_big (pos 26_184) ≡ codes "\"0x6648\"")
    × (marshal_hex_big (negsuc 15) ≡ codes "\"0x-10\"")
unfolding marshal_hex_big format_hex hex_from
printed = (refl, refl)

both_prefixes : unmarshal_hex_big (codes "\"0x0Xff\"") ≡ ok (pos 255)
unfolding unmarshal_hex_big set_string_16 read_digits trim_left trim_right has_prefix
both_prefixes = refl

no_number :
    (unmarshal_hex_big (codes "null") ≡ ok (pos 0))
    × (unmarshal_hex_big (codes "\"0xg\"") ≡ err (text (codes "invalid hex big int: \"0xg\"")))
unfolding unmarshal_hex_big set_string_16 read_digits trim_left trim_right has_prefix
no_number = (refl, refl)

other_bases :
    (set_string_0 (codes "0b101") ≡ some (pos 5))
    × (set_string_0 (codes "-017") ≡ some (negsuc 14))
    × (set_string_0 (codes "1_000") ≡ some (pos 1000))
    × (set_string_0 (codes "09") ≡ none)
    × (set_string_0 (codes "0x") ≡ none)
    × (set_string_0 (codes "1__0") ≡ none)
unfolding set_string_0 read_magnitude read_digits
other_bases = (refl, refl, refl, refl, refl, refl)

unmarshal_hex_big-marshal_hex_big_example : unmarshal_hex_big (codes "\"0x-10\"") ≡ ok (negsuc 15)
unmarshal_hex_big-marshal_hex_big_example =
    subst (λ s. unmarshal_hex_big s ≡ ok (negsuc 15)) printed.1
      (unmarshal_hex_big-marshal_hex_big (negsuc 15))
