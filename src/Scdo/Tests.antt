-- ===== src/Scdo/Tests.antt =====
-- Runs of the bytecode patch, and witnesses of its properties.
use eip_toolkit.Prelude.{
  ℕ, ◌≡◌, refl, some, [], ◌∷◌, ◌++◌, arith, ◌==◌, if◌then◌else◌, length, get_elem?, Bytes, codes,
  GoError, text, ok, err,
}
use eip_toolkit.Hex.{encode_to_string, decode_string}
use eip_toolkit.Decimal.{format_uint}
use eip_toolkit.Scdo.Bytecode.{
  patch_bytecode_for_v1, patch_bytecode_hex, count_revert_opcodes, revert_byte, patch_from,
  strip_prefix,
}
use eip_toolkit.Scdo.Bytecode.Patched.{patch_bytecode_for_v1_clears}
use eip_toolkit.Scdo.Bytecode.HexText.{patch_bytecode_hex_encoded, patch_bytecode_hex_settles}

abbrev invalid_byte : Bytes → GoError
invalid_byte s = text (codes "invalid byte")

-- PUSH1 0xfd, REVERT.
abbrev code : Bytes
code = 96 ∷ 253 ∷ 253 ∷ []

patch_bytecode_for_v1_clears_example :
    (length (patch_bytecode_for_v1 code) ≡ 3)
    × (count_revert_opcodes (patch_bytecode_for_v1 code) ≡ 0)
    × ((i b : ℕ)
        → get_elem? code i ≡ some b
        → get_elem? (patch_bytecode_for_v1 code) i ≡ some (if b == revert_byte then 0 else b))
    × (count_revert_opcodes code ≡ 0 → patch_bytecode_for_v1 code ≡ code)
patch_bytecode_for_v1_clears_example = patch_bytecode_for_v1_clears code

patched_0x_text :
    patch_bytecode_hex invalid_byte (codes "0x60fdfd")
    ≡ ok (codes "0x" ++ encode_to_string (patch_bytecode_for_v1 code))
unfolding encode_to_string
patched_0x_text =
    patch_bytecode_hex_encoded invalid_byte code (omega arith, (omega arith, (omega arith, tt)))

patched_text : patch_bytecode_hex invalid_byte (codes "60fdFD") ≡ ok (codes "0x600000")
unfolding patch_bytecode_hex strip_prefix decode_string encode_to_string patch_bytecode_for_v1
    patch_from
patched_text = refl

odd_text :
    patch_bytecode_hex invalid_byte (codes "0x123")
    ≡ err (text (codes "odd-length hex string: 3 chars"))
unfolding patch_bytecode_hex strip_prefix decode_string encode_to_string patch_bytecode_for_v1
    patch_from format_uint
odd_text = refl

patch_bytecode_hex_settles_example :
    (patch_bytecode_hex invalid_byte (codes "0x600000") ≡ ok (codes "0x600000"))
    × (c : Bytes) × (decode_string (strip_prefix (codes "0x600000")) ≡ some c)
    × (count_revert_opcodes c ≡ 0)
patch_bytecode_hex_settles_example =
    patch_bytecode_hex_settles invalid_byte (codes "60fdFD") (codes "0x600000") patched_text
