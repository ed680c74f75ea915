-- ===== src/Scdo/Bytecode.antt =====
-- `PatchBytecodeForV1`, `PatchBytecodeHex` and `CountRevertOpcodes` (go/scdo/bytecode.go).
pub mod Patched
pub mod HexText
use eip_toolkit.Decimal.{format_uint}
use eip_toolkit.Hex.{encode_to_string, decode_string}
use eip_toolkit.Prelude.{
  ℕ, suc, ◌%◌, ◌||◌, Option, none, some, [], ◌∷◌, ◌++◌, ◌==◌, if◌then◌else◌, length, Bytes, codes,
  bytes_eq, GoError, text, Result, ok, err,
}

-- The opcode REVERT.
abbrev pub revert_byte : ℕ
revert_byte = 253

-- The loop `for i, b := range out`.
unfoldable pub patch_from : Bytes → Bytes
patch_from [] = []
patch_from (b ∷ bs) = (if b == revert_byte then 0 else b) ∷ patch_from bs

-- `PatchBytecodeForV1`; the copy that the loop writes to is the result.
unfoldable pub patch_bytecode_for_v1 : Bytes → Bytes
unfolding patch_from
patch_bytecode_for_v1 [] = []
patch_bytecode_for_v1 (b ∷ bs) = patch_from (b ∷ bs)

-- `CountRevertOpcodes`: `bytes.Count` of a single byte.
unfoldable pub count_revert_opcodes : Bytes → ℕ
count_revert_opcodes [] = 0
count_revert_opcodes (b ∷ bs) =
    if b == revert_byte then suc (count_revert_opcodes bs) else count_revert_opcodes bs

-- `hexcode[2:]` behind the prefix 0x or 0X.
unfoldable pub strip_prefix : Bytes → Bytes
strip_prefix [] = []
strip_prefix (c ∷ []) = c ∷ []
strip_prefix (c ∷ d ∷ s) =
    if bytes_eq (c ∷ d ∷ []) (codes "0x") || bytes_eq (c ∷ d ∷ []) (codes "0X")
    then s
    else c ∷ d ∷ s

-- `PatchBytecodeHex`; `invalid` is the error of `hex.DecodeString` on a text of even length.
module _ (invalid : Bytes → GoError) where
  abbrev pub patch_raw : Bytes → Option Bytes → Result Bytes
  patch_raw s none = err (invalid s)
  patch_raw s (some raw) = ok (codes "0x" ++ encode_to_string (patch_bytecode_for_v1 raw))

  unfoldable pub patch_bytecode_hex : Bytes → Result Bytes
  patch_bytecode_hex hexcode =
      let s = strip_prefix hexcode in
      if length s % 2 == 0
      then patch_raw s (decode_string s)
      else err (text (codes "odd-length hex string: " ++ format_uint (length s) ++ codes " chars"))
