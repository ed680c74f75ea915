-- ===== src/Scdo/Bytecode/HexText.antt =====
-- `PatchBytecodeHex` on the text of a bytecode, and on its own output (go/scdo/bytecode.go).
use eip_toolkit.Scdo.Bytecode.Patched.{
  patch_bytecode_for_v1-IsByte, patch_idempotent, patch_bytecode_for_v1_clears,
}
use eip_toolkit.Prelude.{
  ◌%◌, ◌≡◌, refl, ap, ◌∙◌, subst, ok_eq, inl, inr, Option, none, some, ◌++◌, arith, ◌==◌,
  Bool-cases, length, All, Bytes, codes, GoError, ok,
}
use eip_toolkit.Hex.{
  encode_to_string, decode_string, IsByte, decode_string-encode_to_string, length-encode_to_string,
  decode_string-IsByte,
}
use eip_toolkit.Scdo.Bytecode.{
  patch_bytecode_for_v1, count_revert_opcodes, strip_prefix, patch_bytecode_hex, patch_raw,
}

module _ (invalid : Bytes → GoError) where
  -- The 0x text of a bytecode is patched to the 0x text of the patched bytecode.
  pub patch_bytecode_hex_encoded :
      (code : Bytes)
      → All IsByte code
      → patch_bytecode_hex invalid (codes "0x" ++ encode_to_string code)
        ≡ ok (codes "0x" ++ encode_to_string (patch_bytecode_for_v1 code))
  unfolding patch_bytecode_hex strip_prefix
  patch_bytecode_hex_encoded code h =
      rw (length-encode_to_string code, decode_string-encode_to_string code h) (ground arith)

  Settled : Bytes → Type 0
  Settled t =
      (patch_bytecode_hex invalid t ≡ ok t)
      × (code : Bytes) × (decode_string (strip_prefix t) ≡ some code)
      × (count_revert_opcodes code ≡ 0)

  encoded-Settled :
      (raw : Bytes)
      → All IsByte raw
      → Settled (codes "0x" ++ encode_to_string (patch_bytecode_for_v1 raw))
  unfolding strip_prefix Settled
  encoded-Settled raw h =
      let patched = patch_bytecode_for_v1-IsByte raw h in
      let clears = patch_bytecode_for_v1_clears raw in
      (
        patch_bytecode_hex_encoded (patch_bytecode_for_v1 raw) patched
            ∙ ap (λ c. ok (codes "0x" ++ encode_to_string c)) (patch_idempotent raw),
        patch_bytecode_for_v1 raw,
        decode_string-encode_to_string (patch_bytecode_for_v1 raw) patched,
        clears.1,
      )

  raw_settles :
      (s t : Bytes) (o : Option Bytes)
      → decode_string s ≡ o
      → patch_raw invalid s o ≡ ok t
      → Settled t
  raw_settles s t none e h = cc
  raw_settles s t (some raw) e h =
      subst (λ z. Settled z) (ok_eq h) (encoded-Settled raw (decode_string-IsByte s raw e))

  -- Where a text is patched, the result spells a bytecode without 0xfd, and patching the result
  -- once more returns it.
  pub patch_bytecode_hex_settles :
      (s t : Bytes)
      → patch_bytecode_hex invalid s ≡ ok t
      → (patch_bytecode_hex invalid t ≡ ok t)
        × (code : Bytes) × (decode_string (strip_prefix t) ≡ some code)
        × (count_revert_opcodes code ≡ 0)
  unfolding patch_bytecode_hex Settled
  patch_bytecode_hex_settles s t h = elim (Bool-cases (length (strip_prefix s) % 2 == 0)) [
    | inl even ↦ raw_settles (strip_prefix s) t _ refl (ground arith)
    | inr odd ↦ ground arith
  ]
