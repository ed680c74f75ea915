-- ===== src/Scdo/Bytecode/Patched.antt =====
-- What `PatchBytecodeForV1` and `PatchBytecodeHex` leave in a bytecode (go/scdo/bytecode.go).
use eip_toolkit.Hex.{IsByte}
use eip_toolkit.Prelude.{
  ℕ, zero, suc, ◌+◌, ◌≤◌, ◌<◌, ◌≡◌, refl, sym, ap, ◌∙◌, ◌≢◌, some, [], ◌∷◌, ◌++◌, arith, ◌==◌,
  if◌then◌else◌, length, get_elem?, Elem, All, Bytes,
}
use eip_toolkit.Scdo.Bytecode.{revert_byte, patch_from, patch_bytecode_for_v1, count_revert_opcodes}

patch_lem : (code : Bytes) → patch_bytecode_for_v1 code ≡ patch_from code
unfolding patch_bytecode_for_v1 patch_from
patch_lem [] = refl
patch_lem (b ∷ bs) = refl

length-patch_from : (code : Bytes) → length (patch_from code) ≡ length code
unfolding patch_from
length-patch_from [] = refl
length-patch_from (b ∷ bs) = ap suc (length-patch_from bs)

count-patch_from : (code : Bytes) → count_revert_opcodes (patch_from code) ≡ 0
unfolding patch_from count_revert_opcodes
count-patch_from [] = refl
count-patch_from (b ∷ bs) = ground (arith, count-patch_from bs)

patch_from_unchanged : (code : Bytes) → count_revert_opcodes code ≡ 0 → patch_from code ≡ code
unfolding patch_from count_revert_opcodes
patch_from_unchanged [] h = refl
patch_from_unchanged (b ∷ bs) h = ground (arith, patch_from_unchanged bs)

patch_from_at :
    (code : Bytes) (i b : ℕ)
    → get_elem? code i ≡ some b
    → get_elem? (patch_from code) i ≡ some (if b == revert_byte then 0 else b)
unfolding patch_from
patch_from_at [] i b h = cc
patch_from_at (c ∷ bs) zero b h = ground arith
patch_from_at (c ∷ bs) (suc i) b h = patch_from_at bs i b h

-- The patched code is as long as the code and has no byte 0xfd; a byte 0xfd becomes 0x00 and every
-- other byte stays; a code without 0xfd is returned as it is.
pub patch_bytecode_for_v1_clears :
    (code : Bytes)
    → (length (patch_bytecode_for_v1 code) ≡ length code)
      × (count_revert_opcodes (patch_bytecode_for_v1 code) ≡ 0)
      × ((i b : ℕ)
          → get_elem? code i ≡ some b
          → get_elem? (patch_bytecode_for_v1 code) i ≡ some (if b == revert_byte then 0 else b))
      × (count_revert_opcodes code ≡ 0 → patch_bytecode_for_v1 code ≡ code)
patch_bytecode_for_v1_clears code =
    rw (patch_lem code)
      (length-patch_from code, count-patch_from code, patch_from_at code, patch_from_unchanged code)

patch_from-append : (xs ys : Bytes) → patch_from (xs ++ ys) ≡ patch_from xs ++ patch_from ys
unfolding patch_from
patch_from-append [] ys = refl
patch_from-append (x ∷ xs) ys =
    ap (λ t. (if x == revert_byte then 0 else x) ∷ t) (patch_from-append xs ys)

count-Elem : (code : Bytes) → Elem revert_byte code → count_revert_opcodes code ≢ 0
unfolding count_revert_opcodes
count-Elem [] h e = elim h [ ]
count-Elem (b ∷ bs) h e = ground (arith, count-Elem bs)

-- The data of a PUSH instruction of `n` bytes is patched as well: where it holds 0xfd, the code
-- pushes another value behind the patch.
pub push_data_is_changed :
    (n : ℕ) (pushed rest : Bytes)
    → 0 < n
    → n ≤ 32
    → length pushed ≡ n
    → Elem revert_byte pushed
    → (pushed' : Bytes) × (patch_bytecode_for_v1 ((95 + n) ∷ pushed ++ rest)
        ≡ (95 + n) ∷ pushed' ++ patch_bytecode_for_v1 rest)
      × (length pushed' ≡ n)
      × (pushed' ≢ pushed)
unfolding patch_from
push_data_is_changed n pushed rest pos small len h = (
  patch_from pushed,
  patch_lem _ ∙ opcode ∙ ap (λ t. (95 + n) ∷ patch_from pushed ++ t) (sym (patch_lem rest)),
  length-patch_from pushed ∙ len,
  changed,
)
  where
    opcode :
        patch_from ((95 + n) ∷ pushed ++ rest) ≡ (95 + n) ∷ patch_from pushed ++ patch_from rest
    opcode = rw (patch_from-append pushed rest) (ground arith)

    changed : patch_from pushed ≢ pushed
    changed e = count-Elem pushed h (ap count_revert_opcodes (sym e) ∙ count-patch_from pushed)

patch_from-IsByte : (code : Bytes) → All IsByte code → All IsByte (patch_from code)
unfolding patch_from
patch_from-IsByte [] h = tt
patch_from-IsByte (b ∷ bs) (hb, hbs) = ground (arith, patch_from-IsByte bs)

pub patch_idempotent :
    (code : Bytes) → patch_bytecode_for_v1 (patch_bytecode_for_v1 code) ≡ patch_bytecode_for_v1 code
patch_idempotent code =
    patch_lem _
    ∙ patch_from_unchanged _ (ap count_revert_opcodes (patch_lem code) ∙ count-patch_from code)

pub patch_bytecode_for_v1-IsByte :
    (code : Bytes) → All IsByte code → All IsByte (patch_bytecode_for_v1 code)
patch_bytecode_for_v1-IsByte code h = rw (patch_lem code) (patch_from-IsByte code h)
