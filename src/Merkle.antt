-- ===== src/Merkle.antt =====
-- The Merkle tree of go/merkle/merkle.go. The sponge of golang.org/x/crypto/sha3 is a parameter:
-- what `Sum` returns after `data` has been written.
pub mod Pair
pub mod Levels
mod Tests
pub mod Proof
pub mod Soundness
use eip_toolkit.Prelude.{
  ℕ, zero, suc, ◌+◌, ◌/◌, Bool, Option, none, some, List, [], ◌∷◌, ◌++◌, ◌==◌, if◌then◌else◌,
  length, take, replicate, Bytes, bytes_eq, bytes_gt,
}

-- A `[32]byte`.
abbrev pub Digest : Type 0
Digest = Bytes

-- `copy(res[:], s)` into 32 zero bytes.
abbrev pub copy_32 : Bytes → Digest
copy_32 s = take 32 (s ++ replicate 32 0)

-- How `GetProof` ends: `no_fuel` is no end of the program's, but one of the model's.
pub data ProofResult : Type 0 where
  found : List Digest → ProofResult
  missing no_fuel : ProofResult

abbrev pub index_from : ℕ → List Digest → Digest → Option ℕ
index_from i [] target = none
index_from i (l ∷ leaves) target =
    if bytes_eq l target then some i else index_from (i + 1) leaves target

-- What a round of the inner loop of `GetProof` appends to the proof.
abbrev pub sibling : ℕ → ℕ → Digest → Digest → List Digest → List Digest
sibling cur i left right proof =
    if cur == i then proof ++ right ∷ [] else if cur == i + 1 then proof ++ left ∷ [] else proof

module _ (sponge : Bytes → Bytes) where
  unfoldable pub keccak_256 : Bytes → Digest
  keccak_256 data' = copy_32 (sponge data')

  -- The smaller digest comes first.
  unfoldable pub hash_pair : Digest → Digest → Digest
  hash_pair a b = if bytes_gt a b then keccak_256 (b ++ a) else keccak_256 (a ++ b)

  -- The inner loop of `BuildMerkleTree`.
  unfoldable pub next_level : List Digest → List Digest
  next_level [] = []
  next_level (a ∷ []) = hash_pair a a ∷ []
  next_level (a ∷ b ∷ tree) = hash_pair a b ∷ next_level tree

  -- The outer loop, and `tree[0]` after it: `none` is the panic on an empty tree, or no fuel.
  unfoldable pub build_from : ℕ → List Digest → Option Digest
  build_from fuel [] = none
  build_from fuel (a ∷ []) = some a
  build_from zero (a ∷ b ∷ tree) = none
  build_from (suc fuel) (a ∷ b ∷ tree) = build_from fuel (next_level (a ∷ b ∷ tree))

  unfoldable pub build_merkle_tree : List Digest → Option Digest
  build_merkle_tree leaves = build_from (length leaves) leaves

  -- The inner loop of `GetProof`: the next level, and the proof.
  unfoldable pub level_from :
      ℕ → ℕ → List Digest → List Digest → List Digest → List Digest × List Digest
  level_from cur i [] next proof = (next, proof)
  level_from cur i (a ∷ []) next proof = (next ++ hash_pair a a ∷ [], sibling cur i a a proof)
  level_from cur i (a ∷ b ∷ tree) next proof =
      level_from cur (i + 2) tree (next ++ hash_pair a b ∷ []) (sibling cur i a b proof)

  unfoldable pub proof_from : ℕ → ℕ → List Digest → List Digest → ProofResult
  proof_from fuel cur [] proof = found proof
  proof_from fuel cur (a ∷ []) proof = found proof
  proof_from zero cur (a ∷ b ∷ tree) proof = no_fuel
  proof_from (suc fuel) cur (a ∷ b ∷ tree) proof =
      let (next, proof') = level_from cur 0 (a ∷ b ∷ tree) [] proof in
      proof_from fuel (cur / 2) next proof'

  unfoldable pub get_proof : List Digest → Digest → ProofResult
  get_proof leaves target = elim (index_from 0 leaves target) [
    | none ↦ missing
    | some idx ↦ proof_from (length leaves) idx leaves []
  ]

  unfoldable pub climb : List Digest → Digest → Digest
  climb [] current = current
  climb (p ∷ proof) current = climb proof (hash_pair current p)

  unfoldable pub verify_merkle_proof : List Digest → Digest → Digest → Bool
  verify_merkle_proof proof root leaf = bytes_eq (climb proof leaf) root
