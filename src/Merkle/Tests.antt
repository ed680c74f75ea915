-- ===== src/Merkle/Tests.antt =====
-- Trees over a toy sponge.
use eip_toolkit.Prelude.{
  ℕ, ◌≡◌, refl, ◌⊎◌, inl, inr, true, some, List, [], ◌∷◌, length, replicate, Elem, Bytes,
}
use eip_toolkit.Merkle.{
  Digest, keccak_256, hash_pair, next_level, build_from, build_merkle_tree, climb,
  verify_merkle_proof, found, level_from, proof_from, get_proof,
}
use eip_toolkit.Merkle.Pair.{Collision}
use eip_toolkit.Merkle.Levels.{depth, odd_leaf_counts_twice}
use eip_toolkit.Merkle.Proof.{get_proof_verifies}
use eip_toolkit.Merkle.Soundness.{verified_leaf_is_member}

-- The first bytes of the input, in place of a hash.
abbrev toy : Bytes → Bytes
toy b = b

abbrev leaf : ℕ → Digest
leaf n = replicate 32 n

abbrev leaves : List Digest
leaves = leaf 3 ∷ leaf 1 ∷ leaf 2 ∷ []

odd_leaf_counts_twice_example :
    build_merkle_tree toy (leaf 3 ∷ leaf 1 ∷ leaf 2 ∷ [])
    ≡ build_merkle_tree toy (leaf 3 ∷ leaf 1 ∷ leaf 2 ∷ leaf 2 ∷ [])
odd_leaf_counts_twice_example = odd_leaf_counts_twice toy (leaf 3 ∷ leaf 1 ∷ []) (leaf 2) 0 refl

get_proof_verifies_example :
    (proof : List Digest) × (root : Digest) × (get_proof toy leaves (leaf 2) ≡ found proof)
    × (build_merkle_tree toy leaves ≡ some root)
    × (verify_merkle_proof toy proof root (leaf 2) ≡ true)
    × (length proof ≡ depth toy leaves)
get_proof_verifies_example = get_proof_verifies toy leaves (leaf 2) (inr (inr (inl refl)))

-- The proof of the third leaf: itself, since its number is odd, and the parent of the first two.
proof_of_third : get_proof toy leaves (leaf 2) ≡ found (leaf 2 ∷ leaf 1 ∷ [])
unfolding get_proof proof_from level_from hash_pair keccak_256
proof_of_third = refl

verified_leaf_is_member_example : Elem (leaf 2) leaves ⊎ Collision toy
unfolding build_merkle_tree build_from next_level verify_merkle_proof climb hash_pair keccak_256
verified_leaf_is_member_example =
    verified_leaf_is_member toy leaves (leaf 2 ∷ leaf 1 ∷ []) (leaf 1) (leaf 2) refl
      (refl, (refl, (refl, tt))) (refl, (refl, tt)) refl refl refl
