-- ===== src/Merkle/Soundness.antt =====
-- A proof of the tree's depth that verifies shows membership, unless two inputs collide.
use eip_toolkit.Prelude.{
  ℕ, zero, suc, ◌≡◌, ◌⊎◌, inl, inr, true, some, List, [], ◌∷◌, arith, length, Elem, All, Bytes,
  bytes_eq→eq,
}
use eip_toolkit.Merkle.{
  Digest, hash_pair, next_level, build_from, build_merkle_tree, climb, verify_merkle_proof,
}
use eip_toolkit.Merkle.Pair.{IsDigest, Collision, hash_pair_binds, hash_pair-IsDigest}
use eip_toolkit.Merkle.Levels.{depth_from, depth, next_level-IsDigest}

module _ (sponge : Bytes → Bytes) where
  -- A node whose parent, with some sibling, is a node of the next level is a node of the tree.
  child_of_member :
      (x p : Digest) (tree : List Digest)
      → IsDigest x
      → IsDigest p
      → All IsDigest tree
      → Elem (hash_pair sponge x p) (next_level sponge tree)
      → Elem x tree ⊎ Collision sponge
  unfolding next_level
  child_of_member x p [] hx hp ht m = elim m [ ]
  child_of_member x p (a ∷ []) hx hp (ha, ht) (inl e) =
      elim (hash_pair_binds sponge x p a a hx hp ha ha e) [
        | inl (inl (xa, pa)) ↦ inl (inl xa)
        | inl (inr (xa, pa)) ↦ inl (inl xa)
        | inr c ↦ inr c
      ]
  child_of_member x p (a ∷ []) hx hp (ha, ht) (inr m) = absurd m
  child_of_member x p (a ∷ b ∷ tree) hx hp (ha, (hb, ht)) (inl e) =
      elim (hash_pair_binds sponge x p a b hx hp ha hb e) [
        | inl (inl (xa, pb)) ↦ inl (inl xa)
        | inl (inr (xb, pa)) ↦ inl (inr (inl xb))
        | inr c ↦ inr c
      ]
  child_of_member x p (a ∷ b ∷ tree) hx hp (ha, (hb, ht)) (inr m) =
      elim (child_of_member x p tree hx hp ht m) [
        | inl there ↦ inl (inr (inr there))
        | inr c ↦ inr c
      ]

  climb_sound :
      (fuel : ℕ) (tree proof : List Digest) (x r : Digest)
      → build_from sponge fuel tree ≡ some r
      → All IsDigest tree
      → All IsDigest proof
      → IsDigest x
      → length proof ≡ depth_from sponge fuel tree
      → climb sponge proof x ≡ r
      → Elem x tree ⊎ Collision sponge
  unfolding build_from climb
  climb_sound fuel [] proof x r e ht hp hx n c = cc
  climb_sound fuel (a ∷ []) [] x r e ht hp hx n c = inl (inl (cc))
  climb_sound fuel (a ∷ []) (p ∷ proof) x r e ht hp hx n c = absurd (omega arith)
  climb_sound zero (a ∷ b ∷ tree) proof x r e ht hp hx n c = cc
  climb_sound (suc fuel) (a ∷ b ∷ tree) [] x r e ht hp hx n c = absurd (omega arith)
  climb_sound (suc fuel) (a ∷ b ∷ tree) (p ∷ proof) x r e ht (hp, hps) hx n c =
      elim (climb_sound fuel (next_level sponge (a ∷ b ∷ tree)) proof (hash_pair sponge x p) r e
        (next_level-IsDigest sponge (a ∷ b ∷ tree)) hps (hash_pair-IsDigest sponge x p)
        (omega arith) c) [ inl m ↦ child_of_member x p (a ∷ b ∷ tree) hx hp ht m | inr k ↦ inr k ]

  -- A proof with as many digests as the tree has levels above its leaves verifies against the root
  -- only for a leaf of the tree, or else two inputs of the hash with one digest can be shown.
  pub verified_leaf_is_member :
      (leaves proof : List Digest) (root leaf : Digest)
      → build_merkle_tree sponge leaves ≡ some root
      → All IsDigest leaves
      → All IsDigest proof
      → IsDigest leaf
      → length proof ≡ depth sponge leaves
      → verify_merkle_proof sponge proof root leaf ≡ true
      → Elem leaf leaves ⊎ Collision sponge
  unfolding build_merkle_tree verify_merkle_proof
  verified_leaf_is_member leaves proof root leaf e hl hp hx n v =
      climb_sound (length leaves) leaves proof leaf root e hl hp hx n (bytes_eq→eq _ root v)
