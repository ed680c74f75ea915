-- ===== src/Merkle/Levels.antt =====
-- The levels of a tree: their lengths, and the number of rounds up to the root.
use eip_toolkit.Prelude.{
  ℕ, zero, suc, ◌+◌, ◌-◌, ◌*◌, ◌/◌, ◌≤◌, ◌≡◌, refl, sym, ap, ◌∙◌, ◌≢◌, ◌↔◌, some, List, [], ◌∷◌,
  ◌++◌, arith, length, length-append, All, Bytes,
}
use eip_toolkit.Merkle.{Digest, hash_pair, next_level, build_from, build_merkle_tree}
use eip_toolkit.Merkle.Pair.{IsDigest, hash_pair-IsDigest}

module _ (sponge : Bytes → Bytes) where
  pub length-next_level :
      (tree : List Digest) → length (next_level sponge tree) ≡ (length tree + 1) / 2
  unfolding next_level
  length-next_level [] = omega arith
  length-next_level (a ∷ []) = omega arith
  length-next_level (a ∷ b ∷ tree) = omega (arith, length-next_level tree)

  pub next_level-IsDigest : (tree : List Digest) → All IsDigest (next_level sponge tree)
  unfolding next_level
  next_level-IsDigest [] = tt
  next_level-IsDigest (a ∷ []) = (hash_pair-IsDigest sponge a a, tt)
  next_level-IsDigest (a ∷ b ∷ tree) = (hash_pair-IsDigest sponge a b, next_level-IsDigest tree)

  -- The number of rounds up to the root.
  abbrev pub depth_from : ℕ → List Digest → ℕ
  depth_from fuel [] = 0
  depth_from fuel (a ∷ []) = 0
  depth_from zero (a ∷ b ∷ tree) = 0
  depth_from (suc fuel) (a ∷ b ∷ tree) = suc (depth_from fuel (next_level sponge (a ∷ b ∷ tree)))

  abbrev pub depth : List Digest → ℕ
  depth leaves = depth_from (length leaves) leaves

  -- With a fuel of the tree's length the root is reached.
  build_from_total :
      (fuel : ℕ) (tree : List Digest)
      → 1 ≤ length tree
      → length tree ≤ suc fuel
      → (r : Digest) × (build_from sponge fuel tree ≡ some r)
  unfolding build_from
  build_from_total fuel [] pos h = absurd (omega arith)
  build_from_total zero (a ∷ []) pos h = (a, refl)
  build_from_total (suc fuel) (a ∷ []) pos h = (a, refl)
  build_from_total zero (a ∷ b ∷ tree) pos h = absurd (omega arith)
  build_from_total (suc fuel) (a ∷ b ∷ tree) pos h =
      let shorter = length-next_level (a ∷ b ∷ tree) in
      build_from_total fuel (next_level sponge (a ∷ b ∷ tree)) (omega arith) (omega arith)

  -- The loop always ends, and the tree has a root exactly where there is a leaf; on no leaves the
  -- program panics.
  pub build_merkle_tree_total :
      (leaves : List Digest)
      → ((r : Digest) × (build_merkle_tree sponge leaves ≡ some r)) ↔ (leaves ≢ [])
  unfolding build_merkle_tree build_from
  build_merkle_tree_total [] = ((λ (r, e). cc), (λ h. absurd (h refl)))
  build_merkle_tree_total (a ∷ leaves) = (
    (λ (r, e). cc),
    (λ h. build_from_total (length (a ∷ leaves)) (a ∷ leaves) (omega arith) (omega arith)),
  )

  -- More fuel than the tree's length changes nothing.
  build_from_more :
      (fuel : ℕ) (tree : List Digest)
      → length tree ≤ suc fuel
      → build_from sponge (suc fuel) tree ≡ build_from sponge fuel tree
  unfolding build_from
  build_from_more fuel [] h = refl
  build_from_more zero (a ∷ []) h = refl
  build_from_more (suc fuel) (a ∷ []) h = refl
  build_from_more zero (a ∷ b ∷ tree) h = absurd (omega arith)
  build_from_more (suc fuel) (a ∷ b ∷ tree) h =
      let shorter = length-next_level (a ∷ b ∷ tree) in
      build_from_more fuel (next_level sponge (a ∷ b ∷ tree)) (omega arith)

  append_even :
      (xs : List Digest) (a : Digest) (k : ℕ)
      → length xs ≡ 2 * k
      → next_level sponge (xs ++ a ∷ []) ≡ next_level sponge (xs ++ a ∷ a ∷ [])
  unfolding next_level
  append_even [] a k e = refl
  append_even (x ∷ []) a k e = absurd (omega arith)
  append_even (x ∷ y ∷ xs) a k e =
      ap (λ t. hash_pair sponge x y ∷ t) (append_even xs a (k - 1) (omega arith))

  -- Leaves of odd number, three or more, have the root of the same leaves with the last one
  -- repeated: the root does not tell how many leaves there are.
  pub odd_leaf_counts_twice :
      (xs : List Digest) (a : Digest) (k : ℕ)
      → length xs ≡ 2 * suc k
      → build_merkle_tree sponge (xs ++ a ∷ []) ≡ build_merkle_tree sponge (xs ++ a ∷ a ∷ [])
  unfolding build_merkle_tree build_from
  odd_leaf_counts_twice [] a k e = absurd (omega arith)
  odd_leaf_counts_twice (x ∷ []) a k e = absurd (omega arith)
  odd_leaf_counts_twice (x ∷ y ∷ xs) a k e =
      let short = length-append xs (a ∷ []) in
      let long = length-append xs (a ∷ a ∷ []) in
      let same = append_even (x ∷ y ∷ xs) a (suc k) e in
      let longer : length (xs ++ a ∷ a ∷ []) ≡ suc (length (xs ++ a ∷ [])) = omega arith in
      let shorter = length-next_level (x ∷ y ∷ (xs ++ a ∷ a ∷ [])) in
      let m = length (xs ++ a ∷ []) in
      let level = next_level sponge (x ∷ y ∷ (xs ++ a ∷ a ∷ [])) in
      ap (build_from sponge (suc m)) same
      ∙ sym (build_from_more (suc m) level (omega arith))
      ∙ ap (λ f. build_from sponge (suc f) level) (sym longer)
