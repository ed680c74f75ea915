-- ===== src/Merkle/Proof.antt =====
-- The proof that `GetProof` returns verifies.
use eip_toolkit.Merkle.Levels.{depth_from, depth, length-next_level}
use eip_toolkit.Merkle.Pair.{hash_pair_comm}
use native.Mathlib.Nat.{zero-add}
use eip_toolkit.Prelude.{
  ℕ, zero, suc, ◌+◌, ◌/◌, ◌≤◌, ◌<◌, ◌≡◌, refl, sym, ap, ◌∙◌, some_eq, ◌≢◌, ◌↔◌, inl, inr, true,
  none, some, List, [], ◌∷◌, ◌++◌, append_assoc, append-nil, arith, Bool-cases, Option-cases,
  some_eq, length, get_elem?, Elem, Bytes, bytes_eq, bytes_eq→eq, bytes_eq_refl, bytes_eq_iff,
}
use eip_toolkit.Merkle.{
  Digest, hash_pair, next_level, build_from, build_merkle_tree, climb, verify_merkle_proof, found,
  missing, index_from, sibling, level_from, proof_from, get_proof,
}

index_from_sound :
    (i : ℕ) (leaves : List Digest) (target : Digest) (idx : ℕ)
    → index_from i leaves target ≡ some idx
    → (k : ℕ) × (idx ≡ i + k) × (get_elem? leaves k ≡ some target)
index_from_sound i [] target idx e = cc
index_from_sound i (l ∷ leaves) target idx e = elim (Bool-cases (bytes_eq l target)) [
  | inl same ↦ (0, ground arith, ap some (bytes_eq→eq l target same))
  | inr other ↦
      let (k, at, here) = index_from_sound (i + 1) leaves target idx (rw other at e) in
      (suc k, omega arith, here)
]

index_from-none :
    (i : ℕ) (leaves : List Digest) (target : Digest)
    → (index_from i leaves target ≡ none) ↔ (¬ Elem target leaves)
index_from-none i [] target = ((λ e m. m), (λ h. refl))
index_from-none i (l ∷ leaves) target = elim (Bool-cases (bytes_eq l target)) [
  | inl same ↦ rw same ((λ e. cc), (λ h. absurd (h (inl (sym (bytes_eq→eq l target same))))))
  | inr other ↦
      let (forth, back) = index_from-none (i + 1) leaves target in
      let differ : target ≢ l = λ e. ground (arith, bytes_eq_iff l target) in
      rw other (
        (λ e m. elim m [ inl here ↦ differ here | inr there ↦ forth e there ]),
        (λ h. back (λ m. h (inr m))),
      )
]

regroup :
    (next : List Digest) (h : Digest) (rest proof : List Digest)
    → ◌≡◌ {A = List Digest × List Digest}
        ((next ++ h ∷ []) ++ rest, proof)
        (next ++ h ∷ rest, proof)
regroup next h rest proof = ap (λ (t : List Digest). (t, proof)) (append_assoc next (h ∷ []) rest)

module _ (sponge : Bytes → Bytes) where
  -- Past the current index the inner loop only builds the next level.
  level_after :
      (cur i : ℕ) (tree next proof : List Digest)
      → cur < i
      → level_from sponge cur i tree next proof ≡ (next ++ next_level sponge tree, proof)
  unfolding level_from next_level
  level_after cur i [] next proof h = rw append-nil
  level_after cur i (a ∷ []) next proof h = ground arith
  level_after cur i (a ∷ b ∷ tree) next proof h =
      let same : sibling cur i a b proof ≡ proof = ground arith in
      rw same (
        level_after cur (i + 2) tree (next ++ hash_pair sponge a b ∷ []) proof (omega arith)
        ∙ regroup next (hash_pair sponge a b) (next_level sponge tree) proof)

  -- At the current index it appends one digest, whose pair with the current node is the parent.
  level_at :
      (k cur i : ℕ) (tree next proof : List Digest) (x : Digest)
      → cur ≡ i + k
      → get_elem? tree k ≡ some x
      → (s : Digest) × (level_from sponge cur i tree next proof
          ≡ (next ++ next_level sponge tree, proof ++ s ∷ []))
        × (get_elem? (next_level sponge tree) (k / 2) ≡ some (hash_pair sponge x s))
  unfolding level_from next_level
  level_at zero cur i [] next proof x at here = cc
  level_at (suc k) cur i [] next proof x at here = cc
  level_at (suc k) cur i (a ∷ []) next proof x at here = cc
  level_at zero cur i (a ∷ []) next proof x at here =
      (a, ground arith, ap (λ y. some (hash_pair sponge y a)) (some_eq here))
  level_at zero cur i (a ∷ b ∷ tree) next proof x at here =
      let appended : sibling cur i a b proof ≡ proof ++ b ∷ [] = ground arith in
      (
        b,
        rw appended (
            level_after cur (i + 2) tree (next ++ hash_pair sponge a b ∷ []) (proof ++ b ∷ [])
              (omega arith)
            ∙ regroup next (hash_pair sponge a b) (next_level sponge tree) (proof ++ b ∷ [])),
        ap (λ y. some (hash_pair sponge y b)) (some_eq here),
      )
  level_at (suc zero) cur i (a ∷ b ∷ tree) next proof x at here =
      let appended : sibling cur i a b proof ≡ proof ++ a ∷ [] = ground arith in
      (
        a,
        rw appended (
            level_after cur (i + 2) tree (next ++ hash_pair sponge a b ∷ []) (proof ++ a ∷ [])
              (omega arith)
            ∙ regroup next (hash_pair sponge a b) (next_level sponge tree) (proof ++ a ∷ [])),
        ap some (hash_pair_comm sponge a b ∙ ap (λ y. hash_pair sponge y a) (some_eq here)),
      )
  level_at (suc (suc k)) cur i (a ∷ b ∷ tree) next proof x at here =
      let same : sibling cur i a b proof ≡ proof = ground arith in
      let (s, loop, parent) =
        level_at k cur (i + 2) tree (next ++ hash_pair sponge a b ∷ []) proof x (omega arith)
          here in
      let half : suc (suc k) / 2 ≡ suc (k / 2) = omega arith in
      (
        s,
        rw same
            (loop ∙ regroup next (hash_pair sponge a b) (next_level sponge tree) (proof ++ s ∷ [])),
        rw half parent,
      )

  -- The loop of `GetProof` from a node of the tree: its proof leads from that node to the root.
  proof_from_lem :
      (fuel cur : ℕ) (tree proof : List Digest) (x : Digest)
      → get_elem? tree cur ≡ some x
      → length tree ≤ suc fuel
      → (more : List Digest) × (r : Digest) × (proof_from sponge fuel cur tree proof
          ≡ found (proof ++ more))
        × (build_from sponge fuel tree ≡ some r)
        × (climb sponge more x ≡ r)
        × (length more ≡ depth_from sponge fuel tree)
  unfolding proof_from build_from climb
  proof_from_lem fuel cur [] proof x here h = cc
  proof_from_lem fuel zero (a ∷ []) proof x here h =
      ([], a, rw append-nil, refl, sym (some_eq here), refl)
  proof_from_lem fuel (suc cur) (a ∷ []) proof x here h = cc
  proof_from_lem zero cur (a ∷ b ∷ tree) proof x here h = absurd (omega arith)
  proof_from_lem (suc fuel) cur (a ∷ b ∷ tree) proof x here h =
      let shorter = length-next_level sponge (a ∷ b ∷ tree) in
      let (s, loop, parent) = level_at cur cur 0 (a ∷ b ∷ tree) [] proof x (omega arith) here in
      let (more, r, runs, built, climbs, n) =
        proof_from_lem fuel (cur / 2) (next_level sponge (a ∷ b ∷ tree)) (proof ++ s ∷ [])
          (hash_pair sponge x s) parent (omega arith) in
      (
        s ∷ more,
        r,
        ap (λ (p : List Digest × List Digest). proof_from sponge fuel (cur / 2) p.0 p.1) loop
            ∙ runs
            ∙ ap found (append_assoc proof (s ∷ []) more),
        built,
        climbs,
        ap suc n,
      )

  -- For a leaf of the tree `GetProof` returns a proof with one digest for each level above the leaves,
  -- and it verifies against the root that `BuildMerkleTree` computes.
  pub get_proof_verifies :
      (leaves : List Digest) (leaf : Digest)
      → Elem leaf leaves
      → (proof : List Digest) × (root : Digest) × (get_proof sponge leaves leaf ≡ found proof)
        × (build_merkle_tree sponge leaves ≡ some root)
        × (verify_merkle_proof sponge proof root leaf ≡ true)
        × (length proof ≡ depth sponge leaves)
  unfolding get_proof build_merkle_tree verify_merkle_proof
  get_proof_verifies leaves leaf member = elim (Option-cases (index_from 0 leaves leaf)) [
    | inl none' ↦ absurd ((index_from-none 0 leaves leaf).0 none' member)
    | inr (idx, at) ↦
        let (k, same, here) = index_from_sound 0 leaves leaf idx at in
        let here' : get_elem? leaves idx ≡ some leaf = rw same (rw zero-add here) in
        let (proof, root, runs, built, climbs, n) =
          proof_from_lem (length leaves) idx leaves [] leaf here' (omega arith) in
        (proof, root, rw (at, get_proof) runs, built, rw climbs (bytes_eq_refl root), n)
  ]

  -- `GetProof` reports a leaf as absent exactly where it is none of the leaves.
  pub get_proof_missing :
      (leaves : List Digest) (leaf : Digest)
      → (get_proof sponge leaves leaf ≡ missing) ↔ (¬ Elem leaf leaves)
  unfolding get_proof
  get_proof_missing leaves leaf = (absent, present)
    where
      absent : get_proof sponge leaves leaf ≡ missing → ¬ Elem leaf leaves
      absent e m =
          let (proof, root, finds, b, v, n) = get_proof_verifies leaves leaf m in cc (e, finds)

      present : (¬ Elem leaf leaves) → get_proof sponge leaves leaf ≡ missing
      present h = rw ((index_from-none 0 leaves leaf).1 h, get_proof)
