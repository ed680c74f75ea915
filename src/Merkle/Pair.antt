-- ===== src/Merkle/Pair.antt =====
-- Pairs of digests: `HashPair` forgets their order and nothing else.
use eip_toolkit.Prelude.{
  ◌≡◌, refl, sym, ◌∙◌, ◌≢◌, ◌⊎◌, inl, inr, [], ◌∷◌, ◌++◌, arith, if◌then◌else◌, Bool-cases, length,
  replicate, length-append, length-take, Bytes, bytes_eq, bytes_gt, bytes_eq→eq, bytes_eq_iff,
  bytes_gt_asymm, bytes_gt_antisymm,
}
use eip_toolkit.Merkle.{Digest, keccak_256, hash_pair}

abbrev pub IsDigest : Digest → Type 0
IsDigest d = length d ≡ 32

-- Two inputs with one digest.
abbrev pub Collision : (Bytes → Bytes) → Type 0
Collision sponge = (x : Bytes) × (y : Bytes) × (x ≢ y) × (keccak_256 sponge x ≡ keccak_256 sponge y)

pub append_split : (a b c d : Bytes) → length a ≡ length c → a ++ b ≡ c ++ d → (a ≡ c) × (b ≡ d)
append_split [] b [] d n e = (refl, e)
append_split [] b (y ∷ c) d n e = absurd (omega arith)
append_split (x ∷ a) b [] d n e = absurd (omega arith)
append_split (x ∷ a) b (y ∷ c) d n e =
    let heads : x ≡ y = cc in
    let tails : a ++ b ≡ c ++ d = cc in
    let (ha, hb) = append_split a b c d (omega arith) tails in (cc (heads, ha), hb)

-- The same two digests, in either order.
abbrev pub SamePair : Digest → Digest → Digest → Digest → Type 0
SamePair a b c d = ((a ≡ c) × (b ≡ d)) ⊎ ((a ≡ d) × (b ≡ c))

-- The input that a pair is hashed from.
abbrev sorted : Digest → Digest → Bytes
sorted a b = if bytes_gt a b then b ++ a else a ++ b

sorted_inj :
    (a b c d : Digest)
    → IsDigest a
    → IsDigest b
    → IsDigest c
    → IsDigest d
    → sorted a b ≡ sorted c d
    → SamePair a b c d
sorted_inj a b c d ha hb hc hd e = elim (Bool-cases (bytes_gt a b)) [
  | inl gt ↦ elim (Bool-cases (bytes_gt c d)) [
    | inl gt' ↦ ground (arith, append_split b a d c)
    | inr le' ↦ ground (arith, append_split b a c d)
  ]
  | inr le ↦ elim (Bool-cases (bytes_gt c d)) [
    | inl gt' ↦ ground (arith, append_split a b d c)
    | inr le' ↦ ground (arith, append_split a b c d)
  ]
]

module _ (sponge : Bytes → Bytes) where
  pub keccak_256-IsDigest : (x : Bytes) → IsDigest (keccak_256 sponge x)
  unfolding keccak_256
  keccak_256-IsDigest x = omega (
    arith,
    length-take 32 (sponge x ++ replicate 32 0),
    length-append (sponge x) (replicate 32 0),
  )

  pub hash_pair-IsDigest : (a b : Digest) → IsDigest (hash_pair sponge a b)
  unfolding hash_pair
  hash_pair-IsDigest a b =
      ground (arith, keccak_256-IsDigest (a ++ b), keccak_256-IsDigest (b ++ a))

  -- The digest of a pair does not depend on the order of its two nodes.
  pub hash_pair_comm : (a b : Digest) → hash_pair sponge a b ≡ hash_pair sponge b a
  unfolding hash_pair
  hash_pair_comm a b = elim (Bool-cases (bytes_gt a b)) [
    | inl gt ↦ rw (gt, bytes_gt_asymm a b gt)
    | inr le ↦ elim (Bool-cases (bytes_gt b a)) [
      | inl gt ↦ rw (gt, le)
      | inr ge ↦ rw (bytes_gt_antisymm a b le ge)
    ]
  ]

  hash_pair-sorted : (a b : Digest) → hash_pair sponge a b ≡ keccak_256 sponge (sorted a b)
  unfolding hash_pair
  hash_pair-sorted a b = ground arith

  -- Two pairs of digests with one parent are the same pair, or two inputs collide.
  pub hash_pair_binds :
      (a b c d : Digest)
      → IsDigest a
      → IsDigest b
      → IsDigest c
      → IsDigest d
      → hash_pair sponge a b ≡ hash_pair sponge c d
      → SamePair a b c d ⊎ Collision sponge
  hash_pair_binds a b c d ha hb hc hd e = elim (Bool-cases (bytes_eq (sorted a b) (sorted c d))) [
    | inl same ↦ inl (sorted_inj a b c d ha hb hc hd (bytes_eq→eq _ _ same))
    | inr differ ↦ inr (
      sorted a b,
      sorted c d,
      (λ eq. cc ((bytes_eq_iff (sorted a b) (sorted c d)).1 eq, differ)),
      sym (hash_pair-sorted a b) ∙ e ∙ hash_pair-sorted c d,
    )
  ]
