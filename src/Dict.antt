-- ===== src/Dict.antt =====
-- Go maps with `uint64` keys, as association lists with distinct keys.
use mathlib.Core.List.{Permᴰ}
use eip_toolkit.Prelude.{
  ℕ, ◌≡◌, refl, ◌∙◌, inl, inr, Option, none, some, List, [], ◌∷◌, arith, ◌==◌, if◌then◌else◌, Elem,
}

abbrev pub Dict {ℓ} : Type ℓ → Type ℓ
Dict V = List (ℕ × V)

module _ {V : Type 0} where
  -- `v, ok := d[k]`.
  abbrev pub lookup : ℕ → Dict V → Option V
  lookup k [] = none
  lookup k ((j, v) ∷ d) = if k == j then some v else lookup k d

  -- `d[k] = v`.
  abbrev pub insert : ℕ → V → Dict V → Dict V
  insert k v [] = (k, v) ∷ []
  insert k v ((j, w) ∷ d) = if k == j then (k, v) ∷ d else (j, w) ∷ insert k v d

  -- `delete(d, k)`.
  abbrev pub erase : ℕ → Dict V → Dict V
  erase k [] = []
  erase k ((j, w) ∷ d) = if k == j then d else (j, w) ∷ erase k d

  -- No key is listed twice.
  abbrev pub Distinct : Dict V → Type 0
  Distinct [] = Unit
  Distinct ((k, v) ∷ d) = (lookup k d ≡ none) × Distinct d

  pub lookup-insert :
      (k j : ℕ) (v : V) (d : Dict V)
      → lookup j (insert k v d) ≡ (if k == j then some v else lookup j d)
  lookup-insert k j v [] = ground arith
  lookup-insert k j v ((i, w) ∷ d) = ground (arith, lookup-insert k j v d)

  pub lookup-erase :
      (k j : ℕ) (d : Dict V)
      → Distinct d
      → lookup j (erase k d) ≡ (if k == j then none else lookup j d)
  lookup-erase k j [] h = ground arith
  lookup-erase k j ((i, w) ∷ d) h = ground (arith, lookup-erase k j d h.1)

  pub insert-Distinct : (k : ℕ) (v : V) (d : Dict V) → Distinct d → Distinct (insert k v d)
  insert-Distinct k v [] h = (refl, tt)
  insert-Distinct k v ((j, w) ∷ d) h =
      ground (arith, insert-Distinct k v d h.1, lookup-insert k j v d)

  pub erase-Distinct : (k : ℕ) (d : Dict V) → Distinct d → Distinct (erase k d)
  erase-Distinct k [] h = tt
  erase-Distinct k ((j, w) ∷ d) h = ground (arith, erase-Distinct k d h.1, lookup-erase k j d h.1)

  pub lookup→Elem : (k : ℕ) (v : V) (d : Dict V) → lookup k d ≡ some v → Elem (k, v) d
  lookup→Elem k v [] h = cc
  lookup→Elem k v ((j, w) ∷ d) h = ground (arith, lookup→Elem k v d)

  pub Elem→lookup : (k : ℕ) (v : V) (d : Dict V) → Distinct d → Elem (k, v) d → lookup k d ≡ some v
  Elem→lookup k v [] h m = elim m [ ]
  Elem→lookup k v ((j, w) ∷ d) h m = ground (arith, Elem→lookup k v d h.1)

-- A permutation holds the same members.
pub Elem-perm : {A : Type 0} {xs ys : List A} (a : A) → Permᴰ xs ys → Elem a xs → Elem a ys
Elem-perm a Permᴰ.nil h = h
Elem-perm a (Permᴰ.cons e p) (inl h) = inl (h ∙ e)
Elem-perm a (Permᴰ.cons e p) (inr h) = inr (Elem-perm a p h)
Elem-perm a (Permᴰ.swap e f) (inl h) = inr (inl (h ∙ e))
Elem-perm a (Permᴰ.swap e f) (inr (inl h)) = inl (h ∙ f)
Elem-perm a (Permᴰ.swap e f) (inr (inr h)) = inr (inr h)
Elem-perm a (Permᴰ.trans p q) h = Elem-perm a q (Elem-perm a p h)
