-- ===== src/LogFilter/Redis/Gather.antt =====
-- The lists that a function makes of the members of a list, one after the other.
use eip_toolkit.Prelude.{
  refl, subst, inl, inr, List, [], ◌∷◌, ◌++◌, Elem, Elem-append_left, Elem-append_right,
  Elem-append_cases,
}

abbrev pub gather : {A B : Type 0} → (A → List B) → List A → List B
gather f [] = []
gather f (x ∷ xs) = f x ++ gather f xs

pub Elem-gather_split :
    {A B : Type 0} (f : A → List B) (xs : List A) (b : B)
    → Elem b (gather f xs)
    → (a : A) × Elem a xs × Elem b (f a)
Elem-gather_split f [] b h = elim h [ ]
Elem-gather_split f (x ∷ xs) b h = elim (Elem-append_cases b (f x) (gather f xs) h) [
  | inl here ↦ (x, inl refl, here)
  | inr later ↦ let (a, m, e) = Elem-gather_split f xs b later in (a, inr m, e)
]

pub Elem-gather :
    {A B : Type 0} (f : A → List B) (xs : List A) (a : A) (b : B)
    → Elem a xs
    → Elem b (f a)
    → Elem b (gather f xs)
Elem-gather f [] a b m e = elim m [ ]
Elem-gather f (x ∷ xs) a b (inl here) e =
    Elem-append_left b (f x) (gather f xs) (subst (λ z. Elem b (f z)) here e)
Elem-gather f (x ∷ xs) a b (inr later) e =
    Elem-append_right b (f x) (gather f xs) (Elem-gather f xs a b later e)
