-- ===== src/Base/Sort.antt =====
-- `sorted` on texts, by code points.
use Prim.Native.Nat.{compare, Ordering}
use mathlib.Core.Path.{◌≡◌, refl}
use mathlib.Core.Bool.{Bool, true, false}
use mathlib.Core.List.{List, [], ◌∷◌, Perm}
use mathlib.Core.List.Perm
use native.Mathlib.Omega.{arith}
use autokernel.Base.Tests.{if◌then◌else◌, Bool-cases}
use mathlib.Core.Logic.{inl, inr}
use autokernel.Base.Lists.{All}
use autokernel.Base.Text.{Str}

-- `a <= b`
unfoldable pub text_le : Str → Str → Bool
text_le [] t = true
text_le (x ∷ s) [] = false
text_le (x ∷ s) (y ∷ t) = elim (compare x y) [
  | Ordering.lt ↦ true
  | Ordering.eq ↦ text_le s t
  | Ordering.gt ↦ false
]

unfoldable pub insert_sorted : Str → List Str → List Str
unfolding text_le
insert_sorted x [] = x ∷ []
insert_sorted x (y ∷ ys) = if text_le x y then x ∷ y ∷ ys else y ∷ insert_sorted x ys

unfoldable pub sorted : List Str → List Str
unfolding insert_sorted
sorted [] = []
sorted (x ∷ xs) = insert_sorted x (sorted xs)

insert_sorted-perm : (x : Str) (ys : List Str) → Perm (insert_sorted x ys) (x ∷ ys)
unfolding insert_sorted
insert_sorted-perm x [] = Perm.rfl
insert_sorted-perm x (y ∷ ys) = elim (Bool-cases (text_le x y)) [
  | inl le ↦ rw le Perm.rfl
  | inr gt ↦ rw gt (Perm.trans (Perm.cons y (insert_sorted-perm x ys)) (Perm.swap x y ys))
]

-- Sorting keeps each text as often as it was there.
pub sorted-perm : (xs : List Str) → Perm (sorted xs) xs
unfolding sorted
sorted-perm [] = Perm.rfl
sorted-perm (x ∷ xs) = Perm.trans (insert_sorted-perm x (sorted xs)) (Perm.cons x (sorted-perm xs))

pub text_le_total : (s t : Str) → text_le s t ≡ false → text_le t s ≡ true
unfolding text_le
text_le_total [] t h = cc
text_le_total (x ∷ s) [] h = refl
text_le_total (x ∷ s) (y ∷ t) h = ground (arith, text_le_total s t)

pub text_le_trans : (s t u : Str) → text_le s t ≡ true → text_le t u ≡ true → text_le s u ≡ true
unfolding text_le
text_le_trans [] t u p q = refl
text_le_trans (x ∷ s) [] u p q = cc
text_le_trans (x ∷ s) (y ∷ t) [] p q = cc
text_le_trans (x ∷ s) (y ∷ t) (z ∷ u) p q = ground (arith, text_le_trans s t u)

abbrev pub IsSorted : List Str → Type 0
IsSorted [] = Unit
IsSorted (x ∷ xs) = All (λ y. text_le x y ≡ true) xs × IsSorted xs
