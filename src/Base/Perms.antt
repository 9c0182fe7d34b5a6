-- ===== src/Base/Perms.antt =====
-- Permutations of lists that a loop fills at the end.
use mathlib.Core.List.{List, [], ◌∷◌, ◌++◌, Perm, perm_middle, append_assoc}
use mathlib.Core.List.Perm

-- An element at the end of a part is an element in front of the whole.
pub snoc-perm {ℓ} :
    {A : Type ℓ} (xs ys : List A) (x : A) → Perm ((xs ++ x ∷ []) ++ ys) (x ∷ (xs ++ ys))
snoc-perm xs ys x = rw append_assoc (perm_middle xs ys)

pub shift-perm {ℓ} :
    {A : Type ℓ} (xs : List A) {ys zs : List A} (x : A)
    → Perm zs (x ∷ ys)
    → Perm (xs ++ zs) (x ∷ (xs ++ ys))
shift-perm xs x h = Perm.trans (Perm.append_left xs h) (perm_middle xs _)
