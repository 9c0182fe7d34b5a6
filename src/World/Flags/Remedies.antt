-- ===== src/World/Flags/Remedies.antt =====
-- What a package's remedy does to its flags and options.
use autokernel.Base.{
  ◌||◌, List, [], ◌∷◌, Str, ◌≡◌, refl, ◌∙◌, arith, same, member, sorted, insert_sorted,
}

member-insert_sorted :
    (x y : Str) (xs : List Str) → member x (insert_sorted y xs) ≡ (same x y || member x xs)
unfolding insert_sorted
member-insert_sorted x y [] = refl
member-insert_sorted x y (z ∷ xs) = ground (arith, member-insert_sorted x y xs)

pub member-sorted : (x : Str) (xs : List Str) → member x (sorted xs) ≡ member x xs
unfolding sorted
member-sorted x [] = refl
member-sorted x (y ∷ xs) = member-insert_sorted x y (sorted xs) ∙ rw (member-sorted x xs) refl
