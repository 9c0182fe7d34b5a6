-- ===== src/Base/Dict.antt =====
-- A Python dictionary from texts, in the order of its insertions.
use autokernel.Base.{
  Str, List, [], ◌∷◌, ◌++◌, some, same, same_iff, lookup, if◌then◌else◌, ◌≡◌, refl, arith,
}

-- `d[k] = v`: a key that is there keeps its place.
unfoldable pub set_key {ℓ} : {V : Type ℓ} → Str → V → List (Str × V) → List (Str × V)
set_key k v [] = (k, v) ∷ []
set_key k v ((j, w) ∷ m) = if same k j then (j, v) ∷ m else (j, w) ∷ set_key k v m

-- Several of them, one behind the other.
unfoldable pub set_all {ℓ} : {V : Type ℓ} → List (Str × V) → List (Str × V) → List (Str × V)
set_all [] m = m
set_all ((k, v) ∷ kvs) m = set_all kvs (set_key k v m)

module _ {ℓ} {V : Type ℓ} where
  pub set_all-append : (xs ys m : List (Str × V)) → set_all (xs ++ ys) m ≡ set_all ys (set_all xs m)
  unfolding set_all
  set_all-append [] ys m = refl
  set_all-append ((k, v) ∷ xs) ys m = set_all-append xs ys (set_key k v m)

  pub lookup-set_key :
      (x k : Str) (v : V) (m : List (Str × V))
      → lookup x (set_key k v m) ≡ (if same x k then some v else lookup x m)
  unfolding set_key
  lookup-set_key x k v [] = refl
  lookup-set_key x k v ((j, w) ∷ m) =
      ground (arith, same_iff x k, same_iff k j, same_iff x j, lookup-set_key x k v m)
