-- ===== src/Patches/Config/Merged.antt =====
-- `merged_config` of src/autokernel/patches.py.
use autokernel.Base.{
  Bool, true, false, ◌&&◌, List, [], ◌∷◌, ◌++◌, Option, none, some, Str, ◌≡◌, refl, sym, ◌∙◌, inl,
  inr, eq_of_same, All, any, same, same_refl, lookup, if◌then◌else◌, Bool-cases, arith,
}
use autokernel.Base.Dict.{set_key, lookup-set_key}
use autokernel.Patches.Sets.{PatchSet}
use autokernel.Patches.Config.{
  Union, clashing, union, merge_set, merge_sets, merged_config, clashes, go_on, value_or_nil,
  origin_of,
}

-- What a set wants of a symbol.
pub record Wish : Type 0 where
  pub set_name : Str
  pub symbol : Str
  pub value : Str

abbrev pub wishes_of : Str → List (Str × Str) → List Wish
wishes_of name [] = []
wishes_of name ((s, v) ∷ config) =
    record { set_name = name; symbol = s; value = v } ∷ wishes_of name config

abbrev pub wishes : List PatchSet → List Wish
wishes [] = []
wishes (ps ∷ sets) = wishes_of ps.name ps.config ++ wishes sets

abbrev pub has_wish : Str → Str → Str → List Wish → Bool
has_wish name s v = any (λ w. same name w.set_name && (same s w.symbol && same v w.value))

-- The union has what every set wants. Otherwise different values of a symbol are wanted.
abbrev pub IsUnion : List Wish → Union → Type 0
IsUnion ws (union out origin) = All (λ w. lookup w.symbol out ≡ some w.value) ws
IsUnion ws (clashing c) =
    (same c.first_value c.second_value ≡ false)
    × (has_wish c.first_set c.symbol c.first_value ws ≡ true)
    × (has_wish c.second_set c.symbol c.second_value ws ≡ true)

-- The loops as one, over all wishes.
unfoldable merge_wishes : List Wish → List (Str × Str) → List (Str × Str) → Union
merge_wishes [] out origin = union out origin
merge_wishes (w ∷ ws) out origin =
    let on = merge_wishes ws (set_key w.symbol w.value out) (set_key w.symbol w.set_name origin) in
    if clashes (lookup w.symbol out) w.value
    then clashing (record {
      symbol = w.symbol;
      first_set = origin_of (lookup w.symbol origin);
      first_value = value_or_nil (lookup w.symbol out);
      second_set = w.set_name;
      second_value = w.value;
    })
    else on

merge_wishes-append :
    (xs ys : List Wish) (out origin : List (Str × Str))
    → merge_wishes (xs ++ ys) out origin ≡ go_on (merge_wishes xs out origin) (merge_wishes ys)
unfolding merge_wishes
merge_wishes-append [] ys out origin = refl
merge_wishes-append (w ∷ xs) ys out origin =
    elim (Bool-cases (clashes (lookup w.symbol out) w.value)) [
      | inl clash ↦ rw clash refl
      | inr fine ↦ rw fine (merge_wishes-append xs ys _ _)
    ]

merge_set-wishes :
    (name : Str) (config out origin : List (Str × Str))
    → merge_set name config out origin ≡ merge_wishes (wishes_of name config) out origin
unfolding merge_set merge_wishes
merge_set-wishes name [] out origin = refl
merge_set-wishes name ((s, v) ∷ config) out origin = elim (Bool-cases (clashes (lookup s out) v)) [
  | inl clash ↦ rw clash refl
  | inr fine ↦ rw fine (merge_set-wishes name config _ _)
]

go_on-eq :
    (u : Union) (f g : List (Str × Str) → List (Str × Str) → Union)
    → ((out origin : List (Str × Str)) → f out origin ≡ g out origin)
    → go_on u f ≡ go_on u g
go_on-eq (clashing c) f g h = refl
go_on-eq (union out origin) f g h = h out origin

merge_sets-step :
    (ps : PatchSet) (sets : List PatchSet) (out origin : List (Str × Str))
    → merge_sets (ps ∷ sets) out origin
      ≡ go_on (merge_set ps.name ps.config out origin) (merge_sets sets)
unfolding merge_sets
merge_sets-step ps sets out origin = refl

merge_sets-wishes :
    (sets : List PatchSet) (out origin : List (Str × Str))
    → merge_sets sets out origin ≡ merge_wishes (wishes sets) out origin
unfolding merge_sets merge_wishes
merge_sets-wishes [] out origin = refl
merge_sets-wishes (ps ∷ sets) out origin =
    merge_sets-step ps sets out origin
    ∙ (rw (merge_set-wishes ps.name ps.config out origin) (
          go_on-eq (merge_wishes (wishes_of ps.name ps.config) out origin) (merge_sets sets)
            (merge_wishes (wishes sets)) (merge_sets-wishes sets))
        ∙ sym (merge_wishes-append (wishes_of ps.name ps.config) (wishes sets) out origin))

-- Every value so far is one that the set of its origin wants.
abbrev Comes : List Wish → List (Str × Str) → List (Str × Str) → Type 0
Comes all out origin =
    (s v : Str) → lookup s out ≡ some v → has_wish (origin_of (lookup s origin)) s v all ≡ true

-- What is known of the union of wishes, some of which are in `out` already.
abbrev Merges : List Wish → List Wish → List (Str × Str) → Union → Type 0
Merges all ws out (union out1 origin) =
    All (λ w. lookup w.symbol out1 ≡ some w.value) ws
    × ((s v : Str) → lookup s out ≡ some v → lookup s out1 ≡ some v)
Merges all ws out (clashing c) = IsUnion all (clashing c)

kept_value : (o : Option Str) (v w : Str) → clashes o w ≡ false → o ≡ some v → same v w ≡ true
kept_value none v w h e = cc
kept_value (some u) v w h e = ground arith

-- A value that does not clash is in the table behind the next one.
kept :
    (s v : Str) (w : Wish) (out : List (Str × Str))
    → clashes (lookup w.symbol out) w.value ≡ false
    → lookup s out ≡ some v
    → lookup s (set_key w.symbol w.value out) ≡ some v
kept s v w out fine e = elim (Bool-cases (same s w.symbol)) [
  | inl eq ↦
      let found : lookup w.symbol out ≡ some v = rw (sym (eq_of_same s w.symbol eq)) e in
      let agree : same v w.value ≡ true = kept_value (lookup w.symbol out) v w.value fine found in
      rw (lookup-set_key s w.symbol w.value out, eq, eq_of_same v w.value agree) refl
  | inr ne ↦ rw (lookup-set_key s w.symbol w.value out, ne) e
]

module _ (all : List Wish) (w : Wish) where
  Merges-cons :
      (ws : List Wish) (out : List (Str × Str)) (u : Union)
      → clashes (lookup w.symbol out) w.value ≡ false
      → Merges all ws (set_key w.symbol w.value out) u
      → Merges all (w ∷ ws) out u
  Merges-cons ws out (clashing c) fine h = h
  Merges-cons ws out (union out1 origin) fine (h, k) = (
    (
      k w.symbol w.value
          (rw (lookup-set_key w.symbol w.symbol w.value out, same_refl w.symbol) refl),
      h,
    ),
    λ s v e. k s v (kept s v w out fine e),
  )

  Comes-step :
      (out origin : List (Str × Str))
      → has_wish w.set_name w.symbol w.value all ≡ true
      → Comes all out origin
      → Comes all (set_key w.symbol w.value out) (set_key w.symbol w.set_name origin)
  Comes-step out origin h g s v e = elim (Bool-cases (same s w.symbol)) [
    | inl eq ↦
        let found : lookup s (set_key w.symbol w.value out) ≡ some w.value =
          lookup-set_key s w.symbol w.value out ∙ rw eq refl in
        let value : w.value ≡ v = cc in
        rw (lookup-set_key s w.symbol w.set_name origin, eq, eq_of_same s w.symbol eq, sym value) h
    | inr ne ↦
        let other : lookup s (set_key w.symbol w.value out) ≡ lookup s out =
          lookup-set_key s w.symbol w.value out ∙ rw ne refl in
        rw (lookup-set_key s w.symbol w.set_name origin, ne) (g s v (sym other ∙ e))
  ]

head_wish : (w : Wish) (ws : List Wish) → has_wish w.set_name w.symbol w.value (w ∷ ws) ≡ true
head_wish w ws = rw (same_refl w.set_name, same_refl w.symbol, same_refl w.value) refl

-- The two sides of a clash.
module _ (all : List Wish) (w : Wish) (name : Str) where
  clash-Merges :
      (o : Option Str) (value : Str)
      → clashes o value ≡ true
      → has_wish w.set_name w.symbol value all ≡ true
      → ((v : Str) → o ≡ some v → has_wish name w.symbol v all ≡ true)
      → (same (value_or_nil o) value ≡ false)
        × (has_wish name w.symbol (value_or_nil o) all ≡ true)
        × (has_wish w.set_name w.symbol value all ≡ true)
  clash-Merges none value h wished g = cc
  clash-Merges (some v) value h wished g = (ground arith, g v refl, wished)

Merges-IsUnion : (ws : List Wish) (u : Union) → Merges ws ws [] u → IsUnion ws u
Merges-IsUnion ws (union out origin) (h, k) = h
Merges-IsUnion ws (clashing c) h = h

merge_wishes-Merges :
    (all ws : List Wish) (out origin : List (Str × Str))
    → ((n s v : Str) → has_wish n s v ws ≡ true → has_wish n s v all ≡ true)
    → Comes all out origin
    → Merges all ws out (merge_wishes ws out origin)
unfolding merge_wishes
merge_wishes-Merges all [] out origin h g = (tt, λ s v e. e)
merge_wishes-Merges all (w ∷ ws) out origin h g =
    let wished = h w.set_name w.symbol w.value (head_wish w ws) in
    elim (Bool-cases (clashes (lookup w.symbol out) w.value)) [
      | inl clash ↦ rw clash (
          clash-Merges all w (origin_of (lookup w.symbol origin)) (lookup w.symbol out) w.value
            clash wished (g w.symbol))
      | inr fine ↦ rw fine (
          Merges-cons all w ws out _ fine (
            merge_wishes-Merges all ws (set_key w.symbol w.value out)
              (set_key w.symbol w.set_name origin) (λ n s v k. h n s v (ground (arith, k)))
              (Comes-step all w out origin wished g)))
    ]

-- The union of the configurations has what every set wants of its symbols. An error names two
-- values of one symbol that differ, each with a set that wants it.
pub merged_config-IsUnion : (sets : List PatchSet) → IsUnion (wishes sets) (merged_config sets)
unfolding merged_config
merged_config-IsUnion sets = rw (merge_sets-wishes sets [] []) (
    Merges-IsUnion (wishes sets) (merge_wishes (wishes sets) [] [])
      (merge_wishes-Merges (wishes sets) (wishes sets) [] [] (λ n s v h. h) (λ s v e. cc)))
