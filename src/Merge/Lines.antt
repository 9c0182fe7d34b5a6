-- ===== src/Merge/Lines.antt =====
-- What the lines of a `.config` say of a symbol, before and after the merge.
use autokernel.Base.{
  Bool, false, ◌&&◌, ◌||◌, List, [], ◌∷◌, ◌++◌, Option, none, some, Str, ◌≡◌, refl, ap, sym, ◌∙◌,
  arith, same, same_iff, eq_of_same, member, lookup, if◌then◌else◌, Bool-cases, inl, inr,
  Option-cases, All, map, append_assoc, append-nil, is_some, any,
}
use autokernel.Base.Dict.{set_key, lookup-set_key}
use autokernel.Kfrag.Lines.{IsSymbol}
use autokernel.Merge.{normalize_value, format_value, merge_line, merge_lines, Merging, read_config}
use autokernel.Merge.Format.{IsSettled}

-- The later of two values.
abbrev pub later {ℓ} : {A : Type ℓ} → Option A → Option A → Option A
later none b = b
later (some a) b = some a

abbrev pub value_if : Str → Option (Str × Str) → Option Str
value_if x none = none
value_if x (some (s, v)) = if same x s then some v else none

-- The last value that the lines give the symbol `x`.
unfoldable pub value_in : Str → List Str → Option Str
value_in x [] = none
value_in x (line ∷ lines) = later (value_in x lines) (value_if x (normalize_value line))

pub later-none {ℓ} : {A : Type ℓ} (o : Option A) → later o none ≡ o
later-none none = refl
later-none (some a) = refl

pub lookup-read_config :
    (x : Str) (lines : List Str) (m : List (Str × Str))
    → lookup x (read_config lines m) ≡ later (value_in x lines) (lookup x m)
unfolding read_config value_in
lookup-read_config x [] m = refl
lookup-read_config x (line ∷ lines) m = elim (Option-cases (normalize_value line)) [
  | inl e ↦ rw (e, later-none (value_in x lines)) (lookup-read_config x lines m)
  | inr ((s, v), e) ↦
      rw e (lookup-read_config x lines (set_key s v m) ∙ ground (arith, lookup-set_key x s v m))
]

pub value_in-append :
    (x : Str) (xs ys : List Str) → value_in x (xs ++ ys) ≡ later (value_in x ys) (value_in x xs)
unfolding value_in
value_in-append x [] ys = ground arith
value_in-append x (l ∷ xs) ys = ground (arith, value_in-append x xs ys)

-- Every symbol of the fragment is one, and every value is settled.
abbrev pub IsClean : List (Str × Str) → Type 0
IsClean = All (λ kv. IsSymbol kv.0 × IsSettled kv.1)

pub lookup-IsClean :
    (frag : List (Str × Str)) (x v : Str)
    → IsClean frag
    → lookup x frag ≡ some v
    → IsSymbol x × IsSettled v
lookup-IsClean [] x v c h = cc
lookup-IsClean ((k, w) ∷ frag) x v c h = elim (Bool-cases (same x k)) [
  | inl e ↦ rw (eq_of_same x k e) (let ev : w ≡ v = ground (arith, h, e) in rw (sym ev) c.0)
  | inr e ↦ lookup-IsClean frag x v c.1 (ground (arith, h, e))
]

module _ (frag : List (Str × Str)) where
  abbrev or_line : Str → Option Str → Str → Str → Str
  or_line line none s base = line
  or_line line (some v) s base = if same v base then line else format_value s v

  abbrev merged_normalized : Str → Option (Str × Str) → Str
  merged_normalized line none = line
  merged_normalized line (some (s, base)) = or_line line (lookup s frag) s base

  -- The line that stands in the merged text for a line of the base.
  abbrev pub merged_line : Str → Str
  merged_line line = merged_normalized line (normalize_value line)

  merge_line-out :
      (line : Str) (m : Merging)
      → (merge_line frag line m).out_lines ≡ m.out_lines ++ merged_line line ∷ []
  unfolding merge_line
  merge_line-out line m = elim (Option-cases (normalize_value line)) [
    | inl e ↦ rw e refl
    | inr ((s, base), e) ↦ elim (Option-cases (lookup s frag)) [
      | inl absent ↦ rw (e, absent) refl
      | inr (v, found) ↦ elim (Bool-cases (same v base)) [
        | inl agree ↦ rw (e, found, agree) refl
        | inr differ ↦ rw (e, found, differ) refl
      ]
    ]
  ]

  pub merge_lines-out :
      (lines : List Str) (m : Merging)
      → (merge_lines frag lines m).out_lines ≡ m.out_lines ++ map merged_line lines
  unfolding merge_lines
  merge_lines-out [] m = sym (append-nil m.out_lines)
  merge_lines-out (line ∷ lines) m =
      merge_lines-out lines (merge_line frag line m)
      ∙ ap (λ l. l ++ map merged_line lines) (merge_line-out line m)
      ∙ append_assoc m.out_lines (merged_line line ∷ []) (map merged_line lines)

  abbrev pub sets_symbol : Str → Option (Str × Str) → Bool
  sets_symbol x none = false
  sets_symbol x (some (s, v)) = same x s

  -- Whether a line sets the symbol.
  abbrev pub sets_in : Str → Str → Bool
  sets_in x line = sets_symbol x (normalize_value line)

  merge_line-seen :
      (x line : Str) (m : Merging)
      → member x (merge_line frag line m).seen_in_base
        ≡ ((is_some (lookup x frag) && sets_in x line) || member x m.seen_in_base)
  unfolding merge_line
  merge_line-seen x line m = elim (Option-cases (normalize_value line)) [
    | inl e ↦ rw e (ground arith)
    | inr ((s, base), e) ↦ elim (Option-cases (lookup s frag)) [
      | inl absent ↦ rw (e, absent) (ground (arith, same_iff x s, absent))
      | inr (v, found) ↦ elim (Bool-cases (same v base)) [
        | inl agree ↦ rw (e, found, agree) (ground (arith, same_iff x s, found))
        | inr differ ↦ rw (e, found, differ) (ground (arith, same_iff x s, found))
      ]
    ]
  ]

  pub merge_lines-seen :
      (x : Str) (lines : List Str) (m : Merging)
      → member x (merge_lines frag lines m).seen_in_base
        ≡ ((is_some (lookup x frag) && any (sets_in x) lines) || member x m.seen_in_base)
  unfolding merge_lines
  merge_lines-seen x [] m = ground arith
  merge_lines-seen x (line ∷ lines) m =
      ground (arith, merge_lines-seen x lines (merge_line frag line m), merge_line-seen x line m)
