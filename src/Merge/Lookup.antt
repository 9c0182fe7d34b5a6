-- ===== src/Merge/Lookup.antt =====
-- What the merged lines say of each symbol.
use autokernel.Base.{
  Bool, true, not, ◌&&◌, ◌||◌, List, [], ◌∷◌, Option, none, some, Str, ◌≡◌, refl, ap, sym, ◌∙◌,
  arith, same, same_iff, same_refl, eq_of_same, member, lookup, if◌then◌else◌, Bool-cases, inl, inr,
  Option-cases, map, is_some, any, keep, sorted, insert_sorted,
}
use autokernel.Base.Space.{drop_left, drop_right, is_space}
use autokernel.Kfrag.Parser.{unset_symbol, set_symbol, config_symbol}
use autokernel.Base.{strip_prefix}
use autokernel.Merge.{
  set_symbol, unset_symbol, normalize_value, format_value, merge_lines, merged_lines, read_config,
  appended_lines, append_title, unseen, keys, nothing_merged, value_or_empty,
}
use autokernel.Merge.Format.{normalize_value-format_value}
use autokernel.Merge.Lines.{
  later, later-none, value_in, value_if, value_in-append, lookup-read_config, IsClean,
  lookup-IsClean, merged_line, merge_lines-out, merge_lines-seen, sets_in, sets_symbol,
}

member-insert_sorted :
    (x y : Str) (ys : List Str) → member x (insert_sorted y ys) ≡ (same x y || member x ys)
unfolding insert_sorted
member-insert_sorted x y [] = refl
member-insert_sorted x y (z ∷ ys) = ground (arith, member-insert_sorted x y ys)

pub member-sorted : (x : Str) (xs : List Str) → member x (sorted xs) ≡ member x xs
unfolding sorted
member-sorted x [] = refl
member-sorted x (y ∷ xs) = ground (arith, member-insert_sorted x y (sorted xs), member-sorted x xs)

member-keep :
    (x : Str) (p : Str → Bool) (xs : List Str) → member x (keep p xs) ≡ (member x xs && p x)
member-keep x p [] = refl
member-keep x p (y ∷ xs) = ground (arith, same_iff x y, member-keep x p xs)

pub member-keys :
    (x : Str) (frag : List (Str × Str)) → member x (keys frag) ≡ is_some (lookup x frag)
member-keys x [] = refl
member-keys x ((k, v) ∷ frag) = ground (arith, member-keys x frag)

pub member-unseen :
    (x : Str) (frag : List (Str × Str)) (seen : List Str)
    → member x (unseen frag seen) ≡ (is_some (lookup x frag) && not (member x seen))
member-unseen x frag seen =
    member-sorted x (keep (λ s. not (member s seen)) (keys frag))
    ∙ member-keep x (λ s. not (member s seen)) (keys frag)
    ∙ ap (λ b. b && not (member x seen)) (member-keys x frag)

pub is_some-some : (o : Option Str) → is_some o ≡ true → (v : Str) × (o ≡ some v)
is_some-some none h = cc
is_some-some (some v) h = (v, refl)

later-if :
    (a b : Bool) (v : Str)
    → later (if b then some v else none) (if a then some v else none)
      ≡ (if a || b then some v else none)
later-if a b v = ground arith

pub title_sets : normalize_value append_title ≡ none
unfolding normalize_value unset_symbol set_symbol config_symbol drop_left drop_right is_space
    strip_prefix
title_sets = refl

pub empty_sets : normalize_value [] ≡ none
unfolding normalize_value unset_symbol set_symbol config_symbol drop_left drop_right is_space
    strip_prefix
empty_sets = refl

abbrev replace_value : Str → Option Str → Str
replace_value base none = base
replace_value base (some v) = v

module _ (frag : List (Str × Str)) (clean : IsClean frag) where
  abbrev pub replaced : Option (Str × Str) → Option (Str × Str)
  replaced none = none
  replaced (some (s, base)) = some (s, replace_value base (lookup s frag))

  pub normalize-merged_line :
      (line : Str) → normalize_value (merged_line frag line) ≡ replaced (normalize_value line)
  normalize-merged_line line = elim (Option-cases (normalize_value line)) [
    | inl e ↦ rw (e, e) refl
    | inr ((s, base), e) ↦ elim (Option-cases (lookup s frag)) [
      | inl absent ↦ rw (e, absent, e) refl
      | inr (v, found) ↦ elim (Bool-cases (same v base)) [
        | inl agree ↦ rw (e, found, agree, e) (rw (eq_of_same v base agree) refl)
        | inr differ ↦
            let (i, h) = lookup-IsClean frag s v clean found in
            rw (e, found, differ) (normalize_value-format_value s v i h)
      ]
    ]
  ]

  value_if-absent :
      (x : Str) (n : Option (Str × Str))
      → lookup x frag ≡ none
      → value_if x (replaced n) ≡ value_if x n
  value_if-absent x none h = refl
  value_if-absent x (some (s, base)) h = elim (Option-cases (lookup s frag)) [
    | inl absent ↦ rw absent refl
    | inr (v, found) ↦ rw found (ground (arith, same_iff x s, h, found))
  ]

  value_if-present :
      (x v : Str) (n : Option (Str × Str))
      → lookup x frag ≡ some v
      → value_if x (replaced n) ≡ (if sets_symbol frag x n then some v else none)
  value_if-present x v none h = refl
  value_if-present x v (some (s, base)) h = elim (Option-cases (lookup s frag)) [
    | inl absent ↦ rw absent (ground (arith, same_iff x s, h, absent))
    | inr (w, found) ↦ rw found (ground (arith, same_iff x s, h, found))
  ]

  value_in-absent :
      (x : Str) (lines : List Str)
      → lookup x frag ≡ none
      → value_in x (map (merged_line frag) lines) ≡ value_in x lines
  unfolding value_in
  value_in-absent x [] h = refl
  value_in-absent x (line ∷ lines) h =
      rw
        (
          normalize-merged_line line,
          value_if-absent x (normalize_value line) h,
          value_in-absent x lines h,
        )
        refl

  value_in-present :
      (x v : Str) (lines : List Str)
      → lookup x frag ≡ some v
      → value_in x (map (merged_line frag) lines)
        ≡ (if any (sets_in frag x) lines then some v else none)
  unfolding value_in
  value_in-present x v [] h = refl
  value_in-present x v (line ∷ lines) h =
      rw
        (
          normalize-merged_line line,
          value_if-present x v (normalize_value line) h,
          value_in-present x v lines h,
        )
        (later-if (sets_in frag x line) (any (sets_in frag x) lines) v)

  value_in-values :
      (x : Str) (symbols : List Str)
      → ((s : Str) → member s symbols ≡ true → is_some (lookup s frag) ≡ true)
      → value_in x (map (λ s. format_value s (value_or_empty (lookup s frag))) symbols)
        ≡ (if member x symbols then lookup x frag else none)
  unfolding value_in
  value_in-values x [] h = refl
  value_in-values x (s ∷ symbols) h =
      let (v, found) = is_some-some (lookup s frag) (h s (rw (same_refl s) refl)) in
      let (i, settled) = lookup-IsClean frag s v clean found in
      rw
        (
          found,
          normalize_value-format_value s v i settled,
          value_in-values x symbols (λ t m. h t (ground (arith, m))),
        )
        (ground (arith, same_iff x s, found))

  value_in-appended :
      (x : Str) (symbols : List Str)
      → ((s : Str) → member s symbols ≡ true → is_some (lookup s frag) ≡ true)
      → value_in x (appended_lines frag symbols)
        ≡ (if member x symbols then lookup x frag else none)
  unfolding value_in
  value_in-appended x [] h = refl
  value_in-appended x (s ∷ symbols) h =
      rw (empty_sets, title_sets) (later-none _ ∙ later-none _ ∙ value_in-values x (s ∷ symbols) h)

  pub merged_lines-value :
      (x : Str) (base : List Str)
      → value_in x (merged_lines frag base).0 ≡ later (lookup x frag) (value_in x base)
  unfolding merged_lines
  merged_lines-value x base =
      let m = merge_lines frag base nothing_merged in
      let symbols = unseen frag m.seen_in_base in
      value_in-append x m.out_lines (appended_lines frag symbols)
      ∙ rw
          (
            merge_lines-out frag base nothing_merged,
            value_in-appended x symbols
                (λ s h. ground (arith, h, member-unseen s frag m.seen_in_base)),
            member-unseen x frag m.seen_in_base,
            merge_lines-seen frag x base nothing_merged,
          )
          (elim (Option-cases (lookup x frag)) [
            | inl absent ↦ rw absent (value_in-absent x base absent)
            | inr (v, found) ↦ rw (found, value_in-present x v base found) (ground arith)
          ])

  -- In the merged lines a symbol has the fragment's value where the fragment has one, and otherwise
  -- that of the base.
  pub merged_lines-lookup :
      (x : Str) (base : List Str)
      → lookup x (read_config (merged_lines frag base).0 [])
        ≡ later (lookup x frag) (lookup x (read_config base []))
  merged_lines-lookup x base =
      lookup-read_config x (merged_lines frag base).0 []
      ∙ later-none _
      ∙ merged_lines-value x base
      ∙ ap (later (lookup x frag)) (sym (lookup-read_config x base [] ∙ later-none _))
