-- ===== src/Merge/Text.antt =====
-- The merged text, read as a `.config`.
use autokernel.Base.{
  Bool, true, false, ◌&&◌, ◌||◌, List, [], ◌∷◌, ◌++◌, Str, str, ◌≡◌, refl, arith, same, same_refl,
  member, lookup, Bool-cases, inl, inr, Option-cases, All, All-append, map, append_assoc, is_some,
  join, starts_with, ◌==◌,
}
use autokernel.Base.Space.{is_break, OneLine, splitlines, lines_from, lines_from-line}
use autokernel.Kfrag.Lines.{IsSymbol}
use autokernel.Kfrag.Format.{all_digits}
use autokernel.Kfrag.Writer.{unset_line, set_line}
use autokernel.Kfrag.OneLines.{
  OneLine-append, OneLine-all, unset_line-OneLine, set_line-OneLine, if-OneLine,
}
use autokernel.Merge.{
  normalize_value, format_value, merge_lines, merged_lines, read_config, appended_lines,
  append_title, unseen, nothing_merged, value_or_empty, set_normalized,
}
use autokernel.Merge.Format.{IsSettled, quoted_line}
use autokernel.Merge.Lines.{IsClean, lookup-IsClean, merged_line, merge_lines-out}
use autokernel.Merge.Lookup.{empty_sets, member-unseen, is_some-some}

-- What `splitlines` gives are single lines.
pub lines_from-OneLine :
    (after_cr : Bool) (word s : Str) → OneLine word → All OneLine (lines_from after_cr word s)
unfolding lines_from
lines_from-OneLine cr [] [] h = tt
lines_from-OneLine cr (w ∷ word) [] h = (h, tt)
lines_from-OneLine cr word (c ∷ s) h = elim (Bool-cases (cr && c == 10)) [
  | inl feed ↦ rw feed (lines_from-OneLine false word s h)
  | inr other ↦ elim (Bool-cases (is_break c)) [
    | inl splits ↦ rw (other, splits) (h, lines_from-OneLine (c == 13) [] s tt)
    | inr plain ↦
        rw (other, plain)
          (lines_from-OneLine false (word ++ c ∷ []) s (OneLine-append word (c ∷ []) h (plain, tt)))
  ]
]

pub empty_lines : splitlines (b'\n' ∷ []) ≡ [] ∷ []
unfolding lines_from is_break
empty_lines = refl

pub no_more : lines_from false [] [] ≡ []
unfolding lines_from
no_more = refl

pub read_config-join :
    (lines : List Str) (m : List (Str × Str))
    → All OneLine lines
    → read_config (splitlines (join (b'\n' ∷ []) lines ++ b'\n' ∷ [])) m ≡ read_config lines m
unfolding join read_config
read_config-join [] m h = rw (empty_lines, empty_sets) refl
read_config-join (line ∷ []) m h = rw (lines_from-line [] line [] h.0, no_more) refl
read_config-join (line ∷ next ∷ lines) m h =
    rw
      (
        append_assoc line (b'\n' ∷ join (b'\n' ∷ []) (next ∷ lines)) (b'\n' ∷ []),
        lines_from-line [] line (join (b'\n' ∷ []) (next ∷ lines) ++ b'\n' ∷ []) h.0,
      )
      (read_config-join (next ∷ lines) (set_normalized (normalize_value line) m) h.1)

format_value-OneLine : (s v : Str) → IsSymbol s → IsSettled v → OneLine (format_value s v)
unfolding format_value
format_value-OneLine s v i h =
    let bare = set_line-OneLine s v i h.line in
    let quoted = set_line-OneLine s (b'"' ∷ (v ++ b'"' ∷ [])) i (quoted_line v h.line) in
    if-OneLine (same v (str "n")) (unset_line s) _ (unset_line-OneLine s i) (
      if-OneLine (same v (str "y") || same v (str "m") || all_digits v) (set_line s v) _ bare
        (if-OneLine (starts_with v (str "0x")) (set_line s v) _ bare quoted))

module _ (frag : List (Str × Str)) (clean : IsClean frag) where
  merged_line-OneLine : (line : Str) → OneLine line → OneLine (merged_line frag line)
  merged_line-OneLine line h = elim (Option-cases (normalize_value line)) [
    | inl e ↦ rw e h
    | inr ((s, base), e) ↦ elim (Option-cases (lookup s frag)) [
      | inl absent ↦ rw (e, absent) h
      | inr (v, found) ↦
          let (i, settled) = lookup-IsClean frag s v clean found in
          rw (e, found) (if-OneLine (same v base) line _ h (format_value-OneLine s v i settled))
    ]
  ]

  values-OneLine :
      (symbols : List Str)
      → ((s : Str) → member s symbols ≡ true → is_some (lookup s frag) ≡ true)
      → All OneLine (map (λ s. format_value s (value_or_empty (lookup s frag))) symbols)
  values-OneLine [] h = tt
  values-OneLine (s ∷ symbols) h =
      let (v, found) = is_some-some (lookup s frag) (h s (rw (same_refl s) refl)) in
      let (i, settled) = lookup-IsClean frag s v clean found in
      (
        rw found (format_value-OneLine s v i settled),
        values-OneLine symbols (λ t m. h t (ground (arith, m))),
      )

  appended_lines-OneLine :
      (symbols : List Str)
      → ((s : Str) → member s symbols ≡ true → is_some (lookup s frag) ≡ true)
      → All OneLine (appended_lines frag symbols)
  unfolding is_break
  appended_lines-OneLine [] h = tt
  appended_lines-OneLine (s ∷ symbols) h =
      (tt, (OneLine-all append_title refl, values-OneLine (s ∷ symbols) h))

  merged_base-OneLine :
      (lines : List Str) → All OneLine lines → All OneLine (map (merged_line frag) lines)
  merged_base-OneLine [] h = tt
  merged_base-OneLine (line ∷ lines) h =
      (merged_line-OneLine line h.0, merged_base-OneLine lines h.1)

  pub merged_lines-OneLine :
      (base : List Str) → All OneLine base → All OneLine (merged_lines frag base).0
  unfolding merged_lines
  merged_lines-OneLine base h =
      let m = merge_lines frag base nothing_merged in
      All-append OneLine m.out_lines _
        (rw (merge_lines-out frag base nothing_merged) (merged_base-OneLine base h))
        (appended_lines-OneLine (unseen frag m.seen_in_base)
          (λ s i. ground (arith, i, member-unseen s frag m.seen_in_base)))
