-- ===== src/Merge/Again.antt =====
-- A second merge of the same fragment changes nothing.
use autokernel.Base.{
  Bool, true, false, not, List, [], ◌∷◌, ◌++◌, Option, none, some, Str, ◌≡◌, refl, ap, sym, ◌∙◌,
  arith, same_refl, member, lookup, inl, inr, Option-cases, All, map, map-append, append_assoc,
  append-nil, is_some, any, keep, join, sorted,
}
use autokernel.Base.Space.{OneLine, splitlines, lines_from-line}
use autokernel.Kfrag.Parser.{parse_kfrag}
use autokernel.Merge.{
  normalize_value, format_value, merge_kfrag, merge_line, merge_lines, merged_lines, appended_lines,
  append_title, unseen, keys, nothing_merged, value_or_empty, frag_values,
}
use autokernel.Merge.Format.{normalize_value-format_value}
use autokernel.Merge.Lines.{
  value_in, IsClean, lookup-IsClean, merged_line, merge_lines-out, merge_lines-seen, sets_in,
}
use autokernel.Merge.Lookup.{
  merged_lines-value, normalize-merged_line, replaced, empty_sets, title_sets, member-unseen,
  member-keys, is_some-some,
}
use autokernel.Merge.Text.{merged_lines-OneLine, lines_from-OneLine, empty_lines, no_more}
use autokernel.Merge.Clean.{IsTrimmed, frag_values-IsClean}

keep-none :
    (p : Str → Bool) (xs : List Str)
    → ((s : Str) → member s xs ≡ true → p s ≡ false)
    → keep p xs ≡ []
keep-none p [] h = refl
keep-none p (x ∷ xs) h =
    rw (h x (rw (same_refl x) refl)) (keep-none p xs (λ s i. h s (ground (arith, i))))

again_lines :
    (frag : List (Str × Str)) (lines : List Str)
    → unseen frag (merge_lines frag lines nothing_merged).seen_in_base ≡ []
    → (merged_lines frag lines).0 ≡ map (merged_line frag) lines
unfolding merged_lines
again_lines frag lines e = rw e (append-nil _ ∙ merge_lines-out frag lines nothing_merged)

splitlines-join :
    (line : Str) (lines : List Str)
    → All OneLine (line ∷ lines)
    → splitlines (join (b'\n' ∷ []) (line ∷ lines) ++ b'\n' ∷ []) ≡ line ∷ lines
unfolding join
splitlines-join line [] h = rw (lines_from-line [] line [] h.0, no_more) refl
splitlines-join line (next ∷ lines) h =
    rw
      (
        append_assoc line (b'\n' ∷ join (b'\n' ∷ []) (next ∷ lines)) (b'\n' ∷ []),
        lines_from-line [] line (join (b'\n' ∷ []) (next ∷ lines) ++ b'\n' ∷ []) h.0,
      )
      (ap (λ l. line ∷ l) (splitlines-join next lines h.1))

module _ (frag : List (Str × Str)) (clean : IsClean frag) where
  -- A line that says what the fragment says, or nothing, stays.
  settled_line :
      (line : Str) (n : Option (Str × Str))
      → normalize_value line ≡ replaced frag clean n
      → merged_line frag line ≡ line
  settled_line line none e = rw e refl
  settled_line line (some (s, base)) e = elim (Option-cases (lookup s frag)) [
    | inl absent ↦ rw (e, absent) refl
    | inr (v, found) ↦ rw (e, found, same_refl v) refl
  ]

  map-merged_line :
      (lines : List Str)
      → map (merged_line frag) (map (merged_line frag) lines) ≡ map (merged_line frag) lines
  map-merged_line [] = refl
  map-merged_line (line ∷ lines) =
      rw
        (
          settled_line (merged_line frag line) (normalize_value line)
              (normalize-merged_line frag clean line),
          map-merged_line lines,
        )
        refl

  map-values :
      (symbols : List Str)
      → ((s : Str) → member s symbols ≡ true → is_some (lookup s frag) ≡ true)
      → map (merged_line frag) (map (λ s. format_value s (value_or_empty (lookup s frag))) symbols)
        ≡ map (λ s. format_value s (value_or_empty (lookup s frag))) symbols
  map-values [] h = refl
  map-values (s ∷ symbols) h =
      let (v, found) = is_some-some (lookup s frag) (h s (rw (same_refl s) refl)) in
      let (i, settled) = lookup-IsClean frag s v clean found in
      let stays : merged_line frag (format_value s v) ≡ format_value s v =
        settled_line (format_value s v) (some (s, v))
          (rw found (normalize_value-format_value s v i settled)) in
      rw (found, stays, map-values symbols (λ t m. h t (ground (arith, m)))) refl

  map-appended :
      (symbols : List Str)
      → ((s : Str) → member s symbols ≡ true → is_some (lookup s frag) ≡ true)
      → map (merged_line frag) (appended_lines frag symbols) ≡ appended_lines frag symbols
  map-appended [] h = refl
  map-appended (s ∷ symbols) h =
      rw
        (
          settled_line [] none empty_sets,
          settled_line append_title none title_sets,
          map-values (s ∷ symbols) h,
        )
        refl

  value_in-any :
      (x v : Str) (lines : List Str) → value_in x lines ≡ some v → any (sets_in frag x) lines ≡ true
  unfolding value_in
  value_in-any x v [] h = cc
  value_in-any x v (line ∷ lines) h = elim (Option-cases (value_in x lines)) [
    | inr (w, e) ↦ ground (arith, value_in-any x w lines e)
    | inl e ↦ elim (Option-cases (normalize_value line)) [
      | inl n ↦ absurd (cc (rw (e, n) at h))
      | inr ((s, w), n) ↦ rw n (ground (arith, rw (e, n) at h))
    ]
  ]

  merged_lines-settled :
      (base : List Str)
      → map (merged_line frag) (merged_lines frag base).0 ≡ (merged_lines frag base).0
  unfolding merged_lines
  merged_lines-settled base =
      let m = merge_lines frag base nothing_merged in
      map-append (merged_line frag) m.out_lines (appended_lines frag (unseen frag m.seen_in_base))
      ∙ rw
          (
            merge_lines-out frag base nothing_merged,
            map-merged_line base,
            map-appended (unseen frag m.seen_in_base)
                (λ s i. ground (arith, i, member-unseen s frag m.seen_in_base)),
          )
          refl

  all_seen :
      (base : List Str) (s : Str)
      → member s (keys frag) ≡ true
      → member s (merge_lines frag (merged_lines frag base).0 nothing_merged).seen_in_base ≡ true
  all_seen base s i =
      let (v, found) = is_some-some (lookup s frag) (sym (member-keys s frag) ∙ i) in
      let there : value_in s (merged_lines frag base).0 ≡ some v =
        merged_lines-value frag clean s base ∙ rw found refl in
      merge_lines-seen frag s (merged_lines frag base).0 nothing_merged
      ∙ rw (found, value_in-any s v (merged_lines frag base).0 there) refl

  none_unseen :
      (base : List Str)
      → unseen frag (merge_lines frag (merged_lines frag base).0 nothing_merged).seen_in_base ≡ []
  none_unseen base =
      rw
        (keep-none
          (λ s.
            not
              (member s (merge_lines frag (merged_lines frag base).0 nothing_merged).seen_in_base))
          (keys frag) (λ s i. rw (all_seen base s i) refl))
        (unfold sorted in refl)

  merged_lines-again :
      (base : List Str)
      → (merged_lines frag (merged_lines frag base).0).0 ≡ (merged_lines frag base).0
  merged_lines-again base =
      again_lines frag (merged_lines frag base).0 (none_unseen base) ∙ merged_lines-settled base

blank_first :
    (frag : List (Str × Str)) → (merged_lines frag ([] ∷ [])).0 ≡ [] ∷ (merged_lines frag []).0
unfolding merged_lines merge_lines merge_line
blank_first frag = rw empty_sets refl

join_feed : List Str → Str
join_feed lines = join (b'\n' ∷ []) lines ++ b'\n' ∷ []

join-again :
    (frag : List (Str × Str)) (clean : IsClean frag) (lines : List Str)
    → All OneLine lines
    → (merged_lines frag lines).0 ≡ lines
    → join_feed (merged_lines frag (splitlines (join_feed lines))).0 ≡ join_feed lines
unfolding join_feed join
join-again frag clean [] o e = rw (empty_lines, blank_first frag, e) refl
join-again frag clean (line ∷ lines) o e =
    ap join_feed (ap (λ l. (merged_lines frag l).0) (splitlines-join line lines o) ∙ e)

-- Merging the same fragment into the merged text gives that text again. The fragment holds no quoted
-- hexadecimal number with a space at an end.
pub merge_kfrag-again :
    (base_text kfrag_text : Str)
    → All IsTrimmed (parse_kfrag kfrag_text).assignments
    → (merge_kfrag (merge_kfrag base_text kfrag_text).0 kfrag_text).0
      ≡ (merge_kfrag base_text kfrag_text).0
unfolding merge_kfrag join_feed
merge_kfrag-again base_text kfrag_text t =
    let frag = frag_values (parse_kfrag kfrag_text) in
    let clean = frag_values-IsClean kfrag_text t in
    let base = splitlines base_text in
    join-again frag clean (merged_lines frag base).0
      (merged_lines-OneLine frag clean base (lines_from-OneLine false [] base_text tt))
      (merged_lines-again frag clean base)
