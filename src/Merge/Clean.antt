-- ===== src/Merge/Clean.antt =====
-- What `parse_kfrag` gives is fit for the merge.
use autokernel.Base.{
  ℕ, Bool, true, false, not, ◌&&◌, List, [], ◌∷◌, ◌++◌, some, Str, str, ◌≡◌, refl, ap, sym, ◌∙◌,
  arith, same, eq_of_same, lookup, Bool-cases, inl, inr, Option-cases, All, All-append, All-right,
  all, starts_with, strip_prefix, strip_prefix-eq-some,
}
use autokernel.Base.Space.{
  is_break, OneLine, splitlines, drop_left, drop_right, strip, strip_quotes, rstrip, is_space,
  is_quote, is_nil, drop_left-twice, drop_right-twice, drop_left-right,
}
use autokernel.Base.Dict.{set_key, set_all}
use autokernel.Kfrag.Lines.{IsSymbol}
use autokernel.Kfrag.Format.{is_word}
use autokernel.Kfrag.OneLines.{OneLine-drop_left, OneLine-drop_right, OneLine-strip}
use autokernel.Kfrag.Parser.{
  parse_kfrag, parse_line, parse_lines, parse_set, parse_stripped, ParsedKfrag, unset_symbol,
  set_symbol, config_symbol, take_left, is_symbol_char, nothing_parsed,
}
use autokernel.Merge.{frag_values, disabled, merge_kfrag, merged_lines, config_text_to_dict}
use autokernel.Merge.Format.{IsSettled}
use autokernel.Merge.Lines.{IsClean, later}
use autokernel.Merge.Text.{lines_from-OneLine, read_config-join, merged_lines-OneLine}
use autokernel.Merge.Lookup.{merged_lines-lookup}

module _ (p : ℕ → Bool) where
  take_drop : (s : Str) → take_left p s ++ drop_left p s ≡ s
  unfolding take_left drop_left
  take_drop [] = refl
  take_drop (c ∷ s) = ground (arith, take_drop s)

  all-take_left : (s : Str) → all p (take_left p s) ≡ true
  unfolding take_left
  all-take_left [] = refl
  all-take_left (c ∷ s) = ground (arith, all-take_left s)

config_symbol_sound :
    (s symbol tail : Str)
    → config_symbol s ≡ some (symbol, tail)
    → IsSymbol symbol × (s ≡ symbol ++ tail)
unfolding config_symbol is_word
config_symbol_sound s symbol tail h = elim (Option-cases (strip_prefix (str "CONFIG_") s)) [
  | inl e ↦ ground (arith, e, h)
  | inr (t, e) ↦
      let w = take_left is_symbol_char t in
      let parts : (is_nil w ≡ false)
          × (symbol ≡ str "CONFIG_" ++ w)
          × (tail ≡ drop_left is_symbol_char t) =
        ground (arith, e, h) in
      (
        (w, parts.1, ground (arith, parts.0, all-take_left is_symbol_char t)),
        strip_prefix-eq-some (str "CONFIG_") s t e
            ∙ rw (parts.1, parts.2)
                (ap (λ x. str "CONFIG_" ++ x) (sym (take_drop is_symbol_char t))),
      )
]

unset_symbol_sound : (s symbol : Str) → unset_symbol s ≡ some symbol → IsSymbol symbol
unfolding unset_symbol
unset_symbol_sound [] symbol h = cc
unset_symbol_sound (c ∷ s) symbol h = elim (Option-cases (config_symbol (drop_left is_space s))) [
  | inl e ↦ ground (arith, e, h)
  | inr ((x, tail), e) ↦
      let same_one : x ≡ symbol = ground (arith, e, h) in
      rw (sym same_one) (config_symbol_sound (drop_left is_space s) x tail e).0
]

set_symbol_sound :
    (s symbol value : Str)
    → set_symbol s ≡ some (symbol, value)
    → OneLine s
    → IsSymbol symbol × OneLine value
unfolding set_symbol
set_symbol_sound s symbol value h o = elim (Option-cases (config_symbol s)) [
  | inl e ↦ ground (arith, e, h)
  | inr ((x, []), e) ↦ ground (arith, e, h)
  | inr ((x, c ∷ tail), e) ↦
      let same_one : (x ≡ symbol) × (tail ≡ value) = ground (arith, e, h) in
      let (i, parts) = config_symbol_sound s x (c ∷ tail) e in
      (rw (sym same_one.0) i, rw (sym same_one.1) (All-right _ x (c ∷ tail) (rw parts at o)).1)
]

strip_quotes-twice : (s : Str) → strip_quotes (strip_quotes s) ≡ strip_quotes s
strip_quotes-twice s =
    ap (drop_left is_quote) (
      sym (drop_left-right is_quote (drop_right is_quote s))
      ∙ ap (drop_left is_quote) (drop_right-twice is_quote s))
    ∙ drop_left-twice is_quote (drop_right is_quote s)

-- A symbol, and a value on one line without quotes at its ends.
abbrev pub IsRead : Str × Str → Type 0
IsRead kv = IsSymbol kv.0 × (OneLine kv.1 × (strip_quotes kv.1 ≡ kv.1))

pub record IsParsed (out : ParsedKfrag) : Type 0 where
  pub disables : All IsSymbol out.disables
  pub assignments : All IsRead out.assignments

All-set_key {ℓ} :
    (P : Str × Str → Type ℓ) (k v : Str) (m : List (Str × Str))
    → P (k, v)
    → All P m
    → All P (set_key k v m)
unfolding set_key
All-set_key P k v [] h a = (h, tt)
All-set_key P k v ((j, w) ∷ m) h a = elim (Bool-cases (same k j)) [
  | inl e ↦ rw e (rw (sym (eq_of_same k j e)) h, a.1)
  | inr e ↦ rw e (a.0, All-set_key P k v m h a.1)
]

All-set_all {ℓ} :
    (P : Str × Str → Type ℓ) (kvs m : List (Str × Str))
    → All P kvs
    → All P m
    → All P (set_all kvs m)
unfolding set_all
All-set_all P [] m h a = a
All-set_all P ((k, v) ∷ kvs) m h a =
    All-set_all P kvs (set_key k v m) h.1 (All-set_key P k v m h.0 a)

parse_set-IsParsed :
    (s : Str) (out : ParsedKfrag)
    → OneLine s
    → IsParsed out
    → IsParsed (parse_set (set_symbol s) out)
parse_set-IsParsed s out o h = elim (Option-cases (set_symbol s)) [
  | inl e ↦ rw e h
  | inr ((symbol, value), e) ↦
      let (i, one_line) = set_symbol_sound s symbol value e o in
      let read =
        OneLine-drop_left is_quote _
          (OneLine-drop_right is_quote (strip value) (OneLine-strip value one_line)) in
      rw e (record {
        disables = h.disables;
        assignments =
            All-set_key IsRead symbol (strip_quotes (strip value)) out.assignments
              (i, (read, strip_quotes-twice (strip value))) h.assignments;
      })
]

parse_stripped-IsParsed :
    (s : Str) (out : ParsedKfrag)
    → OneLine s
    → IsParsed out
    → IsParsed (parse_stripped s (unset_symbol s) out)
parse_stripped-IsParsed s out o h = elim (Option-cases (unset_symbol s)) [
  | inr (symbol, e) ↦ rw e (record {
    disables =
        All-append IsSymbol out.disables (symbol ∷ []) h.disables
          (unset_symbol_sound s symbol e, tt);
    assignments = h.assignments;
  })
  | inl e ↦ rw e (elim (Bool-cases (starts_with s (str "#"))) [
    | inl comment ↦ rw comment (record { disables = h.disables; assignments = h.assignments })
    | inr other ↦ rw other (parse_set-IsParsed s out o h)
  ])
]

parse_line-IsParsed :
    (s : Str) (out : ParsedKfrag) → OneLine s → IsParsed out → IsParsed (parse_line s out)
unfolding parse_line
parse_line-IsParsed [] out o h = h
parse_line-IsParsed (c ∷ s) out o h = parse_stripped-IsParsed (c ∷ s) out o h

parse_lines-IsParsed :
    (lines : List Str) (out : ParsedKfrag)
    → All OneLine lines
    → IsParsed out
    → IsParsed (parse_lines lines out)
unfolding parse_lines parse_line
parse_lines-IsParsed [] out o h = h
parse_lines-IsParsed (line ∷ lines) out o h =
    parse_lines-IsParsed lines (parse_line (rstrip line) out) o.1
      (parse_line-IsParsed (rstrip line) out (OneLine-drop_right is_space line o.0) h)

parse_kfrag-IsParsed : (text : Str) → IsParsed (parse_kfrag text)
unfolding parse_kfrag
parse_kfrag-IsParsed text =
    parse_lines-IsParsed (splitlines text) nothing_parsed (lines_from-OneLine false [] text tt)
      (record { disables = tt; assignments = tt })

-- The values that look like hexadecimal numbers have no space at an end.
abbrev pub IsTrimmed : Str × Str → Type 0
IsTrimmed kv = (starts_with kv.1 (str "0x") && not (same (strip kv.1) kv.1)) ≡ false

IsSettled-n : IsSettled (str "n")
unfolding is_break drop_left drop_right starts_with strip_prefix
IsSettled-n = record { line = (refl, tt); unquoted = refl; hex = refl }

disabled-IsClean : (symbols : List Str) → All IsSymbol symbols → IsClean (disabled symbols)
disabled-IsClean [] h = tt
disabled-IsClean (s ∷ symbols) h = ((h.0, IsSettled-n), disabled-IsClean symbols h.1)

read-IsClean : (kvs : List (Str × Str)) → All IsRead kvs → All IsTrimmed kvs → IsClean kvs
read-IsClean [] r t = tt
read-IsClean (kv ∷ kvs) r t =
    ((r.0.0, record { line = r.0.1.0; unquoted = r.0.1.1; hex = t.0 }), read-IsClean kvs r.1 t.1)

-- A parsed fragment is clean, but for spaces in a quoted hexadecimal number.
pub frag_values-IsClean :
    (text : Str)
    → All IsTrimmed (parse_kfrag text).assignments
    → IsClean (frag_values (parse_kfrag text))
unfolding frag_values
frag_values-IsClean text t =
    let h = parse_kfrag-IsParsed text in
    All-set_all _ (parse_kfrag text).assignments _ (read-IsClean _ h.assignments t)
      (All-set_all _ (disabled (parse_kfrag text).disables) [] (disabled-IsClean _ h.disables) tt)

-- A symbol of the merged configuration has the fragment's value where the fragment has one, and
-- otherwise the base's, when the fragment holds no quoted hexadecimal number with a space at an end.
pub lookup-merge_kfrag :
    (base_text kfrag_text x : Str)
    → All IsTrimmed (parse_kfrag kfrag_text).assignments
    → lookup x (config_text_to_dict (merge_kfrag base_text kfrag_text).0)
      ≡ later
          (lookup x (frag_values (parse_kfrag kfrag_text)))
          (lookup x (config_text_to_dict base_text))
unfolding merge_kfrag config_text_to_dict
lookup-merge_kfrag base_text kfrag_text x t =
    let clean = frag_values-IsClean kfrag_text t in
    let frag = frag_values (parse_kfrag kfrag_text) in
    let base = splitlines base_text in
    ap (lookup x) (
      read_config-join (merged_lines frag base).0 []
        (merged_lines-OneLine frag clean base (lines_from-OneLine false [] base_text tt)))
    ∙ merged_lines-lookup frag clean x base
