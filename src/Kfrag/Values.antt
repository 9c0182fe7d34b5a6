-- ===== src/Kfrag/Values.antt =====
-- The values of assignments, written and read.
use autokernel.Base.{
  [], ◌∷◌, ◌++◌, Str, str, ◌≡◌, refl, ap, ◌∙◌, arith, same, if◌then◌else◌, Bool-cases, inl, inr,
}
use autokernel.Base.Space.{
  is_space, drop_left, drop_right, rstrip, strip, strip_quotes, strip-right, strip-twice,
  drop_right-last, drop_right-drop, is_quote,
}
use autokernel.Kfrag.Format.{rendered, short_symbol, is_number, is_quoted}

-- What a reader gets for a stripped value: `y` for the symbol's own name, else the value without
-- its outer quotes.
abbrev pub read_back : Str → Str → Str
read_back symbol v = if same v (short_symbol symbol) then str "y" else strip_quotes v

quoted : Str → Str
quoted v = b'"' ∷ (v ++ b'"' ∷ [])

strip-quoted : (v : Str) → strip (rstrip (quoted v)) ≡ quoted v
unfolding quoted is_space drop_left
strip-quoted v = let e = drop_right-last is_space (b'"' ∷ v) b'"' refl in rw (e, e) refl

drop_quote : (v : Str) → drop_left is_quote (drop_right is_quote (b'"' ∷ v)) ≡ strip_quotes v
unfolding drop_left drop_right
drop_quote v = ground arith

strip_quotes-quoted : (v : Str) → strip_quotes (quoted v) ≡ strip_quotes v
unfolding quoted
strip_quotes-quoted v =
    ap (drop_left is_quote) (drop_right-drop is_quote (b'"' ∷ v) b'"' refl) ∙ drop_quote v

pub quotes_read :
    (v : Str) → strip_quotes (strip (rstrip (b'"' ∷ (v ++ b'"' ∷ [])))) ≡ strip_quotes v
unfolding quoted
quotes_read v = ap strip_quotes (strip-quoted v) ∙ strip_quotes-quoted v

own_read : strip_quotes (strip (rstrip (str "y"))) ≡ str "y"
unfolding drop_left drop_right is_space
own_read = refl

bare_read : (value : Str) → strip_quotes (strip (rstrip (strip value))) ≡ strip_quotes (strip value)
bare_read value = rw (strip-right value, strip-twice value) refl

-- A written value is read back, whichever form the writer gives it.
pub rendered-reads :
    (symbol value : Str)
    → strip_quotes (strip (rstrip (rendered symbol (strip value)))) ≡ read_back symbol (strip value)
unfolding rendered
rendered-reads symbol value = elim (Bool-cases (same (strip value) (short_symbol symbol))) [
  | inl own ↦ rw own own_read
  | inr other ↦ elim (Bool-cases (is_number (strip value))) [
    | inl number ↦ rw (other, number) (bare_read value)
    | inr word ↦ elim (Bool-cases (is_quoted (strip value))) [
      | inl marked ↦ rw (other, word, marked) (bare_read value)
      | inr bare ↦ rw (other, word, bare) (quotes_read (strip value))
    ]
  ]
]

pub quotes_strip : (v : Str) → strip_quotes (strip (b'"' ∷ (v ++ b'"' ∷ []))) ≡ strip_quotes v
unfolding quoted is_space drop_left
quotes_strip v = rw (drop_right-last is_space (b'"' ∷ v) b'"' refl) (strip_quotes-quoted v)
