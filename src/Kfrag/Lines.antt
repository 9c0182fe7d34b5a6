-- ===== src/Kfrag/Lines.antt =====
-- How single lines of a fragment are read.
use autokernel.Base.{
  ℕ, Bool, true, false, [], ◌∷◌, ◌++◌, some, Str, str, all, strip_prefix, strip_prefix-append,
  starts_with, ◌≡◌, refl, ap, sym, ◌∙◌, arith, append_assoc,
}
use autokernel.Base.Space.{
  is_space, is_break, drop_left, drop_right, rstrip, strip, strip_quotes, drop_right-last,
  drop_right-keep, OneLine,
}
use autokernel.Kfrag.Parser.{
  is_symbol_char, take_left, config_symbol, is_not_set_tail, unset_symbol, set_symbol, parse_line,
  ParsedKfrag,
}
use autokernel.Kfrag.Writer.{unset_line, set_line}
use autokernel.Kfrag.Format.{is_word}
use autokernel.Base.Dict.{set_key}

-- `CONFIG_` and a word.
abbrev pub IsSymbol : Str → Type 0
IsSymbol s = (w : Str) × (s ≡ str "CONFIG_" ++ w) × (is_word w ≡ true)

pub is_symbol_char-plain :
    (c : ℕ) → is_symbol_char c ≡ true → (is_space c ≡ false) × (is_break c ≡ false)
unfolding is_symbol_char is_space is_break
is_symbol_char-plain c h = ground arith

module _ (p : ℕ → Bool) where
  take_left-all :
      (w : Str) (c : ℕ) (s : Str)
      → all p w ≡ true
      → p c ≡ false
      → (take_left p (w ++ c ∷ s) ≡ w) × (drop_left p (w ++ c ∷ s) ≡ c ∷ s)
  unfolding take_left drop_left
  take_left-all [] c s h e = ground arith
  take_left-all (x ∷ w) c s h e = ground (arith, take_left-all w c s)

-- A symbol is read off before a character that cannot be in one.
pub config_symbol-reads :
    (w : Str) (c : ℕ) (s : Str)
    → is_word w ≡ true
    → is_symbol_char c ≡ false
    → config_symbol (str "CONFIG_" ++ w ++ c ∷ s) ≡ some (str "CONFIG_" ++ w, c ∷ s)
unfolding config_symbol is_word
config_symbol-reads w c s h e =
    ground
      (arith, strip_prefix-append (str "CONFIG_") (w ++ c ∷ s), take_left-all is_symbol_char w c s)

rstrip-word : (w s : Str) → all is_symbol_char w ≡ true → rstrip (w ++ s) ≡ w ++ rstrip s
rstrip-word [] s h = refl
rstrip-word (c ∷ w) s h =
    ground (arith, is_symbol_char-plain c, drop_right-keep is_space c (w ++ s), rstrip-word w s)

pub OneLine-word : (w : Str) → all is_symbol_char w ≡ true → OneLine w
OneLine-word [] h = tt
OneLine-word (c ∷ w) h = ((is_symbol_char-plain c (ground arith)).1, OneLine-word w (ground arith))

unset_line-ends :
    (w : Str) → rstrip (unset_line (str "CONFIG_" ++ w)) ≡ unset_line (str "CONFIG_" ++ w)
unset_line-ends w = rw (sym (append_assoc w (str " is not se") (b't' ∷ []))) (
    drop_right-last is_space (str "# CONFIG_" ++ (w ++ str " is not se")) b't'
      (unfold is_space in refl))

-- A line that unsets a symbol is read as such.
pub parse_line-unset :
    (s : Str) (out : ParsedKfrag)
    → IsSymbol s
    → parse_line (rstrip (unset_line s)) out ≡ record out { disables = out.disables ++ s ∷ [] }
unfolding parse_line unset_symbol is_not_set_tail is_space drop_left strip_prefix
parse_line-unset s out (w, e, h) =
    rw
      (
        e,
        unset_line-ends w,
        config_symbol-reads w b' ' (str "is not set") h (unfold is_symbol_char in refl),
      )
      refl

word-all : (w : Str) → is_word w ≡ true → all is_symbol_char (str "CONFIG_" ++ w) ≡ true
unfolding is_word is_symbol_char
word-all w h = ground arith

rstrip-symbol :
    (w : Str) (c : ℕ) (s : Str)
    → is_word w ≡ true
    → is_space c ≡ false
    → rstrip (str "CONFIG_" ++ (w ++ c ∷ s)) ≡ str "CONFIG_" ++ (w ++ c ∷ rstrip s)
rstrip-symbol w c s h e =
    rstrip-word (str "CONFIG_" ++ w) (c ∷ s) (word-all w h)
    ∙ ap (λ t. str "CONFIG_" ++ (w ++ t)) (drop_right-keep is_space c s e)

-- An assignment is read as such, its value without outer spaces and quotes.
pub parse_line-set :
    (s value : Str) (out : ParsedKfrag)
    → IsSymbol s
    → parse_line (rstrip (set_line s value)) out
      ≡ record out { assignments = set_key s (strip_quotes (strip (rstrip value))) out.assignments }
unfolding parse_line unset_symbol set_symbol is_space starts_with strip_prefix drop_right
    is_symbol_char
parse_line-set s value out (w, e, h) =
    rw (e, rstrip-symbol w b'=' value h refl, config_symbol-reads w b'=' (rstrip value) h refl) refl

-- A note on a symbol is read as a comment.
pub parse_line-note :
    (s note : Str) (out : ParsedKfrag)
    → IsSymbol s
    → (header : Str) × (parse_line (rstrip (str "# " ++ (s ++ (str ": " ++ note)))) out
        ≡ record out { header_lines = out.header_lines ++ header ∷ [] })
unfolding parse_line unset_symbol set_symbol is_space starts_with strip_prefix drop_right drop_left
    is_not_set_tail is_symbol_char
parse_line-note s note out (w, e, h) = (
  str "# " ++ (str "CONFIG_" ++ (w ++ b':' ∷ rstrip (b' ' ∷ note))),
  rw
      (
        e,
        rstrip-symbol w b':' (b' ' ∷ note) h refl,
        config_symbol-reads w b':' (rstrip (b' ' ∷ note)) h refl,
      )
      refl,
)
