-- ===== src/Merge/Format.antt =====
-- A value that the merge writes is read as that value.
use autokernel.Base.{
  ℕ, true, false, not, ◌&&◌, ◌||◌, [], ◌∷◌, ◌++◌, some, Str, str, ◌≡◌, refl, ap, ◌∙◌, arith, same,
  eq_of_same, all, starts_with, Bool-cases, inl, inr, strip_prefix,
}
use autokernel.Base.Space.{is_space, is_break, drop_left, drop_right, strip, strip_quotes, OneLine}
use autokernel.Kfrag.Parser.{unset_symbol, set_symbol, is_not_set_tail, is_symbol_char}
use autokernel.Kfrag.Format.{all_digits, is_digit}
use autokernel.Kfrag.Writer.{unset_line, set_line}
use autokernel.Kfrag.Lines.{IsSymbol, config_symbol-reads}
use autokernel.Kfrag.OneLines.{OneLine-append, unset_line-OneLine, set_line-OneLine}
use autokernel.Kfrag.Values.{quotes_strip}
use autokernel.Merge.{normalize_value, format_value, is_feed}

-- A value that a fragment may hold: on one line, with no quote at either end, and with no space at
-- either end if it looks like a hexadecimal number.
pub record IsSettled (v : Str) : Type 0 where
  pub line : OneLine v
  pub unquoted : strip_quotes v ≡ v
  pub hex : (starts_with v (str "0x") && not (same (strip v) v)) ≡ false

pub drop_feed : (s : Str) → OneLine s → drop_right is_feed s ≡ s
unfolding drop_right is_break
drop_feed [] h = refl
drop_feed (c ∷ s) h = ground (arith, h.0, drop_feed s h.1)

is_digit-space : (c : ℕ) → is_digit c ≡ true → is_space c ≡ false
unfolding is_space
is_digit-space c h = ground arith

strip-digits :
    (v : Str) → all is_digit v ≡ true → (drop_right is_space v ≡ v) × (drop_left is_space v ≡ v)
unfolding drop_right drop_left
strip-digits [] h = (refl, refl)
strip-digits (c ∷ v) h = ground (arith, is_digit-space c, strip-digits v)

normalize-unset : (s : Str) → IsSymbol s → normalize_value (unset_line s) ≡ some (s, str "n")
unfolding normalize_value unset_symbol is_not_set_tail drop_left is_space strip_prefix
normalize-unset s (w, e, h) =
    rw
      (
        drop_feed (unset_line s) (unset_line-OneLine s (w, e, h)),
        e,
        config_symbol-reads w b' ' (str "is not set") h (unfold is_symbol_char in refl),
      )
      refl

normalize-set :
    (s v : Str)
    → IsSymbol s
    → OneLine v
    → normalize_value (set_line s v) ≡ some (s, strip_quotes (strip v))
unfolding normalize_value unset_symbol set_symbol
normalize-set s v (w, e, h) o =
    rw
      (
        drop_feed (set_line s v) (set_line-OneLine s v (w, e, h) o),
        e,
        config_symbol-reads w b'=' v h (unfold is_symbol_char in refl),
      )
      refl

pub quoted_line : (v : Str) → OneLine v → OneLine (b'"' ∷ (v ++ b'"' ∷ []))
unfolding is_break
quoted_line v h = (refl, OneLine-append v (b'"' ∷ []) h (refl, tt))

strip-y : strip (str "y") ≡ str "y"
unfolding drop_right drop_left is_space
strip-y = refl

strip-m : strip (str "m") ≡ str "m"
unfolding drop_right drop_left is_space
strip-m = refl

plain_strip :
    (v : Str) → (same v (str "y") || same v (str "m") || all_digits v) ≡ true → strip v ≡ v
plain_strip v h = elim (Bool-cases (same v (str "y"))) [
  | inl y ↦ rw (eq_of_same v (str "y") y) strip-y
  | inr other ↦ elim (Bool-cases (same v (str "m"))) [
    | inl m ↦ rw (eq_of_same v (str "m") m) strip-m
    | inr number ↦ let d = strip-digits v (ground (arith, h)) in rw d.0 d.1
  ]
]

-- What `_format_assignment` writes, `_normalize_value` reads.
pub normalize_value-format_value :
    (s v : Str) → IsSymbol s → IsSettled v → normalize_value (format_value s v) ≡ some (s, v)
unfolding format_value
normalize_value-format_value s v i h = elim (Bool-cases (same v (str "n"))) [
  | inl off ↦ rw (off, eq_of_same v (str "n") off) (normalize-unset s i)
  | inr set ↦ elim (Bool-cases (same v (str "y") || same v (str "m") || all_digits v)) [
    | inl plain ↦
        rw (set, plain)
          (normalize-set s v i h.line ∙ ap (λ x. some (s, x)) (rw (plain_strip v plain) h.unquoted))
    | inr other ↦ elim (Bool-cases (starts_with v (str "0x"))) [
      | inl hex ↦
          rw (set, other, hex)
            (normalize-set s v i h.line
              ∙ ap (λ x. some (s, x))
                  (rw (eq_of_same (strip v) v (ground (arith, h.hex))) h.unquoted))
      | inr text ↦
          rw (set, other, text)
            (normalize-set s (b'"' ∷ (v ++ b'"' ∷ [])) i (quoted_line v h.line)
              ∙ ap (λ x. some (s, x)) (quotes_strip v ∙ h.unquoted))
    ]
  ]
]
