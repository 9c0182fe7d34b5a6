-- ===== src/Patches/Config/Applied/Lines.antt =====
-- What single lines of a `.config` say to `config_mismatches` of src/autokernel/patches.py.
use autokernel.Base.{
  ℕ, Bool, true, false, ◌||◌, ◌==◌, List, [], ◌∷◌, ◌++◌, Option, none, some, Str, str, ◌≡◌, refl,
  ap, sym, ◌∙◌, inl, inr, same, same_refl, eq_of_same, lookup, if◌then◌else◌, Bool-cases,
  Option-cases, arith, strip_prefix, strip_prefix-eq-some, starts_with, starts_with-append,
  append_assoc,
}
use autokernel.Base.Space.{drop_left, is_nil}
use autokernel.Base.Dict.{lookup-set_key}
use autokernel.Kfrag.Parser.{config_symbol, set_symbol, set_tail, take_left, is_symbol_char}
use autokernel.Kfrag.Writer.{unset_line, set_line}
use autokernel.Kfrag.Lines.{IsSymbol, config_symbol-reads}
use autokernel.Merge.Lines.{later, later-none, value_if}
use autokernel.Patches.Config.{
  exact_unset, behind_mark, read_unset, with_set, with_unset, read_have,
}

abbrev unset_value : Option Str → Option (Str × Str)
unset_value none = none
unset_value (some s) = some (s, str "n")

-- What the line says of the symbol `x`.
unfoldable pub line_value : Str → Str → Option Str
line_value x line =
    later (value_if x (unset_value (read_unset line))) (value_if x (set_symbol line))

unfoldable pub value_in : Str → List Str → Option Str
unfolding line_value
value_in x [] = none
value_in x (line ∷ lines) = later (value_in x lines) (line_value x line)

lookup-with_set :
    (x : Str) (o : Option (Str × Str)) (have : List (Str × Str))
    → lookup x (with_set o have) ≡ later (value_if x o) (lookup x have)
lookup-with_set x none have = refl
lookup-with_set x (some (s, v)) have = ground (arith, lookup-set_key x s v have)

lookup-with_unset :
    (x : Str) (o : Option Str) (have : List (Str × Str))
    → lookup x (with_unset o have) ≡ later (value_if x (unset_value o)) (lookup x have)
lookup-with_unset x none have = refl
lookup-with_unset x (some s) have = ground (arith, lookup-set_key x s (str "n") have)

later_assoc : (a b c : Option Str) → later a (later b c) ≡ later (later a b) c
later_assoc none b c = refl
later_assoc (some a) b c = refl

pub lookup-read_have :
    (x : Str) (lines : List Str) (have : List (Str × Str))
    → lookup x (read_have lines have) ≡ later (value_in x lines) (lookup x have)
unfolding read_have value_in line_value
lookup-read_have x [] have = refl
lookup-read_have x (line ∷ lines) have =
    let set = with_set (set_symbol line) have in
    lookup-read_have x lines (with_unset (read_unset line) set)
    ∙ (ap (later (value_in x lines)) (
          lookup-with_unset x (read_unset line) set
          ∙ (ap (later (value_if x (unset_value (read_unset line))))
                (lookup-with_set x (set_symbol line) have)
              ∙ later_assoc (value_if x (unset_value (read_unset line)))
                  (value_if x (set_symbol line)) (lookup x have)))
        ∙ later_assoc (value_in x lines) (line_value x line) (lookup x have))

pub value_in-append :
    (x : Str) (xs ys : List Str) → value_in x (xs ++ ys) ≡ later (value_in x ys) (value_in x xs)
unfolding value_in
value_in-append x [] ys = sym (later-none (value_in x ys))
value_in-append x (l ∷ xs) ys =
    rw (value_in-append x xs ys)
      (sym (later_assoc (value_in x ys) (value_in x xs) (line_value x l)))

take_left-drop_left : (p : ℕ → Bool) (s : Str) → take_left p s ++ drop_left p s ≡ s
unfolding take_left drop_left
take_left-drop_left p [] = refl
take_left-drop_left p (c ∷ s) = ground (arith, take_left-drop_left p s)

abbrev Rejoined : Str → Option (Str × Str) → Type 0
Rejoined t none = Unit
Rejoined t (some (s, rest)) = t ≡ s ++ rest

config_symbol-Rejoined : (t : Str) → Rejoined t (config_symbol t)
unfolding config_symbol strip_prefix
config_symbol-Rejoined t = elim (Option-cases (strip_prefix (str "CONFIG_") t)) [
  | inl e ↦ rw e tt
  | inr (w, e) ↦ elim (Bool-cases (is_nil (take_left is_symbol_char w))) [
    | inl nil ↦ rw (e, nil) tt
    | inr word ↦
        rw (e, word)
          (strip_prefix-eq-some (str "CONFIG_") t w e
            ∙ ap (λ r. str "CONFIG_" ++ r) (sym (take_left-drop_left is_symbol_char w)))
  ]
]

abbrev IsAssigned : Str → Option (Str × Str) → Type 0
IsAssigned t none = Unit
IsAssigned t (some (s, v)) = t ≡ set_line s v

set_tail-IsAssigned : (t : Str) (o : Option (Str × Str)) → Rejoined t o → IsAssigned t (set_tail o)
set_tail-IsAssigned t none h = tt
set_tail-IsAssigned t (some (s, [])) h = tt
set_tail-IsAssigned t (some (s, c ∷ v)) h = elim (Bool-cases (c == b'=')) [
  | inl eq ↦ rw eq (h ∙ ap (λ d. s ++ d ∷ v) (ground arith))
  | inr ne ↦ rw ne tt
]

set_symbol-IsAssigned : (t : Str) → IsAssigned t (set_symbol t)
unfolding set_symbol
set_symbol-IsAssigned t = set_tail-IsAssigned t (config_symbol t) (config_symbol-Rejoined t)

abbrev IsUnset : Str → Option Str → Type 0
IsUnset t none = Unit
IsUnset t (some s) = t ≡ unset_line s

exact_unset-IsUnset :
    (t : Str) (o : Option (Str × Str)) → Rejoined t o → IsUnset (str "# " ++ t) (exact_unset o)
exact_unset-IsUnset t none h = tt
exact_unset-IsUnset t (some (s, tail)) h = elim (Bool-cases (same tail (str " is not set"))) [
  | inl eq ↦
      rw eq (ap (λ r. str "# " ++ r) (h ∙ ap (s ++◌) (eq_of_same tail (str " is not set") eq)))
  | inr ne ↦ rw ne tt
]

read_unset-IsUnset : (t : Str) → IsUnset t (read_unset t)
unfolding read_unset behind_mark
read_unset-IsUnset t = elim (Option-cases (strip_prefix (str "# ") t)) [
  | inl e ↦ rw e tt
  | inr (r, e) ↦
      rw (e, strip_prefix-eq-some (str "# ") t r e)
        (exact_unset-IsUnset r (config_symbol r) (config_symbol-Rejoined r))
]

-- The line sets or unsets the symbol.
unfoldable pub sets : Str → Str → Bool
unfolding starts_with same
sets s line = starts_with line (s ++ str "=") || same line (unset_line s)

sets-set_line : (s v : Str) → sets s (set_line s v) ≡ true
unfolding sets
sets-set_line s v =
    ap (λ t. starts_with t (s ++ str "=") || same t (unset_line s))
      (sym (append_assoc s (str "=") v))
    ∙ rw (starts_with-append (s ++ str "=") v) refl

sets-unset_line : (s : Str) → sets s (unset_line s) ≡ true
unfolding sets
sets-unset_line s = rw (same_refl (unset_line s)) (ground arith)

value_if-unsaid :
    (x line : Str) (o : Option (Str × Str))
    → IsAssigned line o
    → sets x line ≡ false
    → value_if x o ≡ none
value_if-unsaid x line none h g = refl
value_if-unsaid x line (some (s, v)) h g = elim (Bool-cases (same x s)) [
  | inl eq ↦ let said : sets x line ≡ true = rw (h, eq_of_same x s eq) (sets-set_line s v) in cc
  | inr ne ↦ rw ne refl
]

pub line_value-set_line :
    (x s v : Str) → IsSymbol s → line_value x (set_line s v) ≡ (if same x s then some v else none)
unfolding line_value set_symbol read_unset is_symbol_char strip_prefix
line_value-set_line x s v (w, e, h) = rw (e, config_symbol-reads w b'=' v h refl) refl

pub line_value-unset_line :
    (x s : Str)
    → IsSymbol s
    → line_value x (unset_line s) ≡ (if same x s then some (str "n") else none)
unfolding line_value set_symbol read_unset is_symbol_char strip_prefix
line_value-unset_line x s (w, e, h) =
    rw (e, config_symbol-reads w b' ' (str "is not set") h refl)
      (rw (same_refl (str " is not set"))
        (later-none (value_if x (some (str "CONFIG_" ++ w, str "n")))))

value_if-ununset :
    (x line : Str) (o : Option Str)
    → IsUnset line o
    → sets x line ≡ false
    → value_if x (unset_value o) ≡ none
value_if-ununset x line none h g = refl
value_if-ununset x line (some s) h g = elim (Bool-cases (same x s)) [
  | inl eq ↦ let said : sets x line ≡ true = rw (h, eq_of_same x s eq) (sets-unset_line s) in cc
  | inr ne ↦ rw ne refl
]

-- A line that neither sets nor unsets the symbol says nothing of it.
pub line_value-unsaid : (x line : Str) → sets x line ≡ false → line_value x line ≡ none
unfolding line_value
line_value-unsaid x line g =
    rw
      (
        value_if-ununset x line (read_unset line) (read_unset-IsUnset line) g,
        value_if-unsaid x line (set_symbol line) (set_symbol-IsAssigned line) g,
      )
      refl

starts_with-eq-true : (p line : Str) → starts_with line p ≡ true → (r : Str) × (line ≡ p ++ r)
unfolding starts_with strip_prefix
starts_with-eq-true p line h = elim (Option-cases (strip_prefix p line)) [
  | inl e ↦ let gone : starts_with line p ≡ false = rw (e, starts_with) refl in cc
  | inr (r, e) ↦ (r, strip_prefix-eq-some p line r e)
]

-- A line that sets or unsets a symbol says nothing of another.
pub line_value-other :
    (x s line : Str) → IsSymbol s → sets s line ≡ true → same x s ≡ false → line_value x line ≡ none
unfolding sets
line_value-other x s line i h ne = elim (Bool-cases (starts_with line (s ++ str "="))) [
  | inl set ↦
      let (r, e) = starts_with-eq-true (s ++ str "=") line set in
      ap (line_value x) (e ∙ append_assoc s (str "=") r)
      ∙ (line_value-set_line x s r i ∙ rw ne refl)
  | inr unset ↦
      let eq : same line (unset_line s) ≡ true = ground arith in
      ap (line_value x) (eq_of_same line (unset_line s) eq)
      ∙ (line_value-unset_line x s i ∙ rw ne refl)
]

pub line_value-empty : (x : Str) → line_value x [] ≡ none
unfolding line_value set_symbol read_unset config_symbol strip_prefix
line_value-empty x = refl
