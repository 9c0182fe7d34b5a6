-- ===== src/KconfigWalk/Lexer.antt =====
-- `_KCONFIG_EXPR_TOKEN` of src/autokernel/kconfig_walk.py, and the loop of `_parse_kconfig_expr` that
-- splits a text into tokens.
use autokernel.Base.{
  ℕ, zero, suc, Bool, true, false, ◌&&◌, ◌||◌, List, [], ◌∷◌, Option, none, some, Str, str, leb,
  ◌==◌, if◌then◌else◌, length, strip_prefix,
}
use autokernel.Base.Space.{is_space, drop_left}

-- `[A-Za-z0-9_$.-]`
unfoldable pub is_name_char : ℕ → Bool
is_name_char c =
    (leb b'A' c && leb c b'Z')
    || (leb b'a' c && leb c b'z')
    || (leb b'0' c && leb c b'9')
    || c == b'_'
    || c == b'$'
    || leb b'-' c && leb c b'.'

-- The alternatives of the expression that are fixed texts, in their order.
abbrev pub operators : List Str
operators =
    str "&&"
    ∷ str "||"
    ∷ str "!="
    ∷ str "<="
    ∷ str ">="
    ∷ str "("
    ∷ str ")"
    ∷ str "!"
    ∷ str "="
    ∷ str "<"
    ∷ str ">"
    ∷ []

-- A token and what is behind it.
abbrev pub Split : Type 0
Split = Option (Str × Str)

abbrev pub prepend : ℕ → Split → Split
prepend c none = none
prepend c (some (t, r)) = some (c ∷ t, r)

unfoldable pub first_operator : List Str → Str → Split
first_operator [] s = none
first_operator (o ∷ os) s = elim (strip_prefix o s) [
  | some r ↦ some (o, r)
  | none ↦ first_operator os s
]

-- `(?:[^"\\]|\\.)*"` behind the opening quote; `escaped` says that a backslash stood before.
unfoldable pub quoted_rest : Bool → Str → Split
quoted_rest escaped [] = none
quoted_rest true (c ∷ s) = if c == 10 then none else prepend c (quoted_rest false s)
quoted_rest false (c ∷ s) =
    let on = prepend c (quoted_rest (c == b'\\') s) in if c == b'"' then some (c ∷ [], s) else on

-- `[A-Za-z0-9_$.-]+`, all of it
unfoldable pub name_rest : Str → Str × Str
unfolding is_name_char
name_rest [] = ([], [])
name_rest (c ∷ s) = let (t, r) = name_rest s in if is_name_char c then (c ∷ t, r) else ([], c ∷ s)

abbrev pub some_name : Str × Str → Split
some_name ([], r) = none
some_name (c ∷ t, r) = some (c ∷ t, r)

-- A string or a name.
abbrev pub operand : Str → Split
operand [] = none
operand (c ∷ s) =
    if c == b'"' then prepend c (quoted_rest false s) else some_name (name_rest (c ∷ s))

abbrev pub or_else : Split → Split → Split
or_else none b = b
or_else (some a) b = some a

-- The first token of a text that does not start with a space.
unfoldable pub next_token : Str → Split
unfolding first_operator quoted_rest name_rest
next_token s = or_else (first_operator operators s) (operand s)

abbrev pub cons_token : Str → Option (List Str) → Option (List Str)
cons_token t none = none
cons_token t (some ts) = some (t ∷ ts)

abbrev pub with_token : (Str → Option (List Str)) → Split → Option (List Str)
with_token more none = none
with_token more (some (t, rest)) = cons_token t (more rest)

-- A round of the loop behind the spaces.
abbrev pub token_round : (Str → Option (List Str)) → Str → Option (List Str)
token_round more [] = some []
token_round more (c ∷ s) = with_token more (next_token (c ∷ s))

-- The loop: `none` is the error that no token matches. Every token has a character, so there are no
-- more rounds than characters.
unfoldable pub tokens_from : ℕ → Str → Option (List Str)
unfolding next_token
tokens_from zero s = none
tokens_from (suc fuel) s = token_round (tokens_from fuel) (drop_left is_space s)

unfoldable pub tokens : Str → Option (List Str)
unfolding tokens_from
tokens text = tokens_from (suc (length text)) text
