-- ===== src/KconfigWalk/Expr.antt =====
-- `_parse_kconfig_expr` of src/autokernel/kconfig_walk.py on its tokens, and `_emit_kconfig_expr`.
use autokernel.Base.{
  ℕ, zero, suc, Bool, true, false, ◌||◌, List, [], ◌∷◌, Option, none, some, Str, str, if◌then◌else◌,
  same, member, length,
}
use autokernel.KconfigWalk.Lexer.{tokens}

-- The tuples `("sym", s)`, `("cmp", op, l, r)`, `("not", e)`, `("and", e, f)` and `("or", e, f)`.
pub data Expr : Type 0 where
  name : Str → Expr
  compared : Str → Str → Str → Expr
  negated : Expr → Expr
  both : Expr → Expr → Expr
  either : Expr → Expr → Expr

-- What a parser gives: an expression and the tokens behind it, the `ValueError`, or a spent fuel.
pub data Parsed : Type 0 where
  parsed : Expr → List Str → Parsed
  bad : Parsed
  spent : Parsed

infixl 5 ◌>>=◌
abbrev pub ◌>>=◌ : Parsed → (Expr → List Str → Parsed) → Parsed
parsed e ts >>= f = f e ts
bad >>= f = bad
spent >>= f = spent

abbrev pub comparisons : List Str
comparisons = str "=" ∷ str "!=" ∷ str "<" ∷ str "<=" ∷ str ">" ∷ str ">=" ∷ []

-- `peek() == t`
abbrev pub at : Str → List Str → Bool
at t [] = false
at t (u ∷ ts) = same u t

abbrev pub rest_of : List Str → List Str
rest_of [] = []
rest_of (t ∷ ts) = ts

-- `while peek() == op: take(); node = (mk, node, item())`, on fuel for its rounds
unfoldable pub chain :
    Str → (Expr → Expr → Expr) → (List Str → Parsed) → ℕ → Expr → List Str → Parsed
chain op mk item zero node ts = if at op ts then spent else parsed node ts
chain op mk item (suc k) node ts = elim (at op ts) [
  | false ↦ parsed node ts
  | true ↦ item (rest_of ts) >>= λ e us. chain op mk item k (mk node e) us
]

-- A loop takes two tokens at least in each round.
unfoldable pub parse_chain : Str → (Expr → Expr → Expr) → (List Str → Parsed) → List Str → Parsed
unfolding chain
parse_chain op mk item ts = item ts >>= λ e us. chain op mk item (length us) e us

abbrev pub parse_and : (List Str → Parsed) → List Str → Parsed
parse_and unary = parse_chain (str "&&") both unary

abbrev pub parse_or : (List Str → Parsed) → List Str → Parsed
parse_or unary = parse_chain (str "||") either (parse_and unary)

-- `if take() != ")": raise ValueError`
abbrev pub closing : Expr → List Str → Parsed
closing e [] = bad
closing e (t ∷ ts) = if same t (str ")") then parsed e ts else bad

abbrev pub compared_with : Str → List Str → Parsed
compared_with tok [] = parsed (name tok) []
compared_with tok (op ∷ []) = if member op comparisons then bad else parsed (name tok) (op ∷ [])
compared_with tok (op ∷ t ∷ ts) =
    if member op comparisons then parsed (compared op tok t) ts else parsed (name tok) (op ∷ t ∷ ts)

abbrev pub is_reserved : Str → Bool
is_reserved tok = member tok (str "&&" ∷ str "||" ∷ str ")" ∷ []) || member tok comparisons

-- On fuel for its nesting.
unfoldable pub parse_unary : ℕ → List Str → Parsed
unfolding parse_chain
parse_unary zero ts = spent
parse_unary (suc fuel) [] = bad
parse_unary (suc fuel) (tok ∷ ts) = elim (same tok (str "!")) [
  | true ↦ parse_unary fuel ts >>= λ e us. parsed (negated e) us
  | false ↦ elim (same tok (str "(")) [
    | true ↦ parse_or (parse_unary fuel) ts >>= closing
    | false ↦ if is_reserved tok then bad else compared_with tok ts
  ]
]

-- `if i != len(tokens): raise ValueError`
abbrev pub finished : Parsed → Option Expr
finished (parsed e []) = some e
finished (parsed e (t ∷ ts)) = none
finished bad = none
finished spent = none

unfoldable pub parse_tokens : List Str → Parsed
unfolding parse_unary
parse_tokens ts = parse_or (parse_unary (suc (length ts))) ts

-- `none` is the `ValueError`.
unfoldable pub parse_kconfig_expr : Str → Option Expr
unfolding tokens parse_tokens
parse_kconfig_expr text = elim (tokens text) [ none ↦ none | some ts ↦ finished (parse_tokens ts) ]
