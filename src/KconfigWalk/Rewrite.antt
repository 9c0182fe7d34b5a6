-- ===== src/KconfigWalk/Rewrite.antt =====
-- `_emit_kconfig_expr`, `_trans_compare_n` and `_rewrite_conditional_depends` of
-- src/autokernel/kconfig_walk.py.
use autokernel.Base.{Bool, true, not, ◌∷◌, ◌++◌, Option, none, some, Str, str, if◌then◌else◌}
use autokernel.KconfigWalk.Expr.{Expr, name, compared, negated, both, either, parse_kconfig_expr}

-- `({s})`
abbrev pub bracketed : Str → Str
bracketed s = b'(' ∷ (s ++ str ")")

-- `({s}) {op} ({t})`
abbrev pub two_sides : Str → Str → Str → Str
two_sides op s t = bracketed s ++ (b' ' ∷ (op ++ (b' ' ∷ bracketed t)))

unfoldable pub emit_kconfig_expr : Expr → Str
emit_kconfig_expr (name s) = s
emit_kconfig_expr (compared op l r) = l ++ (b' ' ∷ (op ++ (b' ' ∷ r)))
emit_kconfig_expr (negated e) = b'!' ∷ bracketed (emit_kconfig_expr e)
emit_kconfig_expr (both e f) = two_sides (str "&&") (emit_kconfig_expr e) (emit_kconfig_expr f)
emit_kconfig_expr (either e f) = two_sides (str "||") (emit_kconfig_expr e) (emit_kconfig_expr f)

abbrev pub negated_if : Bool → Str → Str
negated_if b s = if b then b'!' ∷ bracketed s else s

unfoldable pub trans_compare_n : Expr → Bool → Str
unfolding emit_kconfig_expr
trans_compare_n (name s) equal = s ++ (b' ' ∷ ((if equal then str "=" else str "!=") ++ str " n"))
trans_compare_n (negated e) equal = trans_compare_n e (not equal)
trans_compare_n (compared op l r) equal = negated_if equal (emit_kconfig_expr (compared op l r))
trans_compare_n (both e f) equal =
    negated_if (not equal) (two_sides (str "||") (trans_compare_n e true) (trans_compare_n f true))
trans_compare_n (either e f) equal =
    negated_if (not equal) (two_sides (str "&&") (trans_compare_n e true) (trans_compare_n f true))

-- The groups of a match of `_CONDITIONAL_DEPENDS_LINE`, and the text of the whole match.
pub record DependsLine : Type 0 where
  pub indent : Str
  pub dep : Str
  pub cond : Str
  pub comment : Option Str
  pub whole : Str

-- `f"{line} {comment}" if comment else line`
abbrev pub with_comment : Str → Option Str → Str
with_comment line none = line
with_comment line (some comment) = line ++ (b' ' ∷ comment)

unfoldable pub rewrite_conditional_depends : DependsLine → Str
unfolding parse_kconfig_expr trans_compare_n
rewrite_conditional_depends m = elim (parse_kconfig_expr m.cond) [
  | none ↦ m.whole
  | some e ↦
      with_comment
        (m.indent
          ++ (str "depends on ("
              ++ (m.dep ++ (str ") || (" ++ (trans_compare_n e true ++ str ")")))))
        m.comment
]
