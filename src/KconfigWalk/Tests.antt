-- ===== src/KconfigWalk/Tests.antt =====
-- Expressions of Kconfig files, parsed and rewritten.
use autokernel.KconfigWalk.Total.{parse_tokens-ne-spent}
use autokernel.KconfigWalk.Expr.{spent}
use autokernel.Base.{
  ◌≢◌, not, [], ◌∷◌, none, some, str, ◌≡◌, refl, ◌==◌, same, strip_prefix, same_refl, ◌≤◌, arith,
}
use autokernel.Base.Space.{drop_left, is_space}
use autokernel.KconfigWalk.Lexer.{
  tokens, tokens_from, next_token, first_operator, quoted_rest, name_rest, is_name_char,
}
use autokernel.KconfigWalk.Expr.{
  Expr, name, compared, negated, both, either, parse_kconfig_expr, parse_tokens, parse_unary,
  parse_chain, chain,
}
use autokernel.KconfigWalk.Rewrite.{
  emit_kconfig_expr, trans_compare_n, rewrite_conditional_depends, DependsLine,
}
use autokernel.KconfigWalk.Printing.{IsPlain}
use autokernel.KconfigWalk.RoundTrip.{parse_kconfig_expr-emit_kconfig_expr}
use autokernel.KconfigWalk.Meaning.{Symbols}

abbrev pci_not_uml : Expr
pci_not_uml = both (name (str "PCI")) (negated (name (str "UML")))

parses : parse_kconfig_expr (str "PCI&& !UML") ≡ some pci_not_uml
unfolding parse_kconfig_expr tokens tokens_from next_token first_operator quoted_rest name_rest
    is_name_char drop_left is_space strip_prefix parse_tokens parse_unary parse_chain chain same
parses = refl

binds_and_first :
    parse_kconfig_expr (str "A || B && C=y")
    ≡ some
        (either (name (str "A")) (both (name (str "B")) (compared (str "=") (str "C") (str "y"))))
unfolding parse_kconfig_expr tokens tokens_from next_token first_operator quoted_rest name_rest
    is_name_char drop_left is_space strip_prefix parse_tokens parse_unary parse_chain chain same
binds_and_first = refl

trailing : parse_kconfig_expr (str "A B") ≡ none
unfolding parse_kconfig_expr tokens tokens_from next_token first_operator quoted_rest name_rest
    is_name_char drop_left is_space strip_prefix parse_tokens parse_unary parse_chain chain same
trailing = refl

unbalanced : parse_kconfig_expr (str "(A") ≡ none
unfolding parse_kconfig_expr tokens tokens_from next_token first_operator quoted_rest name_rest
    is_name_char drop_left is_space strip_prefix parse_tokens parse_unary parse_chain chain same
unbalanced = refl

pci_not_uml-IsPlain : IsPlain pci_not_uml
unfolding is_name_char
pci_not_uml-IsPlain = ((refl, (refl, (refl, tt))), (refl, (refl, (refl, tt))))

parse_kconfig_expr-emit_kconfig_expr_example :
    parse_kconfig_expr (str "(PCI) && (!(UML))") ≡ some pci_not_uml
unfolding emit_kconfig_expr
parse_kconfig_expr-emit_kconfig_expr_example =
    parse_kconfig_expr-emit_kconfig_expr pci_not_uml pci_not_uml-IsPlain

-- `depends on NET if PCI && !UML`
abbrev net_line : DependsLine
net_line = record {
  indent = str "  ";
  dep = str "NET";
  cond = str "PCI && !UML";
  comment = none;
  whole = str "  depends on NET if PCI && !UML";
}

rewritten :
    rewrite_conditional_depends net_line ≡ str "  depends on (NET) || ((PCI = n) || (UML != n))"
unfolding rewrite_conditional_depends trans_compare_n parse_kconfig_expr tokens tokens_from
    next_token first_operator quoted_rest name_rest is_name_char drop_left is_space strip_prefix
    parse_tokens parse_unary parse_chain chain same
rewritten = refl

unequal-same : same (str "!=") (str "=") ≡ not (◌==◌ 0 0)
unfolding same
unequal-same = refl

zero_le_two : 0 ≤ 2
zero_le_two = omega arith

-- Every symbol is n, and only the comparison with n is of interest.
abbrev all_n : Symbols
all_n = record {
  tristate = λ s. 0;
  holds = λ op l r. same op (str "=");
  tristate-le = λ s. zero_le_two;
  equal_n = λ s. same_refl (str "=");
  unequal_n = λ s. unequal-same;
}

parse_tokens-ne-spent_example : parse_tokens (str "(" ∷ str "A" ∷ str "&&" ∷ []) ≢ spent
parse_tokens-ne-spent_example = parse_tokens-ne-spent (str "(" ∷ str "A" ∷ str "&&" ∷ [])
