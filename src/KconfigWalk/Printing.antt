-- ===== src/KconfigWalk/Printing.antt =====
-- The tokens of a printed expression.
use autokernel.Base.{
  true, List, [], ◌∷◌, ◌++◌, some, Str, str, ◌≡◌, refl, member, append_assoc, append-nil,
}
use autokernel.KconfigWalk.Lexer.{is_name_char, tokens}
use autokernel.KconfigWalk.Expr.{Expr, name, compared, negated, both, either, comparisons}
use autokernel.KconfigWalk.Rewrite.{emit_kconfig_expr}
use autokernel.KconfigWalk.Reading.{
  Reads, Reads-nil, Reads-space, Reads-open, Reads-close, Reads-not, Reads-and, Reads-or,
  Reads-name, Reads-comparison, IsName, Ends, tokens-Reads,
}

-- Every operand is a name, and every comparison is one.
abbrev pub IsPlain : Expr → Type 0
IsPlain (name s) = IsName s
IsPlain (compared op l r) = IsName l × (member op comparisons ≡ true) × IsName r
IsPlain (negated e) = IsPlain e
IsPlain (both e f) = IsPlain e × IsPlain f
IsPlain (either e f) = IsPlain e × IsPlain f

-- The tokens of a bracketed text, with what is behind it.
abbrev pub in_brackets : List Str → List Str → List Str
in_brackets ts rest = str "(" ∷ ts ++ str ")" ∷ rest

unfoldable pub toks : Expr → List Str
toks (name s) = s ∷ []
toks (compared op l r) = l ∷ op ∷ r ∷ []
toks (negated e) = str "!" ∷ in_brackets (toks e) []
toks (both e f) = in_brackets (toks e) (str "&&" ∷ in_brackets (toks f) [])
toks (either e f) = in_brackets (toks e) (str "||" ∷ in_brackets (toks f) [])

-- An expression in brackets, from what its own tokens are.
Reads-bracketed :
    (s rest : Str) (us ts : List Str)
    → ((more : Str) (vs : List Str) → Ends more → Reads more vs → Reads (s ++ more) (us ++ vs))
    → Reads rest ts
    → Reads (b'(' ∷ (s ++ b')' ∷ rest)) (in_brackets us ts)
unfolding is_name_char
Reads-bracketed s rest us ts h r =
    Reads-open (s ++ b')' ∷ rest) (us ++ str ")" ∷ ts)
      (h (b')' ∷ rest) (str ")" ∷ ts) refl (Reads-close rest ts r))

Reads-emit_kconfig_expr :
    (e : Expr) (rest : Str) (ts : List Str)
    → IsPlain e
    → Ends rest
    → Reads rest ts
    → Reads (emit_kconfig_expr e ++ rest) (toks e ++ ts)
unfolding emit_kconfig_expr toks is_name_char
Reads-emit_kconfig_expr (name s) rest ts p n r = Reads-name s rest ts p n r
Reads-emit_kconfig_expr (compared op l r) rest ts p n h = simp append_assoc (
    Reads-name l _ _ p.0 refl (
      Reads-space _ _
        (Reads-comparison op _ _ p.1 (Reads-space _ _ (Reads-name r rest ts p.2 n h)))))
Reads-emit_kconfig_expr (negated e) rest ts p n r = simp append_assoc (
    Reads-not _ _ (
      Reads-bracketed (emit_kconfig_expr e) rest (toks e) ts
        (λ more vs. Reads-emit_kconfig_expr e more vs p) r))
Reads-emit_kconfig_expr (both e f) rest ts p n r = simp append_assoc (
    Reads-bracketed (emit_kconfig_expr e) _ (toks e) _
      (λ more vs. Reads-emit_kconfig_expr e more vs p.0)
      (Reads-space _ _ (
        Reads-and _ _ (
          Reads-space _ _ (
            Reads-bracketed (emit_kconfig_expr f) rest (toks f) ts
              (λ more vs. Reads-emit_kconfig_expr f more vs p.1) r)))))
Reads-emit_kconfig_expr (either e f) rest ts p n r = simp append_assoc (
    Reads-bracketed (emit_kconfig_expr e) _ (toks e) _
      (λ more vs. Reads-emit_kconfig_expr e more vs p.0)
      (Reads-space _ _ (
        Reads-or _ _ (
          Reads-space _ _ (
            Reads-bracketed (emit_kconfig_expr f) rest (toks f) ts
              (λ more vs. Reads-emit_kconfig_expr f more vs p.1) r)))))

-- The tokens of a printed expression.
pub tokens-emit_kconfig_expr : (e : Expr) → IsPlain e → tokens (emit_kconfig_expr e) ≡ some (toks e)
tokens-emit_kconfig_expr e p =
    tokens-Reads (emit_kconfig_expr e) (toks e)
      (simp append-nil at (Reads-emit_kconfig_expr e [] [] p tt Reads-nil))
