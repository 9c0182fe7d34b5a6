-- ===== src/KconfigWalk/RoundTrip.antt =====
-- A printed expression is read back.
use autokernel.Base.{
  ℕ, zero, suc, ◌+◌, ◌≤◌, false, List, [], ◌∷◌, ◌++◌, some, Str, str, ◌≡◌, refl, arith, length,
  length-append, same, same_refl, ◌∙◌, append_assoc, append-nil,
}
use autokernel.KconfigWalk.Lexer.{is_name_char}
use autokernel.KconfigWalk.Expr.{
  Expr, name, compared, negated, both, either, Parsed, parsed, at, chain, parse_chain, parse_and,
  parse_or, parse_unary, parse_tokens, parse_kconfig_expr, is_reserved, compared_with,
}
use autokernel.KconfigWalk.Rewrite.{emit_kconfig_expr}
use autokernel.KconfigWalk.Reading.{IsName}
use autokernel.KconfigWalk.Printing.{IsPlain, toks, in_brackets, tokens-emit_kconfig_expr}

-- How deep the brackets and negations of a printed expression go.
depth : Expr → ℕ
depth (name s) = 1
depth (compared op l r) = 1
depth (negated e) = depth e + 2
depth (both e f) = depth e + depth f + 1
depth (either e f) = depth e + depth f + 1

-- What stands behind an expression ends it: nothing, or a closing bracket.
abbrev Closed : List Str → Type 0
Closed [] = Unit
Closed (t ∷ ts) = t ≡ str ")"

-- A chain without its operator is its first item.
chain-stop :
    (op : Str) (mk : Expr → Expr → Expr) (item : List Str → Parsed) (k : ℕ) (e : Expr)
    (ts : List Str)
    → at op ts ≡ false
    → chain op mk item k e ts ≡ parsed e ts
unfolding chain
chain-stop op mk item zero e ts h = rw h refl
chain-stop op mk item (suc k) e ts h = rw (h, chain) refl

parse_chain-single :
    (op : Str) (mk : Expr → Expr → Expr) (item : List Str → Parsed) (e : Expr) (ts rest : List Str)
    → item ts ≡ parsed e rest
    → at op rest ≡ false
    → parse_chain op mk item ts ≡ parsed e rest
unfolding parse_chain
parse_chain-single op mk item e ts rest h stop =
    rw h (chain-stop op mk item (length rest) e rest stop)

parse_chain-two :
    (op : Str) (mk : Expr → Expr → Expr) (item : List Str → Parsed) (e f : Expr)
    (ts us rest : List Str)
    → item ts ≡ parsed e (op ∷ us)
    → item us ≡ parsed f rest
    → at op rest ≡ false
    → parse_chain op mk item ts ≡ parsed (mk e f) rest
unfolding parse_chain
parse_chain-two op mk item e f ts us rest h g stop =
    let again : chain op mk item (suc (length us)) e (op ∷ us) ≡ parsed (mk e f) rest =
      unfold chain in
      rw (same_refl op, chain, g) (chain-stop op mk item (length us) (mk e f) rest stop) in
    rw h again

Closed-and : (ts : List Str) → Closed ts → at (str "&&") ts ≡ false
unfolding same
Closed-and [] c = refl
Closed-and (t ∷ ts) c = rw c refl

Closed-or : (ts : List Str) → Closed ts → at (str "||") ts ≡ false
unfolding same
Closed-or [] c = refl
Closed-or (t ∷ ts) c = rw c refl

parse_or-single :
    (unary : List Str → Parsed) (e : Expr) (ts rest : List Str)
    → Closed rest
    → unary ts ≡ parsed e rest
    → parse_or unary ts ≡ parsed e rest
parse_or-single unary e ts rest c h =
    parse_chain-single _ _ _ e ts rest
      (parse_chain-single _ _ unary e ts rest h (Closed-and rest c)) (Closed-or rest c)

or_no_and : at (str "&&") (str "||" ∷ []) ≡ false
unfolding same
or_no_and = refl

-- Names are no tokens of the grammar's own.
IsName-no_not : (s : Str) → IsName s → same s (str "!") ≡ false
unfolding is_name_char same
IsName-no_not [] h = absurd h
IsName-no_not (c ∷ s) h = let k = h.0 in ground arith

IsName-no_open : (s : Str) → IsName s → same s (str "(") ≡ false
unfolding is_name_char same
IsName-no_open [] h = absurd h
IsName-no_open (c ∷ s) h = let k = h.0 in ground arith

IsName-no_reserved : (s : Str) → IsName s → is_reserved s ≡ false
unfolding is_name_char same
IsName-no_reserved [] h = absurd h
IsName-no_reserved (c ∷ s) h = let k = h.0 in ground arith

compared_with-Closed :
    (s : Str) (rest : List Str) → Closed rest → compared_with s rest ≡ parsed (name s) rest
unfolding same
compared_with-Closed s [] c = refl
compared_with-Closed s (t ∷ []) c = rw c refl
compared_with-Closed s (t ∷ u ∷ ts) c = rw c refl

-- An operand is read without its continuation.
parse_unary-operand :
    (f : ℕ) (s : Str) (ts : List Str) → IsName s → parse_unary (suc f) (s ∷ ts) ≡ compared_with s ts
unfolding parse_unary
parse_unary-operand f s ts h =
    rw (IsName-no_not s h, IsName-no_open s h, IsName-no_reserved s h, parse_unary) refl

parse_unary-bracketed :
    (f : ℕ) (e : Expr) (us rest : List Str)
    → parse_or (parse_unary f) (us ++ str ")" ∷ rest) ≡ parsed e (str ")" ∷ rest)
    → parse_unary (suc f) (in_brackets us rest) ≡ parsed e rest
unfolding parse_unary same
parse_unary-bracketed f e us rest h = rw h refl

parse_unary-negated :
    (f : ℕ) (e : Expr) (us rest : List Str)
    → parse_unary f us ≡ parsed e rest
    → parse_unary (suc f) (str "!" ∷ us) ≡ parsed (negated e) rest
unfolding parse_unary same
parse_unary-negated f e us rest h = rw h refl

-- The tokens of a printed expression are parsed to it.
parse_or-toks :
    (e : Expr) (f : ℕ) (rest : List Str)
    → IsPlain e
    → depth e ≤ f
    → Closed rest
    → parse_or (parse_unary f) (toks e ++ rest) ≡ parsed e rest
unfolding toks depth
parse_or-toks (name s) zero rest p d c = absurd (omega arith)
parse_or-toks (name s) (suc f) rest p d c =
    parse_or-single (parse_unary (suc f)) (name s) (s ∷ rest) rest c
      (parse_unary-operand f s rest p ∙ compared_with-Closed s rest c)
parse_or-toks (compared op l r) zero rest p d c = absurd (omega arith)
parse_or-toks (compared op l r) (suc f) rest p d c =
    parse_or-single (parse_unary (suc f)) (compared op l r) (l ∷ op ∷ r ∷ rest) rest c
      (parse_unary-operand f l (op ∷ r ∷ rest) p.0 ∙ rw p.1 refl)
parse_or-toks (negated e) zero rest p d c = absurd (omega arith)
parse_or-toks (negated e) (suc zero) rest p d c = absurd (omega arith)
parse_or-toks (negated e) (suc (suc f)) rest p d c = simp append_assoc (
    parse_or-single (parse_unary (suc (suc f))) (negated e) _ rest c (
      parse_unary-negated (suc f) e _ rest (
        parse_unary-bracketed f e (toks e) rest
          (parse_or-toks e f (str ")" ∷ rest) p (omega arith) refl))))
parse_or-toks (both e g) zero rest p d c = absurd (omega arith)
parse_or-toks (both e g) (suc f) rest p d c = simp append_assoc (
    parse_chain-single (str "||") either (parse_and (parse_unary (suc f))) (both e g) _ rest
      (parse_chain-two (str "&&") both (parse_unary (suc f)) e g _ (in_brackets (toks g) rest) rest
        (parse_unary-bracketed f e (toks e) (str "&&" ∷ in_brackets (toks g) rest) (
          parse_or-toks e f (str ")" ∷ str "&&" ∷ in_brackets (toks g) rest) p.0 (omega arith)
            refl))
        (parse_unary-bracketed f g (toks g) rest
          (parse_or-toks g f (str ")" ∷ rest) p.1 (omega arith) refl))
        (Closed-and rest c))
      (Closed-or rest c))
parse_or-toks (either e g) zero rest p d c = absurd (omega arith)
parse_or-toks (either e g) (suc f) rest p d c = simp append_assoc (
    parse_chain-two (str "||") either (parse_and (parse_unary (suc f))) e g _
      (in_brackets (toks g) rest) rest
      (parse_chain-single (str "&&") both (parse_unary (suc f)) e _
        (str "||" ∷ in_brackets (toks g) rest)
        (parse_unary-bracketed f e (toks e) (str "||" ∷ in_brackets (toks g) rest) (
          parse_or-toks e f (str ")" ∷ str "||" ∷ in_brackets (toks g) rest) p.0 (omega arith)
            refl))
        or_no_and)
      (parse_chain-single (str "&&") both (parse_unary (suc f)) g _ rest
        (parse_unary-bracketed f g (toks g) rest
          (parse_or-toks g f (str ")" ∷ rest) p.1 (omega arith) refl))
        (Closed-and rest c))
      (Closed-or rest c))

depth-le : (e : Expr) → depth e ≤ length (toks e)
unfolding depth toks
depth-le (name s) = omega arith
depth-le (compared op l r) = omega arith
depth-le (negated e) = omega (arith, depth-le e, length-append (toks e) (str ")" ∷ []))
depth-le (both e f) = omega (
  arith,
  depth-le e,
  depth-le f,
  length-append (toks e) (str ")" ∷ str "&&" ∷ in_brackets (toks f) []),
  length-append (toks f) (str ")" ∷ []),
)
depth-le (either e f) = omega (
  arith,
  depth-le e,
  depth-le f,
  length-append (toks e) (str ")" ∷ str "||" ∷ in_brackets (toks f) []),
  length-append (toks f) (str ")" ∷ []),
)

-- Every printed expression over names is read back as it was.
pub parse_kconfig_expr-emit_kconfig_expr :
    (e : Expr) → IsPlain e → parse_kconfig_expr (emit_kconfig_expr e) ≡ some e
unfolding parse_kconfig_expr parse_tokens
parse_kconfig_expr-emit_kconfig_expr e p =
    let all_read : parse_or (parse_unary (suc (length (toks e)))) (toks e) ≡ parsed e [] =
      simp append-nil at
        (parse_or-toks e (suc (length (toks e))) [] p (omega (arith, depth-le e)) tt) in
    rw (tokens-emit_kconfig_expr e p, parse_kconfig_expr, all_read) refl
