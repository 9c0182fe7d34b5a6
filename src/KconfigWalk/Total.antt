-- ===== src/KconfigWalk/Total.antt =====
-- The fuel of the parser is enough for every text.
use autokernel.Base.{
  ℕ, zero, suc, ◌<◌, ◌≤◌, true, List, [], ◌∷◌, Str, str, ◌≡◌, ◌≢◌, arith, length, same, member,
  Bool-cases, inl, inr,
}
use autokernel.KconfigWalk.Expr.{
  Expr, both, either, comparisons, Parsed, parsed, bad, spent, at, rest_of, chain, parse_chain,
  parse_and, parse_or, parse_unary, parse_tokens, is_reserved, compared_with, closing, ◌>>=◌,
}

-- Not spent, and with fewer than so many tokens left.
abbrev Leaves : ℕ → Parsed → Type 0
Leaves n (parsed e ts) = length ts < n
Leaves n bad = Unit
Leaves n spent = ⊥

-- A parser that takes a token at least from every list shorter than the bound.
abbrev Takes : ℕ → (List Str → Parsed) → Type 0
Takes n item = (ts : List Str) → length ts < n → Leaves (length ts) (item ts)

Leaves-more : (m n : ℕ) (p : Parsed) → Leaves m p → m ≤ n → Leaves n p
Leaves-more m n (parsed e ts) h l = omega arith
Leaves-more m n bad h l = tt
Leaves-more m n spent h l = absurd h

Leaves-bind :
    (m n : ℕ) (p : Parsed) (f : Expr → List Str → Parsed)
    → Leaves m p
    → ((e : Expr) (us : List Str) → length us < m → Leaves n (f e us))
    → Leaves n (p >>= f)
Leaves-bind m n (parsed e us) f h g = g e us h
Leaves-bind m n bad f h g = tt
Leaves-bind m n spent f h g = absurd h

at-rest : (op : Str) (ts : List Str) → at op ts ≡ true → length (rest_of ts) < length ts
at-rest op [] h = cc
at-rest op (t ∷ ts) h = omega arith

module _ (op : Str) (mk : Expr → Expr → Expr) (item : List Str → Parsed) (n : ℕ)
    (takes : Takes n item) where
  chain-Leaves :
      (k : ℕ) (e : Expr) (ts : List Str)
      → length ts ≤ k
      → length ts < n
      → Leaves (suc (length ts)) (chain op mk item k e ts)
  unfolding chain
  chain-Leaves zero e [] l h = omega arith
  chain-Leaves zero e (t ∷ ts) l h = absurd (omega arith)
  chain-Leaves (suc k) e ts l h = elim (Bool-cases (at op ts)) [
    | inl p ↦
        rw (p, chain)
          (let r = at-rest op ts p in
            Leaves-bind (length (rest_of ts)) (suc (length ts)) (item (rest_of ts)) _
              (takes (rest_of ts) (omega arith))
              (λ f us m.
                Leaves-more (suc (length us)) (suc (length ts)) _
                  (chain-Leaves k (mk e f) us (omega arith) (omega arith)) (omega arith)))
    | inr q ↦ rw (q, chain) (omega arith)
  ]

  parse_chain-Takes : Takes n (parse_chain op mk item)
  unfolding parse_chain
  parse_chain-Takes ts h = Leaves-bind (length ts) (length ts) (item ts) _ (takes ts h) (λ e us m.
      Leaves-more (suc (length us)) (length ts) _
        (chain-Leaves (length us) e us (omega arith) (omega arith)) (omega arith))

closing-Leaves : (n : ℕ) (e : Expr) (ts : List Str) → length ts ≤ n → Leaves n (closing e ts)
closing-Leaves n e [] l = tt
closing-Leaves n e (t ∷ ts) l = elim (Bool-cases (same t (str ")"))) [
  | inl p ↦ rw p (omega arith)
  | inr q ↦ rw q tt
]

compared_with-Leaves : (tok : Str) (ts : List Str) → Leaves (suc (length ts)) (compared_with tok ts)
compared_with-Leaves tok [] = omega arith
compared_with-Leaves tok (op ∷ []) = elim (Bool-cases (member op comparisons)) [
  | inl p ↦ rw p tt
  | inr q ↦ rw q (omega arith)
]
compared_with-Leaves tok (op ∷ t ∷ ts) = elim (Bool-cases (member op comparisons)) [
  | inl p ↦ rw p (omega arith)
  | inr q ↦ rw q (omega arith)
]

parse_unary-Takes : (f : ℕ) → Takes f (parse_unary f)
unfolding parse_unary
parse_unary-Takes zero ts l = absurd (omega arith)
parse_unary-Takes (suc f) [] l = tt
parse_unary-Takes (suc f) (tok ∷ ts) l = elim (Bool-cases (same tok (str "!"))) [
  | inl p ↦
      rw (p, parse_unary)
        (Leaves-bind (length ts) (suc (length ts)) (parse_unary f ts) _
          (parse_unary-Takes f ts (omega arith)) (λ e us m. omega arith))
  | inr q ↦ elim (Bool-cases (same tok (str "("))) [
    | inl p ↦
        rw (q, p, parse_unary)
          (Leaves-bind (length ts) (suc (length ts)) (parse_or (parse_unary f) ts) closing
            (parse_chain-Takes (str "||") either (parse_and (parse_unary f)) f
              (parse_chain-Takes (str "&&") both (parse_unary f) f (parse_unary-Takes f)) ts
              (omega arith))
            (λ e us m. closing-Leaves (suc (length ts)) e us (omega arith)))
    | inr r ↦ elim (Bool-cases (is_reserved tok)) [
      | inl p ↦ rw (q, r, p, parse_unary) tt
      | inr s ↦ rw (q, r, s, parse_unary) (compared_with-Leaves tok ts)
    ]
  ]
]

Leaves-ne : (n : ℕ) (p : Parsed) → Leaves n p → p ≢ spent
Leaves-ne n (parsed e ts) h q = cc
Leaves-ne n bad h q = cc
Leaves-ne n spent h q = absurd h

-- No list of tokens spends the fuel.
pub parse_tokens-ne-spent : (ts : List Str) → parse_tokens ts ≢ spent
unfolding parse_tokens
parse_tokens-ne-spent ts =
    let n = suc (length ts) in
    Leaves-ne (length ts) _ (
      parse_chain-Takes (str "||") either (parse_and (parse_unary n)) n
        (parse_chain-Takes (str "&&") both (parse_unary n) n (parse_unary-Takes n)) ts
        (omega arith))
