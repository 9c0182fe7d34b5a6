-- ===== src/KconfigWalk/Reading.antt =====
-- What the tokens of a text are, one token after the other.
use autokernel.Base.{
  length-append, strip_prefix-eq-some, ap, Option-cases, ◌==◌, ℕ, zero, suc, ◌<◌, ◌≤◌, Bool, true,
  false, List, [], ◌∷◌, ◌++◌, Option, none, some, Str, str, ◌≡◌, refl, arith, length, same, member,
  strip_prefix, All, inl, inr, Bool-cases, eq_of_same,
}
use autokernel.Base.Space.{is_space, drop_left}
use autokernel.KconfigWalk.Lexer.{
  token_round, operand, prepend, next_token, tokens_from, tokens, first_operator, operators,
  quoted_rest, name_rest, is_name_char, some_name, Split,
}
use autokernel.KconfigWalk.Expr.{comparisons}

-- Some fuel is enough to split the text into these tokens.
abbrev pub Reads : Str → List Str → Type 0
Reads s ts = (fuel : ℕ) × (tokens_from fuel s ≡ some ts)

pub Reads-nil : Reads [] []
unfolding tokens_from drop_left
Reads-nil = (1, refl)

pub Reads-space : (s : Str) (ts : List Str) → Reads s ts → Reads (b' ' ∷ s) ts
unfolding tokens_from drop_left is_space
Reads-space s ts (zero, e) = cc
Reads-space s ts (suc fuel, e) = (suc fuel, e)

drop_left-plain : (c : ℕ) (s : Str) → is_space c ≡ false → drop_left is_space (c ∷ s) ≡ c ∷ s
unfolding drop_left
drop_left-plain c s h = rw h refl

pub Reads-token :
    (c : ℕ) (s token rest : Str) (ts : List Str)
    → is_space c ≡ false
    → next_token (c ∷ s) ≡ some (token, rest)
    → Reads rest ts
    → Reads (c ∷ s) (token ∷ ts)
unfolding tokens_from
Reads-token c s token rest ts plain e (fuel, h) =
    (suc fuel, rw (drop_left-plain c s plain, tokens_from, e, h) refl)

pub Reads-open : (s : Str) (ts : List Str) → Reads s ts → Reads (b'(' ∷ s) (str "(" ∷ ts)
unfolding next_token first_operator strip_prefix is_space
Reads-open s ts = Reads-token b'(' s (str "(") s ts refl refl

pub Reads-close : (s : Str) (ts : List Str) → Reads s ts → Reads (b')' ∷ s) (str ")" ∷ ts)
unfolding next_token first_operator strip_prefix is_space
Reads-close s ts = Reads-token b')' s (str ")") s ts refl refl

pub Reads-not :
    (s : Str) (ts : List Str) → Reads (b'(' ∷ s) ts → Reads (b'!' ∷ b'(' ∷ s) (str "!" ∷ ts)
unfolding next_token first_operator strip_prefix is_space
Reads-not s ts = Reads-token b'!' (b'(' ∷ s) (str "!") (b'(' ∷ s) ts refl refl

pub Reads-and : (s : Str) (ts : List Str) → Reads s ts → Reads (str "&&" ++ s) (str "&&" ∷ ts)
unfolding next_token first_operator strip_prefix is_space
Reads-and s ts = Reads-token b'&' _ (str "&&") s ts refl refl

pub Reads-or : (s : Str) (ts : List Str) → Reads s ts → Reads (str "||" ++ s) (str "||" ∷ ts)
unfolding next_token first_operator strip_prefix is_space
Reads-or s ts = Reads-token b'|' _ (str "||") s ts refl refl

-- A name, which is not empty.
abbrev pub IsName : Str → Type 0
IsName [] = ⊥
IsName (c ∷ s) = All (λ d. is_name_char d ≡ true) (c ∷ s)

-- No character of a name goes on behind it.
abbrev pub Ends : Str → Type 0
Ends [] = Unit
Ends (c ∷ s) = is_name_char c ≡ false

pub name_rest-name :
    (s rest : Str)
    → All (λ c. is_name_char c ≡ true) s
    → Ends rest
    → name_rest (s ++ rest) ≡ (s, rest)
unfolding name_rest
name_rest-name [] [] h e = refl
name_rest-name [] (c ∷ rest) h e = rw e refl
name_rest-name (c ∷ s) rest h e = rw (name_rest-name s rest h.1 e, h.0) refl

name_char-plain : (c : ℕ) → is_name_char c ≡ true → is_space c ≡ false
unfolding is_name_char is_space
name_char-plain c h = ground arith

name_char-no_quote : (c : ℕ) → is_name_char c ≡ true → (c == b'"') ≡ false
unfolding is_name_char
name_char-no_quote c h = ground arith

name_char-no_operator :
    (c : ℕ) (s : Str) → is_name_char c ≡ true → first_operator operators (c ∷ s) ≡ none
unfolding is_name_char first_operator strip_prefix
name_char-no_operator c s h = ground arith

pub next_token-name :
    (c : ℕ) (s rest : Str)
    → IsName (c ∷ s)
    → Ends rest
    → next_token (c ∷ (s ++ rest)) ≡ some (c ∷ s, rest)
unfolding next_token
next_token-name c s rest h e =
    rw
      (
        name_char-no_operator c (s ++ rest) h.0,
        name_char-no_quote c h.0,
        name_rest-name (c ∷ s) rest h e,
      )
      refl

pub Reads-name :
    (s rest : Str) (ts : List Str)
    → IsName s
    → Ends rest
    → Reads rest ts
    → Reads (s ++ rest) (s ∷ ts)
Reads-name [] rest ts h e r = absurd h
Reads-name (c ∷ s) rest ts h e r =
    Reads-token c (s ++ rest) (c ∷ s) rest ts (name_char-plain c h.0) (next_token-name c s rest h e)
      r

pub All-member : (P : Str → Type 0) (x : Str) (ys : List Str) → All P ys → member x ys ≡ true → P x
All-member P x [] h m = cc
All-member P x (y ∷ ys) h m = elim (Bool-cases (same x y)) [
  | inl e ↦ rw (eq_of_same x y e) h.0
  | inr n ↦ All-member P x ys h.1 (rw n at m)
]

-- A comparison with a space behind it is one token.
pub Reads-comparison :
    (op s : Str) (ts : List Str)
    → member op comparisons ≡ true
    → Reads (b' ' ∷ s) ts
    → Reads (op ++ b' ' ∷ s) (op ∷ ts)
unfolding next_token first_operator strip_prefix is_space
Reads-comparison op s ts h r =
    All-member (λ o. Reads (o ++ b' ' ∷ s) (o ∷ ts)) op comparisons
      (
        Reads-token b'=' _ (str "=") _ ts refl refl r,
        (
          Reads-token b'!' _ (str "!=") _ ts refl refl r,
          (
            Reads-token b'<' _ (str "<") _ ts refl refl r,
            (
              Reads-token b'<' _ (str "<=") _ ts refl refl r,
              (
                Reads-token b'>' _ (str ">") _ ts refl refl r,
                (Reads-token b'>' _ (str ">=") _ ts refl refl r, tt),
              ),
            ),
          ),
        ),
      )
      h

-- Tokens take up characters.
prepend-shorter :
    (c : ℕ) (m : Split) (n : ℕ) (t r : Str)
    → ((u v : Str) → m ≡ some (u, v) → length v ≤ n)
    → prepend c m ≡ some (t, r)
    → length r ≤ n
prepend-shorter c none n t r h e = cc
prepend-shorter c (some (u, v)) n t r h e = ground (arith, h u v)

quoted_rest-shorter : (b : Bool) (s t r : Str) → quoted_rest b s ≡ some (t, r) → length r ≤ length s
unfolding quoted_rest
quoted_rest-shorter b [] t r e = cc
quoted_rest-shorter true (c ∷ s) t r e = elim (Bool-cases (c == 10)) [
  | inl p ↦ cc (rw p at e)
  | inr p ↦ omega (
    arith,
    prepend-shorter c (quoted_rest false s) (length s) t r (quoted_rest-shorter false s)
        (rw p at e),
  )
]
quoted_rest-shorter false (c ∷ s) t r e = elim (Bool-cases (c == b'"')) [
  | inl p ↦ ground (arith)
  | inr p ↦ omega (
    arith,
    prepend-shorter c (quoted_rest (c == b'\\') s) (length s) t r
        (quoted_rest-shorter (c == b'\\') s) (rw p at e),
  )
]

name_rest-shorter : (s : Str) → length (name_rest s).1 ≤ length s
unfolding name_rest
name_rest-shorter [] = omega arith
name_rest-shorter (c ∷ s) = ground (arith, name_rest-shorter s)

first_operator-shorter :
    (os : List Str) (c : ℕ) (s t r : Str)
    → All (λ o. 0 < length o) os
    → first_operator os (c ∷ s) ≡ some (t, r)
    → length r ≤ length s
unfolding first_operator
first_operator-shorter [] c s t r h e = cc
first_operator-shorter (o ∷ os) c s t r h e = elim (Option-cases (strip_prefix o (c ∷ s))) [
  | inl p ↦ first_operator-shorter os c s t r h.1 (rw (p, first_operator) at e)
  | inr (v, p) ↦
      let q : v ≡ r = cc (rw (p, first_operator) at e) in
      let l = ap length (strip_prefix-eq-some o (c ∷ s) v p) in
      rw (← q) (omega (arith, l, length-append o v, h.0))
]

some_name-shorter : (p : Str × Str) (t r : Str) → some_name p ≡ some (t, r) → (p.0 ≡ t) × (p.1 ≡ r)
some_name-shorter ([], q) t r e = cc
some_name-shorter (c ∷ u, q) t r e = (cc, cc)

name-shorter :
    (c : ℕ) (s t r : Str) → some_name (name_rest (c ∷ s)) ≡ some (t, r) → length r ≤ length s
unfolding name_rest
name-shorter c s t r e = elim (Bool-cases (is_name_char c)) [
  | inl p ↦ ground (arith, name_rest-shorter s, some_name-shorter (name_rest (c ∷ s)) t r e)
  | inr p ↦ cc (rw p at e)
]

operand-shorter : (c : ℕ) (s t r : Str) → operand (c ∷ s) ≡ some (t, r) → length r ≤ length s
operand-shorter c s t r e = elim (Bool-cases (c == b'"')) [
  | inl p ↦
      prepend-shorter c (quoted_rest false s) (length s) t r (quoted_rest-shorter false s)
        (rw p at e)
  | inr p ↦ name-shorter c s t r (rw p at e)
]

operators_IsLong : All (λ o. 0 < length o) operators
operators_IsLong = omega arith

-- A text is not longer behind its first token, and shorter where the token is taken.
pub next_token-shorter :
    (c : ℕ) (s t r : Str) → next_token (c ∷ s) ≡ some (t, r) → length r ≤ length s
unfolding next_token
next_token-shorter c s t r e = elim (Option-cases (first_operator operators (c ∷ s))) [
  | inl p ↦ operand-shorter c s t r (rw p at e)
  | inr ((u, v), p) ↦
      let q : v ≡ r = cc (rw p at e) in
      rw (← q) (first_operator-shorter operators c s u v operators_IsLong p)
]

drop_left-shorter : (p : ℕ → Bool) (s : Str) → length (drop_left p s) ≤ length s
unfolding drop_left
drop_left-shorter p [] = omega arith
drop_left-shorter p (c ∷ s) = ground (arith, drop_left-shorter p s)

-- Where the rest of a text has its tokens by two ways, so has the text.
module _ (more other : Str → Option (List Str)) (n : ℕ)
    (agree : (r : Str) (us : List Str) → length r < n → other r ≡ some us → more r ≡ some us) where
  token_round-agree :
      (s : Str) (ts : List Str)
      → length s ≤ n
      → token_round other s ≡ some ts
      → token_round more s ≡ some ts
  token_round-agree [] ts l e = e
  token_round-agree (c ∷ s) ts l e = elim (Option-cases (next_token (c ∷ s))) [
    | inl p ↦ cc (rw p at e)
    | inr ((t, r), p) ↦
        let short = next_token-shorter c s t r p in
        elim (Option-cases (other r)) [
          | inl q ↦ cc (rw (p, q) at e)
          | inr (us, q) ↦ rw (p, agree r us (omega arith) q) (rw (p, q) at e)
        ]
  ]

-- Fuel above the length is enough.
tokens_from-enough :
    (f g : ℕ) (s : Str) (ts : List Str)
    → tokens_from g s ≡ some ts
    → length s < f
    → tokens_from f s ≡ some ts
unfolding tokens_from
tokens_from-enough zero g s ts h l = absurd (omega arith)
tokens_from-enough (suc f) zero s ts h l = cc
tokens_from-enough (suc f) (suc g) s ts h l =
    let short = drop_left-shorter is_space s in
    token_round-agree (tokens_from f) (tokens_from g) f
      (λ r us k e. tokens_from-enough f g r us e k) (drop_left is_space s) ts (omega arith) h

pub tokens-Reads : (s : Str) (ts : List Str) → Reads s ts → tokens s ≡ some ts
unfolding tokens
tokens-Reads s ts (g, h) = tokens_from-enough (suc (length s)) g s ts h (omega arith)
