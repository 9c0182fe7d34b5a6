-- ===== src/Base/Glob.antt =====
-- `fnmatch.fnmatchcase`: `*`, `?`, `[seq]` and `[!seq]`.
use Prim.Native.Nat.{ℕ, zero, suc}
use mathlib.Core.Bool.{Bool, true, false, not, ◌&&◌, ◌||◌}
use mathlib.Core.List.{List, [], ◌∷◌, ◌++◌}
use mathlib.Core.Option.{Option, none, some}
use autokernel.Base.Tests.{◌==◌, leb, if◌then◌else◌}
use autokernel.Base.Lists.{length}
use autokernel.Base.Text.{Str}

pub data Token : Type 0 where
  star any_one : Token
  exactly : ℕ → Token
  class : Bool → List (ℕ × ℕ) → Token

-- The ranges of a class: `a-z`, or a single character.
ranges : Str → List (ℕ × ℕ)
ranges [] = []
ranges (a ∷ []) = (a, a) ∷ []
ranges (a ∷ b ∷ []) = (a, a) ∷ (b, b) ∷ []
ranges (a ∷ b ∷ c ∷ s) =
    let range = (a, c) ∷ ranges s in
    let single = (a, a) ∷ ranges (b ∷ c ∷ s) in if b == b'-' then range else single

-- The text of a class up to its `]`, and what stands behind it.
close_bracket : Str → Str → Option (Str × Str)
close_bracket acc [] = none
close_bracket acc (c ∷ s) =
    let more = close_bracket (acc ++ c ∷ []) s in if c == b']' then some (acc, s) else more

-- A `]` that comes first belongs to the class.
class_body : Str → Option (Str × Str)
unfolding close_bracket
class_body [] = none
class_body (c ∷ s) = if c == b']' then close_bracket (c ∷ []) s else close_bracket [] (c ∷ s)

-- Behind a `[`: the class and the rest, or `none` where no `]` closes it.
class_token : Str → Option (Token × Str)
unfolding ranges class_body
class_token [] = none
class_token (c ∷ s) =
    if c == b'!'
    then elim (class_body s) [
      | none ↦ none
      | some (body, rest) ↦ some (class true (ranges body), rest)
    ]
    else elim (class_body (c ∷ s)) [
      | none ↦ none
      | some (body, rest) ↦ some (class false (ranges body), rest)
    ]

-- Fuel: the pattern's length; each token takes at least one character.
tokens : ℕ → Str → List Token
unfolding class_token
tokens zero s = []
tokens (suc fuel) [] = []
tokens (suc fuel) (c ∷ s) =
    let plain = tokens fuel s in
    if c == b'*'
    then star ∷ plain
    else if c == b'?'
    then any_one ∷ plain
    else if c == b'['
    then elim (class_token s) [
      | none ↦ exactly c ∷ tokens fuel s
      | some (t, rest) ↦ t ∷ tokens fuel rest
    ]
    else exactly c ∷ plain

in_ranges : ℕ → List (ℕ × ℕ) → Bool
in_ranges c [] = false
in_ranges c ((lo, hi) ∷ rs) = leb lo c && leb c hi || in_ranges c rs

-- Whether one token that is not `*` takes a character.
takes : Token → ℕ → Bool
unfolding in_ranges
takes star c = false
takes any_one c = true
takes (exactly d) c = d == c
takes (class negated rs) c = if negated then not (in_ranges c rs) else in_ranges c rs

match_tokens : List Token → Str → Bool
unfolding takes
match_tokens [] [] = true
match_tokens [] (c ∷ s) = false
match_tokens (star ∷ ts) [] = match_tokens ts []
match_tokens (star ∷ ts) (c ∷ s) = match_tokens ts (c ∷ s) || match_tokens (star ∷ ts) s
match_tokens (t ∷ ts) [] = false
match_tokens (t ∷ ts) (c ∷ s) = takes t c && match_tokens ts s

-- Does the whole text match the pattern?
unfoldable pub fnmatchcase : Str → Str → Bool
unfolding match_tokens tokens
fnmatchcase text pattern = match_tokens (tokens (length pattern) pattern) text
