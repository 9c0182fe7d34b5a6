-- ===== src/Base/Space.antt =====
-- `str.strip` and its kin, and `str.splitlines`.
use autokernel.Base.{
  ℕ, Bool, true, false, ◌&&◌, ◌||◌, List, [], ◌∷◌, ◌++◌, ◌≡◌, refl, ap, sym, ◌∙◌, leb, ◌==◌,
  if◌then◌else◌, arith, All, Str, append_assoc, append-nil,
}

-- `c.isspace()`, which is also `\s` of a regular expression on texts.
unfoldable pub is_space : ℕ → Bool
is_space c =
    (leb 9 c && leb c 13)
    || (leb 28 c && leb c 32)
    || c == 133
    || c == 160
    || c == 5760
    || (leb 8192 c && leb c 8202)
    || c == 8232
    || c == 8233
    || c == 8239
    || c == 8287
    || c == 12288

-- The characters at which `splitlines` splits.
unfoldable pub is_break : ℕ → Bool
is_break c = (leb 10 c && leb c 13) || (leb 28 c && leb c 30) || c == 133 || c == 8232 || c == 8233

-- Spaces, or any class of characters, taken off the left end.
unfoldable pub drop_left : (ℕ → Bool) → Str → Str
drop_left p [] = []
drop_left p (c ∷ s) = if p c then drop_left p s else c ∷ s

abbrev pub is_nil {ℓ} : {A : Type ℓ} → List A → Bool
is_nil [] = true
is_nil (x ∷ xs) = false

-- The same at the right end.
unfoldable pub drop_right : (ℕ → Bool) → Str → Str
drop_right p [] = []
drop_right p (c ∷ s) = let rest = drop_right p s in if p c && is_nil rest then [] else c ∷ rest

abbrev pub lstrip : Str → Str
lstrip = drop_left is_space

abbrev pub rstrip : Str → Str
rstrip = drop_right is_space

abbrev pub strip : Str → Str
strip s = lstrip (rstrip s)

abbrev pub is_quote : ℕ → Bool
is_quote c = c == b'"'

-- `s.strip('"')`
abbrev pub strip_quotes : Str → Str
strip_quotes s = drop_left is_quote (drop_right is_quote s)

-- `s.splitlines()`: `word` is the line being read, and `after_cr` says that a carriage return stood
-- before, whose line feed belongs to it.
unfoldable pub lines_from : Bool → Str → Str → List Str
unfolding is_break
lines_from after_cr [] [] = []
lines_from after_cr (w ∷ word) [] = (w ∷ word) ∷ []
lines_from after_cr word (c ∷ s) =
    let skipped = lines_from false word s in
    let split = word ∷ lines_from (c == 13) [] s in
    let on = lines_from false (word ++ c ∷ []) s in
    if after_cr && c == 10 then skipped else if is_break c then split else on

abbrev pub splitlines : Str → List Str
splitlines = lines_from false []

-- No character of the text splits a line.
abbrev pub OneLine : Str → Type 0
OneLine = All (λ c. is_break c ≡ false)

module _ (p : ℕ → Bool) where
  pub drop_right-keep : (c : ℕ) (s : Str) → p c ≡ false → drop_right p (c ∷ s) ≡ c ∷ drop_right p s
  unfolding drop_right
  drop_right-keep c s h = ground arith

  pub drop_right-twice : (s : Str) → drop_right p (drop_right p s) ≡ drop_right p s
  unfolding drop_right
  drop_right-twice [] = refl
  drop_right-twice (c ∷ s) = ground (arith, drop_right-twice s)

  pub drop_left-twice : (s : Str) → drop_left p (drop_left p s) ≡ drop_left p s
  unfolding drop_left
  drop_left-twice [] = refl
  drop_left-twice (c ∷ s) = ground (arith, drop_left-twice s)

  is_nil-snoc : (s : Str) (c : ℕ) → is_nil (s ++ c ∷ []) ≡ false
  is_nil-snoc [] c = refl
  is_nil-snoc (x ∷ s) c = refl

  -- What ends in a character that stays is not shortened on the right.
  pub drop_right-last : (s : Str) (c : ℕ) → p c ≡ false → drop_right p (s ++ c ∷ []) ≡ s ++ c ∷ []
  unfolding drop_right
  drop_right-last [] c h = ground arith
  drop_right-last (x ∷ s) c h = rw (drop_right-last s c h, is_nil-snoc s c) (ground arith)

  pub drop_right-drop : (s : Str) (c : ℕ) → p c ≡ true → drop_right p (s ++ c ∷ []) ≡ drop_right p s
  unfolding drop_right
  drop_right-drop [] c h = ground arith
  drop_right-drop (x ∷ s) c h = ground (arith, drop_right-drop s c h)

  drop_right-nil_left : (s : Str) → drop_right p s ≡ [] → drop_left p s ≡ []
  unfolding drop_right drop_left
  drop_right-nil_left [] h = refl
  drop_right-nil_left (c ∷ s) h = ground (arith, drop_right-nil_left s)

  pub drop_left-right : (s : Str) → drop_left p (drop_right p s) ≡ drop_right p (drop_left p s)
  unfolding drop_right drop_left
  drop_left-right [] = refl
  drop_left-right (c ∷ s) = ground (arith, drop_left-right s, drop_right-nil_left s)

-- A stripped text is stripped already.
pub strip-right : (s : Str) → rstrip (strip s) ≡ strip s
strip-right s = sym (drop_left-right is_space (rstrip s)) ∙ ap lstrip (drop_right-twice is_space s)

pub strip-twice : (s : Str) → strip (strip s) ≡ strip s
strip-twice s = rw (strip-right s) (drop_left-twice is_space (rstrip s))

-- A line is read off whole at the line feed behind it.
pub lines_from-line :
    (word line rest : Str)
    → OneLine line
    → lines_from false word (line ++ 10 ∷ rest) ≡ (word ++ line) ∷ lines_from false [] rest
unfolding lines_from is_break
lines_from-line word [] rest h = rw append-nil refl
lines_from-line word (c ∷ line) rest h =
    ground (arith, lines_from-line (word ++ c ∷ []) line rest h.1, append_assoc word (c ∷ []) line)
