-- ===== src/KconfigWalk/Meaning.antt =====
-- What an expression means to Kconfig, and that the rewritten line means what it should.
use autokernel.Base.{
  ℕ, ◌-◌, ◌≤◌, Bool, true, false, not, Str, str, ◌≡◌, ◌⊎◌, ltb, ◌==◌, if◌then◌else◌,
}
use autokernel.KconfigWalk.Expr.{Expr, name, compared, negated, both, either}

-- What Kconfig knows of the symbols: n, m and y are 0, 1 and 2. A symbol equals the constant n
-- exactly when its value is n.
pub record Symbols : Type 0 where
  pub tristate : Str → ℕ
  pub holds : Str → Str → Str → Bool
  pub tristate-le : (s : Str) → tristate s ≤ 2
  pub equal_n : (s : Str) → holds (str "=") s (str "n") ≡ (tristate s == 0)
  pub unequal_n : (s : Str) → holds (str "!=") s (str "n") ≡ not (tristate s == 0)

abbrev pub if_y : Bool → ℕ
if_y b = if b then 2 else 0

module _ (k : Symbols) where
  unfoldable pub value : Expr → ℕ
  value (name s) = k.tristate s
  value (compared op l r) = if_y (k.holds op l r)
  value (negated e) = 2 - value e
  value (both e f) = let v = value e in let w = value f in if ltb v w then v else w
  value (either e f) = let v = value e in let w = value f in if ltb v w then w else v

  -- No negation is of an expression with the value m.
  abbrev pub IsDecided : Expr → Type 0
  IsDecided (name s) = Unit
  IsDecided (compared op l r) = Unit
  IsDecided (negated e) = ((value e ≡ 0) ⊎ (value e ≡ 2)) × IsDecided e
  IsDecided (both e f) = IsDecided e × IsDecided f
  IsDecided (either e f) = IsDecided e × IsDecided f

abbrev negate_if : Bool → Expr → Expr
negate_if b e = if b then negated e else e

-- The expression that `trans_compare_n` prints.
trans : Expr → Bool → Expr
trans (name s) equal = compared (if equal then str "=" else str "!=") s (str "n")
trans (negated e) equal = trans e (not equal)
trans (compared op l r) equal = negate_if equal (compared op l r)
trans (both e f) equal = negate_if (not equal) (either (trans e true) (trans f true))
trans (either e f) equal = negate_if (not equal) (both (trans e true) (trans f true))

abbrev pub flip_if : Bool → Bool → Bool
flip_if true b = b
flip_if false b = not b
