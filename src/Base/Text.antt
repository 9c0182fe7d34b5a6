-- ===== src/Base/Text.antt =====
-- Texts: a Python `str` is the list of its code points. `upper` is that of ASCII.
use Prim.Native.Nat.{ℕ, ◌-◌}
use Prim.Native.Char.{code}
use Prim.Native.String.{String}
use mathlib.Core.Path.{◌≡◌, refl}
use mathlib.Core.Logic.{◌↔◌}
use mathlib.Core.Bool.{Bool, true, false, not, ◌&&◌, ◌||◌}
use mathlib.Core.List.{List, [], ◌∷◌, ◌++◌, map, reverse}
use mathlib.Core.Option.{Option, none, some}
use native.Mathlib.Omega.{arith}
use autokernel.Base.Tests.{◌==◌, leb, if◌then◌else◌}

-- A Python `str`: its code points.
abbrev pub Str : Type 0
Str = List ℕ

abbrev pub str : String → Str
str String.[] = []
str (String.◌∷◌ c s) = code c ∷ str s

-- Equality of two walked texts.
unfoldable pub same : Str → Str → Bool
same [] [] = true
same (x ∷ xs) (y ∷ ys) = x == y && same xs ys
same _ _ = false

pub same_refl : (s : Str) → same s s ≡ true
unfolding same
same_refl [] = refl
same_refl (x ∷ xs) = ground (arith, same_refl xs)

pub eq_of_same : (s t : Str) → same s t ≡ true → s ≡ t
unfolding same
eq_of_same [] [] h = refl
eq_of_same [] (y ∷ ys) h = cc
eq_of_same (x ∷ xs) [] h = cc
eq_of_same (x ∷ xs) (y ∷ ys) h = ground (arith, eq_of_same xs ys)

pub same_iff : (s t : Str) → (same s t ≡ true) ↔ (s ≡ t)
same_iff s t = (eq_of_same s t, λ e. rw e (same_refl t))

-- `x in xs` for a list or a set of texts.
abbrev pub member : Str → List Str → Bool
member x [] = false
member x (y ∷ ys) = same x y || member x ys

-- `d.get(k)` on a dictionary as an association list.
abbrev pub lookup {ℓ} : {V : Type ℓ} → Str → List (Str × V) → Option V
lookup k [] = none
lookup k ((j, v) ∷ m) = if same k j then some v else lookup k m

-- What is left of a text behind a prefix, if the prefix is there.
unfoldable pub strip_prefix : Str → Str → Option Str
strip_prefix [] s = some s
strip_prefix (p ∷ ps) [] = none
strip_prefix (p ∷ ps) (c ∷ s) = if p == c then strip_prefix ps s else none

-- `s.startswith(p)`
unfoldable pub starts_with : Str → Str → Bool
unfolding strip_prefix
starts_with s p = elim (strip_prefix p s) [ none ↦ false | some _ ↦ true ]

-- `s.endswith(p)`
unfoldable pub ends_with : Str → Str → Bool
unfolding starts_with
ends_with s p = starts_with (reverse s) (reverse p)

pub strip_prefix-append : (p s : Str) → strip_prefix p (p ++ s) ≡ some s
unfolding strip_prefix
strip_prefix-append [] s = refl
strip_prefix-append (c ∷ p) s = ground (arith, strip_prefix-append p s)

pub strip_prefix-eq-some : (p s r : Str) → strip_prefix p s ≡ some r → s ≡ p ++ r
unfolding strip_prefix
strip_prefix-eq-some [] s r h = ground arith
strip_prefix-eq-some (p ∷ ps) [] r h = cc
strip_prefix-eq-some (p ∷ ps) (c ∷ s) r h = ground (arith, strip_prefix-eq-some ps s r)

pub starts_with-append : (p s : Str) → starts_with (p ++ s) p ≡ true
unfolding starts_with
starts_with-append p s = ground (arith, strip_prefix-append p s)

-- `sep.join(parts)`
unfoldable pub join : Str → List Str → Str
join sep [] = []
join sep (x ∷ []) = x
join sep (x ∷ y ∷ ys) = x ++ (sep ++ join sep (y ∷ ys))

-- ASCII `str.upper`.
abbrev pub upper_code : ℕ → ℕ
upper_code c = if leb b'a' c && leb c b'z' then c - 32 else c

unfoldable pub upper : Str → Str
upper = map upper_code

-- `s.replace(a, b)` for single characters
unfoldable pub replace_code : ℕ → ℕ → Str → Str
replace_code a b [] = []
replace_code a b (c ∷ s) = (if c == a then b else c) ∷ replace_code a b s

-- `list(dict.fromkeys(xs))`: the first of each, in order; `seen` holds what stands before.
unfoldable pub dedupe_from : List Str → List Str → List Str
dedupe_from seen [] = []
dedupe_from seen (x ∷ xs) =
    let rest = dedupe_from seen xs in
    let more = x ∷ dedupe_from (x ∷ seen) xs in if member x seen then rest else more

abbrev pub dedupe : List Str → List Str
dedupe = dedupe_from []

pub member-dedupe_from :
    (x : Str) (seen xs : List Str)
    → member x (dedupe_from seen xs) ≡ (member x xs && not (member x seen))
unfolding dedupe_from
member-dedupe_from x seen [] = refl
member-dedupe_from x seen (y ∷ xs) =
    ground (arith, same_iff x y, member-dedupe_from x seen xs, member-dedupe_from x (y ∷ seen) xs)

pub member-append :
    (x : Str) (xs ys : List Str) → member x (xs ++ ys) ≡ (member x xs || member x ys)
member-append x [] ys = refl
member-append x (y ∷ xs) ys = ground (arith, member-append x xs ys)
