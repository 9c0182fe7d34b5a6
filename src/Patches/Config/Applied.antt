-- ===== src/Patches/Config/Applied.antt =====
-- What `apply_config` of src/autokernel/patches.py writes, read by `config_mismatches`.
pub mod Lines
use autokernel.Base.{
  Bool, true, false, not, ◌&&◌, ◌||◌, List, [], ◌∷◌, ◌++◌, map, Option, none, some, Str, str, ◌≡◌,
  refl, ap, sym, ◌∙◌, inl, inr, All, All-keep, All-append, keep, any, same, same_iff, same_refl,
  eq_of_same, member, lookup, join, if◌then◌else◌, is_some, Bool-cases, Option-cases, arith,
  append_assoc, starts_with,
}
use autokernel.Base.Space.{OneLine, is_break, splitlines, lines_from, lines_from-line}
use autokernel.Kfrag.Lines.{IsSymbol}
use autokernel.Kfrag.Writer.{unset_line, set_line}
use autokernel.Kfrag.OneLines.{unset_line-OneLine, set_line-OneLine, if-OneLine}
use autokernel.Merge.Lines.{later, later-none}
use autokernel.Merge.Lookup.{member-keys}
use autokernel.Merge.{keys}
use autokernel.Merge.Text.{lines_from-OneLine, no_more}
use autokernel.Patches.Config.{
  sets_override, override_line, overridden_lines, apply_config, read_have, get_or_n,
  config_mismatches,
}
use autokernel.Patches.Config.Applied.Lines.{
  line_value, value_in, lookup-read_have, value_in-append, sets, line_value-set_line,
  line_value-unset_line, line_value-unsaid, line_value-other, line_value-empty,
}

-- A dictionary of symbols and values of one line.
abbrev pub IsOverrides : List (Str × Str) → Type 0
IsOverrides [] = Unit
IsOverrides ((s, v) ∷ overrides) =
    IsSymbol s × OneLine v × (lookup s overrides ≡ none) × IsOverrides overrides

line_value-override_line :
    (x s v : Str)
    → IsSymbol s
    → line_value x (override_line (s, v)) ≡ (if same x s then some v else none)
unfolding override_line
line_value-override_line x s v i = elim (Bool-cases (same v (str "n"))) [
  | inl off ↦ rw off (line_value-unset_line x s i ∙ rw (eq_of_same v (str "n") off) refl)
  | inr other ↦ rw other (line_value-set_line x s v i)
]

value_in-overrides :
    (x : Str) (overrides : List (Str × Str))
    → IsOverrides overrides
    → value_in x (map override_line overrides) ≡ lookup x overrides
unfolding value_in
value_in-overrides x [] h = refl
value_in-overrides x ((s, v) ∷ overrides) (i, line, fresh, h) =
    rw (value_in-overrides x overrides h, line_value-override_line x s v i)
      (elim (Bool-cases (same x s)) [
        | inl eq ↦ rw (eq, eq_of_same x s eq, fresh) refl
        | inr ne ↦ rw ne (later-none (lookup x overrides))
      ])

abbrev any_sets : List (Str × Str) → Str → Bool
any_sets overrides line = any (λ kv. sets kv.0 line) overrides

sets_override-eq-any :
    (overrides : List (Str × Str)) (line : Str)
    → sets_override overrides line ≡ any_sets overrides line
unfolding sets_override sets
sets_override-eq-any overrides line = refl

any_sets-not :
    (x line : Str) (overrides : List (Str × Str))
    → any_sets overrides line ≡ false
    → is_some (lookup x overrides) ≡ true
    → sets x line ≡ false
any_sets-not x line [] h g = cc
any_sets-not x line ((s, v) ∷ overrides) h g =
    ground (arith, same_iff x s, any_sets-not x line overrides)

any_sets-other :
    (x line : Str) (overrides : List (Str × Str))
    → IsOverrides overrides
    → any_sets overrides line ≡ true
    → is_some (lookup x overrides) ≡ false
    → line_value x line ≡ none
any_sets-other x line [] i h g = cc
any_sets-other x line ((s, v) ∷ overrides) (i, one, fresh, rest) h g =
    elim (Bool-cases (sets s line)) [
      | inl said ↦ line_value-other x s line i said (ground arith)
      | inr unsaid ↦ any_sets-other x line overrides rest (ground arith) (ground arith)
    ]

value_in-kept :
    (x : Str) (overrides : List (Str × Str)) (lines : List Str)
    → IsOverrides overrides
    → value_in x (keep (λ line. not (sets_override overrides line)) lines)
      ≡ (if is_some (lookup x overrides) then none else value_in x lines)
unfolding value_in
value_in-kept x overrides [] i = ground arith
value_in-kept x overrides (line ∷ lines) i =
    rw (sets_override-eq-any overrides line) (elim (Bool-cases (any_sets overrides line)) [
      | inl said ↦
          rw (said, value_in-kept x overrides lines i)
            (elim (Bool-cases (is_some (lookup x overrides))) [
              | inl found ↦ rw found refl
              | inr absent ↦
                  rw (absent, any_sets-other x line overrides i said absent)
                    (sym (later-none (value_in x lines)))
            ])
      | inr unsaid ↦ rw unsaid (
          rw (value_in-kept x overrides lines i) (elim (Bool-cases (is_some (lookup x overrides))) [
            | inl found ↦
                rw (found, line_value-unsaid x line (any_sets-not x line overrides unsaid found))
                  refl
            | inr absent ↦ rw absent refl
          ]))
    ])

-- The overridden lines say of a symbol what the overrides do, and otherwise what the lines did.
value_in-overridden :
    (x : Str) (overrides : List (Str × Str)) (lines : List Str)
    → IsOverrides overrides
    → value_in x (overridden_lines overrides lines) ≡ later (lookup x overrides) (value_in x lines)
unfolding overridden_lines
value_in-overridden x overrides lines i =
    value_in-append x (keep (λ line. not (sets_override overrides line)) lines) _
    ∙ rw (value_in-overrides x overrides i, value_in-kept x overrides lines i)
        (elim (Option-cases (lookup x overrides)) [
          | inl absent ↦ rw absent refl
          | inr (v, found) ↦ rw found refl
        ])

empty_text : splitlines (b'\n' ∷ []) ≡ [] ∷ []
unfolding lines_from is_break
empty_text = refl

value_in-splitlines :
    (x : Str) (lines : List Str)
    → All OneLine lines
    → value_in x (splitlines (join (b'\n' ∷ []) lines ++ b'\n' ∷ [])) ≡ value_in x lines
unfolding join value_in
value_in-splitlines x [] h = rw (empty_text, line_value-empty x) refl
value_in-splitlines x (line ∷ []) h = rw (lines_from-line [] line [] h.0, no_more) refl
value_in-splitlines x (line ∷ next ∷ lines) h =
    rw
      (
        append_assoc line (b'\n' ∷ join (b'\n' ∷ []) (next ∷ lines)) (b'\n' ∷ []),
        lines_from-line [] line (join (b'\n' ∷ []) (next ∷ lines) ++ b'\n' ∷ []) h.0,
      )
      (ap (λ o. later o (line_value x line)) (value_in-splitlines x (next ∷ lines) h.1))

override_line-OneLine :
    (overrides : List (Str × Str))
    → IsOverrides overrides
    → All OneLine (map override_line overrides)
unfolding override_line
override_line-OneLine [] i = tt
override_line-OneLine ((s, v) ∷ overrides) (i, one, fresh, rest) = (
  if-OneLine (same v (str "n")) (unset_line s) _ (unset_line-OneLine s i)
      (set_line-OneLine s v i one),
  override_line-OneLine overrides rest,
)

overridden_lines-OneLine :
    (overrides : List (Str × Str)) (text : Str)
    → IsOverrides overrides
    → All OneLine (overridden_lines overrides (splitlines text))
unfolding overridden_lines
overridden_lines-OneLine overrides text i =
    All-append OneLine (keep (λ line. not (sets_override overrides line)) (splitlines text)) _
      (All-keep OneLine _ (splitlines text) (lines_from-OneLine false [] text tt))
      (override_line-OneLine overrides i)

lookup-apply_config :
    (x text : Str) (overrides : List (Str × Str))
    → IsOverrides overrides
    → lookup x (read_have (splitlines (apply_config text overrides)) [])
      ≡ later (lookup x overrides) (lookup x (read_have (splitlines text) []))
unfolding apply_config
lookup-apply_config x text [] i = refl
lookup-apply_config x text (o ∷ overrides) i =
    lookup-read_have x _ []
    ∙ (later-none _
        ∙ (value_in-splitlines x _ (overridden_lines-OneLine (o ∷ overrides) text i)
            ∙ (value_in-overridden x (o ∷ overrides) (splitlines text) i
                ∙ ap (later (lookup x (o ∷ overrides)))
                    (sym (lookup-read_have x (splitlines text) [] ∙ later-none _)))))

-- Each override is what its symbol is looked up as.
abbrev AreFound : List (Str × Str) → List (Str × Str) → Type 0
AreFound m = All (λ kv. lookup kv.0 m ≡ some kv.1)

AreFound-fresh :
    (s v : Str) (m overrides : List (Str × Str))
    → lookup s m ≡ none
    → AreFound m overrides
    → AreFound ((s, v) ∷ m) overrides
AreFound-fresh s v m [] h g = tt
AreFound-fresh s v m ((k, w) ∷ overrides) h g =
    (ground (arith, same_iff k s, g.0), AreFound-fresh s v m overrides h g.1)

overrides-AreFound :
    (overrides : List (Str × Str)) → IsOverrides overrides → AreFound overrides overrides
overrides-AreFound [] i = tt
overrides-AreFound ((s, v) ∷ overrides) (i, one, fresh, rest) = (
  rw (same_refl s) refl,
  AreFound-fresh s v overrides overrides fresh (overrides-AreFound overrides rest),
)

no_mismatches :
    (have m overrides : List (Str × Str))
    → AreFound m overrides
    → ((x : Str) → (w : Option Str) × (lookup x have ≡ later (lookup x m) w))
    → keep (λ kv. not (same (get_or_n (lookup kv.0 have)) kv.1)) overrides ≡ []
no_mismatches have m [] h g = refl
no_mismatches have m ((s, v) ∷ overrides) h g =
    let (w, e) = g s in rw (e, h.0, same_refl v) (no_mismatches have m overrides h.1 g)

-- Where overrides are a dictionary of symbols and values of one line, the written configuration is
-- read with the override's value of each symbol that has one, and otherwise as before, and
-- `config_mismatches` finds none in it.
pub config_mismatches-apply_config :
    (x text : Str) (overrides : List (Str × Str))
    → IsOverrides overrides
    → (lookup x (read_have (splitlines (apply_config text overrides)) [])
        ≡ later (lookup x overrides) (lookup x (read_have (splitlines text) [])))
      × (config_mismatches (apply_config text overrides) overrides ≡ [])
unfolding config_mismatches
config_mismatches-apply_config x text overrides i = (
  lookup-apply_config x text overrides i,
  ap (map _) (
      no_mismatches (read_have (splitlines (apply_config text overrides)) []) overrides overrides
        (overrides-AreFound overrides i) (λ y. (_, lookup-apply_config y text overrides i))),
)
