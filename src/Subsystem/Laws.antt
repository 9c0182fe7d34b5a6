-- ===== src/Subsystem/Laws.antt =====
-- What a client of the classifier may rely on.
use mathlib.Core.Path.{subst}
use autokernel.Base.{
  true, false, List, [], ◌∷◌, ◌++◌, none, some, Str, str, ◌≡◌, ◌⊎◌, refl, sym, same, same_iff, any,
  arith, strip_prefix, lookup, append_assoc, if◌then◌else◌, keep, append-nil, Bool-cases, inl, inr,
  Option-cases,
}
use autokernel.Subsystem.Regex.{RuleTable, Pattern}
use autokernel.Subsystem.{
  search_pattern, first_rule, bare_name, classify, rules_def, append_at, group_from,
  group_by_subsystem,
}

-- Rule `(name, patterns)` is the first of the table that has a pattern which is found in `text`.
pub data FirstRule (text : Str) : RuleTable → Str → Type 0 where
  here :
      {name : Str} {patterns : List Pattern} {rest : RuleTable}
      → any (λ p. search_pattern p text) patterns ≡ true
      → FirstRule text ((name, patterns) ∷ rest) name
  later :
      {name other : Str} {patterns : List Pattern} {rest : RuleTable}
      → any (λ p. search_pattern p text) patterns ≡ false
      → FirstRule text rest name
      → FirstRule text ((other, patterns) ∷ rest) name

pub first_rule-FirstRule :
    (table : RuleTable) (text name : Str)
    → first_rule table text ≡ some name
    → FirstRule text table name
unfolding first_rule
first_rule-FirstRule [] text name h = cc
first_rule-FirstRule ((other, patterns) ∷ rest) text name h =
    elim (Bool-cases (any (λ p. search_pattern p text) patterns)) [
      | inl hit ↦ subst (FirstRule text _) (ground arith) (here {name = other} hit)
      | inr miss ↦ later miss (first_rule-FirstRule rest text name (ground arith))
    ]

FirstRule-first_rule :
    {text : Str} {table : RuleTable} {name : Str}
    → FirstRule text table name
    → first_rule table text ≡ some name
unfolding first_rule
FirstRule-first_rule (here hit) = ground arith
FirstRule-first_rule (later miss f) = ground (arith, FirstRule-first_rule f)

-- The bucket of a symbol is that of the first rule that is found in its bare name, and `misc` for
-- a symbol that no rule is found in.
pub classify_first :
    (symbol : Str)
    → (((name : Str) × FirstRule (bare_name symbol) rules_def name × (classify symbol ≡ name)))
      ⊎ (((name : Str) → ¬ FirstRule (bare_name symbol) rules_def name)
          × (classify symbol ≡ str "misc"))
unfolding classify
classify_first symbol = elim (Option-cases (first_rule rules_def (bare_name symbol))) [
  | inl e ↦ inr ((λ name f. cc (e, FirstRule-first_rule f)), rw (classify, e))
  | inr (name, e) ↦ inl (name, first_rule-FirstRule _ _ _ e, rw (classify, e))
]

bare_name_self : (name : Str) → strip_prefix (str "CONFIG_") name ≡ none → bare_name name ≡ name
unfolding bare_name
bare_name_self name h = ground arith

bare_name-prefix : (name : Str) → bare_name (str "CONFIG_" ++ name) ≡ name
unfolding bare_name
bare_name-prefix name = refl

-- The bucket of a symbol is that of its name: the prefix makes no difference.
pub classify-prefix :
    (name : Str)
    → strip_prefix (str "CONFIG_") name ≡ none
    → classify (str "CONFIG_" ++ name) ≡ classify name
unfolding classify
classify-prefix name h = rw (classify, bare_name-prefix name, bare_name_self name h)

-- All the symbols that a grouping holds, under their keys.
abbrev pub values : List (Str × List Str) → List Str
values [] = []
values ((k, v) ∷ m) = v ++ values m

abbrev pub bucket : Str → List (Str × List Str) → List Str
bucket k m = elim (lookup k m) [ none ↦ [] | some v ↦ v ]

bucket-append_at :
    (k j s : Str) (m : List (Str × List Str))
    → bucket k (append_at j s m) ≡ (if same k j then bucket k m ++ s ∷ [] else bucket k m)
unfolding append_at
bucket-append_at k j s [] = ground (arith, same_iff k j)
bucket-append_at k j s ((i, v) ∷ m) =
    ground (arith, bucket-append_at k j s m, same_iff k j, same_iff j i, same_iff k i)

bucket-group_from :
    (k : Str) (symbols : List Str) (out : List (Str × List Str))
    → bucket k (group_from out symbols) ≡ bucket k out ++ keep (λ s. same k (classify s)) symbols
unfolding group_from
bucket-group_from k [] out = sym (append-nil _)
bucket-group_from k (s ∷ symbols) out = ground (
  arith,
  bucket-group_from k symbols (append_at (classify s) s out),
  bucket-append_at k (classify s) s out,
  append_assoc (bucket k out) (s ∷ []) (keep (λ x. same k (classify x)) symbols),
)

-- A bucket holds the symbols that classify into it, all of them, in the order in which they came.
pub group_by_subsystem-bucket :
    (k : Str) (symbols : List Str)
    → bucket k (group_by_subsystem symbols) ≡ keep (λ s. same k (classify s)) symbols
unfolding group_by_subsystem
group_by_subsystem-bucket k symbols = bucket-group_from k symbols []
