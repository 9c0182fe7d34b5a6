-- ===== src/World/Triage.antt =====
-- `override_check` and `draft_to_verdict` of src/autokernel/world/triage.py, and the end of
-- `triage_record` that joins them. A draft is the answer of the language model or of its cache.
pub mod Safety
use autokernel.Base.{
  ℕ, Bool, true, false, not, ◌&&◌, ◌||◌, List, [], ◌∷◌, ◌++◌, Option, none, some, Str, str, leb,
  ◌==◌, if◌then◌else◌, same, member, map, keep,
}
use autokernel.Base.Space.{is_space, is_nil, strip, drop_left}
use autokernel.World.Models.{PackageOverride, FtbfsVerdict, FailureClass, is_miscompile, llm_triage}

pub record RemedyDraft : Type 0 where
  pub action : Str
  pub strip_flags : List Str
  pub add_flags : List Str
  pub strip_options : List Str
  pub reason : Str

pub record TriageDraft : Type 0 where
  pub failure_class : FailureClass
  pub remedy : RemedyDraft
  pub confidence : ℕ
  pub evidence : List Str

abbrev is_letter : ℕ → Bool
is_letter c = (leb b'A' c && leb c b'Z') || (leb b'a' c && leb c b'z')

-- `[A-Za-z0-9=_+,.-]`
abbrev is_flag_char : ℕ → Bool
is_flag_char c =
    is_letter c
    || (leb b'0' c && leb c b'9')
    || c == b'='
    || c == b'_'
    || c == b'+'
    || c == b','
    || c == b'.'
    || c == b'-'

-- What `$` matches: the end, or a line feed at the end.
abbrev is_end : Str → Bool
is_end [] = true
is_end (c ∷ []) = c == 10
is_end (c ∷ d ∷ s) = false

-- `_FLAG_RE.match(tok)`
unfoldable pub is_flag : Str → Bool
unfolding drop_left
is_flag (h ∷ c ∷ s) = h == b'-' && is_letter c && is_end (drop_left is_flag_char s)
is_flag _ = false

abbrev pub valid_actions : List Str
valid_actions =
    str "retry"
    ∷ str "nocheck"
    ∷ str "strip-flags"
    ∷ str "strip-build-options"
    ∷ str "force-gcc"
    ∷ str "use-stock"
    ∷ str "defer"
    ∷ []

-- A problem, by the message that it is reported with.
pub data Problem : Type 0 where
  unknown_action : Str → Problem
  empty_reason empty_strip_flags empty_strip_options : Problem
  flag_not_effective not_a_flag option_not_global : Str → Problem
  flags_given options_given : Str → Problem
  nocheck_refused : Problem

abbrev pub problem_if : Bool → Problem → List Problem
problem_if true p = p ∷ []
problem_if false p = []

-- A problem for each of the tokens that fail a test.
abbrev pub problems_of : (Str → Problem) → (Str → Bool) → List Str → List Problem
problems_of p ok tokens = map p (keep (λ t. not (ok t)) tokens)

abbrev pub is_action : Str → RemedyDraft → Bool
is_action a r = same r.action a

unfoldable pub check_flags : RemedyDraft → List Str → List Problem
unfolding is_flag
check_flags r effective =
    if is_action (str "strip-flags") r
    then problem_if (is_nil r.strip_flags) empty_strip_flags
      ++ (problems_of flag_not_effective (λ t. member t effective) r.strip_flags
          ++ problems_of not_a_flag is_flag r.add_flags)
    else problem_if (not (is_nil r.strip_flags) || not (is_nil r.add_flags)) (flags_given r.action)

abbrev pub check_global : List Str → Option (List Str) → List Problem
check_global options none = []
check_global options (some global) = problems_of option_not_global (λ t. member t global) options

unfoldable pub check_options : RemedyDraft → Option (List Str) → List Problem
check_options r global =
    if is_action (str "strip-build-options") r
    then problem_if (is_nil r.strip_options) empty_strip_options
      ++ check_global r.strip_options global
    else problem_if (not (is_nil r.strip_options)) (options_given r.action)

unfoldable pub override_check : TriageDraft → List Str → Option (List Str) → List Problem
unfolding check_flags check_options
override_check draft effective global =
    problem_if (not (member draft.remedy.action valid_actions)) (unknown_action draft.remedy.action)
    ++ (problem_if (is_nil (strip draft.remedy.reason)) empty_reason
        ++ (check_flags draft.remedy effective
            ++ (check_options draft.remedy global
                ++ problem_if
                    (is_action (str "nocheck") draft.remedy && is_miscompile draft.failure_class)
                    nocheck_refused)))

-- An override of the triage that says nothing but its reason.
abbrev pub bare_override : Str → Str → PackageOverride
bare_override source reason = record {
  source_pkg = source;
  strip_flags = [];
  add_flags = [];
  build_options = [];
  strip_build_options = [];
  force_compiler = none;
  profiles = [];
  patches = [];
  use_stock = false;
  reason = reason;
  provenance = llm_triage;
}

unfoldable pub remedy_of : Str → RemedyDraft → Option PackageOverride
remedy_of source r =
    let plain = bare_override source r.reason in
    if is_action (str "nocheck") r
    then some (record plain { build_options = str "nocheck" ∷ [] })
    else if is_action (str "strip-flags") r
    then some (record plain { strip_flags = r.strip_flags; add_flags = r.add_flags })
    else if is_action (str "strip-build-options") r
    then some (record plain { strip_build_options = r.strip_options })
    else if is_action (str "force-gcc") r
    then some (record plain { force_compiler = some (str "gcc") })
    else if is_action (str "use-stock") r
    then some (record plain { use_stock = true })
    else if is_action (str "retry") r
    then some plain
    else none

unfoldable pub draft_to_verdict : Str → TriageDraft → FtbfsVerdict
unfolding remedy_of
draft_to_verdict source draft = record {
  source = source;
  failure_class = draft.failure_class;
  remedy = remedy_of source draft.remedy;
  confidence = draft.confidence;
  evidence = draft.evidence;
}

-- `s.split()`: the words between the spaces.
unfoldable pub words_from : Str → Str → List Str
words_from [] [] = []
words_from (w ∷ word) [] = (w ∷ word) ∷ []
words_from [] (c ∷ s) =
    let rest = words_from [] s in let on = words_from (c ∷ []) s in if is_space c then rest else on
words_from (w ∷ word) (c ∷ s) =
    let split = (w ∷ word) ∷ words_from [] s in
    let on = words_from (w ∷ word ++ c ∷ []) s in if is_space c then split else on

-- The verdict of `triage_record` on a draft, with its problems.
unfoldable pub judge : Str → TriageDraft → Str → List Str → FtbfsVerdict × List Problem
unfolding override_check draft_to_verdict words_from
judge source draft effective_cflags global =
    let problems = override_check draft (words_from [] effective_cflags) (some global) in
    let verdict = draft_to_verdict source draft in
    (if is_nil problems then verdict else record verdict { remedy = none }, problems)
