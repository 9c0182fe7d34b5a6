-- ===== src/Review.antt =====
-- src/autokernel/review.py: bulk decisions on the proposals that need review.
pub mod Laws
pub mod Partition
pub mod Presets
mod Tests
use autokernel.Base.{
  sorted, join, ℕ, Bool, true, false, not, ◌&&◌, ◌||◌, List, [], ◌∷◌, ◌++◌, Option, none, some, Str,
  str, member, any, leb, ltb, if◌then◌else◌,
}
use autokernel.Base.Glob.{fnmatchcase}
use autokernel.Models.{
  RiskLevel, low, medium, high, ProposalSource, deterministic, ReviewDecision, accept, reject,
  defer, Reviewer, RemovalProposal, ReviewedProposal, ReviewSet, risk_eq, source_eq,
}
use autokernel.Subsystem.{classify}

-- The matcher's fields. `none` puts no condition on that axis.
pub record RuleBase : Type 0 where
  pub label : Str
  pub risk : Option (List RiskLevel)
  pub source : Option (List ProposalSource)
  pub subsystems : Option (List Str)
  pub name_globs : List Str
  pub min_confidence : Option ℕ
  pub max_confidence : Option ℕ

abbrev pub in_risks : Option (List RiskLevel) → RiskLevel → Bool
in_risks none r = true
in_risks (some rs) r = any (risk_eq r) rs

abbrev pub in_sources : Option (List ProposalSource) → ProposalSource → Bool
in_sources none s = true
in_sources (some ss) s = any (source_eq s) ss

abbrev pub in_subsystems : Option (List Str) → Str → Bool
in_subsystems none config = true
in_subsystems (some xs) config = member (classify config) xs

abbrev pub in_globs : List Str → Str → Bool
in_globs [] config = true
in_globs (g ∷ gs) config = any (fnmatchcase config) (g ∷ gs)

-- `if self.min_confidence is not None and p.confidence < self.min_confidence: return False`
abbrev pub at_least : Option ℕ → ℕ → Bool
at_least none c = true
at_least (some lo) c = not (ltb c lo)

abbrev pub at_most : Option ℕ → ℕ → Bool
at_most none c = true
at_most (some hi) c = not (ltb hi c)

unfoldable pub matches : RuleBase → RemovalProposal → Bool
matches r p =
    in_risks r.risk p.risk
    && in_sources r.source p.source
    && in_subsystems r.subsystems p.config
    && in_globs r.name_globs p.config
    && at_least r.min_confidence p.confidence
    && at_most r.max_confidence p.confidence

-- The three subclasses, which differ in the decision only.
pub data Rule : Type 0 where
  accept_rule reject_rule defer_rule : RuleBase → Rule

abbrev pub base : Rule → RuleBase
base (accept_rule r) = r
base (reject_rule r) = r
base (defer_rule r) = r

abbrev pub decision_of : Rule → ReviewDecision
decision_of (accept_rule r) = accept
decision_of (reject_rule r) = reject
decision_of (defer_rule r) = defer

-- The inner loop, with its `break`.
unfoldable pub choose : List Rule → RemovalProposal → Option Rule
choose [] p = none
choose (r ∷ rs) p = if matches (base r) p then some r else choose rs p

abbrev pub reviewed : RemovalProposal → ReviewDecision → Reviewer → Str → ReviewedProposal
reviewed p d reviewer label = record {
  proposal = p;
  decision = d;
  reviewer = reviewer;
  rule = some label;
  note = none;
}

-- Where one proposal goes. With no rule it is deferred, as unmatched.
unfoldable pub put : Reviewer → RemovalProposal → Option Rule → ReviewSet → ReviewSet
put reviewer p none out = record out {
  deferred = out.deferred ++ reviewed p defer reviewer (str "unmatched") ∷ [];
}
put reviewer p (some (accept_rule r)) out = record out {
  accepted = out.accepted ++ reviewed p accept reviewer r.label ∷ [];
}
put reviewer p (some (reject_rule r)) out = record out {
  rejected = out.rejected ++ reviewed p reject reviewer r.label ∷ [];
}
put reviewer p (some (defer_rule r)) out = record out {
  deferred = out.deferred ++ reviewed p defer reviewer r.label ∷ [];
}

unfoldable pub apply_from : Reviewer → List Rule → List RemovalProposal → ReviewSet → ReviewSet
unfolding put
apply_from reviewer rules [] out = out
apply_from reviewer rules (p ∷ ps) out =
    apply_from reviewer rules ps (put reviewer p (choose rules p) out)

abbrev pub no_decisions : Str → ReviewSet
no_decisions path = record { base_diff_path = path; accepted = []; rejected = []; deferred = [] }

unfoldable pub apply_rules : List RemovalProposal → List Rule → Str → Reviewer → ReviewSet
unfolding apply_from
apply_rules proposals rules base_diff_path reviewer =
    apply_from reviewer rules proposals (no_decisions base_diff_path)

-- A rule that filters on nothing; the presets fill in what they filter on.
abbrev any_proposal : Str → RuleBase
any_proposal label = record {
  label = label;
  risk = none;
  source = none;
  subsystems = none;
  name_globs = [];
  min_confidence = none;
  max_confidence = none;
}

unfoldable pub preset_accept_recommended : List Rule
preset_accept_recommended =
    accept_rule (record (any_proposal (str "accept-recommended-not-high-risk")) {
      risk = some (low ∷ medium ∷ []);
    })
    ∷ defer_rule (record (any_proposal (str "defer-high-risk")) { risk = some (high ∷ []) })
    ∷ []

unfoldable pub preset_accept_low_risk : List Rule
preset_accept_low_risk =
    accept_rule (record (any_proposal (str "accept-low-risk")) { risk = some (low ∷ []) }) ∷ []

unfoldable pub preset_accept_deterministic : List Rule
preset_accept_deterministic =
    accept_rule
      (record (any_proposal (str "accept-deterministic")) { source = some (deterministic ∷ []) })
    ∷ []

-- `reject_subsystems_rule`; the set's elements print in order.
unfoldable pub reject_subsystems_rule : List Str → Rule
reject_subsystems_rule subsystems =
    reject_rule
      (record (any_proposal (str "reject-subsystems:" ++ join (str ",") (sorted subsystems))) {
        subsystems = some subsystems;
      })

unfoldable pub reject_pattern_rule : List Str → Rule
reject_pattern_rule patterns =
    reject_rule (record (any_proposal (str "reject-pattern:" ++ join (str ",") patterns)) {
      name_globs = patterns;
    })
