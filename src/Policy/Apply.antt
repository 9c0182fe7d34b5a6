-- ===== src/Policy/Apply.antt =====
-- `apply_policy` and `to_diff` of src/autokernel/policy.py.
pub mod Partition
pub mod Levels
use autokernel.Base.{
  ℕ, ◌*◌, ◌^◌, List, [], ◌∷◌, ◌++◌, Str, str, Option, none, some, Bool, true, false, not, ◌&&◌,
  ◌||◌, leb, if◌then◌else◌,
}
use autokernel.Models.{
  RemovalProposal, ConfigDiff, ProposalSource, deterministic, microarch, RiskLevel, low, high,
  risk_eq, source_eq,
}
use autokernel.Policy.LoadBearing.{LoadBearingSet, contains}

pub data AutonomyLevel : Type 0 where
  explain advise auto_safe auto_bold : AutonomyLevel

pub record PolicyResult : Type 0 where
  pub auto_applied : List RemovalProposal
  pub needs_review : List RemovalProposal
  pub blocked : List (RemovalProposal × Str)
  pub annotations : List RemovalProposal

-- The doubles next to 0.95 and 0.9, in units of 2^-1074.
abbrev pub deterministic_auto_confidence : ℕ
deterministic_auto_confidence = 4278419646001971 * 2 ^ 1022

abbrev pub auto_safe_confidence : ℕ
auto_safe_confidence = 8106479329266893 * 2 ^ 1021

-- `f"load-bearing: {reason}"`, where a missing reason prints as None
abbrev pub blocked_reason : Option Str → Str
blocked_reason none = str "load-bearing: None"
blocked_reason (some r) = str "load-bearing: " ++ r

to_auto : RemovalProposal → PolicyResult → PolicyResult
to_auto p out = record out { auto_applied = out.auto_applied ++ p ∷ [] }

to_review : RemovalProposal → PolicyResult → PolicyResult
to_review p out = record out { needs_review = out.needs_review ++ p ∷ [] }

-- The branch of the loop for a proposal that is not load-bearing.
sort_by_level : AutonomyLevel → RemovalProposal → PolicyResult → PolicyResult
unfolding to_auto to_review
sort_by_level explain p out = record out { annotations = out.annotations ++ p ∷ [] }
sort_by_level advise p out =
    if (source_eq p.source deterministic || source_eq p.source microarch)
      && leb deterministic_auto_confidence p.confidence
    then to_auto p out
    else to_review p out
sort_by_level auto_safe p out =
    if risk_eq p.risk low && leb auto_safe_confidence p.confidence
    then to_auto p out
    else to_review p out
sort_by_level auto_bold p out = if risk_eq p.risk high then to_review p out else to_auto p out

-- One round of the loop.
unfoldable pub sort_proposal :
    AutonomyLevel → LoadBearingSet → RemovalProposal → PolicyResult → PolicyResult
unfolding sort_by_level
sort_proposal autonomy lb p out =
    let (is_lb, reason) = contains lb p.config in
    if is_lb
    then record out { blocked = out.blocked ++ (p, blocked_reason reason) ∷ [] }
    else sort_by_level autonomy p out

unfoldable pub sort_all :
    AutonomyLevel → LoadBearingSet → List RemovalProposal → PolicyResult → PolicyResult
unfolding sort_proposal
sort_all autonomy lb [] out = out
sort_all autonomy lb (p ∷ ps) out = sort_all autonomy lb ps (sort_proposal autonomy lb p out)

abbrev pub no_result : PolicyResult
no_result = record { auto_applied = []; needs_review = []; blocked = []; annotations = [] }

unfoldable pub apply_policy : List RemovalProposal → AutonomyLevel → LoadBearingSet → PolicyResult
unfolding sort_all
apply_policy proposals autonomy lb = sort_all autonomy lb proposals no_result

abbrev pub autonomy_value : AutonomyLevel → Str
autonomy_value explain = str "explain"
autonomy_value advise = str "advise"
autonomy_value auto_safe = str "auto-safe"
autonomy_value auto_bold = str "auto-bold"

-- `not_considered or []`
abbrev or_nil : Option (List Str) → List Str
or_nil none = []
or_nil (some xs) = xs

unfoldable pub to_diff : Str → AutonomyLevel → PolicyResult → Option (List Str) → ConfigDiff
to_diff base_config_path autonomy result not_considered = record {
  base_config_path = base_config_path;
  autonomy = autonomy_value autonomy;
  auto_applied = result.auto_applied;
  needs_review = result.needs_review;
  blocked = result.blocked;
  annotations = result.annotations;
  not_considered = or_nil not_considered;
}
