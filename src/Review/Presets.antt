-- ===== src/Review/Presets.antt =====
-- What the preset rule lists and the veto rules promise.
use autokernel.Base.Glob.{fnmatchcase}
use autokernel.Base.{
  All-append, any, false, List, [], ◌∷◌, Option, none, some, Str, ◌≡◌, ◌≢◌, refl, member, arith,
  All,
}
use autokernel.Models.{high, Reviewer, RemovalProposal, ReviewSet, risk_eq}
use autokernel.Subsystem.{classify}
use autokernel.Review.{
  RuleBase, matches, Rule, accept_rule, reject_rule, defer_rule, choose, put, apply_from,
  no_decisions, apply_rules, preset_accept_recommended, reject_subsystems_rule, reject_pattern_rule,
}

-- One decision keeps a property of the accepted bucket, if each accepted proposal has it.
module _ (P : RemovalProposal → Type 0) (who : Reviewer) (rules : List Rule)
    (only : (p : RemovalProposal) (r : RuleBase)
      → choose rules p ≡ some (accept_rule r)
      → P p) where
  put-accepted :
      (p : RemovalProposal) (o : Option Rule) (out : ReviewSet)
      → choose rules p ≡ o
      → All (λ rp. P rp.proposal) out.accepted
      → All (λ rp. P rp.proposal) (put who p o out).accepted
  unfolding put
  put-accepted p none out e h = h
  put-accepted p (some (accept_rule r)) out e h = All-append _ out.accepted _ h (only p r e, tt)
  put-accepted p (some (reject_rule r)) out e h = h
  put-accepted p (some (defer_rule r)) out e h = h

  accepted_from :
      (ps : List RemovalProposal) (out : ReviewSet)
      → All (λ rp. P rp.proposal) out.accepted
      → All (λ rp. P rp.proposal) (apply_from who rules ps out).accepted
  unfolding apply_from
  accepted_from [] out h = h
  accepted_from (p ∷ ps) out h = accepted_from ps _ (put-accepted p (choose rules p) out refl h)

  accepted_only :
      (ps : List RemovalProposal) (path : Str)
      → All (λ rp. P rp.proposal) (apply_rules ps rules path who).accepted
  unfolding apply_rules
  accepted_only ps path = accepted_from ps (no_decisions path) tt

recommended_risk :
    (p : RemovalProposal) (r : RuleBase)
    → choose preset_accept_recommended p ≡ some (accept_rule r)
    → p.risk ≢ high
unfolding choose preset_accept_recommended matches risk_eq
recommended_risk p r e = ground arith

-- `--accept-recommended` accepts no high-risk proposal.
pub accept_recommended_risk :
    (ps : List RemovalProposal) (path : Str) (who : Reviewer)
    → All
        (λ rp. rp.proposal.risk ≢ high)
        (apply_rules ps preset_accept_recommended path who).accepted
accept_recommended_risk ps path who =
    accepted_only (λ p. p.risk ≢ high) who preset_accept_recommended recommended_risk ps path

veto_subsystems :
    (xs : List Str) (rules : List Rule) (p : RemovalProposal) (r : RuleBase)
    → choose (reject_subsystems_rule xs ∷ rules) p ≡ some (accept_rule r)
    → member (classify p.config) xs ≡ false
unfolding choose reject_subsystems_rule matches
veto_subsystems xs rules p r e = ground arith

veto_patterns :
    (gs : List Str) (rules : List Rule) (p : RemovalProposal) (r : RuleBase)
    → choose (reject_pattern_rule gs ∷ rules) p ≡ some (accept_rule r)
    → any (fnmatchcase p.config) gs ≡ false
unfolding choose reject_pattern_rule matches
veto_patterns [] rules p r e = refl
veto_patterns (g ∷ gs) rules p r e = ground arith

-- With a subsystem veto in front, nothing in those subsystems is accepted, whatever rules follow.
pub reject_subsystems_veto :
    (xs : List Str) (rules : List Rule) (ps : List RemovalProposal) (path : Str) (who : Reviewer)
    → All
        (λ rp. member (classify rp.proposal.config) xs ≡ false)
        (apply_rules ps (reject_subsystems_rule xs ∷ rules) path who).accepted
reject_subsystems_veto xs rules ps path who =
    accepted_only (λ p. member (classify p.config) xs ≡ false) who
      (reject_subsystems_rule xs ∷ rules) (veto_subsystems xs rules) ps path

-- With a pattern veto in front, no symbol that one of the patterns matches is accepted.
pub reject_pattern_veto :
    (gs : List Str) (rules : List Rule) (ps : List RemovalProposal) (path : Str) (who : Reviewer)
    → All
        (λ rp. any (fnmatchcase rp.proposal.config) gs ≡ false)
        (apply_rules ps (reject_pattern_rule gs ∷ rules) path who).accepted
reject_pattern_veto gs rules ps path who =
    accepted_only (λ p. any (fnmatchcase p.config) gs ≡ false) who (reject_pattern_rule gs ∷ rules)
      (veto_patterns gs rules) ps path
