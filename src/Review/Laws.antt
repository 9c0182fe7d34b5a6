-- ===== src/Review/Laws.antt =====
-- What `apply_rules` promises for every rule list.
use autokernel.Base.{
  true, false, List, [], ◌∷◌, ◌++◌, Option, none, some, Str, str, ◌≡◌, inl, inr, refl, arith, All,
  All-append, Bool-cases,
}
use autokernel.Models.{
  ReviewDecision, accept, reject, defer, Reviewer, RemovalProposal, ReviewedProposal, ReviewSet,
}
use mathlib.Core.Path.{subst}
use autokernel.Review.{
  matches, Rule, accept_rule, reject_rule, defer_rule, base, decision_of, choose, reviewed, put,
  apply_from, no_decisions, apply_rules,
}

-- `r` is the first rule of the list that matches `p`.
pub data FirstMatch (p : RemovalProposal) (r : Rule) : List Rule → Type 0 where
  here : {rs : List Rule} → matches (base r) p ≡ true → FirstMatch p r (r ∷ rs)
  later :
      {other : Rule} {rs : List Rule}
      → matches (base other) p ≡ false
      → FirstMatch p r rs
      → FirstMatch p r (other ∷ rs)

abbrev pub NoMatch : RemovalProposal → List Rule → Type 0
NoMatch p = All (λ r. matches (base r) p ≡ false)

choose-FirstMatch :
    (p : RemovalProposal) (r : Rule) (rules : List Rule)
    → choose rules p ≡ some r
    → FirstMatch p r rules
unfolding choose
choose-FirstMatch p r [] h = cc
choose-FirstMatch p r (x ∷ rules) h = elim (Bool-cases (matches (base x) p)) [
  | inl hit ↦ subst (λ y. FirstMatch p y (x ∷ rules)) (ground arith) (here hit)
  | inr miss ↦ later miss (choose-FirstMatch p r rules (ground arith))
]

choose-NoMatch : (p : RemovalProposal) (rules : List Rule) → choose rules p ≡ none → NoMatch p rules
unfolding choose
choose-NoMatch p [] h = tt
choose-NoMatch p (x ∷ rules) h = (ground arith, choose-NoMatch p rules (ground arith))

-- A decided proposal has the decision and the label of the first rule that matches it, and the
-- reviewer of the run; an unmatched one is deferred.
pub data IsDecided (rules : List Rule) (who : Reviewer) (rp : ReviewedProposal) : Type 0 where
  by_rule :
      (r : Rule)
      → FirstMatch rp.proposal r rules
      → rp ≡ reviewed rp.proposal (decision_of r) who (base r).label
      → IsDecided rules who rp
  unmatched :
      NoMatch rp.proposal rules
      → rp ≡ reviewed rp.proposal defer who (str "unmatched")
      → IsDecided rules who rp

abbrev pub InBucket : List Rule → Reviewer → ReviewDecision → List ReviewedProposal → Type 0
InBucket rules who d = All (λ rp. (rp.decision ≡ d) × IsDecided rules who rp)

pub record IsReviewed (rules : List Rule) (who : Reviewer) (out : ReviewSet) : Type 0 where
  pub accepted : InBucket rules who accept out.accepted
  pub rejected : InBucket rules who reject out.rejected
  pub deferred : InBucket rules who defer out.deferred

module _ (rules : List Rule) (who : Reviewer) where
  InBucket-snoc :
      (d : ReviewDecision) (xs : List ReviewedProposal) (x : ReviewedProposal)
      → InBucket rules who d xs
      → x.decision ≡ d
      → IsDecided rules who x
      → InBucket rules who d (xs ++ x ∷ [])
  InBucket-snoc d xs x h e i = All-append _ xs (x ∷ []) h ((e, i), tt)

  put-IsReviewed :
      (p : RemovalProposal) (o : Option Rule) (out : ReviewSet)
      → choose rules p ≡ o
      → IsReviewed rules who out
      → IsReviewed rules who (put who p o out)
  unfolding put
  put-IsReviewed p none out e h = record {
    accepted = h.accepted;
    rejected = h.rejected;
    deferred =
        InBucket-snoc defer out.deferred _ h.deferred refl
          (unmatched (choose-NoMatch p rules e) refl);
  }
  put-IsReviewed p (some (accept_rule r)) out e h = record {
    accepted =
        InBucket-snoc accept out.accepted _ h.accepted refl
          (by_rule (accept_rule r) (choose-FirstMatch p _ rules e) refl);
    rejected = h.rejected;
    deferred = h.deferred;
  }
  put-IsReviewed p (some (reject_rule r)) out e h = record {
    accepted = h.accepted;
    rejected =
        InBucket-snoc reject out.rejected _ h.rejected refl
          (by_rule (reject_rule r) (choose-FirstMatch p _ rules e) refl);
    deferred = h.deferred;
  }
  put-IsReviewed p (some (defer_rule r)) out e h = record {
    accepted = h.accepted;
    rejected = h.rejected;
    deferred =
        InBucket-snoc defer out.deferred _ h.deferred refl
          (by_rule (defer_rule r) (choose-FirstMatch p _ rules e) refl);
  }

  apply_from-IsReviewed :
      (ps : List RemovalProposal) (out : ReviewSet)
      → IsReviewed rules who out
      → IsReviewed rules who (apply_from who rules ps out)
  unfolding apply_from
  apply_from-IsReviewed [] out h = h
  apply_from-IsReviewed (p ∷ ps) out h =
      apply_from-IsReviewed ps _ (put-IsReviewed p (choose rules p) out refl h)

-- Every proposal in a bucket has that bucket's decision, and got it with its label from the first
-- rule that matches it; where no rule matches, it is deferred with the label `unmatched`.
pub apply_rules-IsReviewed :
    (ps : List RemovalProposal) (rules : List Rule) (path : Str) (who : Reviewer)
    → IsReviewed rules who (apply_rules ps rules path who)
unfolding apply_rules
apply_rules-IsReviewed ps rules path who =
    apply_from-IsReviewed rules who ps (no_decisions path)
      (record { accepted = tt; rejected = tt; deferred = tt })
