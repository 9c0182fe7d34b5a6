-- ===== src/Review/Partition.antt =====
-- `apply_rules` decides each proposal once.
use mathlib.Core.List.{Perm, perm_middle}
use mathlib.Core.List.Perm
use autokernel.Base.{
  List, [], ◌∷◌, ◌++◌, Option, none, some, Str, str, map, map-append, append-nil, snoc-perm,
  shift-perm,
}
use autokernel.Models.{Reviewer, RemovalProposal, ReviewedProposal, ReviewSet}
use autokernel.Models.{accept, reject, defer}
use autokernel.Review.{
  reviewed, Rule, accept_rule, reject_rule, defer_rule, choose, put, apply_from, no_decisions,
  apply_rules,
}

-- The proposals of a review set.
abbrev pub proposals_of : List ReviewedProposal → List RemovalProposal
proposals_of = map (λ rp. rp.proposal)

abbrev pub all_proposals : ReviewSet → List RemovalProposal
all_proposals out =
    proposals_of out.accepted ++ (proposals_of out.rejected ++ proposals_of out.deferred)

module _ (rp : ReviewedProposal) (xs : List ReviewedProposal) where
  pub proposals-snoc :
      (ys : List RemovalProposal)
      → Perm (proposals_of (xs ++ rp ∷ []) ++ ys) (rp.proposal ∷ (proposals_of xs ++ ys))
  proposals-snoc ys = rw map-append (snoc-perm (proposals_of xs) ys rp.proposal)

  pub proposals_last : Perm (proposals_of (xs ++ rp ∷ [])) (rp.proposal ∷ proposals_of xs)
  proposals_last = simp append-nil at (proposals-snoc [])

put-perm :
    (who : Reviewer) (p : RemovalProposal) (o : Option Rule) (out : ReviewSet)
    → Perm (all_proposals (put who p o out)) (p ∷ all_proposals out)
unfolding put
put-perm who p none out =
    shift-perm _ p
      (shift-perm _ p (proposals_last (reviewed p defer who (str "unmatched")) out.deferred))
put-perm who p (some (accept_rule r)) out =
    proposals-snoc (reviewed p accept who r.label) out.accepted _
put-perm who p (some (reject_rule r)) out =
    shift-perm _ p (proposals-snoc (reviewed p reject who r.label) out.rejected _)
put-perm who p (some (defer_rule r)) out =
    shift-perm _ p (shift-perm _ p (proposals_last (reviewed p defer who r.label) out.deferred))

apply_from-perm :
    (who : Reviewer) (rules : List Rule) (ps : List RemovalProposal) (out : ReviewSet)
    → Perm (all_proposals (apply_from who rules ps out)) (ps ++ all_proposals out)
unfolding apply_from
apply_from-perm who rules [] out = Perm.rfl
apply_from-perm who rules (p ∷ ps) out =
    Perm.trans (apply_from-perm who rules ps _)
      (Perm.trans (Perm.append_left ps (put-perm who p (choose rules p) out)) (perm_middle ps _))

-- Accepted, rejected and deferred together hold each proposal as often as it was given.
pub apply_rules-perm :
    (ps : List RemovalProposal) (rules : List Rule) (path : Str) (who : Reviewer)
    → Perm (all_proposals (apply_rules ps rules path who)) ps
unfolding apply_rules
apply_rules-perm ps rules path who =
    rw append-nil at (apply_from-perm who rules ps (no_decisions path))
