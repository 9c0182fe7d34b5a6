-- ===== src/Policy/Apply/Partition.antt =====
-- `apply_policy` loses no proposal, makes none up, and blocks exactly the load-bearing ones.
use mathlib.Core.List.{Perm, perm_middle}
use mathlib.Core.List.Perm
use autokernel.Base.{
  snoc-perm, shift-perm, List, [], ◌∷◌, ◌++◌, Str, ◌≡◌, ◌∙◌, sym, ap, map, member, lookup, arith,
  keep, append-nil, append_assoc, map-append,
}
use autokernel.Models.{RemovalProposal}
use autokernel.Policy.LoadBearing.{LoadBearingSet, contains}
use autokernel.Policy.Apply.{
  AutonomyLevel, PolicyResult, sort_proposal, sort_all, no_result, apply_policy, blocked_reason,
}

-- The four buckets in one list.
abbrev pub all_buckets : PolicyResult → List RemovalProposal
all_buckets out =
    out.auto_applied ++ (out.needs_review ++ (map (λ b. b.0) out.blocked ++ out.annotations))

module _ (p : RemovalProposal) (out : PolicyResult) where
  perm_auto :
      Perm
        (all_buckets (record out { auto_applied = out.auto_applied ++ p ∷ [] }))
        (p ∷ all_buckets out)
  perm_auto = snoc-perm out.auto_applied _ p

  perm_review :
      Perm
        (all_buckets (record out { needs_review = out.needs_review ++ p ∷ [] }))
        (p ∷ all_buckets out)
  perm_review = shift-perm out.auto_applied p (snoc-perm out.needs_review _ p)

  perm_blocked :
      (r : Str)
      → Perm
          (all_buckets (record out { blocked = out.blocked ++ (p, r) ∷ [] }))
          (p ∷ all_buckets out)
  perm_blocked r = shift-perm out.auto_applied p (
      shift-perm out.needs_review p
        (rw map-append (snoc-perm (map (λ b. b.0) out.blocked) out.annotations p)))

  perm_annotated :
      Perm
        (all_buckets (record out { annotations = out.annotations ++ p ∷ [] }))
        (p ∷ all_buckets out)
  perm_annotated = shift-perm out.auto_applied p (
      shift-perm out.needs_review p (
        shift-perm (map (λ b. b.0) out.blocked) p
          (rw append-nil at (perm_middle {a = p} out.annotations []))))

-- One round puts its proposal into the buckets once.
sort_proposal-perm :
    (a : AutonomyLevel) (lb : LoadBearingSet) (p : RemovalProposal) (out : PolicyResult)
    → Perm (all_buckets (sort_proposal a lb p out)) (p ∷ all_buckets out)
unfolding sort_proposal contains
sort_proposal-perm a lb p out = ground (
  arith,
  perm_auto p out,
  perm_review p out,
  perm_blocked p out (blocked_reason (lookup p.config lb.reasons)),
  perm_annotated p out,
)

sort_all-perm :
    (a : AutonomyLevel) (lb : LoadBearingSet) (ps : List RemovalProposal) (out : PolicyResult)
    → Perm (all_buckets (sort_all a lb ps out)) (ps ++ all_buckets out)
unfolding sort_all
sort_all-perm a lb [] out = Perm.refl _
sort_all-perm a lb (p ∷ ps) out =
    Perm.trans (sort_all-perm a lb ps (sort_proposal a lb p out))
      (Perm.trans (Perm.append_left ps (sort_proposal-perm a lb p out)) (perm_middle ps _))

-- Whatever the level, the four buckets together hold each given proposal as often as it was given.
pub apply_policy-perm :
    (ps : List RemovalProposal) (a : AutonomyLevel) (lb : LoadBearingSet)
    → Perm (all_buckets (apply_policy ps a lb)) ps
unfolding apply_policy
apply_policy-perm ps a lb = rw append-nil at (sort_all-perm a lb ps no_result)

-- The proposals that name a load-bearing symbol, each with the reason that is recorded for it.
abbrev pub protected_with_reason :
    LoadBearingSet → List RemovalProposal → List (RemovalProposal × Str)
protected_with_reason lb ps =
    map (λ p. (p, blocked_reason (lookup p.config lb.reasons)))
      (keep (λ p. member p.config lb.symbols) ps)

sort_proposal-blocked :
    (a : AutonomyLevel) (lb : LoadBearingSet) (p : RemovalProposal) (out : PolicyResult)
    → (sort_proposal a lb p out).blocked ≡ out.blocked ++ protected_with_reason lb (p ∷ [])
unfolding sort_proposal contains
sort_proposal-blocked a lb p out = ground (arith, append-nil out.blocked)

sort_all-blocked :
    (a : AutonomyLevel) (lb : LoadBearingSet) (ps : List RemovalProposal) (out : PolicyResult)
    → (sort_all a lb ps out).blocked ≡ out.blocked ++ protected_with_reason lb ps
unfolding sort_all
sort_all-blocked a lb [] out = sym (append-nil _)
sort_all-blocked a lb (p ∷ ps) out =
    sort_all-blocked a lb ps _
    ∙ ap (λ b. b ++ protected_with_reason lb ps) (sort_proposal-blocked a lb p out)
    ∙ ground (
      arith,
      append_assoc out.blocked (protected_with_reason lb (p ∷ [])) (protected_with_reason lb ps),
    )

-- At every level `blocked` is the list of the proposals that name a load-bearing symbol, in their
-- order, each with its recorded reason.
pub apply_policy-blocked :
    (ps : List RemovalProposal) (a : AutonomyLevel) (lb : LoadBearingSet)
    → (apply_policy ps a lb).blocked ≡ protected_with_reason lb ps
unfolding apply_policy
apply_policy-blocked ps a lb = sort_all-blocked a lb ps no_result
