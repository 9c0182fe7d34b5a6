-- ===== src/Policy/Apply/Levels.antt =====
-- What each level of autonomy may apply.
use autokernel.Base.{
  List, [], ◌∷◌, ◌++◌, false, not, ◌≡◌, ◌≢◌, ◌⊎◌, ◌≤◌, refl, ◌∙◌, sym, member, keep, append-nil,
  append_assoc, arith, All, All-append,
}
use autokernel.Models.{
  RemovalProposal, Snapshot, low, high, deterministic, microarch, risk_eq, source_eq,
}
use autokernel.Resolve.{ResolutionResult}
use autokernel.Policy.LoadBearing.{LoadBearingSet, contains, compute_load_bearing}
use autokernel.Policy.LoadBearing.Exact.{is_protected, compute_load_bearing_exact}
use autokernel.Policy.Apply.{
  AutonomyLevel, explain, advise, auto_safe, auto_bold, PolicyResult, sort_proposal, sort_all,
  no_result, apply_policy, deterministic_auto_confidence, auto_safe_confidence,
}

-- An invariant of one round is one of the loop.
module _ (P : PolicyResult → Type 0) (a : AutonomyLevel) (lb : LoadBearingSet)
    (round : (p : RemovalProposal) (out : PolicyResult)
      → P out
      → P (sort_proposal a lb p out)) where
  sort_all-inv : (ps : List RemovalProposal) (out : PolicyResult) → P out → P (sort_all a lb ps out)
  unfolding sort_all
  sort_all-inv [] out h = h
  sort_all-inv (p ∷ ps) out h = sort_all-inv ps (sort_proposal a lb p out) (round p out h)

-- What makes a change safe to apply with no human in the loop, level by level.
abbrev pub MayApply : AutonomyLevel → RemovalProposal → Type 0
MayApply explain p = ⊥
MayApply advise p =
    ((p.source ≡ deterministic) ⊎ (p.source ≡ microarch))
    × (deterministic_auto_confidence ≤ p.confidence)
MayApply auto_safe p = (p.risk ≡ low) × (auto_safe_confidence ≤ p.confidence)
MayApply auto_bold p = p.risk ≢ high

-- Applied without review: never load-bearing, and allowed at the level.
abbrev pub IsCleared : AutonomyLevel → LoadBearingSet → RemovalProposal → Type 0
IsCleared a lb p = (member p.config lb.symbols ≡ false) × MayApply a p

sort_proposal-IsCleared :
    (a : AutonomyLevel) (lb : LoadBearingSet) (p : RemovalProposal) (out : PolicyResult)
    → All (IsCleared a lb) out.auto_applied
    → All (IsCleared a lb) (sort_proposal a lb p out).auto_applied
unfolding sort_proposal contains risk_eq source_eq
sort_proposal-IsCleared explain lb p out h = ground arith
sort_proposal-IsCleared advise lb p out h =
    ground (arith, All-append (IsCleared advise lb) out.auto_applied (p ∷ []) h)
sort_proposal-IsCleared auto_safe lb p out h =
    ground (arith, All-append (IsCleared auto_safe lb) out.auto_applied (p ∷ []) h)
sort_proposal-IsCleared auto_bold lb p out h =
    ground (arith, All-append (IsCleared auto_bold lb) out.auto_applied (p ∷ []) h)

-- At every level, an applied proposal names no load-bearing symbol and meets the level's condition:
-- none at explain, a deterministic or microarchitecture rule of confidence at least 0.95 at advise,
-- low risk and confidence at least 0.9 at auto-safe, and any risk but high at auto-bold.
pub apply_policy-IsCleared :
    (ps : List RemovalProposal) (a : AutonomyLevel) (lb : LoadBearingSet)
    → All (IsCleared a lb) (apply_policy ps a lb).auto_applied
unfolding apply_policy
apply_policy-IsCleared ps a lb =
    sort_all-inv (λ out. All (IsCleared a lb) out.auto_applied) a lb (sort_proposal-IsCleared a lb)
      ps no_result tt

All-mono {ℓ} :
    {A : Type ℓ} (P Q : A → Type 0) → ((x : A) → P x → Q x) → (xs : List A) → All P xs → All Q xs
All-mono P Q f [] h = tt
All-mono P Q f (x ∷ xs) h = (f x h.0, All-mono P Q f xs h.1)

-- On a host's own load-bearing set, no level applies a proposal whose symbol the host needs.
pub apply_policy-keeps_host :
    (ps : List RemovalProposal) (a : AutonomyLevel) (snap : Snapshot) (res : ResolutionResult)
    → All
        (λ p. is_protected snap res p.config ≡ false)
        (apply_policy ps a (compute_load_bearing snap res)).auto_applied
apply_policy-keeps_host ps a snap res =
    All-mono (IsCleared a (compute_load_bearing snap res)) _
      (λ p h. sym (compute_load_bearing_exact snap res p.config) ∙ h.0) _
      (apply_policy-IsCleared ps a (compute_load_bearing snap res))

-- The proposals that nothing protects.
abbrev pub open_proposals : LoadBearingSet → List RemovalProposal → List RemovalProposal
open_proposals lb = keep (λ p. not (member p.config lb.symbols))

sort_all-explain :
    (lb : LoadBearingSet) (ps : List RemovalProposal) (out : PolicyResult)
    → ((sort_all explain lb ps out).auto_applied ≡ out.auto_applied)
      × ((sort_all explain lb ps out).needs_review ≡ out.needs_review)
      × ((sort_all explain lb ps out).annotations ≡ out.annotations ++ open_proposals lb ps)
unfolding sort_all contains
sort_all-explain lb [] out = (refl, refl, sym (append-nil _))
sort_all-explain lb (p ∷ ps) out = ground (
  arith,
  sort_all-explain lb ps (sort_proposal explain lb p out),
  append_assoc out.annotations (p ∷ []) (open_proposals lb ps),
)

-- At explain nothing is applied or sent to review: what is not load-bearing becomes an annotation.
pub apply_policy-explain :
    (ps : List RemovalProposal) (lb : LoadBearingSet)
    → ((apply_policy ps explain lb).auto_applied ≡ [])
      × ((apply_policy ps explain lb).needs_review ≡ [])
      × ((apply_policy ps explain lb).annotations ≡ open_proposals lb ps)
unfolding apply_policy
apply_policy-explain ps lb = sort_all-explain lb ps no_result

-- A deterministic proposal of sure confidence and more than low risk, on a symbol that is not
-- load-bearing, is applied with no review at advise, and waits for review at auto-safe.
pub advise_applies_more :
    (p : RemovalProposal) (lb : LoadBearingSet)
    → member p.config lb.symbols ≡ false
    → p.source ≡ deterministic
    → deterministic_auto_confidence ≤ p.confidence
    → p.risk ≢ low
    → ((apply_policy (p ∷ []) advise lb).auto_applied ≡ p ∷ [])
      × ((apply_policy (p ∷ []) auto_safe lb).auto_applied ≡ [])
      × ((apply_policy (p ∷ []) auto_safe lb).needs_review ≡ p ∷ [])
unfolding apply_policy sort_proposal contains risk_eq source_eq
advise_applies_more p lb new rule sure risky = ground arith
