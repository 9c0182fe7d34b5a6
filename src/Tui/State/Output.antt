-- ===== src/Tui/State/Output.antt =====
-- The review set that the interface saves.
use mathlib.Core.List.{Perm, perm_middle}
use mathlib.Core.List.Perm
use mathlib.Core.Path.{subst}
use autokernel.Base.{
  ℕ, ◌+◌, Bool, List, [], ◌∷◌, ◌++◌, none, Str, ◌≡◌, ◌≢◌, refl, ap, ◌∙◌, length, arith, map, All,
  append-nil, map-append, count, length-append, shift-perm, if◌then◌else◌,
}
use autokernel.Models.{
  ReviewDecision, accept, reject, defer, by_claude, ReviewedProposal, ReviewSet, decision_eq,
}
use autokernel.Review.Partition.{proposals_of, all_proposals, proposals-snoc, proposals_last}
use autokernel.Tui.State.Cursor.{Command, run}
use autokernel.Tui.State.Decisions.{proposals, proposals-run}
use autokernel.Tui.State.{
  Item, WorkingState, from_review_set, item_of, counts, reviewed_item, file_item, file_items,
  to_review_set,
}

file_item-perm :
    (d : ReviewDecision) (rp : ReviewedProposal) (out : ReviewSet)
    → Perm (all_proposals (file_item d rp out)) (rp.proposal ∷ all_proposals out)
file_item-perm accept rp out = proposals-snoc rp out.accepted _
file_item-perm reject rp out = shift-perm _ _ (proposals-snoc rp out.rejected _)
file_item-perm defer rp out = shift-perm _ _ (shift-perm _ _ (proposals_last rp out.deferred))

file_items-perm :
    (items : List Item) (out : ReviewSet)
    → Perm (all_proposals (file_items items out)) (proposals items ++ all_proposals out)
unfolding file_items
file_items-perm [] out = Perm.rfl
file_items-perm (item ∷ items) out = Perm.trans (file_items-perm items _) (
    Perm.trans
      (Perm.append_left (proposals items) (file_item-perm item.decision (reviewed_item item) out))
      (perm_middle (proposals items) _))

abbrev nothing_filed : WorkingState → ReviewSet
nothing_filed s = record {
  base_diff_path = s.base_diff_path;
  accepted = [];
  rejected = [];
  deferred = [];
}

to_review_set-perm : (s : WorkingState) → Perm (all_proposals (to_review_set s)) (proposals s.items)
unfolding to_review_set
to_review_set-perm s = rw append-nil at (file_items-perm s.items (nothing_filed s))

map-item_of :
    (d : ReviewDecision) (fallback : Str) (rps : List ReviewedProposal)
    → proposals (map (item_of d fallback) rps) ≡ proposals_of rps
map-item_of d fallback [] = refl
map-item_of d fallback (rp ∷ rps) = ap (λ l. rp.proposal ∷ l) (map-item_of d fallback rps)

proposals-from_review_set :
    (rs : ReviewSet) → proposals (from_review_set rs).items ≡ all_proposals rs
unfolding from_review_set
proposals-from_review_set rs = simp (map-append, map-item_of)

-- A whole session, whatever keys are pressed, saves each proposal of the loaded review set as often
-- as it was there.
pub session-perm :
    (rs : ReviewSet) (cs : List Command)
    → Perm (all_proposals (to_review_set (run cs (from_review_set rs)))) (all_proposals rs)
session-perm rs cs =
    subst (Perm _) (proposals-run cs (from_review_set rs) ∙ proposals-from_review_set rs)
      (to_review_set-perm (run cs (from_review_set rs)))

-- The three lengths.
abbrev pub sizes : ReviewSet → ℕ × ℕ × ℕ
sizes out = (length out.accepted, length out.rejected, length out.deferred)

one_if : Bool → ℕ
one_if b = if b then 1 else 0

file_item-sizes :
    (d : ReviewDecision) (rp : ReviewedProposal) (out : ReviewSet)
    → (length (file_item d rp out).accepted ≡ length out.accepted + one_if (decision_eq d accept))
      × (length (file_item d rp out).rejected ≡ length out.rejected + one_if (decision_eq d reject))
      × (length (file_item d rp out).deferred ≡ length out.deferred + one_if (decision_eq d defer))
unfolding one_if decision_eq
file_item-sizes accept rp out = omega (arith, length-append {0} out.accepted (rp ∷ []))
file_item-sizes reject rp out = omega (arith, length-append {0} out.rejected (rp ∷ []))
file_item-sizes defer rp out = omega (arith, length-append {0} out.deferred (rp ∷ []))

file_items-sizes :
    (items : List Item) (out : ReviewSet)
    → (length (file_items items out).accepted
        ≡ length out.accepted + count (λ i. decision_eq i.decision accept) items)
      × (length (file_items items out).rejected
          ≡ length out.rejected + count (λ i. decision_eq i.decision reject) items)
      × (length (file_items items out).deferred
          ≡ length out.deferred + count (λ i. decision_eq i.decision defer) items)
unfolding file_items one_if
file_items-sizes [] out = omega arith
file_items-sizes (item ∷ items) out =
    let one = file_item-sizes item.decision (reviewed_item item) out in
    let rest = file_items-sizes items (file_item item.decision (reviewed_item item) out) in
    ground arith

-- The counts that the interface shows are the sizes of the buckets that it saves.
pub sizes-to_review_set : (s : WorkingState) → sizes (to_review_set s) ≡ counts s
unfolding to_review_set counts
sizes-to_review_set s = ground (arith, file_items-sizes s.items (nothing_filed s))

-- Whoever decided before, a saved entry names the user or the policy, and has no note.
abbrev pub ForgetsAudit : List ReviewedProposal → Type 0
ForgetsAudit = All (λ rp. (rp.reviewer ≢ by_claude) × (rp.note ≡ none))

pub record IsAnonymous (out : ReviewSet) : Type 0 where
  pub accepted : ForgetsAudit out.accepted
  pub rejected : ForgetsAudit out.rejected
  pub deferred : ForgetsAudit out.deferred
