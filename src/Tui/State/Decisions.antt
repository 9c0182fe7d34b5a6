-- ===== src/Tui/State/Decisions.antt =====
-- What the keys do to the items.
use native.Mathlib.Nat.{zero-add}
use autokernel.Base.{
  ◌==◌, ℕ, zero, suc, ◌+◌, Bool, true, List, [], ◌∷◌, Option, none, some, ◌≡◌, inl, inr, refl, ap,
  ◌∙◌, length, get_elem?, arith, map, if◌then◌else◌, Bool-cases, nil_or_cons,
}
use autokernel.Models.{ReviewDecision, RemovalProposal}
use autokernel.Tui.State.Cursor.{Command, set, move, look, step, run, current-items}
use autokernel.Tui.State.{
  Item, WorkingState, interactive_rule, is_visible, visible_from, visible, current, back_into,
  decide, set_current_decision, move_cursor, cursor_first, cursor_last, cycle_subsystem,
  cycle_decision_view, decide_at,
}

-- One item of a list is decided anew; the others stay.
abbrev pub redecided : ReviewDecision → Item → Item
redecided d item = record item { decision = d; rule = interactive_rule }

abbrev pub redecide : ReviewDecision → Option Item → Option Item
redecide d none = none
redecide d (some item) = some (redecided d item)

get_elem?-decide_at :
    (d : ReviewDecision) (items : List Item) (k j : ℕ)
    → get_elem? (decide_at d k items) j
      ≡ (if k == j then redecide d (get_elem? items j) else get_elem? items j)
unfolding decide_at
get_elem?-decide_at d [] k j = ground arith
get_elem?-decide_at d (item ∷ items) zero zero = refl
get_elem?-decide_at d (item ∷ items) zero (suc j) = ground arith
get_elem?-decide_at d (item ∷ items) (suc k) zero = ground arith
get_elem?-decide_at d (item ∷ items) (suc k) (suc j) =
    ground (arith, get_elem?-decide_at d items k j)

-- A visible item stands in the list at the index that it carries.
visible_from-get_elem? :
    (shown : Item → Bool) (i : ℕ) (items : List Item) (c k : ℕ) (item : Item)
    → get_elem? (visible_from shown i items) c ≡ some (k, item)
    → (j : ℕ) × (k ≡ i + j) × (get_elem? items j ≡ some item) × (shown item ≡ true)
unfolding visible_from
visible_from-get_elem? shown i [] c k item h = cc
visible_from-get_elem? shown i (x ∷ items) zero k item h = elim (Bool-cases (shown x)) [
  | inl on ↦ (0, ground arith, ground arith, ground arith)
  | inr off ↦
      let (j, e, g, v) = visible_from-get_elem? shown (suc i) items zero k item (ground arith) in
      (suc j, omega arith, g, v)
]
visible_from-get_elem? shown i (x ∷ items) (suc c) k item h = elim (Bool-cases (shown x)) [
  | inl on ↦
      let (j, e, g, v) = visible_from-get_elem? shown (suc i) items c k item (ground arith) in
      (suc j, omega arith, g, v)
  | inr off ↦
      let (j, e, g, v) = visible_from-get_elem? shown (suc i) items (suc c) k item (ground arith) in
      (suc j, omega arith, g, v)
]

current-get_elem? :
    (s : WorkingState) (k : ℕ) (item : Item)
    → (current s).1 ≡ some (k, item)
    → (get_elem? s.items k ≡ some item) × (is_visible s item ≡ true)
unfolding current visible
current-get_elem? s k item h = elim (nil_or_cons (visible_from (is_visible s) 0 s.items)) [
  | inl e ↦ cc (rw e at h)
  | inr (v, vs, e) ↦
      let c = back_into (suc (length vs)) s.cursor in
      let (j, k_is, g, shown) =
        visible_from-get_elem? (is_visible s) 0 s.items c k item
          (ap (λ l. get_elem? l c) e ∙ (rw e at h)) in
      (rw (k_is ∙ zero-add j) g, shown)
]

-- A decision falls on the item that `current` shows, which is visible, and on no other: it gets the
-- decision and the label `interactive`, and every other item stays as it was.
pub set_current_decision_lem :
    (d : ReviewDecision) (s : WorkingState) (k j : ℕ) (item : Item)
    → (current s).1 ≡ some (k, item)
    → (is_visible s item ≡ true)
      × ((set_current_decision d s).1 ≡ some (redecided d item))
      × (get_elem? (set_current_decision d s).0.items j
          ≡ (if k == j then some (redecided d item) else get_elem? s.items j))
unfolding set_current_decision
set_current_decision_lem d s k j item h =
    let (at_k, shown) = current-get_elem? s k item h in
    let items = current-items s in
    (
      shown,
      rw h,
      rw h (get_elem?-decide_at d (current s).0.items k j ∙ ground (arith, items, at_k)),
    )

-- The proposals, in their order.
abbrev pub proposals : List Item → List RemovalProposal
proposals = map (λ item. item.proposal)

proposals-decide_at :
    (d : ReviewDecision) (k : ℕ) (items : List Item)
    → proposals (decide_at d k items) ≡ proposals items
unfolding decide_at
proposals-decide_at d k [] = refl
proposals-decide_at d zero (item ∷ items) = refl
proposals-decide_at d (suc k) (item ∷ items) =
    ap (λ l. item.proposal ∷ l) (proposals-decide_at d k items)

proposals-decide :
    (d : ReviewDecision) (s : WorkingState) (o : Option (ℕ × Item))
    → proposals (decide d (s, o)).0.items ≡ proposals s.items
proposals-decide d s none = refl
proposals-decide d s (some (k, item)) = proposals-decide_at d k s.items

proposals-step : (c : Command) (s : WorkingState) → proposals (step c s).items ≡ proposals s.items
unfolding step move_cursor cursor_first cursor_last cycle_subsystem cycle_decision_view
proposals-step (set d) s =
    unfold set_current_decision in
    proposals-decide d (current s).0 (current s).1 ∙ ap proposals (current-items s)
proposals-step look s = ap proposals (current-items s)
proposals-step (move delta) s = refl
proposals-step _ s = refl

-- Whatever keys are pressed, the proposals stay the same, in the same order.
pub proposals-run :
    (cs : List Command) (s : WorkingState) → proposals (run cs s).items ≡ proposals s.items
unfolding run
proposals-run [] s = refl
proposals-run (c ∷ cs) s = proposals-run cs (step c s) ∙ proposals-step c s
