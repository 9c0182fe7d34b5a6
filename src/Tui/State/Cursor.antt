-- ===== src/Tui/State/Cursor.antt =====
-- The cursor stays inside the filtered view.
use autokernel.Tui.State.{back_into}
use autokernel.Models.{ReviewSet}
use autokernel.Tui.State.{from_review_set}
use autokernel.Base.{
  is_some, nil_or_cons, ◌∙◌, ℕ, zero, suc, ◌+◌, ◌≤◌, ◌<◌, Bool, true, List, [], ◌∷◌, Option, none,
  some, ◌≡◌, ◌⊎◌, inl, inr, refl, length, arith, ap,
}
use autokernel.Base.Int.{ℤ}
use autokernel.Models.{ReviewDecision}
use autokernel.Tui.State.{
  Item, WorkingState, is_visible, visible_from, visible, current, decide, set_current_decision,
  move_cursor, cursor_first, cursor_last, cycle_subsystem, cycle_decision_view, decide_at, clamp_to,
}

-- The keys of the interface.
pub data Command : Type 0 where
  set : ReviewDecision → Command
  move : ℤ → Command
  first last next_subsystem next_view look : Command

unfoldable pub step : Command → WorkingState → WorkingState
step (set d) s = (set_current_decision d s).0
step (move delta) s = move_cursor delta s
step first s = cursor_first s
step last s = cursor_last s
step next_subsystem s = cycle_subsystem s
step next_view s = cycle_decision_view s
step look s = (current s).0

unfoldable pub run : List Command → WorkingState → WorkingState
run [] s = s
run (c ∷ cs) s = run cs (step c s)

-- The cursor is on a visible item, or at zero where there is none.
abbrev pub Points : WorkingState → Type 0
Points s = (s.cursor < length (visible s)) ⊎ ((s.cursor ≡ 0) × (visible s ≡ []))

clamp_to-lt : (n c : ℕ) → 0 < n → clamp_to n c < n
clamp_to-lt zero c h = absurd (omega arith)
clamp_to-lt (suc n) c h = omega arith

visible-cursor : (s : WorkingState) (c : ℕ) → visible (record s { cursor = c }) ≡ visible s
unfolding visible is_visible
visible-cursor s c = refl

-- A cursor is settled by a number below the length of the view.
Points-set :
    (s : WorkingState) (c : ℕ) (vs : List (ℕ × Item))
    → visible s ≡ vs
    → (0 < length vs → c < length vs)
    → (vs ≡ [] → c ≡ 0)
    → Points (record s { cursor = c })
Points-set s c [] e lt zero_at = inr (zero_at refl, visible-cursor s c ∙ e)
Points-set s c (v ∷ vs) e lt zero_at = inl (rw (visible-cursor s c, e) (lt (omega arith)))

-- A move by any distance, a jump to either end and a change of filter leave the cursor on a visible
-- item, or at zero where the view is empty.
pub move_cursor-Points : (delta : ℤ) (s : WorkingState) → Points (move_cursor delta s)
unfolding move_cursor
move_cursor-Points delta s = Points-set s _ (visible s) refl (clamp_to-lt _ _) (λ e. rw e)

pub cursor_first-Points : (s : WorkingState) → Points (cursor_first s)
unfolding cursor_first
cursor_first-Points s = Points-set s 0 (visible s) refl (λ h. h) (λ e. refl)

pub cursor_last-Points : (s : WorkingState) → Points (cursor_last s)
unfolding cursor_last
cursor_last-Points s = Points-set s _ (visible s) refl (λ h. omega arith) (λ e. rw e)

-- Decisions on any one item hide at most that item.
length-decide_at :
    (shown : Item → Bool) (d : ReviewDecision) (i k : ℕ) (items : List Item)
    → length (visible_from shown i items) ≤ length (visible_from shown i (decide_at d k items)) + 1
unfolding visible_from decide_at
length-decide_at shown d i k [] = omega arith
length-decide_at shown d i zero (item ∷ items) = ground arith
length-decide_at shown d i (suc k) (item ∷ items) =
    ground (arith, length-decide_at shown d (suc i) k items)

-- What every command keeps: the cursor is at most one behind the view.
abbrev pub Near : WorkingState → Type 0
Near s = s.cursor ≤ length (visible s)

Points-Near : (s : WorkingState) → Points s → Near s
Points-Near s h = omega arith

visible-items :
    (s : WorkingState) (items : List Item)
    → visible (record s { items = items }) ≡ visible_from (is_visible s) 0 items
unfolding visible is_visible
visible-items s items = refl

back_into-lt : (n c : ℕ) → 0 < n → back_into n c < n
back_into-lt n c h = ground arith

pub current-items : (s : WorkingState) → (current s).0.items ≡ s.items
unfolding current
current-items s = elim (nil_or_cons (visible s)) [ inl e ↦ rw e refl | inr (v, vs, e) ↦ rw e refl ]

current-Near : (s : WorkingState) → Near s → Near (current s).0
unfolding current
current-Near s h = elim (nil_or_cons (visible s)) [
  | inl e ↦ rw e h
  | inr (v, vs, e) ↦
      let lt = back_into-lt (suc (length vs)) s.cursor (omega arith) in
      rw e (rw (visible-cursor s _, e) (omega arith))
]

-- What `current` returns stands under the cursor that it leaves, in the view that it leaves.
current_in_view :
    (s : WorkingState)
    → is_some (current s).1 ≡ true
    → (current s).0.cursor < length (visible (current s).0)
unfolding current
current_in_view s h = elim (nil_or_cons (visible s)) [
  | inl e ↦ cc (rw e at h)
  | inr (v, vs, e) ↦ rw e (rw (visible-cursor s _, e) (back_into-lt _ s.cursor (omega arith)))
]

decide-Near :
    (d : ReviewDecision) (s : WorkingState) (o : Option (ℕ × Item))
    → (is_some o ≡ true → s.cursor < length (visible s))
    → Near s
    → Near (decide d (s, o)).0
unfolding visible is_visible
decide-Near d s none lt h = h
decide-Near d s (some (k, item)) lt h =
    let more = length-decide_at (is_visible s) d 0 k s.items in let below = lt refl in omega arith

set_current_decision-Near :
    (d : ReviewDecision) (s : WorkingState) → Near s → Near (set_current_decision d s).0
unfolding set_current_decision
set_current_decision-Near d s h =
    decide-Near d (current s).0 (current s).1 (current_in_view s) (current-Near s h)

step-Near : (c : Command) (s : WorkingState) → Near s → Near (step c s)
unfolding step
step-Near (set d) s h = set_current_decision-Near d s h
step-Near (move delta) s h = Points-Near _ (move_cursor-Points delta s)
step-Near first s h = Points-Near _ (cursor_first-Points s)
step-Near last s h = Points-Near _ (cursor_last-Points s)
step-Near next_subsystem s h = unfold cycle_subsystem in omega arith
step-Near next_view s h = unfold cycle_decision_view in omega arith
step-Near look s h = current-Near s h

run-Near : (cs : List Command) (s : WorkingState) → Near s → Near (run cs s)
unfolding run
run-Near [] s h = h
run-Near (c ∷ cs) s h = run-Near cs (step c s) (step-Near c s h)

Near-Points : (s : WorkingState) → Near s → Points (current s).0
unfolding current
Near-Points s h = elim (nil_or_cons (visible s)) [
  | inl e ↦ rw e (inr (ground (arith, e, ap length e), e))
  | inr (v, vs, e) ↦
      rw e (Points-set s _ (v ∷ vs) e (λ _. back_into-lt _ s.cursor (omega arith)) (λ n. cc))
]

-- After any keys pressed on a loaded review, the cursor that `current` leaves is on a visible item,
-- or at zero where nothing is visible.
pub run-Points :
    (rs : ReviewSet) (cs : List Command) → Points (current (run cs (from_review_set rs))).0
run-Points rs cs =
    Near-Points _ (run-Near cs (from_review_set rs) (unfold from_review_set in omega arith))
