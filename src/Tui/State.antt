-- ===== src/Tui/State.antt =====
-- src/autokernel/tui/state.py: the working state. `visible` returns the items themselves, so that
-- `current().decision = ...` writes to the list: here a visible item carries its index in `items`.
pub mod Cursor
pub mod Decisions
pub mod Output
use autokernel.Base.{
  ℕ, zero, suc, ◌+◌, ◌-◌, Bool, true, false, ◌&&◌, List, [], ◌∷◌, ◌++◌, Option, none, some, Str,
  str, same, member, get_elem?, length, map, keep, count, if◌then◌else◌, leb,
}
use autokernel.Base.Int.{ℤ, pos, negsuc}
use autokernel.Models.{
  ReviewDecision, accept, reject, defer, Reviewer, by_user, by_policy, RemovalProposal,
  ReviewedProposal, ReviewSet, decision_eq,
}
use autokernel.Subsystem.{classify}
use autokernel.Tui.Filters.{DecisionView, default_view, cycle_view, view_matches, cycle_subsystems}
use Prim.Native.Nat.{min}

abbrev pub interactive_rule : Str
interactive_rule = str "interactive"

pub record Item : Type 0 where
  pub proposal : RemovalProposal
  pub decision : ReviewDecision
  pub rule : Str

abbrev pub subsystem : Item → Str
subsystem item = classify item.proposal.config

abbrev pub touched_by_user : Item → Bool
touched_by_user item = same item.rule interactive_rule

pub record WorkingState : Type 0 where
  pub items : List Item
  pub base_diff_path : Str
  pub subsystem_filter : Option Str
  pub decision_view : DecisionView
  pub cursor : ℕ

-- `rp.rule or fallback`: an absent and an empty label are both false.
abbrev pub rule_or : Str → Option Str → Str
rule_or fallback none = fallback
rule_or fallback (some []) = fallback
rule_or fallback (some (c ∷ s)) = c ∷ s

abbrev pub item_of : ReviewDecision → Str → ReviewedProposal → Item
item_of d fallback rp = record {
  proposal = rp.proposal;
  decision = d;
  rule = rule_or fallback rp.rule;
}

unfoldable pub from_review_set : ReviewSet → WorkingState
from_review_set rs = record {
  items =
      map (item_of accept (str "policy")) rs.accepted
      ++ (map (item_of reject (str "policy")) rs.rejected
          ++ map (item_of defer (str "deferred")) rs.deferred);
  base_diff_path = rs.base_diff_path;
  subsystem_filter = none;
  decision_view = default_view;
  cursor = 0;
}

abbrev pub in_subsystem : Option Str → Item → Bool
in_subsystem none item = true
in_subsystem (some s) item = same (subsystem item) s

-- The test of the list comprehension in `visible`.
unfoldable pub is_visible : WorkingState → Item → Bool
is_visible s item =
    view_matches s.decision_view item.decision && in_subsystem s.subsystem_filter item

-- The visible items, each with its index; `i` counts from where the list starts.
unfoldable pub visible_from : (Item → Bool) → ℕ → List Item → List (ℕ × Item)
visible_from shown i [] = []
visible_from shown i (item ∷ items) =
    let rest = visible_from shown (suc i) items in if shown item then (i, item) ∷ rest else rest

unfoldable pub visible : WorkingState → List (ℕ × Item)
unfolding visible_from
visible s = visible_from (is_visible s) 0 s.items

-- The loop of `all_subsystems`; `seen` is what it has collected.
unfoldable pub subsystems_from : List Str → List Item → List Str
subsystems_from seen [] = seen
subsystems_from seen (item ∷ items) =
    subsystems_from (if member (subsystem item) seen then seen else seen ++ subsystem item ∷ [])
      items

unfoldable pub all_subsystems : WorkingState → List Str
unfolding subsystems_from
all_subsystems s = subsystems_from [] s.items

-- `if self.cursor >= len(v): self.cursor = max(0, len(v) - 1)`
abbrev pub back_into : ℕ → ℕ → ℕ
back_into n c = if leb n c then n - 1 else c

-- The item under the cursor, once the cursor is back in the view.
abbrev pub pick : WorkingState → List (ℕ × Item) → WorkingState × Option (ℕ × Item)
pick s [] = (s, none)
pick s (v ∷ vs) =
    let c = back_into (length (v ∷ vs)) s.cursor in (record s { cursor = c }, get_elem? (v ∷ vs) c)

-- `current`, which may move the cursor back into the view.
unfoldable pub current : WorkingState → WorkingState × Option (ℕ × Item)
current s = pick s (visible s)

unfoldable pub counts : WorkingState → ℕ × ℕ × ℕ
counts s = (
  count (λ i. decision_eq i.decision accept) s.items,
  count (λ i. decision_eq i.decision reject) s.items,
  count (λ i. decision_eq i.decision defer) s.items,
)

-- `item.decision = decision; item.rule = _INTERACTIVE_RULE`, at an index of the list.
unfoldable pub decide_at : ReviewDecision → ℕ → List Item → List Item
decide_at d i [] = []
decide_at d zero (item ∷ items) = record item { decision = d; rule = interactive_rule } ∷ items
decide_at d (suc i) (item ∷ items) = item ∷ decide_at d i items

-- The state after the decision on the item that `current` found.
abbrev pub decide : ReviewDecision → WorkingState × Option (ℕ × Item) → WorkingState × Option Item
decide d (s, none) = (s, none)
decide d (s, some (i, item)) = (
  record s { items = decide_at d i s.items },
  some (record item { decision = d; rule = interactive_rule }),
)

unfoldable pub set_current_decision : ReviewDecision → WorkingState → WorkingState × Option Item
set_current_decision d s = decide d (current s)

-- `max(0, cursor + delta)`
abbrev pub shifted : ℕ → ℤ → ℕ
shifted c (pos d) = c + d
shifted c (negsuc d) = c - suc d

-- `n = len(self.visible())`
abbrev pub clamp_to : ℕ → ℕ → ℕ
clamp_to zero c = 0
clamp_to (suc n) c = min c n

unfoldable pub move_cursor : ℤ → WorkingState → WorkingState
move_cursor delta s = record s { cursor = clamp_to (length (visible s)) (shifted s.cursor delta) }

unfoldable pub cursor_first : WorkingState → WorkingState
cursor_first s = record s { cursor = 0 }

unfoldable pub cursor_last : WorkingState → WorkingState
cursor_last s = record s { cursor = length (visible s) - 1 }

unfoldable pub cycle_subsystem : WorkingState → WorkingState
cycle_subsystem s = record s {
  subsystem_filter = cycle_subsystems (all_subsystems s) s.subsystem_filter;
  cursor = 0;
}

unfoldable pub cycle_decision_view : WorkingState → WorkingState
cycle_decision_view s = record s { decision_view = cycle_view s.decision_view; cursor = 0 }

abbrev pub reviewed_item : Item → ReviewedProposal
reviewed_item item = record {
  proposal = item.proposal;
  decision = item.decision;
  reviewer = if touched_by_user item then by_user else by_policy;
  rule = some item.rule;
  note = none;
}

-- One round of the loop of `to_review_set`.
abbrev pub file_item : ReviewDecision → ReviewedProposal → ReviewSet → ReviewSet
file_item accept rp out = record out { accepted = out.accepted ++ rp ∷ [] }
file_item reject rp out = record out { rejected = out.rejected ++ rp ∷ [] }
file_item defer rp out = record out { deferred = out.deferred ++ rp ∷ [] }

unfoldable pub file_items : List Item → ReviewSet → ReviewSet
file_items [] out = out
file_items (item ∷ items) out = file_items items (file_item item.decision (reviewed_item item) out)

unfoldable pub to_review_set : WorkingState → ReviewSet
unfolding file_items
to_review_set s =
    file_items s.items
      (record { base_diff_path = s.base_diff_path; accepted = []; rejected = []; deferred = [] })
