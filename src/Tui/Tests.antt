-- ===== src/Tui/Tests.antt =====
-- Keys pressed on a small review, and the theorems at it.
use mathlib.Core.List.{Perm}
use autokernel.Base.{Str, ◌≡◌, refl, [], ◌∷◌, List, str, some, same}
use autokernel.Base.Int.{pos, negsuc}
use autokernel.Models.{accept, reject, defer, decision_eq}
use autokernel.Samples.{review, drop_ext4}
use autokernel.Tui.Filters.{cycle_view, view_matches}
use autokernel.Tui.Filters.Cycles.{AllDifferent}
use autokernel.Tui.State.{
  cycle_decision_view, current, is_visible, visible, set_current_decision, from_review_set,
  to_review_set, counts, move_cursor, cursor_last, decide_at,
}
use autokernel.Tui.State.Cursor.{
  Command, set, move, last, next_view, look, step, run, Points, run-Points,
}
use autokernel.Tui.State.Output.{session-perm}
use autokernel.Review.Partition.{all_proposals}
use autokernel.Tui.State.{Item, WorkingState}

abbrev keys : List Command
keys = move (pos 5) ∷ set accept ∷ look ∷ next_view ∷ last ∷ set reject ∷ move (negsuc 9) ∷ []

after_keys : counts (run keys (from_review_set review)) ≡ (1, 1, 1)
unfolding run step from_review_set counts current visible is_visible view_matches
    set_current_decision decide_at move_cursor cursor_last decision_eq cycle_view
    cycle_decision_view
after_keys = refl

abbrev start : WorkingState
start = from_review_set review

abbrev drop_ext4_item : Item
drop_ext4_item = record { proposal = drop_ext4; decision = defer; rule = str "bulk" }

ext4_under_cursor : (current (move_cursor (pos 1) start)).1 ≡ some (2, drop_ext4_item)
unfolding current visible is_visible view_matches decision_eq from_review_set move_cursor
ext4_under_cursor = refl

run-Points_example : Points (current (run keys (from_review_set review))).0
run-Points_example = run-Points review keys

session-perm_example :
    Perm (all_proposals (to_review_set (run keys (from_review_set review)))) (all_proposals review)
session-perm_example = session-perm review keys

abbrev three : List Str
three = str "crypto" ∷ str "filesystems" ∷ str "net" ∷ []

three_differ : AllDifferent three
unfolding same
three_differ = (refl, (refl, (refl, tt)))
