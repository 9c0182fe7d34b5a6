-- ===== src/Tui/Filters.antt =====
-- src/autokernel/tui/filters.py: the two filters that a key press steps through.
pub mod Cycles
use autokernel.Base.{
  ℕ, zero, suc, ◌+◌, ◌%◌, Bool, true, false, List, [], ◌∷◌, Option, none, some, Str, same,
  get_elem?, length, if◌then◌else◌, leb,
}
use autokernel.Models.{ReviewDecision, accept, reject, defer, decision_eq}

pub data DecisionView : Type 0 where
  deferred all accepted rejected : DecisionView

abbrev pub default_view : DecisionView
default_view = deferred

unfoldable pub view_eq : DecisionView → DecisionView → Bool
view_eq deferred deferred = true
view_eq all all = true
view_eq accepted accepted = true
view_eq rejected rejected = true
view_eq _ _ = false

abbrev pub view_order : List DecisionView
view_order = deferred ∷ all ∷ accepted ∷ rejected ∷ []

-- `order.index(self)`; every view is in the list
unfoldable pub view_index : DecisionView → List DecisionView → ℕ
unfolding view_eq
view_index v [] = 0
view_index v (w ∷ ws) = if view_eq v w then 0 else suc (view_index v ws)

abbrev or_default : Option DecisionView → DecisionView
or_default none = default_view
or_default (some v) = v

unfoldable pub cycle_view : DecisionView → DecisionView
unfolding view_index
cycle_view v = or_default (get_elem? view_order ((view_index v view_order + 1) % length view_order))

-- `_VIEW_TO_DECISION`, with no entry for ALL
abbrev pub view_to_decision : DecisionView → Option ReviewDecision
view_to_decision deferred = some defer
view_to_decision accepted = some accept
view_to_decision rejected = some reject
view_to_decision all = none

abbrev is_decision : Option ReviewDecision → ReviewDecision → Bool
is_decision none d = true
is_decision (some e) d = decision_eq e d

unfoldable pub view_matches : DecisionView → ReviewDecision → Bool
unfolding decision_eq
view_matches v d = is_decision (view_to_decision v) d

-- `subsystems.index(current)`; `none` where Python raises ValueError
unfoldable pub index_of : Str → List Str → Option ℕ
index_of x [] = none
index_of x (y ∷ ys) =
    if same x y then some 0 else elim (index_of x ys) [ none ↦ none | some i ↦ some (suc i) ]

-- The subsystem behind position `i`, or none at the end.
abbrev next_at : List Str → Option ℕ → Option Str
next_at subsystems none = none
next_at subsystems (some i) =
    if leb (length subsystems) (i + 1) then none else get_elem? subsystems (i + 1)

unfoldable pub cycle_subsystems : List Str → Option Str → Option Str
unfolding index_of
cycle_subsystems [] current = none
cycle_subsystems (s ∷ subsystems) none = some s
cycle_subsystems (s ∷ subsystems) (some current) =
    next_at (s ∷ subsystems) (index_of current (s ∷ subsystems))
