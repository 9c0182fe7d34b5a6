-- ===== src/Tui/Filters/Cycles.antt =====
-- The filters come round: every choice is offered once in each turn.
use native.Mathlib.Numerals.{add-one}
use autokernel.Tui.Filters.{next_at}
use autokernel.Base.{
  ℕ, zero, suc, ◌≤◌, ◌<◌, true, false, List, [], ◌∷◌, none, some, Str, same_iff, ◌≡◌, ◌≢◌, refl, ap,
  ◌∙◌, get_elem?, length, arith, member,
}
use autokernel.Tui.Filters.{DecisionView, cycle_view, index_of, cycle_subsystems}

pub iterate {ℓ} : {A : Type ℓ} → (A → A) → ℕ → A → A
iterate f zero x = x
iterate f (suc n) x = f (iterate f n x)

-- The decision view comes back after four steps and not before.
pub cycle_view-period :
    (v : DecisionView)
    → (cycle_view (cycle_view (cycle_view (cycle_view v))) ≡ v)
      × (cycle_view v ≢ v)
      × (cycle_view (cycle_view v) ≢ v)
      × (cycle_view (cycle_view (cycle_view v)) ≢ v)
unfolding cycle_view
cycle_view-period v = ground arith

-- Each text differs from those behind it.
abbrev pub AllDifferent : List Str → Type 0
AllDifferent [] = Unit
AllDifferent (x ∷ xs) = (member x xs ≡ false) × AllDifferent xs

member-get_elem? : (xs : List Str) (i : ℕ) (x : Str) → get_elem? xs i ≡ some x → member x xs ≡ true
member-get_elem? [] i x h = cc
member-get_elem? (y ∷ ys) zero x h = ground (arith, same_iff x y)
member-get_elem? (y ∷ ys) (suc i) x h = ground (arith, member-get_elem? ys i x h)

index_of-get_elem? :
    (xs : List Str) (i : ℕ) (x : Str)
    → AllDifferent xs
    → get_elem? xs i ≡ some x
    → index_of x xs ≡ some i
unfolding index_of
index_of-get_elem? [] i x d h = cc
index_of-get_elem? (y ∷ ys) zero x d h = ground (arith, same_iff x y)
index_of-get_elem? (y ∷ ys) (suc i) x d h =
    ground (arith, index_of-get_elem? ys i x d.1 h, same_iff x y, member-get_elem? ys i x h)

get_elem?-none : (xs : List Str) (i : ℕ) → length xs ≤ i → get_elem? xs i ≡ none
get_elem?-none [] i h = refl
get_elem?-none (x ∷ xs) zero h = absurd (omega arith)
get_elem?-none (x ∷ xs) (suc i) h = get_elem?-none xs i (omega arith)

get_elem?-some : (xs : List Str) (i : ℕ) → i < length xs → (x : Str) × (get_elem? xs i ≡ some x)
get_elem?-some [] i h = absurd (omega arith)
get_elem?-some (x ∷ xs) zero h = (x, refl)
get_elem?-some (x ∷ xs) (suc i) h = get_elem?-some xs i (omega arith)

next_at-get_elem? : (xs : List Str) (i : ℕ) → next_at xs (some i) ≡ get_elem? xs (suc i)
next_at-get_elem? xs i = rw add-one (ground (arith, get_elem?-none xs (suc i)))

cycle-next :
    (xs : List Str) (i : ℕ) (x : Str)
    → AllDifferent xs
    → get_elem? xs i ≡ some x
    → cycle_subsystems xs (some x) ≡ get_elem? xs (suc i)
unfolding cycle_subsystems
cycle-next [] i x d h = cc
cycle-next (y ∷ ys) i x d h =
    rw (index_of-get_elem? (y ∷ ys) i x d h) (next_at-get_elem? (y ∷ ys) i)

cycle_subsystems-first : (xs : List Str) → cycle_subsystems xs none ≡ get_elem? xs 0
unfolding cycle_subsystems
cycle_subsystems-first [] = refl
cycle_subsystems-first (x ∷ xs) = refl

-- From `None`, step i + 1 shows subsystem i of the list, and the step behind the last one is `None`
-- again, so that each of n different subsystems is shown once in n + 1 steps.
pub cycle_subsystems-visits :
    (xs : List Str) (i : ℕ)
    → AllDifferent xs
    → i ≤ length xs
    → iterate (cycle_subsystems xs) (suc i) none ≡ get_elem? xs i
unfolding iterate
cycle_subsystems-visits xs zero d h = cycle_subsystems-first xs
cycle_subsystems-visits xs (suc i) d h =
    let (x, e) = get_elem?-some xs i (omega arith) in
    ap (cycle_subsystems xs) (cycle_subsystems-visits xs i d (omega arith) ∙ e)
    ∙ cycle-next xs i x d e
