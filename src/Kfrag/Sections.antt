-- ===== src/Kfrag/Sections.antt =====
-- What the parts of a written fragment amount to.
use autokernel.Base.{List, [], ◌∷◌, ◌++◌, Option, none, some, Str, str, ◌≡◌, refl, arith, All}
use autokernel.Base.Space.{is_space, drop_left, drop_right, strip, strip_quotes, OneLine}
use autokernel.Models.{ReviewedProposal}
use autokernel.Kfrag.Writer.{
  note_line, enable_lines, disable_lines, demote_lines, other_lines, optional_unset, entries,
  section,
}
use autokernel.Kfrag.Format.{
  previous_choice_symbol, rendered, format_assignment, short_symbol, old_symbol, comment_for,
  or_empty,
}
use autokernel.Kfrag.Lines.{IsSymbol, parse_line-note}
use autokernel.Kfrag.Means.{
  Means, Means-append, Means-none, IsComment, Means-comment, Means-blank, Means-unset, Means-set,
}
use autokernel.Kfrag.Values.{read_back, rendered-reads}

-- The symbol is one, and no text of the proposal has a line break.
pub record IsPlain (r : ReviewedProposal) : Type 0 where
  pub symbol : IsSymbol r.proposal.config
  pub value : OneLine r.proposal.proposed_value
  pub reason : OneLine r.proposal.reason
  pub rule : OneLine (or_empty r.rule)

abbrev pub symbol_of : ReviewedProposal → Str
symbol_of r = r.proposal.config

note_line-IsComment : (r : ReviewedProposal) → IsSymbol r.proposal.config → IsComment (note_line r)
note_line-IsComment r i out = parse_line-note r.proposal.config (comment_for r) out i

pub read_y : strip_quotes (strip (drop_right is_space (str "y"))) ≡ str "y"
unfolding drop_left drop_right is_space
read_y = refl

read_m : strip_quotes (strip (drop_right is_space (str "m"))) ≡ str "m"
unfolding drop_left drop_right is_space
read_m = refl

pub Means-enable :
    (r : ReviewedProposal) → IsPlain r → Means (enable_lines r) [] ((symbol_of r, str "y") ∷ [])
Means-enable r h = Means-comment (note_line r) _ [] _ (note_line-IsComment r h.symbol) (
    rw read_y at
      (Means-set r.proposal.config (str "y") _ [] [] h.symbol (Means-blank [] [] [] Means-none)))

pub Means-demote :
    (r : ReviewedProposal) → IsPlain r → Means (demote_lines r) [] ((symbol_of r, str "m") ∷ [])
Means-demote r h = Means-comment (note_line r) _ [] _ (note_line-IsComment r h.symbol) (
    rw read_m at
      (Means-set r.proposal.config (str "m") _ [] [] h.symbol (Means-blank [] [] [] Means-none)))

pub Means-disable :
    (r : ReviewedProposal) → IsPlain r → Means (disable_lines r) (symbol_of r ∷ []) []
Means-disable r h =
    Means-comment (note_line r) _ _ [] (note_line-IsComment r h.symbol)
      (Means-unset r.proposal.config _ [] [] h.symbol (Means-blank [] [] [] Means-none))

-- What an other proposal assigns.
abbrev pub assigned : ReviewedProposal → Str × Str
assigned r = (r.proposal.config, read_back r.proposal.config (strip r.proposal.proposed_value))

abbrev pub to_list {ℓ} : {A : Type ℓ} → Option A → List A
to_list none = []
to_list (some a) = a ∷ []

old_symbol-IsSymbol :
    (config current old : Str) → old_symbol config current ≡ some old → IsSymbol old
unfolding old_symbol
old_symbol-IsSymbol config current old h = (short_symbol current, ground arith, ground arith)

pub previous-IsSymbol :
    (r : ReviewedProposal) (old : Str) → previous_choice_symbol r ≡ some old → IsSymbol old
unfolding previous_choice_symbol
previous-IsSymbol r old h =
    old_symbol-IsSymbol r.proposal.config (strip r.proposal.current_value) old (ground arith)

Means-optional :
    (o : Option Str) (lines : List Str) (kvs : List (Str × Str))
    → ((s : Str) → o ≡ some s → IsSymbol s)
    → Means lines [] kvs
    → Means (optional_unset o ++ lines) (to_list o) kvs
Means-optional none lines kvs i h = h
Means-optional (some s) lines kvs i h = Means-unset s lines [] kvs (i s refl) h

pub Means-other :
    (r : ReviewedProposal)
    → IsPlain r
    → Means (other_lines r) (to_list (previous_choice_symbol r)) (assigned r ∷ [])
unfolding format_assignment
Means-other r h = Means-comment (note_line r) _ _ _ (note_line-IsComment r h.symbol) (
    Means-optional (previous_choice_symbol r) _ _ (previous-IsSymbol r) (
      rw (rendered-reads r.proposal.config r.proposal.proposed_value) at (
        Means-set r.proposal.config (rendered r.proposal.config (strip r.proposal.proposed_value)) _
          [] [] h.symbol (Means-blank [] [] [] Means-none))))

-- All that a function gives, joined.
abbrev pub joined {ℓ κ} : {A : Type ℓ} {B : Type κ} → (A → List B) → List A → List B
joined f [] = []
joined f (x ∷ xs) = f x ++ joined f xs

module _ (lines : ReviewedProposal → List Str) (ds : ReviewedProposal → List Str)
    (kvs : ReviewedProposal → List (Str × Str))
    (h : (r : ReviewedProposal) → IsPlain r → Means (lines r) (ds r) (kvs r)) where
  Means-entries :
      (rs : List ReviewedProposal)
      → All IsPlain rs
      → Means (entries lines rs) (joined ds rs) (joined kvs rs)
  unfolding entries
  Means-entries [] p = Means-none
  Means-entries (r ∷ rs) p =
      Means-append (lines r) (entries lines rs) (ds r) (joined ds rs) (kvs r) (joined kvs rs)
        (h r p.0) (Means-entries rs p.1)

  -- A section amounts to its entries, under a title that is a comment.
  pub Means-section :
      (title : Str) (rs : List ReviewedProposal)
      → IsComment title
      → All IsPlain rs
      → Means (section title lines rs) (joined ds rs) (joined kvs rs)
  Means-section title [] c p = Means-none
  Means-section title (r ∷ rs) c p =
      Means-comment title (entries lines (r ∷ rs)) _ _ c (Means-entries (r ∷ rs) p)

joined-nil {ℓ κ} : {A : Type ℓ} {B : Type κ} (xs : List A) → joined {B = B} (λ x. []) xs ≡ []
joined-nil [] = refl
joined-nil (x ∷ xs) = joined-nil xs

module _ (title : Str) (rs : List ReviewedProposal) (c : IsComment title) (p : All IsPlain rs) where
  pub Means-enables :
      Means (section title enable_lines rs) [] (joined (λ r. (symbol_of r, str "y") ∷ []) rs)
  Means-enables =
      rw (joined-nil {B = Str} rs) at
        (Means-section enable_lines (λ r. []) _ Means-enable title rs c p)

  pub Means-demotes :
      Means (section title demote_lines rs) [] (joined (λ r. (symbol_of r, str "m") ∷ []) rs)
  Means-demotes =
      rw (joined-nil {B = Str} rs) at
        (Means-section demote_lines (λ r. []) _ Means-demote title rs c p)

  pub Means-disables : Means (section title disable_lines rs) (joined (λ r. symbol_of r ∷ []) rs) []
  Means-disables =
      rw (joined-nil {B = Str × Str} rs) at
        (Means-section disable_lines (λ r. symbol_of r ∷ []) (λ r. []) Means-disable title rs c p)
