-- ===== src/Kfrag/OneLines.antt =====
-- Each line of a written fragment is one line of its text.
use autokernel.Base.{
  ◌%◌, ◌/◌, if◌then◌else◌, ℕ, Bool, true, false, not, ◌&&◌, List, [], ◌∷◌, ◌++◌, Option, none, some,
  Str, str, ◌≡◌, refl, arith, All, All-append, all, same,
}
use autokernel.Base.Space.{is_space, is_break, drop_left, drop_right, strip, OneLine}
use autokernel.Base.Decimal.{decimal, decimal-OneLine, is_break-digit}
use autokernel.Models.{ReviewedProposal, ProposalSource, RiskLevel}
use autokernel.Kfrag.Writer.{
  note_line, unset_line, set_line, enable_lines, disable_lines, demote_lines, other_lines,
  optional_unset, entries, section,
}
use autokernel.Kfrag.Format.{
  fixed2, hundredths, source_value, risk_value, previous_choice_symbol, rendered, format_assignment,
  comment_for, is_word, is_number, is_quoted, short_symbol,
}
use autokernel.Kfrag.Lines.{IsSymbol, OneLine-word}
use autokernel.Kfrag.Sections.{IsPlain, previous-IsSymbol}

pub OneLine-append : (s t : Str) → OneLine s → OneLine t → OneLine (s ++ t)
OneLine-append s t = All-append _ s t

-- A constant is checked by computing.
pub OneLine-all : (s : Str) → all (λ c. not (is_break c)) s ≡ true → OneLine s
OneLine-all [] h = tt
OneLine-all (c ∷ s) h = (ground arith, OneLine-all s (ground arith))

pub if-OneLine : (b : Bool) (s t : Str) → OneLine s → OneLine t → OneLine (if b then s else t)
if-OneLine true s t hs ht = hs
if-OneLine false s t hs ht = ht

config_prefix : OneLine (str "CONFIG_")
unfolding is_break
config_prefix = OneLine-all (str "CONFIG_") refl

module _ (p : ℕ → Bool) where
  pub OneLine-drop_left : (s : Str) → OneLine s → OneLine (drop_left p s)
  unfolding drop_left
  OneLine-drop_left [] h = tt
  OneLine-drop_left (c ∷ s) h = if-OneLine (p c) _ _ (OneLine-drop_left s h.1) h

  pub OneLine-drop_right : (s : Str) → OneLine s → OneLine (drop_right p s)
  unfolding drop_right
  OneLine-drop_right [] h = tt
  OneLine-drop_right (c ∷ s) h =
      if-OneLine _ [] (c ∷ drop_right p s) tt (h.0, OneLine-drop_right s h.1)

pub OneLine-strip : (s : Str) → OneLine s → OneLine (strip s)
OneLine-strip s h = OneLine-drop_left is_space _ (OneLine-drop_right is_space s h)

IsSymbol-OneLine : (s : Str) → IsSymbol s → OneLine s
unfolding is_word
IsSymbol-OneLine s (w, e, h) =
    rw e (OneLine-append (str "CONFIG_") w config_prefix (OneLine-word w (ground arith)))

rendered-OneLine : (symbol v : Str) → OneLine v → OneLine (rendered symbol v)
unfolding rendered is_break
rendered-OneLine symbol v h =
    let marked : OneLine (b'"' ∷ (v ++ b'"' ∷ [])) =
      (refl, OneLine-append v (b'"' ∷ []) h (refl, tt)) in
    if-OneLine (same v (short_symbol symbol)) (str "y") _ (refl, tt)
      (if-OneLine (is_number v) v _ h (if-OneLine (is_quoted v) v _ h marked))

fixed2-OneLine : (c : ℕ) → OneLine (fixed2 c)
unfolding fixed2 is_break
fixed2-OneLine c =
    OneLine-append (decimal (hundredths c / 100)) _ (decimal-OneLine (hundredths c / 100)) (
      refl,
      (
        is_break-digit ((hundredths c / 10) % 10) (omega arith),
        (is_break-digit (hundredths c % 10) (omega arith), tt),
      ),
    )

-- The same as a Boolean, which is proved by computing.
abbrev pub no_break : Str → Bool
no_break = all (λ c. not (is_break c))

pub no_break-append : (s t : Str) → no_break (s ++ t) ≡ (no_break s && no_break t)
no_break-append [] t = refl
no_break-append (c ∷ s) t = ground (arith, no_break-append s t)

pub no_break-of : (s : Str) → OneLine s → no_break s ≡ true
no_break-of [] h = refl
no_break-of (c ∷ s) h = ground (arith, h.0, no_break-of s h.1)

no_break-source : (x : ProposalSource) → no_break (source_value x) ≡ true
unfolding is_break
no_break-source x = ground arith

no_break-risk : (x : RiskLevel) → no_break (risk_value x) ≡ true
unfolding is_break
no_break-risk x = ground arith

module _ (r : ReviewedProposal) (h : IsPlain r) where
  pub note_line-OneLine : OneLine (note_line r)
  unfolding comment_for is_break
  note_line-OneLine = OneLine-all (note_line r) (
      simp (
        no_break-append,
        no_break-source r.proposal.source,
        no_break-risk r.proposal.risk,
        no_break-of _ (fixed2-OneLine r.proposal.confidence),
        no_break-of _ h.rule,
        no_break-of _ h.reason,
        no_break-of _ (IsSymbol-OneLine _ h.symbol),
      ))

pub unset_line-OneLine : (s : Str) → IsSymbol s → OneLine (unset_line s)
unfolding is_break
unset_line-OneLine s i =
    OneLine-all (unset_line s) (simp (no_break-append, no_break-of s (IsSymbol-OneLine s i)))

pub set_line-OneLine : (s v : Str) → IsSymbol s → OneLine v → OneLine (set_line s v)
unfolding is_break
set_line-OneLine s v i h =
    OneLine-all (set_line s v)
      (simp (no_break-append, no_break-of s (IsSymbol-OneLine s i), no_break-of v h))

yes : OneLine (str "y")
unfolding is_break
yes = (refl, tt)

as_module : OneLine (str "m")
unfolding is_break
as_module = (refl, tt)

optional_unset-OneLine :
    (o : Option Str) → ((s : Str) → o ≡ some s → IsSymbol s) → All OneLine (optional_unset o)
optional_unset-OneLine none i = tt
optional_unset-OneLine (some s) i = (unset_line-OneLine s (i s refl), tt)

module _ (r : ReviewedProposal) (h : IsPlain r) where
  pub enable_lines-OneLine : All OneLine (enable_lines r)
  enable_lines-OneLine =
      (note_line-OneLine r h, (set_line-OneLine r.proposal.config (str "y") h.symbol yes, (tt, tt)))

  pub demote_lines-OneLine : All OneLine (demote_lines r)
  demote_lines-OneLine = (
    note_line-OneLine r h,
    (set_line-OneLine r.proposal.config (str "m") h.symbol as_module, (tt, tt)),
  )

  pub disable_lines-OneLine : All OneLine (disable_lines r)
  disable_lines-OneLine =
      (note_line-OneLine r h, (unset_line-OneLine r.proposal.config h.symbol, (tt, tt)))

  pub other_lines-OneLine : All OneLine (other_lines r)
  unfolding format_assignment
  other_lines-OneLine =
      let v =
        rendered-OneLine r.proposal.config (strip r.proposal.proposed_value)
          (OneLine-strip r.proposal.proposed_value h.value) in
      (
        note_line-OneLine r h,
        All-append OneLine (optional_unset (previous_choice_symbol r)) _
            (optional_unset-OneLine (previous_choice_symbol r) (previous-IsSymbol r))
            (
              set_line-OneLine r.proposal.config
                  (rendered r.proposal.config (strip r.proposal.proposed_value)) h.symbol v,
              (tt, tt),
            ),
      )

module _ (lines : ReviewedProposal → List Str)
    (h : (r : ReviewedProposal) → IsPlain r → All OneLine (lines r)) where
  entries-OneLine : (rs : List ReviewedProposal) → All IsPlain rs → All OneLine (entries lines rs)
  unfolding entries
  entries-OneLine [] p = tt
  entries-OneLine (r ∷ rs) p = All-append OneLine (lines r) _ (h r p.0) (entries-OneLine rs p.1)

  pub section-OneLine :
      (title : Str) (rs : List ReviewedProposal)
      → OneLine title
      → All IsPlain rs
      → All OneLine (section title lines rs)
  section-OneLine title [] t p = tt
  section-OneLine title (r ∷ rs) t p = (t, entries-OneLine (r ∷ rs) p)
