-- ===== src/Kfrag/Writer.antt =====
-- `write_kfrag` of src/autokernel/kfrag.py: the text that it writes and the header that it returns.
-- The resolved snapshot directory and the time are given.
use autokernel.Base.{
  ℕ, not, List, [], ◌∷◌, ◌++◌, Option, none, some, Str, str, keep, length, member, same, join,
}
use autokernel.Base.Decimal.{decimal}
use autokernel.Models.{ReviewedProposal, ReviewSet, accept, decision_eq}
use autokernel.Kfrag.Format.{comment_for, format_assignment, previous_choice_symbol}

pub record KfragHeader : Type 0 where
  pub schema_version : ℕ
  pub snapshot_dir : Str
  pub autonomy : Str
  pub model : Option Str
  pub service_tier : Option Str
  pub timestamp : Str
  pub n_disable : ℕ
  pub n_demote : ℕ
  pub n_enable : ℕ
  pub n_other : ℕ

-- The lines of one accepted proposal.
abbrev pub note_line : ReviewedProposal → Str
note_line r = str "# " ++ (r.proposal.config ++ (str ": " ++ comment_for r))

abbrev pub unset_line : Str → Str
unset_line symbol = str "# " ++ (symbol ++ str " is not set")

abbrev pub set_line : Str → Str → Str
set_line symbol value = symbol ++ (b'=' ∷ value)

abbrev pub optional_unset : Option Str → List Str
optional_unset none = []
optional_unset (some symbol) = unset_line symbol ∷ []

abbrev pub enable_lines : ReviewedProposal → List Str
enable_lines r = note_line r ∷ set_line r.proposal.config (str "y") ∷ [] ∷ []

abbrev pub disable_lines : ReviewedProposal → List Str
disable_lines r = note_line r ∷ unset_line r.proposal.config ∷ [] ∷ []

abbrev pub demote_lines : ReviewedProposal → List Str
demote_lines r = note_line r ∷ set_line r.proposal.config (str "m") ∷ [] ∷ []

abbrev pub other_lines : ReviewedProposal → List Str
other_lines r =
    note_line r ∷ optional_unset (previous_choice_symbol r)
    ++ format_assignment r.proposal.config r.proposal.proposed_value ∷ [] ∷ []

unfoldable pub entries : (ReviewedProposal → List Str) → List ReviewedProposal → List Str
entries f [] = []
entries f (r ∷ rs) = f r ++ entries f rs

-- `if rs:` the title and the entries
abbrev pub section : Str → (ReviewedProposal → List Str) → List ReviewedProposal → List Str
section title f [] = []
section title f (r ∷ rs) = title ∷ entries f (r ∷ rs)

-- `if value: lines.append(...)`
abbrev pub optional_line : Str → Option Str → List Str
optional_line label none = []
optional_line label (some []) = []
optional_line label (some (c ∷ s)) = (label ++ c ∷ s) ∷ []

unfoldable pub header_lines : KfragHeader → ℕ → ℕ → List Str
header_lines h rejected deferred =
    (str "# autokernel-kfrag schema=" ++ decimal h.schema_version)
      ∷ (str "# generated: " ++ h.timestamp)
      ∷ (str "# snapshot:  " ++ h.snapshot_dir)
      ∷ (str "# autonomy:  " ++ h.autonomy)
      ∷ optional_line (str "# model:     ") h.model
    ++ (optional_line (str "# tier:      ") h.service_tier
        ++ (str "# enables:   " ++ decimal h.n_enable)
          ∷ (str "# disables:  " ++ decimal h.n_disable)
          ∷ (str "# demotions: " ++ decimal h.n_demote)
          ∷ (str "# other:     " ++ (decimal h.n_other ++ str " (choices/toggles/tunables)"))
          ∷ (str "# rejected:  " ++ (decimal rejected ++ str " (kept at current value)"))
          ∷ (str "# deferred:  "
              ++ (decimal deferred ++ str " (no decision; current value preserved)"))
          ∷ str "#"
          ∷ str "# Apply with:  scripts/kconfig/merge_config.sh -m .config <this-file>"
          ∷ str "#              make olddefconfig"
          ∷ []
          ∷ [])

-- The accepted proposals, by their proposed value.
abbrev pub accepted_of : ReviewSet → List ReviewedProposal
accepted_of rs = keep (λ r. decision_eq r.decision accept) rs.accepted

abbrev pub proposing : Str → ReviewSet → List ReviewedProposal
proposing value rs = keep (λ r. same r.proposal.proposed_value value) (accepted_of rs)

abbrev pub others_of : ReviewSet → List ReviewedProposal
others_of rs =
    keep (λ r. not (member r.proposal.proposed_value (str "y" ∷ str "n" ∷ str "m" ∷ [])))
      (accepted_of rs)

-- What the caller and the clock give.
pub record Provenance : Type 0 where
  pub snapshot_dir : Str
  pub autonomy : Str
  pub model : Option Str
  pub service_tier : Option Str
  pub timestamp : Str

abbrev pub header_of : ReviewSet → Provenance → KfragHeader
header_of rs given = record {
  schema_version = 1;
  snapshot_dir = given.snapshot_dir;
  autonomy = given.autonomy;
  model = given.model;
  service_tier = given.service_tier;
  timestamp = given.timestamp;
  n_disable = length (proposing (str "n") rs);
  n_demote = length (proposing (str "m") rs);
  n_enable = length (proposing (str "y") rs);
  n_other = length (others_of rs);
}

abbrev pub enables_title : Str
enables_title = str "# ── enables (tuning) ─────────────────────────────────"

abbrev pub disables_title : Str
disables_title = str "# ── disables ─────────────────────────────────────────"

abbrev pub demotions_title : Str
demotions_title = str "# ── demotions (built-in → module) ────────────────────"

abbrev pub others_title : Str
others_title = str "# ── choices / toggles / tunables ─────────────────────"

unfoldable pub kfrag_lines : ReviewSet → Provenance → List Str
unfolding header_lines entries
kfrag_lines rs given =
    header_lines (header_of rs given) (length rs.rejected) (length rs.deferred)
    ++ (section enables_title enable_lines (proposing (str "y") rs)
        ++ (section disables_title disable_lines (proposing (str "n") rs)
            ++ (section demotions_title demote_lines (proposing (str "m") rs)
                ++ section others_title other_lines (others_of rs))))

-- The text that is written and the header that is returned.
unfoldable pub write_kfrag : ReviewSet → Provenance → Str × KfragHeader
write_kfrag rs given = (join (b'\n' ∷ []) (kfrag_lines rs given), header_of rs given)
