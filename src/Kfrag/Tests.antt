-- ===== src/Kfrag/Tests.antt =====
-- A small fragment, written and read back.
use autokernel.Base.{not, all, true, [], ◌∷◌, ◌++◌, List, none, some, Str, str, ◌≡◌, refl, All}
use autokernel.Base.{same, strip_prefix}
use autokernel.Base.Space.{drop_left, drop_right, is_space, is_break}
use autokernel.Models.{decision_eq, source_eq}
use autokernel.Kfrag.Parser.{is_symbol_char}
use autokernel.Kfrag.Format.{previous_choice_symbol, old_symbol, is_word}
use autokernel.Base.Dict.{set_all}
use autokernel.Models.{
  ReviewSet, ReviewedProposal, RemovalProposal, low, llm, choice, accept, by_user,
}
use autokernel.Samples.{proposal, reviewed_by, drop_xfs}
use autokernel.Kfrag.Parser.{parse_kfrag}
use autokernel.Kfrag.Writer.{Provenance, write_kfrag, accepted_of, unset_line}
use autokernel.Kfrag.Injection.{enabling, accepting_one, disables-write_kfrag}
use autokernel.Kfrag.Lines.{IsSymbol}
use autokernel.Base.Space.{OneLine}
use autokernel.Kfrag.Sections.{IsPlain}
use autokernel.Kfrag.OneLines.{OneLine-all}
use autokernel.Kfrag.RoundTrip.{unsets, sets, parse_kfrag-write_kfrag}
use autokernel.Kfrag.Header.{IsPlainProvenance}

abbrev given : Provenance
given = record {
  snapshot_dir = str "/tmp/snap";
  autonomy = str "advise";
  model = some (str "claude");
  service_tier = none;
  timestamp = str "2026-01-01T00:00:00+00:00";
}

abbrev preempt : RemovalProposal
preempt = record (proposal (str "CONFIG_PREEMPT") low choice) {
  current_value = str "PREEMPT_VOLUNTARY";
  proposed_value = str "PREEMPT";
}

abbrev name : RemovalProposal
name = record (proposal (str "CONFIG_LOCALVERSION") low llm) { proposed_value = str " -custom" }

abbrev accepted_all : List RemovalProposal → List ReviewedProposal
accepted_all [] = []
accepted_all (p ∷ ps) = reviewed_by by_user accept p ∷ accepted_all ps

abbrev accepting : List RemovalProposal → ReviewSet
accepting ps = record {
  base_diff_path = str "proposal.json";
  accepted = accepted_all ps;
  rejected = [];
  deferred = [];
}

abbrev three : ReviewSet
three = accepting (drop_xfs ∷ preempt ∷ name ∷ [])

three-unsets : unsets three ≡ str "CONFIG_XFS_FS" ∷ str "CONFIG_PREEMPT_VOLUNTARY" ∷ []
unfolding previous_choice_symbol old_symbol drop_left drop_right is_space source_eq is_word same
    is_symbol_char strip_prefix decision_eq
three-unsets = refl

three-sets :
    sets three ≡ (str "CONFIG_PREEMPT", str "y") ∷ (str "CONFIG_LOCALVERSION", str "-custom") ∷ []
unfolding drop_left drop_right is_space same strip_prefix decision_eq
three-sets = refl

given-IsPlainProvenance : IsPlainProvenance given
unfolding is_break
given-IsPlainProvenance = record {
  snapshot_dir = OneLine-all given.snapshot_dir refl;
  autonomy = OneLine-all given.autonomy refl;
  model = OneLine-all (str "claude") refl;
  service_tier = tt;
  timestamp = OneLine-all given.timestamp refl;
}

-- A proposal is plain by computing.
computed-IsPlain :
    (p : RemovalProposal) (w : Str)
    → p.config ≡ str "CONFIG_" ++ w
    → is_word w ≡ true
    → all (λ c. not (is_break c)) p.proposed_value ≡ true
    → all (λ c. not (is_break c)) p.reason ≡ true
    → IsPlain (reviewed_by by_user accept p)
unfolding is_break
computed-IsPlain p w e h v r = record {
  symbol = (w, e, h);
  value = OneLine-all p.proposed_value v;
  reason = OneLine-all p.reason r;
  rule = OneLine-all (str "bulk") refl;
}

three-IsPlain : All IsPlain (accepted_of three)
unfolding is_break is_word is_symbol_char decision_eq
three-IsPlain = (
  computed-IsPlain drop_xfs (str "XFS_FS") refl refl refl refl,
  (
    computed-IsPlain preempt (str "PREEMPT") refl refl refl refl,
    (computed-IsPlain name (str "LOCALVERSION") refl refl refl refl, tt),
  ),
)

parse_kfrag-write_kfrag_example :
    ((parse_kfrag (write_kfrag three given).0).disables ≡ unsets three)
    × ((parse_kfrag (write_kfrag three given).0).assignments ≡ set_all (sets three) [])
parse_kfrag-write_kfrag_example =
    parse_kfrag-write_kfrag three given three-IsPlain given-IsPlainProvenance

xfs-IsSymbol : IsSymbol (str "CONFIG_XFS_FS")
unfolding is_word is_symbol_char
xfs-IsSymbol = (str "XFS_FS", refl, refl)

ext4-IsSymbol : IsSymbol (str "CONFIG_EXT4_FS")
unfolding is_word is_symbol_char
ext4-IsSymbol = (str "EXT4_FS", refl, refl)

unused-OneLine : OneLine (str "unused")
unfolding is_break
unused-OneLine = OneLine-all (str "unused") refl

disables-write_kfrag_example :
    (parse_kfrag
      (write_kfrag
        (accepting_one
          (enabling (str "CONFIG_XFS_FS") (str "unused" ++ 10 ∷ unset_line (str "CONFIG_EXT4_FS"))))
        given).0).disables
    ≡ str "CONFIG_EXT4_FS" ∷ []
disables-write_kfrag_example =
    disables-write_kfrag (str "CONFIG_XFS_FS") (str "unused") (str "CONFIG_EXT4_FS") given
      xfs-IsSymbol ext4-IsSymbol unused-OneLine given-IsPlainProvenance
