-- ===== src/Patches/Tests.antt =====
-- Two sets of patches, loaded, tried and applied to a small tree.
use autokernel.Base.{
  lookup, true, false, [], ◌∷◌, none, some, Str, str, ◌≡◌, refl, List, same, member, if◌then◌else◌,
}
use autokernel.Base.Space.{splitlines, is_break}
use autokernel.Patches.Version.{KernelVersion, version_text, parse_version}
use autokernel.Patches.Version.RoundTrip.{parse_version-version_text}
use autokernel.Patches.Sets.{PatchSet, RawMeta, toml_text}
use autokernel.Patches.Config.{merged_config, clashing, apply_config, read_have, config_mismatches}
use autokernel.Patches.Config.Merged.{IsUnion, wishes, merged_config-IsUnion}
use autokernel.Patches.Config.Applied.{config_mismatches-apply_config}
use autokernel.Kfrag.Format.{is_word}
use autokernel.Kfrag.Parser.{is_symbol_char}
use autokernel.Merge.Lines.{later}
use autokernel.Patches.Process.{Git, taken, refused, process, patch_subject}
use autokernel.Patches.Process.Apply.{WorkTree}
use autokernel.Patches.Process.Apply.Outcomes.{dry, process-dry}

abbrev rc6 : KernelVersion
rc6 = record { major = 7; minor = 3; sub = 0; rc = some 6 }

abbrev release : KernelVersion
release = record { major = 7; minor = 3; sub = 1; rc = none }

abbrev raw : RawMeta
raw = record {
  kind = str "backport";
  description = [];
  patches =
      (str "0002-b.patch", record { status = str "posted"; link = []; upstream_subject = [] }) ∷ [];
  config = (str "X", toml_text (str "n")) ∷ [];
  min_version = str "7.3-rc1";
  max_version = [];
}

abbrev series : Str
series = str "0001-a.patch # first\n\n0002-b.patch\n"

abbrev fix : PatchSet
fix = record {
  name = str "fix";
  description = [];
  kind = str "backport";
  patches = str "0001-a.patch" ∷ str "0002-b.patch" ∷ [];
  meta = [];
  min_version = some rc6;
  max_version = none;
  config = [];
}

-- The tree is the list of the patches that are in; the second one does not apply to it.
abbrev git : Git (List Str)
git = record {
  series_present = λ tree patches. false;
  reverse_applies = λ tree p. member p tree;
  am = λ tree p.
      if same p (str "0002-b.patch")
      then refused (str "error: patch failed") tree
      else taken (p ∷ tree);
  patch_text = λ p. str "From: a\nSubject: [PATCH 1/2] mm:\n fix it\nDate: b\n";
  sha256 = λ p. p;
}

abbrev work : WorkTree (List Str)
work = record {
  is_work_tree = λ tree. true;
  tracked_changes = λ tree. [];
  source_version = λ tree. some release;
  head = λ tree. str "abc";
  symbolic_ref = λ tree. some (str "main");
  checkout_branch = λ branch base tree. some tree;
  checkout = λ ref tree. [];
  delete_branch = λ branch tree. tree;
}

subject_test : patch_subject (git.patch_text []) ≡ str "mm: fix it"
unfolding patch_subject
subject_test = refl

parse_version-version_text_example : parse_version (version_text rc6) ≡ some rc6
parse_version-version_text_example = parse_version-version_text rc6

process-dry_example : process git true (fix ∷ []) [] ≡ dry git (process git false (fix ∷ []) [])
process-dry_example = process-dry git (fix ∷ []) []

abbrev other : PatchSet
other = record fix { name = str "other"; config = (str "CONFIG_X", str "y") ∷ [] }

abbrev fixed : PatchSet
fixed = record fix { config = (str "CONFIG_X", str "n") ∷ [] }

merged_config-IsUnion_example :
    IsUnion (wishes (fixed ∷ other ∷ [])) (merged_config (fixed ∷ other ∷ []))
merged_config-IsUnion_example = merged_config-IsUnion (fixed ∷ other ∷ [])

clash_test :
    merged_config (fixed ∷ other ∷ [])
    ≡ clashing (record {
      symbol = str "CONFIG_X";
      first_set = str "fix";
      first_value = str "n";
      second_set = str "other";
      second_value = str "y";
    })
unfolding merged_config same
clash_test = refl

abbrev text : Str
text = str "CONFIG_X=y\nCONFIG_Z=m\n"

config_mismatches-apply_config_example :
    (lookup (str "CONFIG_Z") (read_have (splitlines (apply_config text fixed.config)) [])
      ≡ later
          (lookup (str "CONFIG_Z") fixed.config)
          (lookup (str "CONFIG_Z") (read_have (splitlines text) [])))
    × (config_mismatches (apply_config text fixed.config) fixed.config ≡ [])
unfolding is_word is_symbol_char is_break
config_mismatches-apply_config_example =
    config_mismatches-apply_config (str "CONFIG_Z") text fixed.config
      ((str "X", refl, refl), (refl, tt), refl, tt)
