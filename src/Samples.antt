-- ===== src/Samples.antt =====
-- Small inputs for the tests: proposals on a laptop with an ext4 root and an Intel CPU.
use autokernel.Base.{true, false, [], ◌∷◌, List, none, some, Str, str}
use autokernel.Models.{
  Snapshot, RiskLevel, low, high, ProposalSource, deterministic, llm, RemovalProposal,
  ReviewedProposal, ReviewSet, Reviewer, by_claude, by_policy, ReviewDecision, accept, defer, one,
}
use autokernel.Resolve.{ResolutionResult}

abbrev pub proposal : Str → RiskLevel → ProposalSource → RemovalProposal
proposal config risk source = record {
  config = config;
  current_value = str "y";
  proposed_value = str "n";
  reason = str "unused";
  risk = risk;
  confidence = one;
  source = source;
  evidence = [];
}

abbrev pub drop_ext4 : RemovalProposal
drop_ext4 = proposal (str "CONFIG_EXT4_FS") low llm

abbrev pub drop_xfs : RemovalProposal
drop_xfs = proposal (str "CONFIG_XFS_FS") low llm

abbrev pub drop_aes : RemovalProposal
drop_aes = proposal (str "CONFIG_CRYPTO_AES") high deterministic

abbrev pub drops : List RemovalProposal
drops = drop_ext4 ∷ drop_xfs ∷ drop_aes ∷ []

abbrev pub laptop : Snapshot
laptop = record {
  arch = str "x86_64";
  vendor_id = str "GenuineIntel";
  efi = true;
  luks_in_chain = false;
  mounts =
      record { source = str "/dev/sda1"; target = str "/"; fstype = str "ext4"; options = [] } ∷ [];
  network =
      record { name = str "eth0"; driver = some (str "e1000e"); operstate = none; is_active = true }
      ∷ [];
  software_features = [];
  running_config = [];
}

abbrev pub resolved : ResolutionResult
resolved = record {
  required_modules = str "e1000e" ∷ [];
  required_configs = str "CONFIG_FW_LOADER" ∷ [];
  evidence = [];
  module_to_config = (str "e1000e", some (str "CONFIG_E1000E")) ∷ [];
  unresolved_modules = str "snd-hda" ∷ [];
  unresolved_modaliases = [];
}

abbrev pub reviewed_by : Reviewer → ReviewDecision → RemovalProposal → ReviewedProposal
reviewed_by who d p = record {
  proposal = p;
  decision = d;
  reviewer = who;
  rule = some (str "bulk");
  note = some (str "seen");
}

abbrev pub review : ReviewSet
review = record {
  base_diff_path = str "proposal.json";
  accepted = reviewed_by by_claude accept drop_xfs ∷ [];
  rejected = [];
  deferred = reviewed_by by_policy defer drop_aes ∷ reviewed_by by_policy defer drop_ext4 ∷ [];
}
