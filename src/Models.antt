-- ===== src/Models.antt =====
-- src/autokernel/models.py: the parts of a snapshot that the policy reads, and the proposal records.
-- A path is its text. A confidence is a float in [0, 1], which is a whole number of 2^-1074ths.
use autokernel.Base.{ℕ, ◌^◌, ◌≤◌, ◌≡◌, ◌↔◌, Bool, true, false, List, Option, Str, arith}

pub record Mount : Type 0 where
  pub source : Str
  pub target : Str
  pub fstype : Str
  pub options : Str

pub record NetworkLink : Type 0 where
  pub name : Str
  pub driver : Option Str
  pub operstate : Option Str
  pub is_active : Bool

pub record SoftwareFeature : Type 0 where
  pub feature : Str
  pub source : Str
  pub name : Str
  pub detail : Option Str

-- `Snapshot`, less the fields that only the collectors and the resolver read. `running_config` is
-- the parsed content of the file at `running_config_path`.
pub record Snapshot : Type 0 where
  pub arch : Str
  pub vendor_id : Str
  pub efi : Bool
  pub luks_in_chain : Bool
  pub mounts : List Mount
  pub network : List NetworkLink
  pub software_features : List SoftwareFeature
  pub running_config : List (Str × Str)

pub data RiskLevel : Type 0 where
  low medium high : RiskLevel

pub data ProposalSource : Type 0 where
  deterministic microarch llm user choice toggle tunable : ProposalSource

pub data ReviewDecision : Type 0 where
  accept reject defer : ReviewDecision

pub data Reviewer : Type 0 where
  by_user by_claude by_policy : Reviewer

pub record RemovalProposal : Type 0 where
  pub config : Str
  pub current_value : Str
  pub proposed_value : Str
  pub reason : Str
  pub risk : RiskLevel
  pub confidence : ℕ
  pub source : ProposalSource
  pub evidence : List Str

pub record ReviewedProposal : Type 0 where
  pub proposal : RemovalProposal
  pub decision : ReviewDecision
  pub reviewer : Reviewer
  pub rule : Option Str
  pub note : Option Str

pub record ReviewSet : Type 0 where
  pub base_diff_path : Str
  pub accepted : List ReviewedProposal
  pub rejected : List ReviewedProposal
  pub deferred : List ReviewedProposal

pub record ConfigDiff : Type 0 where
  pub base_config_path : Str
  pub autonomy : Str
  pub auto_applied : List RemovalProposal
  pub needs_review : List RemovalProposal
  pub blocked : List (RemovalProposal × Str)
  pub annotations : List RemovalProposal
  pub not_considered : List Str

-- Equality of the enumerations, as `==` and `in` compare them.
unfoldable pub risk_eq : RiskLevel → RiskLevel → Bool
risk_eq low low = true
risk_eq medium medium = true
risk_eq high high = true
risk_eq _ _ = false

unfoldable pub source_eq : ProposalSource → ProposalSource → Bool
source_eq deterministic deterministic = true
source_eq microarch microarch = true
source_eq llm llm = true
source_eq user user = true
source_eq choice choice = true
source_eq toggle toggle = true
source_eq tunable tunable = true
source_eq _ _ = false

unfoldable pub decision_eq : ReviewDecision → ReviewDecision → Bool
decision_eq accept accept = true
decision_eq reject reject = true
decision_eq defer defer = true
decision_eq _ _ = false

pub decision_eq_iff : (a b : ReviewDecision) → (decision_eq a b ≡ true) ↔ (a ≡ b)
unfolding decision_eq
decision_eq_iff a b = ground arith

pub risk_eq_iff : (a b : RiskLevel) → (risk_eq a b ≡ true) ↔ (a ≡ b)
unfolding risk_eq
risk_eq_iff a b = ground arith

pub source_eq_iff : (a b : ProposalSource) → (source_eq a b ≡ true) ↔ (a ≡ b)
unfolding source_eq
source_eq_iff a b = ground arith

-- The float literal 1.0, the largest confidence that the models accept.
abbrev pub one : ℕ
one = 2 ^ 1074

-- The range that `Field(ge=0.0, le=1.0)` enforces.
abbrev pub HasConfidence : RemovalProposal → Type 0
HasConfidence p = p.confidence ≤ one
