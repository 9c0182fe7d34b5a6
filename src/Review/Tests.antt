-- ===== src/Review/Tests.antt =====
-- Runs of the review rules, and their theorems at concrete inputs.
use mathlib.Core.List.{Perm}
use autokernel.Base.{◌≡◌, refl, true, false, [], ◌∷◌, str, All, map, member}
use autokernel.Base.Glob.{fnmatchcase}
use autokernel.Models.{by_policy, risk_eq}
use autokernel.Samples.{drops}
use autokernel.Subsystem.{classify}
use autokernel.Review.{
  apply_rules, matches, choose, preset_accept_recommended, preset_accept_low_risk,
  preset_accept_deterministic, reject_subsystems_rule,
}
use autokernel.Review.Laws.{IsReviewed, apply_rules-IsReviewed}
use autokernel.Review.Partition.{all_proposals, apply_rules-perm}
use autokernel.Review.Presets.{reject_subsystems_veto}

globs :
    (fnmatchcase (str "CONFIG_DRM_I915") (str "CONFIG_DRM_*") ≡ true)
    × (fnmatchcase (str "CONFIG_FB") (str "CONFIG_DRM_*") ≡ false)
    × (fnmatchcase (str "EXT4") (str "EXT[2-4]") ≡ true)
    × (fnmatchcase (str "EXT1") (str "EXT[!2-4]") ≡ true)
    × (fnmatchcase (str "a[b") (str "?[b") ≡ true)
unfolding fnmatchcase
globs = (refl, refl, refl, refl, refl)

recommended :
    map
      (λ rp. rp.proposal.config)
      (apply_rules drops preset_accept_recommended (str "p") by_policy).accepted
    ≡ str "CONFIG_EXT4_FS" ∷ str "CONFIG_XFS_FS" ∷ []
unfolding apply_rules choose matches preset_accept_recommended risk_eq
recommended = refl

apply_rules-IsReviewed_example :
    IsReviewed preset_accept_low_risk by_policy
      (apply_rules drops preset_accept_low_risk (str "p") by_policy)
apply_rules-IsReviewed_example =
    apply_rules-IsReviewed drops preset_accept_low_risk (str "p") by_policy

apply_rules-perm_example :
    Perm (all_proposals (apply_rules drops preset_accept_deterministic (str "p") by_policy)) drops
apply_rules-perm_example = apply_rules-perm drops preset_accept_deterministic (str "p") by_policy

reject_subsystems_veto_example :
    All
      (λ rp. member (classify rp.proposal.config) (str "crypto" ∷ []) ≡ false)
      (apply_rules drops
        (reject_subsystems_rule (str "crypto" ∷ []) ∷ preset_accept_deterministic)
        (str "p")
        by_policy).accepted
reject_subsystems_veto_example =
    reject_subsystems_veto (str "crypto" ∷ []) preset_accept_deterministic drops (str "p") by_policy
