-- ===== src/Policy/Tests.antt =====
-- Runs of the policy on a small host, and its theorems at them.
use mathlib.Core.List.{Perm}
use autokernel.Base.{◌≡◌, refl, false, [], ◌∷◌, str, All, same, map}
use autokernel.Samples.{drops, laptop, resolved}
use autokernel.Resolve.{fs_to_config}
use autokernel.Models.{risk_eq, source_eq}
use autokernel.Policy.Blocklists.{hard_blocklist, arch_blocklist}
use autokernel.Policy.LoadBearing.{
  contains, is_boot_target, add_mounts, add_boot, add_luks, add_links, add_microcode, add_btf,
  add_unresolved, compute_load_bearing,
}
use autokernel.Policy.LoadBearing.Exact.{is_protected}
use autokernel.Policy.Apply.{auto_safe, auto_bold, apply_policy}
use autokernel.Policy.Apply.Partition.{all_buckets, apply_policy-perm}
use autokernel.Policy.Apply.Levels.{IsCleared, apply_policy-IsCleared, apply_policy-keeps_host}

-- On the laptop, auto-bold applies the XFS drop, blocks the ext4 drop and leaves the risky one.
laptop_bold :
    (map
        (λ p. p.config)
        (apply_policy drops auto_bold (compute_load_bearing laptop resolved)).auto_applied
      ≡ str "CONFIG_XFS_FS" ∷ [])
    × (map (λ b. b.1) (apply_policy drops auto_bold (compute_load_bearing laptop resolved)).blocked
        ≡ str "load-bearing: / is ext4" ∷ [])
unfolding apply_policy compute_load_bearing contains add_mounts add_boot add_luks add_links
    add_microcode add_btf add_unresolved hard_blocklist arch_blocklist fs_to_config is_boot_target
    same risk_eq source_eq
laptop_bold = (refl, refl)

apply_policy-perm_example :
    Perm (all_buckets (apply_policy drops auto_safe (compute_load_bearing laptop resolved))) drops
apply_policy-perm_example = apply_policy-perm drops auto_safe (compute_load_bearing laptop resolved)

apply_policy-IsCleared_example :
    All
      (IsCleared auto_bold (compute_load_bearing laptop resolved))
      (apply_policy drops auto_bold (compute_load_bearing laptop resolved)).auto_applied
apply_policy-IsCleared_example =
    apply_policy-IsCleared drops auto_bold (compute_load_bearing laptop resolved)

apply_policy-keeps_host_example :
    All
      (λ p. is_protected laptop resolved p.config ≡ false)
      (apply_policy drops auto_bold (compute_load_bearing laptop resolved)).auto_applied
apply_policy-keeps_host_example = apply_policy-keeps_host drops auto_bold laptop resolved
