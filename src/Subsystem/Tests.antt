-- ===== src/Subsystem/Tests.antt =====
-- Symbols and their subsystems.
use autokernel.Base.{◌≡◌, refl, [], ◌∷◌, str, keep, same}
use autokernel.Subsystem.Rules.{arch_rules, storage_rules, device_rules, rest_rules}
use autokernel.Subsystem.{
  search_pattern, first_rule, bare_name, rules_def, classify, group_by_subsystem,
}
use autokernel.Subsystem.Laws.{bucket, group_by_subsystem-bucket}

some_classes :
    (classify (str "CONFIG_X86_INTEL_PSTATE") ≡ str "cpufreq")
    × (classify (str "CONFIG_X86_64") ≡ str "arch")
    × (classify (str "ARM64") ≡ str "arch")
    × (classify (str "CONFIG_NO_SUCH_THING") ≡ str "misc")
unfolding classify first_rule bare_name rules_def arch_rules storage_rules device_rules rest_rules
    search_pattern
some_classes = (refl, refl, refl, refl)

group_by_subsystem-bucket_example :
    bucket (str "arch") (group_by_subsystem (str "CONFIG_SMP" ∷ str "CONFIG_EXT4_FS" ∷ []))
    ≡ keep (λ s. same (str "arch") (classify s)) (str "CONFIG_SMP" ∷ str "CONFIG_EXT4_FS" ∷ [])
group_by_subsystem-bucket_example =
    group_by_subsystem-bucket (str "arch") (str "CONFIG_SMP" ∷ str "CONFIG_EXT4_FS" ∷ [])
