-- ===== src/Subsystem/Rules/Arch.antt =====
-- Rules of src/autokernel/subsystem.py, on the symbol without `CONFIG_`.
use autokernel.Base.{true, [], ◌∷◌, str}
use autokernel.Subsystem.Regex.{RuleTable, word, last, lit, group, stop}

unfoldable pub arch_rules : RuleTable
arch_rules =
    (
      str "cpufreq",
      (true, lit (str "CPU_FREQ") ∷ [])
          ∷ (true, lit (str "X86_INTEL_PSTATE") ∷ [])
          ∷ (true, lit (str "X86_AMD_PSTATE") ∷ [])
          ∷ (true, lit (str "X86_AMD_FREQ") ∷ [])
          ∷ (true, lit (str "X86_AMD_PLATFORM_DEVICE") ∷ stop ∷ [])
          ∷ (true, lit (str "X86_POWERNOW") ∷ [])
          ∷ [],
    )
    ∷ (
      str "cpuidle",
      (true, lit (str "CPU_IDLE") ∷ [])
          ∷ (true, lit (str "INTEL_IDLE") ∷ [])
          ∷ (true, lit (str "ACPI_PROCESSOR_IDLE") ∷ [])
          ∷ [],
    )
    ∷ (str "microcode", (true, lit (str "MICROCODE") ∷ []) ∷ [])
    ∷ (
      str "arch",
      (true, lit (str "X86") ∷ group (last (str "") ∷ word (str "_") ∷ []) ∷ [])
          ∷ (true, lit (str "64BIT") ∷ stop ∷ [])
          ∷ (true, lit (str "SMP") ∷ stop ∷ [])
          ∷ (
            true,
            lit (str "ARM") ∷ group (last (str "") ∷ last (str "64") ∷ word (str "_") ∷ []) ∷ [],
          )
          ∷ (true, lit (str "RISCV") ∷ [])
          ∷ (true, lit (str "PPC") ∷ [])
          ∷ (true, lit (str "MIPS") ∷ [])
          ∷ [],
    )
    ∷ (
      str "arch",
      (true, lit (str "IA32_EMULATION") ∷ stop ∷ [])
          ∷ (true, lit (str "COMPAT_") ∷ [])
          ∷ (true, lit (str "X32_ABI") ∷ stop ∷ [])
          ∷ [],
    )
    ∷ (
      str "boot",
      (true, lit (str "EFI") ∷ group (last (str "") ∷ word (str "_") ∷ []) ∷ [])
          ∷ (true, lit (str "BLK_DEV_INITRD") ∷ stop ∷ [])
          ∷ (
            true,
            lit (str "RD_")
                ∷ group (
                    word (str "GZIP")
                    ∷ word (str "LZ4")
                    ∷ word (str "ZSTD")
                    ∷ word (str "XZ")
                    ∷ word (str "LZMA")
                    ∷ word (str "LZO")
                    ∷ word (str "BZIP2")
                    ∷ [])
                ∷ stop
                ∷ [],
          )
          ∷ (true, lit (str "BOOT") ∷ [])
          ∷ (true, lit (str "CMDLINE") ∷ [])
          ∷ (true, lit (str "DMI") ∷ [])
          ∷ [],
    )
    ∷ (
      str "core",
      (true, lit (str "PRINTK") ∷ [])
          ∷ (true, lit (str "TTY") ∷ stop ∷ [])
          ∷ (true, lit (str "VT") ∷ group (last (str "") ∷ word (str "_") ∷ []) ∷ [])
          ∷ (true, lit (str "UNIX98_PTYS") ∷ stop ∷ [])
          ∷ (true, lit (str "DEVTMPFS") ∷ [])
          ∷ (true, lit (str "TMPFS") ∷ [])
          ∷ (true, lit (str "PROC_FS") ∷ stop ∷ [])
          ∷ (true, lit (str "SYSFS") ∷ stop ∷ [])
          ∷ (true, lit (str "FUTEX") ∷ [])
          ∷ (true, lit (str "EPOLL") ∷ [])
          ∷ (true, lit (str "SIGNALFD") ∷ [])
          ∷ (true, lit (str "TIMERFD") ∷ [])
          ∷ (true, lit (str "EVENTFD") ∷ [])
          ∷ (true, lit (str "BLOCK") ∷ stop ∷ [])
          ∷ (true, lit (str "MULTIUSER") ∷ stop ∷ [])
          ∷ (true, lit (str "MODULES") ∷ stop ∷ [])
          ∷ (true, lit (str "MODULE_") ∷ [])
          ∷ (true, lit (str "MMU") ∷ stop ∷ [])
          ∷ (true, lit (str "SWAP") ∷ stop ∷ [])
          ∷ (true, lit (str "SHMEM") ∷ stop ∷ [])
          ∷ (true, lit (str "HW_RANDOM") ∷ group (last (str "") ∷ word (str "_") ∷ []) ∷ [])
          ∷ (true, lit (str "SYSVIPC") ∷ [])
          ∷ (true, lit (str "POSIX_MQUEUE") ∷ stop ∷ [])
          ∷ (true, lit (str "NAMESPACES") ∷ stop ∷ [])
          ∷ (true, lit (str "USER_NS") ∷ stop ∷ [])
          ∷ (true, lit (str "PID_NS") ∷ stop ∷ [])
          ∷ (true, lit (str "IPC_NS") ∷ stop ∷ [])
          ∷ (true, lit (str "UTS_NS") ∷ stop ∷ [])
          ∷ (true, lit (str "NET_NS") ∷ stop ∷ [])
          ∷ (true, lit (str "TIME_NS") ∷ stop ∷ [])
          ∷ (true, lit (str "CHECKPOINT_RESTORE") ∷ stop ∷ [])
          ∷ [],
    )
    ∷ (str "cgroups", (true, lit (str "CGROUP") ∷ []) ∷ (true, lit (str "MEMCG") ∷ []) ∷ [])
    ∷ (
      str "mm",
      (true, lit (str "TRANSPARENT_HUGEPAGE") ∷ [])
          ∷ (true, lit (str "HUGETLB") ∷ [])
          ∷ (true, lit (str "KSM") ∷ stop ∷ [])
          ∷ (true, lit (str "MEMORY_HOTPLUG") ∷ [])
          ∷ (true, lit (str "ZSWAP") ∷ [])
          ∷ (true, lit (str "ZRAM") ∷ [])
          ∷ (true, lit (str "SPARSEMEM") ∷ [])
          ∷ (true, lit (str "FLATMEM") ∷ [])
          ∷ (true, lit (str "NUMA") ∷ [])
          ∷ (true, lit (str "MEMORY_FAILURE") ∷ [])
          ∷ (true, lit (str "CMA") ∷ [])
          ∷ [],
    )
    ∷ (str "crypto", (true, lit (str "CRYPTO") ∷ []) ∷ [])
    ∷ (
      str "security",
      (true, lit (str "SECURITY") ∷ [])
          ∷ (true, lit (str "SELINUX") ∷ [])
          ∷ (true, lit (str "APPARMOR") ∷ [])
          ∷ (true, lit (str "SMACK") ∷ [])
          ∷ (true, lit (str "LSM") ∷ [])
          ∷ (true, lit (str "INTEGRITY") ∷ [])
          ∷ (true, lit (str "IMA") ∷ group (last (str "") ∷ word (str "_") ∷ []) ∷ [])
          ∷ (true, lit (str "EVM") ∷ [])
          ∷ (true, lit (str "AUDIT") ∷ [])
          ∷ (true, lit (str "FORTIFY_SOURCE") ∷ [])
          ∷ (true, lit (str "STACKPROTECTOR") ∷ [])
          ∷ [],
    )
    ∷ (
      str "kasan",
      (true, lit (str "KASAN") ∷ [])
          ∷ (true, lit (str "KMSAN") ∷ [])
          ∷ (true, lit (str "UBSAN") ∷ [])
          ∷ (true, lit (str "KFENCE") ∷ [])
          ∷ (true, lit (str "KCSAN") ∷ [])
          ∷ [],
    )
    ∷ []
