-- ===== src/Policy/Blocklists.antt =====
-- The blocklists of src/autokernel/policy.py.
use autokernel.Base.{List, [], ◌∷◌, Str, str}

unfoldable pub hard_blocklist : List Str
hard_blocklist =
    str "CONFIG_PRINTK"
    ∷ str "CONFIG_TTY"
    ∷ str "CONFIG_VT"
    ∷ str "CONFIG_VT_CONSOLE"
    ∷ str "CONFIG_UNIX98_PTYS"
    ∷ str "CONFIG_DEVTMPFS"
    ∷ str "CONFIG_DEVTMPFS_MOUNT"
    ∷ str "CONFIG_TMPFS"
    ∷ str "CONFIG_PROC_FS"
    ∷ str "CONFIG_SYSFS"
    ∷ str "CONFIG_FUTEX"
    ∷ str "CONFIG_EPOLL"
    ∷ str "CONFIG_SIGNALFD"
    ∷ str "CONFIG_TIMERFD"
    ∷ str "CONFIG_EVENTFD"
    ∷ str "CONFIG_BLOCK"
    ∷ str "CONFIG_MULTIUSER"
    ∷ str "CONFIG_PRINTK_SAFE_LOG_BUF_SHIFT"
    ∷ str "CONFIG_BLK_DEV_INITRD"
    ∷ str "CONFIG_RD_GZIP"
    ∷ str "CONFIG_RD_LZ4"
    ∷ str "CONFIG_RD_ZSTD"
    ∷ str "CONFIG_MMU"
    ∷ str "CONFIG_SWAP"
    ∷ str "CONFIG_SHMEM"
    ∷ str "CONFIG_CGROUPS"
    ∷ str "CONFIG_CGROUP_SCHED"
    ∷ str "CONFIG_CGROUP_CPUACCT"
    ∷ str "CONFIG_CGROUP_MEMORY"
    ∷ str "CONFIG_CGROUP_PIDS"
    ∷ str "CONFIG_CGROUP_FREEZER"
    ∷ str "CONFIG_CGROUP_DEVICE"
    ∷ str "CONFIG_MODULES"
    ∷ str "CONFIG_MODULE_UNLOAD"
    ∷ str "CONFIG_HW_RANDOM"
    ∷ []

unfoldable pub arch_blocklist : List (Str × List Str)
arch_blocklist =
    (
      str "x86_64",
      str "CONFIG_64BIT" ∷ str "CONFIG_X86_64" ∷ str "CONFIG_X86" ∷ str "CONFIG_SMP" ∷ [],
    )
    ∷ (str "aarch64", str "CONFIG_64BIT" ∷ str "CONFIG_ARM64" ∷ str "CONFIG_SMP" ∷ [])
    ∷ (str "armv7l", str "CONFIG_ARM" ∷ str "CONFIG_SMP" ∷ [])
    ∷ (str "ppc64le", str "CONFIG_PPC64" ∷ str "CONFIG_PPC" ∷ str "CONFIG_SMP" ∷ [])
    ∷ (str "riscv64", str "CONFIG_64BIT" ∷ str "CONFIG_RISCV" ∷ str "CONFIG_SMP" ∷ [])
    ∷ []

abbrev pub btf_load_bearing : List Str
btf_load_bearing =
    str "CONFIG_DEBUG_INFO_BTF"
    ∷ str "CONFIG_DEBUG_INFO_NONE"
    ∷ str "CONFIG_DEBUG_INFO_REDUCED"
    ∷ str "CONFIG_DEBUG_INFO_SPLIT"
    ∷ []
