-- ===== src/Resolve.antt =====
-- src/autokernel/resolve.py: the result that the resolver hands to the policy, and its table of
-- filesystem drivers.
use autokernel.Base.{List, [], ◌∷◌, Str, str, Option}

-- A set is the list of its elements, in the order in which it is walked.
pub record ResolutionResult : Type 0 where
  pub required_modules : List Str
  pub required_configs : List Str
  pub evidence : List (Str × List Str)
  pub module_to_config : List (Str × Option Str)
  pub unresolved_modules : List Str
  pub unresolved_modaliases : List Str

unfoldable pub fs_to_config : List (Str × List Str)
fs_to_config =
    (str "ext4", str "CONFIG_EXT4_FS" ∷ [])
    ∷ (str "ext3", str "CONFIG_EXT4_FS" ∷ [])
    ∷ (str "ext2", str "CONFIG_EXT2_FS" ∷ str "CONFIG_EXT4_FS" ∷ [])
    ∷ (str "xfs", str "CONFIG_XFS_FS" ∷ [])
    ∷ (str "btrfs", str "CONFIG_BTRFS_FS" ∷ [])
    ∷ (str "f2fs", str "CONFIG_F2FS_FS" ∷ [])
    ∷ (str "vfat", str "CONFIG_VFAT_FS" ∷ str "CONFIG_FAT_FS" ∷ [])
    ∷ (str "fat", str "CONFIG_FAT_FS" ∷ [])
    ∷ (str "msdos", str "CONFIG_MSDOS_FS" ∷ str "CONFIG_FAT_FS" ∷ [])
    ∷ (str "exfat", str "CONFIG_EXFAT_FS" ∷ [])
    ∷ (str "ntfs3", str "CONFIG_NTFS3_FS" ∷ [])
    ∷ (str "ntfs", str "CONFIG_NTFS3_FS" ∷ str "CONFIG_NTFS_FS" ∷ [])
    ∷ (str "iso9660", str "CONFIG_ISO9660_FS" ∷ [])
    ∷ (str "udf", str "CONFIG_UDF_FS" ∷ [])
    ∷ (str "squashfs", str "CONFIG_SQUASHFS" ∷ [])
    ∷ (str "overlay", str "CONFIG_OVERLAY_FS" ∷ [])
    ∷ (str "tmpfs", str "CONFIG_TMPFS" ∷ [])
    ∷ (str "proc", str "CONFIG_PROC_FS" ∷ [])
    ∷ (str "sysfs", str "CONFIG_SYSFS" ∷ [])
    ∷ (str "devtmpfs", str "CONFIG_DEVTMPFS" ∷ [])
    ∷ (str "cgroup2", str "CONFIG_CGROUPS" ∷ [])
    ∷ (str "cgroup", str "CONFIG_CGROUPS" ∷ [])
    ∷ (str "fuse", str "CONFIG_FUSE_FS" ∷ [])
    ∷ (str "bpf", str "CONFIG_BPF_SYSCALL" ∷ [])
    ∷ (str "binfmt_misc", str "CONFIG_BINFMT_MISC" ∷ [])
    ∷ (str "autofs", str "CONFIG_AUTOFS_FS" ∷ [])
    ∷ (str "nfs", str "CONFIG_NFS_FS" ∷ [])
    ∷ (str "nfs4", str "CONFIG_NFS_V4" ∷ [])
    ∷ (str "cifs", str "CONFIG_CIFS" ∷ [])
    ∷ (str "smb3", str "CONFIG_CIFS" ∷ [])
    ∷ (str "ceph", str "CONFIG_CEPH_FS" ∷ [])
    ∷ (str "9p", str "CONFIG_9P_FS" ∷ str "CONFIG_NET_9P" ∷ [])
    ∷ (str "zfs", str "CONFIG_ZFS" ∷ [])
    ∷ []
