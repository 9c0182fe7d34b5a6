-- ===== src/KconfigMap/LaterPaths.antt =====
-- The second half of the path table of src/autokernel/kconfig_map.py.
use autokernel.Base.{List, [], ◌∷◌, Str, str}
use autokernel.KconfigMap.Pieces.{Template, lit, name, fsdir}

abbrev pub later_paths : List (Str × List Template)
later_paths =
    (
      str "drivers/bluetooth/",
      (lit (str "BT_HCIBTUSB_") ∷ name ∷ [])
          ∷ (lit (str "BT_") ∷ name ∷ [])
          ∷ (lit (str "BT_HCIBTUSB") ∷ [])
          ∷ [],
    )
    ∷ (str "drivers/leds/", (lit (str "LEDS_") ∷ name ∷ []) ∷ [])
    ∷ (str "drivers/rtc/", (lit (str "RTC_DRV_") ∷ name ∷ []) ∷ (lit (str "RTC_") ∷ name ∷ []) ∷ [])
    ∷ (str "drivers/regulator/", (lit (str "REGULATOR_") ∷ name ∷ []) ∷ [])
    ∷ (str "drivers/pwm/", (lit (str "PWM_") ∷ name ∷ []) ∷ [])
    ∷ (str "drivers/dma/idxd/", (lit (str "INTEL_IDXD") ∷ []) ∷ [])
    ∷ (
      str "drivers/dma/",
      (name ∷ lit (str "_DMAC") ∷ []) ∷ (name ∷ lit (str "_DMA") ∷ []) ∷ (name ∷ []) ∷ [],
    )
    ∷ (
      str "drivers/iommu/intel/",
      (lit (str "INTEL_IOMMU") ∷ []) ∷ (lit (str "INTEL_IOMMU_SVM") ∷ []) ∷ [],
    )
    ∷ (str "drivers/iommu/amd/", (lit (str "AMD_IOMMU") ∷ []) ∷ [])
    ∷ (str "drivers/iommu/", (name ∷ lit (str "_IOMMU") ∷ []) ∷ (name ∷ []) ∷ [])
    ∷ (str "drivers/edac/", (lit (str "EDAC_") ∷ name ∷ []) ∷ [])
    ∷ (str "drivers/firmware/efi/", (lit (str "EFI_") ∷ name ∷ []) ∷ (lit (str "EFI") ∷ []) ∷ [])
    ∷ (str "drivers/firmware/", (name ∷ []) ∷ (lit (str "FW_") ∷ name ∷ []) ∷ [])
    ∷ (str "drivers/extcon/", (lit (str "EXTCON_") ∷ name ∷ []) ∷ [])
    ∷ (str "drivers/cxl/", (lit (str "CXL_") ∷ name ∷ []) ∷ [])
    ∷ (str "drivers/perf/", (name ∷ []) ∷ [])
    ∷ (
      str "drivers/pinctrl/intel/",
      (lit (str "PINCTRL_INTEL") ∷ []) ∷ (lit (str "PINCTRL_") ∷ name ∷ []) ∷ [],
    )
    ∷ (str "drivers/pinctrl/", (lit (str "PINCTRL_") ∷ name ∷ []) ∷ [])
    ∷ (str "drivers/auxdisplay/", (lit (str "AUXDISPLAY") ∷ []) ∷ (name ∷ []) ∷ [])
    ∷ (
      str "drivers/mmc/host/",
      (lit (str "MMC_") ∷ name ∷ []) ∷ (lit (str "MMC_SDHCI_") ∷ name ∷ []) ∷ [],
    )
    ∷ (str "drivers/mmc/", (name ∷ []) ∷ [])
    ∷ (
      str "drivers/platform/x86/dell/",
      (lit (str "DELL_") ∷ name ∷ []) ∷ (name ∷ []) ∷ (lit (str "DELL_LAPTOP") ∷ []) ∷ [],
    )
    ∷ (str "drivers/platform/x86/intel/", (lit (str "INTEL_") ∷ name ∷ []) ∷ (name ∷ []) ∷ [])
    ∷ (str "drivers/platform/x86/amd/", (lit (str "AMD_") ∷ name ∷ []) ∷ (name ∷ []) ∷ [])
    ∷ (
      str "drivers/platform/x86/",
      (name ∷ []) ∷ (lit (str "X86_") ∷ name ∷ lit (str "_LAPTOP") ∷ []) ∷ [],
    )
    ∷ (str "drivers/platform/", (name ∷ []) ∷ [])
    ∷ (str "drivers/misc/eeprom/", (lit (str "EEPROM_") ∷ name ∷ []) ∷ [])
    ∷ (
      str "drivers/misc/mei/",
      (lit (str "INTEL_MEI") ∷ []) ∷ (lit (str "INTEL_MEI_") ∷ name ∷ []) ∷ [],
    )
    ∷ (str "drivers/misc/", (name ∷ []) ∷ [])
    ∷ (str "drivers/char/tpm/", (lit (str "TCG_") ∷ name ∷ []) ∷ (lit (str "TCG_TPM") ∷ []) ∷ [])
    ∷ (str "drivers/char/", (name ∷ []) ∷ [])
    ∷ (str "drivers/watchdog/", (name ∷ lit (str "_WDT") ∷ []) ∷ (name ∷ []) ∷ [])
    ∷ (str "drivers/infiniband/", (lit (str "INFINIBAND_") ∷ name ∷ []) ∷ (name ∷ []) ∷ [])
    ∷ (str "drivers/iio/", (name ∷ []) ∷ [])
    ∷ (
      str "drivers/media/cec/",
      (lit (str "CEC_CORE") ∷ []) ∷ (lit (str "MEDIA_CEC_SUPPORT") ∷ []) ∷ (name ∷ []) ∷ [],
    )
    ∷ (str "drivers/media/", (name ∷ []) ∷ (lit (str "MEDIA_") ∷ name ∷ []) ∷ [])
    ∷ (str "drivers/staging/", (name ∷ []) ∷ [])
    ∷ (str "drivers/crypto/", (lit (str "CRYPTO_DEV_") ∷ name ∷ []) ∷ (name ∷ []) ∷ [])
    ∷ (str "drivers/virtio/", (lit (str "VIRTIO_") ∷ name ∷ []) ∷ (name ∷ []) ∷ [])
    ∷ (str "drivers/cpufreq/", (name ∷ lit (str "_CPUFREQ") ∷ []) ∷ (name ∷ []) ∷ [])
    ∷ (str "drivers/cpuidle/", (lit (str "CPU_IDLE_GOV_") ∷ name ∷ []) ∷ (name ∷ []) ∷ [])
    ∷ (str "fs/nfsd/", (lit (str "NFSD") ∷ []) ∷ [])
    ∷ (str "fs/cifs/", (lit (str "CIFS") ∷ []) ∷ [])
    ∷ (str "fs/9p/", (lit (str "9P_FS") ∷ []) ∷ [])
    ∷ (str "fs/", (fsdir ∷ lit (str "_FS") ∷ []) ∷ (name ∷ lit (str "_FS") ∷ []) ∷ (name ∷ []) ∷ [])
    ∷ (str "net/wireguard/", (lit (str "WIREGUARD") ∷ []) ∷ [])
    ∷ (str "net/bluetooth/", (lit (str "BT") ∷ []) ∷ (lit (str "BT_") ∷ name ∷ []) ∷ [])
    ∷ (str "net/sched/", (lit (str "NET_SCH_") ∷ name ∷ []) ∷ [])
    ∷ (
      str "net/netfilter/",
      (lit (str "NETFILTER_") ∷ name ∷ []) ∷ (name ∷ []) ∷ (lit (str "NF_") ∷ name ∷ []) ∷ [],
    )
    ∷ (
      str "net/ipv4/netfilter/",
      (lit (str "IP_NF_") ∷ name ∷ []) ∷ (lit (str "NF_") ∷ name ∷ []) ∷ [],
    )
    ∷ (
      str "net/ipv6/netfilter/",
      (lit (str "IP6_NF_") ∷ name ∷ []) ∷ (lit (str "NF_") ∷ name ∷ []) ∷ [],
    )
    ∷ (str "net/", (name ∷ []) ∷ [])
    ∷ (str "crypto/", (lit (str "CRYPTO_") ∷ name ∷ []) ∷ (name ∷ []) ∷ [])
    ∷ (
      str "lib/crypto/",
      (lit (str "CRYPTO_LIB_") ∷ name ∷ []) ∷ (lit (str "CRYPTO_") ∷ name ∷ []) ∷ [],
    )
    ∷ (str "lib/", (name ∷ []) ∷ [])
    ∷ (str "arch/x86/kvm/", (lit (str "KVM_") ∷ name ∷ []) ∷ (lit (str "KVM") ∷ []) ∷ [])
    ∷ (
      str "arch/x86/crypto/",
      (lit (str "CRYPTO_") ∷ name ∷ []) ∷ (lit (str "CRYPTO_AES_NI_INTEL") ∷ []) ∷ [],
    )
    ∷ (
      str "arch/x86/events/intel/",
      (lit (str "PERF_EVENTS_INTEL_") ∷ name ∷ [])
          ∷ (lit (str "PERF_EVENTS_INTEL_UNCORE") ∷ [])
          ∷ [],
    )
    ∷ (str "arch/x86/events/", (name ∷ lit (str "_EVENTS") ∷ []) ∷ [])
    ∷ (str "arch/x86/platform/", (name ∷ []) ∷ [])
    ∷ (str "arch/x86/", (lit (str "X86_") ∷ name ∷ []) ∷ (name ∷ []) ∷ [])
    ∷ (str "arch/arm64/", (lit (str "ARM64_") ∷ name ∷ []) ∷ (name ∷ []) ∷ [])
    ∷ (str "arch/", (name ∷ []) ∷ [])
    ∷ (str "kernel/", (name ∷ []) ∷ [])
    ∷ []
