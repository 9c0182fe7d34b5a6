-- ===== src/Subsystem/Rules/Devices.antt =====
-- Rules of src/autokernel/subsystem.py, on the symbol without `CONFIG_`.
use autokernel.Base.{true, false, [], ◌∷◌, str}
use autokernel.Subsystem.Regex.{RuleTable, word, last, lit, one_of, group, maybe, stop}

unfoldable pub device_rules : RuleTable
device_rules =
    (
      str "network",
      (true, lit (str "NET") ∷ group (last (str "") ∷ word (str "_") ∷ []) ∷ [])
          ∷ (true, lit (str "INET") ∷ stop ∷ [])
          ∷ (true, lit (str "INET6") ∷ stop ∷ [])
          ∷ (true, lit (str "IP_") ∷ [])
          ∷ (true, lit (str "IPV6") ∷ [])
          ∷ (true, lit (str "TCP_") ∷ [])
          ∷ (true, lit (str "UDP_") ∷ [])
          ∷ (true, lit (str "NETFILTER") ∷ [])
          ∷ (true, lit (str "NF_") ∷ [])
          ∷ (true, lit (str "NETLINK") ∷ [])
          ∷ (true, lit (str "BRIDGE") ∷ [])
          ∷ (true, lit (str "VLAN_") ∷ [])
          ∷ (true, lit (str "BONDING") ∷ [])
          ∷ (true, lit (str "VETH") ∷ [])
          ∷ (true, lit (str "TUN") ∷ stop ∷ [])
          ∷ (true, lit (str "WIREGUARD") ∷ [])
          ∷ (true, lit (str "OPENVSWITCH") ∷ [])
          ∷ (true, lit (str "GENEVE") ∷ [])
          ∷ (true, lit (str "VXLAN") ∷ [])
          ∷ (true, lit (str "MACVLAN") ∷ [])
          ∷ (true, lit (str "MACVTAP") ∷ [])
          ∷ (true, lit (str "IPVLAN") ∷ [])
          ∷ (true, lit (str "MACSEC") ∷ [])
          ∷ (true, lit (str "L2TP") ∷ [])
          ∷ (true, lit (str "PPP") ∷ [])
          ∷ (true, lit (str "SLIP") ∷ [])
          ∷ (true, lit (str "MAC_PARTITION") ∷ stop ∷ [])
          ∷ (true, lit (str "PHYLIB") ∷ stop ∷ [])
          ∷ (true, lit (str "MDIO") ∷ [])
          ∷ (true, lit (str "MII") ∷ stop ∷ [])
          ∷ (true, lit (str "DUMMY") ∷ stop ∷ [])
          ∷ [],
    )
    ∷ (
      str "fs",
      (false, lit (str "_FS") ∷ stop ∷ [])
          ∷ (true, lit (str "FUSE") ∷ [])
          ∷ (true, lit (str "OVERLAY") ∷ [])
          ∷ (true, lit (str "SQUASHFS") ∷ [])
          ∷ (true, lit (str "NFS") ∷ [])
          ∷ (true, lit (str "CIFS") ∷ [])
          ∷ (true, lit (str "CEPH") ∷ [])
          ∷ (true, lit (str "BTRFS") ∷ [])
          ∷ (true, lit (str "EXT") ∷ one_of (str "234") ∷ [])
          ∷ (true, lit (str "XFS") ∷ [])
          ∷ (true, lit (str "F2FS") ∷ [])
          ∷ (true, lit (str "NTFS") ∷ [])
          ∷ (true, lit (str "EXFAT") ∷ [])
          ∷ (true, lit (str "ISO9660") ∷ [])
          ∷ (true, lit (str "UDF") ∷ [])
          ∷ (true, lit (str "MSDOS") ∷ [])
          ∷ (true, lit (str "VFAT") ∷ [])
          ∷ (true, lit (str "FAT_FS") ∷ stop ∷ [])
          ∷ (true, lit (str "AUTOFS") ∷ [])
          ∷ (true, lit (str "9P_FS") ∷ [])
          ∷ (true, lit (str "ZFS") ∷ [])
          ∷ (true, lit (str "EROFS") ∷ [])
          ∷ (true, lit (str "BCACHEFS") ∷ [])
          ∷ (true, lit (str "GFS2") ∷ [])
          ∷ (true, lit (str "OCFS2") ∷ [])
          ∷ (true, lit (str "DLM") ∷ stop ∷ [])
          ∷ (true, lit (str "QUOTA") ∷ [])
          ∷ (true, lit (str "FANOTIFY") ∷ [])
          ∷ (true, lit (str "INOTIFY") ∷ [])
          ∷ (true, lit (str "DNOTIFY") ∷ [])
          ∷ (true, lit (str "FSCACHE") ∷ [])
          ∷ (true, lit (str "CACHEFILES") ∷ [])
          ∷ [],
    )
    ∷ (str "binfmt", (true, lit (str "BINFMT") ∷ []) ∷ [])
    ∷ (str "nvme", (true, lit (str "NVME") ∷ []) ∷ (true, lit (str "BLK_DEV_NVME") ∷ []) ∷ [])
    ∷ (
      str "scsi",
      (true, lit (str "SCSI") ∷ [])
          ∷ (true, lit (str "SATA") ∷ [])
          ∷ (true, lit (str "PATA") ∷ [])
          ∷ (true, lit (str "ATA") ∷ group (last (str "") ∷ word (str "_") ∷ []) ∷ [])
          ∷ [],
    )
    ∷ (
      str "block",
      (true, lit (str "BLK_DEV") ∷ [])
          ∷ (true, lit (str "DM_") ∷ [])
          ∷ (true, lit (str "MD_") ∷ [])
          ∷ (true, lit (str "BCACHE") ∷ group (last (str "") ∷ word (str "_") ∷ []) ∷ [])
          ∷ (true, lit (str "IOSCHED") ∷ [])
          ∷ (true, lit (str "MQ_IOSCHED") ∷ [])
          ∷ [],
    )
    ∷ (str "mmc", (true, lit (str "MMC") ∷ []) ∷ [])
    ∷ (str "mtd", (true, lit (str "MTD") ∷ []) ∷ [])
    ∷ (str "usb", (true, lit (str "USB") ∷ []) ∷ [])
    ∷ (str "i2c", (true, lit (str "I2C") ∷ []) ∷ [])
    ∷ (str "spi", (true, lit (str "SPI") ∷ []) ∷ [])
    ∷ (str "gpio", (true, lit (str "GPIO") ∷ []) ∷ [])
    ∷ (str "pinctrl", (true, lit (str "PINCTRL") ∷ []) ∷ [])
    ∷ (str "clk", (true, lit (str "COMMON_CLK") ∷ []) ∷ (true, lit (str "CLK_") ∷ []) ∷ [])
    ∷ (
      str "iommu",
      (true, lit (str "INTEL_IOMMU") ∷ [])
          ∷ (true, lit (str "AMD_IOMMU") ∷ [])
          ∷ (true, lit (str "IOMMU") ∷ [])
          ∷ (false, lit (str "_IOMMU") ∷ stop ∷ [])
          ∷ [],
    )
    ∷ (
      str "dma",
      (true, lit (str "DMA") ∷ maybe (str "DEVICES") ∷ stop ∷ [])
          ∷ (true, lit (str "DMAENGINE") ∷ [])
          ∷ (false, lit (str "_DMAC") ∷ stop ∷ [])
          ∷ (true, lit (str "INTEL_IDXD") ∷ [])
          ∷ [],
    )
    ∷ (
      str "pci",
      (true, lit (str "PCI") ∷ group (last (str "") ∷ word (str "_") ∷ []) ∷ [])
          ∷ (true, lit (str "PCIE") ∷ [])
          ∷ (true, lit (str "PCIEPORTBUS") ∷ [])
          ∷ (
            true,
            lit (str "PCIE")
                ∷ group (word (str "AER") ∷ word (str "PME") ∷ word (str "ASPM") ∷ [])
                ∷ [],
          )
          ∷ [],
    )
    ∷ (str "serial", (true, lit (str "SERIAL") ∷ []) ∷ [])
    ∷ (
      str "platform-x86",
      (true, lit (str "DELL") ∷ [])
          ∷ (true, lit (str "X86_PLATFORM") ∷ [])
          ∷ (true, lit (str "THINKPAD") ∷ [])
          ∷ (true, lit (str "IDEAPAD") ∷ [])
          ∷ (true, lit (str "ASUS") ∷ [])
          ∷ (true, lit (str "ACER") ∷ [])
          ∷ (true, lit (str "HP_WMI") ∷ [])
          ∷ (true, lit (str "HP_ACCEL") ∷ [])
          ∷ (true, lit (str "MSI_LAPTOP") ∷ [])
          ∷ (true, lit (str "TOSHIBA") ∷ [])
          ∷ (true, lit (str "FUJITSU") ∷ [])
          ∷ (
            true,
            lit (str "INTEL_")
                ∷ group (
                    word (str "MENU")
                    ∷ word (str "HID")
                    ∷ word (str "VBTN")
                    ∷ word (str "WMI")
                    ∷ word (str "RST")
                    ∷ word (str "ATOM")
                    ∷ word (str "PUNIT")
                    ∷ word (str "TURBO")
                    ∷ word (str "UNCORE")
                    ∷ word (str "TELEMETRY")
                    ∷ word (str "PMC")
                    ∷ word (str "PMT")
                    ∷ word (str "ISH")
                    ∷ word (str "IPS")
                    ∷ word (str "SCU")
                    ∷ word (str "SOC")
                    ∷ word (str "VSEC")
                    ∷ word (str "SPEED")
                    ∷ word (str "SDSI")
                    ∷ [])
                ∷ [],
          )
          ∷ (true, lit (str "AMD_PMC") ∷ [])
          ∷ (true, lit (str "AMD_HSMP") ∷ [])
          ∷ (true, lit (str "AMD_PMF") ∷ [])
          ∷ [],
    )
    ∷ []
