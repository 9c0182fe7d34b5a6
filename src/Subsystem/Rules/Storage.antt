-- ===== src/Subsystem/Rules/Storage.antt =====
-- Rules of src/autokernel/subsystem.py, on the symbol without `CONFIG_`.
use autokernel.Base.{true, [], ◌∷◌, str}
use autokernel.Subsystem.Regex.{RuleTable, word, last, lit, group, maybe, stop}

unfoldable pub storage_rules : RuleTable
storage_rules =
    (
      str "debug",
      (true, lit (str "DEBUG") ∷ [])
          ∷ (true, lit (str "FTRACE") ∷ [])
          ∷ (true, lit (str "TRACE") ∷ [])
          ∷ (true, lit (str "DYNAMIC_DEBUG") ∷ [])
          ∷ (true, lit (str "GDB_SCRIPTS") ∷ [])
          ∷ (true, lit (str "KPROBES") ∷ [])
          ∷ (true, lit (str "FUNCTION_TRACER") ∷ [])
          ∷ (true, lit (str "STACKTRACE") ∷ [])
          ∷ (true, lit (str "LOCK_STAT") ∷ [])
          ∷ (true, lit (str "LOCKDEP") ∷ [])
          ∷ (true, lit (str "PROVE_") ∷ [])
          ∷ (true, lit (str "FAULT_INJECTION") ∷ [])
          ∷ (true, lit (str "MAGIC_SYSRQ") ∷ [])
          ∷ [],
    )
    ∷ (str "bpf", (true, lit (str "BPF") ∷ []) ∷ (true, lit (str "XDP_SOCKETS") ∷ []) ∷ [])
    ∷ (str "kvm", (true, lit (str "KVM") ∷ []) ∷ (true, lit (str "VHOST") ∷ []) ∷ [])
    ∷ (str "virtio", (true, lit (str "VIRTIO") ∷ []) ∷ [])
    ∷ (str "xen", (true, lit (str "XEN") ∷ []) ∷ (true, lit (str "PARAVIRT") ∷ []) ∷ [])
    ∷ (
      str "pm",
      (true, lit (str "PM") ∷ group (last (str "") ∷ word (str "_") ∷ []) ∷ [])
          ∷ (true, lit (str "SUSPEND") ∷ [])
          ∷ (true, lit (str "HIBERNATION") ∷ [])
          ∷ (true, lit (str "PM_AUTOSLEEP") ∷ stop ∷ [])
          ∷ (true, lit (str "PM_WAKELOCKS") ∷ stop ∷ [])
          ∷ [],
    )
    ∷ (str "acpi", (true, lit (str "ACPI") ∷ []) ∷ [])
    ∷ (
      str "gpu",
      (true, lit (str "DRM") ∷ [])
          ∷ (true, lit (str "FB") ∷ group (last (str "") ∷ word (str "_") ∷ []) ∷ [])
          ∷ (true, lit (str "AGP") ∷ [])
          ∷ (true, lit (str "I915") ∷ stop ∷ [])
          ∷ (true, lit (str "VGA_ARB") ∷ [])
          ∷ (true, lit (str "FRAMEBUFFER_CONSOLE") ∷ [])
          ∷ (true, lit (str "BACKLIGHT_CLASS_DEVICE") ∷ stop ∷ [])
          ∷ (true, lit (str "LCD_CLASS_DEVICE") ∷ stop ∷ [])
          ∷ [],
    )
    ∷ (str "sound", (true, lit (str "SND") ∷ []) ∷ (true, lit (str "SOUND") ∷ stop ∷ []) ∷ [])
    ∷ (
      str "input",
      (true, lit (str "INPUT") ∷ [])
          ∷ (true, lit (str "KEYBOARD") ∷ [])
          ∷ (true, lit (str "MOUSE") ∷ [])
          ∷ (true, lit (str "TOUCHSCREEN") ∷ [])
          ∷ (true, lit (str "JOYSTICK") ∷ [])
          ∷ (true, lit (str "HID") ∷ [])
          ∷ (true, lit (str "SERIO") ∷ [])
          ∷ (true, lit (str "EVDEV") ∷ [])
          ∷ (true, lit (str "GAMEPORT") ∷ [])
          ∷ [],
    )
    ∷ (
      str "bluetooth",
      (true, lit (str "BT") ∷ group (last (str "") ∷ word (str "_") ∷ []) ∷ []) ∷ [],
    )
    ∷ (
      str "wireless",
      (true, lit (str "CFG80211") ∷ [])
          ∷ (true, lit (str "MAC80211") ∷ [])
          ∷ (true, lit (str "IEEE80211") ∷ [])
          ∷ (true, lit (str "RFKILL") ∷ [])
          ∷ (true, lit (str "WIRELESS_EXT") ∷ [])
          ∷ [],
    )
    ∷ (
      str "wifi-driver",
      (true, lit (str "IWLWIFI") ∷ [])
          ∷ (true, lit (str "IWLMVM") ∷ [])
          ∷ (true, lit (str "IWLDVM") ∷ [])
          ∷ (
            true,
            lit (str "ATH")
                ∷ group (
                    word (str "5")
                    ∷ word (str "6")
                    ∷ word (str "9")
                    ∷ word (str "10")
                    ∷ word (str "11")
                    ∷ word (str "12")
                    ∷ [])
                ∷ lit (str "K")
                ∷ [],
          )
          ∷ (true, lit (str "RTL8") ∷ [])
          ∷ (true, lit (str "RT2X") ∷ [])
          ∷ (true, lit (str "BRCM") ∷ [])
          ∷ (true, lit (str "MWIFIEX") ∷ [])
          ∷ (true, lit (str "MT76") ∷ [])
          ∷ (true, lit (str "MT") ∷ maybe (str "79") ∷ lit (str "21") ∷ [])
          ∷ [],
    )
    ∷ (
      str "eth-driver",
      (true, lit (str "R8169") ∷ stop ∷ [])
          ∷ (true, lit (str "R8152") ∷ stop ∷ [])
          ∷ (true, lit (str "E1000") ∷ [])
          ∷ (true, lit (str "IGB") ∷ group (last (str "") ∷ word (str "_") ∷ []) ∷ [])
          ∷ (true, lit (str "IGC") ∷ [])
          ∷ (true, lit (str "IXGBE") ∷ [])
          ∷ (true, lit (str "TG3") ∷ [])
          ∷ (true, lit (str "BNX2") ∷ [])
          ∷ (true, lit (str "MLX") ∷ [])
          ∷ (true, lit (str "I40E") ∷ [])
          ∷ (true, lit (str "ICE") ∷ group (last (str "") ∷ word (str "_") ∷ []) ∷ [])
          ∷ (true, lit (str "ENA") ∷ stop ∷ [])
          ∷ (true, lit (str "FM10K") ∷ [])
          ∷ [],
    )
    ∷ []
