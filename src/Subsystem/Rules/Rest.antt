-- ===== src/Subsystem/Rules/Rest.antt =====
-- Rules of src/autokernel/subsystem.py, on the symbol without `CONFIG_`.
use autokernel.Base.{true, false, [], ◌∷◌, str}
use autokernel.Subsystem.Regex.{RuleTable, word, last, lit, group, stop}

unfoldable pub rest_rules : RuleTable
rest_rules =
    (
      str "thermal",
      (true, lit (str "THERMAL") ∷ [])
          ∷ (true, lit (str "INT3400_THERMAL") ∷ [])
          ∷ (true, lit (str "INT340X_THERMAL") ∷ [])
          ∷ (true, lit (str "X86_PKG_TEMP_THERMAL") ∷ [])
          ∷ [],
    )
    ∷ (
      str "power-supply",
      (true, lit (str "POWER_SUPPLY") ∷ [])
          ∷ (true, lit (str "CHARGER_") ∷ [])
          ∷ (true, lit (str "BATTERY_") ∷ [])
          ∷ [],
    )
    ∷ (str "regulator", (true, lit (str "REGULATOR") ∷ []) ∷ [])
    ∷ (str "leds", (true, lit (str "LEDS") ∷ []) ∷ [])
    ∷ (
      str "watchdog",
      (true, lit (str "WATCHDOG") ∷ [])
          ∷ (false, lit (str "_WDT") ∷ group (last (str "") ∷ word (str "_") ∷ []) ∷ [])
          ∷ [],
    )
    ∷ (str "rtc", (true, lit (str "RTC") ∷ []) ∷ [])
    ∷ (
      str "media",
      (true, lit (str "MEDIA") ∷ [])
          ∷ (true, lit (str "VIDEO_") ∷ [])
          ∷ (true, lit (str "DVB") ∷ [])
          ∷ (true, lit (str "RC_") ∷ [])
          ∷ (true, lit (str "CEC") ∷ [])
          ∷ (true, lit (str "V4L2_") ∷ [])
          ∷ [],
    )
    ∷ (str "iio", (true, lit (str "IIO") ∷ []) ∷ [])
    ∷ (
      str "infiniband",
      (true, lit (str "INFINIBAND") ∷ [])
          ∷ (true, lit (str "RDMA") ∷ [])
          ∷ (
            true,
            lit (str "MLX")
                ∷ group (word (str "4") ∷ word (str "5") ∷ [])
                ∷ lit (str "_")
                ∷ group (word (str "IB") ∷ word (str "EN") ∷ word (str "CORE") ∷ [])
                ∷ [],
          )
          ∷ [],
    )
    ∷ (
      str "perf",
      (true, lit (str "PERF_EVENTS") ∷ [])
          ∷ (true, lit (str "PERF_USE") ∷ [])
          ∷ (true, lit (str "OPROFILE") ∷ [])
          ∷ [],
    )
    ∷ (str "hwmon", (true, lit (str "HWMON") ∷ stop ∷ []) ∷ (true, lit (str "SENSORS") ∷ []) ∷ [])
    ∷ (
      str "firmware",
      (true, lit (str "FW_LOADER") ∷ [])
          ∷ (true, lit (str "EXTRA_FIRMWARE") ∷ [])
          ∷ (true, lit (str "FIRMWARE_") ∷ [])
          ∷ (true, lit (str "EFI_VARS_PSTORE") ∷ [])
          ∷ (true, lit (str "TCG_") ∷ [])
          ∷ (true, lit (str "TPM_") ∷ [])
          ∷ [],
    )
    ∷ (str "mei", (true, lit (str "INTEL_MEI") ∷ []) ∷ [])
    ∷ (str "cxl", (true, lit (str "CXL") ∷ []) ∷ [])
    ∷ (str "edac", (true, lit (str "EDAC") ∷ []) ∷ [])
    ∷ (str "extcon", (true, lit (str "EXTCON") ∷ []) ∷ [])
    ∷ (str "auxdisplay", (true, lit (str "AUXDISPLAY") ∷ []) ∷ [])
    ∷ []
