-- ===== src/KconfigMap/Table.antt =====
-- The path table of src/autokernel/kconfig_map.py, most specific prefix first, in two halves.
use autokernel.Base.{List, [], ◌∷◌, Str, str}
use autokernel.KconfigMap.Pieces.{Template, lit, name}
use autokernel.KconfigMap.LaterPaths.{later_paths}

abbrev pub path_table : List (Str × List Template)
path_table =
    (
      str "sound/soc/sof/intel/",
      (lit (str "SND_SOC_SOF_INTEL_") ∷ name ∷ [])
          ∷ (lit (str "SND_SOC_SOF_") ∷ name ∷ [])
          ∷ (lit (str "SND_SOC_") ∷ name ∷ [])
          ∷ [],
    )
    ∷ (
      str "sound/soc/sof/amd/",
      (lit (str "SND_SOC_SOF_AMD_") ∷ name ∷ []) ∷ (lit (str "SND_SOC_SOF_") ∷ name ∷ []) ∷ [],
    )
    ∷ (
      str "sound/soc/sof/",
      (lit (str "SND_SOC_SOF_") ∷ name ∷ []) ∷ (lit (str "SND_SOC_") ∷ name ∷ []) ∷ [],
    )
    ∷ (
      str "sound/soc/intel/",
      (lit (str "SND_SOC_INTEL_") ∷ name ∷ []) ∷ (lit (str "SND_SOC_") ∷ name ∷ []) ∷ [],
    )
    ∷ (str "sound/soc/", (lit (str "SND_SOC_") ∷ name ∷ []) ∷ [])
    ∷ (
      str "sound/pci/hda/",
      (lit (str "SND_HDA_") ∷ name ∷ [])
          ∷ (lit (str "SND_HDA_CODEC_") ∷ name ∷ [])
          ∷ (lit (str "SND_") ∷ name ∷ [])
          ∷ [],
    )
    ∷ (str "sound/pci/", (lit (str "SND_") ∷ name ∷ []) ∷ [])
    ∷ (str "sound/usb/", (lit (str "SND_USB_") ∷ name ∷ []) ∷ (lit (str "SND_") ∷ name ∷ []) ∷ [])
    ∷ (str "sound/", (lit (str "SND_") ∷ name ∷ []) ∷ [])
    ∷ (str "drivers/gpu/drm/", (lit (str "DRM_") ∷ name ∷ []) ∷ [])
    ∷ (
      str "drivers/usb/storage/",
      (lit (str "USB_") ∷ name ∷ [])
          ∷ (lit (str "USB_STORAGE_") ∷ name ∷ [])
          ∷ (lit (str "USB_STORAGE") ∷ [])
          ∷ [],
    )
    ∷ (
      str "drivers/usb/serial/",
      (lit (str "USB_SERIAL_") ∷ name ∷ []) ∷ (lit (str "USB_SERIAL") ∷ []) ∷ [],
    )
    ∷ (str "drivers/usb/host/", (lit (str "USB_") ∷ name ∷ []) ∷ [])
    ∷ (
      str "drivers/usb/gadget/",
      (lit (str "USB_GADGET_") ∷ name ∷ []) ∷ (lit (str "USB_GADGET") ∷ []) ∷ [],
    )
    ∷ (
      str "drivers/usb/musb/",
      (lit (str "USB_MUSB_") ∷ name ∷ []) ∷ (lit (str "USB_MUSB_HDRC") ∷ []) ∷ [],
    )
    ∷ (str "drivers/usb/dwc2/", (lit (str "USB_DWC2") ∷ []) ∷ [])
    ∷ (str "drivers/usb/dwc3/", (lit (str "USB_DWC3") ∷ []) ∷ [])
    ∷ (str "drivers/usb/core/", (lit (str "USB") ∷ []) ∷ [])
    ∷ (str "drivers/usb/", (lit (str "USB_") ∷ name ∷ []) ∷ [])
    ∷ (str "drivers/net/wireless/", (name ∷ []) ∷ [])
    ∷ (str "drivers/net/ethernet/", (name ∷ []) ∷ [])
    ∷ (str "drivers/net/usb/", (lit (str "USB_") ∷ name ∷ []) ∷ [])
    ∷ (str "drivers/net/dsa/", (lit (str "NET_DSA_") ∷ name ∷ []) ∷ [])
    ∷ (str "drivers/net/can/", (lit (str "CAN_") ∷ name ∷ []) ∷ [])
    ∷ (str "drivers/net/ipa/", (lit (str "IPA") ∷ []) ∷ [])
    ∷ (
      str "drivers/net/phy/",
      (name ∷ lit (str "_PHY") ∷ []) ∷ (name ∷ []) ∷ (lit (str "PHYLIB") ∷ []) ∷ [],
    )
    ∷ (str "drivers/net/mdio/", (lit (str "MDIO_") ∷ name ∷ []) ∷ [])
    ∷ (str "drivers/net/", (name ∷ []) ∷ [])
    ∷ (
      str "drivers/nvme/host/",
      (lit (str "BLK_DEV_NVME") ∷ []) ∷ (lit (str "NVME_") ∷ name ∷ []) ∷ (name ∷ []) ∷ [],
    )
    ∷ (
      str "drivers/nvme/target/",
      (lit (str "NVME_TARGET") ∷ []) ∷ (lit (str "NVME_TARGET_") ∷ name ∷ []) ∷ [],
    )
    ∷ (str "drivers/nvme/", (lit (str "NVME_") ∷ name ∷ []) ∷ (name ∷ []) ∷ [])
    ∷ (str "drivers/scsi/", (lit (str "SCSI_") ∷ name ∷ []) ∷ (name ∷ []) ∷ [])
    ∷ (str "drivers/block/zram/", (lit (str "ZRAM") ∷ []) ∷ [])
    ∷ (str "drivers/block/", (lit (str "BLK_DEV_") ∷ name ∷ []) ∷ (name ∷ []) ∷ [])
    ∷ (
      str "drivers/md/",
      (name ∷ [])
          ∷ (lit (str "MD_") ∷ name ∷ [])
          ∷ (lit (str "DM_") ∷ name ∷ [])
          ∷ (lit (str "BCACHE") ∷ [])
          ∷ [],
    )
    ∷ (str "drivers/mtd/", (lit (str "MTD_") ∷ name ∷ []) ∷ [])
    ∷ (str "drivers/hid/usbhid/", (lit (str "USB_HID") ∷ []) ∷ (lit (str "USB_HIDDEV") ∷ []) ∷ [])
    ∷ (str "drivers/hid/", (lit (str "HID_") ∷ name ∷ []) ∷ (name ∷ []) ∷ [])
    ∷ (str "drivers/input/keyboard/", (lit (str "KEYBOARD_") ∷ name ∷ []) ∷ [])
    ∷ (str "drivers/input/mouse/", (lit (str "MOUSE_") ∷ name ∷ []) ∷ [])
    ∷ (str "drivers/input/touchscreen/", (lit (str "TOUCHSCREEN_") ∷ name ∷ []) ∷ [])
    ∷ (str "drivers/input/joystick/", (lit (str "JOYSTICK_") ∷ name ∷ []) ∷ [])
    ∷ (str "drivers/input/serio/", (lit (str "SERIO_") ∷ name ∷ []) ∷ [])
    ∷ (str "drivers/input/misc/", (lit (str "INPUT_") ∷ name ∷ []) ∷ [])
    ∷ (str "drivers/input/", (lit (str "INPUT_") ∷ name ∷ []) ∷ (name ∷ []) ∷ [])
    ∷ (str "drivers/i2c/busses/", (lit (str "I2C_") ∷ name ∷ []) ∷ [])
    ∷ (str "drivers/i2c/muxes/", (lit (str "I2C_MUX_") ∷ name ∷ []) ∷ [])
    ∷ (str "drivers/i2c/", (lit (str "I2C_") ∷ name ∷ []) ∷ [])
    ∷ (str "drivers/spi/", (lit (str "SPI_") ∷ name ∷ []) ∷ [])
    ∷ (str "drivers/gpio/", (lit (str "GPIO_") ∷ name ∷ []) ∷ [])
    ∷ (
      str "drivers/clk/",
      (lit (str "COMMON_CLK_") ∷ name ∷ []) ∷ (lit (str "CLK_") ∷ name ∷ []) ∷ [],
    )
    ∷ (
      str "drivers/tty/serial/8250/",
      (lit (str "SERIAL_8250_") ∷ name ∷ []) ∷ (lit (str "SERIAL_8250") ∷ []) ∷ [],
    )
    ∷ (str "drivers/tty/serial/", (lit (str "SERIAL_") ∷ name ∷ []) ∷ [])
    ∷ (str "drivers/tty/", (name ∷ []) ∷ [])
    ∷ (
      str "drivers/acpi/dptf/",
      (lit (str "ACPI_DPTF") ∷ []) ∷ (lit (str "ACPI_DPTF_") ∷ name ∷ []) ∷ [],
    )
    ∷ (str "drivers/acpi/", (lit (str "ACPI_") ∷ name ∷ []) ∷ (lit (str "ACPI") ∷ []) ∷ [])
    ∷ (
      str "drivers/idle/",
      (lit (str "INTEL_IDLE") ∷ []) ∷ (lit (str "ACPI_PROCESSOR_IDLE") ∷ []) ∷ (name ∷ []) ∷ [],
    )
    ∷ (
      str "drivers/thermal/intel/",
      (lit (str "INTEL_") ∷ name ∷ lit (str "_THERMAL") ∷ [])
          ∷ (lit (str "INT3400_THERMAL") ∷ [])
          ∷ (lit (str "INT340X_THERMAL") ∷ [])
          ∷ [],
    )
    ∷ (
      str "drivers/thermal/",
      (lit (str "THERMAL_") ∷ name ∷ []) ∷ (name ∷ lit (str "_THERMAL") ∷ []) ∷ (name ∷ []) ∷ [],
    )
    ∷ (
      str "drivers/power/supply/",
      (name ∷ lit (str "_BATTERY") ∷ []) ∷ (lit (str "CHARGER_") ∷ name ∷ []) ∷ (name ∷ []) ∷ [],
    )
    ∷ (str "drivers/power/", (name ∷ []) ∷ [])
    ∷ (
      str "drivers/ata/",
      (lit (str "SATA_") ∷ name ∷ [])
          ∷ (lit (str "PATA_") ∷ name ∷ [])
          ∷ (lit (str "ATA_") ∷ name ∷ [])
          ∷ (name ∷ [])
          ∷ [],
    )
    ∷ (str "drivers/hwmon/", (lit (str "SENSORS_") ∷ name ∷ []) ∷ [])
    ∷ later_paths
