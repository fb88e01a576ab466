-- ===== src/BridgeFind.antt =====
-- bridge_find.go: BridgeFindDevice. Which devices are on the bus, the information that a device gives
-- when it is opened, and strings.EqualFold are parameters. The devices come in the order in which Go
-- walks through the map.
-- Child: BridgeFind/Matching (which device is found).
pub mod Matching
use ipp_usb.Base.{
  ℕ, Bool, true, false, ◌&&◌, ◌==◌, if◌then◌else◌, Option, none, some, List, [], ◌∷◌, Bytes,
  parse_uint,
}
use ipp_usb.UsbCommon.{UsbDeviceInfo}
use ipp_usb.UsbTransport.Opening.{UsbDeviceDesc}

pub data BridgeError : Type 0 where
  invalid_vid invalid_pid no_devices not_found : BridgeError

pub data Found : Type 0 where
  found : UsbDeviceDesc → Found
  failed : BridgeError → Found

module _ (get_usb_device_info : UsbDeviceDesc → Option UsbDeviceInfo)
    (equal_fold : Bytes → Bytes → Bool) where
  abbrev pub has_serial : Bytes → Option UsbDeviceInfo → Bool
  has_serial serial none = false
  has_serial serial (some info) = equal_fold info.serial_number serial

  -- The tests in the loop. A device that does not open is passed over.
  abbrev pub wanted : ℕ → ℕ → Bytes → UsbDeviceDesc → Bool
  wanted vid pid serial desc =
      (desc.vendor == vid && desc.product == pid) && has_serial serial (get_usb_device_info desc)

  unfoldable pub search : ℕ → ℕ → Bytes → List UsbDeviceDesc → Found
  search vid pid serial [] = failed not_found
  search vid pid serial (desc ∷ descs) =
      let rest = search vid pid serial descs in
      if wanted vid pid serial desc then found desc else rest

  abbrev pub with_ids : Option ℕ → Option ℕ → Bytes → Option (List UsbDeviceDesc) → Found
  with_ids none pid serial descs = failed invalid_vid
  with_ids (some vid) none serial descs = failed invalid_pid
  with_ids (some vid) (some pid) serial none = failed no_devices
  with_ids (some vid) (some pid) serial (some descs) = search vid pid serial descs

  unfoldable pub bridge_find_device : Bytes → Bytes → Bytes → Option (List UsbDeviceDesc) → Found
  unfolding search parse_uint
  bridge_find_device vid_hex pid_hex serial descs =
      with_ids (parse_uint vid_hex 16 16) (parse_uint pid_hex 16 16) serial descs
