-- ===== src/BridgeFind/Matching.antt =====
-- Which device `BridgeFindDevice` finds.
use ipp_usb.Base.{
  ℕ, ◌≡◌, refl, inl, inr, Bool, true, false, if_cases, Option, none, some, List, [], ◌∷◌, All,
  Occurs, Bytes, parse_uint,
}
use ipp_usb.UsbCommon.{UsbDeviceInfo}
use ipp_usb.UsbTransport.Opening.{UsbDeviceDesc}
use ipp_usb.BridgeFind.{
  invalid_vid, invalid_pid, no_devices, not_found, Found, found, failed, wanted, search, with_ids,
  bridge_find_device,
}

module _ (get_usb_device_info : UsbDeviceDesc → Option UsbDeviceInfo)
    (equal_fold : Bytes → Bytes → Bool) where
  -- The device is one of the bus with the numbers and the serial number; or there is none with
  -- them; or a number is not one, or the devices are not known.
  abbrev pub Sought : Option ℕ → Option ℕ → Bytes → Option (List UsbDeviceDesc) → Found → Type 0
  Sought (some vid) (some pid) serial (some descs) (found desc) =
      Occurs desc descs × (wanted get_usb_device_info equal_fold vid pid serial desc ≡ true)
  Sought (some vid) (some pid) serial (some descs) (failed not_found) =
      All (λ d. wanted get_usb_device_info equal_fold vid pid serial d ≡ false) descs
  Sought (some vid) (some pid) serial none (failed no_devices) = Unit
  Sought (some vid) none serial descs (failed invalid_pid) = Unit
  Sought none pid serial descs (failed invalid_vid) = Unit
  Sought _ _ serial descs _ = ⊥

  search-Sought :
      (vid pid : ℕ) (serial : Bytes) (descs : List UsbDeviceDesc)
      → Sought
          (some vid)
          (some pid)
          serial
          (some descs)
          (search get_usb_device_info equal_fold vid pid serial descs)
  unfolding search
  search-Sought vid pid serial [] = tt
  search-Sought vid pid serial (desc ∷ descs) =
      if_cases (Sought (some vid) (some pid) serial (some (desc ∷ descs)))
        (wanted get_usb_device_info equal_fold vid pid serial desc) (found desc)
        (search get_usb_device_info equal_fold vid pid serial descs) (λ w. (inl refl, w))
        (λ w.
          later w (search get_usb_device_info equal_fold vid pid serial descs)
            (search-Sought vid pid serial descs))
    where
      later :
          wanted get_usb_device_info equal_fold vid pid serial desc ≡ false
          → (r : Found) → Sought (some vid) (some pid) serial (some descs) r
          → Sought (some vid) (some pid) serial (some (desc ∷ descs)) r
      later w (found d) s = (inr s.0, s.1)
      later w (failed not_found) s = (w, s)
      later w (failed invalid_vid) s = elim s [ ]
      later w (failed invalid_pid) s = elim s [ ]
      later w (failed no_devices) s = elim s [ ]

  -- `BridgeFindDevice` answers a device of the bus that has the vendor and the product that are
  -- asked for, opens, and has the serial number; where it answers that there is none, no device on
  -- the bus is such; and the other errors are answered just where a number is not hexadecimal of 16
  -- bits, the vendor first, or the devices are not known.
  pub bridge_find_device-Sought :
      (vid_hex pid_hex serial : Bytes) (descs : Option (List UsbDeviceDesc))
      → Sought
          (parse_uint vid_hex 16 16)
          (parse_uint pid_hex 16 16)
          serial
          descs
          (bridge_find_device get_usb_device_info equal_fold vid_hex pid_hex serial descs)
  unfolding bridge_find_device
  bridge_find_device-Sought vid_hex pid_hex serial descs =
      by_ids (parse_uint vid_hex 16 16) (parse_uint pid_hex 16 16) descs
    where
      by_ids :
          (vid pid : Option ℕ) (ds : Option (List UsbDeviceDesc))
          → Sought vid pid serial ds (with_ids get_usb_device_info equal_fold vid pid serial ds)
      by_ids none pid ds = tt
      by_ids (some vid) none ds = tt
      by_ids (some vid) (some pid) none = tt
      by_ids (some vid) (some pid) (some ds) = search-Sought vid pid serial ds
