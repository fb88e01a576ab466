-- ===== src/Ipp/Advertised.antt =====
-- `IppService` with the start of a device: what is advertised for a printer.
use ipp_usb.Base.{
  ℕ, ◌≡◌, refl, Bool, true, Option, none, some, List, [], ◌∷◌, ◌++◌, Bytes, codes, bytes_eq,
}
use ipp_usb.UsbCommon.{UsbDeviceInfo}
use ipp_usb.Quirks.Parsing.{BuggyIppRsp}
use ipp_usb.Dnssd.{add, DnsSdSvcInfo, add_service}
use ipp_usb.Device.{add_txt_at, scan_flag, with_scan, common}
use ipp_usb.Ipp.Returning.{
  HaveValues, DecodedValues, ReceivedValues, IsSome, features-IsSome,
  get_printer_attributes-ReceivedValues,
}
use ipp_usb.Ipp.{Attributes, IppPrinterInfo, new_ipp_attrs}
use ipp_usb.Ipp.Decoding.{Features, features, decode_info, decode_with, decode}
use ipp_usb.Ipp.Query.{
  Posted, Message, Queried, received, failed, fax_items, lpd_service, ServiceResult, pack, serve,
  print_uri, ipp_service,
}
use ipp_usb.Ipp.Keys.{
  KeysAmong, add-KeysAmong, keys, distinct, distinct-Sub, fax_items-KeysAmong, head_keys, tail_keys,
  decode_txt-KeysAmong,
}

-- The service with its scan flag.
abbrev scanned : DnsSdSvcInfo → Option Bool → DnsSdSvcInfo
scanned svc escl = record svc { txt = add svc.txt (codes "Scan") (scan_flag escl) }

-- All keys that the record of a printer's service may have, in their order.
abbrev service_keys : List Bytes
service_keys =
    ((head_keys ++ tail_keys) ++ codes "Fax" ∷ codes "rfo" ∷ [])
    ++ codes "Scan" ∷ codes "usb_SER" ∷ codes "usb_HWID" ∷ []

module _ (hwid bus_port : ℕ → ℕ → Bytes) (bus : ℕ) (usbinfo : UsbDeviceInfo) (port : ℕ) where
  -- The service of the printer, and what becomes of it once the scanner has been asked.
  abbrev Printer : IppPrinterInfo → List DnsSdSvcInfo → DnsSdSvcInfo → Type 0
  Printer info services svc =
      (services ≡ lpd_service ∷ svc ∷ [])
      × (svc.service_type ≡ codes "_ipp._tcp")
      × (svc.port ≡ port)
      × ((escl : Option Bool) (others : List DnsSdSvcInfo)
          → with_scan (some info) escl (services ++ others)
            ≡ some (lpd_service ∷ scanned svc escl ∷ others))
      × ((escl : Option Bool)
          → distinct (keys (common hwid bus_port bus usbinfo (scanned svc escl)).txt) ≡ true)

  abbrev pub Served : ServiceResult → Type 0
  Served r = elim r.error [
    | some e ↦ (r.info ≡ none) × (r.services ≡ [])
    | none ↦
        (info : IppPrinterInfo) × (svc : DnsSdSvcInfo) × ((r.info ≡ some info)
          × Printer info r.services svc)
  ]

  -- The service that is advertised: it was decoded, and got its item on fax and its port.
  distinct-scanned :
      (can_fax : Bool) (escl : Option Bool) (svc : DnsSdSvcInfo)
      → KeysAmong svc.txt (head_keys ++ tail_keys)
      → distinct (
          keys
            (common hwid bus_port bus usbinfo
              (scanned (record svc { txt = fax_items can_fax svc.txt; port = port }) escl)).txt)
        ≡ true
  unfolding bytes_eq
  distinct-scanned can_fax escl svc k =
      let fax = fax_items-KeysAmong k can_fax in
      let scan = add-KeysAmong (codes "Scan") (scan_flag escl) fax in
      let ser = add-KeysAmong (codes "usb_SER") usbinfo.serial_number scan in
      let all = add-KeysAmong (codes "usb_HWID") (hwid usbinfo.vendor usbinfo.product) ser in
      distinct-Sub all.sub refl

  -- A decoded service.
  Decoded : Option (IppPrinterInfo × DnsSdSvcInfo) → Type 0
  Decoded none = ⊥
  Decoded (some (info, svc)) =
      (svc.service_type ≡ codes "_ipp._tcp") × KeysAmong svc.txt (head_keys ++ tail_keys)

  Returned : Option ServiceResult → Type 0
  Returned o = (r : ServiceResult) × ((o ≡ some r) × Served r)

  pack-Returned :
      (can_fax : Bool) (o : Option (IppPrinterInfo × DnsSdSvcInfo))
      → Decoded o
      → Returned (pack [] port can_fax o)
  unfolding Decoded Returned add_service add_txt_at add
  pack-Returned can_fax none d = absurd d
  pack-Returned can_fax (some (info, svc)) (t, k) = (
    _,
    (
      refl,
      (
        _,
        _,
        (refl, (refl, t, refl, (λ escl others. refl), λ escl. distinct-scanned can_fax escl svc k)),
      ),
    ),
  )

  -- The decoder of messages, with what goipp says of it.
  module _ (lower : Bytes → Bytes) (uuid : UsbDeviceInfo → Bytes) where
    decode-Decoded :
        (input : Attributes)
        → HaveValues input
        → Decoded (decode lower uuid (new_ipp_attrs input) usbinfo)
    unfolding decode Decoded
    decode-Decoded input h = by_features (features (new_ipp_attrs input)) (features-IsSome input h)
      where
        by_features :
            (found : Option Features)
            → IsSome found
            → Decoded (
                decode_with lower uuid
                  (new_ipp_attrs input)
                  (decode_info lower uuid (new_ipp_attrs input) usbinfo)
                  found)
        by_features none n = n
        by_features (some found) n = (
          refl,
          decode_txt-KeysAmong lower uuid (new_ipp_attrs input)
              (decode_info lower uuid (new_ipp_attrs input) usbinfo) found,
        )

    module _ (post : Bytes → Attributes → Posted) (decode_bytes : Bool → Bytes → Option Message)
        (log_all : Bool) (buggy : BuggyIppRsp) (ignore : Bool) (disable_fax : Bool)
        (decoded : (workarounds : Bool) (text : Bytes)
          → DecodedValues (decode_bytes workarounds text)) where
      serve-Returned :
          (q : Queried)
          → ReceivedValues q
          → Returned (
              serve post decode_bytes log_all buggy ignore lower uuid disable_fax [] port usbinfo q)
      unfolding Returned
      serve-Returned (failed e http_status) v = (_, (refl, (refl, refl)))
      serve-Returned (received msg) v = pack-Returned _ _ (decode-Decoded msg.printer v)

      -- Over a decoder of messages that leaves no attribute without a value, `IppService` returns.
      -- After an error it has added no service and has no information on the printer. Else it
      -- has added the LPD service and, under the index that it returns, the service "_ipp._tcp" at
      -- the port; `NewDevice` puts the "Scan" item in just that service, whatever the scanner
      -- answers, and no two items of its finished TXT record have the same key.
      pub ipp_service-Served :
          (r : ServiceResult) × ((ipp_service post decode_bytes log_all buggy ignore lower uuid
                disable_fax [] port usbinfo
              ≡ some r)
            × Served r)
      unfolding ipp_service Returned
      ipp_service-Served = serve-Returned _ (
          get_printer_attributes-ReceivedValues post decode_bytes log_all buggy ignore decoded
            (print_uri port))
