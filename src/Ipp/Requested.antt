-- ===== src/Ipp/Requested.antt =====
-- The attributes that the service depends on are those that the query asks for.
use ipp_usb.Base.{
  is_among, true, ◌≡◌, refl, sym, ap, ◌∙◌, if◌then◌else◌, Option, none, some, List, [], ◌∷◌, Bytes,
  codes, bytes_eq,
}
use ipp_usb.Base.Dict.{lookup, lookup-insert}
use ipp_usb.UsbCommon.{UsbDeviceInfo}
use ipp_usb.Dnssd.{TxtRecord}
use ipp_usb.Ipp.{
  Attributes, new_ipp_attrs, get_attr, get_bool, get_strings, str_single, str_joined, str_brackets,
  single, join, IppPrinterInfo, strings_of, or_nil,
}
use ipp_usb.Ipp.Decoding.{
  Features, get_duplex, get_paper_max, features, decode_info, decode_head, decode_tail, decode_with,
  decode,
}
use ipp_usb.Ipp.Query.{requested_names}

-- Of attributes with the same name, the first one wins.
pub lookup-new_ipp_attrs :
    (name : Bytes) (input : Attributes) → lookup name (new_ipp_attrs input) ≡ lookup name input
unfolding new_ipp_attrs lookup
lookup-new_ipp_attrs name [] = refl
lookup-new_ipp_attrs name ((other_name, values) ∷ input) =
    lookup-insert other_name name values (new_ipp_attrs input)
    ∙ ap (λ o. if bytes_eq other_name name then some values else o)
        (lookup-new_ipp_attrs name input)

-- The two lists agree on the attributes of some names.
abbrev pub AgreeOn : List Bytes → Attributes → Attributes → Type 0
AgreeOn names attrs other =
    (name : Bytes) → is_among name names ≡ true → lookup name attrs ≡ lookup name other

module _ (attrs other : Attributes) (h : AgreeOn requested_names attrs other) where
  features_cong : features attrs ≡ features other
  unfolding features get_paper_max get_duplex get_bool get_attr bytes_eq
  features_cong =
      rw
        (
          (h (codes "media-size-supported") refl),
          (h (codes "color-supported") refl),
          (h (codes "sides-supported") refl),
        )
        refl

  module _ (lower : Bytes → Bytes) (uuid : UsbDeviceInfo → Bytes) where
    text :
        (name : Bytes)
        → is_among name requested_names ≡ true
        → get_strings lower name attrs ≡ get_strings lower name other
    unfolding get_strings
    text name r = ap (λ o. strings_of lower (or_nil o)) (h name r)

    one :
        (name : Bytes)
        → is_among name requested_names ≡ true
        → str_single lower name attrs ≡ str_single lower name other
    unfolding str_single
    one name r = ap single (text name r)

    joined :
        (name : Bytes)
        → is_among name requested_names ≡ true
        → str_joined lower name attrs ≡ str_joined lower name other
    unfolding str_joined
    joined name r = ap join (text name r)

    decode_info_cong :
        (usbinfo : UsbDeviceInfo)
        → decode_info lower uuid attrs usbinfo ≡ decode_info lower uuid other usbinfo
    unfolding decode_info bytes_eq
    decode_info_cong usbinfo =
        rw
          (
            (one (codes "printer-info") refl),
            (one (codes "printer-make-and-model") refl),
            (one (codes "printer-dns-sd-name") refl),
            (one (codes "printer-uuid") refl),
            (one (codes "printer-more-info") refl),
            (one (codes "printer-icons") refl),
          )
          refl

    decode_head_cong :
        (found : Features) (devid : List (Bytes × Bytes))
        → decode_head lower uuid attrs found devid ≡ decode_head lower uuid other found devid
    unfolding decode_head bytes_eq
    decode_head_cong found devid =
        rw
          (
            (one (codes "mopria-certified") refl),
            (joined (codes "printer-kind") refl),
            (joined (codes "urf-supported") refl),
          )
          refl

    decode_tail_cong :
        (ippinfo : IppPrinterInfo) (found : Features) (devid : List (Bytes × Bytes))
        (txt : TxtRecord)
        → decode_tail lower uuid attrs ippinfo found devid txt
          ≡ decode_tail lower uuid other ippinfo found devid txt
    unfolding decode_tail str_brackets bytes_eq
    decode_tail_cong ippinfo found devid txt =
        rw
          (
            (one (codes "printer-location") refl),
            (one (codes "printer-make-and-model") refl),
            (joined (codes "document-format-supported") refl),
          )
          refl

    decode_cong :
        (usbinfo : UsbDeviceInfo)
        → decode lower uuid attrs usbinfo ≡ decode lower uuid other usbinfo
    unfolding decode bytes_eq
    decode_cong usbinfo =
        rw (features_cong, decode_info_cong usbinfo)
          (by_features (features other) (decode_info lower uuid other usbinfo))
      where
        by_features :
            (found : Option Features) (ippinfo : IppPrinterInfo)
            → decode_with lower uuid attrs ippinfo found
              ≡ decode_with lower uuid other ippinfo found
        by_features none ippinfo = refl
        by_features (some found) ippinfo =
            rw
              (
                one (codes "printer-device-id") refl,
                decode_head_cong found _,
                decode_tail_cong ippinfo found _ _,
              )
              refl

-- The printer's information and the service are decoded from the fifteen attributes that the query
-- asks for, and from the first one of each name: two answers of a printer that agree on the first
-- attribute of each of these names are decoded alike, or panic alike.
pub decode_requested :
    (lower : Bytes → Bytes) (uuid : UsbDeviceInfo → Bytes) (input other : Attributes)
    (usbinfo : UsbDeviceInfo)
    → AgreeOn requested_names input other
    → decode lower uuid (new_ipp_attrs input) usbinfo
      ≡ decode lower uuid (new_ipp_attrs other) usbinfo
decode_requested lower uuid input other usbinfo h =
    decode_cong (new_ipp_attrs input) (new_ipp_attrs other)
      (λ name r. lookup-new_ipp_attrs name input ∙ h name r ∙ sym (lookup-new_ipp_attrs name other))
      lower uuid usbinfo
