-- ===== src/Ipp/Decoding.antt =====
-- ipp.go: `decode`, the service that is advertised for the attributes of a printer. Go's `int`s for
-- the dimensions of paper start at zero and only grow.
use ipp_usb.Base.{
  ℕ, Bool, true, false, ◌||◌, ltb, ◌==◌, if◌then◌else◌, Option, none, some, List, [], ◌∷◌, Bytes,
  codes, bytes_eq, has_prefix, split, ℤ, pos, negsuc,
}
use ipp_usb.Base.Dict.{lookup, insert}
use mathlib.Core.Option
use ipp_usb.Paper.{classify, class_name}
use ipp_usb.Uuid.{uuid_normalize}
use ipp_usb.UsbCommon.{UsbDeviceInfo, is_empty, make_and_model}
use ipp_usb.Dnssd.{TxtRecord, add, add_pdl, if_not_empty, url_if_not_empty, DnsSdSvcInfo}
use ipp_usb.Ipp.{
  Value, integer, range, Members, Attributes, IppPrinterInfo, get_attr, get_bool, as_string,
  as_collection, str_single, str_joined, str_brackets,
}

-- The cases of `getDuplex` for one string, and its answer.
abbrev pub note_sides : Bool × Bool → Bytes → Bool × Bool
note_sides (one, two) s =
    if has_prefix s (codes "one")
    then (true, two)
    else if has_prefix s (codes "two")
    then (one, true)
    else (one, two)

unfoldable pub sides : Bool × Bool → List Bytes → Bool × Bool
unfolding has_prefix
sides found [] = found
sides found (s ∷ vals) = sides (note_sides found s) vals

abbrev pub duplex : Bool × Bool → Bytes
duplex (one, two) = if two then codes "T" else if one then codes "F" else []

unfoldable pub get_duplex : Attributes → Option Bytes
unfolding get_attr sides
get_duplex attrs =
    Option.map (λ vals. duplex (sides (false, false) vals))
      (get_attr as_string (codes "sides-supported") attrs)

-- The values of `xDimAttr` and `yDimAttr`, set from the end of the collection to its beginning.
abbrev pub Dimensions : Type 0
Dimensions = List (Value Unit) × List (Value Unit)

unfoldable pub dimensions : Members → Dimensions
unfolding bytes_eq
dimensions [] = ([], [])
dimensions ((name, values) ∷ attrs) =
    let dims = dimensions attrs in
    if bytes_eq name (codes "x-dimension")
    then (values, dims.1)
    else if bytes_eq name (codes "y-dimension")
    then (dims.0, values)
    else dims

abbrev pub larger : ℕ → ℤ → ℕ
larger max (pos dim) = if ltb max dim then dim else max
larger max (negsuc n) = max

abbrev pub with_dim : ℕ → List (Value Unit) → ℕ
with_dim max [] = max
with_dim max (integer dim ∷ values) = larger max dim
with_dim max (range lower upper ∷ values) = larger max upper
with_dim max (_ ∷ values) = max

-- The loop of `getPaperMax`: `xDimMax` and `yDimMax`.
unfoldable pub max_dims : ℕ → ℕ → List Members → ℕ × ℕ
unfolding dimensions
max_dims x y [] = (x, y)
max_dims x y (attrs ∷ vals) =
    let dims = dimensions attrs in max_dims (with_dim x dims.0) (with_dim y dims.1) vals

abbrev pub paper_of : ℕ × ℕ → Bytes
paper_of (x, y) =
    if x == 0 || y == 0 then [] else class_name (classify (record { width = x; height = y }))

unfoldable pub get_paper_max : Attributes → Option Bytes
unfolding get_attr max_dims classify
get_paper_max attrs =
    Option.map (λ vals. paper_of (max_dims 0 0 vals))
      (get_attr as_collection (codes "media-size-supported") attrs)

-- strings.SplitN(id, ":", 2), where there are two parts.
unfoldable pub split_colon : Bytes → Option (Bytes × Bytes)
split_colon [] = none
split_colon (c ∷ id) = elim (split_colon id) [
  | none ↦ if c == b':' then some ([], id) else none
  | some (k, v) ↦ if c == b':' then some ([], id) else some (c ∷ k, v)
]

abbrev pub add_keyval : Option (Bytes × Bytes) → List (Bytes × Bytes) → List (Bytes × Bytes)
add_keyval none devid = devid
add_keyval (some (key, val)) devid = insert key val devid

unfoldable pub device_id : List (Bytes × Bytes) → List Bytes → List (Bytes × Bytes)
unfolding split_colon insert
device_id devid [] = devid
device_id devid (id ∷ ids) = device_id (add_keyval (split_colon id) devid) ids

abbrev pub text_at : Bytes → List (Bytes × Bytes) → Bytes
text_at key devid = elim (lookup key devid) [ none ↦ [] | some text ↦ text ]

abbrev pub or_else : Bytes → Bytes → Bytes
or_else text fallback = if is_empty text then fallback else text

-- The answers of `getPaperMax`, `getBool` and `getDuplex`.
pub record Features : Type 0 where
  pub paper_max : Bytes
  pub color : Bytes
  pub sides : Bytes

abbrev pub all_features : Option Bytes → Option Bytes → Option Bytes → Option Features
all_features (some paper_max) (some color) (some sides) =
    some record { paper_max = paper_max; color = color; sides = sides }
all_features _ _ _ = none

unfoldable pub features : Attributes → Option Features
unfolding get_paper_max get_bool get_duplex
features attrs =
    all_features (get_paper_max attrs) (get_bool (codes "color-supported") attrs) (get_duplex attrs)

-- "URF", or else the one of the device ID.
unfoldable pub add_urf : TxtRecord → Bytes → Bytes → TxtRecord
unfolding if_not_empty
add_urf txt urf fallback =
    let added = if_not_empty txt (codes "URF") urf in
    if added.1 then added.0 else (if_not_empty added.0 (codes "URF") fallback).0

-- The texts of the items from "UUID" on, and these items.
pub record TailTexts : Type 0 where
  pub location : Bytes
  pub model : Bytes
  pub product : Bytes
  pub formats : Bytes

unfoldable pub tail_items :
    IppPrinterInfo → Features → List (Bytes × Bytes) → TailTexts → TxtRecord → TxtRecord
unfolding add add_pdl if_not_empty url_if_not_empty lookup
tail_items ippinfo found devid texts txt =
    let id = (if_not_empty txt (codes "UUID") ippinfo.uuid).0 in
    let color = (if_not_empty id (codes "Color") found.color).0 in
    let duplex' = (if_not_empty color (codes "Duplex") found.sides).0 in
    let total = add (add duplex' (codes "note") texts.location) (codes "qtotal") (codes "1") in
    let mdl = (if_not_empty total (codes "usb_MDL") (text_at (codes "MDL") devid)).0 in
    let mfg = (if_not_empty mdl (codes "usb_MFG") (text_at (codes "MFG") devid)).0 in
    let cmd = (if_not_empty mfg (codes "usb_CMD") (text_at (codes "CMD") devid)).0 in
    let ty = (if_not_empty cmd (codes "ty") texts.model).0 in
    let product' = (if_not_empty ty (codes "product") texts.product).0 in
    let pdl = add_pdl product' (codes "pdl") texts.formats in
    let vers = add pdl (codes "txtvers") (codes "1") in
    (url_if_not_empty vers (codes "adminurl") ippinfo.admin_url).0

-- `uuid` is `UUID` of the device.
module _ (lower : Bytes → Bytes) (uuid : UsbDeviceInfo → Bytes) where
  abbrev pub get_uuid : Attributes → Bytes
  get_uuid attrs = uuid_normalize (str_single lower (codes "printer-uuid") attrs)

  unfoldable pub decode_info : Attributes → UsbDeviceInfo → IppPrinterInfo
  unfolding str_single uuid_normalize make_and_model
  decode_info attrs usbinfo =
      let make_and_model' = make_and_model usbinfo in
      let info' = or_else (str_single lower (codes "printer-info") attrs) make_and_model' in
      let model = or_else (str_single lower (codes "printer-make-and-model") attrs) info' in
      record {
        dns_sd_name = or_else (str_single lower (codes "printer-dns-sd-name") attrs) model;
        uuid = or_else (get_uuid attrs) (uuid usbinfo);
        admin_url = str_single lower (codes "printer-more-info") attrs;
        icon_url = str_single lower (codes "printer-icons") attrs;
        ipp_svc_index = 0;
      }

  -- The TXT record, up to "URF", and from "UUID" on.
  unfoldable pub decode_head : Attributes → Features → List (Bytes × Bytes) → TxtRecord
  unfolding add if_not_empty add_urf str_single str_joined lookup
  decode_head attrs found devid =
      let t = add [] (codes "air") (codes "none") in
      let certified = str_single lower (codes "mopria-certified") attrs in
      let t' = (if_not_empty t (codes "mopria-certified") certified).0 in
      let t'' = add (add t' (codes "rp") (codes "ipp/print")) (codes "priority") (codes "50") in
      let kind =
        (if_not_empty t'' (codes "kind") (str_joined lower (codes "printer-kind") attrs)).0 in
      let paper = (if_not_empty kind (codes "PaperMax") found.paper_max).0 in
      add_urf paper (str_joined lower (codes "urf-supported") attrs) (text_at (codes "URF") devid)

  unfoldable pub decode_tail :
      Attributes → IppPrinterInfo → Features → List (Bytes × Bytes) → TxtRecord → TxtRecord
  unfolding tail_items str_single str_joined str_brackets
  decode_tail attrs ippinfo found devid txt =
      tail_items ippinfo found devid
        (record {
          location = str_single lower (codes "printer-location") attrs;
          model = str_single lower (codes "printer-make-and-model") attrs;
          product = str_brackets lower (codes "printer-make-and-model") attrs;
          formats = str_joined lower (codes "document-format-supported") attrs;
        })
        txt

  abbrev pub service_of : TxtRecord → DnsSdSvcInfo
  service_of txt = record {
    instance_name = [];
    service_type = codes "_ipp._tcp";
    sub_types = codes "_universal._sub._ipp._tcp" ∷ [];
    port = 0;
    txt = txt;
    loopback = false;
  }

  abbrev pub decode_txt : Attributes → IppPrinterInfo → Features → TxtRecord
  decode_txt attrs ippinfo found =
      let devid = device_id [] (split (str_single lower (codes "printer-device-id") attrs) b';') in
      decode_tail attrs ippinfo found devid (decode_head attrs found devid)

  abbrev pub decode_with :
      Attributes → IppPrinterInfo → Option Features → Option (IppPrinterInfo × DnsSdSvcInfo)
  decode_with attrs ippinfo none = none
  decode_with attrs ippinfo (some found) =
      some (ippinfo, service_of (decode_txt attrs ippinfo found))

  unfoldable pub decode : Attributes → UsbDeviceInfo → Option (IppPrinterInfo × DnsSdSvcInfo)
  unfolding features decode_info decode_head decode_tail device_id str_single split
  decode attrs usbinfo = decode_with attrs (decode_info attrs usbinfo) (features attrs)
