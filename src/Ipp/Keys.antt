-- ===== src/Ipp/Keys.antt =====
-- The keys of the TXT record of a printer's service.
use ipp_usb.Base.{
  is_among, ◌≡◌, refl, ap, Bool, true, false, not, ◌&&◌, if_cases, if◌then◌else◌, Option, none,
  some, List, [], ◌∷◌, ◌++◌, map, Bytes, codes, arith, split, leb, ◌==◌, ◌+◌, ◌-◌, take, length,
}
use ipp_usb.UsbCommon.{UsbDeviceInfo, is_empty}
use ipp_usb.Dnssd.{
  DnsSdTxtItem, TxtRecord, add, add_pdl, add_front, before_last, if_not_empty, url_if_not_empty,
  add_url,
}
use ipp_usb.Ipp.{Attributes, IppPrinterInfo, str_single, str_joined, str_brackets}
use ipp_usb.Ipp.Decoding.{
  Features, TailTexts, text_at, add_urf, tail_items, device_id, decode_head, decode_tail,
  decode_txt,
}
use ipp_usb.Ipp.Query.{fax_items}

abbrev pub keys : TxtRecord → List Bytes
keys txt = map (λ item. item.key) txt

-- The first list is the second one, with some elements left out.
pub data Sub : List Bytes → List Bytes → Type 0 where
  stop : Sub [] []
  skip : {k : Bytes} {ks ms : List Bytes} → Sub ks ms → Sub ks (k ∷ ms)
  keep : {k : Bytes} {ks ms : List Bytes} → Sub ks ms → Sub (k ∷ ks) (k ∷ ms)

keys-append :
    (txt : TxtRecord) (item : DnsSdTxtItem) → keys (txt ++ item ∷ []) ≡ keys txt ++ item.key ∷ []
keys-append [] item = refl
keys-append (first ∷ txt) item = ap (λ ks. first.key ∷ ks) (keys-append txt item)

Sub-skip_last : {ks ms : List Bytes} (k : Bytes) → Sub ks ms → Sub ks (ms ++ k ∷ [])
Sub-skip_last k stop = skip stop
Sub-skip_last k (skip s) = skip (Sub-skip_last k s)
Sub-skip_last k (keep s) = keep (Sub-skip_last k s)

Sub-keep_last : {ks ms : List Bytes} (k : Bytes) → Sub ks ms → Sub (ks ++ k ∷ []) (ms ++ k ∷ [])
Sub-keep_last k stop = keep stop
Sub-keep_last k (skip s) = skip (Sub-keep_last k s)
Sub-keep_last k (keep s) = keep (Sub-keep_last k s)

is_among-Sub :
    (k : Bytes) {ks ms : List Bytes} → Sub ks ms → is_among k ms ≡ false → is_among k ks ≡ false
is_among-Sub k stop h = h
is_among-Sub k (skip s) h = is_among-Sub k s (ground (arith, h))
is_among-Sub k (keep s) h = ground (arith, h, is_among-Sub k s)

-- No text stands in the list twice.
abbrev pub distinct : List Bytes → Bool
distinct [] = true
distinct (k ∷ ks) = not (is_among k ks) && distinct ks

pub distinct-Sub : {ks ms : List Bytes} → Sub ks ms → distinct ms ≡ true → distinct ks ≡ true
distinct-Sub stop h = h
distinct-Sub (skip s) h = distinct-Sub s (ground (arith, h))
distinct-Sub (keep {k} s) h = ground (arith, h, is_among-Sub k s, distinct-Sub s)

-- The keys of the record are keys of the list, in its order, and none of them stands there twice.
pub record KeysAmong (txt : TxtRecord) (ms : List Bytes) : Type 0 where
  pub sub : Sub (keys txt) ms

keys_among : {txt : TxtRecord} {ms : List Bytes} → Sub (keys txt) ms → KeysAmong txt ms
keys_among s = record { sub = s }

module _ {txt : TxtRecord} {ms : List Bytes} (key value : Bytes) (s : KeysAmong txt ms) where
  more :
      (url : Bool)
      → KeysAmong (txt ++ record { key = key; value = value; url = url } ∷ []) (ms ++ key ∷ [])
  more url = keys_among (rw (keys-append txt _) (Sub-keep_last key s.sub))

  fewer : KeysAmong txt (ms ++ key ∷ [])
  fewer = keys_among (Sub-skip_last key s.sub)

  pub add-KeysAmong : KeysAmong (add txt key value) (ms ++ key ∷ [])
  unfolding add
  add-KeysAmong = more false

  if_not_empty-KeysAmong : KeysAmong (if_not_empty txt key value).0 (ms ++ key ∷ [])
  unfolding if_not_empty
  if_not_empty-KeysAmong =
      if_cases (λ (r : TxtRecord × Bool). KeysAmong r.0 (ms ++ key ∷ [])) (is_empty value)
        (txt, false) (add txt key value, true) (λ e. fewer) (λ e. add-KeysAmong)

  url_if_not_empty-KeysAmong : KeysAmong (url_if_not_empty txt key value).0 (ms ++ key ∷ [])
  unfolding url_if_not_empty add_url
  url_if_not_empty-KeysAmong =
      if_cases (λ (r : TxtRecord × Bool). KeysAmong r.0 (ms ++ key ∷ [])) (is_empty value)
        (txt, false) (add_url txt key value, true) (λ e. fewer) (λ e. more true)

module _ {txt : TxtRecord} {ms : List Bytes} (key value : Bytes) (s : KeysAmong txt ms) where
  add_front-KeysAmong : (o : Option Bytes) → KeysAmong (add_front txt key o) (ms ++ key ∷ [])
  add_front-KeysAmong none = fewer key value s
  add_front-KeysAmong (some front) = add-KeysAmong key front s

  add_pdl-KeysAmong : KeysAmong (add_pdl txt key value) (ms ++ key ∷ [])
  unfolding add_pdl
  add_pdl-KeysAmong =
      let max = 255 - (length key + 1) in
      let front = before_last 44 (take (max + 1) value) in
      if_cases (λ (r : TxtRecord). KeysAmong r (ms ++ key ∷ []))
        (leb (length key + 1) 255 && leb (length value) max) (add txt key value)
        (if max == 0 then txt else add_front txt key front) (λ e. add-KeysAmong key value s)
        (λ e.
          if_cases (λ (r : TxtRecord). KeysAmong r (ms ++ key ∷ [])) (max == 0) txt
            (add_front txt key front) (λ k. fewer key value s) (λ k. add_front-KeysAmong front))

module _ {txt : TxtRecord} {ms : List Bytes} (s : KeysAmong txt ms) where
  add_urf-KeysAmong :
      (urf fallback : Bytes) → KeysAmong (add_urf txt urf fallback) (ms ++ codes "URF" ∷ [])
  unfolding add_urf if_not_empty
  add_urf-KeysAmong [] fallback = if_not_empty-KeysAmong (codes "URF") fallback s
  add_urf-KeysAmong (c ∷ urf) fallback = add-KeysAmong (codes "URF") (c ∷ urf) s

  pub fax_items-KeysAmong :
      (can_fax : Bool)
      → KeysAmong (fax_items can_fax txt) ((ms ++ codes "Fax" ∷ []) ++ codes "rfo" ∷ [])
  fax_items-KeysAmong true = add-KeysAmong _ _ (add-KeysAmong _ _ s)
  fax_items-KeysAmong false = fewer _ [] (add-KeysAmong (codes "Fax") (codes "F") s)

abbrev pub head_keys : List Bytes
head_keys =
    codes "air"
    ∷ codes "mopria-certified"
    ∷ codes "rp"
    ∷ codes "priority"
    ∷ codes "kind"
    ∷ codes "PaperMax"
    ∷ codes "URF"
    ∷ []

abbrev pub tail_keys : List Bytes
tail_keys =
    codes "UUID"
    ∷ codes "Color"
    ∷ codes "Duplex"
    ∷ codes "note"
    ∷ codes "qtotal"
    ∷ codes "usb_MDL"
    ∷ codes "usb_MFG"
    ∷ codes "usb_CMD"
    ∷ codes "ty"
    ∷ codes "product"
    ∷ codes "pdl"
    ∷ codes "txtvers"
    ∷ codes "adminurl"
    ∷ []

module _ (lower : Bytes → Bytes) (uuid : UsbDeviceInfo → Bytes) where
  decode_head-KeysAmong :
      (attrs : Attributes) (found : Features) (devid : List (Bytes × Bytes))
      → KeysAmong (decode_head lower uuid attrs found devid) head_keys
  unfolding decode_head
  decode_head-KeysAmong attrs found devid =
      let air = add-KeysAmong {txt = []} (codes "air") (codes "none") (keys_among stop) in
      let certified = if_not_empty-KeysAmong (codes "mopria-certified") _ air in
      let rp = add-KeysAmong (codes "rp") (codes "ipp/print") certified in
      let kind = if_not_empty-KeysAmong (codes "kind") _ (add-KeysAmong _ (codes "50") rp) in
      add_urf-KeysAmong (if_not_empty-KeysAmong (codes "PaperMax") found.paper_max kind) _
        (text_at (codes "URF") devid)

tail_items-KeysAmong :
    (ippinfo : IppPrinterInfo) (found : Features) (devid : List (Bytes × Bytes)) (texts : TailTexts)
    (txt : TxtRecord)
    → KeysAmong txt head_keys
    → KeysAmong (tail_items ippinfo found devid texts txt) (head_keys ++ tail_keys)
unfolding tail_items
tail_items-KeysAmong ippinfo found devid texts txt s =
    let color = if_not_empty-KeysAmong _ found.color (if_not_empty-KeysAmong _ ippinfo.uuid s) in
    let note = add-KeysAmong _ texts.location (if_not_empty-KeysAmong _ found.sides color) in
    let total = add-KeysAmong _ (codes "1") note in
    let mdl = if_not_empty-KeysAmong _ (text_at (codes "MDL") devid) total in
    let mfg = if_not_empty-KeysAmong _ (text_at (codes "MFG") devid) mdl in
    let cmd = if_not_empty-KeysAmong _ (text_at (codes "CMD") devid) mfg in
    let ty = if_not_empty-KeysAmong _ texts.model cmd in
    let product = if_not_empty-KeysAmong _ texts.product ty in
    let vers = add-KeysAmong _ (codes "1") (add_pdl-KeysAmong _ texts.formats product) in
    url_if_not_empty-KeysAmong (codes "adminurl") ippinfo.admin_url vers

module _ (lower : Bytes → Bytes) (uuid : UsbDeviceInfo → Bytes) where
  decode_tail-KeysAmong :
      (attrs : Attributes) (ippinfo : IppPrinterInfo) (found : Features)
      (devid : List (Bytes × Bytes)) (txt : TxtRecord)
      → KeysAmong txt head_keys
      → KeysAmong (decode_tail lower uuid attrs ippinfo found devid txt) (head_keys ++ tail_keys)
  unfolding decode_tail
  decode_tail-KeysAmong attrs ippinfo found devid txt s =
      tail_items-KeysAmong ippinfo found devid
        (record {
          location = str_single lower (codes "printer-location") attrs;
          model = str_single lower (codes "printer-make-and-model") attrs;
          product = str_brackets lower (codes "printer-make-and-model") attrs;
          formats = str_joined lower (codes "document-format-supported") attrs;
        })
        txt s

  pub decode_txt-KeysAmong :
      (attrs : Attributes) (ippinfo : IppPrinterInfo) (found : Features)
      → KeysAmong (decode_txt lower uuid attrs ippinfo found) (head_keys ++ tail_keys)
  decode_txt-KeysAmong attrs ippinfo found =
      let devid = device_id [] (split (str_single lower (codes "printer-device-id") attrs) b';') in
      decode_tail-KeysAmong attrs ippinfo found devid _
        (decode_head-KeysAmong lower uuid attrs found devid)
