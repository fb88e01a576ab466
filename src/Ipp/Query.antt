-- ===== src/Ipp/Query.antt =====
-- ipp.go: the queries for printer attributes, and `IppService`. The HTTP client's answers to a
-- request and goipp's decoder are parameters. Logging is left out.
use Prim.Native.Nat.{bit_and}
use ipp_usb.Base.{
  ℕ, ◌/◌, Bool, true, false, not, ◌&&◌, leb, ◌==◌, if◌then◌else◌, Option, none, some, List, [], ◌∷◌,
  ◌++◌, map, length, Bytes, codes, itoa,
}
use ipp_usb.UsbCommon.{UsbDeviceInfo}
use ipp_usb.Quirks.Parsing.{BuggyIppRsp, rsp_allow}
use ipp_usb.Dnssd.{TxtRecord, add, DnsSdSvcInfo, add_service}
use ipp_usb.Ipp.{string, Values, Attributes, IppPrinterInfo, new_ipp_attrs}
use ipp_usb.Ipp.Decoding.{decode}

-- The attributes that are asked for, unless all are.
abbrev pub requested_names : List Bytes
requested_names =
    codes "color-supported"
    ∷ codes "document-format-supported"
    ∷ codes "media-size-supported"
    ∷ codes "mopria-certified"
    ∷ codes "printer-device-id"
    ∷ codes "printer-dns-sd-name"
    ∷ codes "printer-icons"
    ∷ codes "printer-info"
    ∷ codes "printer-kind"
    ∷ codes "printer-location"
    ∷ codes "printer-make-and-model"
    ∷ codes "printer-more-info"
    ∷ codes "printer-uuid"
    ∷ codes "sides-supported"
    ∷ codes "urf-supported"
    ∷ []

abbrev pub requested : Bool → List Bytes
requested log_all_printer_attrs =
    if log_all_printer_attrs then codes "all" ∷ [] else requested_names

abbrev pub text_values : List Bytes → Values
text_values texts = map (λ s. string s) texts

-- The operation attributes of the request.
unfoldable pub operation : Bool → Bytes → Attributes
operation log_all_printer_attrs uri =
    (codes "attributes-charset", text_values (codes "utf-8" ∷ []))
    ∷ (codes "attributes-natural-language", text_values (codes "en-US" ∷ []))
    ∷ (codes "printer-uri", text_values (uri ∷ []))
    ∷ (codes "requested-attributes", text_values (requested log_all_printer_attrs))
    ∷ []

-- What the client answers: an error, with whether it is io.EOF, or a response with its status and
-- its body, where that can be read.
pub data Posted : Type 0 where
  post_error : Bool → Posted
  response : ℕ → Option Bytes → Posted

-- A decoded message: its code and the printer's attributes.
pub record Message : Type 0 where
  pub code : ℕ
  pub printer : Attributes

pub data QueryError : Type 0 where
  http_error : Bool → QueryError
  http_status_error read_error decode_error : QueryError
  ipp_error : ℕ → QueryError

-- `ErrIsEOF`. All errors but that of the client are wrapped.
abbrev pub is_eof : QueryError → Bool
is_eof (http_error eof) = eof
is_eof _ = false

-- What a query returns: a message, or an error with the HTTP status.
pub data Queried : Type 0 where
  received : Message → Queried
  failed : QueryError → ℕ → Queried

-- The part of a query behind the decoder.
abbrev pub check_code : Bool → Option Message → Queried
check_code ignore_ipp_status none = failed decode_error 0
check_code ignore_ipp_status (some msg) =
    if leb 0x100 msg.code && not ignore_ipp_status
    then failed (ipp_error msg.code) 0
    else received msg

abbrev pub enables_workarounds : BuggyIppRsp → Bool
enables_workarounds rsp_allow = true
enables_workarounds _ = false

abbrev pub print_uri : ℕ → Bytes
print_uri port = codes "ipp://localhost:" ++ (itoa port ++ codes "/ipp/print")

abbrev pub faxout_uri : ℕ → Bytes
faxout_uri port = codes "ipp://localhost:" ++ (itoa port ++ codes "/ipp/faxout")

-- `UsbIppBasicCapsFax`
abbrev pub has_fax : UsbDeviceInfo → Bool
has_fax usbinfo = not (bit_and usbinfo.basic_caps 4 == 0)

abbrev pub succeeds : Queried → Bool
succeeds (received msg) = true
succeeds (failed e http_status) = false

abbrev pub fax_items : Bool → TxtRecord → TxtRecord
fax_items can_fax txt =
    if can_fax
    then add (add txt (codes "Fax") (codes "T")) (codes "rfo") (codes "ipp/faxout")
    else add txt (codes "Fax") (codes "F")

abbrev pub lpd_service : DnsSdSvcInfo
lpd_service = record {
  instance_name = [];
  service_type = codes "_printer._tcp";
  sub_types = [];
  port = 0;
  txt = [];
  loopback = false;
}

-- What `IppService` returns: the error, if any, the HTTP status, the printer's information, if any,
-- and the services.
pub record ServiceResult : Type 0 where
  pub error : Option QueryError
  pub http_status : ℕ
  pub info : Option IppPrinterInfo
  pub services : List DnsSdSvcInfo

abbrev pub pack :
    List DnsSdSvcInfo → ℕ → Bool → Option (IppPrinterInfo × DnsSdSvcInfo) → Option ServiceResult
pack services port can_fax none = none
pack services port can_fax (some (info, svc)) =
    let with_lpd = add_service services lpd_service in
    some record {
      error = none;
      http_status = 0;
      info = some (record info { ipp_svc_index = length with_lpd });
      services = add_service with_lpd (record svc { txt = fax_items can_fax svc.txt; port = port });
    }

-- The client's answers, by the URI and the operation attributes, goipp's decoder, with its option
-- for workarounds, and what the configuration and the quirks say.
module _ (post : Bytes → Attributes → Posted) (decode_bytes : Bool → Bytes → Option Message)
    (log_all_printer_attrs : Bool) (buggy_ipp_rsp : BuggyIppRsp) (ignore_ipp_status : Bool) where
  abbrev pub check_body : Option Bytes → Queried
  check_body none = failed read_error 0
  check_body (some data') =
      check_code ignore_ipp_status (decode_bytes (enables_workarounds buggy_ipp_rsp) data')

  abbrev pub check_response : Posted → Queried
  check_response (post_error eof) = failed (http_error eof) 0
  check_response (response http_status body) =
      if not (http_status / 100 == 2) then failed http_status_error http_status else check_body body

  unfoldable pub get_printer_attributes : Bytes → Queried
  unfolding operation
  get_printer_attributes uri = check_response (post uri (operation log_all_printer_attrs uri))

  -- Whether there is a fax: the second query is made only for a device that claims one.
  unfoldable pub probe_fax : Bool → UsbDeviceInfo → ℕ → Bool
  unfolding get_printer_attributes itoa
  probe_fax disable_fax usbinfo port =
      if has_fax usbinfo && not disable_fax
      then succeeds (get_printer_attributes (faxout_uri port))
      else false

  module _ (lower : Bytes → Bytes) (uuid : UsbDeviceInfo → Bytes) (disable_fax : Bool) where
    abbrev pub serve : List DnsSdSvcInfo → ℕ → UsbDeviceInfo → Queried → Option ServiceResult
    serve services port usbinfo (failed e http_status) =
        some record { error = some e; http_status = http_status; info = none; services = services }
    serve services port usbinfo (received msg) =
        pack services port (probe_fax disable_fax usbinfo port)
          (decode lower uuid (new_ipp_attrs msg.printer) usbinfo)

    -- `IppService`; a `none` is a panic.
    unfoldable pub ipp_service : List DnsSdSvcInfo → ℕ → UsbDeviceInfo → Option ServiceResult
    unfolding get_printer_attributes probe_fax decode new_ipp_attrs add_service itoa
    ipp_service services port usbinfo =
        serve services port usbinfo (get_printer_attributes (print_uri port))
