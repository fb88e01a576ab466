-- ===== src/Device.antt =====
-- device.go: `NewDevice`, `Shutdown` and `Close`. What the USB transport, the listener, the queries
-- for IPP and eSCL services and the publisher answer, and `fmt.Sprintf`, are parameters or
-- arguments. Logging is left out. `LoadDevState` and `HTTPListen` are in DevState, `NewUsbTransport`
-- in UsbTransport/Opening.
-- Child: Device/Starting (what is open, and what is advertised, afterwards).
pub mod Starting
use ipp_usb.Base.{
  ℕ, zero, suc, ◌+◌, Bool, true, false, not, ◌&&◌, ◌||◌, ◌==◌, if◌then◌else◌, Option, none, some,
  List, [], ◌∷◌, ◌++◌, map, Bytes, codes, bytes_eq, length,
}
use ipp_usb.UsbCommon.{UsbDeviceInfo, make_and_model}
use ipp_usb.DevState.{DevState}
use ipp_usb.Ipp.{IppPrinterInfo}
use ipp_usb.Dnssd.{TxtRecord, add, DnsSdSvcInfo, add_service}

-- The errors of `NewDevice`: those of the calls that it makes, and its own.
pub data DeviceError : Type 0 where
  transport_error listen_error publish_error : DeviceError
  err_partial_init err_init_timed_out err_unusable : DeviceError

-- What `IppService` or `EsclService` answers: the error, if any, with whether it is io.EOF, the HTTP
-- status, and the services that are added to `dnssdServices`.
pub record ServiceAnswer : Type 0 where
  pub error : Option Bool
  pub http_status : ℕ
  pub services : List DnsSdSvcInfo

-- What the code called by `NewDevice` answers, in the order of the calls.
pub record Answers : Type 0 where
  pub transport_opens : Bool
  pub info : UsbDeviceInfo
  pub can_print : Bool
  pub can_scan : Bool
  pub init_retry_partial : Bool
  pub init_timeout : ℕ
  pub listens : Bool
  pub state : DevState
  pub ipp : ServiceAnswer
  pub ipp_info : Option IppPrinterInfo
  pub timed_out_by_ipp : Bool
  pub escl : ServiceAnswer
  pub timed_out_by_escl : Bool
  pub dns_sd_enable : Bool
  pub publishes : Bool

-- What is open: the transport, with how it was closed last (the argument of its `Close`) and its
-- timeout; the listener; the proxy, if there is one, with whether it is enabled; and what is
-- published.
pub record Device : Type 0 where
  pub transport : Bool
  pub closed_with_reset : Option Bool
  pub timeout : ℕ
  pub listener : Bool
  pub proxy : Option Bool
  pub published : Option (List DnsSdSvcInfo)
  pub state : DevState
  pub saved : Bool

pub data Started : Type 0 where
  ok : Device → Started
  failed : DeviceError → Device → Started
  panicked : Device → Started

abbrev pub resets : DeviceError → Bool
resets err_unusable = false
resets err_partial_init = false
resets _ = true

-- The code at ERROR.
unfoldable pub give_up : DeviceError → Device → Started
give_up e dev = failed e record dev {
  proxy = none;
  transport = false;
  closed_with_reset = if dev.transport then some (resets e) else dev.closed_with_reset;
  listener = false;
}

-- `canRetry`, with the two tests that stand beside it, where there was an error.
abbrev pub retries_after : Option Bool → ℕ → Bool → Bool → Bool
retries_after none http_status can retry_partial = false
retries_after (some is_eof) http_status can retry_partial =
    (not (http_status == 0) || is_eof) && can && retry_partial

abbrev pub retries : ServiceAnswer → Bool → Bool → Bool
retries answer can retry_partial = retries_after answer.error answer.http_status can retry_partial

abbrev pub advertised_name : Option IppPrinterInfo → UsbDeviceInfo → Bytes
advertised_name none info = make_and_model info
advertised_name (some ipp_info) info = ipp_info.dns_sd_name

-- The device state, if its name changed.
unfoldable pub rename_state : Bytes → Device → Device
unfolding bytes_eq
rename_state name dev = if bytes_eq name dev.state.dns_sd_name then dev else record dev {
  state = record (dev.state) { dns_sd_name = name; dns_sd_override = name };
  saved = true;
}

abbrev pub in_front : DnsSdSvcInfo → Option (List DnsSdSvcInfo) → Option (List DnsSdSvcInfo)
in_front svc none = none
in_front svc (some services) = some (svc ∷ services)

-- `Txt.Add` on the service of a given index; `none` is the panic of an index out of range.
unfoldable pub add_txt_at : ℕ → Bytes → Bytes → List DnsSdSvcInfo → Option (List DnsSdSvcInfo)
unfolding add
add_txt_at i key value [] = none
add_txt_at zero key value (svc ∷ services) =
    some (record svc { txt = add svc.txt key value } ∷ services)
add_txt_at (suc i) key value (svc ∷ services) = in_front svc (add_txt_at i key value services)

abbrev pub scan_flag : Option Bool → Bytes
scan_flag none = codes "T"
scan_flag (some is_eof) = codes "F"

abbrev pub with_scan :
    Option IppPrinterInfo → Option Bool → List DnsSdSvcInfo → Option (List DnsSdSvcInfo)
with_scan none error services = some services
with_scan (some ipp_info) error services =
    add_txt_at ipp_info.ipp_svc_index (codes "Scan") (scan_flag error) services

-- `hwid` and `bus_port` are the texts made by `fmt.Sprintf` of the vendor and the product, and of
-- the bus and the port.
module _ (hwid : ℕ → ℕ → Bytes) (bus_port : ℕ → ℕ → Bytes) (bus : ℕ) where
  abbrev pub common : UsbDeviceInfo → DnsSdSvcInfo → DnsSdSvcInfo
  common info svc = record svc {
    txt =
        add (add svc.txt (codes "usb_SER") info.serial_number) (codes "usb_HWID")
          (hwid info.vendor info.product);
  }

  abbrev pub http_service : DevState → DnsSdSvcInfo
  http_service state = record {
    instance_name = [];
    service_type = codes "_http._tcp";
    sub_types = [];
    port = state.http_port;
    txt = [];
    loopback = false;
  }

  abbrev pub ipp_usb_service : DevState → UsbDeviceInfo → DnsSdSvcInfo
  ipp_usb_service state info = record {
    instance_name = bus_port bus info.port_num;
    service_type = codes "_ipp-usb._tcp";
    sub_types = [];
    port = state.http_port;
    txt = [];
    loopback = true;
  }

  -- All services, where there are some.
  unfoldable pub all_services : DevState → UsbDeviceInfo → List DnsSdSvcInfo → List DnsSdSvcInfo
  unfolding add add_service
  all_services state info services =
      add_service (add_service (map (common info) services) (http_service state))
        (ipp_usb_service state info)

  abbrev pub publish : Answers → Device → List DnsSdSvcInfo → Started
  publish a dev services =
      if a.dns_sd_enable
      then if a.publishes
        then ok (record dev { published = some services })
        else give_up publish_error dev
      else ok dev

  -- From the test for services on.
  unfoldable pub enable : Answers → Device → List DnsSdSvcInfo → Started
  unfolding all_services give_up
  enable a dev services =
      if length services == 0
      then give_up err_unusable dev
      else publish a (record dev { timeout = 0; proxy = some true })
          (all_services dev.state a.info services)

  abbrev pub enable_scanned : Answers → Device → Option (List DnsSdSvcInfo) → Started
  enable_scanned a dev none = panicked dev
  enable_scanned a dev (some services) = enable a dev services

  -- From the query for eSCL on.
  unfoldable pub query_escl : Answers → Device → List DnsSdSvcInfo → Started
  unfolding enable give_up add_txt_at
  query_escl a dev services =
      if retries a.escl a.can_scan a.init_retry_partial
      then give_up err_partial_init dev
      else if a.timed_out_by_escl
      then give_up err_init_timed_out dev
      else enable_scanned a dev (with_scan a.ipp_info a.escl.error (services ++ a.escl.services))

  -- From the query for IPP on.
  unfoldable pub query_ipp : Answers → Device → Started
  unfolding query_escl give_up rename_state make_and_model
  query_ipp a dev =
      if retries a.ipp a.can_print a.init_retry_partial
      then give_up err_partial_init dev
      else if a.timed_out_by_ipp
      then give_up err_init_timed_out dev
      else query_escl a (rename_state (advertised_name a.ipp_info a.info) dev) a.ipp.services

  unfoldable pub new_device : Answers → Started
  unfolding query_ipp give_up
  new_device a =
      let dev : Device = record {
        transport = a.transport_opens;
        closed_with_reset = none;
        timeout = 0;
        listener = false;
        proxy = none;
        published = none;
        state = a.state;
        saved = false;
      } in
      if not a.transport_opens
      then give_up transport_error dev
      else if not a.listens
      then give_up listen_error dev
      else query_ipp a
          (record dev { listener = true; timeout = a.init_timeout; proxy = some false })

-- `Shutdown`: the error of the transport's `Shutdown`, if it is asked for one.
unfoldable pub shutdown : Bool → Device → Device × Bool
shutdown transport_fails dev =
    (record dev { published = none; proxy = none }, dev.transport && transport_fails)

-- `Close`
unfoldable pub close : Device → Device
close dev = record dev {
  published = none;
  proxy = none;
  transport = false;
  closed_with_reset = if dev.transport then some false else dev.closed_with_reset;
}
