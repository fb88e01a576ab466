-- ===== src/UsbTransport/Opening.antt =====
-- `NewUsbTransport`, `hardReset`, `openUsbConn`, `destroy` and `Close` of usbtransport.go: what they
-- do to the device. What the device answers is a parameter: whether it opens, the information it
-- gives the first and the second time, whether it is configured, and which of its interfaces open.
-- A quirk that has no value of its type, at which the getters of quirks.go panic, is taken for the
-- type's zero value; the quirks that were loaded have none (Quirks/Loaded). Logging is left out.
-- Child: Opening/Resources (what is open afterwards).
pub mod Resources
use ipp_usb.Base.{
  ℕ, zero, suc, ◌+◌, ◌-◌, Bool, true, false, not, ◌||◌, ltb, ◌==◌, if◌then◌else◌, Option, none,
  some, List, [], ◌∷◌, ◌++◌, Bytes, length, ℤ, map,
}
use ipp_usb.UsbCommon.{
  UsbAddr, UsbIfDesc, UsbDeviceInfo, is_empty, Missed, check_missed, make_and_model,
}
use ipp_usb.Quirks.Parsing.{ResetMethod, reset_none, reset_soft, reset_hard}
use ipp_usb.Quirks.{Quirks, new_quirks, pull_by_hwid, pull_by_model_name}
use ipp_usb.Quirks.Getters.{
  get_blacklist, get_init_delay, get_init_reset, get_mfg, get_model, get_request_delay,
  get_usb_max_interfaces,
}
use ipp_usb.UsbTransport.Pool.{ConnPool, filled, new_usb_conn_state}
use ipp_usb.UsbTransport.Conn.{UsbConn}

pub record UsbIfAddr : Type 0 where
  pub addr : UsbAddr
  pub num : ℕ
  pub alt : ℕ
  pub input : ℕ
  pub output : ℕ

pub record UsbDeviceDesc : Type 0 where
  pub addr : UsbAddr
  pub vendor : ℕ
  pub product : ℕ
  pub config : ℤ
  pub if_addrs : List UsbIfAddr
  pub if_descs : List UsbIfDesc

-- ErrBlackListed, a missing text of `CheckMissed`, or an error of libusb.
pub data OpenError : Type 0 where
  blacklisted usb_error : OpenError
  missed : Missed → OpenError

-- The device as it is left: whether it is open, which of its interfaces are, and how often it was
-- reset; with the flag `doneHardReset` of the transport.
pub record Handle : Type 0 where
  pub is_open : Bool
  pub interfaces : List ℕ
  pub resets : ℕ
  pub done_hard_reset : Bool

pub record Device : Type 0 where
  pub opens : Bool
  pub first_info : Option UsbDeviceInfo
  pub second_info : Option UsbDeviceInfo
  pub configures : Bool
  pub interface_opens : ℕ → Bool

pub data Result (A : Type 0) : Type 0 where
  ok : A → Result A
  failed : OpenError → Result A

pub record UsbTransport : Type 0 where
  pub addr : UsbAddr
  pub info : UsbDeviceInfo
  pub quirks : Quirks
  pub conn_list : List UsbConn
  pub pool : ConnPool

abbrev pub or_zero {ℓ} : {A : Type ℓ} → A → Option A → A
or_zero zero_value none = zero_value
or_zero zero_value (some a) = a

abbrev pub is_hard : ResetMethod → Bool
is_hard reset_hard = true
is_hard _ = false

-- `hardReset`
unfoldable pub hard_reset : Bool → Handle → Handle
hard_reset force dev =
    if not dev.done_hard_reset || force
    then record dev { resets = suc dev.resets; done_hard_reset = true }
    else dev

-- `dev.Close`
abbrev pub close_device : Handle → Handle
close_device dev = record dev { is_open = false }

abbrev pub reread : Option UsbDeviceInfo → Result UsbDeviceInfo
reread none = failed usb_error
reread (some info) = elim (check_missed info) [ none ↦ ok info | some m ↦ failed (missed m) ]

-- The device information: if a text of it is missing, it is read again after a reset.
abbrev pub checked_info :
    Option UsbDeviceInfo → UsbDeviceInfo → Handle → Option Missed → Result UsbDeviceInfo × Handle
checked_info second info dev none = (ok info, dev)
checked_info second info dev (some m) = (reread second, hard_reset true dev)

unfoldable pub read_info :
    Option UsbDeviceInfo → Option UsbDeviceInfo → Handle → Result UsbDeviceInfo × Handle
unfolding check_missed hard_reset
read_info none second dev = (failed usb_error, dev)
read_info (some info) second dev = checked_info second info dev (check_missed info)

abbrev pub overridden : Bytes → Bytes → Bytes
overridden quirk old = if is_empty quirk then old else quirk

-- `conn.destroy` for each connection that was opened, then `dev.Close`.
unfoldable pub destroy_all : List UsbConn → Handle → Handle
destroy_all [] dev = close_device dev
destroy_all (conn ∷ conns) dev =
    destroy_all conns (record dev { interfaces = closed conn.index dev.interfaces })
  where
    closed : ℕ → List ℕ → List ℕ
    closed i [] = []
    closed i (j ∷ interfaces) = if i == j then interfaces else j ∷ closed i interfaces

-- `text` is time.ParseDuration, `canonical` is http.CanonicalHeaderKey, and `now` the time.
module _ (text : Bytes → Option ℤ) (canonical : Bytes → Bytes) (now : ℕ) where
  -- `openUsbConn` of an interface that opens. A soft reset that fails is logged only.
  unfoldable pub open_usb_conn : Quirks → ℕ → UsbConn
  unfolding get_init_delay get_request_delay
  open_usb_conn quirks index = record {
    index = index;
    delay_until = now + or_zero 0 (get_init_delay text quirks);
    delay_interval = or_zero 0 (get_request_delay text quirks);
    cnt_recv = 0;
    cnt_sent = 0;
    eof_seen = false;
  }

  -- The loop over the interfaces from number `index` on, at most `maxconn` of them, as `opened` ones
  -- are already open: those that are then, and whether one did not open.
  unfoldable pub open_conns :
      Quirks
      → (ℕ → Bool)
      → ℕ
      → ℕ
      → List UsbIfAddr
      → List UsbConn
      → Handle
      → Bool × List UsbConn × Handle
  unfolding open_usb_conn
  open_conns quirks opens maxconn index [] opened dev = (true, opened, dev)
  open_conns quirks opens maxconn index (ifaddr ∷ if_addrs) opened dev =
      let dev' = record dev { interfaces = dev.interfaces ++ index ∷ [] } in
      let opened' = opened ++ open_usb_conn quirks index ∷ [] in
      let rest = open_conns quirks opens (maxconn - 1) (suc index) if_addrs opened' dev' in
      if opens index
      then if maxconn == 1 then (true, opened', dev') else rest
      else (false, opened, dev)

  abbrev pub reset_if_hard : Quirks → Handle → Handle
  reset_if_hard quirks dev =
      if is_hard (or_zero reset_none (get_init_reset text quirks))
      then hard_reset false dev
      else dev

  abbrev pub max_conns : Quirks → ℕ
  max_conns quirks =
      let maxconn = or_zero 0 (get_usb_max_interfaces text quirks) in
      if maxconn == 0 then 4294967295 else maxconn

  -- The end of `NewUsbTransport`, behind the loop.
  abbrev pub connected :
      UsbDeviceDesc
      → UsbDeviceInfo
      → Quirks
      → Bool × List UsbConn × Handle
      → Result UsbTransport × Handle
  connected desc info quirks (false, conns, dev) = (failed usb_error, destroy_all conns dev)
  connected desc info quirks (true, conns, dev) = (
    ok record {
      addr = desc.addr;
      info = info;
      quirks = quirks;
      conn_list = conns;
      pool = record (filled (length conns)) {
        connstate = new_usb_conn_state (length desc.if_addrs);
      };
    },
    dev,
  )

  -- From the second test for a blacklisted device on.
  unfoldable pub configure :
      UsbDeviceDesc → Device → Quirks → UsbDeviceInfo → Handle → Result UsbTransport × Handle
  unfolding get_blacklist get_init_reset get_usb_max_interfaces open_conns hard_reset destroy_all
  configure desc device quirks info dev =
      let dev' = reset_if_hard quirks dev in
      if or_zero false (get_blacklist text quirks)
      then (failed blacklisted, destroy_all [] dev)
      else if device.configures
      then connected desc info quirks
          (open_conns quirks device.interface_opens (max_conns quirks) 0 desc.if_addrs [] dev')
      else (failed usb_error, destroy_all [] dev')

  -- The names of the quirks, and then the quirks of the device's model.
  abbrev pub identified :
      UsbDeviceDesc
      → Device
      → List Quirks
      → Quirks
      → Result UsbDeviceInfo × Handle
      → Result UsbTransport × Handle
  identified desc device qdb quirks (failed e, dev) = (failed e, close_device dev)
  identified desc device qdb quirks (ok info, dev) =
      let info' = record info {
        manufacturer = overridden (or_zero [] (get_mfg text quirks)) info.manufacturer;
        product_name = overridden (or_zero [] (get_model text quirks)) info.product_name;
      } in
      let quirks' = pull_by_model_name canonical quirks qdb (make_and_model info') in
      configure desc device quirks' info' dev

  -- What is done with the device once it is open.
  unfoldable pub with_device :
      UsbDeviceDesc → Device → List Quirks → Quirks → Handle → Result UsbTransport × Handle
  unfolding pull_by_model_name get_blacklist get_init_reset get_mfg get_model read_info
      make_and_model configure
  with_device desc device qdb quirks dev =
      if or_zero false (get_blacklist text quirks)
      then (failed blacklisted, close_device dev)
      else identified desc device qdb quirks
          (read_info device.first_info device.second_info (reset_if_hard quirks dev))

  unfoldable pub new_usb_transport :
      UsbDeviceDesc → Device → List Quirks → Result UsbTransport × Handle
  unfolding pull_by_hwid with_device
  new_usb_transport desc device qdb =
      let quirks = pull_by_hwid canonical new_quirks qdb desc.vendor desc.product in
      let dev : Handle = record {
        is_open = device.opens;
        interfaces = [];
        resets = 0;
        done_hard_reset = false;
      } in
      if device.opens then with_device desc device qdb quirks dev else (failed usb_error, dev)
