-- ===== src/Tests/Plugging.antt =====
-- A device with three interfaces is plugged in: its USB transport, its start, and the loop that
-- serves it.
use ipp_usb.Base.{
  ◌≡◌, ℕ, refl, true, false, ltb, Option, none, some, List, [], ◌∷◌, Bytes, codes, ℤ, pos,
}
use ipp_usb.UsbCommon.{UsbAddr, UsbDeviceInfo, add}
use ipp_usb.UsbTransport.Opening.{UsbIfAddr, UsbDeviceDesc, new_usb_transport}
use ipp_usb.UsbTransport.Opening
use ipp_usb.UsbTransport.Opening.Resources.{Kept, new_usb_transport-Kept}
use ipp_usb.Dnssd.{add_pdl, DnsSdSvcInfo}
use ipp_usb.Dnssd.Lengths.{Fits, add_pdl-Fits}
use ipp_usb.Device.{Answers, new_device}
use ipp_usb.Device.Starting.{Settled, new_device-Settled}
use ipp_usb.Pnp.{Pnp, Round, NewDevice, device, failed, blacklisted, add_all, round}
use ipp_usb.Pnp
use ipp_usb.Uuid.{uuid_normalize}
use ipp_usb.Pnp.Tracking.{After, Listed, Reach, first, next, Reach-After, Tracks}

abbrev addr : UsbAddr
addr = record { bus = 1; address = 5 }

abbrev interface : ℕ → UsbIfAddr
interface n = record { addr = addr; num = n; alt = 1; input = 129; output = 1 }

abbrev desc : UsbDeviceDesc
desc = record {
  addr = addr;
  vendor = 0x03f0;
  product = 0x2b17;
  config = pos 1;
  if_addrs = interface 0 ∷ interface 1 ∷ interface 2 ∷ [];
  if_descs = [];
}

abbrev info : UsbDeviceInfo
info = record {
  vendor = 0x03f0;
  product = 0x2b17;
  serial_number = codes "X1";
  manufacturer = codes "HP";
  product_name = codes "Laser";
  port_num = 3;
  basic_caps = 3;
}

-- Its third interface does not open.
abbrev usb_device : Opening.Device
usb_device = record {
  opens = true;
  first_info = some info;
  second_info = none;
  configures = true;
  interface_opens = λ n. ltb n 2;
}

abbrev no_duration : Bytes → Option ℤ
no_duration text = some (pos 0)

new_usb_transport-Kept_example :
    Kept no_duration
      (λ name. name)
      7
      desc
      (new_usb_transport no_duration (λ name. name) 7 desc usb_device [])
new_usb_transport-Kept_example =
    new_usb_transport-Kept no_duration (λ name. name) 7 desc usb_device []

abbrev service : DnsSdSvcInfo
service = record {
  instance_name = [];
  service_type = codes "_ipp._tcp";
  sub_types = [];
  port = 60000;
  txt = [];
  loopback = false;
}

-- The printer answers, the scanner does not.
abbrev answers : Answers
answers = record {
  transport_opens = true;
  info = info;
  can_print = true;
  can_scan = true;
  init_retry_partial = false;
  init_timeout = 30;
  listens = true;
  state = record {
    ident = codes "a";
    http_port = 60000;
    dns_sd_name = codes "HP Laser";
    dns_sd_override = codes "HP Laser";
  };
  ipp = record { error = none; http_status = 200; services = service ∷ [] };
  ipp_info = some record {
    dns_sd_name = codes "HP Laser 40";
    uuid = [];
    admin_url = [];
    icon_url = [];
    ipp_svc_index = 0;
  };
  timed_out_by_ipp = false;
  escl = record { error = some false; http_status = 404; services = [] };
  timed_out_by_escl = false;
  dns_sd_enable = true;
  publishes = true;
}

abbrev texts : ℕ → ℕ → Bytes
texts a b = a ∷ b ∷ []

new_device-Settled_example : Settled texts texts 1 answers (new_device texts texts 1 answers)
new_device-Settled_example = new_device-Settled texts texts 1 answers

add_pdl-Fits_example :
    Fits []
      (codes "pdl")
      (codes "image/pwg-raster,image/urf")
      (add_pdl [] (codes "pdl") (codes "image/pwg-raster,image/urf"))
add_pdl-Fits_example = add_pdl-Fits [] (codes "pdl") (codes "image/pwg-raster,image/urf")

-- A device, by its port. The first round finds one, that starts; the second finds none.
abbrev found : Option (List UsbAddr) → Round ℕ
found descs = record {
  descs = descs;
  added = λ a. device 60000;
  added_at = λ a. 10;
  looked_at = λ a. 20;
  retried = λ a. failed blacklisted;
  retried_at = λ a. 30;
}

abbrev port_of : ℕ → ℕ
port_of port = port

addr-Listed : Listed port_of (some (addr ∷ []))
unfolding add_all add
addr-Listed = (tt, tt)

abbrev served : Pnp ℕ
served = record {
  devices = addr ∷ [];
  dev_by_addr = (addr, 60000) ∷ [];
  retry_by_addr = [];
  status_table = (addr, record { init = none; http_port = 60000 }) ∷ [];
  ticker_running = false;
  closed = [];
}

served-Reach : Reach port_of served
unfolding round add_all add
served-Reach = next true (found (some (addr ∷ []))) Pnp.start served first addr-Listed refl

nil-Listed : Listed port_of (some [])
unfolding add_all
nil-Listed = tt

Reach-After_example :
    Tracks port_of served × After port_of (round port_of true (found (some [])) served)
Reach-After_example = Reach-After port_of served true (found (some [])) served-Reach nil-Listed

raw_uuid :
    uuid_normalize (codes "urn:UUID:0123456789ABCDEF0123456789abcdef")
    ≡ codes "01234567-89ab-cdef-0123-456789abcdef"
unfolding uuid_normalize
raw_uuid = refl
