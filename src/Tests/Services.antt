-- ===== src/Tests/Services.antt =====
-- A request to the proxy of a device, and a printer that is asked for its attributes.
use ipp_usb.Base.{
  ℕ, ◌≡◌, refl, Bool, true, false, ◌==◌, Option, none, some, List, [], ◌∷◌, Bytes, codes,
}
use ipp_usb.UsbCommon.{UsbDeviceInfo}
use ipp_usb.Quirks.Parsing.{rsp_allow}
use ipp_usb.Auth.Rules.{AuthUidRule, ops_print, auth_uid, apply_rules, or_matches, match_user}
use ipp_usb.Auth.Request.{Host}
use ipp_usb.Http.{Environment, Request, HttpProxy, Trip, answered, serve_http}
use ipp_usb.Ipp.{string, Attributes}
use ipp_usb.Ipp.Query.{Posted, response, Message, ServiceResult, ipp_service}
use ipp_usb.Ipp.Advertised.{Served, ipp_service-Served}

-- Addresses are numbers: 1 is the loopback, 2 the host's.
abbrev auth_host : Host ℕ
auth_host = record {
  interface_addrs = some (some 2 ∷ []);
  is_loopback = λ ip. ip == 1;
  equal = λ a b. a == b;
  uid_supported = false;
  client_uid = λ client server. none;
  users = record { lookup_id = λ id. none; lookup_group_id = λ gid. none };
}

abbrev printing : List AuthUidRule
printing = record { name = codes "*"; allowed = ops_print } ∷ []

abbrev env : Environment ℕ
env = record {
  auth_host = auth_host;
  port = λ a. 60000;
  addr_text = λ a. codes "192.0.2.2:60000";
  url_text = λ u. u.host;
  lower = λ s. s;
  canonical = λ s. s;
  takes_code = λ code. true;
  bridge_mode = false;
  rules = printing;
  now = 0;
  later = 1;
}

abbrev job : Request ℕ
job = record {
  method = codes "POST";
  header = (codes "Connection", codes "close" ∷ []) ∷ (codes "Accept", codes "a" ∷ []) ∷ [];
  host = [];
  url = record { scheme = []; host = []; path = codes "/ipp/print" };
  remote_addr = some 9;
  local_addr = some 2;
}

abbrev proxy : HttpProxy
proxy = record { enable = true; on_disconnect = none; disconnected = false; on_activity = none }

abbrev fine : Request ℕ → Trip
fine r = answered 200 []

job_sent :
    (serve_http env fine proxy [] job).2.sent
    ≡ some record {
      method = codes "POST";
      header = (codes "Accept", codes "a" ∷ []) ∷ [];
      host = codes "192.0.2.2:60000";
      url = record {
        scheme = codes "http";
        host = codes "192.0.2.2:60000";
        path = codes "/ipp/print";
      };
      remote_addr = some 9;
      local_addr = some 2;
    }
unfolding serve_http auth_uid apply_rules or_matches match_user
job_sent = refl

abbrev printer_info : UsbDeviceInfo
printer_info = record {
  vendor = 0x03f0;
  product = 0x2b17;
  serial_number = codes "A1";
  manufacturer = codes "HP";
  product_name = codes "Laser";
  port_num = 3;
  basic_caps = 7;
}

abbrev attributes : Attributes
attributes =
    (codes "printer-info", string (codes "Office") ∷ [])
    ∷ (codes "sides-supported", string (codes "two-sided") ∷ [])
    ∷ []

abbrev post : Bytes → Attributes → Posted
post uri operation = response 200 (some [])

abbrev decode_bytes : Bool → Bytes → Option Message
decode_bytes workarounds text = some record { code = 0; printer = attributes }

abbrev two_texts : ℕ → ℕ → Bytes
two_texts a b = a ∷ b ∷ []

abbrev service_of_printer : Option ServiceResult
service_of_printer =
    ipp_service post decode_bytes false rsp_allow false (λ s. s) (λ i. codes "u") false [] 60000
      printer_info

ipp_service-Served_example :
    (r : ServiceResult) × ((service_of_printer ≡ some r)
      × Served two_texts two_texts 1 printer_info 60000 r)
ipp_service-Served_example =
    ipp_service-Served two_texts two_texts 1 printer_info 60000 (λ s. s) (λ i. codes "u") post
      decode_bytes false rsp_allow false false (λ workarounds text. (tt, (tt, tt)))
