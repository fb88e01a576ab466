-- ===== src/Dnssd.antt =====
-- dnssd.go: TXT records, services, and the names of service instances. `net/url` and the publishing
-- itself are not in the model.
-- Child: Dnssd/Lengths (what fits in a TXT record and in a name).
pub mod Lengths
use ipp_usb.Base.{
  ℕ, zero, suc, ◌+◌, ◌-◌, Bool, true, false, not, ◌&&◌, leb, ltb, ◌==◌, if◌then◌else◌, Option, none,
  some, List, [], ◌∷◌, ◌++◌, Bytes, codes, bytes_eq, take, length, itoa,
}
use ipp_usb.UsbCommon.{is_empty}
use ipp_usb.DevState.{DevState}

pub record DnsSdTxtItem : Type 0 where
  pub key : Bytes
  pub value : Bytes
  pub url : Bool

abbrev pub TxtRecord : Type 0
TxtRecord = List DnsSdTxtItem

-- `Add` and `AddURL` of DNSSdTxtRecord.
unfoldable pub add : TxtRecord → Bytes → Bytes → TxtRecord
add txt key value = txt ++ record { key = key; value = value; url = false } ∷ []

unfoldable pub add_url : TxtRecord → Bytes → Bytes → TxtRecord
add_url txt key value = txt ++ record { key = key; value = value; url = true } ∷ []

-- The bytes in front of the last one that equals `c`: `value[:strings.LastIndexByte(value, c)]`.
unfoldable pub before_last : ℕ → Bytes → Option Bytes
before_last c [] = none
before_last c (x ∷ value) = elim (before_last c value) [
  | some front ↦ some (x ∷ front)
  | none ↦ if x == c then some [] else none
]

abbrev pub add_front : TxtRecord → Bytes → Option Bytes → TxtRecord
add_front txt key none = txt
add_front txt key (some front) = add txt key front

-- `AddPDL`. `max` is Go's `int`, which is not positive where the subtraction here stops at zero.
unfoldable pub add_pdl : TxtRecord → Bytes → Bytes → TxtRecord
unfolding add before_last
add_pdl txt key value =
    let max = 255 - (length key + 1) in
    if leb (length key + 1) 255 && leb (length value) max
    then add txt key value
    else if max == 0
    then txt
    else add_front txt key (before_last 44 (take (max + 1) value))

-- `IfNotEmpty` and `URLIfNotEmpty`
unfoldable pub if_not_empty : TxtRecord → Bytes → Bytes → TxtRecord × Bool
unfolding add
if_not_empty txt key value = if is_empty value then (txt, false) else (add txt key value, true)

unfoldable pub url_if_not_empty : TxtRecord → Bytes → Bytes → TxtRecord × Bool
unfolding add_url
url_if_not_empty txt key value =
    if is_empty value then (txt, false) else (add_url txt key value, true)

-- `export`: the items as texts, in the reverse order.
unfoldable pub export : TxtRecord → List Bytes
export [] = []
export (item ∷ txt) = export txt ++ (item.key ++ 61 ∷ item.value) ∷ []

pub record DnsSdSvcInfo : Type 0 where
  pub instance_name : Bytes
  pub service_type : Bytes
  pub sub_types : List Bytes
  pub port : ℕ
  pub txt : TxtRecord
  pub loopback : Bool

-- `Add` of DNSSdServices.
unfoldable pub add_service : List DnsSdSvcInfo → DnsSdSvcInfo → List DnsSdSvcInfo
add_service services srv = services ++ srv ∷ []

-- The name and the suffix that `instance` chooses.
abbrev pub named : DevState → ℕ → Bytes × Bytes
named state suffix =
    if not (suffix == 0)
    then (state.dns_sd_name, codes " (USB " ++ (itoa suffix ++ codes ")"))
    else if bytes_eq state.dns_sd_name state.dns_sd_override
    then (state.dns_sd_name, codes " (USB)")
    else (state.dns_sd_override, [])

abbrev pub fitted : Bytes × Bytes → Bytes
fitted (name, suffix) =
    if ltb 63 (length name + length suffix)
    then take (63 - length suffix) name ++ suffix
    else name ++ suffix

-- `instance` of DNSSdPublisher. A suffix of more than 63 bytes, with which Go panics, has a number of
-- more than 56 digits, which no `int` has.
unfoldable pub instance_of : DevState → ℕ → Bytes
unfolding itoa bytes_eq
instance_of state suffix = fitted (named state suffix)
