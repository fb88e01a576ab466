-- ===== src/DevState.antt =====
-- devstate.go: the persistent state of a device, and the allocation of its HTTP port. The state's
-- path, comment and the writing of its file are not in the model.
-- Children: DevState/Loading (what `load` leaves) and DevState/Allocation (`HTTPListen`).
pub mod Loading
pub mod Allocation
use ipp_usb.Base.{
  ℕ, zero, suc, ◌+◌, ◌-◌, Bool, true, false, not, ◌&&◌, leb, ◌==◌, if◌then◌else◌, Option, none,
  some, List, [], ◌∷◌, Bytes, codes, bytes_eq, length,
}
use ipp_usb.IniFile.Records.{
  IniRecord, IniFile, Next, found, eof, syntax, Message, open_ini_file, next,
}
use ipp_usb.IniFile.Values.{BadValue, Loaded, load_ip_port}
use ipp_usb.Conf.{Configuration}

pub record DevState : Type 0 where
  pub ident : Bytes
  pub http_port : ℕ
  pub dns_sd_name : Bytes
  pub dns_sd_override : Bytes

abbrev pub new_state : Bytes → DevState
new_state ident = record { ident = ident; http_port = 0; dns_sd_name = []; dns_sd_override = [] }

pub data StateError : Type 0 where
  bad_port : BadValue → StateError
  bad_syntax : ℕ → Message → StateError

abbrev pub set_port : DevState → Loaded ℕ → DevState × Option BadValue
set_port state x = (record state { http_port = x.0 }, x.1)

-- The switches of `load`. `loadTCPPort` does what `LoadIPPort` does.
unfoldable pub load_record : DevState → IniRecord → DevState × Option BadValue
unfolding bytes_eq load_ip_port
load_record state rec =
    if bytes_eq rec.section (codes "device")
    then if bytes_eq rec.key (codes "http-port")
      then set_port state (load_ip_port rec state.http_port)
      else if bytes_eq rec.key (codes "dns-sd-name")
      then (record state { dns_sd_name = rec.value }, none)
      else if bytes_eq rec.key (codes "dns-sd-override")
      then (record state { dns_sd_override = rec.value }, none)
      else (state, none)
    else (state, none)

abbrev pub after_record :
    (DevState → Option (DevState × Option StateError))
    → DevState × Option BadValue
    → Option (DevState × Option StateError)
after_record again (state, some e) = some (state, some (bad_port e))
after_record again (state, none) = again state

-- The loop of `load`, which changes the state in place: an error leaves what was loaded before it.
-- Each record takes at least one byte of the file; `none` means that fuel ran out.
unfoldable pub load_loop : ℕ → IniFile → DevState → Option (DevState × Option StateError)
unfolding next load_record
load_loop zero ini state = none
load_loop (suc f) ini state = elim (next ini) [
  | none ↦ none
  | some (eof, ini') ↦ some (state, none)
  | some (syntax line message, ini') ↦ some (state, some (bad_syntax line message))
  | some (found rec, ini') ↦ after_record (load_loop f ini') (load_record state rec)
]

unfoldable pub load : Bytes → Bytes → DevState → Option (DevState × Option StateError)
unfolding load_loop open_ini_file
load path file state = load_loop (length file + 1) (open_ini_file path file false) state

-- `LoadDevState`; `none` is a file that cannot be opened.
unfoldable pub load_dev_state : Bytes → Bytes → Option Bytes → Option DevState
unfolding load
load_dev_state ident path none = some (new_state ident)
load_dev_state ident path (some file) = elim (load path file (new_state ident)) [
  | none ↦ none
  | some (state, e) ↦ some state
]

-- A Go map from ports to file names: the newest entry of a port stands first.
abbrev pub Ports : Type 0
Ports = List (ℕ × Bytes)

-- `ports[port]`, the empty name where there is no entry.
unfoldable pub used_by : Ports → ℕ → Bytes
used_by [] port = []
used_by ((p, name) ∷ ports) port =
    let older = used_by ports port in if p == port then name else older

-- What a state file adds: the files that do not load are passed over.
abbrev pub note_port : Bytes → Ports → DevState × Option StateError → Ports
note_port name ports (state, some e) = ports
note_port name ports (state, none) =
    if state.http_port == 0 then ports else (state.http_port, name) ∷ ports

-- The loop of `LoadUsedPorts`, over the names and contents of the regular files that can be opened,
-- in the order of the directory.
unfoldable pub load_used_ports : List (Bytes × Bytes) → Ports → Option Ports
unfolding load
load_used_ports [] ports = some ports
load_used_ports ((name, file) ∷ files) ports = elim (load name file (new_state [])) [
  | none ↦ none
  | some loaded ↦ load_used_ports files (note_port name ports loaded)
]

-- What `HTTPListen` returns: the port of the listener, if any, the state, and whether it was saved.
pub record Listened : Type 0 where
  pub port : Option ℕ
  pub state : DevState
  pub saved : Bool

-- The ports from `port` on that the loop goes through, `n` of them: the first that is chosen.
unfoldable pub first_port : (ℕ → Bool) → ℕ → ℕ → Option ℕ
first_port chosen zero port = none
first_port chosen (suc n) port =
    let later = first_port chosen n (suc port) in if chosen port then some port else later

abbrev pub allocated : DevState → ℕ → Listened
allocated state p = record { port = some p; state = record state { http_port = p }; saved = true }

-- `listens p` tells if `NewListener` succeeds on port `p`.
module _ (listens : ℕ → Bool) (conf : Configuration) (used : Ports) where
  -- The number of rounds of a loop over the configured range.
  abbrev pub range_size : ℕ
  range_size = suc conf.http_max_port - conf.http_min_port

  abbrev pub in_range : ℕ → Bool
  in_range p = leb conf.http_min_port p && leb p conf.http_max_port

  -- A port that no device uses, and that can be listened on.
  unfoldable pub is_free : ℕ → Bool
  unfolding used_by bytes_eq
  is_free p = bytes_eq (used_by used p) [] && listens p

  abbrev pub second_pass : DevState → Option ℕ → Listened
  second_pass state none = record { port = none; state = state; saved = false }
  second_pass state (some p) = allocated state p

  abbrev pub first_pass : DevState → Option ℕ → Listened
  first_pass state none = second_pass state (first_port listens range_size conf.http_min_port)
  first_pass state (some p) = allocated state p

  -- The port of the state is tried first, if it is not 0 and within the range.
  abbrev pub keeps : DevState → Bool
  keeps state = in_range state.http_port && not (state.http_port == 0) && listens state.http_port

  -- `HTTPListen`
  unfoldable pub http_listen : DevState → Listened
  unfolding first_port is_free
  http_listen state =
      if keeps state
      then record { port = some state.http_port; state = state; saved = false }
      else first_pass state (first_port is_free range_size conf.http_min_port)
