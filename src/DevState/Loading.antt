-- ===== src/DevState/Loading.antt =====
-- The state behind `load` of devstate.go.
use ipp_usb.Base.{
  All, List, [], ◌∷◌, false, ◌==◌, if_cases, refl, inl, ℕ, zero, suc, ◌+◌, ◌<◌, ◌≡◌, ◌⊎◌, inr,
  Option, none, some, Bytes, codes, bytes_eq, length, arith,
}
use ipp_usb.IniFile.Termination.{EndsNl}
use ipp_usb.IniFile.Progress.{Progressed, next-Progressed}
use ipp_usb.IniFile.Records.{IniRecord, IniFile, Next, found, eof, syntax, open_ini_file, next}
use ipp_usb.IniFile.Values.{BadValue, Loaded}
use ipp_usb.IniFile.Limits.{IsPort, PortLoaded, load_ip_port-PortLoaded}
use ipp_usb.DevState.{
  Ports, new_state, note_port, load_used_ports, DevState, StateError, bad_syntax, set_port,
  load_record, after_record, load_loop, load,
}

-- No port is allocated, or a TCP port is.
abbrev pub HasPort : DevState → Type 0
HasPort state = (state.http_port ≡ 0) ⊎ IsPort state.http_port

abbrev RecordLoaded : DevState × Option BadValue → Type 0
RecordLoaded x = HasPort x.0

set_port-HasPort :
    (state : DevState) (x : Loaded ℕ)
    → HasPort state
    → PortLoaded state.http_port x
    → HasPort (set_port state x).0
set_port-HasPort state (p, none) h l = inr l
set_port-HasPort state (p, some e) h l = rw l h

load_record-HasPort :
    (state : DevState) (rec : IniRecord) → HasPort state → HasPort (load_record state rec).0
unfolding load_record
load_record-HasPort state rec h =
    if_cases RecordLoaded (bytes_eq rec.section (codes "device")) _ _
      (λ _.
        if_cases RecordLoaded (bytes_eq rec.key (codes "http-port")) _ _
          (λ _. set_port-HasPort state _ h (load_ip_port-PortLoaded rec state.http_port))
          (λ _.
            if_cases RecordLoaded (bytes_eq rec.key (codes "dns-sd-name")) _ _ (λ _. h)
              (λ _.
                if_cases RecordLoaded (bytes_eq rec.key (codes "dns-sd-override")) _ _ (λ _. h)
                  (λ _. h))))
      (λ _. h)

-- `load` returns, and leaves such a state.
abbrev pub StateLoaded : Option (DevState × Option StateError) → Type 0
StateLoaded none = ⊥
StateLoaded (some (state, e)) = HasPort state

after_record-StateLoaded :
    (again : DevState → Option (DevState × Option StateError)) (x : DevState × Option BadValue)
    → ((state : DevState) → HasPort state → StateLoaded (again state))
    → HasPort x.0
    → StateLoaded (after_record again x)
after_record-StateLoaded again (state, some e) ih h = h
after_record-StateLoaded again (state, none) ih h = ih state h

next_record-StateLoaded :
    (f n : ℕ) (o : Option (Next × IniFile)) (state : DevState)
    → ((ini' : IniFile) (state' : DevState)
        → EndsNl ini'.reader.unread
        → length ini'.reader.unread < n
        → HasPort state'
        → StateLoaded (load_loop f ini' state'))
    → Progressed n o
    → HasPort state
    → StateLoaded (elim o [
      | none ↦ none
      | some (eof, ini') ↦ some (state, none)
      | some (syntax line message, ini') ↦ some (state, some (bad_syntax line message))
      | some (found rec, ini') ↦ after_record (load_loop f ini') (load_record state rec)
    ])
next_record-StateLoaded f n none state ih p h = absurd p
next_record-StateLoaded f n (some (eof, ini')) state ih p h = h
next_record-StateLoaded f n (some (syntax line message, ini')) state ih p h = h
next_record-StateLoaded f n (some (found rec, ini')) state ih p h =
    after_record-StateLoaded (load_loop f ini') (load_record state rec)
      (λ state'. ih ini' state' p.0 p.1) (load_record-HasPort state rec h)

load_loop-StateLoaded :
    (f : ℕ) (ini : IniFile) (state : DevState)
    → EndsNl ini.reader.unread
    → length ini.reader.unread < f
    → HasPort state
    → StateLoaded (load_loop f ini state)
unfolding load_loop
load_loop-StateLoaded zero ini state e b h = absurd (omega arith)
load_loop-StateLoaded (suc f) ini state e b h =
    next_record-StateLoaded f (length ini.reader.unread) (next ini) state
      (λ ini' state' e' b' h'. load_loop-StateLoaded f ini' state' e' (omega arith) h')
      (next-Progressed ini e) h

-- `load` returns on a file that is empty or ends with a newline. If the state's port was 0 or a TCP
-- port, it is 0 or a TCP port afterwards, even if `load` returns an error.
pub load-StateLoaded :
    (path file : Bytes) (state : DevState)
    → EndsNl file
    → HasPort state
    → StateLoaded (load path file state)
unfolding load open_ini_file
load-StateLoaded path file state e h =
    load_loop-StateLoaded (length file + 1) (open_ini_file path file false) state e (omega arith) h

-- Every port that is used is a TCP port.
abbrev pub AllPorts : Ports → Type 0
AllPorts ports = All (λ (x : ℕ × Bytes). IsPort x.0) ports

note_port-AllPorts :
    (name : Bytes) (ports : Ports) (state : DevState) (e : Option StateError)
    → HasPort state
    → AllPorts ports
    → AllPorts (note_port name ports (state, e))
note_port-AllPorts name ports state (some e) h a = a
note_port-AllPorts name ports state none h a =
    if_cases AllPorts (state.http_port == 0) _ _ (λ _. a) (λ n. (allocated_port h n, a))
  where
    allocated_port : HasPort state → (state.http_port == 0) ≡ false → IsPort state.http_port
    allocated_port (inr p) n = p
    allocated_port (inl z) n = ground (arith, z)

-- All files were read, and every port that is used is a TCP port.
abbrev pub PortsLoaded : Option Ports → Type 0
PortsLoaded none = ⊥
PortsLoaded (some ports) = AllPorts ports

-- `LoadUsedPorts` returns if every state file is empty or ends with a newline, and then all the
-- ports that it notes are TCP ports, whatever the files say.
pub load_used_ports-PortsLoaded :
    (files : List (Bytes × Bytes)) (ports : Ports)
    → All (λ (x : Bytes × Bytes). EndsNl x.1) files
    → AllPorts ports
    → PortsLoaded (load_used_ports files ports)
unfolding load_used_ports
load_used_ports-PortsLoaded [] ports h a = a
load_used_ports-PortsLoaded ((name, file) ∷ files) ports h a =
    after (load name file (new_state [])) (load-StateLoaded name file (new_state []) h.0 (inl refl))
      (λ ports'. load_used_ports-PortsLoaded files ports' h.1)
  where
    after :
        (o : Option (DevState × Option StateError))
        → StateLoaded o
        → ((ports' : Ports) → AllPorts ports' → PortsLoaded (load_used_ports files ports'))
        → PortsLoaded (elim o [
          | none ↦ none
          | some loaded ↦ load_used_ports files (note_port name ports loaded)
        ])
    after none k ih = absurd k
    after (some (state, e)) k ih = ih _ (note_port-AllPorts name ports state e k a)
