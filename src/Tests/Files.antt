-- ===== src/Tests/Files.antt =====
-- Configuration files and state files of a few lines.
use ipp_usb.Base.{
  ℕ, ◌≡◌, inl, refl, Bool, true, false, none, some, List, [], ◌∷◌, ◌++◌, Bytes, codes, length,
  arith, parse_uint, ◌==◌, ◌||◌,
}
use ipp_usb.IniFile.Reader.{start}
use ipp_usb.IniFile.Token.{token}
use ipp_usb.IniFile.Termination.{EndsNl}
use ipp_usb.IniFile.Hanging.{token-hangs}
use ipp_usb.IniFile.Progress.{Progressed, next-Progressed}
use ipp_usb.IniFile.Records.{key_val, IniRecord, open_ini_file, next}
use ipp_usb.IniFile.Values.{load_auth_uid_rules, load_size, size_units, last_byte}
use ipp_usb.IniFile.Limits.{SizeLoaded, size_digits, load_size-SizeLoaded}
use ipp_usb.Conf.{match_name, conf_match_name, initial, conf_load_internal}
use ipp_usb.Conf.Validity.{HasPorts, FileValid, conf_load_internal-FileValid}
use ipp_usb.DevState.{new_state, is_free, http_listen, load}
use ipp_usb.IniFile.Rules.{RulesLoaded, load_auth_uid_rules-RulesLoaded}
use ipp_usb.Conf.Names.{squeezed, either_prefix, match_name-either_prefix}
use ipp_usb.DevState.Loading.{StateLoaded, load-StateLoaded}
use ipp_usb.DevState.Allocation.{
  Sound, http_listen-Sound, Preferred, http_listen-Preferred, IsSome, http_listen-IsSome,
}
use ipp_usb.LineWriter.{LineWriter, write}
use ipp_usb.LineWriter.Chunks.{write-append}

-- The bytes of a line, with its newline.
abbrev line : Bytes → Bytes
line s = s ++ b'\n' ∷ []

abbrev conf_file : Bytes
conf_file = line (codes "[network]") ++ line (codes "http-min-port = 60010 # first")

conf_file-EndsNl : EndsNl conf_file
conf_file-EndsNl = refl

next-Progressed_example :
    Progressed (length conf_file) (next (open_ini_file (codes "a.conf") conf_file false))
unfolding open_ini_file
next-Progressed_example =
    next-Progressed (open_ini_file (codes "a.conf") conf_file false) conf_file-EndsNl

-- The value of a key, with a string and a comment.
abbrev value_text : Bytes
value_text = line (codes " \"a b\" c ; d")

token-hangs_example : token 1000 (start (b'\\' ∷ [])) none true ≡ none
token-hangs_example = token-hangs (start (b'\\' ∷ [])) refl 1000

initial-HasPorts : HasPorts initial
initial-HasPorts = ((omega arith, omega arith), (omega arith, omega arith))

conf_load_internal-FileValid_example :
    FileValid (conf_load_internal (codes "a.conf") conf_file initial)
conf_load_internal-FileValid_example =
    conf_load_internal-FileValid (codes "a.conf") conf_file initial conf_file-EndsNl
      initial-HasPorts

abbrev state_file : Bytes
state_file = line (codes "[device]") ++ line (codes "http-port = 60001")

load-StateLoaded_example : StateLoaded (load (codes "a.state") state_file (new_state (codes "a")))
load-StateLoaded_example =
    load-StateLoaded (codes "a.state") state_file (new_state (codes "a")) refl (inl refl)

-- Port 60001 is used by a device, and only 60001 and 60002 can be listened on.
abbrev listens : ℕ → Bool
listens p = p == 60001 || p == 60002

abbrev used : List (ℕ × Bytes)
used = (60001, codes "b.state") ∷ []

free_port : is_free listens initial used 60002 ≡ true
unfolding is_free
free_port = refl

http_listen-Sound_example :
    Sound listens initial
      (new_state (codes "a"))
      (http_listen listens initial used (new_state (codes "a")))
http_listen-Sound_example = http_listen-Sound listens initial used (new_state (codes "a"))

http_listen-Preferred_example :
    Preferred listens initial used
      (new_state (codes "a"))
      60002
      (http_listen listens initial used (new_state (codes "a"))).port
http_listen-Preferred_example =
    http_listen-Preferred listens initial used (new_state (codes "a")) 60002 (omega arith)
      (omega arith) free_port

http_listen-IsSome_example : IsSome (http_listen listens initial used (new_state (codes "a"))).port
http_listen-IsSome_example =
    http_listen-IsSome listens initial used (new_state (codes "a")) 60001 (omega arith)
      (omega arith) refl

-- A record with a value.
abbrev valued : Bytes → IniRecord
valued v = record {
  section = codes "logging";
  key = codes "max-file-size";
  value = v;
  file = codes "a.conf";
  line = 2;
  type = key_val;
}

load_size-SizeLoaded_example :
    SizeLoaded 5
      (size_units (last_byte (codes "256K")))
      (parse_uint (size_digits (codes "256K")) 10 64)
      (load_size (valued (codes "256K")) 5).1
load_size-SizeLoaded_example = load_size-SizeLoaded (valued (codes "256K")) 5

load_size-kilobytes : (load_size (valued (codes "256K")) 5).1 ≡ (262144, none)
unfolding load_size
load_size-kilobytes = refl

abbrev writer : LineWriter
writer = record { prefix = []; buf = codes "ab"; lines = [] }

write-append_example :
    (write writer (codes "c\nd" ++ codes "e\n")).0
    ≡ (write (write writer (codes "c\nd")).0 (codes "e\n")).0
write-append_example = write-append writer (codes "c\nd") (codes "e\n")

load_auth_uid_rules-RulesLoaded_example : RulesLoaded [] (
    load_auth_uid_rules
      (record (valued (codes "root, @lp, root")) { key = codes "print, scan" })
      [])
load_auth_uid_rules-RulesLoaded_example =
    load_auth_uid_rules-RulesLoaded
      (record (valued (codes "root, @lp, root")) { key = codes "print, scan" }) []

-- A name with a tab and blanks, and a pattern that it is a beginning of.
abbrev blank_name : Bytes
blank_name = codes " auth\t  u"

match_name-either_prefix_example :
    match_name blank_name (codes "auth uid")
    ≡ some (either_prefix (squeezed blank_name) (squeezed (codes "auth uid")))
match_name-either_prefix_example =
    match_name-either_prefix blank_name (codes "auth uid") (omega arith) (omega arith)

blank_name_matches : conf_match_name blank_name (codes "auth uid") ≡ true
unfolding conf_match_name
blank_name_matches = refl

-- Two names that the loop never ends on.
endless : match_name (0x85 ∷ []) (0xA0 ∷ []) ≡ none
unfolding match_name
endless = refl
