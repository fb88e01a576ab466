-- ===== src/Conf.antt =====
-- conf.go: the program's configuration. `LogMaxFileSize`, `LogMaxBackupFiles` and the ports are
-- numbers that are not negative. The quirks that `ConfLoad` reads behind the configuration files
-- are those of Quirks/Files.
-- Children: Conf/Validity (what a configuration that was loaded satisfies) and Conf/Names (which
-- names match).
pub mod Validity
pub mod Names
use ipp_usb.Base.{
  ℕ, zero, suc, ◌+◌, ◌*◌, Bool, true, false, not, ◌&&◌, ltb, leb, ◌==◌, if◌then◌else◌, Option, none,
  some, List, [], ◌∷◌, Bytes, codes, is_space, trim_space, length, ◌||◌,
}
use ipp_usb.Auth.Rules.{AuthUidRule}
use ipp_usb.IniFile.Records.{
  IniRecord, IniFile, Next, found, eof, syntax, Message, open_ini_file, next,
}
use ipp_usb.IniFile.Values.{
  BadValue, Loaded, LogLevel, log_none, load_ip_port, load_named_bool, load_bool, load_uint,
  load_size, load_log_level, load_auth_uid_rules,
}

pub record Configuration : Type 0 where
  pub http_min_port : ℕ
  pub http_max_port : ℕ
  pub dns_sd_enable : Bool
  pub loopback_only : Bool
  pub ipv6_enable : Bool
  pub conf_auth_uid : List AuthUidRule
  pub log_device : LogLevel
  pub log_main : LogLevel
  pub log_console : LogLevel
  pub log_max_file_size : ℕ
  pub log_max_backup_files : ℕ
  pub log_all_printer_attrs : Bool
  pub color_console : Bool

abbrev log_debug_only : LogLevel
log_debug_only = record log_none { debug = true }

-- `Conf`, as the program starts.
abbrev pub initial : Configuration
initial = record {
  http_min_port = 60000;
  http_max_port = 65535;
  dns_sd_enable = true;
  loopback_only = true;
  ipv6_enable = true;
  conf_auth_uid = [];
  log_device = log_debug_only;
  log_main = log_debug_only;
  log_console = log_debug_only;
  log_max_file_size = 256 * 1024;
  log_max_backup_files = 5;
  log_all_printer_attrs = false;
  color_console = true;
}

-- unicode.IsSpace of a byte that is taken for a rune.
unfoldable pub is_space_rune : ℕ → Bool
unfolding is_space
is_space_rune c = is_space c || c == 0x85 || c == 0xA0

-- The loop of `confMatchName`; `none` means that the fuel ran out. A byte 0x85 or 0xA0 is a blank
-- here, but strings.TrimSpace trims it only where it ends the UTF-8 text of a blank, so that the
-- program can loop for ever where both texts have such a byte.
unfoldable pub match_loop : ℕ → Bytes → Bytes → Option Bool
unfolding is_space_rune trim_space
match_loop zero name pattern = none
match_loop (suc f) [] pattern = some true
match_loop (suc f) (c1 ∷ name) [] = some true
match_loop (suc f) (c1 ∷ name) (c2 ∷ pattern) =
    let trimmed = match_loop f (trim_space (c1 ∷ name)) (trim_space (c2 ∷ pattern)) in
    let onward = match_loop f name pattern in
    if is_space_rune c1
    then if not (is_space_rune c2) then some false else trimmed
    else if c1 == c2
    then onward
    else some false

-- `confMatchName`. A round takes something off a pattern in ASCII, as all patterns of the program
-- are.
unfoldable pub match_name : Bytes → Bytes → Option Bool
unfolding match_loop trim_space
match_name name pattern = match_loop (length pattern + 1) (trim_space name) (trim_space pattern)

abbrev is_some_true : Option Bool → Bool
is_some_true none = false
is_some_true (some b) = b

-- `confMatchName` where it returns.
unfoldable pub conf_match_name : Bytes → Bytes → Bool
unfolding match_name
conf_match_name name pattern = is_some_true (match_name name pattern)

-- A configuration, and the error that ended its loading, if any.
abbrev pub Setting : Type 0
Setting = Configuration × Option BadValue

abbrev pub set_min : Configuration → Loaded ℕ → Setting
set_min c x = (record c { http_min_port = x.0 }, x.1)

abbrev pub set_max : Configuration → Loaded ℕ → Setting
set_max c x = (record c { http_max_port = x.0 }, x.1)

abbrev pub set_dns_sd : Configuration → Loaded Bool → Setting
set_dns_sd c x = (record c { dns_sd_enable = x.0 }, x.1)

abbrev pub set_loopback : Configuration → Loaded Bool → Setting
set_loopback c x = (record c { loopback_only = x.0 }, x.1)

abbrev pub set_ipv6 : Configuration → Loaded Bool → Setting
set_ipv6 c x = (record c { ipv6_enable = x.0 }, x.1)

abbrev pub set_rules : Configuration → Loaded (List AuthUidRule) → Setting
set_rules c x = (record c { conf_auth_uid = x.0 }, x.1)

abbrev pub set_device : Configuration → Loaded LogLevel → Setting
set_device c x = (record c { log_device = x.0 }, x.1)

abbrev pub set_main : Configuration → Loaded LogLevel → Setting
set_main c x = (record c { log_main = x.0 }, x.1)

abbrev pub set_console : Configuration → Loaded LogLevel → Setting
set_console c x = (record c { log_console = x.0 }, x.1)

abbrev pub set_color : Configuration → Loaded Bool → Setting
set_color c x = (record c { color_console = x.0 }, x.1)

abbrev pub set_size : Configuration → IniRecord × Loaded ℕ → Setting
set_size c x = (record c { log_max_file_size = x.1.0 }, x.1.1)

abbrev pub set_backups : Configuration → Loaded ℕ → Setting
set_backups c x = (record c { log_max_backup_files = x.0 }, x.1)

abbrev pub set_attrs : Configuration → Loaded Bool → Setting
set_attrs c x = (record c { log_all_printer_attrs = x.0 }, x.1)

-- Section [network]
unfoldable pub load_network : Configuration → IniRecord → Setting
unfolding conf_match_name load_ip_port load_named_bool
load_network c rec =
    if conf_match_name rec.key (codes "http-min-port")
    then set_min c (load_ip_port rec c.http_min_port)
    else if conf_match_name rec.key (codes "http-max-port")
    then set_max c (load_ip_port rec c.http_max_port)
    else if conf_match_name rec.key (codes "dns-sd")
    then set_dns_sd c (load_named_bool rec c.dns_sd_enable (codes "disable") (codes "enable"))
    else if conf_match_name rec.key (codes "interface")
    then set_loopback c (load_named_bool rec c.loopback_only (codes "all") (codes "loopback"))
    else if conf_match_name rec.key (codes "ipv6")
    then set_ipv6 c (load_named_bool rec c.ipv6_enable (codes "disable") (codes "enable"))
    else (c, none)

-- Section [logging]
unfoldable pub load_logging : Configuration → IniRecord → Setting
unfolding conf_match_name load_log_level load_named_bool load_size load_uint load_bool
load_logging c rec =
    if conf_match_name rec.key (codes "device-log")
    then set_device c (load_log_level rec c.log_device)
    else if conf_match_name rec.key (codes "main-log")
    then set_main c (load_log_level rec c.log_main)
    else if conf_match_name rec.key (codes "console-log")
    then set_console c (load_log_level rec c.log_console)
    else if conf_match_name rec.key (codes "console-color")
    then set_color c (load_named_bool rec c.color_console (codes "disable") (codes "enable"))
    else if conf_match_name rec.key (codes "max-file-size")
    then set_size c (load_size rec c.log_max_file_size)
    else if conf_match_name rec.key (codes "max-backup-files")
    then set_backups c (load_uint rec c.log_max_backup_files)
    else if conf_match_name rec.key (codes "get-all-printer-attrs")
    then set_attrs c (load_bool rec c.log_all_printer_attrs)
    else (c, none)

-- The switch on the section.
unfoldable pub load_setting : Configuration → IniRecord → Setting
unfolding load_network load_logging load_auth_uid_rules
load_setting c rec =
    if conf_match_name rec.section (codes "network")
    then load_network c rec
    else if conf_match_name rec.section (codes "auth uid")
    then set_rules c (load_auth_uid_rules rec c.conf_auth_uid)
    else if conf_match_name rec.section (codes "logging")
    then load_logging c rec
    else (c, none)

pub data ConfError : Type 0 where
  bad_value : BadValue → ConfError
  bad_syntax : ℕ → Message → ConfError
  bad_ports : ConfError

-- The validation behind the loop.
unfoldable pub validate : Configuration → Option ConfError
validate c = if leb c.http_max_port c.http_min_port then some bad_ports else none

-- The part of a round that follows the switch.
abbrev pub after_setting :
    (Configuration → Option (Configuration × Option ConfError))
    → Setting
    → Option (Configuration × Option ConfError)
after_setting again (c, some e) = some (c, some (bad_value e))
after_setting again (c, none) = again c

-- The loop. Each record takes at least one byte of the file; `none` means that fuel ran out.
unfoldable pub load_records :
    ℕ → IniFile → Configuration → Option (Configuration × Option ConfError)
unfolding next load_setting validate
load_records zero ini c = none
load_records (suc f) ini c = elim (next ini) [
  | none ↦ none
  | some (eof, ini') ↦ some (c, validate c)
  | some (syntax line message, ini') ↦ some (c, some (bad_syntax line message))
  | some (found rec, ini') ↦ after_setting (load_records f ini') (load_setting c rec)
]

-- `confLoadInternal` on a file that can be opened.
unfoldable pub conf_load_internal :
    Bytes → Bytes → Configuration → Option (Configuration × Option ConfError)
unfolding load_records open_ini_file
conf_load_internal path file c = load_records (length file + 1) (open_ini_file path file false) c

-- `ConfLoad` over the configuration files: `none` is a file that does not exist.
unfoldable pub conf_load :
    List (Bytes × Option Bytes) → Configuration → Option (Configuration × Option ConfError)
unfolding conf_load_internal
conf_load [] c = some (c, none)
conf_load ((path, none) ∷ files) c = conf_load files c
conf_load ((path, some file) ∷ files) c = elim (conf_load_internal path file c) [
  | none ↦ none
  | some (c', some e) ↦ some (c', some e)
  | some (c', none) ↦ conf_load files c'
]
