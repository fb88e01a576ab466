-- ===== src/Conf/Validity.antt =====
-- What holds of the configuration behind `ConfLoad` of conf.go.
use ipp_usb.Base.{
  ℕ, zero, suc, ◌+◌, ◌<◌, subst, sym, false, if_cases, leb, if◌then◌else◌, Option, none, some,
  Bytes, codes, length, arith,
}
use ipp_usb.IniFile.Termination.{EndsNl}
use ipp_usb.IniFile.Progress.{Progressed, next-Progressed}
use ipp_usb.IniFile.Records.{IniRecord, IniFile, Next, found, eof, syntax, open_ini_file, next}
use ipp_usb.IniFile.Values.{Loaded}
use ipp_usb.IniFile.Limits.{IsPort, PortLoaded, load_ip_port-PortLoaded}
use ipp_usb.Conf.{
  Configuration, Setting, conf_match_name, load_network, load_logging, load_setting, ConfError,
  bad_syntax, validate, after_setting, load_records, conf_load_internal,
}

-- Both ends of the range of ports are ports.
abbrev pub HasPorts : Configuration → Type 0
HasPorts c = IsPort c.http_min_port × IsPort c.http_max_port

IsPort-loaded : (out : ℕ) (x : Loaded ℕ) → IsPort out → PortLoaded out x → IsPort x.0
IsPort-loaded out (v, none) h l = l
IsPort-loaded out (v, some e) h l = subst IsPort (sym l) h

abbrev SettingPorts : Setting → Type 0
SettingPorts x = HasPorts x.0

load_network-HasPorts :
    (c : Configuration) (rec : IniRecord) → HasPorts c → HasPorts (load_network c rec).0
unfolding load_network
load_network-HasPorts c rec h =
    if_cases SettingPorts (conf_match_name rec.key (codes "http-min-port")) _ _
      (λ _. (IsPort-loaded c.http_min_port _ h.0 (load_ip_port-PortLoaded rec _), h.1))
      (λ _.
        if_cases SettingPorts (conf_match_name rec.key (codes "http-max-port")) _ _
          (λ _. (h.0, IsPort-loaded c.http_max_port _ h.1 (load_ip_port-PortLoaded rec _)))
          (λ _.
            if_cases SettingPorts (conf_match_name rec.key (codes "dns-sd")) _ _ (λ _. h)
              (λ _.
                if_cases SettingPorts (conf_match_name rec.key (codes "interface")) _ _ (λ _. h)
                  (λ _.
                    if_cases SettingPorts (conf_match_name rec.key (codes "ipv6")) _ _ (λ _. h)
                      (λ _. h)))))

load_logging-HasPorts :
    (c : Configuration) (rec : IniRecord) → HasPorts c → HasPorts (load_logging c rec).0
unfolding load_logging
load_logging-HasPorts c rec h = same (codes "device-log") _ _ h (
    same (codes "main-log") _ _ h (
      same (codes "console-log") _ _ h (
        same (codes "console-color") _ _ h (
          same (codes "max-file-size") _ _ h (
            same (codes "max-backup-files") _ _ h
              (same (codes "get-all-printer-attrs") _ _ h h))))))
  where
    same :
        (pattern : Bytes) (x y : Setting)
        → HasPorts x.0
        → HasPorts y.0
        → HasPorts (if conf_match_name rec.key pattern then x else y).0
    same pattern x y k k' =
        if_cases SettingPorts (conf_match_name rec.key pattern) x y (λ _. k) (λ _. k')

load_setting-HasPorts :
    (c : Configuration) (rec : IniRecord) → HasPorts c → HasPorts (load_setting c rec).0
unfolding load_setting
load_setting-HasPorts c rec h =
    if_cases SettingPorts (conf_match_name rec.section (codes "network")) _ _
      (λ _. load_network-HasPorts c rec h)
      (λ _.
        if_cases SettingPorts (conf_match_name rec.section (codes "auth uid")) _ _ (λ _. h)
          (λ _.
            if_cases SettingPorts (conf_match_name rec.section (codes "logging")) _ _
              (λ _. load_logging-HasPorts c rec h) (λ _. h)))

-- The loading of a file returns. Both ends of the range are ports even after an error, and without
-- one, the range holds more than one port.
abbrev pub FileValid : Option (Configuration × Option ConfError) → Type 0
FileValid none = ⊥
FileValid (some (c, some e)) = HasPorts c
FileValid (some (c, none)) = HasPorts c × (c.http_min_port < c.http_max_port)

validate-FileValid : (c : Configuration) → HasPorts c → FileValid (some (c, validate c))
unfolding validate
validate-FileValid c h =
    if_cases (λ e. FileValid (some (c, e))) (leb c.http_max_port c.http_min_port) _ _ (λ _. h)
      (λ k. (h, ground arith))

after_setting-FileValid :
    (again : Configuration → Option (Configuration × Option ConfError)) (x : Setting)
    → ((c : Configuration) → HasPorts c → FileValid (again c))
    → HasPorts x.0
    → FileValid (after_setting again x)
after_setting-FileValid again (c, some e) ih h = h
after_setting-FileValid again (c, none) ih h = ih c h

next_record-FileValid :
    (f n : ℕ) (o : Option (Next × IniFile)) (c : Configuration)
    → ((ini' : IniFile) (c' : Configuration)
        → EndsNl ini'.reader.unread
        → length ini'.reader.unread < n
        → HasPorts c'
        → FileValid (load_records f ini' c'))
    → Progressed n o
    → HasPorts c
    → FileValid (elim o [
      | none ↦ none
      | some (eof, ini') ↦ some (c, validate c)
      | some (syntax line message, ini') ↦ some (c, some (bad_syntax line message))
      | some (found rec, ini') ↦ after_setting (load_records f ini') (load_setting c rec)
    ])
next_record-FileValid f n none c ih p h = absurd p
next_record-FileValid f n (some (eof, ini')) c ih p h = validate-FileValid c h
next_record-FileValid f n (some (syntax line message, ini')) c ih p h = h
next_record-FileValid f n (some (found rec, ini')) c ih p h =
    after_setting-FileValid (load_records f ini') (load_setting c rec) (λ c'. ih ini' c' p.0 p.1)
      (load_setting-HasPorts c rec h)

load_records-FileValid :
    (f : ℕ) (ini : IniFile) (c : Configuration)
    → EndsNl ini.reader.unread
    → length ini.reader.unread < f
    → HasPorts c
    → FileValid (load_records f ini c)
unfolding load_records
load_records-FileValid zero ini c e b h = absurd (omega arith)
load_records-FileValid (suc f) ini c e b h =
    next_record-FileValid f (length ini.reader.unread) (next ini) c
      (λ ini' c' e' b' h'. load_records-FileValid f ini' c' e' (omega arith) h')
      (next-Progressed ini e) h

-- `confLoadInternal` returns on a file that is empty or ends with a newline, if both ends of the
-- configured range are ports. Both are ports afterwards, even if it returns an error, and if it
-- does not, the lower end is less than the upper one.
pub conf_load_internal-FileValid :
    (path file : Bytes) (c : Configuration)
    → EndsNl file
    → HasPorts c
    → FileValid (conf_load_internal path file c)
unfolding conf_load_internal open_ini_file
conf_load_internal-FileValid path file c e h =
    load_records-FileValid (length file + 1) (open_ini_file path file false) c e (omega arith) h
