-- ===== src/Quirks/Files.antt =====
-- `readFile` of quirks.go: the sections of one quirks file. Which files a directory holds, and in
-- which order, is the file system's.
use ipp_usb.Base.{
  ℕ, zero, suc, ◌+◌, true, if◌then◌else◌, Option, none, some, List, [], ◌∷◌, ◌++◌, Bytes, map,
  to_lower_byte, ℤ, length,
}
use ipp_usb.Base.Dict.{lookup}
use ipp_usb.Hwid.{HwidPattern, parse_hwid_pattern}
use ipp_usb.IniFile.Records.{
  RecordType, IniRecord, IniFile, found, eof, syntax, Message, open_ini_file, next,
}
use ipp_usb.Quirks.Parsing.{
  Parsed, unparsed, str, Kind, Quirk, defined_at, is_http, quirk_parse, parse,
}
use ipp_usb.Quirks.{Quirks, new_quirks, put}

-- The errors of `readFile`, each with the line that it names.
pub data FileError : Type 0 where
  out_of_section already_defined bad_value : ℕ → FileError
  bad_syntax : ℕ → Message → FileError

-- The variables of `readFile`. The current section's quirks are in the data base from its start;
-- here they join it at its end.
pub record Loading : Type 0 where
  pub qdb : List Quirks
  pub quirks : Option Quirks
  pub matched_hwid : Option HwidPattern
  pub load_order : ℕ

-- `Add`
abbrev pub add : List Quirks → Option Quirks → List Quirks
add qdb none = qdb
add qdb (some quirks) = qdb ++ quirks ∷ []

pub data Outcome : Type 0 where
  going : Loading → Outcome
  failed : FileError → Outcome

abbrev begin_section : Loading → IniRecord → Outcome
begin_section l rec = going (record l {
  qdb = add l.qdb l.quirks;
  quirks = some new_quirks;
  matched_hwid = parse_hwid_pattern rec.section;
})

abbrev quirk_of : Loading → IniRecord → Quirk
quirk_of l rec = record {
  origin = defined_at rec.file rec.line;
  match = rec.section;
  match_hwid = l.matched_hwid;
  name = rec.key;
  raw_value = rec.value;
  parsed = unparsed;
  load_order = l.load_order;
}

-- `canonical` is http.CanonicalHeaderKey, and `text` is time.ParseDuration.
module _ (canonical : Bytes → Bytes) (text : Bytes → Option ℤ) where
  -- The quirk as it is put into the section, or none: an unknown name is passed over.
  abbrev pub put_parsed : Loading → Quirks → Quirk → Option Parsed → ℕ → Outcome
  put_parsed l quirks q none line = failed (bad_value line)
  put_parsed l quirks q (some p) line =
      going (record l { quirks = some (put canonical quirks (record q { parsed = p })) })

  abbrev pub put_known : Loading → Quirks → Quirk → Option Kind → ℕ → Outcome
  put_known l quirks q none line = going l
  put_known l quirks q (some kind) line = put_parsed l quirks q (parse text kind q) line

  abbrev pub add_quirk : Loading → Quirks → IniRecord → Option Quirk → Outcome
  add_quirk l quirks rec (some earlier) = failed (already_defined rec.line)
  add_quirk l quirks rec none =
      let q = quirk_of l rec in
      let l' = record l { load_order = l.load_order + 1 } in
      if is_http q.name
      then going (record l' {
        quirks = some (
            put canonical quirks
              (record q { name = map to_lower_byte q.name; parsed = str q.raw_value }));
      })
      else put_known l' quirks q (quirk_parse q.name) rec.line

  abbrev pub key_val_record : Loading → IniRecord → Option Quirks → Outcome
  key_val_record l rec none = failed (out_of_section rec.line)
  key_val_record l rec (some quirks) = add_quirk l quirks rec (lookup rec.key quirks.by_name)

  abbrev pub dispatch : Loading → IniRecord → RecordType → Outcome
  dispatch l rec RecordType.section = begin_section l rec
  dispatch l rec RecordType.key_val = key_val_record l rec l.quirks

  -- One round of the loop, on one record.
  unfoldable pub record_step : Loading → IniRecord → Outcome
  unfolding put lookup parse quirk_parse parse_hwid_pattern to_lower_byte
  record_step l rec = dispatch l rec rec.type

  -- The loop. Each record takes at least one byte of the file; `none` means that fuel ran out.
  unfoldable pub read_records : ℕ → IniFile → Loading → Option Outcome
  unfolding record_step next
  read_records zero ini l = none
  read_records (suc f) ini l = elim (next ini) [
    | none ↦ none
    | some (eof, ini') ↦ some (going l)
    | some (syntax line message, ini') ↦ some (failed (bad_syntax line message))
    | some (found rec, ini') ↦ elim (record_step l rec) [
      | failed e ↦ some (failed e)
      | going l' ↦ read_records f ini' l'
    ]
  ]

  -- `readFile` on a file that can be opened, for the data base so far.
  unfoldable pub read_file : Bytes → Bytes → List Quirks → Option Outcome
  unfolding read_records open_ini_file
  read_file path file qdb =
      read_records (length file + 1) (open_ini_file path file true)
        (record { qdb = qdb; quirks = none; matched_hwid = none; load_order = 0 })
