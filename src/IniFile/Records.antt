-- ===== src/IniFile/Records.antt =====
-- `Next` of inifile.go: the next record of the file, or an error.
use ipp_usb.Base.{
  ℕ, zero, suc, ◌+◌, ◌*◌, Bool, true, false, ◌==◌, if◌then◌else◌, Option, none, some, [], Bytes,
  length,
}
use ipp_usb.IniFile.Reader.{Reader, start, getc_non_space, getc_nl, ungetc, iscomment}
use ipp_usb.IniFile.Token.{TokenResult, token_ok, unterminated, token}

pub data RecordType : Type 0 where
  section key_val : RecordType

pub record IniRecord : Type 0 where
  pub section : Bytes
  pub key : Bytes
  pub value : Bytes
  pub file : Bytes
  pub line : ℕ
  pub type : RecordType

pub record IniFile : Type 0 where
  pub reader : Reader
  pub rec : IniRecord
  pub with_rec_type : Bool

-- `OpenIniFile`, and `OpenIniFileWithRecType` where the flag is set, on a file that can be opened.
unfoldable pub open_ini_file : Bytes → Bytes → Bool → IniFile
open_ini_file path file with_rec_type = record {
  reader = start file;
  rec = record { section = []; key = []; value = []; file = path; line = 0; type = section };
  with_rec_type = with_rec_type;
}

-- The messages of `errorf` in `Next`.
pub data Message : Type 0 where
  unexpected_equals expected_equals : Message

-- What `Next` returns: a record, the end of the file, or an `IniError` at a line.
pub data Next : Type 0 where
  found : IniRecord → Next
  eof : Next
  syntax : ℕ → Message → Next

-- The value behind the `=` of a key. An unterminated string is passed over: the loop goes on.
unfoldable pub value_step :
    (IniFile → Option (Next × IniFile)) → IniFile → TokenResult × Reader → Option (Next × IniFile)
value_step again ini (token_ok c value, r) =
    let rec = record (ini.rec) { value = value; type = key_val } in
    some (found rec, record ini { reader = r; rec = rec })
value_step again ini (unterminated, r) = again (record ini { reader = r })

abbrev pub read_value :
    (IniFile → Option (Next × IniFile))
    → IniFile
    → Option (TokenResult × Reader)
    → Option (Next × IniFile)
read_value again ini none = none
read_value again ini (some result) = value_step again ini result

-- `default`: the key, and the byte that it ended at.
unfoldable pub key_step :
    ℕ
    → (IniFile → Option (Next × IniFile))
    → IniFile
    → TokenResult × Reader
    → Option (Next × IniFile)
unfolding value_step
key_step fuel again ini (token_ok c key, r) =
    if c == b'='
    then read_value again (record ini { reader = r; rec = record (ini.rec) { key = key } })
        (token fuel r none true)
    else some (syntax ini.rec.line expected_equals, record ini { reader = r })
key_step fuel again ini (unterminated, r) = again (record ini { reader = r })

abbrev pub read_key :
    ℕ
    → (IniFile → Option (Next × IniFile))
    → IniFile
    → Option (TokenResult × Reader)
    → Option (Next × IniFile)
read_key fuel again ini none = none
read_key fuel again ini (some result) = key_step fuel again ini result

-- `case '['`: the section's name counts if its bracket is closed, and the rest of a line is dropped.
abbrev section_named : IniRecord → TokenResult → IniRecord
section_named rec (token_ok c name) = if c == b']' then record rec { section = name } else rec
section_named rec unterminated = rec

unfoldable pub section_step :
    (IniFile → Option (Next × IniFile)) → IniFile → TokenResult × Reader → Option (Next × IniFile)
section_step again ini (result, r) =
    let rec = record (section_named ini.rec result) { type = section } in
    let ini' = record ini { reader = getc_nl r; rec = rec } in
    if ini.with_rec_type then some (found rec, ini') else again ini'

abbrev pub read_section :
    (IniFile → Option (Next × IniFile))
    → IniFile
    → Option (TokenResult × Reader)
    → Option (Next × IniFile)
read_section again ini none = none
read_section again ini (some result) = section_step again ini result

-- A round of the loop, at the first byte that is neither blank nor in a comment.
unfoldable pub round :
    ℕ → (IniFile → Option (Next × IniFile)) → IniFile → ℕ → Option (Next × IniFile)
unfolding section_step key_step
round fuel again ini c =
    let ini' = record ini { rec = record (ini.rec) { line = ini.reader.line } } in
    if c == b'['
    then read_section again ini' (token fuel ini.reader (some b']') false)
    else if c == b'='
    then some (syntax ini'.rec.line unexpected_equals, record ini' { reader = getc_nl ini.reader })
    else let r = ungetc ini.reader c in
      read_key fuel again (record ini' { reader = r }) (token fuel r (some b'=') false)

-- `Next`: each round of the loop reads at least one byte. A comment is a round of its own here, and
-- the second argument is the fuel of the tokens. `none` means that fuel ran out.
unfoldable pub next_loop : ℕ → ℕ → IniFile → Option (Next × IniFile)
unfolding round
next_loop zero fuel ini = none
next_loop (suc f) fuel ini = elim (getc_non_space ini.reader) [
  | none ↦ some (eof, ini)
  | some (c, r) ↦
      let past_comment = next_loop f fuel (record ini { reader = getc_nl r }) in
      let parsed = round fuel (next_loop f fuel) (record ini { reader = r }) c in
      if iscomment c then past_comment else parsed
]

-- The fuel that IniFile/Termination asks for.
abbrev pub token_fuel : IniFile → ℕ
token_fuel ini = 2 * length ini.reader.unread + 3

unfoldable pub next : IniFile → Option (Next × IniFile)
unfolding next_loop
next ini = next_loop (length ini.reader.unread + 1) (token_fuel ini) ini
