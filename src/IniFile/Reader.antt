-- ===== src/IniFile/Reader.antt =====
-- The byte reader of inifile.go, `bufio.Reader` included, and the classes of bytes.
use ipp_usb.Base.{
  ℕ, ◌+◌, ◌-◌, Bool, ◌||◌, ◌==◌, within, if◌then◌else◌, Option, none, some, [], ◌∷◌, Bytes,
}

-- `last` is bufio's last byte read, which `UnreadByte` puts back. A read at the end of the file
-- leaves it alone.
pub record Reader : Type 0 where
  pub unread : Bytes
  pub last : Option ℕ
  pub line : ℕ

abbrev pub start : Bytes → Reader
start file = record { unread = file; last = none; line = 1 }

-- Reads one byte of a text that is not at its end.
abbrev pub advance : Reader → ℕ → Bytes → Reader
advance r c rest = record {
  unread = rest;
  last = some c;
  line = if c == b'\n' then r.line + 1 else r.line;
}

abbrev read_from : Reader → Bytes → Option (ℕ × Reader)
read_from r [] = none
read_from r (c ∷ rest) = some (c, advance r c rest)

-- `getc`; `none` is the end of the file.
abbrev pub getc : Reader → Option (ℕ × Reader)
getc r = read_from r r.unread

abbrev put_back : Reader → Option ℕ → Reader
put_back r none = r
put_back r (some b) = record r { unread = b ∷ r.unread; last = none }

-- `ungetc(c)`: the byte put back is bufio's, and `c` only counts for the line.
abbrev pub ungetc : Reader → ℕ → Reader
ungetc r c =
    let r' = put_back r r.last in record r' { line = if c == b'\n' then r'.line - 1 else r'.line }

abbrev pub isspace : ℕ → Bool
isspace c = c == b' ' || c == b'\t' || c == b'\n' || c == b'\r'

abbrev pub iscomment : ℕ → Bool
iscomment c = c == b';' || c == b'#'

abbrev pub isoctal : ℕ → Bool
isoctal c = within b'0' b'7' c

-- As the source has it: the digits 8 and 9 are not among these.
abbrev pub isxdigit : ℕ → Bool
isxdigit c = within b'0' b'7' c || within b'a' b'f' c || within b'A' b'F' c

abbrev pub hex2int : ℕ → ℕ
hex2int c =
    if within b'0' b'9' c
    then c - b'0'
    else if within b'a' b'f' c
    then c - b'a' + 10
    else if within b'A' b'F' c
    then c - b'A' + 10
    else 0

-- `getcNonSpace`: the text behind the blanks.
unfoldable pub skip_spaces : Reader → Bytes → Option (ℕ × Reader)
skip_spaces r [] = none
skip_spaces r (c ∷ rest) =
    let later = skip_spaces (advance r c rest) rest in
    if isspace c then later else some (c, advance r c rest)

unfoldable pub getc_non_space : Reader → Option (ℕ × Reader)
unfolding skip_spaces
getc_non_space r = skip_spaces r r.unread

-- `getcNl`: reads behind the next newline, or to the end of the file.
unfoldable pub skip_line : Reader → Bytes → Reader
skip_line r [] = r
skip_line r (c ∷ rest) =
    let later = skip_line (advance r c rest) rest in if c == b'\n' then advance r c rest else later

unfoldable pub getc_nl : Reader → Reader
unfolding skip_line
getc_nl r = skip_line r r.unread
