-- ===== src/IniFile/Token.antt =====
-- `token` of inifile.go: reads a token up to a delimiter, a newline or the end of the file.
-- The loop runs on fuel, and `none` means that the fuel ran out: IniFile/Termination has how much
-- is enough, and IniFile/Hanging when none is.
use ipp_usb.Base.{
  ℕ, zero, suc, ◌+◌, ◌-◌, ◌*◌, Bool, false, not, ◌&&◌, ◌||◌, ◌==◌, if◌then◌else◌, Option, none,
  some, [], ◌∷◌, ◌++◌, Bytes, length, take,
}
use ipp_usb.IniFile.Reader.{Reader, getc, ungetc, isspace, iscomment, isoctal, isxdigit, hex2int}

pub data PrsState : Type 0 where
  skip_space body string string_bslash string_hex string_octal comment : PrsState

-- The variables of `token`, with the reader.
pub record Tok : Type 0 where
  pub state : PrsState
  pub buf : Bytes
  pub accumulator : ℕ
  pub count : ℕ
  pub trailing_space : ℕ
  pub reader : Reader

abbrev pub truncate : Tok → Tok
truncate t = record t { buf = take (length t.buf - t.trailing_space) t.buf; trailing_space = 0 }

abbrev pub write_byte : Tok → ℕ → Tok
write_byte t c = record t { buf = t.buf ++ c ∷ [] }

-- A backslash outside of quotes, where lines may be continued: the byte behind it is read, and put
-- back unless it is a newline. At the end of the file, `c2` is 0.
pub bslash_step : Tok → Option (ℕ × Reader) → Tok
bslash_step t none = record t { reader = ungetc t.reader 0; trailing_space = 0; state = body }
bslash_step t (some (c2, r)) =
    if c2 == b'\n'
    then truncate (record t { reader = r; state = skip_space })
    else record t { reader = ungetc r c2; trailing_space = 0; state = body }

-- `case prsBody`, the update of the trailing space included.
pub body_step : Bool → ℕ → Tok → Tok
body_step linecont c t =
    if c == b'"'
    then truncate (record t { state = string })
    else if iscomment c
    then truncate (record t { state = comment })
    else if c == b'\\' && linecont
    then bslash_step t (getc t.reader)
    else if isspace c
    then record (write_byte t c) { state = body; trailing_space = t.trailing_space + 1 }
    else record (write_byte t c) { state = body; trailing_space = 0 }

-- The byte that stands for an escape of one letter.
pub unescape : ℕ → ℕ
unescape c =
    if c == b'a'
    then 7
    else if c == b'b'
    then 8
    else if c == b'e'
    then 27
    else if c == b'f'
    then 12
    else if c == b'n'
    then 10
    else if c == b'r'
    then 13
    else if c == b't'
    then 9
    else if c == b'v'
    then 11
    else c

-- The third digit of an octal escape ends it.
octal_digit : ℕ → Tok → Tok
octal_digit c t = if t.count == 3 then write_byte (record t { state = string }) c else t

unfoldable pub step : PrsState → Bool → ℕ → Tok → Tok
unfolding body_step bslash_step unescape octal_digit
step skip_space linecont c t = if isspace c then t else body_step linecont c t
step body linecont c t = body_step linecont c t
step string linecont c t =
    if c == b'\\'
    then record t { state = string_bslash }
    else if c == b'"'
    then record t { state = body }
    else write_byte t c
step string_bslash linecont c t =
    if c == b'x' || c == b'X'
    then record t { state = string_hex; accumulator = 0; count = 0 }
    else if isoctal c
    then record t { state = string_octal; accumulator = hex2int c; count = 1 }
    else record (write_byte t (unescape c)) { state = string }
step string_hex linecont c t =
    if isxdigit c
    then if not (t.count == 2)
      then record t { accumulator = t.accumulator * 16 + hex2int c; count = t.count + 1 }
      else t
    else write_byte (record t { state = string; reader = ungetc t.reader c }) c
step string_octal linecont c t =
    if isoctal c
    then octal_digit c
        (record t { accumulator = t.accumulator * 8 + hex2int c; count = t.count + 1 })
    else write_byte (record t { state = string; reader = ungetc t.reader c }) c
step comment linecont c t = t

-- The delimiter counts outside of quotes and comments. `none` is the delimiter -1, which is no byte.
abbrev pub delimits : PrsState → Option ℕ → ℕ → Bool
delimits skip_space (some d) c = c == d
delimits body (some d) c = c == d
delimits _ _ c = false

-- The loop: the byte that it ended at, 0 at the end of the file, and the variables.
unfoldable pub loop : ℕ → Option ℕ → Bool → Tok → Option (ℕ × Tok)
loop zero delimiter linecont t = none
loop (suc f) delimiter linecont t = elim (getc t.reader) [
  | none ↦ some (0, t)
  | some (c, r) ↦
      let t' = record t { reader = r } in
      let again = loop f delimiter linecont (step t.state linecont c t') in
      if c == b'\n'
      then some (c, t')
      else if delimits t.state delimiter c
      then some (c, t')
      else again
]

-- What `token` returns: the byte and the token, or the error "unterminated string".
pub data TokenResult : Type 0 where
  token_ok : ℕ → Bytes → TokenResult
  unterminated : TokenResult

abbrev pub result_in : PrsState → ℕ → Bytes → TokenResult
result_in skip_space c buf = token_ok c buf
result_in body c buf = token_ok c buf
result_in comment c buf = token_ok c buf
result_in _ c buf = unterminated

abbrev pub finish : ℕ × Tok → TokenResult × Reader
finish (c, t) = (result_in t.state c (truncate t).buf, t.reader)

abbrev pub fresh : Reader → Tok
fresh r = record {
  state = skip_space;
  buf = [];
  accumulator = 0;
  count = 0;
  trailing_space = 0;
  reader = r;
}

unfoldable pub token : ℕ → Reader → Option ℕ → Bool → Option (TokenResult × Reader)
unfolding loop step
token fuel r delimiter linecont = elim (loop fuel delimiter linecont (fresh r)) [
  | none ↦ none
  | some end ↦ some (finish end)
]
