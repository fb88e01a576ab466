-- ===== src/LineWriter.antt =====
-- linewriter.go: an io.Writer that calls back for each complete line.
-- `lines` collects the arguments of the callback `Func`, the first call first.
-- Child: LineWriter/Chunks (writing in pieces is writing at once).
pub mod Chunks
use ipp_usb.Base.{
  ℕ, zero, suc, ◌+◌, Bool, true, false, Option, none, some, List, ◌∷◌, [], ◌++◌, Bytes, ◌==◌,
  if◌then◌else◌, length, take, drop,
}

pub record LineWriter : Type 0 where
  pub prefix : Bytes
  pub buf : Bytes
  pub lines : List Bytes

-- bytes.IndexByte, with -1 as `none`
pub index_byte : Bytes → ℕ → Option ℕ
index_byte [] b = none
index_byte (c ∷ text) b =
    if c == b then some 0 else elim (index_byte text b) [ none ↦ none | some l ↦ some (suc l) ]

-- A new line starts with the prefix.
pub started : Bytes → Bytes → Bytes
started prefix buf = if length buf == 0 then buf ++ prefix else buf

abbrev pub push : LineWriter → Bytes → LineWriter
push lw line = record lw { buf = started lw.prefix lw.buf ++ line }

-- `lw.Func(lw.buf.Bytes())` and the reset behind it
abbrev pub emit : LineWriter → LineWriter
emit lw = record lw { lines = lw.lines ++ (lw.buf ∷ []); buf = [] }

-- The loop of `Write`. A round takes a line off the text, so the length of the text is fuel enough.
pub loop : ℕ → LineWriter → Bytes → LineWriter
loop f lw [] = lw
loop zero lw (c ∷ text) = lw
loop (suc f) lw (c ∷ text) = elim (index_byte (c ∷ text) b'\n') [
  | none ↦ push lw (c ∷ text)
  | some l ↦ loop f (emit (push lw (take l (c ∷ text)))) (drop (suc l) (c ∷ text))
]

-- `Write`: the new state, and the count that it returns.
unfoldable pub write : LineWriter → Bytes → LineWriter × ℕ
unfolding loop index_byte started
write lw text = (loop (length text) lw text, length text)

-- `Close` keeps the buffer.
unfoldable pub close : LineWriter → LineWriter
close lw = if length lw.buf == 0 then lw else record lw { lines = lw.lines ++ (lw.buf ∷ []) }

unfoldable pub write_close : LineWriter → Bytes → LineWriter
unfolding write close
write_close lw text = close (write lw text).0
