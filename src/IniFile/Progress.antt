-- ===== src/IniFile/Progress.antt =====
-- `Next` ends on every file whose last line has its newline, and takes at least one byte for each
-- record.
use ipp_usb.Base.{
  ℕ, zero, suc, ◌+◌, ◌-◌, ◌*◌, ◌≤◌, ◌<◌, ◌≡◌, refl, sym, subst, true, false, if_cases, ◌==◌,
  if◌then◌else◌, Option, none, some, [], ◌∷◌, Bytes, length, arith,
}
use ipp_usb.IniFile.Reader.{
  Reader, advance, isspace, iscomment, skip_spaces, getc_non_space, skip_line, getc_nl,
}
use ipp_usb.IniFile.Token.{TokenResult, token_ok, unterminated}
use ipp_usb.IniFile.Termination.{EndsNl, EndsNl-tail, Returned, token-Returned}
use ipp_usb.IniFile.Records.{
  IniFile, Next, found, eof, syntax, value_step, read_value, key_step, read_key, section_step,
  read_section, round, next_loop, token_fuel, next,
}

-- The byte behind the blanks stands before what is left, and is the one that `ungetc` puts back.
abbrev Skipped : ℕ → Option (ℕ × Reader) → Type 0
Skipped n none = Unit
Skipped n (some (c, r)) = EndsNl (c ∷ r.unread) × (length r.unread < n) × (r.last ≡ some c)

skip_spaces-Skipped :
    (r : Reader) (s : Bytes) (n : ℕ) → length s ≤ n → EndsNl s → Skipped n (skip_spaces r s)
unfolding skip_spaces
skip_spaces-Skipped r [] n h e = tt
skip_spaces-Skipped r (c ∷ rest) n h e =
    if_cases (Skipped n) (isspace c) _ _
      (λ _. skip_spaces-Skipped (advance r c rest) rest n (omega arith) (EndsNl-tail c rest e))
      (λ _. (e, omega arith, refl))

abbrev Left : ℕ → Reader → Type 0
Left n r = EndsNl r.unread × (length r.unread ≤ n)

skip_line-Left :
    (r : Reader) (s : Bytes) (n : ℕ)
    → r.unread ≡ s
    → length s ≤ n
    → EndsNl s
    → Left n (skip_line r s)
unfolding skip_line
skip_line-Left r [] n k h e = subst (λ u. EndsNl u × (length u ≤ n)) (sym k) (tt, omega arith)
skip_line-Left r (c ∷ rest) n k h e =
    if_cases (Left n) (c == b'\n') _ _ (λ _. (EndsNl-tail c rest e, omega arith))
      (λ _. skip_line-Left (advance r c rest) rest n refl (omega arith) (EndsNl-tail c rest e))

getc_nl-Left : (r : Reader) (n : ℕ) → Left n r → Left n (getc_nl r)
unfolding getc_nl
getc_nl-Left r n h = skip_line-Left r r.unread n refl h.1 h.0

-- `Next` returns. A record or an error leaves less than `n` bytes, which end with a newline.
abbrev pub Progressed : ℕ → Option (Next × IniFile) → Type 0
Progressed n none = ⊥
Progressed n (some (eof, ini)) = Unit
Progressed n (some (found rec, ini)) = EndsNl ini.reader.unread × (length ini.reader.unread < n)
Progressed n (some (syntax line message, ini)) = Unit

-- The variables of `Next` at a record's first line, and after its first byte was put back.
abbrev numbered : IniFile → IniFile
numbered ini = record ini { rec = record (ini.rec) { line = ini.reader.line } }

abbrev unread_key : IniFile → ℕ → IniFile
unread_key ini c = record (numbered ini) {
  reader = record {
    unread = c ∷ ini.reader.unread;
    last = none;
    line = if c == b'\n' then ini.reader.line - 1 else ini.reader.line;
  };
}

-- The rounds of a loop that progresses wherever less than `n` bytes are left.
module _ (n fuel : ℕ) (again : IniFile → Option (Next × IniFile))
    (progress : (ini : IniFile)
      → EndsNl ini.reader.unread
      → length ini.reader.unread < n
      → Progressed n (again ini)) where
  read_value-Progressed :
      (ini : IniFile) (m : ℕ) (o : Option (TokenResult × Reader))
      → m < n
      → Returned m o
      → Progressed n (read_value again ini o)
  unfolding value_step
  read_value-Progressed ini m none l h = absurd h
  read_value-Progressed ini m (some (token_ok c value, r)) l h = (h.0, omega (arith, h.1))
  read_value-Progressed ini m (some (unterminated, r)) l h =
      progress (record ini { reader = r }) h.0 (omega (arith, h.1))

  read_key-Progressed :
      (ini : IniFile) (m : ℕ) (o : Option (TokenResult × Reader))
      → m < n
      → 2 * n < fuel
      → Returned m o
      → Progressed n (read_key fuel again ini o)
  unfolding key_step
  read_key-Progressed ini m none l b h = absurd h
  read_key-Progressed ini m (some (token_ok c key, r)) l b h =
      if_cases (Progressed n) (c == b'=') _ _
        (λ _.
          read_value-Progressed (record ini { reader = r; rec = record (ini.rec) { key = key } })
            (length r.unread - 1) _ (omega (arith, h.1))
            (token-Returned fuel r none true h.0 (omega (arith, h.1))))
        (λ _. tt)
  read_key-Progressed ini m (some (unterminated, r)) l b h =
      progress (record ini { reader = r }) h.0 (omega (arith, h.1))

  read_section-Progressed :
      (ini : IniFile) (m : ℕ) (o : Option (TokenResult × Reader))
      → m < n
      → Returned m o
      → Progressed n (read_section again ini o)
  unfolding section_step
  read_section-Progressed ini m none l h = absurd h
  read_section-Progressed ini m (some (result, r)) l h =
      let (ends, less) = getc_nl-Left r m h in
      if_cases (Progressed n) ini.with_rec_type _ _ (λ _. (ends, omega arith))
        (λ _. progress _ ends (omega arith))

  round-Progressed :
      (ini : IniFile) (c : ℕ)
      → EndsNl (c ∷ ini.reader.unread)
      → length ini.reader.unread < n
      → ini.reader.last ≡ some c
      → 2 * n < fuel
      → Progressed n (round fuel again ini c)
  unfolding round
  round-Progressed ini c e l k b =
      if_cases (Progressed n) (c == b'[') _ _
        (λ _. read_section-Progressed (numbered ini) _ _ (omega arith) (
          token-Returned fuel ini.reader (some b']') false (EndsNl-tail c ini.reader.unread e)
            (omega arith)))
        (λ _.
          if_cases (Progressed n) (c == b'=') _ _ (λ _. tt)
            (λ _. rw k (
              read_key-Progressed (unread_key ini c) (suc (length ini.reader.unread) - 1) _
                (omega arith) b (token-Returned fuel _ (some b'=') false e (omega arith)))))

next_round-Progressed :
    (f fuel n : ℕ) (ini : IniFile) (o : Option (ℕ × Reader))
    → 2 * n < fuel
    → ((ini : IniFile)
        → EndsNl ini.reader.unread
        → length ini.reader.unread < n
        → Progressed n (next_loop f fuel ini))
    → Skipped n o
    → Progressed n (elim o [
      | none ↦ some (eof, ini)
      | some (c, r) ↦
          let past_comment = next_loop f fuel (record ini { reader = getc_nl r }) in
          let parsed = round fuel (next_loop f fuel) (record ini { reader = r }) c in
          if iscomment c then past_comment else parsed
    ])
next_round-Progressed f fuel n ini none b ih h = tt
next_round-Progressed f fuel n ini (some (c, r)) b ih (e, l, k) =
    let (ends, less) = getc_nl-Left r (length r.unread) (EndsNl-tail c r.unread e, omega arith) in
    if_cases (Progressed n) (iscomment c) _ _ (λ _. ih _ ends (omega arith))
      (λ _. round-Progressed n fuel (next_loop f fuel) ih (record ini { reader = r }) c e l k b)

Progressed-mono : (m n : ℕ) (o : Option (Next × IniFile)) → m ≤ n → Progressed m o → Progressed n o
Progressed-mono m n none l h = h
Progressed-mono m n (some (eof, ini)) l h = tt
Progressed-mono m n (some (found rec, ini)) l h = (h.0, omega (arith, h.1))
Progressed-mono m n (some (syntax line message, ini)) l h = tt

next_loop-Progressed :
    (f fuel : ℕ) (ini : IniFile)
    → EndsNl ini.reader.unread
    → length ini.reader.unread < f
    → 2 * length ini.reader.unread < fuel
    → Progressed (length ini.reader.unread) (next_loop f fuel ini)
unfolding next_loop getc_non_space
next_loop-Progressed zero fuel ini e h b = absurd (omega arith)
next_loop-Progressed (suc f) fuel ini e h b =
    next_round-Progressed f fuel (length ini.reader.unread) ini _ b
      (λ ini' e' l.
        Progressed-mono (length ini'.reader.unread) _ _ (omega arith)
          (next_loop-Progressed f fuel ini' e' (omega arith) (omega arith)))
      (skip_spaces-Skipped ini.reader ini.reader.unread _ (omega arith) e)

-- On a file whose unread part is empty or ends with a newline, `Next` returns. After a record, less
-- is unread than before, and that is empty or ends with a newline.
pub next-Progressed :
    (ini : IniFile) → EndsNl ini.reader.unread → Progressed (length ini.reader.unread) (next ini)
unfolding next
next-Progressed ini e =
    next_loop-Progressed (length ini.reader.unread + 1) (token_fuel ini) ini e (omega arith)
      (omega arith)
