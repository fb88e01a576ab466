-- ===== src/IniFile/Termination.antt =====
-- `token` ends on every file whose last line has its newline.
use ipp_usb.Base.{
  ℕ, zero, suc, ◌+◌, ◌-◌, ◌*◌, ◌≤◌, ◌<◌, ◌≡◌, ◌≢◌, refl, ap, Bool, if_cases, ◌==◌, if◌then◌else◌,
  Option, none, some, [], ◌∷◌, Bytes, length, arith,
}
use ipp_usb.IniFile.Reader.{Reader, getc, advance}
use ipp_usb.IniFile.Token.{
  PrsState, skip_space, body, string_hex, string_octal, Tok, TokenResult, step, delimits, loop,
  fresh, token, finish,
}

-- The text is empty, or a newline ends it.
abbrev pub EndsNl : Bytes → Type 0
EndsNl [] = Unit
EndsNl (c ∷ []) = c ≡ b'\n'
EndsNl (c ∷ d ∷ s) = EndsNl (d ∷ s)

-- A byte may be read twice: at the end of a hexadecimal or octal escape it is put back.
abbrev bonus : PrsState → ℕ
bonus string_hex = 1
bonus string_octal = 1
bonus _ = 0

abbrev pub measure : Tok → ℕ
measure t = 2 * length t.reader.unread + bonus t.state

module _ (linecont : Bool) (c : ℕ) (t : Tok) where
  step-shrinks :
      (s : PrsState) (rest : Bytes)
      → t.reader.unread ≡ rest
      → t.reader.last ≡ some c
      → t.state ≡ s
      → c ≢ b'\n'
      → EndsNl (c ∷ rest)
      → (measure (step s linecont c t) < 2 * suc (length rest) + bonus s)
        × EndsNl (step s linecont c t).reader.unread
  unfolding step
  step-shrinks s [] h l k n e = absurd (n e)
  step-shrinks skip_space (d ∷ rest) h l k n e = ground arith
  step-shrinks body (d ∷ rest) h l k n e = ground arith
  step-shrinks _ (d ∷ rest) h l k n e = ground arith

-- The variables after a byte was read.
abbrev pub got : Tok → ℕ → Bytes → Tok
got t c rest = record t { reader = advance t.reader c rest }

pub loop-nil :
    (f : ℕ) (delimiter : Option ℕ) (linecont : Bool) (t : Tok)
    → t.reader.unread ≡ []
    → loop (suc f) delimiter linecont t ≡ some (0, t)
unfolding loop
loop-nil f delimiter linecont t h = rw (h, getc)

pub loop-cons :
    (f : ℕ) (delimiter : Option ℕ) (linecont : Bool) (t : Tok) (c : ℕ) (rest : Bytes)
    → t.reader.unread ≡ c ∷ rest
    → loop (suc f) delimiter linecont t ≡ (
        if c == b'\n'
        then some (c, got t c rest)
        else if delimits t.state delimiter c
        then some (c, got t c rest)
        else loop f delimiter linecont (step t.state linecont c (got t c rest)))
unfolding loop
loop-cons f delimiter linecont t c rest h = rw h

pub EndsNl-tail : (c : ℕ) (rest : Bytes) → EndsNl (c ∷ rest) → EndsNl rest
EndsNl-tail c [] e = tt
EndsNl-tail c (d ∷ rest) e = e

-- The loop ends, it leaves less than the measure `m` allows, and what it leaves unread ends with a
-- newline too.
abbrev Ended : ℕ → Option (ℕ × Tok) → Type 0
Ended m none = ⊥
Ended m (some (c, t)) = EndsNl t.reader.unread × (2 * length t.reader.unread ≤ m - 1)

loop-Ended :
    (fuel m : ℕ) (delimiter : Option ℕ) (linecont : Bool) (t : Tok) (s : Bytes)
    → t.reader.unread ≡ s
    → measure t < fuel
    → measure t ≤ m
    → EndsNl s
    → Ended m (loop fuel delimiter linecont t)
loop-Ended zero m delimiter linecont t s k h b e = absurd (omega arith)
loop-Ended (suc f) m delimiter linecont t [] k h b e =
    rw (loop-nil f delimiter linecont t k, k) (tt, omega arith)
loop-Ended (suc f) m delimiter linecont t (c ∷ rest) k h b e =
    rw (loop-cons f delimiter linecont t c rest k) (
      if_cases (Ended m) (c == b'\n') _ _ (λ _. (EndsNl-tail c rest e, left k b))
        (λ n.
          if_cases (Ended m) (delimits t.state delimiter c) _ _
            (λ _. (EndsNl-tail c rest e, left k b))
            (λ _.
              let (less, ends) =
                step-shrinks linecont c (got t c rest) t.state rest refl refl refl (ground arith)
                  e in
              loop-Ended f m delimiter linecont (step t.state linecont c (got t c rest)) _ refl
                (smaller k h less) (bounded k b less) ends)))
  where
    left : t.reader.unread ≡ c ∷ rest → measure t ≤ m → 2 * length rest ≤ m - 1
    left k' b' = omega (arith, ap length k')

    smaller :
        {x : ℕ}
        → t.reader.unread ≡ c ∷ rest
        → measure t < suc f
        → x < 2 * suc (length rest) + bonus t.state
        → x < f
    smaller k' h' l = omega (arith, ap length k')

    bounded :
        {x : ℕ}
        → t.reader.unread ≡ c ∷ rest
        → measure t ≤ m
        → x < 2 * suc (length rest) + bonus t.state
        → x ≤ m
    bounded k' b' l = omega (arith, ap length k')

-- `token` returns, and leaves at most `m` bytes, which end with a newline.
abbrev pub Returned : ℕ → Option (TokenResult × Reader) → Type 0
Returned m none = ⊥
Returned m (some (result, r)) = EndsNl r.unread × (length r.unread ≤ m)

finish-Returned :
    (n : ℕ) (m : Option (ℕ × Tok))
    → Ended (2 * n) m
    → Returned (n - 1) (elim m [ none ↦ none | some x ↦ some (finish x) ])
finish-Returned n none h = absurd h
finish-Returned n (some (c, t)) h = (h.0, omega (arith, h.1))

-- On a file that is empty or ends with a newline, two rounds for each unread byte and one more are
-- fuel enough for `token`, whatever the delimiter and with line continuation or without. It takes
-- at least one byte where there is one, and what it leaves unread is empty or ends with a newline.
pub token-Returned :
    (fuel : ℕ) (r : Reader) (delimiter : Option ℕ) (linecont : Bool)
    → EndsNl r.unread
    → 2 * length r.unread < fuel
    → Returned (length r.unread - 1) (token fuel r delimiter linecont)
unfolding token
token-Returned fuel r delimiter linecont e h =
    finish-Returned (length r.unread) (loop fuel delimiter linecont (fresh r)) (
      loop-Ended fuel (2 * length r.unread) delimiter linecont (fresh r) r.unread refl (omega arith)
        (omega arith) e)
