-- ===== src/LineWriter/Chunks.antt =====
-- `Write` of linewriter.go, one byte at a time.
use ipp_usb.Base.{
  ℕ, zero, suc, ◌≤◌, ◌≡◌, refl, ap, sym, ◌∙◌, true, false, Option, none, some, List, ◌∷◌, [], ◌++◌,
  append_assoc, append-nil, Bytes, ◌==◌, ==_iff, Bool-cases, inl, inr, if◌then◌else◌, length, take,
  drop, arith,
}
use ipp_usb.LineWriter.{LineWriter, index_byte, started, push, emit, loop, write}

-- What one byte does: a newline ends the line, and any other byte is appended to it.
abbrev pub put : LineWriter → ℕ → LineWriter
put lw c = if c == b'\n' then emit (push lw []) else push lw (c ∷ [])

pub put_all : LineWriter → Bytes → LineWriter
put_all lw [] = lw
put_all lw (c ∷ text) = put_all (put lw c) text

put_all-append : (lw : LineWriter) (a b : Bytes) → put_all lw (a ++ b) ≡ put_all (put_all lw a) b
unfolding put_all
put_all-append lw [] b = refl
put_all-append lw (c ∷ a) b = put_all-append (put lw c) a b

-- A line that holds a byte has begun.
started-concat : (prefix buf : Bytes) (c : ℕ) → started prefix (buf ++ c ∷ []) ≡ buf ++ c ∷ []
unfolding started
started-concat prefix [] c = refl
started-concat prefix (b ∷ buf) c = ground arith

push-push :
    (lw : LineWriter) (c : ℕ) (line : Bytes) → push (push lw (c ∷ [])) line ≡ push lw (c ∷ line)
push-push lw c line = simp (started-concat, append_assoc)

index_byte-step :
    (c : ℕ) (text : Bytes)
    → index_byte (c ∷ text) b'\n' ≡ none
    → ((c == b'\n') ≡ false) × (index_byte text b'\n' ≡ none)
unfolding index_byte
index_byte-step c text h = ground arith

put_all-line :
    (text : Bytes) (lw : LineWriter) (c : ℕ)
    → index_byte (c ∷ text) b'\n' ≡ none
    → put_all lw (c ∷ text) ≡ push lw (c ∷ text)
unfolding put_all
put_all-line [] lw c h = let (e, k) = index_byte-step c [] h in rw e
put_all-line (d ∷ text) lw c h =
    let (e, k) = index_byte-step c (d ∷ text) h in
    rw e (put_all-line text (push lw (c ∷ [])) d k ∙ push-push lw c (d ∷ text))

index_byte-zero :
    (c : ℕ) (text : Bytes) → index_byte (c ∷ text) b'\n' ≡ some 0 → (c == b'\n') ≡ true
unfolding index_byte
index_byte-zero c text h = ground arith

index_byte-suc :
    (c : ℕ) (text : Bytes) (l : ℕ)
    → index_byte (c ∷ text) b'\n' ≡ some (suc l)
    → ((c == b'\n') ≡ false) × (index_byte text b'\n' ≡ some l)
unfolding index_byte
index_byte-suc c text l h = ground arith

put_all-split :
    (text : Bytes) (lw : LineWriter) (l : ℕ)
    → index_byte text b'\n' ≡ some l
    → put_all lw text ≡ put_all (emit (push lw (take l text))) (drop (suc l) text)
unfolding put_all
put_all-split [] lw l h = unfold index_byte in absurd (none-never h)
  where
    none-never : none ≡ some l → ⊥
    none-never e = cc
put_all-split (c ∷ text) lw zero h = rw (index_byte-zero c text h)
put_all-split (c ∷ text) lw (suc l) h =
    let (e, q) = index_byte-suc c text l h in
    rw e (
      put_all-split text (push lw (c ∷ [])) l q
      ∙ ap (λ x. put_all (emit x) (drop (suc l) text)) (push-push lw c (take l text)))

length-drop-le : (l : ℕ) (text : Bytes) → length (drop l text) ≤ length text
length-drop-le zero text = omega arith
length-drop-le (suc l) [] = omega arith
length-drop-le (suc l) (c ∷ text) = omega (arith, length-drop-le l text)

loop-put_all :
    (f : ℕ) (lw : LineWriter) (text : Bytes) → length text ≤ f → loop f lw text ≡ put_all lw text
unfolding loop put_all
loop-put_all f lw [] h = refl
loop-put_all zero lw (c ∷ text) h = elim h [ ]
loop-put_all (suc f) lw (c ∷ text) h =
    go (λ lw' l. loop-put_all f lw' (drop l text) (omega (arith, length-drop-le l text)))
      (index_byte (c ∷ text) b'\n') refl
  where
    go :
        ((lw' : LineWriter) (l : ℕ) → loop f lw' (drop l text) ≡ put_all lw' (drop l text))
        → (o : Option ℕ) → index_byte (c ∷ text) b'\n' ≡ o
        → (elim o [
          | none ↦ push lw (c ∷ text)
          | some l ↦ loop f (emit (push lw (take l (c ∷ text)))) (drop (suc l) (c ∷ text))
        ])
          ≡ put_all lw (c ∷ text)
    go ih none e = sym (put_all-line text lw c e)
    go ih (some l) e = ih _ l ∙ sym (put_all-split (c ∷ text) lw l e)

pub write-put_all : (lw : LineWriter) (text : Bytes) → (write lw text).0 ≡ put_all lw text
unfolding write
write-put_all lw text = loop-put_all (length text) lw text (omega arith)

-- Writing a text in two pieces leaves the same state, the lines called back for included, as
-- writing it at once, wherever it is cut.
pub write-append :
    (lw : LineWriter) (a b : Bytes) → (write lw (a ++ b)).0 ≡ (write (write lw a).0 b).0
write-append lw a b = simp write-put_all (put_all-append lw a b)

-- The lines with their newlines put back.
abbrev pub unlines : List Bytes → Bytes
unlines [] = []
unlines (line ∷ lines) = (line ++ b'\n' ∷ []) ++ unlines lines

unlines-concat :
    (lines : List Bytes) (line : Bytes)
    → unlines (lines ++ line ∷ []) ≡ unlines lines ++ (line ++ b'\n' ∷ [])
unlines-concat [] line = rw append-nil
unlines-concat (x ∷ lines) line = simp (unlines-concat lines line, append_assoc)

-- All that a writer with no prefix was given.
abbrev pub received : LineWriter → Bytes
received lw = unlines lw.lines ++ lw.buf

started-none : (buf : Bytes) → started [] buf ≡ buf
unfolding started
started-none [] = refl
started-none (b ∷ buf) = ground arith

received-put :
    (lw : LineWriter) (c : ℕ) → lw.prefix ≡ [] → received (put lw c) ≡ received lw ++ c ∷ []
received-put lw c h = elim (Bool-cases (c == b'\n')) [
  | inl e ↦
      rw ((==_iff c b'\n').0 e, h) (simp (started-none, append-nil, unlines-concat, append_assoc))
  | inr e ↦ rw (e, h) (simp (started-none, append_assoc))
]

put-prefix : (lw : LineWriter) (c : ℕ) → (put lw c).prefix ≡ lw.prefix
put-prefix lw c = ground arith

received-put_all :
    (text : Bytes) (lw : LineWriter)
    → lw.prefix ≡ []
    → received (put_all lw text) ≡ received lw ++ text
unfolding put_all
received-put_all [] lw h = rw append-nil
received-put_all (c ∷ text) lw h =
    received-put_all text (put lw c) (put-prefix lw c ∙ h)
    ∙ ap (λ x. x ++ text) (received-put lw c h)
    ∙ append_assoc (received lw) (c ∷ []) text

-- A writer with no prefix loses nothing and adds nothing: the lines with their newlines and the
-- unfinished line are the text written, behind what the writer held before.
pub received-write :
    (lw : LineWriter) (text : Bytes)
    → lw.prefix ≡ []
    → received (write lw text).0 ≡ received lw ++ text
received-write lw text h = rw write-put_all (received-put_all text lw h)
