-- ===== src/Quirks/Loaded.antt =====
-- What `readFile` of quirks.go puts into the data base is typed.
use ipp_usb.Base.{
  ℕ, zero, suc, ◌+◌, ◌<◌, ◌≡◌, refl, sym, subst, true, if_cases, Option, none, some, List, [], ◌∷◌,
  Bytes, has_prefix, map, to_lower_byte, ℤ, All, length, arith,
}
use ipp_usb.Base.Dict.{lookup}
use ipp_usb.IniFile.Termination.{EndsNl}
use ipp_usb.IniFile.Progress.{Progressed, next-Progressed}
use ipp_usb.IniFile.Records.{
  RecordType, IniRecord, IniFile, Next, found, eof, syntax, open_ini_file, next,
}
use ipp_usb.Quirks.Parsing.{Parsed, str, Kind, Quirk, is_http, quirk_parse}
use ipp_usb.Quirks.{Quirks, new_quirks, pull_by_hwid, pull_by_model_name}
use ipp_usb.Quirks.Files.{
  Loading, add, bad_syntax, Outcome, going, failed, put_parsed, put_known, add_quirk,
  key_val_record, dispatch, record_step, read_records, read_file,
}
use ipp_usb.Quirks.Typing.{
  KindOf, ParsedAs, parse-HasKind, AllTyped, put-AllTyped, pull_by_hwid-AllTyped,
  pull_by_model_name-AllTyped,
}

http-bytes :
    (a b c d e : ℕ) (rest : Bytes)
    → is_http (a ∷ b ∷ c ∷ d ∷ e ∷ rest) ≡ true
    → (a ≡ b'h') × (b ≡ b't') × (c ≡ b't') × (d ≡ b'p') × (e ≡ b'-')
unfolding has_prefix
http-bytes a b c d e rest h = ground arith

-- No parsing method goes with a name that begins as an HTTP header's.
http-no_kind : (name : Bytes) → is_http name ≡ true → quirk_parse (map to_lower_byte name) ≡ none
unfolding quirk_parse has_prefix to_lower_byte
http-no_kind [] h = cc
http-no_kind (a ∷ []) h = ground arith
http-no_kind (a ∷ b ∷ []) h = ground arith
http-no_kind (a ∷ b ∷ c ∷ []) h = ground arith
http-no_kind (a ∷ b ∷ c ∷ d ∷ []) h = ground arith
http-no_kind (a ∷ b ∷ c ∷ d ∷ e ∷ rest) h = let p = (http-bytes a b c d e rest h).0 in rw p

abbrev OptionTyped : Option Quirks → Type 0
OptionTyped none = Unit
OptionTyped (some quirks) = AllTyped quirks

abbrev LoadingTyped : Loading → Type 0
LoadingTyped l = All AllTyped l.qdb × OptionTyped l.quirks

abbrev OutcomeTyped : Outcome → Type 0
OutcomeTyped (going l) = LoadingTyped l
OutcomeTyped (failed e) = Unit

add-All :
    (qdb : List Quirks) (o : Option Quirks)
    → All AllTyped qdb
    → OptionTyped o
    → All AllTyped (add qdb o)
add-All qdb none h t = h
add-All [] (some q) h t = (t, tt)
add-All (x ∷ qdb) (some q) h t = (h.0, add-All qdb (some q) h.1 t)

module _ (canonical : Bytes → Bytes) (text : Bytes → Option ℤ) where
  put_parsed-Typed :
      (l : Loading) (quirks : Quirks) (q : Quirk) (k : Kind) (p : Option Parsed) (line : ℕ)
      → All AllTyped l.qdb
      → AllTyped quirks
      → quirk_parse q.name ≡ some k
      → ParsedAs k p
      → OutcomeTyped (put_parsed canonical text l quirks q p line)
  put_parsed-Typed l quirks q k none line h t e p = tt
  put_parsed-Typed l quirks q k (some v) line h t e p = (
    h,
    put-AllTyped canonical quirks (record q { parsed = v }) t (subst (λ o. KindOf o v) (sym e) p),
  )

  put_known-Typed :
      (l : Loading) (quirks : Quirks) (q : Quirk) (o : Option Kind) (line : ℕ)
      → LoadingTyped l
      → AllTyped quirks
      → quirk_parse q.name ≡ o
      → OutcomeTyped (put_known canonical text l quirks q o line)
  put_known-Typed l quirks q none line h t e = h
  put_known-Typed l quirks q (some k) line h t e =
      put_parsed-Typed l quirks q k _ line h.0 t e (parse-HasKind text k q)

  add_quirk-Typed :
      (l : Loading) (quirks : Quirks) (rec : IniRecord) (o : Option Quirk)
      → LoadingTyped l
      → AllTyped quirks
      → OutcomeTyped (add_quirk canonical text l quirks rec o)
  add_quirk-Typed l quirks rec (some earlier) h t = tt
  add_quirk-Typed l quirks rec none h t =
      if_cases OutcomeTyped (is_http rec.key) _ _
        (λ e. (
          h.0,
          put-AllTyped canonical quirks _ t
              (subst (λ o. KindOf o (str rec.value)) (sym (http-no_kind rec.key e)) tt),
        ))
        (λ _. put_known-Typed _ quirks _ (quirk_parse rec.key) rec.line h t refl)

  key_val-Typed :
      (l : Loading) (rec : IniRecord) (o : Option Quirks)
      → LoadingTyped l
      → OptionTyped o
      → OutcomeTyped (key_val_record canonical text l rec o)
  key_val-Typed l rec none h t = tt
  key_val-Typed l rec (some quirks) h t =
      add_quirk-Typed l quirks rec (lookup rec.key quirks.by_name) h t

  dispatch-Typed :
      (l : Loading) (rec : IniRecord) (type : RecordType)
      → LoadingTyped l
      → OutcomeTyped (dispatch canonical text l rec type)
  dispatch-Typed l rec RecordType.section h = (add-All l.qdb l.quirks h.0 h.1, tt)
  dispatch-Typed l rec RecordType.key_val h = key_val-Typed l rec l.quirks h h.1

  abbrev ReadTyped : Option Outcome → Type 0
  ReadTyped none = ⊥
  ReadTyped (some o) = OutcomeTyped o

  next_round-Typed :
      (f n : ℕ) (o : Option (Next × IniFile)) (l : Loading)
      → ((ini' : IniFile) (l' : Loading)
          → EndsNl ini'.reader.unread
          → length ini'.reader.unread < n
          → LoadingTyped l'
          → ReadTyped (read_records canonical text f ini' l'))
      → Progressed n o
      → LoadingTyped l
      → ReadTyped (elim o [
        | none ↦ none
        | some (eof, ini') ↦ some (going l)
        | some (syntax line message, ini') ↦ some (failed (bad_syntax line message))
        | some (found rec, ini') ↦ elim (record_step canonical text l rec) [
          | failed e ↦ some (failed e)
          | going l' ↦ read_records canonical text f ini' l'
        ]
      ])
  unfolding record_step
  next_round-Typed f n none l ih p h = absurd p
  next_round-Typed f n (some (eof, ini')) l ih p h = h
  next_round-Typed f n (some (syntax line message, ini')) l ih p h = tt
  next_round-Typed f n (some (found rec, ini')) l ih p h =
      after (dispatch canonical text l rec rec.type) (dispatch-Typed l rec rec.type h)
    where
      after :
          (o : Outcome)
          → OutcomeTyped o
          → ReadTyped (elim o [
            | failed e ↦ some (failed e)
            | going l' ↦ read_records canonical text f ini' l'
          ])
      after (failed e) t = tt
      after (going l') t = ih ini' l' p.0 p.1 t

  read_records-Typed :
      (f : ℕ) (ini : IniFile) (l : Loading)
      → EndsNl ini.reader.unread
      → length ini.reader.unread < f
      → LoadingTyped l
      → ReadTyped (read_records canonical text f ini l)
  unfolding read_records
  read_records-Typed zero ini l e b h = absurd (omega arith)
  read_records-Typed (suc f) ini l e b h =
      next_round-Typed f (length ini.reader.unread) (next ini) l
        (λ ini' l' e' b' h'. read_records-Typed f ini' l' e' (omega arith) h')
        (next-Progressed ini e) h

  -- The result of `readFile`: the data base with the file's last section, or the error.
  abbrev pub FileTyped : Option Outcome → Type 0
  FileTyped none = ⊥
  FileTyped (some (failed e)) = Unit
  FileTyped (some (going l)) = All AllTyped (add l.qdb l.quirks)

  ReadTyped-FileTyped : (o : Option Outcome) → ReadTyped o → FileTyped o
  ReadTyped-FileTyped none h = h
  ReadTyped-FileTyped (some (failed e)) h = tt
  ReadTyped-FileTyped (some (going l)) h = add-All l.qdb l.quirks h.0 h.1

  -- Reading a quirks file that is empty or ends with a newline, into a data base of typed
  -- collections, returns, with an error or with a data base of typed collections. The file's last
  -- section is in the data base.
  pub read_file-Typed :
      (path file : Bytes) (qdb : List Quirks)
      → EndsNl file
      → All AllTyped qdb
      → FileTyped (read_file canonical text path file qdb)
  unfolding read_file open_ini_file
  read_file-Typed path file qdb e h = ReadTyped-FileTyped _ (
      read_records-Typed (length file + 1) (open_ini_file path file true)
        (record { qdb = qdb; quirks = none; matched_hwid = none; load_order = 0 }) e (omega arith)
        (h, tt))

-- The quirks that a device gets from a data base of typed collections, by its hardware ID and then
-- by its model name, are typed.
pub device_quirks-AllTyped :
    (canonical : Bytes → Bytes) (qdb : List Quirks) (vid pid : ℕ) (model : Bytes)
    → All AllTyped qdb
    → AllTyped
        (pull_by_model_name canonical (pull_by_hwid canonical new_quirks qdb vid pid) qdb model)
device_quirks-AllTyped canonical qdb vid pid model h =
    pull_by_model_name-AllTyped canonical qdb _ model
      (pull_by_hwid-AllTyped canonical qdb new_quirks vid pid tt h) h
