-- ===== src/UsbTransport/Request/Headers.antt =====
-- The headers and the body of a request as it is sent to a device.
use ipp_usb.Base.{
  ℕ, zero, suc, ◌≡◌, ◌≤◌, inl, inr, refl, ap, sym, ◌∙◌, Bool, true, false, if_cases, ltb, ◌==◌,
  if◌then◌else◌, Option, none, some, List, [], ◌∷◌, Bytes, codes, bytes_eq, bytes_eq_iff, take,
  length, ℤ, pos, negsuc, Bool-cases, ==_iff, subst, arith,
}
use ipp_usb.Base.Dict.{lookup, delete, lookup-insert, lookup-delete}
use ipp_usb.UsbTransport.Request.{
  Header, HttpRequest, user_agent, set_or_delete, apply_headers, add_user_agent, prepare_header,
  Prepared, ready, unexpected_end, prepare_body, prepare,
}

-- No name has two entries.
abbrev pub Distinct : List (Bytes × Bytes) → Type 0
Distinct [] = Unit
Distinct ((name, value) ∷ quirks) = (lookup name quirks ≡ none) × Distinct quirks

-- A header's values: those of a quirk, if there is one of its name, or else those that it had. The
-- empty value deletes.
abbrev pub quirked : Option Bytes → Option (List Bytes) → Option (List Bytes)
quirked none old = old
quirked (some []) old = none
quirked (some (c ∷ value)) old = some ((c ∷ value) ∷ [])

lookup-set_or_delete :
    (name value n : Bytes) (header : Header)
    → lookup n (set_or_delete name value header)
      ≡ (if bytes_eq name n then quirked (some value) none else lookup n header)
lookup-set_or_delete name [] n header = lookup-delete name n header
lookup-set_or_delete name (c ∷ value) n header = lookup-insert name n ((c ∷ value) ∷ []) header

quirked-first :
    (b : Bool) (value : Bytes) (o : Option Bytes) (old : Option (List Bytes))
    → (b ≡ true → o ≡ none)
    → quirked o (if b then quirked (some value) none else old)
      ≡ quirked (if b then some value else o) old
quirked-first true [] o old h = rw (h refl) refl
quirked-first true (c ∷ value) o old h = rw (h refl) refl
quirked-first false value o old h = refl

lookup-apply_headers :
    (quirks : List (Bytes × Bytes)) (header : Header) (n : Bytes)
    → Distinct quirks
    → lookup n (apply_headers quirks header) ≡ quirked (lookup n quirks) (lookup n header)
unfolding apply_headers
lookup-apply_headers [] header n d = unfold lookup in refl
lookup-apply_headers ((name, value) ∷ quirks) header n d =
    lookup-apply_headers quirks (set_or_delete name value header) n d.1
    ∙ rw (lookup-set_or_delete name value n header) (
        unfold lookup in
        quirked-first (bytes_eq name n) value (lookup n quirks) (lookup n header) distinct)
  where
    distinct : bytes_eq name n ≡ true → lookup n quirks ≡ none
    distinct e = rw (← (bytes_eq_iff name n).0 e) (d.0)

abbrev pub or_else : Option (List Bytes) → List Bytes → List Bytes
or_else none values = values
or_else (some found) values = found

-- The values of a header that a device is sent: as the quirks have it, with no `Expect` of the
-- client's, and with a `User-Agent` where there is none.
abbrev pub sent_values : List (Bytes × Bytes) → Header → Bytes → Option (List Bytes)
sent_values quirks header n =
    let old = if bytes_eq (codes "Expect") n then none else lookup n header in
    let new = quirked (lookup n quirks) old in
    if bytes_eq user_agent n then some (or_else new (codes "ipp-usb" ∷ [])) else new

lookup-add_user_agent :
    (header : Header) (o : Option (List Bytes)) (n : Bytes)
    → lookup user_agent header ≡ o
    → lookup n (add_user_agent header o) ≡ (
        if bytes_eq user_agent n
        then some (or_else (lookup n header) (codes "ipp-usb" ∷ []))
        else lookup n header)
lookup-add_user_agent header o n e = elim (Bool-cases (bytes_eq user_agent n)) [
  | inl same ↦
      rw same
        (added o e (ap (λ m. lookup m header) (sym ((bytes_eq_iff user_agent n).0 same)) ∙ e) same)
  | inr differs ↦ rw differs (left_alone o differs)
]
  where
    added :
        (o : Option (List Bytes))
        → lookup user_agent header ≡ o
        → lookup n header ≡ o
        → bytes_eq user_agent n ≡ true
        → lookup n (add_user_agent header o)
          ≡ some (or_else (lookup n header) (codes "ipp-usb" ∷ []))
    added none e' k same =
        rw (lookup-insert user_agent n (codes "ipp-usb" ∷ []) header, same, k) refl
    added (some found) e' k same = rw k refl

    left_alone :
        (o : Option (List Bytes))
        → bytes_eq user_agent n ≡ false
        → lookup n (add_user_agent header o) ≡ lookup n header
    left_alone none differs =
        rw (lookup-insert user_agent n (codes "ipp-usb" ∷ []) header, differs) refl
    left_alone (some found) differs = refl

-- Where no header has two quirks: of the request's own headers, `RoundTripWithSession` sends those
-- that no quirk names, less `Expect`; each quirk's header is set to the quirk's value, or deleted
-- if that is empty; and a missing `User-Agent` is added.
pub prepare_header-sent_values :
    (quirks : List (Bytes × Bytes)) (header : Header) (n : Bytes)
    → Distinct quirks
    → lookup n (prepare_header quirks header) ≡ sent_values quirks header n
unfolding prepare_header
prepare_header-sent_values quirks header n d =
    lookup-add_user_agent applied (lookup user_agent applied) n refl
    ∙ rw
        (
          lookup-apply_headers quirks (delete (codes "Expect") header) n d,
          lookup-delete (codes "Expect") n header,
        )
        refl
  where
    applied : Header
    applied = apply_headers quirks (delete (codes "Expect") header)

length-take : {A : Type 0} (n : ℕ) (items : List A) → n ≤ length items → length (take n items) ≡ n
length-take zero items h = refl
length-take (suc n) [] h = omega arith
length-take (suc n) (x ∷ items) h = ap suc (length-take n items (omega arith))

abbrev magnitude : ℤ → ℕ
magnitude (pos n) = n
magnitude (negsuc n) = n

abbrev is_pos : ℤ → ℕ
is_pos (pos n) = 1
is_pos (negsuc n) = 0

abbrev Announced : HttpRequest → Prepared → Type 0
Announced rq (ready sent) =
    (n : ℕ)
    → sent.content_length ≡ pos (suc n)
    → (sent.body ≡ take (suc n) rq.body) × (length sent.body ≡ suc n)
Announced rq unexpected_end = Unit

prepare_body-Announced :
    (rq : HttpRequest) (given : ℤ)
    → rq.content_length ≡ given
    → Announced rq (prepare_body rq given)
prepare_body-Announced rq (negsuc m) e = λ n k. absurd (omega (arith, ap is_pos (sym e ∙ k)))
prepare_body-Announced rq (pos m) e =
    if_cases (Announced rq) (m == 0) _ _
      (λ z n k. absurd (not_announced n (sym e ∙ k) ((==_iff m 0).0 z)))
      (λ z.
        if_cases (Announced rq) (ltb m 16384) _ _
          (λ small.
            if_cases (Announced rq) (ltb (length rq.body) m) _ _ (λ short. tt)
              (λ enough n k. whole n (ap magnitude (sym e ∙ k)) (ground (arith, enough))))
          (λ large n k. absurd (omega (arith, ap is_pos k))))
  where
    not_announced : (n : ℕ) → pos m ≡ pos (suc n) → m ≡ 0 → ⊥
    not_announced n k z = omega (arith, ap magnitude k, z)

    whole :
        (n : ℕ)
        → m ≡ suc n
        → m ≤ length rq.body
        → (take m rq.body ≡ take (suc n) rq.body) × (length (take m rq.body) ≡ suc n)
    whole n k h = (ap (λ x. take x rq.body) k, length-take m rq.body h ∙ k)

-- A request that is sent to a device with a length has a body of just that length, which is the
-- beginning of the client's: the device is never left waiting for the rest of a body.
pub prepare_announced :
    (quirks : List (Bytes × Bytes)) (rq sent : HttpRequest) (n : ℕ)
    → prepare quirks rq ≡ ready sent
    → sent.content_length ≡ pos (suc n)
    → (sent.body ≡ take (suc n) rq.body) × (length sent.body ≡ suc n)
unfolding prepare
prepare_announced quirks rq sent n h =
    subst (Announced rq') h (prepare_body-Announced rq' rq.content_length refl) n
  where
    rq' : HttpRequest
    rq' = record rq { header = prepare_header quirks rq.header }
