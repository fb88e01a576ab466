-- ===== src/UsbTransport/RoundTrip/Release.antt =====
-- The connection of a round trip is put back, once, and when the device has nothing more to send.
use ipp_usb.Base.{
  ℕ, ◌≡◌, subst, Bool, true, Bool-cases, if_cases, ltb, arith, inl, inr, Option, none, some, List,
  [], ◌∷◌, ◌++◌, Bytes, length,
}
use ipp_usb.UsbTransport.Request.{HttpRequest, Prepared, ready, unexpected_end, prepare}
use ipp_usb.UsbTransport.RoundTrip.{
  GetError, Reading, BodyWrapper, HttpResponse, Decoded, Event, got, wrote, answered, cancelled,
  put_back, read, reads, cleanup, close, replaced, reencoded, sanitize_decoded,
  sanitize_ipp_response, Answers, Returned, response, error, wrapped, sanitize_if, receive,
  transact, send, round_trip,
}

module _ {B M : Type 0} (decode_ex : BodyWrapper B → Decoded B M) (decode_bytes : Bytes → Bool)
    (encode : M → Option Bytes) (read_body : B → ℕ → Reading B) (discard : B → B)
    (Ended : B → Type 0)
    (read_ends : (b : B) (n : ℕ) → (read_body b n).ended ≡ true → Ended (read_body b n).rest)
    (stays_ended : (b : B) (n : ℕ) → Ended b → Ended (read_body b n).rest)
    (discard_ends : (b : B) → Ended (discard b))
    (decode_reads : (w : BodyWrapper B)
      → (sizes : List ℕ) × (reads read_body w sizes
          ≡ ((decode_ex w).consumed, (decode_ex w).rest))) where
  -- A client that reads from the response, in pieces of any sizes, and closes it.
  abbrev pub used :
      List ℕ → Returned decode_ex decode_bytes encode × List (Event B) → List (Event B)
  used sizes (error e, events) = events
  used sizes (response resp, events) = events ++ close discard (reads read_body resp.body sizes).1

  -- The rest of a round trip that holds a connection: it is put back when the body behind it has
  -- ended, the context is released, and nothing follows.
  abbrev pub Holding : List (Event B) → Type 0
  Holding (wrote ∷ events) = Holding events
  Holding (answered ∷ events) = Holding events
  Holding (put_back none ∷ cancelled ∷ []) = Unit
  Holding (put_back (some body) ∷ cancelled ∷ []) = Ended body
  Holding _ = ⊥

  abbrev pub Released : List (Event B) → Type 0
  Released [] = Unit
  Released (got ∷ events) = Holding events
  Released _ = ⊥

  abbrev Sound : BodyWrapper B → Type 0
  Sound w = w.drained ≡ true → Ended w.body

  read-Sound : (w : BodyWrapper B) (n : ℕ) → Sound w → Sound (read read_body w n).rest
  unfolding read
  read-Sound w n s =
      if_cases (λ (r : Reading (BodyWrapper B)). Sound r.rest) (ltb 0 (length w.pre_body)) _ _
        (λ _. s)
        (λ _ drained. elim (Bool-cases w.drained) [
          | inl e ↦ stays_ended w.body n (s e)
          | inr e ↦ read_ends w.body n (ground (arith, drained, e))
        ])

  reads-Sound : (w : BodyWrapper B) (sizes : List ℕ) → Sound w → Sound (reads read_body w sizes).1
  unfolding reads
  reads-Sound w [] s = s
  reads-Sound w (n ∷ sizes) s = reads-Sound (read read_body w n).rest sizes (read-Sound w n s)

  decode_ex-Sound : (w : BodyWrapper B) → Sound w → Sound (decode_ex w).rest
  decode_ex-Sound w s =
      subst (λ r. Sound r.1) ((decode_reads w).1) (reads-Sound w (decode_reads w).0 s)

  close-Holding : (w : BodyWrapper B) → Sound w → Holding (close discard w)
  unfolding close
  close-Holding w s =
      if_cases Holding w.drained (cleanup discard w.body) (cleanup discard (discard w.body)) s
        (λ _. discard_ends w.body)

  reencoded-Sound :
      (resp : HttpResponse (BodyWrapper B)) (d : Decoded B M) (o : Option Bytes)
      → Sound d.rest
      → Sound (reencoded decode_ex decode_bytes encode resp d o).body
  reencoded-Sound resp d none s = s
  reencoded-Sound resp d (some buf2) s = s

  sanitize_decoded-Sound :
      (resp : HttpResponse (BodyWrapper B)) (d : Decoded B M) (o : Option M)
      → Sound d.rest
      → Sound (sanitize_decoded decode_ex decode_bytes encode resp d o).body
  sanitize_decoded-Sound resp d none s = s
  sanitize_decoded-Sound resp d (some msg) s =
      if_cases (λ r. Sound (HttpResponse.body r)) (decode_bytes d.consumed)
        (replaced decode_ex decode_bytes encode resp d d.consumed)
        (reencoded decode_ex decode_bytes encode resp d (encode msg)) (λ _. s)
        (λ _. reencoded-Sound resp d (encode msg) s)

  sanitize_if-Sound :
      (quirk : Bool) (resp : HttpResponse (BodyWrapper B))
      → Sound resp.body
      → Sound (sanitize_if decode_ex decode_bytes encode quirk resp).body
  unfolding sanitize_ipp_response
  sanitize_if-Sound quirk resp s =
      if_cases (λ (r : HttpResponse (BodyWrapper B)). Sound r.body) _ _ _
        (λ _.
          sanitize_decoded-Sound resp (decode_ex resp.body) (decode_ex resp.body).message
            (decode_ex-Sound resp.body s))
        (λ _. s)

  receive-Released :
      (quirk eof_seen : Bool) (o : Option (HttpResponse B)) (sizes : List ℕ)
      → Released (used sizes (receive decode_ex decode_bytes encode quirk eof_seen o))
  receive-Released quirk eof_seen none sizes = tt
  receive-Released quirk eof_seen (some resp) sizes =
      close-Holding (reads read_body start sizes).1 (
        reads-Sound start sizes (
          sanitize_if-Sound quirk (wrapped decode_ex decode_bytes encode resp)
            (λ e. absurd (ground (arith, e)))))
    where
      start : BodyWrapper B
      start =
          (sanitize_if decode_ex decode_bytes encode quirk
            (wrapped decode_ex decode_bytes encode resp)).body

  transact-Released :
      (quirk : Bool) (answers : Answers decode_ex decode_bytes encode) (o : Option GetError)
      (sizes : List ℕ)
      → Released (used sizes (transact decode_ex decode_bytes encode quirk answers o))
  transact-Released quirk answers (some e) sizes = tt
  transact-Released quirk answers none sizes =
      if_cases
        (λ (r : Returned decode_ex decode_bytes encode × List (Event B)). Released (used sizes r))
        answers.written _ _ (λ _. receive-Released quirk answers.eof_seen answers.response sizes)
        (λ _. tt)

  send-Released :
      (quirk : Bool) (prepared : Prepared) (answers : Answers decode_ex decode_bytes encode)
      (sizes : List ℕ)
      → Released (used sizes (send decode_ex decode_bytes encode quirk prepared answers))
  send-Released quirk unexpected_end answers sizes = tt
  send-Released quirk (ready sent) answers sizes =
      transact-Released quirk answers answers.allocated sizes

  -- Let reads tell when a body has ended, an ended body stay so, draining end a body, and the
  -- decoder of IPP messages only read from the body. Whatever the device answers, a round trip
  -- that gets a connection puts it back exactly once and then releases its context: when it
  -- returns an error, before it does so; when it returns a response, as its client closes that,
  -- after any reads, and not before the response's body has ended. One that gets no connection
  -- puts none back.
  pub round_trip-Released :
      (headers : List (Bytes × Bytes)) (quirk : Bool) (rq : HttpRequest)
      (answers : Answers decode_ex decode_bytes encode) (sizes : List ℕ)
      → Released (used sizes (round_trip decode_ex decode_bytes encode headers quirk rq answers))
  unfolding round_trip
  round_trip-Released headers quirk rq answers sizes =
      send-Released quirk (prepare headers rq) answers sizes
