-- ===== src/UsbTransport/RoundTrip.antt =====
-- `RoundTripWithSession` of usbtransport.go from the allocation of a connection on,
-- `usbResponseBodyWrapper` and `sanitizeIppResponse`. What the rest of a body is, how it is read and
-- drained, and the goipp library are parameters; net/http's answers are arguments. Logging is left
-- out. A transfer of the connection between the goroutines is an event.
-- Children: RoundTrip/Release (the connection is put back) and RoundTrip/Sanitizing (the content
-- and its length).
pub mod Release
pub mod Sanitizing
use ipp_usb.Base.{
  ℕ, zero, suc, ◌+◌, ◌-◌, Bool, true, false, ◌&&◌, ◌||◌, ltb, ◌==◌, if◌then◌else◌, Option, none,
  some, List, [], ◌∷◌, ◌++◌, Bytes, codes, bytes_eq, take, drop, length, itoa, ℤ, pos, negsuc,
}
use ipp_usb.Base.Dict.{lookup, insert}
use ipp_usb.UsbTransport.Request.{Header, HttpRequest, Prepared, ready, unexpected_end, prepare}

-- Why `usbConnGet` gives no connection: ErrShutdown, or the error of the request's context.
pub data GetError : Type 0 where
  err_shutdown context_error : GetError

-- The errors that a round trip returns. `eof` is io.EOF.
pub data TripError : Type 0 where
  body_unexpected_end write_failed response_failed eof : TripError
  not_allocated : GetError → TripError

-- `len` and the sum of an `int64` with a difference of two lengths. Lengths of bodies stay far
-- below the bounds of an int64.
unfoldable pub minus : ℤ → ℕ → ℤ
minus z zero = z
minus (pos zero) (suc n) = negsuc n
minus (pos (suc m)) (suc n) = minus (pos m) n
minus (negsuc m) (suc n) = negsuc (m + suc n)

unfoldable pub plus : ℤ → ℕ → ℤ
plus (pos m) n = pos (m + n)
plus (negsuc m) zero = negsuc m
plus (negsuc zero) (suc n) = pos n
plus (negsuc (suc m)) (suc n) = plus (negsuc m) n

-- `strconv.FormatInt` in base 10.
unfoldable pub format_int : ℤ → Bytes
unfolding itoa
format_int (pos n) = itoa n
format_int (negsuc n) = 45 ∷ itoa (suc n)

abbrev pub is_minus_one : ℤ → Bool
is_minus_one (negsuc zero) = true
is_minus_one _ = false

-- `Header.Get` of net/http, on a name in canonical form.
abbrev pub first_value : Option (List Bytes) → Bytes
first_value (some (value ∷ values)) = value
first_value _ = []

-- What one `Read` of a body returns: the bytes, whether with an error or EOF, and the rest.
pub record Reading (B : Type 0) : Type 0 where
  pub bytes : Bytes
  pub ended : Bool
  pub rest : B

-- `usbResponseBodyWrapper`. A `preBody` of nil is an empty one.
pub record BodyWrapper (B : Type 0) : Type 0 where
  pub pre_body : Bytes
  pub body : B
  pub drained : Bool

pub record HttpResponse (B : Type 0) : Type 0 where
  pub header : Header
  pub content_length : ℤ
  pub body : B

-- What `DecodeEx` makes of a body that it reads through a tee: the message or an error, the bytes
-- that it has read, and the body behind them.
pub record Decoded (B M : Type 0) : Type 0 where
  pub message : Option M
  pub consumed : Bytes
  pub rest : BodyWrapper B

-- What a goroutine does with its connection, in order: gets it from the pool, sends a request on
-- it, has the head of the response from it, puts it back while the response's body is at a given
-- point, and releases the context of its I/O.
pub data Event (B : Type 0) : Type 0 where
  got wrote answered cancelled : Event B
  put_back : Option B → Event B

module _ {B : Type 0} (read_body : B → ℕ → Reading B) where
  -- `Read` of `usbResponseBodyWrapper`, into a buffer of `n` bytes.
  unfoldable pub read : BodyWrapper B → ℕ → Reading (BodyWrapper B)
  read wrap n =
      if ltb 0 (length wrap.pre_body)
      then record {
        bytes = take n wrap.pre_body;
        ended = false;
        rest = record wrap { pre_body = drop n wrap.pre_body };
      }
      else let r = read_body wrap.body n in
        record {
          bytes = r.bytes;
          ended = r.ended;
          rest = record wrap { body = r.rest; drained = wrap.drained || r.ended };
        }

  -- Reads of a client one after the other: the bytes it has, and the body behind them.
  unfoldable pub reads : BodyWrapper B → List ℕ → Bytes × BodyWrapper B
  unfolding read
  reads wrap [] = ([], wrap)
  reads wrap (n ∷ sizes) =
      let r = read wrap n in let more = reads r.rest sizes in (r.bytes ++ more.0, more.1)

-- `discard` is `io.Copy` from a body to `ioutil.Discard`.
module _ {B : Type 0} (discard : B → B) where
  abbrev pub cleanup : B → List (Event B)
  cleanup body = put_back (some body) ∷ cancelled ∷ []

  -- `Close` of `usbResponseBodyWrapper`, with what the goroutine that it starts does.
  unfoldable pub close : BodyWrapper B → List (Event B)
  close wrap = if wrap.drained then cleanup wrap.body else cleanup (discard wrap.body)

module _ {B M : Type 0} (decode_ex : BodyWrapper B → Decoded B M) (decode_bytes : Bytes → Bool)
    (encode : M → Option Bytes) where
  abbrev pub replaced :
      HttpResponse (BodyWrapper B) → Decoded B M → Bytes → HttpResponse (BodyWrapper B)
  replaced resp d buf = record resp { body = record (d.rest) { pre_body = buf } }

  -- The new `ContentLength`, with its header.
  abbrev pub adjusted : HttpResponse (BodyWrapper B) → ℕ → ℕ → HttpResponse (BodyWrapper B)
  adjusted resp len len2 =
      if is_minus_one resp.content_length
      then resp
      else let new = minus (plus resp.content_length len2) len in
        record resp {
          content_length = new;
          header = insert (codes "Content-Length") (format_int new ∷ []) resp.header;
        }

  abbrev pub reencoded :
      HttpResponse (BodyWrapper B) → Decoded B M → Option Bytes → HttpResponse (BodyWrapper B)
  reencoded resp d none = replaced resp d d.consumed
  reencoded resp d (some buf2) = replaced (adjusted resp (length d.consumed) (length buf2)) d buf2

  abbrev pub sanitize_decoded :
      HttpResponse (BodyWrapper B) → Decoded B M → Option M → HttpResponse (BodyWrapper B)
  sanitize_decoded resp d none = replaced resp d d.consumed
  sanitize_decoded resp d (some msg) =
      if decode_bytes d.consumed then replaced resp d d.consumed else reencoded resp d (encode msg)

  -- `sanitizeIppResponse`
  unfoldable pub sanitize_ipp_response : HttpResponse (BodyWrapper B) → HttpResponse (BodyWrapper B)
  unfolding minus plus format_int insert
  sanitize_ipp_response resp = let d = decode_ex resp.body in sanitize_decoded resp d d.message

  -- What the code called by a round trip answers.
  pub record Answers : Type 0 where
    pub allocated : Option GetError
    pub written : Bool
    pub response : Option (HttpResponse B)
    pub eof_seen : Bool

  -- What a round trip returns.
  pub data Returned : Type 0 where
    response : HttpResponse (BodyWrapper B) → Returned
    error : TripError → Returned

  abbrev pub wrapped : HttpResponse B → HttpResponse (BodyWrapper B)
  wrapped resp = record {
    header = resp.header;
    content_length = resp.content_length;
    body = record { pre_body = []; body = resp.body; drained = false };
  }

  abbrev pub sanitize_if : Bool → HttpResponse (BodyWrapper B) → HttpResponse (BodyWrapper B)
  sanitize_if quirk resp =
      if quirk
        && bytes_eq (first_value (lookup (codes "Content-Type") resp.header))
            (codes "application/ipp")
      then sanitize_ipp_response resp
      else resp

  abbrev pub receive : Bool → Bool → Option (HttpResponse B) → Returned × List (Event B)
  receive quirk eof_seen none = (
    error (if eof_seen then eof else response_failed),
    got ∷ wrote ∷ put_back none ∷ cancelled ∷ [],
  )
  receive quirk eof_seen (some resp) =
      (response (sanitize_if quirk (wrapped resp)), got ∷ wrote ∷ answered ∷ [])

  abbrev pub transact : Bool → Answers → Option GetError → Returned × List (Event B)
  transact quirk answers (some e) = (error (not_allocated e), [])
  transact quirk answers none =
      if answers.written
      then receive quirk answers.eof_seen answers.response
      else (error write_failed, got ∷ put_back none ∷ cancelled ∷ [])

  abbrev pub send : Bool → Prepared → Answers → Returned × List (Event B)
  send quirk unexpected_end answers = (error body_unexpected_end, [])
  send quirk (ready sent) answers = transact quirk answers answers.allocated

  -- `RoundTripWithSession`, under the quirk `buggy-ipp-responses = sanitize` or not.
  unfoldable pub round_trip :
      List (Bytes × Bytes) → Bool → HttpRequest → Answers → Returned × List (Event B)
  unfolding prepare sanitize_ipp_response lookup
  round_trip headers quirk rq answers = send quirk (prepare headers rq) answers
