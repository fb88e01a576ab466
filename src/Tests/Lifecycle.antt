-- ===== src/Tests/Lifecycle.antt =====
-- Responses, over a body that is the list of its bytes.
use ipp_usb.Base.{
  ℕ, ◌≡◌, refl, ap, Bool, true, false, Option, none, some, List, [], ◌∷◌, ◌++◌, Bytes, codes, take,
  drop, length, pos, arith,
}
use ipp_usb.UsbTransport.Request.{HttpRequest}
use ipp_usb.UsbTransport.RoundTrip.{
  Reading, BodyWrapper, HttpResponse, Decoded, reads, Answers, round_trip, sanitize_ipp_response,
}
use ipp_usb.UsbTransport.RoundTrip.Release.{used, Released, round_trip-Released}
use ipp_usb.UsbTransport.RoundTrip.Sanitizing.{
  Announces, append-take, sanitize_ipp_response-Announces,
}

-- A body that is what is left to read of it.
abbrev read_bytes : Bytes → ℕ → Reading Bytes
read_bytes [] n = record { bytes = []; ended = true; rest = [] }
read_bytes (c ∷ body) n = record {
  bytes = take n (c ∷ body);
  ended = false;
  rest = drop n (c ∷ body);
}

abbrev Ended : Bytes → Type 0
Ended body = body ≡ []

read_bytes_ends : (b : Bytes) (n : ℕ) → (read_bytes b n).ended ≡ true → Ended (read_bytes b n).rest
read_bytes_ends [] n h = refl
read_bytes_ends (c ∷ b) n h = absurd (ground (arith, h))

read_bytes_stay : (b : Bytes) (n : ℕ) → Ended b → Ended (read_bytes b n).rest
read_bytes_stay [] n h = refl
read_bytes_stay (c ∷ b) n h = absurd (omega (arith, ap (λ (l : Bytes). length l) h))

read_bytes_content : (b : Bytes) (n : ℕ) → b ≡ (read_bytes b n).bytes ++ (read_bytes b n).rest
read_bytes_content [] n = refl
read_bytes_content (c ∷ b) n = append-take n (c ∷ b)

-- A decoder that reads eight bytes, and makes a message of them.
abbrev decode_ex : BodyWrapper Bytes → Decoded Bytes Bytes
decode_ex w =
    let r = reads read_bytes w (8 ∷ []) in record { message = some r.0; consumed = r.0; rest = r.1 }

abbrev decode_bytes : Bytes → Bool
decode_bytes b = false

abbrev encode : Bytes → Option Bytes
encode message = some (0 ∷ message)

decode_reads :
    (w : BodyWrapper Bytes)
    → (sizes : List ℕ) × (reads read_bytes w sizes ≡ ((decode_ex w).consumed, (decode_ex w).rest))
decode_reads w = (8 ∷ [], refl)

abbrev request : HttpRequest
request = record { header = []; content_length = pos 0; body = [] }

abbrev answers : Answers decode_ex decode_bytes encode
answers = record {
  allocated = none;
  written = true;
  response = some record {
    header = (codes "Content-Type", codes "application/ipp" ∷ []) ∷ [];
    content_length = pos 12;
    body = codes "printer-idle";
  };
  eof_seen = false;
}

round_trip-Released_example :
    Released decode_ex decode_bytes encode read_bytes
      (λ b. [])
      Ended
      read_bytes_ends
      read_bytes_stay
      (λ b. refl)
      decode_reads
      (used decode_ex decode_bytes encode read_bytes
        (λ b. [])
        Ended
        read_bytes_ends
        read_bytes_stay
        (λ b. refl)
        decode_reads
        (3 ∷ [])
        (round_trip decode_ex decode_bytes encode [] true request answers))
round_trip-Released_example =
    round_trip-Released decode_ex decode_bytes encode read_bytes (λ b. []) Ended read_bytes_ends
      read_bytes_stay (λ b. refl) decode_reads [] true request answers (3 ∷ [])

abbrev buggy_response : HttpResponse (BodyWrapper Bytes)
buggy_response = record {
  header = (codes "Content-Length", codes "12" ∷ []) ∷ [];
  content_length = pos 12;
  body = record { pre_body = []; body = codes "printer-idle"; drained = false };
}

sanitize_ipp_response-Announces_example :
    Announces read_bytes
      (λ b. b)
      read_bytes_content
      decode_ex
      decode_bytes
      encode
      decode_reads
      buggy_response
      (sanitize_ipp_response decode_ex decode_bytes encode buggy_response)
sanitize_ipp_response-Announces_example =
    sanitize_ipp_response-Announces read_bytes (λ b. b) read_bytes_content decode_ex decode_bytes
      encode decode_reads buggy_response refl refl
