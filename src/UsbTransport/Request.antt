-- ===== src/UsbTransport/Request.antt =====
-- `RoundTripWithSession` of usbtransport.go, up to the allocation of a connection: what it makes of
-- a request. Logging is left out. A request's body is what its client sends before the body's end
-- or an error, which `usbRequestBodyWrapper` takes for the end; no body is an empty one.
-- Child: Request/Headers (what the headers become, and the body).
pub mod Headers
use ipp_usb.Base.{
  ℕ, ◌+◌, Bool, true, false, ltb, ◌==◌, if◌then◌else◌, Option, none, some, List, [], ◌∷◌, Bytes,
  codes, take, length, ℤ, pos, negsuc, minus_one,
}
use ipp_usb.Base.Dict.{lookup, insert, delete}

abbrev pub Header : Type 0
Header = List (Bytes × List Bytes)

pub record HttpRequest : Type 0 where
  pub header : Header
  pub content_length : ℤ
  pub body : Bytes

abbrev pub user_agent : Bytes
user_agent = codes "User-Agent"

-- `Header.Set` and `Header.Del` of net/http, on a name in canonical form.
abbrev pub set_or_delete : Bytes → Bytes → Header → Header
set_or_delete name [] header = delete name header
set_or_delete name (c ∷ value) header = insert name ((c ∷ value) ∷ []) header

-- The loop over the quirks' HTTP headers, whose names `put` of quirks.go keeps in canonical form.
unfoldable pub apply_headers : List (Bytes × Bytes) → Header → Header
unfolding insert delete
apply_headers [] header = header
apply_headers ((name, value) ∷ quirks) header =
    apply_headers quirks (set_or_delete name value header)

abbrev pub add_user_agent : Header → Option (List Bytes) → Header
add_user_agent header none = insert user_agent (codes "ipp-usb" ∷ []) header
add_user_agent header (some found) = header

unfoldable pub prepare_header : List (Bytes × Bytes) → Header → Header
unfolding apply_headers lookup insert delete
prepare_header quirks header =
    let applied = apply_headers quirks (delete (codes "Expect") header) in
    add_user_agent applied (lookup user_agent applied)

-- The request that is sent, or the error of a body that ends before its stated length.
pub data Prepared : Type 0 where
  ready : HttpRequest → Prepared
  unexpected_end : Prepared

-- The switch on `ContentLength`: a small body is read beforehand, a large one is sent in chunks.
abbrev pub prepare_body : HttpRequest → ℤ → Prepared
prepare_body rq (negsuc n) = ready rq
prepare_body rq (pos n) =
    if n == 0
    then ready rq
    else if ltb n 16384
    then if ltb (length rq.body) n
      then unexpected_end
      else ready (record rq { body = take n rq.body })
    else ready (record rq { content_length = minus_one })

unfoldable pub prepare : List (Bytes × Bytes) → HttpRequest → Prepared
unfolding prepare_header
prepare quirks rq =
    prepare_body (record rq { header = prepare_header quirks rq.header }) rq.content_length
