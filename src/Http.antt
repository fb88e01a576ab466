-- ===== src/Http.antt =====
-- http.go: `ServeHTTP` of HTTPProxy and the headers it changes. The USB transport's answer, the text
-- of an address and of a URL, `strings.ToLower` and the canonical form of a header's name are
-- parameters, and so are the status codes that `WriteHeader` of net/http takes: it panics on any
-- other. Logging, with the number of the session, is left out; so is the copy of the body.
-- Children: Http/Forwarding (what reaches the device), Http/HopByHop (its headers) and
-- Http/Disconnect (the notice of a lost device).
pub mod HopByHop
pub mod Forwarding
pub mod Disconnect
use ipp_usb.Base.{
  ℕ, suc, ◌+◌, Bool, true, false, not, ◌&&◌, ◌||◌, if◌then◌else◌, Option, none, some, List, [], ◌∷◌,
  ◌++◌, Bytes, codes, bytes_eq, has_prefix, split, trim_space, itoa,
}
use ipp_usb.Base.Dict.{lookup, insert, delete}
use ipp_usb.UsbCommon.{is_empty}
use ipp_usb.Auth.Rules.{AuthUidRule}
use ipp_usb.Auth.Lookup.{Cache}
use ipp_usb.Auth.Request.{Host, Answer, granted, status, auth_http_request}
use ipp_usb.UsbTransport.Request.{Header}
use ipp_usb.UsbTransport.RoundTrip.{first_value}

pub record Url : Type 0 where
  pub scheme : Bytes
  pub host : Bytes
  pub path : Bytes

-- A request, with the addresses of its client and its server, where they can be told.
pub record Request (Addr : Type 0) : Type 0 where
  pub method : Bytes
  pub header : Header
  pub host : Bytes
  pub url : Url
  pub remote_addr : Option Addr
  pub local_addr : Option Addr

-- The proxy: whether it is enabled, has seen the device go, and how often its two handlers were
-- called, where it has them.
pub record HttpProxy : Type 0 where
  pub enable : Bool
  pub on_disconnect : Option ℕ
  pub disconnected : Bool
  pub on_activity : Option ℕ

abbrev pub called : Option ℕ → Option ℕ
called none = none
called (some n) = some (suc n)

-- The answer of the transport.
pub data Trip : Type 0 where
  answered : ℕ → Header → Trip
  device_disconnect trip_error : Trip

-- What is written to the client; a `none` of it is a panic.
pub record Written : Type 0 where
  pub status : ℕ
  pub header : Header

-- The request that was handed to the transport, and what was written.
pub record Served (Addr : Type 0) : Type 0 where
  pub sent : Option (Request Addr)
  pub written : Option Written

-- The names that `httpRemoveHopByHopHeaders` always removes.
abbrev pub hop_by_hop : List Bytes
hop_by_hop =
    codes "Connection"
    ∷ codes "Keep-Alive"
    ∷ codes "Proxy-Authenticate"
    ∷ codes "Proxy-Connection"
    ∷ codes "Proxy-Authorization"
    ∷ codes "Te"
    ∷ codes "Trailer"
    ∷ codes "Transfer-Encoding"
    ∷ []

unfoldable pub delete_all : List Bytes → Header → Header
unfolding delete
delete_all [] hdr = hdr
delete_all (name ∷ names) hdr = delete_all names (delete name hdr)

-- The names in the value of "Connection"; an empty value has none.
unfoldable pub listed : (Bytes → Bytes) → List Bytes → List Bytes
unfolding trim_space
listed canonical [] = []
listed canonical (f ∷ fields) =
    let rest = listed canonical fields in
    if is_empty (trim_space f) then rest else canonical (trim_space f) ∷ rest

unfoldable pub remove_hop_by_hop : (Bytes → Bytes) → Header → Header
unfolding delete_all listed lookup split
remove_hop_by_hop canonical hdr =
    let c = first_value (lookup (codes "Connection") hdr) in
    delete_all hop_by_hop (delete_all (listed canonical (split c b',')) hdr)

unfoldable pub copy_headers : Header → Header → Header
unfolding insert
copy_headers dst [] = dst
copy_headers dst ((k, v) ∷ src) = copy_headers (insert k v dst) src

-- `httpNoCache`
unfoldable pub no_cache : Header → Header
unfolding insert
no_cache hdr =
    let control = codes "no-cache, no-store, must-revalidate" ∷ [] in
    let pragma = insert (codes "Cache-Control") control hdr in
    insert (codes "Expires") (codes "0" ∷ [])
      (insert (codes "Pragma") (codes "no-cache" ∷ []) pragma)

abbrev pub localhost : ℕ → Bytes
localhost port = codes "localhost:" ++ itoa port

-- What the proxy runs in: the host that authentication asks, the parameters, the configuration's
-- mode and rules, and the times of the authentication.
pub record Environment (Addr : Type 0) : Type 0 where
  pub auth_host : Host Addr
  pub port : Addr → ℕ
  pub addr_text : Addr → Bytes
  pub url_text : Url → Bytes
  pub lower : Bytes → Bytes
  pub canonical : Bytes → Bytes
  pub takes_code : ℕ → Bool
  pub bridge_mode : Bool
  pub rules : List AuthUidRule
  pub now : ℕ
  pub later : ℕ

module _ {Addr : Type 0} (env : Environment Addr) where
  abbrev pub write : ℕ → Header → Option Written
  write code hdr = if env.takes_code code then some record { status = code; header = hdr } else none

  -- `httpError`, for a request that was sent or was not, and `httpRedirect`.
  unfoldable pub http_error : Option (Request Addr) → ℕ → Served Addr
  unfolding no_cache insert
  http_error sent code = record {
    sent = sent;
    written =
        write code
          (no_cache (insert (codes "Content-Type") (codes "text/plain; charset=utf-8" ∷ []) []));
  }

  unfoldable pub http_redirect : ℕ → Url → Served Addr
  unfolding insert
  http_redirect code location = record {
    sent = none;
    written = write code (insert (codes "Location") (env.url_text location ∷ []) []);
  }

  abbrev pub with_host : Addr → Bytes → Bytes
  with_host server [] =
      if env.auth_host.is_loopback server then localhost (env.port server) else env.addr_text server
  with_host server (c ∷ name) = c ∷ name

  -- The request with its headers, its host and its URL adjusted.
  unfoldable pub adjusted : Addr → Request Addr → Request Addr
  unfolding remove_hop_by_hop itoa
  adjusted server r =
      let name = with_host server r.host in
      record r {
        header = remove_hop_by_hop env.canonical r.header;
        host = name;
        url = record (r.url) { scheme = codes "http"; host = name };
      }

  -- Whether a request is redirected to the localhost.
  unfoldable pub strays : Addr → Request Addr → Bool
  unfolding bytes_eq has_prefix
  strays server r =
      not env.bridge_mode
      && env.auth_host.is_loopback server
      && (bytes_eq r.method (codes "GET") || bytes_eq r.method (codes "HEAD"))
      && not (bytes_eq (env.lower r.host) (codes "localhost"))
      && not (has_prefix (env.lower r.host) (codes "localhost:"))

  abbrev pub notified : HttpProxy → HttpProxy
  notified proxy =
      if proxy.disconnected
      then proxy
      else record proxy { disconnected = true; on_disconnect = called proxy.on_disconnect }

  -- From the answer of the transport on.
  unfoldable pub respond : HttpProxy → Request Addr → Trip → HttpProxy × Served Addr
  unfolding http_error remove_hop_by_hop copy_headers
  respond proxy r (answered code hdr) = (
    proxy,
    record {
      sent = some r;
      written = write code (copy_headers [] (remove_hop_by_hop env.canonical hdr));
    },
  )
  respond proxy r device_disconnect =
      if env.bridge_mode
      then (notified proxy, http_error (some r) 502)
      else (proxy, http_error (some r) 503)
  respond proxy r trip_error = (proxy, http_error (some r) 503)

  module _ (round_trip : Request Addr → Trip) where
    abbrev pub forward : HttpProxy → Addr → Request Addr → HttpProxy × Served Addr
    forward proxy server r =
        if strays server r
        then (proxy, http_redirect 302 (record (r.url) { host = localhost (env.port server) }))
        else respond proxy r (round_trip r)

    abbrev pub after_auth :
        HttpProxy → Addr → Request Addr → Cache × Answer → HttpProxy × Cache × Served Addr
    after_auth proxy server r (cache, granted) =
        let out = forward proxy server (adjusted server r) in (out.0, cache, out.1)
    after_auth proxy server r (cache, answer) = (proxy, cache, http_error none (status answer))

    -- The authentication, which a bridge skips.
    unfoldable pub authenticate :
        HttpProxy → Cache → Addr → Addr → Request Addr → HttpProxy × Cache × Served Addr
    unfolding auth_http_request adjusted strays respond http_redirect http_error
    authenticate proxy cache client server r =
        if env.bridge_mode
        then after_auth proxy server r (cache, granted)
        else after_auth proxy server r (
            auth_http_request env.auth_host env.rules cache env.now env.later client server r.method
              r.url.path)

    abbrev pub with_addrs :
        HttpProxy
        → Cache
        → Request Addr
        → Option Addr
        → Option Addr
        → HttpProxy × Cache × Served Addr
    with_addrs proxy cache r (some client) (some server) = authenticate proxy cache client server r
    with_addrs proxy cache r _ _ = (proxy, cache, http_error none 500)

    -- `ServeHTTP`
    unfoldable pub serve_http : HttpProxy → Cache → Request Addr → HttpProxy × Cache × Served Addr
    unfolding authenticate http_error lookup bytes_eq
    serve_http proxy cache r =
        let active = record proxy { on_activity = called proxy.on_activity } in
        if not proxy.enable
        then (active, cache, http_error none 503)
        else if bytes_eq r.method (codes "CONNECT")
        then (active, cache, http_error none 405)
        else if not (is_empty (first_value (lookup (codes "Upgrade") r.header)))
        then (active, cache, http_error none 503)
        else if not (is_empty r.url.scheme)
        then (active, cache, http_error none 503)
        else with_addrs active cache r r.remote_addr r.local_addr
