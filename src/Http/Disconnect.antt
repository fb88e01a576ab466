-- ===== src/Http/Disconnect.antt =====
-- The notice that a bridge gives of a device that is gone.
use ipp_usb.Base.{
  ℕ, suc, ◌+◌, ◌≡◌, ◌∙◌, sym, ap, ap₂, subst, refl, Bool, true, false, not, ◌&&◌, ◌||◌, if_cases,
  if◌then◌else◌, Option, none, some, List, [], ◌∷◌, codes, bytes_eq, length, arith,
}
use ipp_usb.Base.Dict.{lookup}
use ipp_usb.UsbCommon.{is_empty}
use ipp_usb.Auth.Lookup.{Cache}
use ipp_usb.Auth.Request.{Answer, granted, forbidden, internal_error, unresolved}
use ipp_usb.UsbTransport.RoundTrip.{first_value}
use ipp_usb.Http.{
  Environment, Request, HttpProxy, Trip, answered, device_disconnect, trip_error, Served,
  http_error, http_redirect, strays, respond, notified, forward, after_auth, authenticate,
  with_addrs, serve_http, called,
}

abbrev is_disconnect : Trip → Bool
is_disconnect device_disconnect = true
is_disconnect _ = false

module _ {Addr : Type 0} (env : Environment Addr) where
  -- A request that was sent by a bridge to a device that is gone.
  abbrev pub lost : (Request Addr → Trip) → Option (Request Addr) → Bool
  lost round_trip none = false
  lost round_trip (some r) = env.bridge_mode && is_disconnect (round_trip r)

  -- The proxy after a request, from what it was before.
  abbrev Noted : HttpProxy → HttpProxy → Bool → Type 0
  Noted proxy proxy' gone =
      (proxy'.enable ≡ proxy.enable)
      × (proxy'.on_activity ≡ proxy.on_activity)
      × (proxy'.disconnected ≡ (proxy.disconnected || gone))
      × (proxy'.on_disconnect ≡ (
          if gone && not proxy.disconnected
          then called proxy.on_disconnect
          else proxy.on_disconnect))

  Noted-refl : (proxy : HttpProxy) → Noted proxy proxy false
  Noted-refl proxy = (refl, refl, ground arith, refl)

  notified-Noted : (proxy : HttpProxy) → Noted proxy (notified env proxy) true
  notified-Noted proxy =
      if_cases (λ (p : HttpProxy). Noted proxy p true) proxy.disconnected proxy
        (record proxy { disconnected = true; on_disconnect = called proxy.on_disconnect })
        (λ e. (refl, refl, ground (arith, e), ground (arith, e)))
        (λ e. (refl, refl, ground (arith, e), ground (arith, e)))

  module _ (round_trip : Request Addr → Trip) where
    abbrev After : HttpProxy → HttpProxy → Served Addr → Type 0
    After proxy proxy' served = Noted proxy proxy' (lost round_trip served.sent)

    -- A device that is there.
    Noted-there : (proxy : HttpProxy) → Noted proxy proxy (env.bridge_mode && false)
    Noted-there proxy = (refl, refl, ground arith, ground arith)

    http_error-After : (proxy : HttpProxy) (code : ℕ) → After proxy proxy (http_error env none code)
    unfolding http_error
    http_error-After proxy code = Noted-refl proxy

    respond-After :
        (proxy : HttpProxy) (r : Request Addr) (trip : Trip)
        → round_trip r ≡ trip
        → After proxy (respond env proxy r trip).0 (respond env proxy r trip).1
    unfolding respond http_error
    respond-After proxy r (answered code hdr) h = rw h (Noted-there proxy)
    respond-After proxy r trip_error h = rw h (Noted-there proxy)
    respond-After proxy r device_disconnect h =
        if_cases (λ (out : HttpProxy × Served Addr). After proxy out.0 out.1) env.bridge_mode
          (notified env proxy, http_error env (some r) 502) (proxy, http_error env (some r) 503)
          (λ e.
            subst (Noted proxy (notified env proxy)) (sym (ground (arith, e, ap is_disconnect h)))
              (notified-Noted proxy))
          (λ e. subst (Noted proxy proxy) (sym (ground (arith, e))) (Noted-refl proxy))

    abbrev Result : Type 0
    Result = HttpProxy × Cache × Served Addr

    forward-After :
        (proxy : HttpProxy) (server : Addr) (r : Request Addr)
        → After proxy
            (forward env round_trip proxy server r).0
            (forward env round_trip proxy server r).1
    unfolding http_redirect
    forward-After proxy server r =
        if_cases (λ (out : HttpProxy × Served Addr). After proxy out.0 out.1) (strays env server r)
          _ (respond env proxy r (round_trip r)) (λ e. Noted-refl proxy)
          (λ e. respond-After proxy r (round_trip r) refl)

    after_auth-After :
        (proxy : HttpProxy) (server : Addr) (r : Request Addr) (found : Cache × Answer)
        → (λ (out : Result). After proxy out.0 out.2)
            (after_auth env round_trip proxy server r found)
    after_auth-After proxy server r (cache, granted) = forward-After proxy server _
    after_auth-After proxy server r (cache, forbidden) = http_error-After proxy _
    after_auth-After proxy server r (cache, internal_error) = http_error-After proxy _
    after_auth-After proxy server r (cache, unresolved) = http_error-After proxy _

    authenticate-After :
        (proxy : HttpProxy) (cache : Cache) (client server : Addr) (r : Request Addr)
        → (λ (out : Result). After proxy out.0 out.2)
            (authenticate env round_trip proxy cache client server r)
    unfolding authenticate
    authenticate-After proxy cache client server r =
        if_cases (λ (out : Result). After proxy out.0 out.2) env.bridge_mode _ _
          (λ e. after_auth-After proxy server r (cache, granted))
          (λ e. after_auth-After proxy server r _)

    with_addrs-After :
        (proxy : HttpProxy) (cache : Cache) (r : Request Addr) (client server : Option Addr)
        → (λ (out : Result). After proxy out.0 out.2)
            (with_addrs env round_trip proxy cache r client server)
    with_addrs-After proxy cache r (some client) (some server) =
        authenticate-After proxy cache client server r
    with_addrs-After proxy cache r none server = http_error-After proxy 500
    with_addrs-After proxy cache r (some client) none = http_error-After proxy 500

    serve_http-After :
        (proxy : HttpProxy) (cache : Cache) (r : Request Addr)
        → (λ (out : Result).
              After (record proxy { on_activity = called proxy.on_activity }) out.0 out.2)
            (serve_http env round_trip proxy cache r)
    unfolding serve_http
    serve_http-After proxy cache r =
        let active : HttpProxy = record proxy { on_activity = called proxy.on_activity } in
        let P : Result → Type 0 = λ out. After active out.0 out.2 in
        if_cases P (not proxy.enable) _ _ (λ e. http_error-After active 503)
          (λ e.
            if_cases P (bytes_eq r.method (codes "CONNECT")) _ _ (λ c. http_error-After active 405)
              (λ c.
                if_cases P (not (is_empty (first_value (lookup (codes "Upgrade") r.header)))) _ _
                  (λ u. http_error-After active 503)
                  (λ u.
                    if_cases P (not (is_empty r.url.scheme)) _ _ (λ a. http_error-After active 503)
                      (λ a. with_addrs-After active cache r r.remote_addr r.local_addr))))

-- A request, with the answer that the transport would give and the times of its authentication.
pub record Arrival (Addr : Type 0) : Type 0 where
  pub request : Request Addr
  pub round_trip : Request Addr → Trip
  pub now : ℕ
  pub later : ℕ

module _ {Addr : Type 0} (env : Environment Addr) where
  abbrev at_times : Arrival Addr → Environment Addr
  at_times a = record env { now = a.now; later = a.later }

  abbrev served : Arrival Addr → HttpProxy → Cache → HttpProxy × Cache × Served Addr
  served a proxy cache = serve_http (at_times a) a.round_trip proxy cache a.request

  -- The proxy after some requests, and whether one of them was lost.
  unfoldable pub serve_all : List (Arrival Addr) → HttpProxy → Cache → Bool → HttpProxy × Bool
  unfolding serve_http
  serve_all [] proxy cache gone = (proxy, gone)
  serve_all (a ∷ arrivals) proxy cache gone =
      let out = served a proxy cache in
      serve_all arrivals out.0 out.1 (gone || lost env a.round_trip out.2.sent)

  abbrev pub new_proxy : Bool → HttpProxy
  new_proxy enable = record {
    enable = enable;
    on_disconnect = some 0;
    disconnected = false;
    on_activity = some 0;
  }

  -- Both handlers are there; the one is called for each request, the other once, if at all.
  abbrev pub Told : ℕ → HttpProxy → Bool → Type 0
  Told n proxy gone =
      (proxy.disconnected ≡ gone)
      × (proxy.on_activity ≡ some n)
      × (proxy.on_disconnect ≡ some (if gone then 1 else 0))

  Told-After :
      (n : ℕ) (proxy proxy' : HttpProxy) (gone more : Bool)
      → Told n proxy gone
      → Noted env (record proxy { on_activity = called proxy.on_activity }) proxy' more
      → Told (suc n) proxy' (gone || more)
  Told-After n proxy proxy' gone more (d, a, o) (e, a', d', o') = (
    d' ∙ ap (λ b. b || more) d,
    a' ∙ ap called a,
    o' ∙ ap₂ (λ b c. if more && not b then called c else c) d o ∙ counts gone more,
  )
    where
      counts :
          (b c : Bool)
          → (if c && not b then called (some (if b then 1 else 0)) else some (if b then 1 else 0))
            ≡ some (if b || c then 1 else 0)
      counts true true = refl
      counts true false = refl
      counts false true = refl
      counts false false = refl

  Told-from :
      (arrivals : List (Arrival Addr)) (n : ℕ) (proxy : HttpProxy) (cache : Cache) (gone : Bool)
      → Told n proxy gone
      → Told
          (n + length arrivals)
          (serve_all arrivals proxy cache gone).0
          (serve_all arrivals proxy cache gone).1
  unfolding serve_all
  Told-from [] n proxy cache gone h = (h.0, h.1 ∙ ap some (omega arith), h.2)
  Told-from (a ∷ arrivals) n proxy cache gone h =
      let out = served a proxy cache in
      let more = lost env a.round_trip out.2.sent in
      let next =
        Told-After n proxy out.0 gone more h
          (serve_http-After (at_times a) a.round_trip proxy cache a.request) in
      let rest = Told-from arrivals (suc n) out.0 out.1 (gone || more) next in
      (rest.0, rest.1 ∙ ap some (omega arith), rest.2)

  -- After any requests to a new proxy that has both handlers, the handler of activity was called once
  -- for each of them, and that of a disconnect once if a bridge has sent one of them to a device
  -- that was gone, and else not at all.
  pub serve_all-Told :
      (enable : Bool) (arrivals : List (Arrival Addr)) (cache : Cache)
      → (λ (out : HttpProxy × Bool). Told (length arrivals) out.0 out.1)
          (serve_all arrivals (new_proxy enable) cache false)
  serve_all-Told enable arrivals cache =
      let h = Told-from arrivals 0 (new_proxy enable) cache false (refl, refl, refl) in
      (h.0, h.1 ∙ ap some (omega arith), h.2)
