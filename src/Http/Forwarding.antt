-- ===== src/Http/Forwarding.antt =====
-- Which requests reach the device, and in what form.
use ipp_usb.Base.{
  Bool, true, false, not, ◌&&◌, ◌||◌, if◌then◌else◌, Option, none, some, codes, bytes_eq,
}
use ipp_usb.Base.Dict.{lookup}
use ipp_usb.UsbCommon.{is_empty}
use ipp_usb.Auth.Lookup.{Cache}
use ipp_usb.Auth.Request.{Answer, granted, auth_http_request}
use ipp_usb.UsbTransport.RoundTrip.{first_value}
use ipp_usb.Http.{Environment, Request, HttpProxy, adjusted, strays}

abbrev is_granted : Answer → Bool
is_granted granted = true
is_granted _ = false

module _ {Addr : Type 0} (env : Environment Addr) where
  -- A request that is not redirected.
  abbrev unless_strays : Addr → Request Addr → Option (Request Addr)
  unless_strays server r = if strays env server r then none else some r

  -- What authentication says of a request, if it is asked.
  abbrev pub allowed : Cache → Addr → Addr → Request Addr → Bool
  allowed cache client server r =
      env.bridge_mode
      || is_granted
          (auth_http_request env.auth_host env.rules cache env.now env.later client server r.method
            r.url.path).1

  -- The request as the device gets it, if it gets it.
  abbrev pub passed : Cache → Request Addr → Option Addr → Option Addr → Option (Request Addr)
  passed cache r (some client) (some server) =
      if allowed cache client server r then unless_strays server (adjusted env server r) else none
  passed cache r _ _ = none

  abbrev pub sane : HttpProxy → Request Addr → Bool
  sane proxy r =
      proxy.enable
      && not (bytes_eq r.method (codes "CONNECT"))
      && is_empty (first_value (lookup (codes "Upgrade") r.header))
      && is_empty r.url.scheme
