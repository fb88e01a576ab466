-- ===== src/Auth/Request.antt =====
-- `AuthHTTPRequest` of auth.go. Logging is left out.
use ipp_usb.Base.{
  ℕ, Bool, true, false, not, ◌&&◌, ◌||◌, if◌then◌else◌, Option, none, some, List, [], ◌∷◌, Bytes,
  codes, bytes_eq, has_prefix,
}
use ipp_usb.Auth.Rules.{
  AuthOps, ops_config, ops_fax, ops_print, ops_scan, ops_meet, AuthUidRule, AuthUidInfo, auth_uid,
  requires_uid,
}
use ipp_usb.Auth.Lookup.{Users, Cache, lookup}

-- The operation that a request is for, by its method and its path.
unfoldable pub requested_ops : Bytes → Bytes → AuthOps
unfolding has_prefix bytes_eq
requested_ops method path =
    let post = bytes_eq method (codes "POST") in
    if post && has_prefix path (codes "/ipp/print")
    then ops_print
    else if post && has_prefix path (codes "/ipp/faxout")
    then ops_fax
    else if has_prefix path (codes "/eSCL")
    then ops_scan
    else ops_config

-- What the host answers: its addresses (`none` is an error; an address that is no IP network is
-- `none`), tests of IP addresses, and the user ID of a client's socket, if there is no error.
pub record Host (Ip : Type 0) : Type 0 where
  pub interface_addrs : Option (List (Option Ip))
  pub is_loopback : Ip → Bool
  pub equal : Ip → Ip → Bool
  pub uid_supported : Bool
  pub client_uid : Ip → Ip → Option ℕ
  pub users : Users

module _ {Ip : Type 0} (host : Host Ip) where
  abbrev is_addr : Ip → Option Ip → Bool
  is_addr ip none = false
  is_addr ip (some addr) = host.equal ip addr

  -- The loop over the host's addresses: whether client and server are local.
  unfoldable pub locality : Ip → Ip → List (Option Ip) → Bool → Bool → Bool × Bool
  locality client server [] client_local server_local = (client_local, server_local)
  locality client server (addr ∷ addrs) client_local server_local =
      let rest =
        locality client server addrs (is_addr client addr || client_local)
          (is_addr server addr || server_local) in
      if client_local && server_local then (client_local, server_local) else rest

  -- Whether the client's user ID is asked for: there is no `reason` against it.
  abbrev pub needs_uid : List AuthUidRule → Bool × Bool → Bool
  needs_uid rules (client_local, server_local) =
      if not client_local || not server_local
      then false
      else if not host.uid_supported
      then false
      else requires_uid rules

-- The status of the answer, with whether there is an error.
pub data Answer : Type 0 where
  granted forbidden internal_error : Answer
  unresolved : Answer

-- `http.StatusOK`, `http.StatusForbidden`, `http.StatusInternalServerError`, and the 0 of a user ID
-- that cannot be resolved.
abbrev pub status : Answer → ℕ
status granted = 200
status forbidden = 403
status internal_error = 500
status unresolved = 0

abbrev pub decide_ops : List AuthUidRule → AuthOps → Cache × Option AuthUidInfo → Cache × Answer
decide_ops rules ops (cache, none) = (cache, unresolved)
decide_ops rules ops (cache, some info) =
    (cache, if ops_meet ops (auth_uid rules info) then granted else forbidden)

module _ {Ip : Type 0} (host : Host Ip) where
  abbrev decide_uid : List AuthUidRule → Cache → ℕ → ℕ → AuthOps → Bool → Option ℕ → Cache × Answer
  decide_uid rules cache now later ops false uid =
      decide_ops rules ops (lookup host.users cache now later none)
  decide_uid rules cache now later ops true none = (cache, internal_error)
  decide_uid rules cache now later ops true (some uid) =
      decide_ops rules ops (lookup host.users cache now later (some uid))

  abbrev decide_addrs :
      List AuthUidRule
      → Cache
      → ℕ
      → ℕ
      → Ip
      → Ip
      → AuthOps
      → Option (List (Option Ip))
      → Cache × Answer
  decide_addrs rules cache now later client server ops none = (cache, internal_error)
  decide_addrs rules cache now later client server ops (some addrs) =
      let locals =
        locality host client server addrs (host.is_loopback client) (host.is_loopback server) in
      decide_uid rules cache now later ops (needs_uid host rules locals)
        (host.client_uid client server)

  unfoldable pub auth_http_request :
      List AuthUidRule → Cache → ℕ → ℕ → Ip → Ip → Bytes → Bytes → Cache × Answer
  unfolding requested_ops locality lookup
  auth_http_request rules cache now later client server method path =
      decide_addrs rules cache now later client server (requested_ops method path)
        host.interface_addrs
