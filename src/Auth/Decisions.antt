-- ===== src/Auth/Decisions.antt =====
-- What `AuthHTTPRequest` of auth.go decides.
use ipp_usb.Base.{
  ℕ, ◌+◌, ◌≡◌, ◌⊎◌, ◌↔◌, inl, inr, refl, Bool, true, false, if◌then◌else◌, Option, some, List, [],
  ◌∷◌, Bytes, codes, arith,
}
use ipp_usb.Auth.Rules.{AuthOps, ops_all, ops_meet, AuthUidRule, AuthUidInfo, auth_uid}
use ipp_usb.Auth.Lookup.{Cache, cache_ttl, lookup}
use ipp_usb.Auth.Request.{
  requested_ops, Host, locality, needs_uid, Answer, granted, forbidden, auth_http_request,
}
use ipp_usb.Auth.Grants.{Granted, auth_uid_iff}

-- The names of a client that is not known.
abbrev pub unknown : ℕ → AuthUidInfo
unknown now = record {
  usr_names = codes "*" ∷ [];
  grp_names = codes "*" ∷ [];
  expires = now + cache_ttl;
}

-- Nothing is configured, or the rules grant the operation.
abbrev pub Allowed : AuthOps → AuthUidInfo → List AuthUidRule → Type 0
Allowed op info rules = (rules ≡ []) ⊎ Granted op info rules

requested_ops_all : (method path : Bytes) → ops_meet (requested_ops method path) ops_all ≡ true
unfolding requested_ops
requested_ops_all method path = ground arith

Allowed-iff :
    (method path : Bytes) (info : AuthUidInfo) (rules : List AuthUidRule)
    → (ops_meet (requested_ops method path) (auth_uid rules info) ≡ true)
      ↔ Allowed (requested_ops method path) info rules
Allowed-iff method path info [] =
    (λ _. inl refl, λ _. unfold auth_uid in requested_ops_all method path)
Allowed-iff method path info (rule ∷ rules) =
    let granting = auth_uid_iff (requested_ops method path) info (rule ∷ rules) (λ h. cc) in
    (λ h. inr (granting.0 h), λ h. elim h [ inl e ↦ absurd (cc e) | inr g ↦ granting.1 g ])

granted_iff : (b : Bool) → ((if b then granted else forbidden) ≡ granted) ↔ (b ≡ true)
granted_iff b = (λ h. ground arith, λ h. ground arith)

-- A decision: the cache it leaves, and an answer that is as the rules say.
abbrev pub Decided : Cache → AuthOps → AuthUidInfo → List AuthUidRule → Cache × Answer → Type 0
Decided cache op info rules (cache', answer) =
    (cache' ≡ cache)
    × ((answer ≡ granted) ⊎ (answer ≡ forbidden))
    × ((answer ≡ granted) ↔ Allowed op info rules)

decision-Decided :
    (cache : Cache) (method path : Bytes) (info : AuthUidInfo) (rules : List AuthUidRule)
    → Decided cache (requested_ops method path) info rules (
      cache,
      if ops_meet (requested_ops method path) (auth_uid rules info) then granted else forbidden,
    )
decision-Decided cache method path info rules =
    let by_bit = granted_iff (ops_meet (requested_ops method path) (auth_uid rules info)) in
    let by_rules = Allowed-iff method path info rules in
    (refl, either _, (λ h. by_rules.0 (by_bit.0 h), λ h. by_bit.1 (by_rules.1 h)))
  where
    either :
        (b : Bool)
        → ((if b then granted else forbidden) ≡ granted)
          ⊎ ((if b then granted else forbidden) ≡ forbidden)
    either true = inl refl
    either false = inr refl

module _ {Ip : Type 0} (host : Host Ip) (rules : List AuthUidRule) (cache : Cache)
    (now later : ℕ) where
  -- A request that needs no user ID (a remote one, or one on a system that cannot tell, or under
  -- rules for everybody only) leaves the cache as it is, is granted exactly if no rules are
  -- configured or the rules grant the operation to a client that is not known, and is forbidden
  -- otherwise.
  pub unknown_client :
      (client server : Ip) (method path : Bytes) (addrs : List (Option Ip))
      → host.interface_addrs ≡ some addrs
      → needs_uid host rules
          (locality host client server addrs (host.is_loopback client) (host.is_loopback server))
        ≡ false
      → Decided cache
          (requested_ops method path)
          (unknown now)
          rules
          (auth_http_request host rules cache now later client server method path)
  unfolding auth_http_request
  unknown_client client server method path addrs h n =
      rw (h, auth_http_request, n) (decision-Decided cache method path (unknown now) rules)

  -- A request for which the client's user ID is asked and found, and its names are found too, is
  -- granted exactly if no rules are configured or the rules grant the operation to those names, and
  -- is forbidden otherwise; the cache is the one that the lookup left.
  pub known_client :
      (client server : Ip) (method path : Bytes) (addrs : List (Option Ip)) (uid : ℕ)
      (info : AuthUidInfo) (cache' : Cache)
      → host.interface_addrs ≡ some addrs
      → needs_uid host rules
          (locality host client server addrs (host.is_loopback client) (host.is_loopback server))
        ≡ true
      → host.client_uid client server ≡ some uid
      → lookup host.users cache now later (some uid) ≡ (cache', some info)
      → Decided cache'
          (requested_ops method path)
          info
          rules
          (auth_http_request host rules cache now later client server method path)
  unfolding auth_http_request
  known_client client server method path addrs uid info cache' h n u l =
      rw (h, auth_http_request, n, u, l) (decision-Decided cache' method path info rules)
