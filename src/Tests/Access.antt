-- ===== src/Tests/Access.antt =====
-- Clients of a host with two addresses, under rules for users and groups.
use ipp_usb.Base.{
  ℕ, ◌≡◌, ◌↔◌, refl, true, false, ◌==◌, if◌then◌else◌, none, some, List, [], ◌∷◌, Bytes, codes,
  bytes_eq, has_prefix, arith,
}
use ipp_usb.Auth.Rules.{
  ops_none, ops_all, ops_print, ops_meet, AuthUidRule, AuthUidInfo, match_user, match_group,
  or_matches, apply_rules, auth_uid, requires_uid,
}
use ipp_usb.Auth.Lookup.{User, Users, lookup, lookup_again}
use ipp_usb.Auth.Request.{
  Host, requested_ops, locality, needs_uid, auth_http_request, granted, forbidden,
}
use ipp_usb.Auth.Grants.{Granted, auth_uid_iff}
use ipp_usb.Auth.Decisions.{Decided, unknown, unknown_client, known_client}

abbrev lp_user : User
lp_user = record { username = codes "anna"; gid = codes "7"; group_ids = some (codes "9" ∷ []) }

abbrev users : Users
users = record {
  lookup_id = λ id. if bytes_eq id (codes "500") then some lp_user else none;
  lookup_group_id =
      λ gid. if bytes_eq gid (codes "7") then some (codes "lp") else some (codes "staff");
}

-- Addresses are numbers: 1 is the loopback, 2 and 3 are the host's.
abbrev host : Host ℕ
host = record {
  interface_addrs = some (some 2 ∷ none ∷ some 3 ∷ []);
  is_loopback = λ ip. ip == 1;
  equal = λ a b. a == b;
  uid_supported = true;
  client_uid = λ client server. some 500;
  users = users;
}

abbrev rules : List AuthUidRule
rules =
    record { name = codes "@lp"; allowed = ops_print }
    ∷ record { name = codes "root"; allowed = ops_all }
    ∷ []

abbrev anna : AuthUidInfo
anna = record {
  usr_names = codes "500" ∷ codes "anna" ∷ [];
  grp_names = codes "7" ∷ codes "9" ∷ codes "lp" ∷ codes "staff" ∷ [];
  expires = 2000000005;
}

lookup-anna : (lookup users [] 3 5 (some 500)).1 ≡ some anna
unfolding lookup bytes_eq has_prefix
lookup-anna = refl

lookup_again_example :
    lookup users (lookup users [] 3 5 (some 500)).0 1000 1001 (some 500)
    ≡ ((lookup users [] 3 5 (some 500)).0, some anna)
lookup_again_example = lookup_again users users [] 3 5 1000 1001 500 anna lookup-anna (omega arith)

auth_uid_iff_example :
    (ops_meet ops_print (auth_uid rules anna) ≡ true) ↔ Granted ops_print anna rules
auth_uid_iff_example = auth_uid_iff ops_print anna rules (λ e. cc e)

auth_uid-anna : (auth_uid rules anna ≡ ops_print) × (auth_uid rules (unknown 3) ≡ ops_none)
unfolding auth_uid match_user match_group or_matches apply_rules bytes_eq has_prefix
auth_uid-anna = (refl, refl)

-- Rules for everybody.
abbrev open_rules : List AuthUidRule
open_rules = record { name = codes "*"; allowed = ops_print } ∷ []

open_rules-requires_uid : requires_uid open_rules ≡ false
unfolding requires_uid bytes_eq has_prefix
open_rules-requires_uid = refl

abbrev print_path : Bytes
print_path = codes "/ipp/print"

-- A client of another host, whose address is 9.
remote_needs_none :
    needs_uid host rules (locality host 9 2 (some 2 ∷ none ∷ some 3 ∷ []) false false) ≡ false
unfolding locality bytes_eq has_prefix
remote_needs_none = refl

unknown_client_example :
    Decided []
      (requested_ops (codes "POST") print_path)
      (unknown 3)
      rules
      (auth_http_request host rules [] 3 5 9 2 (codes "POST") print_path)
unknown_client_example =
    unknown_client host rules [] 3 5 9 2 (codes "POST") print_path (some 2 ∷ none ∷ some 3 ∷ [])
      refl remote_needs_none

-- A client of the same host, which prints.
local_needs_uid :
    needs_uid host rules (locality host 3 2 (some 2 ∷ none ∷ some 3 ∷ []) false false) ≡ true
unfolding locality requires_uid bytes_eq has_prefix
local_needs_uid = refl

lookup-host : lookup users [] 3 5 (some 500) ≡ ((500, anna) ∷ [], some anna)
unfolding lookup bytes_eq has_prefix
lookup-host = refl

known_client_example :
    Decided
      ((500, anna) ∷ [])
      (requested_ops (codes "POST") print_path)
      anna
      rules
      (auth_http_request host rules [] 3 5 3 2 (codes "POST") print_path)
known_client_example =
    known_client host rules [] 3 5 3 2 (codes "POST") print_path (some 2 ∷ none ∷ some 3 ∷ []) 500
      anna ((500, anna) ∷ []) refl local_needs_uid refl lookup-host

answers :
    (auth_http_request host rules [] 3 5 9 2 (codes "POST") print_path ≡ ([], forbidden))
    × (auth_http_request host rules [] 3 5 3 2 (codes "POST") print_path
        ≡ ((500, anna) ∷ [], granted))
    × (auth_http_request host rules [] 3 5 3 2 (codes "GET") (codes "/eSCL/Scan")
        ≡ ((500, anna) ∷ [], forbidden))
unfolding auth_http_request auth_uid match_user match_group or_matches apply_rules requires_uid
    bytes_eq has_prefix
answers = (refl, refl, refl)
