-- ===== src/Auth/Rules.antt =====
-- Operations, rules, and what the rules allow (auth.go). `AuthOps` is a bit mask there; here each
-- of its four bits is a field.
use ipp_usb.Base.{
  ℕ, Bool, true, false, not, ◌&&◌, ◌||◌, if◌then◌else◌, List, [], ◌∷◌, Bytes, codes, bytes_eq,
  has_prefix,
}

pub record AuthOps : Type 0 where
  pub config : Bool
  pub fax : Bool
  pub print : Bool
  pub scan : Bool

abbrev pub ops_none : AuthOps
ops_none = record { config = false; fax = false; print = false; scan = false }

abbrev pub ops_all : AuthOps
ops_all = record { config = true; fax = true; print = true; scan = true }

abbrev pub ops_config : AuthOps
ops_config = record ops_none { config = true }

abbrev pub ops_fax : AuthOps
ops_fax = record ops_none { fax = true }

abbrev pub ops_print : AuthOps
ops_print = record ops_none { print = true }

abbrev pub ops_scan : AuthOps
ops_scan = record ops_none { scan = true }

-- `a | b`
abbrev pub ops_or : AuthOps → AuthOps → AuthOps
ops_or a b = record {
  config = a.config || b.config;
  fax = a.fax || b.fax;
  print = a.print || b.print;
  scan = a.scan || b.scan;
}

-- `a & b != AuthOpsNone`
abbrev pub ops_meet : AuthOps → AuthOps → Bool
ops_meet a b =
    (a.config && b.config) || (a.fax && b.fax) || (a.print && b.print) || (a.scan && b.scan)

unfoldable pub is_none : AuthOps → Bool
is_none a = not (a.config || a.fax || a.print || a.scan)

-- The name is a user's, or a group's behind a `@`; `*` means any.
pub record AuthUidRule : Type 0 where
  pub name : Bytes
  pub allowed : AuthOps

abbrev pub is_group : AuthUidRule → Bool
is_group rule = has_prefix rule.name (codes "@")

abbrev pub is_user : AuthUidRule → Bool
is_user rule = not (is_group rule)

unfoldable pub match_user : AuthUidRule → Bytes → AuthOps
match_user rule name =
    if is_group rule
    then ops_none
    else if bytes_eq rule.name (codes "*") || bytes_eq rule.name name
    then rule.allowed
    else ops_none

abbrev pub strip_at : Bytes → Bytes
strip_at [] = []
strip_at (c ∷ name) = name

unfoldable pub match_group : AuthUidRule → Bytes → AuthOps
match_group rule name =
    if not (is_group rule)
    then ops_none
    else let rule_name = strip_at rule.name in
      if bytes_eq rule_name (codes "*") || bytes_eq rule_name name then rule.allowed else ops_none

pub record AuthUidInfo : Type 0 where
  pub usr_names : List Bytes
  pub grp_names : List Bytes
  pub expires : ℕ

-- The inner loops: the matches of one rule against all names.
unfoldable pub or_matches : (Bytes → AuthOps) → List Bytes → AuthOps → AuthOps
or_matches match [] allowed = allowed
or_matches match (name ∷ names) allowed = or_matches match names (ops_or allowed (match name))

unfoldable pub apply_rules : List AuthUidRule → AuthUidInfo → AuthOps → AuthOps
apply_rules [] info allowed = allowed
apply_rules (rule ∷ rules) info allowed = apply_rules rules info (
    if is_user rule
    then or_matches (match_user rule) info.usr_names allowed
    else or_matches (match_group rule) info.grp_names allowed)

-- `AuthUID`. With no rules at all, everything is allowed. The rules are `Conf.ConfAuthUID`, which
-- is nil exactly if no rule was ever appended to it.
unfoldable pub auth_uid : List AuthUidRule → AuthUidInfo → AuthOps
auth_uid [] info = ops_all
auth_uid (rule ∷ rules) info = apply_rules (rule ∷ rules) info ops_none

-- `authUIDrequiresUID`
unfoldable pub requires_uid : List AuthUidRule → Bool
requires_uid [] = false
requires_uid (rule ∷ rules) =
    if not (bytes_eq rule.name (codes "*")) && not (bytes_eq rule.name (codes "@*"))
    then true
    else requires_uid rules
