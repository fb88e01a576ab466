-- ===== src/IniFile/Rules.antt =====
-- What `LoadAuthUIDRules` of inifile.go appends.
use ipp_usb.Base.{
  ◌≡◌, refl, inl, inr, true, false, Bool-cases, if_cases, ◌||◌, Option, none, some, List, [], ◌∷◌,
  ◌++◌, Bytes, codes, bytes_eq, trim_space, split, arith,
}
use ipp_usb.Auth.Rules.{AuthOps, ops_none, is_none, AuthUidRule}
use ipp_usb.IniFile.Records.{IniRecord}
use ipp_usb.IniFile.Values.{Loaded, listed, parse_ops, parse_users, rules_of, load_auth_uid_rules}

-- No rule has a name in `seen`, the name of an earlier rule, or no name at all; each allows
-- something.
abbrev pub Fresh : List Bytes → List AuthUidRule → Type 0
Fresh seen [] = Unit
Fresh seen (rule ∷ rules) =
    (listed rule.name seen ≡ false)
    × ((bytes_eq rule.name [] || bytes_eq rule.name (codes "@")) ≡ false)
    × (is_none rule.allowed ≡ false)
    × Fresh (rule.name ∷ seen) rules

parse_users_none :
    (allowed : AuthOps) (seen words : List Bytes)
    → is_none allowed ≡ true
    → parse_users allowed seen words ≡ []
unfolding parse_users
parse_users_none allowed seen [] h = refl
parse_users_none allowed seen (s ∷ words) h =
    rw
      (
        h,
        parse_users_none allowed seen words h,
        parse_users_none allowed (trim_space s ∷ seen) words h,
      )
      (ground arith)

parse_users_some :
    (allowed : AuthOps) (seen words : List Bytes)
    → is_none allowed ≡ false
    → Fresh seen (parse_users allowed seen words)
unfolding parse_users
parse_users_some allowed seen [] h = tt
parse_users_some allowed seen (s ∷ words) h =
    if_cases (Fresh seen) (bytes_eq (trim_space s) [] || bytes_eq (trim_space s) (codes "@")) _ _
      (λ _. parse_users_some allowed seen words h)
      (λ e.
        if_cases (Fresh seen) (listed (trim_space s) seen) _ _
          (λ _. parse_users_some allowed seen words h)
          (λ l. rw h (l, e, h, parse_users_some allowed (trim_space s ∷ seen) words h)))

parse_users-Fresh :
    (allowed : AuthOps) (words : List Bytes) → Fresh [] (parse_users allowed [] words)
parse_users-Fresh allowed words = elim (Bool-cases (is_none allowed)) [
  | inl e ↦ rw (parse_users_none allowed [] words e) tt
  | inr e ↦ parse_users_some allowed [] words e
]

-- The rules are those of `out`, with fresh ones behind them.
abbrev pub Extends : List AuthUidRule → List AuthUidRule → Type 0
Extends [] rules = Fresh [] rules
Extends (x ∷ out) [] = ⊥
Extends (x ∷ out) (rule ∷ rules) = (x ≡ rule) × Extends out rules

append-Extends : (out rules : List AuthUidRule) → Fresh [] rules → Extends out (out ++ rules)
append-Extends [] rules h = h
append-Extends (x ∷ out) rules h = (refl, append-Extends out rules h)

abbrev pub RulesLoaded : List AuthUidRule → Loaded (List AuthUidRule) → Type 0
RulesLoaded out (rules, none) = Extends out rules
RulesLoaded out (rules, some e) = rules ≡ out

rules_of-RulesLoaded :
    (out : List AuthUidRule) (users : List Bytes) (o : Option AuthOps)
    → RulesLoaded out (rules_of out users o)
rules_of-RulesLoaded out users none = refl
rules_of-RulesLoaded out users (some allowed) =
    append-Extends out _ (parse_users-Fresh allowed users)

-- `LoadAuthUIDRules` leaves the rules alone if it returns an error, and appends to them otherwise:
-- each new rule has a name of its own, neither empty nor a lone `@`, and allows something.
pub load_auth_uid_rules-RulesLoaded :
    (rec : IniRecord) (out : List AuthUidRule) → RulesLoaded out (load_auth_uid_rules rec out)
unfolding load_auth_uid_rules
load_auth_uid_rules-RulesLoaded rec out =
    rules_of-RulesLoaded out (split rec.value b',') (parse_ops ops_none (split rec.key b','))
