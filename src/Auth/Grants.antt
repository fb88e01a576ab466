-- ===== src/Auth/Grants.antt =====
-- What the rules of auth.go grant, with no loops and no bit masks.
use ipp_usb.Base.{
  ◌≡◌, ◌≢◌, ◌⊎◌, ◌↔◌, inl, inr, refl, ap, sym, ◌∙◌, Bool, true, false, ◌&&◌, ◌||◌, if◌then◌else◌,
  Bool-cases, List, [], ◌∷◌, Bytes, codes, bytes_eq, bytes_eq_iff, bytes_eq_refl, has_prefix, arith,
}
use ipp_usb.Auth.Rules.{
  AuthOps, ops_none, ops_or, ops_meet, AuthUidRule, is_group, is_user, strip_at, match_user,
  match_group, AuthUidInfo, or_matches, apply_rules, auth_uid, requires_uid,
}

ops_meet-or : (op a b : AuthOps) → ops_meet op (ops_or a b) ≡ (ops_meet op a || ops_meet op b)
ops_meet-or op a b = ground arith

ops_meet_none : (op : AuthOps) → ops_meet op ops_none ≡ false
ops_meet_none op = ground arith

-- The rule's name is the wildcard, or one of the names.
abbrev pub Names : Bytes → List Bytes → Type 0
Names rule_name [] = ⊥
Names rule_name (name ∷ names) =
    ((rule_name ≡ codes "*") ⊎ (rule_name ≡ name)) ⊎ Names rule_name names

-- A user rule is about the client's user names, and a group rule about the names of its groups.
abbrev pub Covers : AuthUidRule → AuthUidInfo → Type 0
Covers rule info =
    ((is_group rule ≡ false) × Names rule.name info.usr_names)
    ⊎ ((is_group rule ≡ true) × Names (strip_at rule.name) info.grp_names)

-- Some rule is about the client, and allows the operation.
abbrev pub Granted : AuthOps → AuthUidInfo → List AuthUidRule → Type 0
Granted op info [] = ⊥
Granted op info (rule ∷ rules) =
    (Covers rule info × (ops_meet op rule.allowed ≡ true)) ⊎ Granted op info rules

-- The same as tests.
abbrev named : Bytes → List Bytes → Bool
named rule_name [] = false
named rule_name (name ∷ names) =
    (bytes_eq rule_name (codes "*") || bytes_eq rule_name name) || named rule_name names

abbrev covers : AuthUidRule → AuthUidInfo → Bool
covers rule info =
    if is_group rule
    then named (strip_at rule.name) info.grp_names
    else named rule.name info.usr_names

abbrev grants : AuthOps → AuthUidInfo → List AuthUidRule → Bool
grants op info [] = false
grants op info (rule ∷ rules) =
    (covers rule info && ops_meet op rule.allowed) || grants op info rules

named_iff : (n : Bytes) (names : List Bytes) → (named n names ≡ true) ↔ Names n names
named_iff n [] = (λ h. absurd (cc h), λ h. absurd h)
named_iff n (name ∷ names) = (
  λ h. ground (arith, named_iff n names, bytes_eq_iff n (codes "*"), bytes_eq_iff n name),
  λ h. ground (arith, named_iff n names, bytes_eq_iff n (codes "*"), bytes_eq_iff n name),
)

covers_iff :
    (rule : AuthUidRule) (info : AuthUidInfo) → (covers rule info ≡ true) ↔ Covers rule info
covers_iff rule info =
    let groups = named_iff (strip_at rule.name) info.grp_names in
    let users = named_iff rule.name info.usr_names in by_kind (is_group rule) refl groups users
  where
    by_kind :
        (b : Bool)
        → is_group rule ≡ b
        → (named (strip_at rule.name) info.grp_names ≡ true)
          ↔ Names (strip_at rule.name) info.grp_names
        → (named rule.name info.usr_names ≡ true) ↔ Names rule.name info.usr_names
        → (covers rule info ≡ true) ↔ Covers rule info
    by_kind true g groups users = rw g (
      λ h. inr (refl, groups.0 h),
      λ h. elim h [ inl (e, _) ↦ absurd (cc e) | inr (_, n) ↦ groups.1 n ],
    )
    by_kind false g groups users = rw g (
      λ h. inl (refl, users.0 h),
      λ h. elim h [ inl (_, n) ↦ users.1 n | inr (e, _) ↦ absurd (cc e) ],
    )

join_iff :
    {P Q : Type 0} (a m g : Bool)
    → (a ≡ true) ↔ P
    → (g ≡ true) ↔ Q
    → (((a && m) || g) ≡ true) ↔ ((P × (m ≡ true)) ⊎ Q)
join_iff true true g p q = (λ _. inl (p.0 refl, refl), λ _. refl)
join_iff true false g p q =
    (λ h. inr (q.0 h), λ h. elim h [ inl (_, e) ↦ absurd (cc e) | inr k ↦ q.1 k ])
join_iff false m g p q =
    (λ h. inr (q.0 h), λ h. elim h [ inl (k, _) ↦ absurd (cc (p.1 k)) | inr k ↦ q.1 k ])

grants_iff :
    (op : AuthOps) (info : AuthUidInfo) (rules : List AuthUidRule)
    → (grants op info rules ≡ true) ↔ Granted op info rules
grants_iff op info [] = (λ h. absurd (cc h), λ h. absurd h)
grants_iff op info (rule ∷ rules) =
    join_iff (covers rule info) _ (grants op info rules) (covers_iff rule info)
      (grants_iff op info rules)

regroup : (a b c m : Bool) → ((a || (b && m)) || (c && m)) ≡ (a || ((b || c) && m))
regroup true b c m = refl
regroup false true true true = refl
regroup false true true false = refl
regroup false true false true = refl
regroup false true false false = refl
regroup false false c m = refl

ops_meet-if :
    (op w : AuthOps) (b : Bool) → ops_meet op (if b then w else ops_none) ≡ (b && ops_meet op w)
ops_meet-if op w true = refl
ops_meet-if op w false = ops_meet_none op

module _ (op : AuthOps) (rule : AuthUidRule) (n : Bytes) (match : Bytes → AuthOps) where
  or_matches-named :
      ((name : Bytes)
        → match name
          ≡ (if bytes_eq n (codes "*") || bytes_eq n name then rule.allowed else ops_none))
      → (names : List Bytes) (acc : AuthOps)
      → ops_meet op (or_matches match names acc)
        ≡ (ops_meet op acc || (named n names && ops_meet op rule.allowed))
  unfolding or_matches
  or_matches-named h [] acc = ground arith
  or_matches-named h (name ∷ names) acc =
      or_matches-named h names (ops_or acc (match name))
      ∙ ap (λ x. x || (named n names && ops_meet op rule.allowed))
          (ops_meet-or op acc (match name)
            ∙ ap (λ x. ops_meet op acc || x)
                (ap (ops_meet op) (h name) ∙ ops_meet-if op rule.allowed _))
      ∙ regroup (ops_meet op acc) _ (named n names) (ops_meet op rule.allowed)

rule-covers :
    (op : AuthOps) (rule : AuthUidRule) (info : AuthUidInfo) (acc : AuthOps)
    → ops_meet op (
        if is_user rule
        then or_matches (match_user rule) info.usr_names acc
        else or_matches (match_group rule) info.grp_names acc)
      ≡ (ops_meet op acc || (covers rule info && ops_meet op rule.allowed))
unfolding match_user match_group
rule-covers op rule info acc = elim (Bool-cases (is_group rule)) [
  | inl g ↦ rw g (
      or_matches-named op rule (strip_at rule.name) (match_group rule) (λ name. rw (g, match_group))
        info.grp_names acc)
  | inr g ↦ rw g (
      or_matches-named op rule rule.name (match_user rule) (λ name. rw (g, match_user))
        info.usr_names acc)
]

or_assoc : (a b c : Bool) → ((a || b) || c) ≡ (a || (b || c))
or_assoc true b c = refl
or_assoc false b c = refl

apply_rules-grants :
    (op : AuthOps) (info : AuthUidInfo) (rules : List AuthUidRule) (acc : AuthOps)
    → ops_meet op (apply_rules rules info acc) ≡ (ops_meet op acc || grants op info rules)
unfolding apply_rules
apply_rules-grants op info [] acc = ground arith
apply_rules-grants op info (rule ∷ rules) acc =
    apply_rules-grants op info rules _
    ∙ ap (λ x. x || grants op info rules) (rule-covers op rule info acc)
    ∙ or_assoc (ops_meet op acc) _ (grants op info rules)

-- Where any rules are configured, AuthUID allows one of the operations asked for exactly if some
-- rule is about the client, by a user name or a group name or as a wildcard, and allows one of them.
pub auth_uid_iff :
    (op : AuthOps) (info : AuthUidInfo) (rules : List AuthUidRule)
    → rules ≢ []
    → (ops_meet op (auth_uid rules info) ≡ true) ↔ Granted op info rules
unfolding auth_uid
auth_uid_iff op info [] h = absurd (h refl)
auth_uid_iff op info (rule ∷ rules) h =
    rw (apply_rules-grants op info (rule ∷ rules) ops_none, ops_meet_none op)
      (grants_iff op info (rule ∷ rules))

-- Rules for any user or any group cover every client alike, if it has names at all.
named_star : (names : List Bytes) → names ≢ [] → named (codes "*") names ≡ true
named_star [] h = absurd (h refl)
named_star (name ∷ names) h = rw (bytes_eq_refl (codes "*"))

-- The client has a user name and a group name.
abbrev pub HasNames : AuthUidInfo → Type 0
HasNames info = (info.usr_names ≢ []) × (info.grp_names ≢ [])

covers_wildcard :
    (rule : AuthUidRule) (info : AuthUidInfo)
    → HasNames info
    → (rule.name ≡ codes "*") ⊎ (rule.name ≡ codes "@*")
    → covers rule info ≡ true
covers_wildcard rule info h (inl e) = rw e (unfold has_prefix in named_star info.usr_names h.0)
covers_wildcard rule info h (inr e) = rw e (unfold has_prefix in named_star info.grp_names h.1)

requires_uid-cons :
    (rule : AuthUidRule) (rules : List AuthUidRule)
    → requires_uid (rule ∷ rules) ≡ false
    → ((rule.name ≡ codes "*") ⊎ (rule.name ≡ codes "@*")) × (requires_uid rules ≡ false)
unfolding requires_uid
requires_uid-cons rule rules h =
    ground (arith, bytes_eq_iff rule.name (codes "*"), bytes_eq_iff rule.name (codes "@*"))

grants-same :
    (op : AuthOps) (info info' : AuthUidInfo) (rules : List AuthUidRule)
    → requires_uid rules ≡ false
    → HasNames info
    → HasNames info'
    → grants op info rules ≡ grants op info' rules
grants-same op info info' [] r h k = refl
grants-same op info info' (rule ∷ rules) r h k =
    let (wild, later) = requires_uid-cons rule rules r in
    rw (covers_wildcard rule info h wild, covers_wildcard rule info' k wild)
      (ap (λ x. ops_meet op rule.allowed || x) (grants-same op info info' rules later h k))

-- Where the rules do not ask for a user ID, AuthUID allows the same operations to every client
-- that has names: it is safe not to look the client up.
pub requires_uid_same :
    (op : AuthOps) (info info' : AuthUidInfo) (rules : List AuthUidRule)
    → requires_uid rules ≡ false
    → HasNames info
    → HasNames info'
    → ops_meet op (auth_uid rules info) ≡ ops_meet op (auth_uid rules info')
unfolding auth_uid
requires_uid_same op info info' [] r h k = refl
requires_uid_same op info info' (rule ∷ rules) r h k =
    apply_rules-grants op info (rule ∷ rules) ops_none
    ∙ ap (λ x. ops_meet op ops_none || x) (grants-same op info info' (rule ∷ rules) r h k)
    ∙ sym (apply_rules-grants op info' (rule ∷ rules) ops_none)
