-- ===== src/Auth/Lookup.antt =====
-- `AuthUIDinfoLookup` of auth.go: the user and group names of a user ID, cached for two seconds.
-- Times are nanoseconds. `none` as a user ID is the -1 of the source: the client is not known.
use ipp_usb.Base.{
  ℕ, ◌+◌, ◌*◌, ◌<◌, ◌≡◌, ◌∙◌, Bool, false, ltb, ltb_iff, ◌==◌, if◌then◌else◌, Option, none, some,
  List, [], ◌∷◌, ◌++◌, Bytes, codes, itoa, arith,
}
use ipp_usb.Auth.Rules.{AuthUidInfo}

-- What os/user answers; `none` is an error.
pub record User : Type 0 where
  pub username : Bytes
  pub gid : Bytes
  pub group_ids : Option (List Bytes)

pub record Users : Type 0 where
  pub lookup_id : Bytes → Option User
  pub lookup_group_id : Bytes → Option Bytes

-- `authUIDinfoCache`
abbrev pub Cache : Type 0
Cache = List (ℕ × AuthUidInfo)

abbrev pub cached : Cache → ℕ → Option AuthUidInfo
cached [] uid = none
cached ((u, info) ∷ cache) uid = if u == uid then some info else cached cache uid

abbrev pub store : Cache → ℕ → AuthUidInfo → Cache
store cache uid info = (uid, info) ∷ cache

abbrev pub cache_ttl : ℕ
cache_ttl = 2 * 1000000000

-- The loop over the group IDs: the names, or an error.
pub group_names : Users → List Bytes → List Bytes → Option (List Bytes)
group_names users names [] = some names
group_names users names (gid ∷ gids) = elim (users.lookup_group_id gid) [
  | none ↦ none
  | some name ↦ group_names users (names ++ name ∷ []) gids
]

abbrev pub resolve_groups : Users → Bytes → User → Option (List Bytes) → ℕ → Option AuthUidInfo
resolve_groups users id usr none expires = none
resolve_groups users id usr (some ids) expires =
    let gids = usr.gid ∷ ids in
    elim (group_names users gids gids) [
      | none ↦ none
      | some names ↦
          some (record { usr_names = id ∷ usr.username ∷ []; grp_names = names; expires = expires })
    ]

unfoldable pub resolve : Users → ℕ → ℕ → Option AuthUidInfo
unfolding group_names itoa
resolve users uid expires = elim (users.lookup_id (itoa uid)) [
  | none ↦ none
  | some usr ↦ resolve_groups users (itoa uid) usr usr.group_ids expires
]

abbrev pub is_fresh : ℕ → Option AuthUidInfo → Bool
is_fresh now none = false
is_fresh now (some info) = ltb now info.expires

abbrev updated : Cache → ℕ → Option AuthUidInfo → Cache × Option AuthUidInfo
updated cache uid none = (cache, none)
updated cache uid (some info) = (store cache uid info, some info)

-- The lookup at time `now`; the names are resolved at time `later`.
unfoldable pub lookup : Users → Cache → ℕ → ℕ → Option ℕ → Cache × Option AuthUidInfo
unfolding resolve
lookup users cache now later none = (
  cache,
  some (record {
    usr_names = codes "*" ∷ [];
    grp_names = codes "*" ∷ [];
    expires = now + cache_ttl;
  }),
)
lookup users cache now later (some uid) =
    let found = cached cache uid in
    if is_fresh now found
    then (cache, found)
    else updated cache uid (resolve users uid (later + cache_ttl))

-- What a lookup returns.
abbrev pub Answers : Cache → ℕ → Cache × Option AuthUidInfo → Type 0
Answers cache uid (cache', none) = cache' ≡ cache
Answers cache uid (cache', some info) = cached cache' uid ≡ some info

lookup-Answers :
    (users : Users) (cache : Cache) (now later uid : ℕ)
    → Answers cache uid (lookup users cache now later (some uid))
unfolding lookup
lookup-Answers users cache now later uid = ground arith

returned-cached :
    (cache : Cache) (uid : ℕ) (info : AuthUidInfo) (r : Cache × Option AuthUidInfo)
    → Answers cache uid r
    → r.1 ≡ some info
    → cached r.0 uid ≡ some info
returned-cached cache uid info (cache', none) h e = cc
returned-cached cache uid info (cache', some i) h e = h ∙ e

lookup-cached :
    (users : Users) (cache : Cache) (now later uid : ℕ) (info : AuthUidInfo)
    → cached cache uid ≡ some info
    → now < info.expires
    → lookup users cache now later (some uid) ≡ (cache, some info)
unfolding lookup
lookup-cached users cache now later uid info h fresh = rw (h, (ltb_iff now info.expires).1 fresh)

-- Until its names expire, a user ID that was looked up is answered from the cache: the same names,
-- whatever the user database says by then, and the cache stays as it is.
pub lookup_again :
    (users users' : Users) (cache : Cache) (now later now' later' uid : ℕ) (info : AuthUidInfo)
    → (lookup users cache now later (some uid)).1 ≡ some info
    → now' < info.expires
    → lookup users' (lookup users cache now later (some uid)).0 now' later' (some uid)
      ≡ ((lookup users cache now later (some uid)).0, some info)
lookup_again users users' cache now later now' later' uid info h fresh =
    lookup-cached users' _ now' later' uid info
      (returned-cached cache uid info _ (lookup-Answers users cache now later uid) h) fresh
