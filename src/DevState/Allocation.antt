-- ===== src/DevState/Allocation.antt =====
-- The port that `HTTPListen` of devstate.go allocates.
use ipp_usb.Base.{
  ℕ, zero, suc, ◌+◌, ◌≤◌, ◌<◌, ◌≡◌, ◌⊎◌, inl, inr, refl, Bool, true, false, if_cases, Option, none,
  some, arith,
}
use ipp_usb.Conf.{Configuration}
use ipp_usb.DevState.{
  DevState, Ports, Listened, first_port, range_size, is_free, second_pass, first_pass, keeps,
  http_listen,
}

-- The first port of `n` ports from `port` on that is chosen, before any port `x` that is.
abbrev FirstPort : (ℕ → Bool) → ℕ → ℕ → Option ℕ → Type 0
FirstPort chosen n port none = Unit
FirstPort chosen n port (some p) = (port ≤ p) × (p < port + n) × (chosen p ≡ true)

FirstPort-later :
    (chosen : ℕ → Bool) (n port : ℕ) (o : Option ℕ)
    → FirstPort chosen n (suc port) o
    → FirstPort chosen (suc n) port o
FirstPort-later chosen n port none h = tt
FirstPort-later chosen n port (some p) (a, b, c) = (omega arith, omega arith, c)

first_port-FirstPort :
    (chosen : ℕ → Bool) (n port : ℕ) → FirstPort chosen n port (first_port chosen n port)
unfolding first_port
first_port-FirstPort chosen zero port = tt
first_port-FirstPort chosen (suc n) port =
    if_cases (FirstPort chosen (suc n) port) (chosen port) _ _ (λ e. (omega arith, omega arith, e))
      (λ _. FirstPort-later chosen n port _ (first_port-FirstPort chosen n (suc port)))

-- A port that is not behind `x`.
abbrev pub UpTo : ℕ → Option ℕ → Type 0
UpTo x none = ⊥
UpTo x (some p) = p ≤ x

first_port-UpTo :
    (chosen : ℕ → Bool) (n port x : ℕ)
    → port ≤ x
    → x < port + n
    → chosen x ≡ true
    → UpTo x (first_port chosen n port)
unfolding first_port
first_port-UpTo chosen zero port x a b h = absurd (omega arith)
first_port-UpTo chosen (suc n) port x a b h =
    if_cases (UpTo x) (chosen port) _ _ (λ _. a)
      (λ e. first_port-UpTo chosen n (suc port) x (behind e) (omega arith) h)
  where
    behind : chosen port ≡ false → suc port ≤ x
    behind e = grind arith

-- The listener's port is within the range and can be listened on. Either it is the port of the
-- state, which is as it was and was not saved, or it is saved as the state's port, with nothing else
-- changed. Without a listener the state is as it was.
abbrev pub Sound : (ℕ → Bool) → Configuration → DevState → Listened → Type 0
Sound listens conf state l = Result l.port
  where
    Result : Option ℕ → Type 0
    Result none = (l.state ≡ state) × (l.saved ≡ false)
    Result (some p) =
        (conf.http_min_port ≤ p)
        × (p ≤ conf.http_max_port)
        × (listens p ≡ true)
        × (((p ≡ state.http_port) × (l.state ≡ state) × (l.saved ≡ false))
            ⊎ ((l.state ≡ record state { http_port = p }) × (l.saved ≡ true)))

abbrev pub IsSome : Option ℕ → Type 0
IsSome none = ⊥
IsSome (some p) = Unit

module _ (listens : ℕ → Bool) (conf : Configuration) (used : Ports) (state : DevState) where
  is_free-listens : (p : ℕ) → is_free listens conf used p ≡ true → listens p ≡ true
  unfolding is_free
  is_free-listens p h = ground arith

  second_pass-Sound :
      (o : Option ℕ)
      → FirstPort listens (range_size listens conf used) conf.http_min_port o
      → Sound listens conf state (second_pass listens conf used state o)
  second_pass-Sound none h = (refl, refl)
  second_pass-Sound (some p) (a, b, c) = (a, omega arith, c, inr (refl, refl))

  first_pass-Sound :
      (o : Option ℕ)
      → FirstPort (is_free listens conf used) (range_size listens conf used) conf.http_min_port o
      → Sound listens conf state (first_pass listens conf used state o)
  first_pass-Sound none h = second_pass-Sound _ (first_port-FirstPort listens _ _)
  first_pass-Sound (some p) (a, b, c) = (a, omega arith, is_free-listens p c, inr (refl, refl))

  kept :
      keeps listens conf used state ≡ true
      → (conf.http_min_port ≤ state.http_port)
        × (state.http_port ≤ conf.http_max_port)
        × (listens state.http_port ≡ true)
  kept h = (ground arith, ground arith, ground arith)

  -- The state's own port, or a free one that is not behind `x`.
  abbrev pub Preferred : ℕ → Option ℕ → Type 0
  Preferred x none = ⊥
  Preferred x (some p) = (p ≡ state.http_port) ⊎ ((is_free listens conf used p ≡ true) × (p ≤ x))

  -- A listener of `HTTPListen` has a port of the configured range on which one can listen. It is
  -- the state's own port, and nothing is saved, or the state is saved with that port and no other
  -- change. Where `HTTPListen` returns no listener, the state is as it was.
  pub http_listen-Sound : Sound listens conf state (http_listen listens conf used state)
  unfolding http_listen
  http_listen-Sound =
      if_cases (Sound listens conf state) (keeps listens conf used state) _ _
        (λ h. let (a, b, c) = kept h in (a, b, c, inl (refl, refl, refl)))
        (λ _. first_pass-Sound _ (first_port-FirstPort (is_free listens conf used) _ _))

  first_pass-Free :
      (x : ℕ) (o : Option ℕ)
      → FirstPort (is_free listens conf used) (range_size listens conf used) conf.http_min_port o
      → UpTo x o
      → Preferred x (first_pass listens conf used state o).port
  first_pass-Free x none h u = absurd u
  first_pass-Free x (some p) (a, b, c) u = inr (c, u)

  -- If a port of the range is used by no device and can be listened on, `HTTPListen` returns a
  -- listener: on the state's own port, or on such a port that is not greater.
  pub http_listen-Preferred :
      (x : ℕ)
      → conf.http_min_port ≤ x
      → x ≤ conf.http_max_port
      → is_free listens conf used x ≡ true
      → Preferred x (http_listen listens conf used state).port
  unfolding http_listen
  http_listen-Preferred x a b h =
      if_cases (λ (l : Listened). Preferred x l.port) (keeps listens conf used state) _ _
        (λ _. inl refl)
        (λ _.
          first_pass-Free x _ (first_port-FirstPort (is_free listens conf used) _ _)
            (first_port-UpTo (is_free listens conf used) _ _ x a (omega arith) h))

  second_pass-IsSome :
      (x : ℕ) (o : Option ℕ) → UpTo x o → IsSome (second_pass listens conf used state o).port
  second_pass-IsSome x none u = absurd u
  second_pass-IsSome x (some p) u = tt

  first_pass-IsSome :
      (x : ℕ) (o : Option ℕ)
      → UpTo x (first_port listens (range_size listens conf used) conf.http_min_port)
      → IsSome (first_pass listens conf used state o).port
  first_pass-IsSome x none u = second_pass-IsSome x _ u
  first_pass-IsSome x (some p) u = tt

  -- If a port of the range can be listened on, `HTTPListen` returns a listener, even if all such
  -- ports are used by devices.
  pub http_listen-IsSome :
      (x : ℕ)
      → conf.http_min_port ≤ x
      → x ≤ conf.http_max_port
      → listens x ≡ true
      → IsSome (http_listen listens conf used state).port
  unfolding http_listen
  http_listen-IsSome x a b h =
      if_cases (λ (l : Listened). IsSome l.port) (keeps listens conf used state) _ _ (λ _. tt)
        (λ _. first_pass-IsSome x _ (first_port-UpTo listens _ _ x a (omega arith) h))
