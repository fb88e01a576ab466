-- ===== src/Pnp/Tracking.antt =====
-- The tables of `PnPStart` and of status.go against the list of connected devices.
use ipp_usb.Base.{
  ℕ, ◌≡◌, refl, sym, subst, ap, ◌≢◌, Bool, true, false, not, ◌&&◌, ◌||◌, arith, if_cases,
  if◌then◌else◌, Option, none, some, List, [], ◌∷◌, All,
}
use ipp_usb.UsbCommon.{UsbAddr, same}
use ipp_usb.UsbCommon.Order.{IsSorted, same_iff}
use ipp_usb.UsbCommon.Difference.{member, without, diff-without}
use ipp_usb.Pnp.Tables.{find}
use ipp_usb.Pnp.Changes.{member-without, without-IsSorted, without_lacks, fresh_rest}
use ipp_usb.Pnp.Devices.{handle_devices_devices}
use ipp_usb.Pnp.Entries.{
  TrackedAt, TracksAll, absent, serving, retrying, Tracked, added_answer-TrackedAt,
  retried_answer-TrackedAt, remove-TrackedAt,
}
use ipp_usb.Pnp.{
  StatusOfDevice, Pnp, Round, add_all, start, handle_added, remove, handle_removed, retry,
  handle_retries, handle_devices, handle_descs, is_nil, update_ticker, Outcome, idle, waiting,
  round,
}

module _ {D : Type 0} (http_port : D → ℕ) where
  handle_added-TracksAll :
      (r : Round D) (added : List UsbAddr) (known : UsbAddr → Bool) (st : Pnp D)
      → TracksAll http_port known st
      → IsSorted added
      → All (λ a. known a ≡ false) added
      → TracksAll http_port (λ a. known a || member added a) (handle_added http_port r added st)
  unfolding handle_added
  handle_added-TracksAll r [] known st t s n a =
      let e : known a ≡ (known a || false) = ground arith in
      subst (λ k. TrackedAt http_port k st a) e (t a)
  handle_added-TracksAll r (addr ∷ added) known st t s n a =
      let e : ((known a || same addr a) || member added a) ≡ (known a || member (addr ∷ added) a) =
        ground arith in
      subst (λ k. TrackedAt http_port k (handle_added http_port r (addr ∷ added) st) a) e
        (handle_added-TracksAll r added (λ b. known b || same addr b) _
          (λ b.
            added_answer-TrackedAt http_port st addr (r.added_at addr) (r.added addr) b (known b)
              (t b) (λ h. subst (λ c. known c ≡ false) ((same_iff addr b).0 h) n.0))
          s.1 (fresh_rest known addr added s.0 n.1) a)

  handle_removed-TracksAll :
      (removed : List UsbAddr) (known : UsbAddr → Bool) (st : Pnp D)
      → TracksAll http_port known st
      → TracksAll http_port
          (λ a. known a && not (member removed a))
          (handle_removed http_port removed st)
  unfolding handle_removed
  handle_removed-TracksAll [] known st t a =
      let e : known a ≡ (known a && true) = ground arith in
      subst (λ k. TrackedAt http_port k st a) e (t a)
  handle_removed-TracksAll (addr ∷ removed) known st t a =
      let e : ((known a && not (same addr a)) && not (member removed a))
          ≡ (known a && not (member (addr ∷ removed) a)) =
        ground arith in
      subst (λ k. TrackedAt http_port k (handle_removed http_port (addr ∷ removed) st) a) e
        (handle_removed-TracksAll removed (λ b. known b && not (same addr b))
          (remove http_port addr st) (λ b. remove-TrackedAt http_port st addr b (known b) (t b)) a)

  retry-TracksAll :
      (r : Round D) (addr : UsbAddr) (known : UsbAddr → Bool) (st : Pnp D) (o : Option ℕ)
      → find addr st.retry_by_addr ≡ o
      → TracksAll http_port known st
      → TracksAll http_port known (retry http_port r addr st o)
  retry-TracksAll r addr known st none e t = t
  retry-TracksAll r addr known st (some tm) e t =
      if_cases (TracksAll http_port known) _ _ _ (λ _. t)
        (λ _ a.
          retried_answer-TrackedAt http_port st addr (r.retried_at addr) (r.retried addr) a
            (known a) (t a) (waits a))
    where
      waits : (a : UsbAddr) → same addr a ≡ true → find a st.retry_by_addr ≢ none
      waits a h k =
          absurd (ground (arith, e, k, ap (λ c. find c st.retry_by_addr) ((same_iff addr a).0 h)))

  handle_retries-TracksAll :
      (r : Round D) (entries : List (UsbAddr × ℕ)) (known : UsbAddr → Bool) (st : Pnp D)
      → TracksAll http_port known st
      → TracksAll http_port known (handle_retries http_port r entries st)
  unfolding handle_retries
  handle_retries-TracksAll r [] known st t = t
  handle_retries-TracksAll r ((addr, tm) ∷ entries) known st t =
      handle_retries-TracksAll r entries known _
        (retry-TracksAll r addr known st (find addr st.retry_by_addr) refl t)

  -- What the program knows of the devices that are connected.
  abbrev pub Tracks : Pnp D → Type 0
  Tracks st = TracksAll http_port (member st.devices) st

  handle_devices-Tracks :
      (r : Round D) (st : Pnp D) (newdevices : List UsbAddr)
      → IsSorted st.devices
      → IsSorted newdevices
      → Tracks st
      → TracksAll http_port (member newdevices) (handle_devices http_port r st newdevices)
  handle_devices-Tracks r st newdevices s n t = rw (diff-without st.devices newdevices s n) (λ a.
      subst
        (λ k. TrackedAt http_port k (handle_retries http_port r removed.retry_by_addr removed) a)
        (all_known a)
        (handle_retries-TracksAll r removed.retry_by_addr _ removed
          (handle_removed-TracksAll (without newdevices st.devices) _ added (
            handle_added-TracksAll r (without st.devices newdevices) (member st.devices)
              (record st { devices = newdevices }) t (without-IsSorted st.devices newdevices n)
              (without_lacks st.devices newdevices)))
          a))
    where
      added : Pnp D
      added =
          handle_added http_port r (without st.devices newdevices)
            (record st { devices = newdevices })

      removed : Pnp D
      removed = handle_removed http_port (without newdevices st.devices) added

      all_known :
          (a : UsbAddr)
          → ((member st.devices a || member (without st.devices newdevices) a)
              && not (member (without newdevices st.devices) a))
            ≡ member newdevices a
      all_known a =
          rw (member-without st.devices newdevices a, member-without newdevices st.devices a)
            (ground arith)

  -- The ticker runs just when some device waits for a retry.
  abbrev pub Ticking : Pnp D → Type 0
  Ticking st = st.ticker_running ≡ not (is_nil http_port st.retry_by_addr)

  -- What holds where the loop waits for an event; and an idle program serves no device.
  abbrev pub Settled : Pnp D → Type 0
  Settled st = IsSorted st.devices × Tracks st × Ticking st

  abbrev pub After : Outcome http_port → Type 0
  After (waiting st) = Settled st
  After (idle st) = (a : UsbAddr) → find a st.dev_by_addr ≡ none

  -- The list that `Add` makes of the connected devices is sorted, if they are known.
  abbrev pub Listed : Option (List UsbAddr) → Type 0
  Listed none = Unit
  Listed (some descs) = IsSorted (add_all [] descs)

  update_ticker-Settled :
      (st : Pnp D) → IsSorted st.devices → Tracks st → Settled (update_ticker http_port st)
  update_ticker-Settled st s t =
      if_cases Settled (st.ticker_running && is_nil http_port st.retry_by_addr)
        (record st { ticker_running = false })
        (if not st.ticker_running && not (is_nil http_port st.retry_by_addr)
          then record st { ticker_running = true }
          else st)
        (λ h. (s, t, ground (arith, h)))
        (λ h.
          if_cases Settled (not st.ticker_running && not (is_nil http_port st.retry_by_addr))
            (record st { ticker_running = true }) st (λ k. (s, t, ground (arith, k)))
            (λ k. (s, t, ground (arith, h, k))))

  nothing_served :
      {o : Option D} {tm : Option ℕ} {status : Option StatusOfDevice} (known : Bool)
      → Tracked http_port known o tm status
      → known ≡ false
      → o ≡ none
  nothing_served known absent e = refl
  nothing_served known (serving d) e = absurd (ground (arith, e))
  nothing_served known (retrying tm e') e = refl

  is_nil-member :
      (list : List UsbAddr) (a : UsbAddr) → is_nil http_port list ≡ true → member list a ≡ false
  is_nil-member [] a e = refl
  is_nil-member (x ∷ list) a e = absurd (ground (arith, e))

  handle_descs-Tracks :
      (r : Round D) (st : Pnp D) (descs : Option (List UsbAddr))
      → Listed descs
      → IsSorted st.devices
      → Tracks st
      → IsSorted (handle_descs http_port r st descs).devices
        × Tracks (handle_descs http_port r st descs)
  handle_descs-Tracks r st none l s t = (s, t)
  handle_descs-Tracks r st (some descs) l s t =
      let e = handle_devices_devices http_port r st (add_all [] descs) in
      (
        subst IsSorted (sym e) l,
        subst
            (λ ds.
              TracksAll http_port (member ds) (handle_devices http_port r st (add_all [] descs)))
            (sym e) (handle_devices-Tracks r st (add_all [] descs) s l t),
      )

  round-After :
      (exit_when_idle : Bool) (r : Round D) (st : Pnp D)
      → Listed r.descs
      → IsSorted st.devices
      → Tracks st
      → After (round http_port exit_when_idle r st)
  unfolding round
  round-After exit_when_idle r st l s t =
      let tracked = handle_descs-Tracks r st r.descs l s t in
      if_cases After _ (idle (handle_descs http_port r st r.descs)) (waiting _)
        (λ e a. nothing_served _ (tracked.1 a) (is_nil-member _ a (ground (arith, e))))
        (λ _. update_ticker-Settled _ tracked.0 tracked.1)

  -- The states in which the loop waits for an event, after any rounds.
  pub data Reach : Pnp D → Type 0 where
    first : Reach start
    next :
        (exit_when_idle : Bool) (r : Round D) (st after : Pnp D)
        → Reach st
        → Listed r.descs
        → round http_port exit_when_idle r st ≡ waiting after
        → Reach after

  abbrev state_of : Outcome http_port → Pnp D
  state_of (idle st) = st
  state_of (waiting st) = st

  Reach-Tracks : (st : Pnp D) → Reach st → IsSorted st.devices × Tracks st
  unfolding find
  Reach-Tracks st first = (tt, λ a. absent)
  Reach-Tracks st (next exit_when_idle r before _ reach l e) =
      let known = Reach-Tracks before reach in
      let settled = subst After e (round-After exit_when_idle r before l known.0 known.1) in
      (settled.0, settled.1)

  -- After any rounds of the loop, and whatever `NewDevice` answered in them, if the lists that `Add`
  -- makes were sorted: each connected device either is served, and its status is its port and no
  -- error, or it waits for a retry, and its status is an error; no other address has an entry in
  -- any table. After one more round, it is so again, and the ticker runs just if a device waits,
  -- or else the program exits and serves no device.
  pub Reach-After :
      (st : Pnp D) (exit_when_idle : Bool) (r : Round D)
      → Reach st
      → Listed r.descs
      → Tracks st × After (round http_port exit_when_idle r st)
  Reach-After st exit_when_idle r reach l =
      let before = Reach-Tracks st reach in
      (before.1, round-After exit_when_idle r st l before.0 before.1)
