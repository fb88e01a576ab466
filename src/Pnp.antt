-- ===== src/Pnp.antt =====
-- pnp.go and the table of status.go: which devices are served, and which wait for another try. What
-- `NewDevice` answers and the time of each answer are arguments, a set of them for each round of the
-- loop; times are in nanoseconds. Logging, signals and the control socket are left out; closing a
-- device is an entry of a list.
-- Children: Pnp/Tables (maps of addresses), Pnp/Changes (added and removed addresses), Pnp/Devices
-- (the list of devices), Pnp/Entries (one address through each handler) and Pnp/Tracking (what the
-- tables hold after any rounds).
pub mod Tables
mod Changes
mod Devices
pub mod Entries
pub mod Tracking
use ipp_usb.Base.{
  ℕ, ◌+◌, ◌*◌, Bool, true, false, not, ◌&&◌, leb, ltb, if◌then◌else◌, Option, none, some, List, [],
  ◌∷◌, ◌++◌, map,
}
use ipp_usb.UsbCommon.{UsbAddr, add, diff}
use ipp_usb.Pnp.Tables.{find, insert, delete}

-- ErrBlackListed, ErrUnusable, or another error.
pub data InitError : Type 0 where
  blacklisted unusable other : InitError

abbrev pub second : ℕ
second = 1000000000

-- `pnpRetryTime`: after a million hours, or `DevInitRetryInterval`.
unfoldable pub pnp_retry_time : InitError → ℕ → ℕ
pnp_retry_time blacklisted now = now + 1000000 * (3600 * second)
pnp_retry_time unusable now = now + 1000000 * (3600 * second)
pnp_retry_time other now = now + 2 * second

-- `pnpRetryExpired`
abbrev pub pnp_retry_expired : ℕ → ℕ → Bool
pnp_retry_expired tm now = not (ltb now tm)

-- What `NewDevice` returns.
pub data NewDevice (D : Type 0) : Type 0 where
  device : D → NewDevice D
  failed : InitError → NewDevice D

pub record StatusOfDevice : Type 0 where
  pub init : Option InitError
  pub http_port : ℕ

-- The variables of `PnPStart`, the status table, and the devices that were closed.
pub record Pnp (D : Type 0) : Type 0 where
  pub devices : List UsbAddr
  pub dev_by_addr : List (UsbAddr × D)
  pub retry_by_addr : List (UsbAddr × ℕ)
  pub status_table : List (UsbAddr × StatusOfDevice)
  pub ticker_running : Bool
  pub closed : List D

-- What a round is given: the addresses of the devices that are connected, or none if they cannot be
-- told; for an added address, what `NewDevice` answers and when; for one that waits, the time at
-- which that is looked at, what `NewDevice` answers and when.
pub record Round (D : Type 0) : Type 0 where
  pub descs : Option (List UsbAddr)
  pub added : UsbAddr → NewDevice D
  pub added_at : UsbAddr → ℕ
  pub looked_at : UsbAddr → ℕ
  pub retried : UsbAddr → NewDevice D
  pub retried_at : UsbAddr → ℕ

-- The list of the addresses of `devDescs`.
unfoldable pub add_all : List UsbAddr → List UsbAddr → List UsbAddr
unfolding add
add_all list [] = list
add_all list (addr ∷ descs) = add_all (add list addr) descs

abbrev pub start : {D : Type 0} → Pnp D
start = record {
  devices = [];
  dev_by_addr = [];
  retry_by_addr = [];
  status_table = [];
  ticker_running = true;
  closed = [];
}

module _ {D : Type 0} (http_port : D → ℕ) where
  abbrev pub status_of : NewDevice D → StatusOfDevice
  status_of (device d) = record { init = none; http_port = http_port d }
  status_of (failed e) = record { init = some e; http_port = 0 }

  -- `StatusSet`
  unfoldable pub status_set : UsbAddr → NewDevice D → Pnp D → Pnp D
  unfolding insert
  status_set addr answer st = record st {
    status_table = insert addr (status_of answer) st.status_table;
  }

  -- `StatusDel`
  unfoldable pub status_del : UsbAddr → Pnp D → Pnp D
  unfolding delete
  status_del addr st = record st { status_table = delete addr st.status_table }

  abbrev pub wait_for_retry : UsbAddr → InitError → ℕ → Pnp D → Pnp D
  wait_for_retry addr e now st = record st {
    retry_by_addr = insert addr (pnp_retry_time e now) st.retry_by_addr;
  }

  abbrev pub serve : UsbAddr → D → Pnp D → Pnp D
  serve addr d st = record st { dev_by_addr = insert addr d st.dev_by_addr }

  abbrev pub not_waiting : UsbAddr → Pnp D → Pnp D
  not_waiting addr st = record st { retry_by_addr = delete addr st.retry_by_addr }

  abbrev pub added_answer : UsbAddr → ℕ → Pnp D → NewDevice D → Pnp D
  added_answer addr now st (device d) = serve addr d st
  added_answer addr now st (failed e) = wait_for_retry addr e now st

  -- The loop over the added devices.
  unfoldable pub handle_added : Round D → List UsbAddr → Pnp D → Pnp D
  unfolding status_set pnp_retry_time insert
  handle_added r [] st = st
  handle_added r (addr ∷ added) st =
      let answer = r.added addr in
      handle_added r added (added_answer addr (r.added_at addr) (status_set addr answer st) answer)

  abbrev pub close_device : UsbAddr → Pnp D → Option D → Pnp D
  close_device addr st none = st
  close_device addr st (some d) = record st {
    dev_by_addr = delete addr st.dev_by_addr;
    closed = d ∷ st.closed;
  }

  abbrev pub remove : UsbAddr → Pnp D → Pnp D
  remove addr st =
      close_device addr (status_del addr (not_waiting addr st)) (find addr st.dev_by_addr)

  -- The loop over the removed devices.
  unfoldable pub handle_removed : List UsbAddr → Pnp D → Pnp D
  unfolding status_del find delete
  handle_removed [] st = st
  handle_removed (addr ∷ removed) st = handle_removed removed (remove addr st)

  abbrev pub retried_answer : UsbAddr → ℕ → Pnp D → NewDevice D → Pnp D
  retried_answer addr now st (device d) = not_waiting addr (serve addr d st)
  retried_answer addr now st (failed e) = wait_for_retry addr e now st

  abbrev pub retry : Round D → UsbAddr → Pnp D → Option ℕ → Pnp D
  retry r addr st none = st
  retry r addr st (some tm) =
      if not (pnp_retry_expired tm (r.looked_at addr))
      then st
      else let answer = r.retried addr in
        retried_answer addr (r.retried_at addr) (status_set addr answer st) answer

  -- The loop over the devices that wait, by their addresses when it starts. As in Go, an entry has
  -- the value that it has when its turn comes.
  unfoldable pub handle_retries : Round D → List (UsbAddr × ℕ) → Pnp D → Pnp D
  unfolding status_set pnp_retry_time find insert delete
  handle_retries r [] st = st
  handle_retries r ((addr, tm) ∷ entries) st =
      handle_retries r entries (retry r addr st (find addr st.retry_by_addr))

  abbrev pub handle_devices : Round D → Pnp D → List UsbAddr → Pnp D
  handle_devices r st newdevices =
      let changes = diff st.devices newdevices in
      let st' = handle_added r changes.0 (record st { devices = newdevices }) in
      let st'' = handle_removed changes.1 st' in handle_retries r st''.retry_by_addr st''

  abbrev pub handle_descs : Round D → Pnp D → Option (List UsbAddr) → Pnp D
  handle_descs r st none = st
  handle_descs r st (some descs) = handle_devices r st (add_all [] descs)

  abbrev pub is_nil {ℓ} : {A : Type ℓ} → List A → Bool
  is_nil [] = true
  is_nil (x ∷ items) = false

  -- The switch on `tickerRunning`.
  abbrev pub update_ticker : Pnp D → Pnp D
  update_ticker st =
      if st.ticker_running && is_nil st.retry_by_addr
      then record st { ticker_running = false }
      else if not st.ticker_running && not (is_nil st.retry_by_addr)
      then record st { ticker_running = true }
      else st

  -- How a round ends: with the exit of an idle program, or in the select.
  pub data Outcome : Type 0 where
    idle waiting : Pnp D → Outcome

  -- One round of the loop of `PnPStart`.
  unfoldable pub round : Bool → Round D → Pnp D → Outcome
  unfolding add_all diff handle_added handle_removed handle_retries
  round exit_when_idle r st =
      let st' = handle_descs r st r.descs in
      if exit_when_idle && is_nil st'.devices then idle st' else waiting (update_ticker st')

  -- The end of `PnPStart` after a signal: every device is closed.
  unfoldable pub terminate : Pnp D → Pnp D
  terminate st = record st { closed = map (λ (e : UsbAddr × D). e.1) st.dev_by_addr ++ st.closed }
