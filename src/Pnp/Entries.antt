-- ===== src/Pnp/Entries.antt =====
-- The entries of an address in the tables of `PnPStart` and of status.go, through each handler.
use ipp_usb.Base.{
  ℕ, ◌≡◌, refl, sym, ap, ◌∙◌, inl, inr, ◌≢◌, Bool, true, false, not, ◌&&◌, ◌||◌, arith, Bool-cases,
  if◌then◌else◌, Option, none, some, List,
}
use ipp_usb.UsbCommon.{UsbAddr, same}
use ipp_usb.UsbCommon.Order.{same_iff}
use ipp_usb.Pnp.Tables.{find, find-insert, find-delete}
use ipp_usb.Pnp.{
  InitError, pnp_retry_time, NewDevice, device, failed, StatusOfDevice, Pnp, status_of, status_set,
  status_del, not_waiting, added_answer, close_device, remove, retried_answer,
}

find_missing :
    {V : Type 0} (a b : UsbAddr) (m : List (UsbAddr × V))
    → find a m ≡ none
    → find b m ≡ (if same a b then none else find b m)
find_missing a b m e = elim (Bool-cases (same a b)) [
  | inl s ↦ rw s (ap (λ c. find c m) (sym ((same_iff a b).0 s)) ∙ e)
  | inr s ↦ rw s refl
]

module _ {D : Type 0} (http_port : D → ℕ) where
  -- The entries of an address in the three tables: none, if it is not known; those of a device that
  -- is served, with its port as its status; or those of one that waits for a retry, with an error.
  pub data Tracked : Bool → Option D → Option ℕ → Option StatusOfDevice → Type 0 where
    absent : Tracked false none none none
    serving :
        (d : D) → Tracked true (some d) none (some record { init = none; http_port = http_port d })
    retrying :
        (tm : ℕ) (e : InitError)
        → Tracked true none (some tm) (some record { init = some e; http_port = 0 })

  abbrev pub TrackedAt : Bool → Pnp D → UsbAddr → Type 0
  TrackedAt known st a =
      Tracked known (find a st.dev_by_addr) (find a st.retry_by_addr) (find a st.status_table)

  abbrev pub TracksAll : (UsbAddr → Bool) → Pnp D → Type 0
  TracksAll known st = (a : UsbAddr) → TrackedAt (known a) st a

  -- One entry as its device is added, with success or with an error, or is removed; `hit` tells if
  -- it is this device.
  served_entry :
      (known hit : Bool) (d : D) {o : Option D} {tm : Option ℕ} {status : Option StatusOfDevice}
      → Tracked known o tm status
      → (hit ≡ true → known ≡ false)
      → Tracked
          (known || hit)
          (if hit then some d else o)
          tm
          (if hit then some (status_of http_port (device d)) else status)
  served_entry known false d absent h = absent
  served_entry known true d absent h = serving d
  served_entry known false d (serving d') h = serving d'
  served_entry known true d (serving d') h = absurd (ground (arith, h refl))
  served_entry known false d (retrying tm e) h = retrying tm e
  served_entry known true d (retrying tm e) h = absurd (ground (arith, h refl))

  failed_entry :
      (known hit : Bool) (e : InitError) (now : ℕ) {o : Option D} {tm : Option ℕ}
      {status : Option StatusOfDevice}
      → Tracked known o tm status
      → (hit ≡ true → known ≡ false)
      → Tracked
          (known || hit)
          o
          (if hit then some now else tm)
          (if hit then some (status_of http_port (failed e)) else status)
  failed_entry known false e now absent h = absent
  failed_entry known true e now absent h = retrying now e
  failed_entry known false e now (serving d') h = serving d'
  failed_entry known true e now (serving d') h = absurd (ground (arith, h refl))
  failed_entry known false e now (retrying tm e') h = retrying tm e'
  failed_entry known true e now (retrying tm e') h = absurd (ground (arith, h refl))

  removed_entry :
      (known hit : Bool) {o : Option D} {tm : Option ℕ} {status : Option StatusOfDevice}
      → Tracked known o tm status
      → Tracked
          (known && not hit)
          (if hit then none else o)
          (if hit then none else tm)
          (if hit then none else status)
  removed_entry known false absent = absent
  removed_entry known true absent = absent
  removed_entry known false (serving d) = serving d
  removed_entry known true (serving d) = absent
  removed_entry known false (retrying tm e) = retrying tm e
  removed_entry known true (retrying tm e) = absent

  pub added_answer-TrackedAt :
      (st : Pnp D) (addr : UsbAddr) (now : ℕ) (answer : NewDevice D) (a : UsbAddr) (known : Bool)
      → TrackedAt known st a
      → (same addr a ≡ true → known ≡ false)
      → TrackedAt
          (known || same addr a)
          (added_answer http_port addr now (status_set http_port addr answer st) answer)
          a
  unfolding status_set
  added_answer-TrackedAt st addr now (device d) a known t h =
      rw
        (
          find-insert addr a d st.dev_by_addr,
          find-insert addr a (status_of http_port (device d)) st.status_table,
        )
        (served_entry known (same addr a) d t h)
  added_answer-TrackedAt st addr now (failed e) a known t h =
      rw
        (
          find-insert addr a (pnp_retry_time e now) st.retry_by_addr,
          find-insert addr a (status_of http_port (failed e)) st.status_table,
        )
        (failed_entry known (same addr a) e (pnp_retry_time e now) t h)

  -- A retry that ends well or not, at an address that waits for one.
  pub retried_answer-TrackedAt :
      (st : Pnp D) (addr : UsbAddr) (now : ℕ) (answer : NewDevice D) (a : UsbAddr) (known : Bool)
      → TrackedAt known st a
      → (same addr a ≡ true → find a st.retry_by_addr ≢ none)
      → TrackedAt known
          (retried_answer http_port addr now (status_set http_port addr answer st) answer)
          a
  unfolding status_set
  retried_answer-TrackedAt st addr now (device d) a known t h =
      rw
        (
          find-insert addr a d st.dev_by_addr,
          find-delete addr a st.retry_by_addr,
          find-insert addr a (status_of http_port (device d)) st.status_table,
        )
        (by_cases (same addr a) t h)
    where
      by_cases :
          (hit : Bool) {k : Bool} {o : Option D} {tm : Option ℕ} {status : Option StatusOfDevice}
          → Tracked k o tm status
          → (hit ≡ true → tm ≢ none)
          → Tracked k
              (if hit then some d else o)
              (if hit then none else tm)
              (if hit then some (status_of http_port (device d)) else status)
      by_cases false t h = t
      by_cases true absent h = absurd (h refl refl)
      by_cases true (serving d') h = absurd (h refl refl)
      by_cases true (retrying tm e) h = serving d
  retried_answer-TrackedAt st addr now (failed e) a known t h =
      rw
        (
          find-insert addr a (pnp_retry_time e now) st.retry_by_addr,
          find-insert addr a (status_of http_port (failed e)) st.status_table,
        )
        (by_cases (same addr a) t h)
    where
      by_cases :
          (hit : Bool) {k : Bool} {o : Option D} {tm : Option ℕ} {status : Option StatusOfDevice}
          → Tracked k o tm status
          → (hit ≡ true → tm ≢ none)
          → Tracked k o
              (if hit then some (pnp_retry_time e now) else tm)
              (if hit then some (status_of http_port (failed e)) else status)
      by_cases false t h = t
      by_cases true absent h = absurd (h refl refl)
      by_cases true (serving d') h = absurd (h refl refl)
      by_cases true (retrying tm e') h = retrying (pnp_retry_time e now) e

  pub remove-TrackedAt :
      (st : Pnp D) (addr a : UsbAddr) (known : Bool)
      → TrackedAt known st a
      → TrackedAt (known && not (same addr a)) (remove http_port addr st) a
  unfolding status_del
  remove-TrackedAt st addr a known t = by_device (find addr st.dev_by_addr) refl
    where
      by_device :
          (o : Option D)
          → find addr st.dev_by_addr ≡ o
          → TrackedAt
              (known && not (same addr a))
              (close_device http_port addr
                (status_del http_port addr (not_waiting http_port addr st))
                o)
              a
      by_device none e =
          rw
            (
              find_missing addr a st.dev_by_addr e,
              find-delete addr a st.retry_by_addr,
              find-delete addr a st.status_table,
            )
            (removed_entry known (same addr a) t)
      by_device (some d) e =
          rw
            (
              find-delete addr a st.dev_by_addr,
              find-delete addr a st.retry_by_addr,
              find-delete addr a st.status_table,
            )
            (removed_entry known (same addr a) t)
