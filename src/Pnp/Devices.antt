-- ===== src/Pnp/Devices.antt =====
-- The handlers of `PnPStart` leave the list of devices alone.
use ipp_usb.Base.{ℕ, ◌≡◌, refl, ◌∙◌, if_cases, Option, none, some, List, [], ◌∷◌}
use ipp_usb.UsbCommon.{UsbAddr}
use ipp_usb.Pnp.Tables.{find}
use ipp_usb.Pnp.{
  NewDevice, device, failed, Pnp, Round, status_set, status_del, not_waiting, added_answer,
  handle_added, close_device, handle_removed, retried_answer, retry, handle_retries, handle_devices,
}

module _ {D : Type 0} (http_port : D → ℕ) where
  handle_added_devices :
      (r : Round D) (added : List UsbAddr) (st : Pnp D)
      → (handle_added http_port r added st).devices ≡ st.devices
  unfolding handle_added status_set
  handle_added_devices r [] st = refl
  handle_added_devices r (addr ∷ added) st =
      handle_added_devices r added _ ∙ by_answer (r.added addr)
    where
      by_answer :
          (answer : NewDevice D)
          → (added_answer http_port addr
              (r.added_at addr)
              (status_set http_port addr answer st)
              answer).devices
            ≡ st.devices
      by_answer (device d) = refl
      by_answer (failed e) = refl

  handle_removed_devices :
      (removed : List UsbAddr) (st : Pnp D)
      → (handle_removed http_port removed st).devices ≡ st.devices
  unfolding handle_removed status_del
  handle_removed_devices [] st = refl
  handle_removed_devices (addr ∷ removed) st =
      handle_removed_devices removed _ ∙ by_device (find addr st.dev_by_addr)
    where
      by_device :
          (o : Option D)
          → (close_device http_port addr
              (status_del http_port addr (not_waiting http_port addr st))
              o).devices
            ≡ st.devices
      by_device none = refl
      by_device (some d) = refl

  handle_retries_devices :
      (r : Round D) (entries : List (UsbAddr × ℕ)) (st : Pnp D)
      → (handle_retries http_port r entries st).devices ≡ st.devices
  unfolding handle_retries status_set
  handle_retries_devices r [] st = refl
  handle_retries_devices r ((addr, tm) ∷ entries) st =
      handle_retries_devices r entries _ ∙ by_entry (find addr st.retry_by_addr)
    where
      by_answer :
          (answer : NewDevice D)
          → (retried_answer http_port addr
              (r.retried_at addr)
              (status_set http_port addr answer st)
              answer).devices
            ≡ st.devices
      by_answer (device d) = refl
      by_answer (failed e) = refl

      by_entry : (o : Option ℕ) → (retry http_port r addr st o).devices ≡ st.devices
      by_entry none = refl
      by_entry (some tm) =
          if_cases (λ (s : Pnp D). s.devices ≡ st.devices) _ _ _ (λ _. refl)
            (λ _. by_answer (r.retried addr))

  pub handle_devices_devices :
      (r : Round D) (st : Pnp D) (newdevices : List UsbAddr)
      → (handle_devices http_port r st newdevices).devices ≡ newdevices
  handle_devices_devices r st newdevices =
      handle_retries_devices r _ _ ∙ handle_removed_devices _ _ ∙ handle_added_devices r _ _
