-- ===== src/Device/Starting.antt =====
-- What `NewDevice` leaves open, why it fails, and what it advertises.
use ipp_usb.Base.{
  ℕ, zero, suc, ◌≡◌, ◌<◌, ◌≤◌, ◌⊎◌, inl, inr, refl, sym, ap, Bool, true, false, not, if_cases, ◌==◌,
  if◌then◌else◌, Option, none, some, List, [], ◌∷◌, ◌++◌, Bytes, bytes_eq, bytes_eq_iff, length,
  arith,
}
use ipp_usb.DevState.{DevState}
use ipp_usb.Dnssd.{DnsSdSvcInfo}
use ipp_usb.Ipp.{IppPrinterInfo}
use ipp_usb.Device.{
  DeviceError, transport_error, listen_error, publish_error, err_partial_init, err_init_timed_out,
  err_unusable, Answers, Device, Started, ok, failed, panicked, resets, give_up, retries,
  retries_after, advertised_name, rename_state, in_front, add_txt_at, with_scan, all_services,
  publish, enable, enable_scanned, query_escl, query_ipp, new_device,
}

-- Why a device fails to start.
abbrev pub Reason : Answers → DeviceError → Type 0
Reason a transport_error = a.transport_opens ≡ false
Reason a listen_error = a.listens ≡ false
Reason a publish_error = a.publishes ≡ false
Reason a err_partial_init =
    (a.init_retry_partial ≡ true)
    × ((retries a.ipp a.can_print true ≡ true) ⊎ (retries a.escl a.can_scan true ≡ true))
Reason a err_init_timed_out = (a.timed_out_by_ipp ≡ true) ⊎ (a.timed_out_by_escl ≡ true)
Reason a err_unusable = length (a.ipp.services ++ a.escl.services) ≡ 0

-- The transport was never opened, or it was closed, with a reset but for two errors.
abbrev pub ClosedAfter : Answers → DeviceError → Option Bool → Type 0
ClosedAfter a e closed =
    ((a.transport_opens ≡ false) × (closed ≡ none))
    ⊎ ((a.transport_opens ≡ true) × (closed ≡ some (resets e)))

abbrev pub where_some :
    (List DnsSdSvcInfo → List DnsSdSvcInfo)
    → Option (List DnsSdSvcInfo)
    → Option (List DnsSdSvcInfo)
where_some f none = none
where_some f (some services) = some (f services)

module _ (hwid : ℕ → ℕ → Bytes) (bus_port : ℕ → ℕ → Bytes) (bus : ℕ) where
  -- All services that are advertised, where the printer's one is among them.
  abbrev pub advertised : Answers → DevState → Option (List DnsSdSvcInfo)
  advertised a state =
      where_some (all_services hwid bus_port bus state a.info)
        (with_scan a.ipp_info a.escl.error (a.ipp.services ++ a.escl.services))

  abbrev pub Settled : Answers → Started → Type 0
  Settled a (failed e dev) =
      Reason a e
      × (dev.transport ≡ false)
      × (dev.listener ≡ false)
      × (dev.proxy ≡ none)
      × (dev.published ≡ none)
      × ClosedAfter a e dev.closed_with_reset
  Settled a (ok dev) =
      (dev.transport ≡ true)
      × (dev.listener ≡ true)
      × (dev.proxy ≡ some true)
      × (dev.timeout ≡ 0)
      × (dev.state.dns_sd_name ≡ advertised_name a.ipp_info a.info)
      × (0 < length (a.ipp.services ++ a.escl.services))
      × (dev.published ≡ (if a.dns_sd_enable then advertised a dev.state else none))
  Settled a (panicked dev) =
      (ipp_info : IppPrinterInfo) × (a.ipp_info ≡ some ipp_info)
      × (length (a.ipp.services ++ a.escl.services) ≤ ipp_info.ipp_svc_index)

  -- A device that is being started.
  abbrev Starting : Answers → Device → Type 0
  Starting a dev =
      (a.transport_opens ≡ true)
      × (dev.transport ≡ true)
      × (dev.listener ≡ true)
      × (dev.published ≡ none)

  give_up-Settled :
      (a : Answers) (e : DeviceError) (dev : Device)
      → Reason a e
      → dev.published ≡ none
      → ((dev.transport ≡ true) × (a.transport_opens ≡ true))
        ⊎ ((dev.transport ≡ false) × ((a.transport_opens ≡ false) × (dev.closed_with_reset ≡ none)))
      → Settled a (give_up e dev)
  unfolding give_up
  give_up-Settled a e dev r p (inl (t, o)) = (r, refl, refl, refl, p, inr (o, rw t refl))
  give_up-Settled a e dev r p (inr (t, (o, c))) = (r, refl, refl, refl, p, inl (o, rw t c))

  fails :
      (a : Answers) (e : DeviceError) (dev : Device)
      → Starting a dev
      → Reason a e
      → Settled a (give_up e dev)
  fails a e dev s r = give_up-Settled a e dev r s.3 (inl (s.1, s.0))

  -- A list of the same length, or an index out of range.
  abbrev Indexed : ℕ → List DnsSdSvcInfo → Option (List DnsSdSvcInfo) → Type 0
  Indexed i services none = length services ≤ i
  Indexed i services (some services') = length services' ≡ length services

  in_front-Indexed :
      (i : ℕ) (svc : DnsSdSvcInfo) (services : List DnsSdSvcInfo)
      (found : Option (List DnsSdSvcInfo))
      → Indexed i services found
      → Indexed (suc i) (svc ∷ services) (in_front svc found)
  in_front-Indexed i svc services none h = omega arith
  in_front-Indexed i svc services (some found) h = ap suc h

  add_txt_at-Indexed :
      (i : ℕ) (key value : Bytes) (services : List DnsSdSvcInfo)
      → Indexed i services (add_txt_at i key value services)
  unfolding add_txt_at
  add_txt_at-Indexed i key value [] = omega arith
  add_txt_at-Indexed zero key value (svc ∷ services) = refl
  add_txt_at-Indexed (suc i) key value (svc ∷ services) =
      in_front-Indexed i svc services _ (add_txt_at-Indexed i key value services)

  -- The services that the scanner's flag was added to.
  abbrev Flagged : Option IppPrinterInfo → List DnsSdSvcInfo → Option (List DnsSdSvcInfo) → Type 0
  Flagged none services found = found ≡ some services
  Flagged (some ipp_info) services found = Indexed ipp_info.ipp_svc_index services found

  with_scan-Flagged :
      (ipp_info : Option IppPrinterInfo) (error : Option Bool) (services : List DnsSdSvcInfo)
      → Flagged ipp_info services (with_scan ipp_info error services)
  with_scan-Flagged none error services = refl
  with_scan-Flagged (some ipp_info) error services =
      add_txt_at-Indexed ipp_info.ipp_svc_index _ _ services

  Flagged-length :
      (ipp_info : Option IppPrinterInfo) (services found : List DnsSdSvcInfo)
      → Flagged ipp_info services (some found)
      → length found ≡ length services
  Flagged-length none services found h = ground (arith, h)
  Flagged-length (some ipp_info) services found h = h

  Flagged-none :
      (ipp_info : Option IppPrinterInfo) (services : List DnsSdSvcInfo)
      → Flagged ipp_info services none
      → (info : IppPrinterInfo) × (ipp_info ≡ some info) × (length services ≤ info.ipp_svc_index)
  Flagged-none none services h = absurd (ground (arith, h))
  Flagged-none (some ipp_info) services h = (ipp_info, refl, h)

  enable-Settled :
      (a : Answers) (dev : Device) (services : List DnsSdSvcInfo)
      → Starting a dev
      → dev.state.dns_sd_name ≡ advertised_name a.ipp_info a.info
      → with_scan a.ipp_info a.escl.error (a.ipp.services ++ a.escl.services) ≡ some services
      → length services ≡ length (a.ipp.services ++ a.escl.services)
      → Settled a (enable hwid bus_port bus a dev services)
  unfolding enable
  enable-Settled a dev services s n f l =
      if_cases (Settled a) (length services == 0) (give_up err_unusable dev)
        (publish hwid bus_port bus a enabled
          (all_services hwid bus_port bus dev.state a.info services))
        (λ e. fails a err_unusable dev s (ground (arith, e, l)))
        (λ e.
          if_cases (Settled a) a.dns_sd_enable _ (ok enabled)
            (λ d.
              if_cases (Settled a) a.publishes _ (give_up publish_error enabled)
                (λ p. (s.1, s.2, refl, refl, n, ground (arith, e, l), rw (d, f) refl))
                (λ p. fails a publish_error enabled s p))
            (λ d. (s.1, s.2, refl, refl, n, ground (arith, e, l), rw d s.3)))
    where
      enabled : Device
      enabled = record dev { timeout = 0; proxy = some true }

  enable_scanned-Settled :
      (a : Answers) (dev : Device) (found : Option (List DnsSdSvcInfo))
      → Starting a dev
      → dev.state.dns_sd_name ≡ advertised_name a.ipp_info a.info
      → with_scan a.ipp_info a.escl.error (a.ipp.services ++ a.escl.services) ≡ found
      → Flagged a.ipp_info (a.ipp.services ++ a.escl.services) found
      → Settled a (enable_scanned hwid bus_port bus a dev found)
  enable_scanned-Settled a dev none s n f h = Flagged-none a.ipp_info _ h
  enable_scanned-Settled a dev (some services) s n f h =
      enable-Settled a dev services s n f (Flagged-length a.ipp_info _ services h)

  retries_partial :
      (error : Option Bool) (http_status : ℕ) (can retry_partial : Bool)
      → retries_after error http_status can retry_partial ≡ true
      → (retry_partial ≡ true) × (retries_after error http_status can true ≡ true)
  retries_partial none http_status can retry_partial h = absurd (ground (arith, h))
  retries_partial (some is_eof) http_status can retry_partial h =
      (ground (arith, h), ground (arith, h))

  query_escl-Settled :
      (a : Answers) (dev : Device)
      → Starting a dev
      → dev.state.dns_sd_name ≡ advertised_name a.ipp_info a.info
      → Settled a (query_escl hwid bus_port bus a dev a.ipp.services)
  unfolding query_escl
  query_escl-Settled a dev s n =
      if_cases (Settled a) (retries a.escl a.can_scan a.init_retry_partial)
        (give_up err_partial_init dev)
        (if a.timed_out_by_escl
          then give_up err_init_timed_out dev
          else enable_scanned hwid bus_port bus a dev
              (with_scan a.ipp_info a.escl.error (a.ipp.services ++ a.escl.services)))
        (λ h.
          let p =
            retries_partial a.escl.error a.escl.http_status a.can_scan a.init_retry_partial h in
          fails a err_partial_init dev s (p.0, inr p.1))
        (λ h.
          if_cases (Settled a) a.timed_out_by_escl (give_up err_init_timed_out dev) _
            (λ t. fails a err_init_timed_out dev s (inr t))
            (λ t.
              enable_scanned-Settled a dev _ s n refl
                (with_scan-Flagged a.ipp_info a.escl.error (a.ipp.services ++ a.escl.services))))

  rename_state_name :
      (name : Bytes) (dev : Device) → (rename_state name dev).state.dns_sd_name ≡ name
  unfolding rename_state
  rename_state_name name dev =
      if_cases (λ (d : Device). d.state.dns_sd_name ≡ name) (bytes_eq name dev.state.dns_sd_name)
        dev _ (λ e. sym ((bytes_eq_iff name dev.state.dns_sd_name).0 e)) (λ e. refl)

  rename_state-Starting :
      (a : Answers) (name : Bytes) (dev : Device)
      → Starting a dev
      → Starting a (rename_state name dev)
  unfolding rename_state
  rename_state-Starting a name dev s =
      if_cases (Starting a) (bytes_eq name dev.state.dns_sd_name) dev _ (λ e. s) (λ e. s)

  query_ipp-Settled :
      (a : Answers) (dev : Device) → Starting a dev → Settled a (query_ipp hwid bus_port bus a dev)
  unfolding query_ipp
  query_ipp-Settled a dev s =
      if_cases (Settled a) (retries a.ipp a.can_print a.init_retry_partial)
        (give_up err_partial_init dev)
        (if a.timed_out_by_ipp
          then give_up err_init_timed_out dev
          else query_escl hwid bus_port bus a (rename_state name dev) a.ipp.services)
        (λ h.
          let p =
            retries_partial a.ipp.error a.ipp.http_status a.can_print a.init_retry_partial h in
          fails a err_partial_init dev s (p.0, inl p.1))
        (λ h.
          if_cases (Settled a) a.timed_out_by_ipp (give_up err_init_timed_out dev) _
            (λ t. fails a err_init_timed_out dev s (inl t))
            (λ t.
              query_escl-Settled a (rename_state name dev) (rename_state-Starting a name dev s)
                (rename_state_name name dev)))
    where
      name : Bytes
      name = advertised_name a.ipp_info a.info

  -- A device that fails to start leaves nothing open and nothing published, for a reason that fits
  -- its error, and its transport, if there was one, was closed with a reset unless the error is
  -- ErrUnusable or ErrPartialInit. One that starts has its transport, without a timeout, its
  -- listener and its enabled proxy; it bears the name that the printer tells, or else that of its
  -- make and model; it has a service of its own; and it publishes all services if the configuration
  -- says so. It panics only where the index of the printer's service is out of range.
  pub new_device-Settled : (a : Answers) → Settled a (new_device hwid bus_port bus a)
  unfolding new_device
  new_device-Settled a =
      if_cases (Settled a) (not a.transport_opens) (give_up transport_error dev)
        (if not a.listens then give_up listen_error dev else query_ipp hwid bus_port bus a started)
        (λ h.
          let c : a.transport_opens ≡ false = ground (arith, h) in
          give_up-Settled a transport_error dev c refl (inr (c, (c, refl))))
        (λ h.
          let o : a.transport_opens ≡ true = ground (arith, h) in
          if_cases (Settled a) (not a.listens) (give_up listen_error dev) _
            (λ l. give_up-Settled a listen_error dev (ground (arith, l)) refl (inl (o, o)))
            (λ l. query_ipp-Settled a started (o, o, refl, refl)))
    where
      dev : Device
      dev = record {
        transport = a.transport_opens;
        closed_with_reset = none;
        timeout = 0;
        listener = false;
        proxy = none;
        published = none;
        state = a.state;
        saved = false;
      }

      started : Device
      started = record dev { listener = true; timeout = a.init_timeout; proxy = some false }
