-- ===== src/UsbTransport/Opening/Resources.antt =====
-- What `NewUsbTransport` leaves open, and how often it resets the device.
use ipp_usb.Base.{
  ℕ, zero, suc, ◌+◌, ◌-◌, ◌<◌, ◌≡◌, refl, sym, subst, ap, ◌∙◌, ◌⊎◌, inl, inr, Bool, true, false,
  arith, Bool-cases, if_cases, ltb, ◌==◌, if◌then◌else◌, Option, none, some, List, [], ◌∷◌, ◌++◌,
  Bytes, length, length-append, ℤ, map,
}
use ipp_usb.UsbCommon.{UsbDeviceInfo, Missed, check_missed}
use ipp_usb.Quirks.Getters.{get_blacklist}
use ipp_usb.Quirks.{Quirks, new_quirks, pull_by_hwid}
use ipp_usb.UsbTransport.Pool.Counting.{indices, indices_from}
use ipp_usb.UsbTransport.Pool.{filled}
use ipp_usb.UsbTransport.Conn.{UsbConn}
use ipp_usb.UsbTransport.Opening.{
  UsbIfAddr, UsbDeviceDesc, usb_error, with_device, Handle, Device, Result, ok, failed,
  UsbTransport, hard_reset, reset_if_hard, or_zero, checked_info, read_info, destroy_all,
  open_usb_conn, open_conns, max_conns, connected, configure, identified, new_usb_transport,
}

abbrev pub indices_of : List UsbConn → List ℕ
indices_of = map (λ (conn : UsbConn). conn.index)

indices_of-append :
    (conns : List UsbConn) (conn : UsbConn)
    → indices_of (conns ++ conn ∷ []) ≡ indices_of conns ++ conn.index ∷ []
indices_of-append [] conn = refl
indices_of-append (c ∷ conns) conn = ap (λ rest. c.index ∷ rest) (indices_of-append conns conn)

indices_from-append :
    (from n : ℕ) → indices_from from (suc n) ≡ indices_from from n ++ (from + n) ∷ []
unfolding indices_from
indices_from-append from zero = let e : from ≡ from + 0 = omega arith in ap (λ i. i ∷ []) e
indices_from-append from (suc n) =
    let e : suc from + n ≡ from + suc n = omega arith in
    ap (λ rest. from ∷ rest)
      (indices_from-append (suc from) n ∙ ap (λ i. indices_from (suc from) n ++ i ∷ []) e)

indices-append : (n : ℕ) → indices (suc n) ≡ indices n ++ n ∷ []
unfolding indices
indices-append n =
    let e : 0 + n ≡ n = omega arith in
    indices_from-append 0 n ∙ ap (λ i. indices_from 0 n ++ i ∷ []) e

length-indices_of : (conns : List UsbConn) → length (indices_of conns) ≡ length conns
length-indices_of [] = refl
length-indices_of (c ∷ conns) = ap suc (length-indices_of conns)

abbrev pub least : ℕ → ℕ → ℕ
least a b = if ltb a b then a else b

-- The connections are those of the open interfaces, which are the first ones.
abbrev Holds : List UsbConn → Handle → Type 0
Holds conns dev = (indices_of conns ≡ dev.interfaces) × (dev.interfaces ≡ indices (length conns))

-- The loop opens all interfaces that it may, or fails.
abbrev Opened : ℕ → Handle → Bool × List UsbConn × Handle → Type 0
Opened n before (b, conns, dev) =
    Holds conns dev × (dev.is_open ≡ before.is_open) × ((b ≡ false) ⊎ (length conns ≡ n))

destroy_all-Closed :
    (conns : List UsbConn) (dev : Handle)
    → indices_of conns ≡ dev.interfaces
    → ((destroy_all conns dev).is_open ≡ false) × ((destroy_all conns dev).interfaces ≡ [])
unfolding destroy_all
destroy_all-Closed [] dev e = (refl, sym e)
destroy_all-Closed (c ∷ conns) dev e = destroy_all-Closed conns _ (rw (← e) (ground arith))

module _ (text : Bytes → Option ℤ) (canonical : Bytes → Bytes) (now : ℕ) where
  open_usb_conn-Holds :
      (quirks : Quirks) (conns : List UsbConn) (dev : Handle) (index : ℕ)
      → Holds conns dev
      → length conns ≡ index
      → Holds
          (conns ++ open_usb_conn text canonical now quirks index ∷ [])
          (record dev { interfaces = dev.interfaces ++ index ∷ [] })
  unfolding open_usb_conn
  open_usb_conn-Holds quirks conns dev index (e, k) l = (
    indices_of-append conns (open_usb_conn text canonical now quirks index)
        ∙ ap (λ i. i ++ index ∷ []) e,
    ap (λ i. i ++ index ∷ []) k
        ∙ ap (λ n. indices (length conns) ++ n ∷ []) (sym l)
        ∙ sym (indices-append (length conns))
        ∙ ap indices (
            omega
              (arith, length-append conns (open_usb_conn text canonical now quirks index ∷ []))),
  )

  open_conns-Opened :
      (quirks : Quirks) (opens : ℕ → Bool) (maxconn index : ℕ) (if_addrs : List UsbIfAddr)
      (opened : List UsbConn) (dev : Handle)
      → 0 < maxconn
      → Holds opened dev
      → length opened ≡ index
      → Opened
          (index + least maxconn (length if_addrs))
          dev
          (open_conns text canonical now quirks opens maxconn index if_addrs opened dev)
  unfolding open_conns
  open_conns-Opened quirks opens maxconn index [] opened dev p h l =
      (h, refl, inr (ground (arith, l, p)))
  open_conns-Opened quirks opens maxconn index (ifaddr ∷ if_addrs) opened dev p h l =
      if_cases (Opened (index + least maxconn (suc (length if_addrs))) dev) (opens index) _ _
        (λ _.
          if_cases (Opened (index + least maxconn (suc (length if_addrs))) dev) (maxconn == 1) _ _
            (λ e. (more, refl, inr (ground (arith, longer, e))))
            (λ e.
              subst
                (λ n. Opened n dev (
                  open_conns text canonical now quirks opens (maxconn - 1) (suc index) if_addrs
                    (opened ++ open_usb_conn text canonical now quirks index ∷ [])
                    (record dev { interfaces = dev.interfaces ++ index ∷ [] })))
                (ground (arith, e, p))
                (open_conns-Opened quirks opens (maxconn - 1) (suc index) if_addrs
                  (opened ++ open_usb_conn text canonical now quirks index ∷ [])
                  (record dev { interfaces = dev.interfaces ++ index ∷ [] }) (ground (arith, e, p))
                  more longer)))
        (λ _. (h, refl, inl refl))
    where
      more :
          Holds
            (opened ++ open_usb_conn text canonical now quirks index ∷ [])
            (record dev { interfaces = dev.interfaces ++ index ∷ [] })
      more = open_usb_conn-Holds quirks opened dev index h l

      longer : length (opened ++ open_usb_conn text canonical now quirks index ∷ []) ≡ suc index
      longer =
          omega
            (arith, l, length-append opened (open_usb_conn text canonical now quirks index ∷ []))

  -- If there is no transport, the device is closed, and so are its interfaces. A transport has the
  -- first interfaces of the device for its connections, as many as the quirk `usb-max-interfaces`
  -- allows and the device has. They are all open, and all in its pool, in order.
  abbrev pub Kept : UsbDeviceDesc → Result UsbTransport × Handle → Type 0
  Kept desc (failed e, dev) = (dev.is_open ≡ false) × (dev.interfaces ≡ [])
  Kept desc (ok transport, dev) =
      let n = least (max_conns text canonical now transport.quirks) (length desc.if_addrs) in
      (dev.is_open ≡ true)
      × (dev.interfaces ≡ indices n)
      × (indices_of transport.conn_list ≡ indices n)
      × (transport.pool.idle ≡ indices n)
      × (transport.pool.capacity ≡ n)

  connected-Kept :
      (desc : UsbDeviceDesc) (info : UsbDeviceInfo) (quirks : Quirks) (before : Handle)
      (r : Bool × List UsbConn × Handle)
      → Opened (least (max_conns text canonical now quirks) (length desc.if_addrs)) before r
      → before.is_open ≡ true
      → Kept desc (connected text canonical now desc info quirks r)
  unfolding filled
  connected-Kept desc info quirks before (false, conns, dev) o e =
      destroy_all-Closed conns dev o.0.0
  connected-Kept desc info quirks before (true, conns, dev) o e =
      kept (elim (o.2) [ inl e' ↦ absurd (ground (arith, e')) | inr n ↦ n ])
    where
      most : ℕ
      most = least (max_conns text canonical now quirks) (length desc.if_addrs)

      kept :
          length conns ≡ most
          → Kept desc (connected text canonical now desc info quirks (true, conns, dev))
      kept n = (o.1 ∙ e, o.0.1 ∙ ap indices n, o.0.0 ∙ o.0.1 ∙ ap indices n, ap indices n, n)

  hard_reset_open : (force : Bool) (dev : Handle) → (hard_reset force dev).is_open ≡ dev.is_open
  unfolding hard_reset
  hard_reset_open force dev = ground arith

  hard_reset_interfaces :
      (force : Bool) (dev : Handle) → (hard_reset force dev).interfaces ≡ dev.interfaces
  unfolding hard_reset
  hard_reset_interfaces force dev = ground arith

  -- An open device of which no interface is open.
  abbrev Fresh : Handle → Type 0
  Fresh dev = (dev.is_open ≡ true) × (dev.interfaces ≡ [])

  reset_if_hard-Fresh :
      (quirks : Quirks) (dev : Handle)
      → Fresh dev
      → Fresh (reset_if_hard text canonical now quirks dev)
  reset_if_hard-Fresh quirks dev f =
      if_cases Fresh _ _ _
        (λ _. (hard_reset_open false dev ∙ f.0, hard_reset_interfaces false dev ∙ f.1)) (λ _. f)

  max_conns_positive : (quirks : Quirks) → 0 < max_conns text canonical now quirks
  max_conns_positive quirks = ground arith

  open_conns-Kept :
      (desc : UsbDeviceDesc) (info : UsbDeviceInfo) (quirks : Quirks) (opens : ℕ → Bool)
      (dev : Handle)
      → Fresh dev
      → Kept desc (
          connected text canonical now desc info quirks (
            open_conns text canonical now quirks opens
              (max_conns text canonical now quirks)
              0
              desc.if_addrs
              []
              dev))
  unfolding indices
  open_conns-Kept desc info quirks opens dev f =
      let e : 0 + most ≡ most = omega arith in
      connected-Kept desc info quirks dev run (subst (λ n. Opened n dev run) e opened) f.0
    where
      most : ℕ
      most = least (max_conns text canonical now quirks) (length desc.if_addrs)

      run : Bool × List UsbConn × Handle
      run =
          open_conns text canonical now quirks opens (max_conns text canonical now quirks) 0
            desc.if_addrs [] dev

      opened : Opened (0 + most) dev run
      opened =
          open_conns-Opened quirks opens (max_conns text canonical now quirks) 0 desc.if_addrs []
            dev (max_conns_positive quirks) (sym f.1, f.1) refl

  configure-Kept :
      (desc : UsbDeviceDesc) (device : Device) (quirks : Quirks) (info : UsbDeviceInfo)
      (dev : Handle)
      → Fresh dev
      → Kept desc (configure text canonical now desc device quirks info dev)
  unfolding configure
  configure-Kept desc device quirks info dev f =
      elim (Bool-cases (or_zero false (get_blacklist text quirks))) [
        | inl e ↦ rw e (destroy_all-Closed [] dev (sym f.1))
        | inr e ↦ elim (Bool-cases device.configures) [
          | inl c ↦ rw (e, c) (open_conns-Kept desc info quirks device.interface_opens _ reset)
          | inr c ↦
              rw (e, c)
                (destroy_all-Closed [] (reset_if_hard text canonical now quirks dev) (sym reset.1))
        ]
      ]
    where
      reset : Fresh (reset_if_hard text canonical now quirks dev)
      reset = reset_if_hard-Fresh quirks dev f

  read_info-Fresh :
      (first second : Option UsbDeviceInfo) (dev : Handle)
      → Fresh dev
      → Fresh (read_info first second dev).1
  unfolding read_info
  read_info-Fresh none second dev f = f
  read_info-Fresh (some info) second dev f = checked (check_missed info)
    where
      checked : (o : Option Missed) → Fresh (checked_info second info dev o).1
      checked none = f
      checked (some m) = (hard_reset_open true dev ∙ f.0, hard_reset_interfaces true dev ∙ f.1)

  identified-Kept :
      (desc : UsbDeviceDesc) (device : Device) (qdb : List Quirks) (quirks : Quirks)
      (r : Result UsbDeviceInfo × Handle)
      → Fresh r.1
      → Kept desc (identified text canonical now desc device qdb quirks r)
  identified-Kept desc device qdb quirks (failed e, dev) f = (refl, f.1)
  identified-Kept desc device qdb quirks (ok info, dev) f = configure-Kept desc device _ _ dev f

  with_device-Kept :
      (desc : UsbDeviceDesc) (device : Device) (qdb : List Quirks) (quirks : Quirks) (dev : Handle)
      → Fresh dev
      → Kept desc (with_device text canonical now desc device qdb quirks dev)
  unfolding with_device
  with_device-Kept desc device qdb quirks dev f =
      elim (Bool-cases (or_zero false (get_blacklist text quirks))) [
        | inl e ↦ rw e (refl, f.1)
        | inr e ↦ rw e (
            identified-Kept desc device qdb quirks
              (read_info device.first_info device.second_info
                (reset_if_hard text canonical now quirks dev))
              (read_info-Fresh device.first_info device.second_info
                (reset_if_hard text canonical now quirks dev) (reset_if_hard-Fresh quirks dev f)))
      ]

  -- `NewUsbTransport` leaves nothing open when it fails, at any of its steps: the device is closed,
  -- and each interface that was opened. When it succeeds, the transport's connections are those of
  -- the first interfaces of the device, as many as the quirk `usb-max-interfaces` allows and the
  -- device has, each of them open; and all of them are in its pool, which they fill.
  pub new_usb_transport-Kept :
      (desc : UsbDeviceDesc) (device : Device) (qdb : List Quirks)
      → Kept desc (new_usb_transport text canonical now desc device qdb)
  unfolding new_usb_transport
  new_usb_transport-Kept desc device qdb =
      if_cases (Kept desc) device.opens (with_device text canonical now desc device qdb quirks dev)
        (failed usb_error, dev) (λ o. with_device-Kept desc device qdb quirks dev (o, refl))
        (λ e. (e, refl))
    where
      quirks : Quirks
      quirks = pull_by_hwid canonical new_quirks qdb desc.vendor desc.product

      dev : Handle
      dev = record { is_open = device.opens; interfaces = []; resets = 0; done_hard_reset = false }
