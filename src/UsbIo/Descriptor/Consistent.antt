-- ===== src/UsbIo/Descriptor/Consistent.antt =====
-- The interfaces in a device's descriptor: where they come from, and that they go together.
use ipp_usb.Base.{
  ℕ, suc, ◌≡◌, ◌<◌, ◌≤◌, inl, inr, refl, true, false, if_cases, Option, none, some, List, [], ◌∷◌,
  ◌++◌, length, length-append, leb, ℤ, pos, negsuc, minus_one, All, All-append, Occurs, subst,
  arith,
}
use ipp_usb.UsbCommon.{UsbAddr, same, is_ipp_over_usb}
use ipp_usb.UsbTransport.Opening.{UsbIfAddr, UsbDeviceDesc}
use ipp_usb.UsbIo.Descriptor.{
  AltSetting, Config, UsbDevice, find_endpoints, interface_of, add_interface, add_alt, add_alts,
  add_interfaces, other_config, add_configs, build_from, empty_desc, build_usb_device_desc,
  put_desc, put_if_printer, collect, get_ipp_over_usb_device_descs,
}

-- A setting of one of the configurations.
abbrev HasSetting : List (Option Config) → Config → AltSetting → Type 0
HasSetting configs conf alt =
    Occurs (some conf) configs
    × ((alts : List AltSetting) × (Occurs alts conf.interfaces × Occurs alt alts))

module _ (addr : UsbAddr) (In : Config → AltSetting → Type 0) where
  -- The address stands for a setting for IPP over USB, of the configuration `n`, and has the first
  -- endpoints of both directions.
  abbrev Source : ℕ → UsbDeviceDesc → UsbIfAddr → Type 0
  Source n desc a =
      (conf : Config) × (alt : AltSetting) × (In conf alt
        × (conf.configuration_value ≡ n)
        × (is_ipp_over_usb (interface_of desc.vendor desc.product conf alt) ≡ true)
        × (a.addr ≡ desc.addr)
        × (a.num ≡ alt.interface_number)
        × (a.alt ≡ alt.alternate_setting)
        × (find_endpoints minus_one minus_one alt.endpoints ≡ (pos a.input, pos a.output)))

  -- No configuration is chosen and there are no interfaces, or they are all of the one chosen.
  abbrev Sourced : UsbDeviceDesc → ℤ → List UsbIfAddr → Type 0
  Sourced desc (negsuc n) addrs = addrs ≡ []
  Sourced desc (pos n) addrs = (0 < length addrs) × All (Source n desc) addrs

  abbrev Fits : Config → UsbDeviceDesc → Type 0
  Fits conf desc =
      (desc.addr ≡ addr)
      × Sourced desc desc.config desc.if_addrs
      × (other_config desc.config conf ≡ false)

  Sourced-last :
      (conf : Config) (desc : UsbDeviceDesc) (config : ℤ) (addrs : List UsbIfAddr) (a : UsbIfAddr)
      → Sourced desc config addrs
      → other_config config conf ≡ false
      → Source conf.configuration_value desc a
      → Sourced desc (pos conf.configuration_value) (addrs ++ a ∷ [])
  Sourced-last conf desc (negsuc n) addrs a h o s = rw h (omega arith, (s, tt))
  Sourced-last conf desc (pos n) addrs a h o s =
      let same_config : n ≡ conf.configuration_value = ground (arith, o) in
      (
        omega (arith, length-append addrs (a ∷ [])),
        All-append _ addrs a (subst (λ m. All (Source m desc) addrs) same_config h.1) s,
      )

  add_interface-Fits :
      (conf : Config) (alt : AltSetting) (desc : UsbDeviceDesc) (found : ℤ × ℤ)
      → In conf alt
      → is_ipp_over_usb (interface_of desc.vendor desc.product conf alt) ≡ true
      → find_endpoints minus_one minus_one alt.endpoints ≡ found
      → Fits conf desc
      → Fits conf (add_interface conf alt desc found)
  add_interface-Fits conf alt desc (pos input, pos output) i u e (d, h, o) = (
    d,
    Sourced-last conf desc desc.config desc.if_addrs _ h o
        (conf, alt, (i, refl, u, refl, refl, refl, e)),
    ground arith,
  )
  add_interface-Fits conf alt desc (pos input, negsuc output) i u e f = f
  add_interface-Fits conf alt desc (negsuc input, output) i u e f = f

  add_alt-Fits :
      (conf : Config) (alt : AltSetting) (desc : UsbDeviceDesc)
      → In conf alt
      → Fits conf desc
      → Fits conf (add_alt conf alt desc)
  unfolding add_alt
  add_alt-Fits conf alt desc i f =
      let ifdesc = interface_of desc.vendor desc.product conf alt in
      let described : UsbDeviceDesc = record desc { if_descs = desc.if_descs ++ ifdesc ∷ [] } in
      if_cases (Fits conf) (is_ipp_over_usb ifdesc) _ described
        (λ u. add_interface-Fits conf alt described _ i u refl f) (λ u. f)

  add_alts-Fits :
      (conf : Config) (alts : List AltSetting) (desc : UsbDeviceDesc)
      → ((alt : AltSetting) → Occurs alt alts → In conf alt)
      → Fits conf desc
      → Fits conf (add_alts conf alts desc)
  unfolding add_alts
  add_alts-Fits conf [] desc i f = f
  add_alts-Fits conf (alt ∷ alts) desc i f =
      add_alts-Fits conf alts (add_alt conf alt desc) (λ a o. i a (inr o))
        (add_alt-Fits conf alt desc (i alt (inl refl)) f)

  add_interfaces-Fits :
      (conf : Config) (ifaces : List (List AltSetting)) (desc : UsbDeviceDesc)
      → ((alts : List AltSetting) (alt : AltSetting)
          → Occurs alts ifaces
          → Occurs alt alts
          → In conf alt)
      → Fits conf desc
      → Fits conf (add_interfaces conf ifaces desc)
  unfolding add_interfaces
  add_interfaces-Fits conf [] desc i f = f
  add_interfaces-Fits conf (alts ∷ ifaces) desc i f =
      add_interfaces-Fits conf ifaces (add_alts conf alts desc) (λ a b o p. i a b (inr o) p)
        (add_alts-Fits conf alts desc (λ a o. i alts a (inl refl) o) f)

  abbrev Kept : UsbDeviceDesc → Type 0
  Kept desc = (desc.addr ≡ addr) × Sourced desc desc.config desc.if_addrs

  Fits-Kept : (conf : Config) (desc : UsbDeviceDesc) → Fits conf desc → Kept desc
  Fits-Kept conf desc f = (f.0, f.1)

  add_configs-Kept :
      (configs : List (Option Config)) (desc : UsbDeviceDesc) (held : ℕ)
      → ((conf : Config) (alts : List AltSetting) (alt : AltSetting)
          → Occurs (some conf) configs
          → Occurs alts conf.interfaces
          → Occurs alt alts
          → In conf alt)
      → Kept desc
      → (λ (out : UsbDeviceDesc × ℕ). Kept out.0) (add_configs configs desc held)
  unfolding add_configs
  add_configs-Kept [] desc held i h = h
  add_configs-Kept (none ∷ configs) desc held i h =
      add_configs-Kept configs desc held (λ c a b o p q. i c a b (inr o) p q) h
  add_configs-Kept (some conf ∷ configs) desc held i h =
      if_cases (λ (out : UsbDeviceDesc × ℕ). Kept out.0) (other_config desc.config conf) _ _
        (λ e. add_configs-Kept configs desc (suc held) (λ c a b o p q. i c a b (inr o) p q) h)
        (λ e.
          add_configs-Kept configs (add_interfaces conf conf.interfaces desc) held
            (λ c a b o p q. i c a b (inr o) p q)
            (Fits-Kept conf (add_interfaces conf conf.interfaces desc) (
              add_interfaces-Fits conf conf.interfaces desc (λ a b p q. i conf a b (inl refl) p q)
                (h.0, h.1, e))))

-- The descriptor is that of one of the devices, with at least two interfaces for IPP over USB, all
-- of them settings of the configuration that it names.
abbrev pub Found : List UsbDevice → UsbDeviceDesc → Type 0
Found devs desc =
    (2 ≤ length desc.if_addrs)
    × ((dev : UsbDevice) × (Occurs dev devs × Kept dev.addr (HasSetting dev.configs) desc))

put_desc-All :
    (P : UsbDeviceDesc → Type 0) (desc : UsbDeviceDesc) (descs : List UsbDeviceDesc)
    → All P descs
    → P desc
    → All P (put_desc desc descs)
unfolding put_desc
put_desc-All P desc [] h p = (p, tt)
put_desc-All P desc (d ∷ descs) h p =
    if_cases (All P) (same d.addr desc.addr) (desc ∷ descs) (d ∷ put_desc desc descs)
      (λ e. (p, h.1)) (λ e. (h.0, put_desc-All P desc descs h.1 p))

put_if_printer-Found :
    (all : List UsbDevice) (dev : UsbDevice) (descs : List UsbDeviceDesc)
    → Occurs dev all
    → All (Found all) descs
    → All (Found all) (put_if_printer (build_usb_device_desc dev) descs)
unfolding build_usb_device_desc
put_if_printer-Found all dev descs o h = by_descriptor dev.descriptor
  where
    by_descriptor :
        (ids : Option (ℕ × ℕ)) → All (Found all) (put_if_printer (build_from dev ids) descs)
    by_descriptor none = h
    by_descriptor (some ids) =
        let out = add_configs dev.configs (empty_desc dev.addr ids) 0 in
        let kept =
          add_configs-Kept dev.addr (HasSetting dev.configs) dev.configs (empty_desc dev.addr ids) 0
            (λ conf alts alt p q r. (p, (alts, (q, r)))) (refl, refl) in
        if_cases (All (Found all)) (leb 2 (length out.0.if_addrs)) (put_desc out.0 descs) descs
          (λ e. put_desc-All (Found all) out.0 descs h (ground (arith, e), (dev, (o, kept))))
          (λ e. h)

collect-Found :
    (all devs : List UsbDevice) (descs : List UsbDeviceDesc)
    → ((dev : UsbDevice) → Occurs dev devs → Occurs dev all)
    → All (Found all) descs
    → All (Found all) (collect devs descs)
unfolding collect
collect-Found all [] descs i h = h
collect-Found all (dev ∷ devs) descs i h =
    collect-Found all devs _ (λ d o. i d (inr o))
      (put_if_printer-Found all dev descs (i dev (inl refl)) h)

-- Each descriptor that is found has the address of one of the devices and at least two interfaces.
-- Each interface is an alternate setting for IPP over USB of one and the same configuration of that
-- device, the one that the descriptor names, with the device's address and the first input and the
-- first output endpoint of the setting.
pub get_ipp_over_usb_device_descs-Found :
    (devs : List UsbDevice)
    → (descs : List UsbDeviceDesc) × ((get_ipp_over_usb_device_descs (some devs) ≡ some descs)
        × All (Found devs) descs)
unfolding get_ipp_over_usb_device_descs
get_ipp_over_usb_device_descs-Found devs = (_, (refl, collect-Found devs devs [] (λ d o. o) tt))
