-- ===== src/Quirks/Typing.antt =====
-- The type of a quirk's value goes with its name, so the getters of quirks.go never panic.
use ipp_usb.Base.{
  ℕ, ◌≡◌, ◌≢◌, inl, inr, refl, sym, subst, ◌∙◌, not, Bool-cases, if_cases, Option, none, some, List,
  [], ◌∷◌, Bytes, codes, bytes_eq, bytes_eq_iff, ℤ, pos, negsuc, All, arith,
}
use mathlib.Core.Option.{some-injective}
use ipp_usb.Hwid.{HwidPattern}
use ipp_usb.Base.Dict.{lookup, insert}
use ipp_usb.Quirks.Parsing.{
  Parsed, str, bool, uint, duration, reset, buggy_rsp, Kind, of_bool, of_string, of_uint,
  of_duration, of_buggy_rsp, of_reset, Quirk, quirk_parse, parse, is_hwid, quirk_default,
}
use ipp_usb.Quirks.{
  Quirks, put, prioritize_and_save, wins, weight_of, save_matching, pull_hwid_quirk,
  pull_hwid_section, pull_by_hwid, pull_model_section, pull_by_model_name,
}
use ipp_usb.Quirks.Getters.{
  or_default, as_bool, as_string, as_uint, as_duration, as_reset, as_buggy_rsp, get, value_of,
  get_blacklist, get_buggy_ipp_rsp, get_disable_fax, get_ignore_ipp_status, get_init_delay,
  get_init_retry_partial, get_init_reset, get_init_timeout, get_mfg, get_model, get_request_delay,
  get_usb_max_interfaces, get_usb_send_delay_threshold, get_usb_send_delay, get_zlp_recv_hack,
  get_zlp_send,
}

-- The value is one of the type that the parsing method saves.
abbrev pub HasKind : Kind → Parsed → Type 0
HasKind of_bool (bool b) = Unit
HasKind of_string (str s) = Unit
HasKind of_uint (uint n) = Unit
HasKind of_duration (duration n) = Unit
HasKind of_buggy_rsp (buggy_rsp m) = Unit
HasKind of_reset (reset m) = Unit
HasKind _ _ = ⊥

abbrev pub KindOf : Option Kind → Parsed → Type 0
KindOf none p = Unit
KindOf (some k) p = HasKind k p

-- A quirk whose value has the type that its name asks for, if it asks for one.
abbrev pub IsTyped : Quirk → Type 0
IsTyped q = KindOf (quirk_parse q.name) q.parsed

abbrev pub ParsedAs : Kind → Option Parsed → Type 0
ParsedAs k none = Unit
ParsedAs k (some p) = HasKind k p

-- Whatever a parsing method accepts has its type.
pub parse-HasKind : (text : Bytes → Option ℤ) (k : Kind) (q : Quirk) → ParsedAs k (parse text k q)
unfolding parse
parse-HasKind text of_bool q = ground arith
parse-HasKind text of_string q = tt
parse-HasKind text of_uint q = ground arith
parse-HasKind text of_duration q = ground arith
parse-HasKind text of_buggy_rsp q = ground arith
parse-HasKind text of_reset q = ground arith

abbrev pub Entry : Bytes × Quirk → Type 0
Entry (name, q) = (q.name ≡ name) × IsTyped q

-- Every quirk of the collection stands under its own name, and is typed.
abbrev pub AllTyped : Quirks → Type 0
AllTyped quirks = All Entry quirks.by_name

insert-All :
    (q : Quirk) (m : List (Bytes × Quirk)) → IsTyped q → All Entry m → All Entry (insert q.name q m)
unfolding insert
insert-All q [] t h = ((refl, t), tt)
insert-All q ((j, p) ∷ m) t h =
    if_cases (All Entry) (bytes_eq j q.name) _ _ (λ _. ((refl, t), h.1))
      (λ _. (h.0, insert-All q m t h.1))

lookup-All :
    (name : Bytes) (q : Quirk) (m : List (Bytes × Quirk))
    → All Entry m
    → lookup name m ≡ some q
    → (q.name ≡ name) × IsTyped q
unfolding lookup
lookup-All name q [] h e = absurd (cc e)
lookup-All name q ((j, p) ∷ m) h e = elim (Bool-cases (bytes_eq j name)) [
  | inl k ↦
      let same = some-injective p q (rw k at e) in
      subst (λ x. (x.name ≡ name) × IsTyped x) same (h.0.0 ∙ (bytes_eq_iff j name).0 k, h.0.1)
  | inr k ↦ lookup-All name q m h.1 (rw k at e)
]

module _ (canonical : Bytes → Bytes) where
  pub put-AllTyped :
      (quirks : Quirks) (q : Quirk)
      → AllTyped quirks
      → IsTyped q
      → AllTyped (put canonical quirks q)
  unfolding put
  put-AllTyped quirks q h t = insert-All q quirks.by_name t h

  pub prioritize_and_save-AllTyped :
      (quirks : Quirks) (q : Quirk) (w : ℕ)
      → AllTyped quirks
      → IsTyped q
      → AllTyped (prioritize_and_save canonical quirks q w)
  unfolding prioritize_and_save
  prioritize_and_save-AllTyped quirks q w h t =
      if_cases AllTyped
        (wins (lookup q.name quirks.by_name) (weight_of (lookup q.name quirks.weights)) q w) _ _
        (λ _. put-AllTyped quirks q h t) (λ _. h)

  save_matching-AllTyped :
      (quirks : Quirks) (q : Quirk) (r : ℤ)
      → AllTyped quirks
      → IsTyped q
      → AllTyped (save_matching canonical quirks q r)
  save_matching-AllTyped quirks q (pos w) h t = prioritize_and_save-AllTyped quirks q w h t
  save_matching-AllTyped quirks q (negsuc n) h t = h

  pull_hwid_quirk-AllTyped :
      (vid pid : ℕ) (quirks : Quirks) (q : Quirk) (o : Option HwidPattern)
      → AllTyped quirks
      → IsTyped q
      → AllTyped (pull_hwid_quirk canonical vid pid quirks q o)
  pull_hwid_quirk-AllTyped vid pid quirks q none h t = h
  pull_hwid_quirk-AllTyped vid pid quirks q (some p) h t = save_matching-AllTyped quirks q _ h t

  pull_hwid_section-AllTyped :
      (vid pid : ℕ) (section : List (Bytes × Quirk)) (quirks : Quirks)
      → AllTyped quirks
      → All Entry section
      → AllTyped (pull_hwid_section canonical vid pid quirks section)
  unfolding pull_hwid_section
  pull_hwid_section-AllTyped vid pid [] quirks h t = h
  pull_hwid_section-AllTyped vid pid ((name, q) ∷ section) quirks h t =
      pull_hwid_section-AllTyped vid pid section _
        (pull_hwid_quirk-AllTyped vid pid quirks q q.match_hwid h t.0.1) t.1

  pub pull_by_hwid-AllTyped :
      (qdb : List Quirks) (quirks : Quirks) (vid pid : ℕ)
      → AllTyped quirks
      → All AllTyped qdb
      → AllTyped (pull_by_hwid canonical quirks qdb vid pid)
  unfolding pull_by_hwid
  pull_by_hwid-AllTyped [] quirks vid pid h t = h
  pull_by_hwid-AllTyped (section ∷ qdb) quirks vid pid h t =
      pull_by_hwid-AllTyped qdb _ vid pid
        (pull_hwid_section-AllTyped vid pid section.by_name quirks h t.0) t.1

  pull_model_section-AllTyped :
      (model : Bytes) (section : List (Bytes × Quirk)) (quirks : Quirks)
      → AllTyped quirks
      → All Entry section
      → AllTyped (pull_model_section canonical model quirks section)
  unfolding pull_model_section
  pull_model_section-AllTyped model [] quirks h t = h
  pull_model_section-AllTyped model ((name, q) ∷ section) quirks h t =
      pull_model_section-AllTyped model section _
        (if_cases AllTyped (not (is_hwid q)) _ _ (λ _. save_matching-AllTyped quirks q _ h t.0.1)
          (λ _. h))
        t.1

  pub pull_by_model_name-AllTyped :
      (qdb : List Quirks) (quirks : Quirks) (model : Bytes)
      → AllTyped quirks
      → All AllTyped qdb
      → AllTyped (pull_by_model_name canonical quirks qdb model)
  unfolding pull_by_model_name
  pull_by_model_name-AllTyped [] quirks model h t = h
  pull_by_model_name-AllTyped (section ∷ qdb) quirks model h t =
      pull_by_model_name-AllTyped qdb _ model
        (pull_model_section-AllTyped model section.by_name quirks h t.0) t.1

-- The value of a parameter is there, and has its type.
abbrev ValueHas : Kind → Option Parsed → Type 0
ValueHas k none = ⊥
ValueHas k (some p) = HasKind k p

ValueHas-some :
    (k : Kind) (q : Quirk) (o : Option Quirk)
    → o ≡ some q
    → HasKind k q.parsed
    → ValueHas k (value_of o)
ValueHas-some k q o e h = subst (λ x. ValueHas k (value_of x)) (sym e) h

bool_there : (o : Option Parsed) → ValueHas of_bool o → as_bool o ≢ none
bool_there (some (bool b)) h e = cc
bool_there _ h e = absurd h

buggy_rsp_there : (o : Option Parsed) → ValueHas of_buggy_rsp o → as_buggy_rsp o ≢ none
buggy_rsp_there (some (buggy_rsp m)) h e = cc
buggy_rsp_there _ h e = absurd h

duration_there : (o : Option Parsed) → ValueHas of_duration o → as_duration o ≢ none
duration_there (some (duration n)) h e = cc
duration_there _ h e = absurd h

reset_there : (o : Option Parsed) → ValueHas of_reset o → as_reset o ≢ none
reset_there (some (reset m)) h e = cc
reset_there _ h e = absurd h

string_there : (o : Option Parsed) → ValueHas of_string o → as_string o ≢ none
string_there (some (str s)) h e = cc
string_there _ h e = absurd h

uint_there : (o : Option Parsed) → ValueHas of_uint o → as_uint o ≢ none
uint_there (some (uint n)) h e = cc
uint_there _ h e = absurd h

init_timeout_default :
    (text : Bytes → Option ℤ) (n : ℕ)
    → text (codes "5s") ≡ some (pos n)
    → ValueHas of_duration (value_of (quirk_default text (codes "init-timeout")))
unfolding quirk_default
init_timeout_default text n h = ground arith

module _ (text : Bytes → Option ℤ) (quirks : Quirks) (typed : AllTyped quirks) where
  get-ValueHas :
      (name : Bytes) (k : Kind)
      → quirk_parse name ≡ some k
      → ValueHas k (value_of (quirk_default text name))
      → ValueHas k (value_of (get text quirks name))
  unfolding get
  get-ValueHas name k p d = by_lookup (lookup name quirks.by_name) refl
    where
      by_lookup :
          (o : Option Quirk)
          → lookup name quirks.by_name ≡ o
          → ValueHas k (value_of (or_default o (quirk_default text name)))
      by_lookup none e = d
      by_lookup (some q) e =
          let (named, t) = lookup-All name q quirks.by_name typed e in
          subst (λ (o : Option Kind). KindOf o q.parsed) p
            (subst (λ n. KindOf (quirk_parse n) q.parsed) named t)

  -- In a collection of typed quirks, and with the default of the initialization timeout a duration,
  -- no getter panics: each of the sixteen finds a value of its own type.
  pub getters_never_panic :
      (n : ℕ)
      → text (codes "5s") ≡ some (pos n)
      → (get_blacklist text quirks ≢ none)
        × (get_buggy_ipp_rsp text quirks ≢ none)
        × (get_disable_fax text quirks ≢ none)
        × (get_ignore_ipp_status text quirks ≢ none)
        × (get_init_delay text quirks ≢ none)
        × (get_init_retry_partial text quirks ≢ none)
        × (get_init_reset text quirks ≢ none)
        × (get_init_timeout text quirks ≢ none)
        × (get_mfg text quirks ≢ none)
        × (get_model text quirks ≢ none)
        × (get_request_delay text quirks ≢ none)
        × (get_usb_max_interfaces text quirks ≢ none)
        × (get_usb_send_delay_threshold text quirks ≢ none)
        × (get_usb_send_delay text quirks ≢ none)
        × (get_zlp_recv_hack text quirks ≢ none)
        × (get_zlp_send text quirks ≢ none)
  unfolding get_blacklist get_buggy_ipp_rsp get_disable_fax get_ignore_ipp_status get_init_delay
      get_init_retry_partial get_init_reset get_init_timeout get_mfg get_model get_request_delay
      get_usb_max_interfaces get_usb_send_delay_threshold get_usb_send_delay get_zlp_recv_hack
      get_zlp_send quirk_parse quirk_default
  getters_never_panic n h = (
    bool_there _ (get-ValueHas (codes "blacklist") of_bool refl tt),
    buggy_rsp_there _ (get-ValueHas (codes "buggy-ipp-responses") of_buggy_rsp refl tt),
    bool_there _ (get-ValueHas (codes "disable-fax") of_bool refl tt),
    bool_there _ (get-ValueHas (codes "ignore-ipp-status") of_bool refl tt),
    duration_there _ (get-ValueHas (codes "init-delay") of_duration refl tt),
    bool_there _ (get-ValueHas (codes "init-retry-partial") of_bool refl tt),
    reset_there _ (get-ValueHas (codes "init-reset") of_reset refl tt),
    duration_there _
        (get-ValueHas (codes "init-timeout") of_duration refl (init_timeout_default text n h)),
    string_there _ (get-ValueHas (codes "mfg") of_string refl tt),
    string_there _ (get-ValueHas (codes "model") of_string refl tt),
    duration_there _ (get-ValueHas (codes "request-delay") of_duration refl tt),
    uint_there _ (get-ValueHas (codes "usb-max-interfaces") of_uint refl tt),
    uint_there _ (get-ValueHas (codes "usb-send-delay-threshold") of_uint refl tt),
    duration_there _ (get-ValueHas (codes "usb-send-delay") of_duration refl tt),
    bool_there _ (get-ValueHas (codes "zlp-recv-hack") of_bool refl tt),
    bool_there _ (get-ValueHas (codes "zlp-send") of_bool refl tt),
  )
