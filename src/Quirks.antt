-- ===== src/Quirks.antt =====
-- quirks.go: device-specific quirks. Go's maps are association lists here, and the order in which
-- Go walks a map, which is not specified, is the order of the list.
-- Children: Quirks/Parsing (the values of the quirks and their defaults), Quirks/Getters (the
-- effective parameters), Quirks/Files (the quirks files), and the proofs: Quirks/Selection (which
-- of several matching quirks is chosen), Quirks/Typing and Quirks/Loaded (a quirk's value has its
-- type).
pub mod Parsing
pub mod Getters
pub mod Files
pub mod Selection
pub mod Typing
pub mod Loaded
use ipp_usb.Base.{
  ℕ, ◌+◌, Bool, true, false, not, ltb, if◌then◌else◌, Option, none, some, List, [], ◌∷◌, Bytes,
  codes, bytes_eq, has_prefix, drop, ℤ, pos, negsuc, double,
}
use ipp_usb.Base.Dict.{lookup, insert}
use ipp_usb.Glob.{glob_match}
use ipp_usb.Hwid.{HwidPattern, match_hwid}
use ipp_usb.Quirks.Parsing.{Quirk, is_http, is_hwid}

pub record Quirks : Type 0 where
  pub by_name : List (Bytes × Quirk)
  pub weights : List (Bytes × ℕ)
  pub http_headers : List (Bytes × Bytes)

abbrev pub new_quirks : Quirks
new_quirks = record { by_name = []; weights = []; http_headers = [] }

-- A missing weight is 0.
abbrev pub weight_of : Option ℕ → ℕ
weight_of none = 0
weight_of (some w) = w

abbrev pub wins : Option Quirk → ℕ → Quirk → ℕ → Bool
wins none prev_weight q weight = true
wins (some prev) prev_weight q weight =
    if ltb prev_weight weight
    then true
    else if ltb weight prev_weight
    then false
    else ltb prev.load_order q.load_order

-- `canonical` is http.CanonicalHeaderKey.
module _ (canonical : Bytes → Bytes) where
  unfoldable pub put : Quirks → Quirk → Quirks
  unfolding insert
  put quirks q = record quirks {
    by_name = insert q.name q quirks.by_name;
    http_headers =
        if is_http q.name
        then insert (canonical (drop 5 q.name)) q.raw_value quirks.http_headers
        else quirks.http_headers;
  }

  abbrev pub save : Quirks → Quirk → ℕ → Quirks
  save quirks q weight =
      let saved = put quirks q in record saved { weights = insert q.name weight saved.weights }

  unfoldable pub prioritize_and_save : Quirks → Quirk → ℕ → Quirks
  unfolding put lookup
  prioritize_and_save quirks q weight =
      if wins (lookup q.name quirks.by_name) (weight_of (lookup q.name quirks.weights)) q weight
      then save quirks q weight
      else quirks

  -- `if weight >= 0`
  abbrev pub save_matching : Quirks → Quirk → ℤ → Quirks
  save_matching quirks q (pos weight) = prioritize_and_save quirks q weight
  save_matching quirks q (negsuc n) = quirks

  -- The body of the loop of `PullByHWID`.
  abbrev pub pull_hwid_quirk : ℕ → ℕ → Quirks → Quirk → Option HwidPattern → Quirks
  pull_hwid_quirk vid pid quirks q none = quirks
  pull_hwid_quirk vid pid quirks q (some pattern) =
      save_matching quirks q (match_hwid pattern vid pid)

  unfoldable pub pull_hwid_section : ℕ → ℕ → Quirks → List (Bytes × Quirk) → Quirks
  pull_hwid_section vid pid quirks [] = quirks
  pull_hwid_section vid pid quirks ((name, q) ∷ section) =
      pull_hwid_section vid pid (pull_hwid_quirk vid pid quirks q q.match_hwid) section

  unfoldable pub pull_by_hwid : Quirks → List Quirks → ℕ → ℕ → Quirks
  unfolding prioritize_and_save match_hwid pull_hwid_section
  pull_by_hwid quirks [] vid pid = quirks
  pull_by_hwid quirks (section ∷ qdb) vid pid =
      pull_by_hwid (pull_hwid_section vid pid quirks section.by_name) qdb vid pid

  -- The body of the loop of `PullByModelName`.
  abbrev pub pull_model_quirk : Bytes → Quirks → Quirk → Quirks
  pull_model_quirk model quirks q =
      if not (is_hwid q) then save_matching quirks q (double (glob_match model q.match)) else quirks

  unfoldable pub pull_model_section : Bytes → Quirks → List (Bytes × Quirk) → Quirks
  pull_model_section model quirks [] = quirks
  pull_model_section model quirks ((name, q) ∷ section) =
      pull_model_section model (pull_model_quirk model quirks q) section

  unfoldable pub pull_by_model_name : Quirks → List Quirks → Bytes → Quirks
  unfolding prioritize_and_save glob_match pull_model_section
  pull_by_model_name quirks [] model = quirks
  pull_by_model_name quirks (section ∷ qdb) model =
      pull_by_model_name (pull_model_section model quirks section.by_name) qdb model

unfoldable pub is_empty : Quirks → Bool
is_empty quirks = elim (quirks.by_name) [ [] ↦ true | _ ↦ false ]
