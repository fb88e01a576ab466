-- ===== src/Ipp.antt =====
-- ipp.go: the attributes that a printer answers, and how their values are read. `strings.ToLower`
-- is the parameter `lower`. A Go slice that is nil and one that is empty are the same list here, as
-- the code tells them apart nowhere; a `none` of a result is a panic.
-- Children: Ipp/Decoding (the DNS-SD service), Ipp/Query (the queries), and the theorems in
-- Ipp/Languages, Ipp/Requested, Ipp/Keys, Ipp/Returning and Ipp/Advertised.
pub mod Decoding
pub mod Query
pub mod Languages
pub mod Requested
pub mod Keys
pub mod Returning
pub mod Advertised
use ipp_usb.Base.{
  ℕ, ◌+◌, Bool, true, false, if◌then◌else◌, Option, none, some, List, [], ◌∷◌, ◌++◌, Bytes, codes,
  bytes_eq, has_prefix, ℤ,
}
use ipp_usb.Base.Dict.{lookup, insert}
use mathlib.Core.Option

-- A `goipp.Value`, as far as the code looks into it. A collection holds a `C`.
pub data Value (C : Type 0) : Type 0 where
  integer : ℤ → Value C
  boolean : Bool → Value C
  string : Bytes → Value C
  text_with_lang : Bytes → Bytes → Value C
  range : ℤ → ℤ → Value C
  collection : C → Value C
  other : Value C

-- The attributes in a collection. A collection in a collection is not looked into.
abbrev pub Members : Type 0
Members = List (Bytes × List (Value Unit))

abbrev pub Values : Type 0
Values = List (Value Members)

abbrev pub Attributes : Type 0
Attributes = List (Bytes × Values)

-- `IppPrinterInfo`
pub record IppPrinterInfo : Type 0 where
  pub dns_sd_name : Bytes
  pub uuid : Bytes
  pub admin_url : Bytes
  pub icon_url : Bytes
  pub ipp_svc_index : ℕ

-- `newIppAttrs`: the map, filled from the end of the list to its beginning.
unfoldable pub new_ipp_attrs : Attributes → Attributes
new_ipp_attrs [] = []
new_ipp_attrs ((name, values) ∷ input) = insert name values (new_ipp_attrs input)

-- `attrs[name]`, which is nil where there is no such attribute.
abbrev pub or_nil {ℓ} : {A : Type ℓ} → Option (List A) → List A
or_nil none = []
or_nil (some values) = values

-- The strings of an attribute, by their language.
pub record Strings : Type 0 where
  pub langs_in_order : List Bytes
  pub strings_by_lang : List (Bytes × List Bytes)
  pub strings_without_lang : List Bytes

abbrev pub add_text : Strings → Bytes → Bytes → Option (List Bytes) → Strings
add_text s lang text none = record s {
  langs_in_order = s.langs_in_order ++ lang ∷ [];
  strings_by_lang = insert lang (text ∷ []) s.strings_by_lang;
}
add_text s lang text (some strings) = record s {
  strings_by_lang = insert lang (strings ++ text ∷ []) s.strings_by_lang;
}

-- The first language that passes a test.
unfoldable pub first_lang : (Bytes → Bool) → List Bytes → Option Bytes
first_lang test [] = none
first_lang test (lang ∷ langs) =
    let rest = first_lang test langs in if test lang then some lang else rest

-- The strings in the most appropriate language, once there are two languages.
abbrev pub fall_back : Strings → Bytes → Option Bytes → List Bytes
fall_back s lang none = or_nil (lookup lang s.strings_by_lang)
fall_back s lang (some english) = or_nil (lookup english s.strings_by_lang)

abbrev pub try_en_us : Strings → Bytes → Option (List Bytes) → List Bytes
try_en_us s lang (some strings) = strings
try_en_us s lang none =
    fall_back s lang (first_lang (λ l. has_prefix l (codes "en")) s.langs_in_order)

abbrev pub try_en : Strings → Bytes → Option (List Bytes) → List Bytes
try_en s lang (some strings) = strings
try_en s lang none = try_en_us s lang (lookup (codes "en-us") s.strings_by_lang)

abbrev pub in_language : Strings → List Bytes → List Bytes
in_language s [] = []
in_language s (lang ∷ []) = or_nil (lookup lang s.strings_by_lang)
in_language s (lang ∷ lang' ∷ langs) = try_en s lang (lookup (codes "en") s.strings_by_lang)

abbrev pub choose : Strings → List Bytes → List Bytes
choose s [] = in_language s s.langs_in_order
choose s (text ∷ texts) = text ∷ texts

abbrev pub single : List Bytes → Bytes
single [] = []
single (s ∷ strs) = s

-- strings.Join(strs, ",")
unfoldable pub join : List Bytes → Bytes
join [] = []
join (s ∷ []) = s
join (s ∷ s' ∷ strs) = s ++ b',' ∷ join (s' ∷ strs)

abbrev pub in_brackets : Bytes → Bytes
in_brackets [] = []
in_brackets (c ∷ s) = b'(' ∷ (c ∷ s) ++ b')' ∷ []

-- The values of a type, with what they hold: `cast` is the type's assertion.
unfoldable pub of_type {ℓ} : {A : Type ℓ} → (Value Members → Option A) → Values → List A
of_type cast [] = []
of_type cast (v ∷ values) = elim (cast v) [
  | none ↦ of_type cast values
  | some a ↦ a ∷ of_type cast values
]

abbrev pub if_first {ℓ} : {A : Type ℓ} → (Value Members → Option A) → Values → Option A → List A
if_first cast values none = []
if_first cast values (some a) = of_type cast values

abbrev pub checked {ℓ} : {A : Type ℓ} → (Value Members → Option A) → Option Values → Option (List A)
checked cast none = some []
checked cast (some []) = none
checked cast (some (v ∷ values)) = some (if_first cast (v ∷ values) (cast v))

abbrev pub as_string : Value Members → Option Bytes
as_string (string s) = some s
as_string _ = none

abbrev pub as_boolean : Value Members → Option Bool
as_boolean (boolean b) = some b
as_boolean _ = none

abbrev pub as_collection : Value Members → Option Members
as_collection (collection c) = some c
as_collection _ = none

abbrev pub flag : Bool → Bytes
flag true = codes "T"
flag false = codes "F"

abbrev pub first_flag : List Bool → Bytes
first_flag [] = []
first_flag (b ∷ vals) = flag b

-- `getAttr`; a panic where the attribute has no value.
unfoldable pub get_attr {ℓ} :
    {A : Type ℓ} → (Value Members → Option A) → Bytes → Attributes → Option (List A)
unfolding of_type lookup
get_attr cast name attrs = checked cast (lookup name attrs)

-- `getBool`
unfoldable pub get_bool : Bytes → Attributes → Option Bytes
unfolding get_attr
get_bool name attrs = Option.map first_flag (get_attr as_boolean name attrs)

module _ (lower : Bytes → Bytes) where
  -- One value of an attribute, and all of them.
  abbrev pub add_value : Strings → Value Members → Strings
  add_value s (string text) = record s {
    strings_without_lang = s.strings_without_lang ++ text ∷ [];
  }
  add_value s (text_with_lang lang text) =
      add_text s (lower lang) text (lookup (lower lang) s.strings_by_lang)
  add_value s _ = s

  unfoldable pub add_values : Strings → Values → Strings
  add_values s [] = s
  add_values s (v ∷ vals) = add_values (add_value s v) vals

  abbrev pub strings_of : Values → List Bytes
  strings_of vals =
      let s =
        add_values (record { langs_in_order = []; strings_by_lang = []; strings_without_lang = [] })
          vals in
      choose s s.strings_without_lang

  -- `getStrings`, `strSingle`, `strJoined` and `strBrackets`
  unfoldable pub get_strings : Bytes → Attributes → List Bytes
  unfolding add_values first_lang lookup insert has_prefix
  get_strings name attrs = strings_of (or_nil (lookup name attrs))

  unfoldable pub str_single : Bytes → Attributes → Bytes
  unfolding get_strings
  str_single name attrs = single (get_strings name attrs)

  unfoldable pub str_joined : Bytes → Attributes → Bytes
  unfolding get_strings join
  str_joined name attrs = join (get_strings name attrs)

  unfoldable pub str_brackets : Bytes → Attributes → Bytes
  unfolding str_single
  str_brackets name attrs = in_brackets (str_single name attrs)
