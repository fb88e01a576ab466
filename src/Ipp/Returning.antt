-- ===== src/Ipp/Returning.antt =====
-- ipp.go returns for attributes that have values: `getAttr` looks at the first one.
use ipp_usb.Base.{
  Bool, not, ◌&&◌, leb, ◌==◌, ◌/◌, if_cases, Option, none, some, [], ◌∷◌, Bytes, codes, bytes_eq,
  All,
}
use ipp_usb.Base.Dict.{lookup}
use mathlib.Core.Option
use ipp_usb.Quirks.Parsing.{BuggyIppRsp}
use ipp_usb.Ipp.{
  Value, Members, Values, Attributes, new_ipp_attrs, checked, get_attr, as_boolean, as_string,
  as_collection, get_bool,
}
use ipp_usb.Ipp.Decoding.{all_features, features, get_duplex, get_paper_max}
use ipp_usb.Ipp.Query.{
  Posted, post_error, response, Message, Queried, received, failed, check_code, check_body,
  check_response, operation, get_printer_attributes, ipp_error, http_status_error,
}
use ipp_usb.Ipp.Requested.{lookup-new_ipp_attrs}

-- An attribute with values.
abbrev NotNil : Values → Type 0
NotNil [] = ⊥
NotNil (v ∷ values) = Unit

abbrev FoundNotNil : Option Values → Type 0
FoundNotNil none = Unit
FoundNotNil (some values) = NotNil values

-- Each attribute has a value, as in any message that goipp decodes.
abbrev pub HaveValues : Attributes → Type 0
HaveValues input = All (λ attr. NotNil attr.1) input

lookup-FoundNotNil :
    (name : Bytes) (input : Attributes) → HaveValues input → FoundNotNil (lookup name input)
unfolding lookup
lookup-FoundNotNil name [] h = tt
lookup-FoundNotNil name ((n, values) ∷ input) (v, h) =
    if_cases FoundNotNil (bytes_eq n name) (some values) (lookup name input) (λ e. v)
      (λ e. lookup-FoundNotNil name input h)

abbrev pub IsSome {ℓ} : {A : Type ℓ} → Option A → Type 0
IsSome none = ⊥
IsSome (some a) = Unit

checked-IsSome :
    {A : Type 0} (cast : Value Members → Option A) (o : Option Values)
    → FoundNotNil o
    → IsSome (checked cast o)
checked-IsSome cast none h = tt
checked-IsSome cast (some []) h = h
checked-IsSome cast (some (v ∷ values)) h = tt

map-IsSome : {A B : Type 0} (f : A → B) (o : Option A) → IsSome o → IsSome (Option.map f o)
map-IsSome f none h = h
map-IsSome f (some a) h = tt

all-IsSome : (o p q : Option Bytes) → IsSome o → IsSome p → IsSome q → IsSome (all_features o p q)
all-IsSome none p q h k l = h
all-IsSome (some a) none q h k l = k
all-IsSome (some a) (some b) none h k l = l
all-IsSome (some a) (some b) (some c) h k l = tt

module _ (input : Attributes) (h : HaveValues input) where
  get_attr-IsSome :
      {A : Type 0} (cast : Value Members → Option A) (name : Bytes)
      → IsSome (get_attr cast name (new_ipp_attrs input))
  unfolding get_attr
  get_attr-IsSome cast name =
      checked-IsSome cast _ (rw (lookup-new_ipp_attrs name input) (lookup-FoundNotNil name input h))

  pub features-IsSome : IsSome (features (new_ipp_attrs input))
  unfolding features get_paper_max get_bool get_duplex
  features-IsSome =
      all-IsSome _ _ _
        (map-IsSome _ _ (get_attr-IsSome as_collection (codes "media-size-supported")))
        (map-IsSome _ _ (get_attr-IsSome as_boolean (codes "color-supported")))
        (map-IsSome _ _ (get_attr-IsSome as_string (codes "sides-supported")))

-- goipp's decoder answers an error or a message whose attributes have values.
abbrev pub DecodedValues : Option Message → Type 0
DecodedValues none = Unit
DecodedValues (some msg) = HaveValues msg.printer

abbrev pub ReceivedValues : Queried → Type 0
ReceivedValues (received msg) = HaveValues msg.printer
ReceivedValues (failed e http_status) = Unit

check_code-ReceivedValues :
    (ignore : Bool) (o : Option Message) → DecodedValues o → ReceivedValues (check_code ignore o)
check_code-ReceivedValues ignore none d = tt
check_code-ReceivedValues ignore (some msg) d =
    if_cases ReceivedValues (leb 0x100 msg.code && not ignore) (failed (ipp_error msg.code) 0)
      (received msg) (λ e. tt) (λ e. d)

module _ (post : Bytes → Attributes → Posted) (decode_bytes : Bool → Bytes → Option Message)
    (log_all : Bool) (buggy : BuggyIppRsp) (ignore : Bool)
    (decoded : (workarounds : Bool) (text : Bytes)
      → DecodedValues (decode_bytes workarounds text)) where
  check_body-ReceivedValues :
      (body : Option Bytes)
      → ReceivedValues (check_body post decode_bytes log_all buggy ignore body)
  check_body-ReceivedValues none = tt
  check_body-ReceivedValues (some text) = check_code-ReceivedValues ignore _ (decoded _ text)

  check_response-ReceivedValues :
      (posted : Posted)
      → ReceivedValues (check_response post decode_bytes log_all buggy ignore posted)
  check_response-ReceivedValues (post_error eof) = tt
  check_response-ReceivedValues (response http_status body) =
      if_cases ReceivedValues (not (http_status / 100 == 2)) (failed http_status_error http_status)
        (check_body post decode_bytes log_all buggy ignore body) (λ e. tt)
        (λ e. check_body-ReceivedValues body)

  pub get_printer_attributes-ReceivedValues :
      (uri : Bytes)
      → ReceivedValues (get_printer_attributes post decode_bytes log_all buggy ignore uri)
  unfolding get_printer_attributes
  get_printer_attributes-ReceivedValues uri =
      check_response-ReceivedValues (post uri (operation log_all uri))
