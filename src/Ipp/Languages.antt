-- ===== src/Ipp/Languages.antt =====
-- The strings that `getStrings` chooses: those without a language, or those of one language.
use ipp_usb.Base.{
  ◌≡◌, inl, inr, refl, sym, ap, ap₂, ◌∙◌, Bool, true, false, Bool-cases, if◌then◌else◌, Option,
  none, some, List, [], ◌∷◌, ◌++◌, append-nil, append_assoc, Bytes, codes, bytes_eq, bytes_eq_iff,
  has_prefix, arith,
}
use ipp_usb.Base.Dict.{lookup, insert, lookup-insert}
use ipp_usb.Ipp.{
  integer, boolean, string, text_with_lang, range, collection, other, Values, Attributes, or_nil,
  Strings, add_text, first_lang, fall_back, try_en_us, try_en, in_language, choose, add_value,
  add_values, get_strings,
}

-- The strings without a language.
abbrev pub plain_texts : Values → List Bytes
plain_texts [] = []
plain_texts (string s ∷ vals) = s ∷ plain_texts vals
plain_texts (_ ∷ vals) = plain_texts vals

module _ (lower : Bytes → Bytes) where
  -- The languages of the values, one for each text.
  abbrev pub langs_of : Values → List Bytes
  langs_of [] = []
  langs_of (text_with_lang lang text ∷ vals) = lower lang ∷ langs_of vals
  langs_of (_ ∷ vals) = langs_of vals

  -- The texts in a language.
  abbrev pub texts_in : Bytes → Values → List Bytes
  texts_in l [] = []
  texts_in l (text_with_lang lang text ∷ vals) =
      let rest = texts_in l vals in if bytes_eq (lower lang) l then text ∷ rest else rest
  texts_in l (_ ∷ vals) = texts_in l vals

-- The first of two answers.
abbrev pub or_then : Option Bytes → Option Bytes → Option Bytes
or_then none o = o
or_then (some l) o = some l

-- The language that is preferred: "en", else "en-us", else the first one that begins with "en", else
-- the first one.
unfoldable pub preferred : List Bytes → Option Bytes
unfolding first_lang bytes_eq has_prefix
preferred langs = or_then (first_lang (λ l. bytes_eq l (codes "en")) langs) (
    or_then (first_lang (λ l. bytes_eq l (codes "en-us")) langs)
      (or_then (first_lang (λ l. has_prefix l (codes "en")) langs) (first_lang (λ l. true) langs)))

abbrev pub chosen : (Bytes → Bytes) → Values → List Bytes → List Bytes
chosen lower vals (text ∷ texts) = text ∷ texts
chosen lower vals [] = elim (preferred (langs_of lower vals)) [
  | none ↦ []
  | some l ↦ texts_in lower l vals
]

-- A language is in the order exactly if it has texts, and these are those in the map.
abbrev known : Bytes → Option (List Bytes) → Option Bytes
known l none = none
known l (some texts) = some l

abbrev Agrees : Strings → Type 0
Agrees s =
    (l : Bytes)
    → first_lang (λ k. bytes_eq k l) s.langs_in_order ≡ known l (lookup l s.strings_by_lang)

first_lang-append :
    (test : Bytes → Bool) (ls ms : List Bytes)
    → first_lang test (ls ++ ms) ≡ or_then (first_lang test ls) (first_lang test ms)
unfolding first_lang
first_lang-append test [] ms = refl
first_lang-append test (l ∷ ls) ms = elim (Bool-cases (test l)) [
  | inl e ↦ rw e refl
  | inr e ↦ rw e (first_lang-append test ls ms)
]

or_then_assoc : (a b c : Option Bytes) → or_then (or_then a b) c ≡ or_then a (or_then b c)
or_then_assoc none b c = refl
or_then_assoc (some l) b c = refl

or_then-none : (o : Option Bytes) → or_then o none ≡ o
or_then-none none = refl
or_then-none (some l) = refl

first_lang_failing :
    (test : Bytes → Bool) (l : Bytes) (ls : List Bytes)
    → test l ≡ false
    → first_lang test (ls ++ l ∷ []) ≡ first_lang test ls
unfolding first_lang
first_lang_failing test l ls e =
    first_lang-append test ls (l ∷ [])
    ∙ ap (λ o. or_then (first_lang test ls) o) (rw e refl)
    ∙ or_then-none (first_lang test ls)

-- A language that is there already adds nothing to the first one that passes a test.
first_lang_known :
    (test : Bytes → Bool) (l : Bytes) (ls : List Bytes)
    → first_lang (λ k. bytes_eq k l) ls ≡ some l
    → first_lang test (ls ++ l ∷ []) ≡ first_lang test ls
unfolding first_lang
first_lang_known test l [] h = absurd (ground (arith, h))
first_lang_known test l (k ∷ ls) h = elim (Bool-cases (test k)) [
  | inl e ↦ rw e refl
  | inr e ↦ elim (Bool-cases (bytes_eq k l)) [
    | inl d ↦ rw e (first_lang_failing test l ls (ap test (sym ((bytes_eq_iff k l).0 d)) ∙ e))
    | inr d ↦ rw e (first_lang_known test l ls (ground (arith, h, d)))
  ]
]

found :
    (k j : Bytes) (v : List Bytes) (m : List (Bytes × List Bytes)) (b : Bool)
    → bytes_eq k j ≡ b
    → lookup j (insert k v m) ≡ (if b then some v else lookup j m)
found k j v m b d = lookup-insert k j v m ∙ ap (λ c. if c then some v else lookup j m) d

lookup-same :
    (k l : Bytes) (m : List (Bytes × List Bytes)) → bytes_eq k l ≡ true → lookup l m ≡ lookup k m
lookup-same k l m d = ap (λ j. lookup j m) (sym ((bytes_eq_iff k l).0 d))

-- A new language.
Agrees-append :
    (s : Strings) (lang : Bytes) (texts : List Bytes)
    → Agrees s
    → lookup lang s.strings_by_lang ≡ none
    → Agrees (record s {
      langs_in_order = s.langs_in_order ++ lang ∷ [];
      strings_by_lang = insert lang texts s.strings_by_lang;
    })
unfolding first_lang
Agrees-append s lang texts a e l = elim (Bool-cases (bytes_eq lang l)) [
  | inl d ↦
      first_lang-append (λ k. bytes_eq k l) s.langs_in_order (lang ∷ [])
      ∙ ap₂ or_then (a l ∙ ap (known l) (lookup-same lang l s.strings_by_lang d ∙ e)) (rw d refl)
      ∙ ap some ((bytes_eq_iff lang l).0 d)
      ∙ ap (known l) (sym (found lang l texts s.strings_by_lang true d))
  | inr d ↦
      first_lang_failing (λ k. bytes_eq k l) lang s.langs_in_order d
      ∙ a l
      ∙ ap (known l) (sym (found lang l texts s.strings_by_lang false d))
]

-- More texts in a language that is known.
Agrees-insert :
    (s : Strings) (lang : Bytes) (texts texts' : List Bytes)
    → Agrees s
    → lookup lang s.strings_by_lang ≡ some texts
    → Agrees (record s { strings_by_lang = insert lang texts' s.strings_by_lang })
Agrees-insert s lang texts texts' a e l = elim (Bool-cases (bytes_eq lang l)) [
  | inl d ↦
      a l
      ∙ ap (known l) (lookup-same lang l s.strings_by_lang d ∙ e)
      ∙ ap (known l) (sym (found lang l texts' s.strings_by_lang true d))
  | inr d ↦ a l ∙ ap (known l) (sym (found lang l texts' s.strings_by_lang false d))
]

-- The texts of each language afterwards.
texts-insert :
    (m : List (Bytes × List Bytes)) (lang text l : Bytes)
    → or_nil (lookup l (insert lang (or_nil (lookup lang m) ++ text ∷ []) m))
      ≡ or_nil (lookup l m) ++ (if bytes_eq lang l then text ∷ [] else [])
texts-insert m lang text l = elim (Bool-cases (bytes_eq lang l)) [
  | inl d ↦
      ap or_nil (found lang l (or_nil (lookup lang m) ++ text ∷ []) m true d)
      ∙ ap (λ o. or_nil o ++ text ∷ []) (sym (lookup-same lang l m d))
      ∙ rw d refl
  | inr d ↦
      ap or_nil (found lang l (or_nil (lookup lang m) ++ text ∷ []) m false d)
      ∙ rw d (sym (append-nil (or_nil (lookup l m))))
]

or_then-if :
    (b : Bool) (l : Bytes) (o : Option Bytes)
    → or_then (if b then some l else none) o ≡ (if b then some l else o)
or_then-if true l o = refl
or_then-if false l o = refl

if-append :
    (b : Bool) (text : Bytes) (texts : List Bytes)
    → (if b then text ∷ [] else []) ++ texts ≡ (if b then text ∷ texts else texts)
if-append true text texts = refl
if-append false text texts = refl

module _ (lower : Bytes → Bytes) where
  -- The state of the loop over `vals`, from a state `s`.
  abbrev Added : Strings → Values → Strings → Type 0
  Added s vals s' =
      (s'.strings_without_lang ≡ s.strings_without_lang ++ plain_texts vals)
      × Agrees s'
      × ((test : Bytes → Bool)
          → first_lang test s'.langs_in_order
            ≡ or_then (first_lang test s.langs_in_order) (first_lang test (langs_of lower vals)))
      × ((l : Bytes)
          → or_nil (lookup l s'.strings_by_lang)
            ≡ or_nil (lookup l s.strings_by_lang) ++ texts_in lower l vals)

  -- One text in a language.
  abbrev TextAdded : Strings → Bytes → Bytes → Strings → Type 0
  TextAdded s lang text s' =
      (s'.strings_without_lang ≡ s.strings_without_lang)
      × Agrees s'
      × ((test : Bytes → Bool)
          → first_lang test s'.langs_in_order ≡ first_lang test (s.langs_in_order ++ lang ∷ []))
      × ((l : Bytes)
          → or_nil (lookup l s'.strings_by_lang)
            ≡ or_nil (lookup l s.strings_by_lang) ++ (if bytes_eq lang l then text ∷ [] else []))

  add_text-TextAdded :
      (s : Strings) (lang text : Bytes)
      → Agrees s
      → TextAdded s lang text (add_text s lang text (lookup lang s.strings_by_lang))
  add_text-TextAdded s lang text a = by_found (lookup lang s.strings_by_lang) refl
    where
      texts :
          (o : Option (List Bytes))
          → lookup lang s.strings_by_lang ≡ o
          → (l : Bytes)
          → or_nil (lookup l (insert lang (or_nil o ++ text ∷ []) s.strings_by_lang))
            ≡ or_nil (lookup l s.strings_by_lang) ++ (if bytes_eq lang l then text ∷ [] else [])
      texts o e l =
          ap (λ o. or_nil (lookup l (insert lang (or_nil o ++ text ∷ []) s.strings_by_lang)))
            (sym e)
          ∙ texts-insert s.strings_by_lang lang text l

      by_found :
          (o : Option (List Bytes))
          → lookup lang s.strings_by_lang ≡ o
          → TextAdded s lang text (add_text s lang text o)
      by_found none e = (refl, Agrees-append s lang (text ∷ []) a e, (λ test. refl), texts none e)
      by_found (some old) e = (
        refl,
        Agrees-insert s lang old (old ++ text ∷ []) a e,
        (λ test. sym (first_lang_known test lang s.langs_in_order (a lang ∙ ap (known lang) e))),
        texts (some old) e,
      )

  add_values-Added :
      (s : Strings) (vals : Values) → Agrees s → Added s vals (add_values lower s vals)
  unfolding add_values first_lang
  add_values-Added s [] a =
      (sym (append-nil _), a, (λ test. sym (or_then-none _)), (λ l. sym (append-nil _)))
  add_values-Added s (string text ∷ vals) a =
      let h = add_values-Added (add_value lower s (string text)) vals a in
      (h.0 ∙ append_assoc s.strings_without_lang (text ∷ []) (plain_texts vals), h.1, h.2, h.3)
  add_values-Added s (text_with_lang lang text ∷ vals) a =
      let t = add_text-TextAdded s (lower lang) text a in
      let h = add_values-Added (add_value lower s (text_with_lang lang text)) vals t.1 in
      (
        h.0 ∙ ap (λ texts. texts ++ plain_texts vals) t.0,
        h.1,
        (λ test.
            h.2 test
            ∙ ap (λ o. or_then o (first_lang test (langs_of lower vals)))
                (t.2 test ∙ first_lang-append test s.langs_in_order (lower lang ∷ []))
            ∙ or_then_assoc (first_lang test s.langs_in_order) _ _
            ∙ ap (or_then (first_lang test s.langs_in_order))
                (or_then-if (test (lower lang)) (lower lang) _)),
        (λ l.
            h.3 l
            ∙ ap (λ texts. texts ++ texts_in lower l vals) (t.3 l)
            ∙ append_assoc (or_nil (lookup l s.strings_by_lang)) _ _
            ∙ ap (λ texts. or_nil (lookup l s.strings_by_lang) ++ texts)
                (if-append (bytes_eq (lower lang) l) text _)),
      )
  add_values-Added s (integer n ∷ vals) a = add_values-Added s vals a
  add_values-Added s (boolean b ∷ vals) a = add_values-Added s vals a
  add_values-Added s (range l u ∷ vals) a = add_values-Added s vals a
  add_values-Added s (collection c ∷ vals) a = add_values-Added s vals a
  add_values-Added s (other ∷ vals) a = add_values-Added s vals a

-- The texts of a language, if there is one.
abbrev texts_at : Strings → Option Bytes → List Bytes
texts_at s none = []
texts_at s (some l) = or_nil (lookup l s.strings_by_lang)

preferred_single : (l : Bytes) → preferred (l ∷ []) ≡ some l
unfolding preferred
preferred_single l =
    by_tests (bytes_eq l (codes "en")) (bytes_eq l (codes "en-us")) (has_prefix l (codes "en"))
  where
    by_tests :
        (b c d : Bool)
        → or_then
            (if b then some l else none)
            (or_then (if c then some l else none) (or_then (if d then some l else none) (some l)))
          ≡ some l
    by_tests true c d = refl
    by_tests false true d = refl
    by_tests false false true = refl
    by_tests false false false = refl

module _ (s : Strings) (l : Bytes) where
  fall_back_lem : (o p : Option Bytes) → p ≡ some l → fall_back s l o ≡ texts_at s (or_then o p)
  fall_back_lem none p h = rw h refl
  fall_back_lem (some english) p h = refl

  try_en_us_lem :
      (o : Option (List Bytes)) (p : Option Bytes)
      → lookup (codes "en-us") s.strings_by_lang ≡ o
      → first_lang (λ k. true) s.langs_in_order ≡ some l
      → try_en_us s l o
        ≡ texts_at s (
            or_then (known (codes "en-us") o) (
              or_then
                (first_lang (λ k. has_prefix k (codes "en")) s.langs_in_order)
                (first_lang (λ k. true) s.langs_in_order)))
  try_en_us_lem none p e h = fall_back_lem _ _ h
  try_en_us_lem (some texts) p e h = ap or_nil (sym e)

in_language_lem :
    (s : Strings)
    → Agrees s
    → in_language s s.langs_in_order ≡ texts_at s (preferred s.langs_in_order)
unfolding preferred first_lang
in_language_lem s a = by_order s.langs_in_order refl
  where
    by_en :
        (l : Bytes) (o : Option (List Bytes))
        → lookup (codes "en") s.strings_by_lang ≡ o
        → first_lang (λ k. true) s.langs_in_order ≡ some l
        → try_en s l o
          ≡ texts_at s (
              or_then (known (codes "en") o) (
                or_then (first_lang (λ k. bytes_eq k (codes "en-us")) s.langs_in_order) (
                  or_then
                    (first_lang (λ k. has_prefix k (codes "en")) s.langs_in_order)
                    (first_lang (λ k. true) s.langs_in_order))))
    by_en l (some texts) e h = ap or_nil (sym e)
    by_en l none e h = rw (a (codes "en-us")) (try_en_us_lem s l _ none refl h)

    by_order :
        (langs : List Bytes)
        → s.langs_in_order ≡ langs
        → in_language s langs ≡ texts_at s (preferred s.langs_in_order)
    by_order [] e = rw e refl
    by_order (l ∷ []) e =
        ap (texts_at s) (sym (preferred_single l)) ∙ ap (λ ls. texts_at s (preferred ls)) (sym e)
    by_order (l ∷ l' ∷ langs) e =
        rw (a (codes "en")) (by_en l _ refl (ap (first_lang (λ k. true)) e))

-- `preferred` looks at the first languages only.
preferred_cong :
    (ls ms : List Bytes)
    → ((test : Bytes → Bool) → first_lang test ls ≡ first_lang test ms)
    → preferred ls ≡ preferred ms
unfolding preferred
preferred_cong ls ms h = ap₂ or_then (h _) (ap₂ or_then (h _) (ap₂ or_then (h _) (h (λ k. true))))

module _ (lower : Bytes → Bytes) where
  choose-chosen :
      (s : Strings) (vals : Values)
      → Added lower
          (record { langs_in_order = []; strings_by_lang = []; strings_without_lang = [] })
          vals
          s
      → choose s s.strings_without_lang ≡ chosen lower vals (plain_texts vals)
  unfolding first_lang lookup
  choose-chosen s vals (texts, a, langs, by_lang) = rw texts (by_plain (plain_texts vals))
    where
      by_preferred :
          (o : Option Bytes) → texts_at s o ≡ elim o [ none ↦ [] | some l ↦ texts_in lower l vals ]
      by_preferred none = refl
      by_preferred (some l) = by_lang l

      by_plain : (texts : List Bytes) → choose s texts ≡ chosen lower vals texts
      by_plain (text ∷ texts) = refl
      by_plain [] =
          in_language_lem s a
          ∙ ap (texts_at s) (preferred_cong s.langs_in_order (langs_of lower vals) langs)
          ∙ by_preferred (preferred (langs_of lower vals))

  -- `getStrings` returns the strings of the attribute's values that have no language, if there are
  -- some; else, in order, all texts of one language, that of the first "en", else of the first
  -- "en-us", else of the first language that begins with "en", else of the first language.
  -- Languages are compared by what `lower` makes of them. Without any text the answer is empty.
  pub get_strings-chosen :
      (name : Bytes) (attrs : Attributes)
      → get_strings lower name attrs
        ≡ chosen lower (or_nil (lookup name attrs)) (plain_texts (or_nil (lookup name attrs)))
  unfolding get_strings first_lang lookup
  get_strings-chosen name attrs =
      let vals : Values = or_nil (lookup name attrs) in
      choose-chosen _ vals (
        add_values-Added lower
          (record { langs_in_order = []; strings_by_lang = []; strings_without_lang = [] }) vals
          (λ l. refl))
