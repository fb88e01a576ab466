-- ===== src/Quirks/Selection.antt =====
-- Which of several matching quirks is chosen (quirks.go, `prioritizeAndSave` and its callers).
-- Child: Quirks/Selection/Saving (what a name's slot holds once quirks were saved in turn).
pub mod Saving
use ipp_usb.Base.{
  ℕ, ◌≤◌, ◌<◌, ◌≡◌, ◌≢◌, ◌⊎◌, inl, inr, refl, sym, ap, subst, ◌∙◌, Bool, true, false, not,
  Bool-cases, if◌then◌else◌, Option, none, some, List, [], ◌∷◌, ◌++◌, Bytes, bytes_eq, bytes_eq_iff,
  bytes_eq_refl, All, Occurs, ℤ, pos, negsuc, double, arith,
}
use mathlib.Core.Option.{some-injective}
use ipp_usb.Base.Dict.{lookup, lookup-insert}
use ipp_usb.Glob.{glob_match}
use ipp_usb.Hwid.{HwidPattern, match_hwid}
use ipp_usb.Quirks.Parsing.{Quirk, is_hwid}
use ipp_usb.Quirks.{
  Quirks, new_quirks, put, save, weight_of, wins, prioritize_and_save, save_matching,
  pull_hwid_quirk, pull_hwid_section, pull_by_hwid, pull_model_section, pull_by_model_name,
}
use ipp_usb.Quirks.Selection.Saving.{
  Weighted, slot, Best, From, From-Best, save_all, save_all-From, save_all-append,
}

-- The quirks that `PullByHWID` finds to match, with their weights, in the order of the data base.
abbrev pub weighed : Quirk → ℤ → List Weighted
weighed q (pos w) = (q, w) ∷ []
weighed q (negsuc n) = []

abbrev pub hwid_weighed : ℕ → ℕ → Quirk → Option HwidPattern → List Weighted
hwid_weighed vid pid q none = []
hwid_weighed vid pid q (some pattern) = weighed q (match_hwid pattern vid pid)

abbrev pub hwid_section : ℕ → ℕ → List (Bytes × Quirk) → List Weighted
hwid_section vid pid [] = []
hwid_section vid pid ((name, q) ∷ section) =
    hwid_weighed vid pid q q.match_hwid ++ hwid_section vid pid section

abbrev pub hwid_matching : ℕ → ℕ → List Quirks → List Weighted
hwid_matching vid pid [] = []
hwid_matching vid pid (section ∷ qdb) =
    hwid_section vid pid section.by_name ++ hwid_matching vid pid qdb

-- The quirks that `PullByModelName` finds to match, with their weights.
abbrev pub model_weighed : Bytes → Quirk → List Weighted
model_weighed model q =
    if not (is_hwid q) then weighed q (double (glob_match model q.match)) else []

abbrev pub model_section : Bytes → List (Bytes × Quirk) → List Weighted
model_section model [] = []
model_section model ((name, q) ∷ section) = model_weighed model q ++ model_section model section

abbrev pub model_matching : Bytes → List Quirks → List Weighted
model_matching model [] = []
model_matching model (section ∷ qdb) =
    model_section model section.by_name ++ model_matching model qdb

module _ (canonical : Bytes → Bytes) where
  save_matching-weighed :
      (quirks : Quirks) (q : Quirk) (r : ℤ)
      → save_matching canonical quirks q r ≡ save_all canonical quirks (weighed q r)
  unfolding save_all
  save_matching-weighed quirks q (pos w) = refl
  save_matching-weighed quirks q (negsuc n) = refl

  pull_hwid_quirk-save_all :
      (vid pid : ℕ) (quirks : Quirks) (q : Quirk) (o : Option HwidPattern)
      → pull_hwid_quirk canonical vid pid quirks q o
        ≡ save_all canonical quirks (hwid_weighed vid pid q o)
  unfolding save_all
  pull_hwid_quirk-save_all vid pid quirks q none = refl
  pull_hwid_quirk-save_all vid pid quirks q (some p) = save_matching-weighed quirks q _

  pull_hwid_section-save_all :
      (vid pid : ℕ) (section : List (Bytes × Quirk)) (quirks : Quirks)
      → pull_hwid_section canonical vid pid quirks section
        ≡ save_all canonical quirks (hwid_section vid pid section)
  unfolding pull_hwid_section
  pull_hwid_section-save_all vid pid [] quirks = unfold save_all in refl
  pull_hwid_section-save_all vid pid ((name, q) ∷ section) quirks =
      pull_hwid_section-save_all vid pid section _
      ∙ ap (λ x. save_all canonical x (hwid_section vid pid section))
          (pull_hwid_quirk-save_all vid pid quirks q q.match_hwid)
      ∙ sym (save_all-append canonical quirks (hwid_weighed vid pid q q.match_hwid) _)

  pull_by_hwid-save_all :
      (qdb : List Quirks) (quirks : Quirks) (vid pid : ℕ)
      → pull_by_hwid canonical quirks qdb vid pid
        ≡ save_all canonical quirks (hwid_matching vid pid qdb)
  unfolding pull_by_hwid
  pull_by_hwid-save_all [] quirks vid pid = unfold save_all in refl
  pull_by_hwid-save_all (section ∷ qdb) quirks vid pid =
      pull_by_hwid-save_all qdb _ vid pid
      ∙ ap (λ x. save_all canonical x (hwid_matching vid pid qdb))
          (pull_hwid_section-save_all vid pid section.by_name quirks)
      ∙ sym (save_all-append canonical quirks (hwid_section vid pid section.by_name) _)

  pull_model_quirk-save_all :
      (model : Bytes) (quirks : Quirks) (q : Quirk) (b : Bool)
      → (if b then save_matching canonical quirks q (double (glob_match model q.match)) else quirks)
        ≡ save_all canonical quirks
            (if b then weighed q (double (glob_match model q.match)) else [])
  unfolding save_all
  pull_model_quirk-save_all model quirks q true = save_matching-weighed quirks q _
  pull_model_quirk-save_all model quirks q false = refl

  pull_model_section-save_all :
      (model : Bytes) (section : List (Bytes × Quirk)) (quirks : Quirks)
      → pull_model_section canonical model quirks section
        ≡ save_all canonical quirks (model_section model section)
  unfolding pull_model_section
  pull_model_section-save_all model [] quirks = unfold save_all in refl
  pull_model_section-save_all model ((name, q) ∷ section) quirks =
      pull_model_section-save_all model section _
      ∙ ap (λ x. save_all canonical x (model_section model section))
          (pull_model_quirk-save_all model quirks q (not (is_hwid q)))
      ∙ sym (save_all-append canonical quirks (model_weighed model q) _)

  pull_by_model_name-save_all :
      (qdb : List Quirks) (quirks : Quirks) (model : Bytes)
      → pull_by_model_name canonical quirks qdb model
        ≡ save_all canonical quirks (model_matching model qdb)
  unfolding pull_by_model_name
  pull_by_model_name-save_all [] quirks model = unfold save_all in refl
  pull_by_model_name-save_all (section ∷ qdb) quirks model =
      pull_by_model_name-save_all qdb _ model
      ∙ ap (λ x. save_all canonical x (model_matching model qdb))
          (pull_model_section-save_all model section.by_name quirks)
      ∙ sym (save_all-append canonical quirks (model_section model section.by_name) _)

  -- After the quirks of a device were pulled by its hardware ID, and then by its model name, into an
  -- empty collection: for each name the collection holds none exactly if no matching quirk has the
  -- name, and otherwise a matching quirk of that name to which every other one yields, by a smaller
  -- weight or by an equal weight and a load order that is not greater.
  pub pull-Best :
      (qdb : List Quirks) (vid pid : ℕ) (model name : Bytes)
      → Best name (hwid_matching vid pid qdb ++ model_matching model qdb) (
          slot name (
            pull_by_model_name canonical (pull_by_hwid canonical new_quirks qdb vid pid) qdb model))
  pull-Best qdb vid pid model name =
      let hwid = hwid_matching vid pid qdb in
      let all = hwid ++ model_matching model qdb in
      rw
        (
          pull_by_hwid-save_all qdb new_quirks vid pid,
          pull_by_model_name-save_all qdb,
          ← save_all-append canonical new_quirks hwid (model_matching model qdb),
        )
        (From-Best name all _ (pulled name all))
    where
      pulled :
          (n : Bytes) (m : List Weighted) → From n none m (slot n (save_all canonical new_quirks m))
      pulled n m = unfold lookup in (save_all-From canonical n m new_quirks).0
