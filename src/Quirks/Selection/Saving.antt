-- ===== src/Quirks/Selection/Saving.antt =====
-- The slot of a name in a collection of quirks, after quirks were saved by `prioritizeAndSave` of
-- quirks.go.
use ipp_usb.Base.{
  ℕ, ◌≤◌, ◌<◌, ◌≡◌, ◌≢◌, ◌⊎◌, inl, inr, refl, sym, ap, subst, ◌∙◌, Bool, true, false, Bool-cases,
  if◌then◌else◌, Option, none, some, List, [], ◌∷◌, ◌++◌, Bytes, bytes_eq, bytes_eq_iff,
  bytes_eq_refl, All, Occurs, arith,
}
use mathlib.Core.Option.{some-injective}
use ipp_usb.Base.Dict.{lookup, lookup-insert}
use ipp_usb.Quirks.Parsing.{Quirk}
use ipp_usb.Quirks.{Quirks, put, save, weight_of, wins, prioritize_and_save}

-- A matching quirk with its weight.
abbrev pub Weighted : Type 0
Weighted = Quirk × ℕ

abbrev with_weight : Option Quirk → Option ℕ → Option Weighted
with_weight none w = none
with_weight (some q) w = some (q, weight_of w)

-- The quirk of a name in the collection, with its weight.
abbrev pub slot : Bytes → Quirks → Option Weighted
slot name quirks = with_weight (lookup name quirks.by_name) (lookup name quirks.weights)

-- The first is not preferred to the second: it weighs less, or as much and was not loaded later.
abbrev pub Yields : Weighted → Weighted → Type 0
Yields (q, w) (q', w') = (w < w') ⊎ ((w ≡ w') × (q.load_order ≤ q'.load_order))

-- What the slot of a name holds once these quirks have been saved in turn.
abbrev pub Best : Bytes → List Weighted → Option Weighted → Type 0
Best name matching none = All (λ (x : Weighted). x.0.name ≢ name) matching
Best name matching (some x) =
    Occurs x matching
    × (x.0.name ≡ name)
    × All (λ (y : Weighted). (y.0.name ≢ name) ⊎ Yields y x) matching

abbrev better : Option Weighted → Quirk → ℕ → Option Weighted
better none q w = some (q, w)
better (some (p, v)) q w = if wins (some p) v q w then some (q, w) else some (p, v)

-- The quirk that a slot starts with yields to the one that it ends with.
abbrev Kept : Option Weighted → Option Weighted → Type 0
Kept none r = Unit
Kept (some y) none = ⊥
Kept (some y) (some x) = Yields y x

-- `Best` for a slot that starts with `s`.
abbrev pub From : Bytes → Option Weighted → List Weighted → Option Weighted → Type 0
From name s matching none = All (λ (x : Weighted). x.0.name ≢ name) matching
From name s matching (some x) =
    ((s ≡ some x) ⊎ (Occurs x matching × (x.0.name ≡ name)))
    × All (λ (y : Weighted). y.0.name ≡ name → Yields y x) matching

Yields-trans : (x y z : Weighted) → Yields x y → Yields y z → Yields x z
Yields-trans (p, u) (q, v) (r, w) h k = grind arith

-- The one of two that is kept, and what makes it so.
record Choice (s : Option Weighted) (q : Quirk) (w : ℕ) : Type 0 where
  chosen : Weighted
  is_better : better s q w ≡ some chosen
  source : (chosen ≡ (q, w)) ⊎ (s ≡ some chosen)
  new_yields : Yields (q, w) chosen
  old_yields : Kept s (some chosen)

choose : (s : Option Weighted) (q : Quirk) (w : ℕ) → Choice s q w
choose none q w = record {
  chosen = (q, w);
  is_better = refl;
  source = inl refl;
  new_yields = inr (refl, omega arith);
  old_yields = tt;
}
choose (some (p, v)) q w = elim (Bool-cases (wins (some p) v q w)) [
  | inl e ↦ record {
    chosen = (q, w);
    is_better = rw e;
    source = inl refl;
    new_yields = inr (refl, omega arith);
    old_yields = ground arith;
  }
  | inr e ↦ record {
    chosen = (p, v);
    is_better = rw e;
    source = inr refl;
    new_yields = ground arith;
    old_yields = inr (refl, omega arith);
  }
]

module _ (name : Bytes) (q : Quirk) (w : ℕ) (s : Option Weighted) (rest : List Weighted) where
  From-other :
      (r : Option Weighted) → q.name ≢ name → From name s rest r → From name s ((q, w) ∷ rest) r
  From-other none n h = (n, h)
  From-other (some x) n (inl e, h) = (inl e, (λ k. absurd (n k), h))
  From-other (some x) n (inr (o, e), h) = (inr (inr o, e), (λ k. absurd (n k), h))

  From-chosen :
      (r : Option Weighted) (c : Choice s q w)
      → q.name ≡ name
      → From name (some c.chosen) rest r × Kept (some c.chosen) r
      → From name s ((q, w) ∷ rest) r × Kept s r
  From-chosen none c n (h, k) = absurd k
  From-chosen (some x) c n ((o, h), k) = (
    (origin o c.source, (λ _. Yields-trans (q, w) c.chosen x c.new_yields k, h)),
    older s c.old_yields,
  )
    where
      origin :
          (some c.chosen ≡ some x) ⊎ (Occurs x rest × (x.0.name ≡ name))
          → (c.chosen ≡ (q, w)) ⊎ (s ≡ some c.chosen)
          → (s ≡ some x) ⊎ (Occurs x ((q, w) ∷ rest) × (x.0.name ≡ name))
      origin (inr (m, e)) _ = inr (inr m, e)
      origin (inl e) (inl f) =
          let new = sym (some-injective c.chosen x e) ∙ f in
          inr (inl new, ap (λ (y : Weighted). y.0.name) new ∙ n)
      origin (inl e) (inr f) = inl (f ∙ e)

      older : (t : Option Weighted) → Kept t (some c.chosen) → Kept t (some x)
      older none _ = tt
      older (some y) l = Yields-trans y c.chosen x l k

From-nil : (name : Bytes) (s : Option Weighted) → From name s [] s × Kept s s
From-nil name none = (tt, tt)
From-nil name (some (q, w)) = ((inl refl, tt), inr (refl, omega arith))

differs : {a b : Bytes} → bytes_eq a b ≡ false → a ≢ b
differs {a} {b} h e = cc (h, (bytes_eq_iff a b).1 e)

others-Yields :
    (name : Bytes) (x : Weighted) (matching : List Weighted)
    → All (λ (y : Weighted). y.0.name ≡ name → Yields y x) matching
    → All (λ (y : Weighted). (y.0.name ≢ name) ⊎ Yields y x) matching
others-Yields name x [] h = tt
others-Yields name x (y ∷ matching) h = (
  elim (Bool-cases (bytes_eq y.0.name name)) [
    | inl e ↦ inr (h.0 ((bytes_eq_iff y.0.name name).0 e))
    | inr e ↦ inl (differs e)
  ],
  others-Yields name x matching h.1,
)

pub From-Best :
    (name : Bytes) (matching : List Weighted) (r : Option Weighted)
    → From name none matching r
    → Best name matching r
From-Best name matching none h = h
From-Best name matching (some x) (inl e, h) = absurd (cc e)
From-Best name matching (some x) (inr (o, e), h) = (o, e, others-Yields name x matching h)

module _ (canonical : Bytes → Bytes) where
  slot-save :
      (name : Bytes) (quirks : Quirks) (q : Quirk) (w : ℕ)
      → slot name (save canonical quirks q w)
        ≡ (if bytes_eq q.name name then some (q, w) else slot name quirks)
  unfolding put
  slot-save name quirks q w =
      rw (lookup-insert q.name name q quirks.by_name, lookup-insert q.name name w quirks.weights)
        (by_name (bytes_eq q.name name))
    where
      by_name :
          (b : Bool)
          → with_weight
              (if b then some q else lookup name quirks.by_name)
              (if b then some w else lookup name quirks.weights)
            ≡ (if b then some (q, w) else slot name quirks)
      by_name true = refl
      by_name false = refl

  better-wins :
      (o : Option Quirk) (v : Option ℕ) (q : Quirk) (w : ℕ)
      → (if wins o (weight_of v) q w then some (q, w) else with_weight o v)
        ≡ better (with_weight o v) q w
  better-wins none v q w = refl
  better-wins (some p) v q w = refl

  slot_if :
      (name : Bytes) (quirks : Quirks) (q : Quirk) (w : ℕ) (b : Bool)
      → slot name (if b then save canonical quirks q w else quirks) ≡ (
          if bytes_eq q.name name
          then if b then some (q, w) else slot name quirks
          else slot name quirks)
  slot_if name quirks q w true = slot-save name quirks q w
  slot_if name quirks q w false = ground arith

  slot_same :
      (quirks : Quirks) (q : Quirk) (w : ℕ)
      → slot q.name (prioritize_and_save canonical quirks q w) ≡ better (slot q.name quirks) q w
  unfolding prioritize_and_save
  slot_same quirks q w =
      slot_if q.name quirks q w _
      ∙ rw (bytes_eq_refl q.name)
          (better-wins (lookup q.name quirks.by_name) (lookup q.name quirks.weights) q w)

  slot_other :
      (name : Bytes) (quirks : Quirks) (q : Quirk) (w : ℕ)
      → bytes_eq q.name name ≡ false
      → slot name (prioritize_and_save canonical quirks q w) ≡ slot name quirks
  unfolding prioritize_and_save
  slot_other name quirks q w h = slot_if name quirks q w _ ∙ rw h

  slot_named :
      (name : Bytes) (quirks : Quirks) (q : Quirk) (w : ℕ)
      → q.name ≡ name
      → slot name (prioritize_and_save canonical quirks q w) ≡ better (slot name quirks) q w
  slot_named name quirks q w h =
      subst (λ n. slot n (prioritize_and_save canonical quirks q w) ≡ better (slot n quirks) q w) h
        (slot_same quirks q w)

  -- The quirks saved in turn.
  unfoldable pub save_all : Quirks → List Weighted → Quirks
  save_all quirks [] = quirks
  save_all quirks ((q, w) ∷ matching) = save_all (prioritize_and_save canonical quirks q w) matching

  pub save_all-From :
      (name : Bytes) (matching : List Weighted) (quirks : Quirks)
      → From name (slot name quirks) matching (slot name (save_all quirks matching))
        × Kept (slot name quirks) (slot name (save_all quirks matching))
  unfolding save_all
  save_all-From name [] quirks = From-nil name (slot name quirks)
  save_all-From name ((q, w) ∷ matching) quirks =
      let next = prioritize_and_save canonical quirks q w in
      let ih = save_all-From name matching next in
      elim (Bool-cases (bytes_eq q.name name)) [
        | inl e ↦
            let c = choose (slot name quirks) q w in
            let named = (bytes_eq_iff q.name name).0 e in
            let kept = slot_named name quirks q w named ∙ c.is_better in
            From-chosen name q w (slot name quirks) matching _ c named (
              subst
                (λ t.
                  From name t matching (slot name (save_all next matching))
                  × Kept t (slot name (save_all next matching)))
                kept ih)
        | inr e ↦
            let (from, kept) =
              subst
                (λ t.
                  From name t matching (slot name (save_all next matching))
                  × Kept t (slot name (save_all next matching)))
                (slot_other name quirks q w e) ih in
            (From-other name q w (slot name quirks) matching _ (differs e) from, kept)
      ]

  pub save_all-append :
      (quirks : Quirks) (a b : List Weighted)
      → save_all quirks (a ++ b) ≡ save_all (save_all quirks a) b
  unfolding save_all
  save_all-append quirks [] b = refl
  save_all-append quirks ((q, w) ∷ a) b =
      save_all-append (prioritize_and_save canonical quirks q w) a b
