-- ===== src/Glob/Matching/Stars.antt =====
-- Runs of stars, the search of a star's suffixes, and the end of the loop.
use ipp_usb.Base.{
  ℕ, zero, suc, ◌+◌, ◌≤◌, ◌≡◌, ◌↔◌, refl, ◌∙◌, true, false, Option, none, some, List, [], ◌∷◌, inl,
  inr, Bytes, ◌==◌, Bool-cases, ℤ, pos, negsuc, arith,
}
use ipp_usb.Glob.{skip_stars, try_suffixes, finish, star_case, pattern_length}
use ipp_usb.Glob.Items.{Item, star, items, Matches, empty, leave, take, literals}
use ipp_usb.Glob.Matching.Reading.{
  items-star, items-any, items-dangling, items-escape, items-literal,
}

-- The answer `n` if `P` holds, and -1 if it does not.
abbrev pub Decided : Type 0 → ℕ → ℤ → Type 0
Decided P n (pos m) = P × (m ≡ n)
Decided P n (negsuc zero) = ¬ P
Decided P n (negsuc (suc _)) = ⊥

pub Decided-map :
    {P Q : Type 0} {n m : ℕ} → (P → Q) → (Q → P) → n ≡ m → (r : ℤ) → Decided P n r → Decided Q m r
Decided-map f g e (pos k) (p, q) = (f p, q ∙ e)
Decided-map f g e (negsuc zero) h = λ q. h (g q)
Decided-map f g e (negsuc (suc k)) h = absurd h

two_stars : {p : List Item} {s : Bytes} → Matches (star ∷ star ∷ p) s → Matches (star ∷ p) s
two_stars (leave m) = m
two_stars (take m) = take (two_stars m)

one_star : {p : List Item} {s : Bytes} → Matches (star ∷ p) s → Matches (star ∷ star ∷ p) s
one_star m = leave m

pub skip_stars-Matches :
    (pattern : Bytes) {s : Bytes}
    → Matches (star ∷ items (skip_stars pattern)) s ↔ Matches (star ∷ items pattern) s
unfolding skip_stars
skip_stars-Matches [] = (λ m. m, λ m. m)
skip_stars-Matches (c ∷ pattern) = elim (Bool-cases (c == b'*')) [
  | inl h ↦
      rw (h, items-star c pattern h)
        (
          λ m. one_star ((skip_stars-Matches pattern).0 m),
          λ m. (skip_stars-Matches pattern).1 (two_stars m),
        )
  | inr h ↦ rw h (λ m. m, λ m. m)
]

pub literals-skip_stars :
    (pattern : Bytes) → literals (items (skip_stars pattern)) ≡ literals (items pattern)
unfolding skip_stars literals
literals-skip_stars [] = refl
literals-skip_stars (c ∷ pattern) = elim (Bool-cases (c == b'*')) [
  | inl h ↦ rw (h, items-star c pattern h) (literals-skip_stars pattern)
  | inr h ↦ rw h
]

pub skip_stars-le : (pattern : Bytes) → pattern_length (skip_stars pattern) ≤ pattern_length pattern
unfolding skip_stars
skip_stars-le [] = omega arith
skip_stars-le (c ∷ pattern) = ground (arith, skip_stars-le pattern)

abbrev pub NoStar : Bytes → Type 0
NoStar [] = Unit
NoStar (c ∷ pattern) = (c == b'*') ≡ false

pub NoStar-skip_stars : (pattern : Bytes) → NoStar (skip_stars pattern)
unfolding skip_stars
NoStar-skip_stars [] = tt
NoStar-skip_stars (c ∷ pattern) = elim (Bool-cases (c == b'*')) [
  | inl h ↦ rw h (NoStar-skip_stars pattern)
  | inr h ↦ rw h h
]

backslash-never_empty :
    (c : ℕ) (pattern : Bytes)
    → (c == b'*') ≡ false
    → (c == b'?') ≡ false
    → (c == b'\\') ≡ true
    → ¬ Matches (items (c ∷ pattern)) []
backslash-never_empty c [] h k l m = elim (rw (items-dangling c h k l) at m) [ ]
backslash-never_empty c (d ∷ pattern) h k l m = elim (rw (items-escape c d pattern h k l) at m) [ ]

NoStar-never_empty :
    (c : ℕ) (pattern : Bytes) → NoStar (c ∷ pattern) → ¬ Matches (items (c ∷ pattern)) []
NoStar-never_empty c pattern h m = elim (Bool-cases (c == b'?')) [
  | inl k ↦ elim (rw (items-any c pattern h k) at m) [ ]
  | inr k ↦ elim (Bool-cases (c == b'\\')) [
    | inl l ↦ backslash-never_empty c pattern h k l m
    | inr l ↦ elim (rw (items-literal c pattern h k l) at m) [ ]
  ]
]

pub Decided-skip_stars :
    (pattern : Bytes) (count : ℕ)
    → Decided
        (Matches (items pattern) [])
        (count + literals (items pattern))
        (finish [] (skip_stars pattern) count)
unfolding skip_stars finish literals items
Decided-skip_stars [] count = (empty, omega arith)
Decided-skip_stars (c ∷ pattern) count = elim (Bool-cases (c == b'*')) [
  | inl h ↦
      rw (h, items-star c pattern h)
        (Decided-map leave star_at_end refl _ (Decided-skip_stars pattern count))
  | inr h ↦ rw h (NoStar-never_empty c pattern h)
]
  where
    star_at_end : {p : List Item} → Matches (star ∷ p) [] → Matches p []
    star_at_end (leave m) = m

-- What the search of the suffixes of `s` found.
abbrev Found : List Item → ℕ → Bytes → Option ℕ → Type 0
Found p n s (some m) = Matches (star ∷ p) s × (m ≡ n)
Found p n s none = ¬ Matches (star ∷ p) s

suffix-Found :
    (p : List Item) (n c : ℕ) (s : Bytes) (r : ℤ) (later : Option ℕ)
    → Decided (Matches p (c ∷ s)) n r
    → Found p n s later
    → Found p n (c ∷ s) (elim r [ pos m ↦ some m | negsuc _ ↦ later ])
suffix-Found p n c s (pos m) later (d, e) h = (leave d, e)
suffix-Found p n c s (negsuc zero) (some m) d (h, e) = (take h, e)
suffix-Found p n c s (negsuc zero) none d h = go
  where
    go : ¬ Matches (star ∷ p) (c ∷ s)
    go (leave m) = d m
    go (take m) = h m
suffix-Found p n c s (negsuc (suc k)) later d h = absurd d

module _ (p : List Item) (n : ℕ) (again : Bytes → ℤ) where
  try_suffixes-Found :
      ¬ Matches p []
      → ((s : Bytes) → Decided (Matches p s) n (again s))
      → (s : Bytes) → Found p n s (try_suffixes again s)
  unfolding try_suffixes
  try_suffixes-Found ne h [] = go
    where
      go : ¬ Matches (star ∷ p) []
      go (leave m) = ne m
  try_suffixes-Found ne h (c ∷ s) =
      suffix-Found p n c s (again (c ∷ s)) (try_suffixes again s) (h (c ∷ s))
        (try_suffixes-Found ne h s)

  Found-Decided :
      (s : Bytes) (o : Option ℕ) (r : ℤ)
      → Found p n s o
      → Decided (Matches p s) n r
      → Decided (Matches (star ∷ p) s) n (elim o [ some m ↦ pos m | none ↦ r ])
  Found-Decided s (some m) r h d = h
  Found-Decided s none (pos m) h (d, e) = absurd (h (leave d))
  Found-Decided s none (negsuc zero) h d = h
  Found-Decided s none (negsuc (suc k)) h d = d

Matches-star_all : (s : Bytes) → Matches (star ∷ []) s
Matches-star_all [] = leave empty
Matches-star_all (c ∷ s) = take (Matches-star_all s)

pub star_case-Decided :
    (again : Bytes → ℤ) (pattern str : Bytes) (count : ℕ)
    → NoStar pattern
    → ((s : Bytes)
        → Decided (Matches (items pattern) s) (count + literals (items pattern)) (again s))
    → Decided
        (Matches (star ∷ items pattern) str)
        (count + literals (items pattern))
        (star_case again pattern str count)
unfolding star_case items literals
star_case-Decided again [] str count ns h = (Matches-star_all str, omega arith)
star_case-Decided again (c ∷ pattern) str count ns h =
    Found-Decided (items (c ∷ pattern)) _ again str _ _
      (try_suffixes-Found (items (c ∷ pattern)) _ again (NoStar-never_empty c pattern ns) h str)
      (h str)
