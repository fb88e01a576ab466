-- ===== src/Paper.antt =====
-- paper.go: paper sizes in IPP units (1/100 mm), and their class for DNS-SD. Widths and heights are
-- Go `int`s that are not negative here. A `PaperClass` is one of the five strings that `Classify`
-- returns, spelled by `class_name`.
use ipp_usb.Base.{
  ℕ, ◌≤◌, ◌≡◌, ◌↔◌, Bool, true, false, not, ◌&&◌, ◌||◌, ltb, leb, if◌then◌else◌, Bytes, codes,
  arith,
}

pub record PaperSize : Type 0 where
  pub width : ℕ
  pub height : ℕ

abbrev pub paper_legal : PaperSize
paper_legal = record { width = 21590; height = 35560 }

abbrev pub paper_a4 : PaperSize
paper_a4 = record { width = 21000; height = 29700 }

abbrev paper_tabloid : PaperSize
paper_tabloid = record { width = 27940; height = 43180 }

abbrev paper_a3 : PaperSize
paper_a3 = record { width = 29700; height = 42000 }

abbrev paper_c : PaperSize
paper_c = record { width = 43180; height = 55880 }

abbrev paper_a2 : PaperSize
paper_a2 = record { width = 42000; height = 59400 }

unfoldable pub less : PaperSize → PaperSize → Bool
less p p2 =
    (ltb p.width p2.width && leb p.height p2.height)
    || (ltb p.height p2.height && leb p.width p2.width)

pub data PaperClass : Type 0 where
  below_legal_a4 legal_a4 tabloid_a3 iso_c_a2 above_iso_c_a2 : PaperClass

abbrev pub class_name : PaperClass → Bytes
class_name above_iso_c_a2 = codes ">isoC-A2"
class_name iso_c_a2 = codes "isoC-A2"
class_name tabloid_a3 = codes "tabloid-A3"
class_name legal_a4 = codes "legal-A4"
class_name below_legal_a4 = codes "<legal-A4"

unfoldable pub classify : PaperSize → PaperClass
classify p =
    if less paper_c p || less paper_a2 p
    then above_iso_c_a2
    else if not (less p paper_c) || not (less p paper_a2)
    then iso_c_a2
    else if not (less p paper_tabloid) || not (less p paper_a3)
    then tabloid_a3
    else if not (less p paper_legal) || not (less p paper_a4)
    then legal_a4
    else below_legal_a4

-- The classes in order of size.
abbrev pub rank : PaperClass → ℕ
rank below_legal_a4 = 0
rank legal_a4 = 1
rank tabloid_a3 = 2
rank iso_c_a2 = 3
rank above_iso_c_a2 = 4

less-weaken :
    (p q r : PaperSize)
    → p.width ≤ q.width
    → p.height ≤ q.height
    → less q r ≡ true
    → less p r ≡ true
unfolding less
less-weaken p q r h k l = ground arith

less-grow :
    (p q r : PaperSize)
    → p.width ≤ q.width
    → p.height ≤ q.height
    → less r p ≡ true
    → less r q ≡ true
unfolding less
less-grow p q r h k l = ground arith

-- If one paper is less than another and that is less than a third, then the first is less than the
-- third, and the third is not less than the first.
pub less_trans :
    (p q r : PaperSize) → less p q ≡ true → less q r ≡ true → (less p r ≡ true) × (less r p ≡ false)
unfolding less
less_trans p q r h k = (ground arith, ground arith)

-- A paper that is at least as wide and as high as another is never in a smaller class.
pub classify_mono :
    (p q : PaperSize)
    → p.width ≤ q.width
    → p.height ≤ q.height
    → rank (classify p) ≤ rank (classify q)
unfolding classify
classify_mono p q h k = ground (
  arith,
  less-grow p q paper_c,
  less-grow p q paper_a2,
  less-weaken p q paper_c,
  less-weaken p q paper_a2,
  less-weaken p q paper_tabloid,
  less-weaken p q paper_a3,
  less-weaken p q paper_legal,
  less-weaken p q paper_a4,
)

-- A paper is in the smallest class exactly if it is less than Legal and less than A4.
pub classify-below_iff :
    (p : PaperSize)
    → (classify p ≡ below_legal_a4) ↔ ((less p paper_legal ≡ true) × (less p paper_a4 ≡ true))
unfolding classify less
classify-below_iff p = ground arith
