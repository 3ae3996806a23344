-- ===== src/Bytes/Utf8.antt =====
-- `std::str::from_utf8`: is a byte string the UTF-8 text of some scalar values?
use nookdb.Prelude.{
  ℕ, Bool, true, false, ◌&&◌, Option, none, some, [], ◌∷◌, leb, ◌==◌, if◌then◌else◌,
}
use nookdb.Bytes.{Bytes}

-- What must come next: a new character, so many continuation bytes, or a second byte of a narrower
-- range after E0, ED, F0 and F4.
pub data Expects : Type 0 where
  start one two three after_e0 after_ed after_f0 after_f4 : Expects

abbrev between : ℕ → ℕ → ℕ → Bool
between lo hi b = leb lo b && leb b hi

abbrev go_if : Bool → Expects → Option Expects
go_if true l = some l
go_if false l = none

abbrev first : ℕ → Option Expects
first b =
    if leb b 0x7F
    then some start
    else if between 0xC2 0xDF b
    then some one
    else if b == 0xE0
    then some after_e0
    else if b == 0xED
    then some after_ed
    else if between 0xE1 0xEF b
    then some two
    else if b == 0xF0
    then some after_f0
    else if b == 0xF4
    then some after_f4
    else go_if (between 0xF1 0xF3 b) three

abbrev pub next : Expects → ℕ → Option Expects
next start b = first b
next one b = go_if (between 0x80 0xBF b) start
next two b = go_if (between 0x80 0xBF b) one
next three b = go_if (between 0x80 0xBF b) two
next after_e0 b = go_if (between 0xA0 0xBF b) one
next after_ed b = go_if (between 0x80 0x9F b) one
next after_f0 b = go_if (between 0x90 0xBF b) two
next after_f4 b = go_if (between 0x80 0x8F b) two

abbrev is_start : Expects → Bool
is_start start = true
is_start _ = false

unfoldable pub utf8_from : Expects → Bytes → Bool
utf8_from l [] = is_start l
utf8_from l (b ∷ s) = elim (next l b) [ none ↦ false | some m ↦ utf8_from m s ]

abbrev pub is_utf8 : Bytes → Bool
is_utf8 s = utf8_from start s
