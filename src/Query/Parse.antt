-- ===== src/Query/Parse.antt =====
-- `QueryOptions::parse` of crates/nookdb-core/src/query.rs. The derived reader of the JSON text is a
-- parameter.
use nookdb.Prelude.{
  ℕ, Bool, true, false, ◌&&◌, ◌||◌, Option, none, some, [], ◌∷◌, leb, ◌==◌, if◌then◌else◌,
}
use nookdb.Bytes.{Bytes}
use nookdb.Error.{Result, ok, invalid_argument, bad_options, ok_or}
use nookdb.Query.{QueryOptions, default}

-- `trim().is_empty()`: the text has only characters of the Unicode property White_Space. The state
-- is the beginning of a character of more than one byte.
pub data Lead : Type 0 where
  start after_c2 after_e1 after_e1_9a after_e2 after_e2_80 after_e2_81 after_e3 after_e3_80 : Lead

abbrev between : ℕ → ℕ → ℕ → Bool
between lo hi b = leb lo b && leb b hi

abbrev go_if : Bool → Lead → Option Lead
go_if true l = some l
go_if false l = none

abbrev pub next : Lead → ℕ → Option Lead
next start b =
    if between 9 13 b || b == 32
    then some start
    else if b == 0xC2
    then some after_c2
    else if b == 0xE1
    then some after_e1
    else if b == 0xE2
    then some after_e2
    else go_if (b == 0xE3) after_e3
next after_c2 b = go_if (b == 0x85 || b == 0xA0) start
next after_e1 b = go_if (b == 0x9A) after_e1_9a
next after_e1_9a b = go_if (b == 0x80) start
next after_e2 b = if b == 0x80 then some after_e2_80 else go_if (b == 0x81) after_e2_81
next after_e2_80 b = go_if (between 0x80 0x8A b || between 0xA8 0xA9 b || b == 0xAF) start
next after_e2_81 b = go_if (b == 0x9F) start
next after_e3 b = go_if (b == 0x80) after_e3_80
next after_e3_80 b = go_if (b == 0x80) start

abbrev is_start : Lead → Bool
is_start start = true
is_start _ = false

unfoldable pub blank_from : Lead → Bytes → Bool
blank_from l [] = is_start l
blank_from l (b ∷ s) = elim (next l b) [ none ↦ false | some m ↦ blank_from m s ]

unfoldable pub parse : (Bytes → Option QueryOptions) → Option Bytes → Result QueryOptions
unfolding blank_from
parse from_str none = ok default
parse from_str (some s) =
    if blank_from start s then ok default else ok_or (from_str s) (invalid_argument bad_options)
