-- ===== src/Rows.antt =====
-- Key-value rows in strictly ascending key order: the abstract content of a redb table.
pub mod Laws
pub mod Extent
pub mod Users
pub mod Filled
pub mod Chosen
pub mod Erased
use nookdb.Prelude.{
  ◌++◌, Bool, true, false, ◌≡◌, Option, none, some, List, [], ◌∷◌, if◌then◌else◌, filter,
}
use nookdb.Bytes.{Bytes, beq, blt}
use nookdb.Bytes.Affix.{after, in_range}

abbrev pub Row : Type 0
Row = Bytes × Bytes

abbrev pub Rows : Type 0
Rows = List Row

unfoldable pub lookup : Bytes → Rows → Option Bytes
lookup k [] = none
lookup k ((j, v) ∷ rows) = if beq j k then some v else lookup k rows

unfoldable pub insert : Bytes → Bytes → Rows → Rows
insert k v [] = (k, v) ∷ []
insert k v ((j, w) ∷ rows) =
    if beq j k
    then (k, v) ∷ rows
    else if blt k j
    then (k, v) ∷ (j, w) ∷ rows
    else (j, w) ∷ insert k v rows

unfoldable pub remove : Bytes → Rows → Rows
remove k [] = []
remove k ((j, w) ∷ rows) = if beq j k then rows else (j, w) ∷ remove k rows

-- The rows with `lo <= key < hi`, in order.
abbrev pub slice : Bytes → Bytes → Rows → Rows
slice lo hi rows = filter (λ row. in_range lo hi row.0) rows

-- `k` comes before every key of the rows.
abbrev pub Below : Bytes → Rows → Type 0
Below k [] = Unit {0}
Below k ((j, _) ∷ rows) = (blt k j ≡ true) × Below k rows

abbrev pub IsSorted : Rows → Type 0
IsSorted [] = Unit {0}
IsSorted ((j, _) ∷ rows) = Below j rows × IsSorted rows

-- The rows of one collection under their user keys: those whose key is `collection`, a 0 byte and
-- the user key.
unfoldable pub user_rows : Bytes → Rows → Rows
user_rows c [] = []
user_rows c ((k, v) ∷ rows) =
    let rest = user_rows c rows in
    elim (after (c ++ 0 ∷ []) k) [ none ↦ rest | some u ↦ (u, v) ∷ rest ]
