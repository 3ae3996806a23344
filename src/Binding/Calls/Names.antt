-- ===== src/Binding/Calls/Names.antt =====
-- `list_collection_names` of crates/nookdb-napi/src/database.rs.
use nookdb.Prelude.{Bool, true, false, Option, none, some, List, [], ◌∷◌, ◌==◌, if◌then◌else◌}
use nookdb.Bytes.{Bytes}
use nookdb.Bytes.Utf8.{is_utf8}
use nookdb.Database.{read}
use nookdb.Error.{ok, ◌>>=◌}
use nookdb.Notify.{set_insert}
use nookdb.Redb.{Redb}
use nookdb.Rows.{Row}
use nookdb.Storage.Read
use nookdb.Binding.{Call}
use nookdb.Binding.Calls.{only_read}
use nookdb.Binding.Handles.{get_db}

-- `k[..pos]` for the first 0 byte of the key
unfoldable pub before_nul : Bytes → Option Bytes
before_nul [] = none
before_nul (b ∷ k) =
    let rest = before_nul k in
    if b == 0 then some [] else elim rest [ none ↦ none | some n ↦ some (b ∷ n) ]

abbrev pub name_if : Bytes → Bool → Option Bytes
name_if n true = some n
name_if n false = none

unfoldable pub name_of : Bytes → Option Bytes
unfolding before_nul
name_of k = elim (before_nul k) [ none ↦ none | some n ↦ name_if n (is_utf8 n) ]

abbrev pub see : List Bytes → Option Bytes → List Bytes
see seen none = seen
see seen (some n) = set_insert n seen

-- the loop over the entries
unfoldable pub names_onto : List Bytes → List Row → List Bytes
names_onto seen [] = seen
names_onto seen (row ∷ entries) = names_onto (see seen (name_of row.0)) entries

unfoldable pub list_collection_names : {N F T : Type 0} → Redb T → Call N F T (List Bytes)
unfolding names_onto
list_collection_names r =
    only_read get_db
      λ db. read r db λ tx. do entries ← Read.list_entries_raw r tx; ok (names_onto [] entries)
