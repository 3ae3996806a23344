-- ===== src/Binding/Calls/Named.antt =====
-- About `list_collection_names` of crates/nookdb-napi/src/database.rs.
use nookdb.Prelude.{
  Bool, true, false, any, is_some, ◌≡◌, refl, inl, inr, Option, none, some, List, [], ◌∷◌, ◌++◌,
  arith, if◌then◌else◌, Option-cases,
}
use nookdb.Error.{◌>>=◌}
use nookdb.Database.{read}
use nookdb.Binding.Calls.{gated}
use nookdb.Binding.Handles.{get_db}
use nookdb.Bytes.{Bytes, beq, beq_iff, contains}
use nookdb.Bytes.Affix.{after}
use nookdb.Bytes.Utf8.{is_utf8}
use nookdb.Codec.Keys.{IsName}
use nookdb.Database.Atomic.{view, read_lem}
use nookdb.Error.{ok}
use nookdb.Notify.Delivery.{member, member-set_insert}
use nookdb.Redb.{Redb, IsLawful}
use nookdb.Rows.{Row, Rows, user_rows}
use nookdb.Storage.Pure.{table_rows, read_raw}
use nookdb.Storage.Read
use nookdb.Binding.{JsDatabase, resolved}
use nookdb.Binding.Calls.Names.{before_nul, name_of, names_onto, see, list_collection_names}

abbrev is_name : Bytes → Option Bytes → Bool
is_name c none = false
is_name c (some n) = beq n c

before_nul-after :
    (c k : Bytes)
    → contains c 0 ≡ false
    → is_name c (before_nul k) ≡ is_some (after (c ++ 0 ∷ []) k)
unfolding before_nul beq after
before_nul-after [] [] h = refl
before_nul-after (x ∷ c) [] h = refl
before_nul-after [] (b ∷ k) h = ground arith
before_nul-after (x ∷ c) (b ∷ k) h = ground (arith, h, before_nul-after c k)

-- The entry has the name, and is text.
abbrev is_entry_of : Bytes → Row → Bool
is_entry_of c row = is_name c (name_of row.0)

name_of-after :
    (c k : Bytes)
    → contains c 0 ≡ false
    → is_utf8 c ≡ true
    → is_name c (name_of k) ≡ is_some (after (c ++ 0 ∷ []) k)
unfolding name_of
name_of-after c k h u = elim (Option-cases (before_nul k)) [
  | inl e ↦ ground (arith, e, before_nul-after c k h)
  | inr (n, e) ↦ ground (arith, e, u, before_nul-after c k h, beq_iff n c)
]

member-see :
    (c : Bytes) (seen : List Bytes) (o : Option Bytes)
    → member c (see seen o) ≡ (if is_name c o then true else member c seen)
member-see c seen none = refl
member-see c seen (some n) = member-set_insert n c seen

member-names_onto :
    (c : Bytes) (seen : List Bytes) (rows : List Row)
    → member c (names_onto seen rows) ≡ (if any (is_entry_of c) rows then true else member c seen)
unfolding names_onto
member-names_onto c seen [] = refl
member-names_onto c seen (row ∷ rows) =
    ground (
      arith,
      member-names_onto c (see seen (name_of row.0)) rows,
      member-see c seen (name_of row.0),
    )

-- The collection has a row.
abbrev pub has_row : Rows → Bool
has_row [] = false
has_row (row ∷ rows) = true

any-user_rows :
    (c : Bytes) (rows : Rows)
    → contains c 0 ≡ false
    → is_utf8 c ≡ true
    → any (is_entry_of c) rows ≡ has_row (user_rows c rows)
unfolding user_rows
any-user_rows c [] h u = refl
any-user_rows c (row ∷ rows) h u = elim (Option-cases (after (c ++ 0 ∷ []) row.0)) [
  | inl e ↦ ground (arith, e, name_of-after c row.0 h u, any-user_rows c rows h u)
  | inr (k, e) ↦ ground (arith, e, name_of-after c row.0 h u)
]

module _ {N F T : Type 0} (r : Redb T) (law : IsLawful r) where
  listed :
      (s : JsDatabase N F T) (d : List Bytes)
      → is_some s.inner ≡ true
      → read r s.core (λ tx. do entries ← Read.list_entries_raw r tx; ok (names_onto [] entries))
        ≡ ok d
      → (list_collection_names r s).0 ≡ resolved d
  unfolding list_collection_names gated get_db
  listed s d o e = elim (Option-cases s.inner) [
    | inl k ↦ ground (arith, k, o)
    | inr (h, k) ↦ ground (arith, k, e)
  ]

  -- Over a lawful engine, on an object that is not closed: the call resolves, and an accepted name
  -- that is UTF-8 text is among the names that it lists exactly if the collection has a row.
  pub list_collection_names-member :
      (s : JsDatabase N F T) (c : Bytes)
      → is_some s.inner ≡ true
      → IsName c
      → is_utf8 c ≡ true
      → (let names = names_onto [] (table_rows r law s.core.store.entries) in
          ((list_collection_names r s).0 ≡ resolved names)
          × (member c names ≡ has_row (view r law s.core c)))
  unfolding view
  list_collection_names-member s c o h u = (
    listed s _ o (rw (read_lem r law, read_raw r law) refl),
    ground (
      arith,
      member-names_onto c [] (table_rows r law s.core.store.entries),
      any-user_rows c (table_rows r law s.core.store.entries) h.nul_free u,
    ),
  )
