-- ===== src/Examples.antt =====
-- The inputs of the witnesses: a collection of notes under their ids, on tables in memory, with
-- observers that log their numbers.
pub mod Sorting
pub mod Engine
pub mod Documents
pub mod Queries
pub mod Indexes
pub mod Overwrites
pub mod Ledger
pub mod Lives
pub mod Backups
pub mod Files
pub mod Bindings
pub mod Checks
use Prim.Native.Nat.{compare}
use nookdb.Prelude.{ℕ, pos, ltb, leb, ◌==◌, true, false, Option, none, some, List, [], ◌∷◌, refl}
use nookdb.Index.{key}
use nookdb.Redb.Memory.{insert_in}
use nookdb.Redb.Memory.{empty as no_rows}
use nookdb.Rows.Users.{composite}
use nookdb.Bytes.{Bytes, bytes}
use nookdb.Codec.Keys.{IsName}
use nookdb.Collection.{Collection}
use nookdb.Database.{Database}
use nookdb.Doc.{identity_codec}
use nookdb.Examples.Sorting.{sort_onto}
use nookdb.Json.{
  Value, Members, string, object, null, bool, number, array, empty, item, end, member, External,
}
use nookdb.Notify.{Observers, Notifier, CommitEvent, Slot}
use nookdb.Redb.Memory.{Table}
use nookdb.Schema.Ir.{FieldType, FieldIr, CollectionIr, IndexIr}

-- Numbers are natural, and the JSON of a note is the text of its id.
abbrev pub note : Bytes → Value ℕ
note id = object (member (bytes "_id") (string id) end)

abbrev pub note_text : Value ℕ → Option Bytes
note_text (object (member k (string id) end)) = some id
note_text _ = none

abbrev pub plain : External ℕ ℕ
plain = record {
  number_eq = λ m n. m == n;
  as_i64 = λ n. some (pos n);
  as_u64 = λ n. some n;
  number_as_f64 = λ n. some n;
  number_text = λ n. n ∷ [];
  flt = ltb;
  fle = leb;
  partial_cmp = λ m n. some (compare m n);
  is_integral = λ n. true;
  from_u32 = λ n. n;
  to_vec = note_text;
  from_slice = λ s. some (note s);
  value_text = λ v. bytes "json";
  regex = λ re. some (λ s. true);
  sort_by = λ c docs. sort_onto c [] docs;
}

-- Every observer is alive, and logs its number.
abbrev pub log : Observers (List ℕ)
log = record { upgrade = λ w o. true; on_commit = λ o ev w. (o ∷ w, false) }

abbrev pub watched : Notifier
watched = record { slots = record { id = 0; observer = 7 } ∷ []; next_id = 1 }

abbrev pub empty_db : Database Table
empty_db = record { store = record { entries = none; index = none }; notifier = watched }

-- the database that holds the note `a`, with its index entry
abbrev pub note_db : Database Table
note_db = record {
  store = record {
    entries = some (insert_in no_rows (composite (bytes "notes") (bytes "a")) (bytes "a"));
    index =
        some (
          insert_in no_rows (key (bytes "notes") (bytes "_id") (bytes "a") (bytes "a"))
            (bytes "a"));
  };
  notifier = watched;
}

abbrev pub id_field : FieldIr ℕ
id_field = record {
  name = bytes "_id";
  ty = FieldType.id;
  optional = false;
  nullable = false;
  min = none;
  max = none;
  int = false;
  email = false;
  regex = none;
  variants = [];
}

abbrev pub by_id_index : IndexIr
by_id_index = record { field = bytes "_id"; unique = true }

abbrev pub notes_ir : CollectionIr ℕ
notes_ir = record { id_field = bytes "_id"; fields = id_field ∷ []; indexes = by_id_index ∷ [] }

abbrev pub notes : Collection ℕ
notes = record { ir = notes_ir; name = bytes "notes"; codec = identity_codec }

pub notes-IsName : IsName (bytes "notes")
notes-IsName = record { not_empty = λ p. cc; nul_free = refl }

pub logs-IsName : IsName (bytes "logs")
logs-IsName = record { not_empty = λ p. cc; nul_free = refl }
