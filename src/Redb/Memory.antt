-- ===== src/Redb/Memory.antt =====
-- A lawful engine: the rows themselves, each table with the proof of its order.
use nookdb.Prelude.{refl, Option, none, some, [], map}
use nookdb.Bytes.{Bytes}
use nookdb.Rows.{Rows, lookup, insert, remove, slice, IsSorted}
use nookdb.Rows.Laws.{insert-IsSorted, remove-IsSorted}
use nookdb.Redb.{Redb, IsLawful, Try, done, failed, TableError, table_does_not_exist}

pub record Table : Type 0 where
  pub content : Rows
  pub content-IsSorted : IsSorted content

abbrev pub insert_in : Table → Bytes → Bytes → Table
insert_in t k v = record {
  content = insert k v t.content;
  content-IsSorted = insert-IsSorted k v t.content t.content-IsSorted;
}

abbrev pub remove_in : Table → Bytes → Table
remove_in t k = record {
  content = remove k t.content;
  content-IsSorted = remove-IsSorted k t.content t.content-IsSorted;
}

abbrev pub empty : Table
empty = record { content = []; content-IsSorted = tt }

abbrev pub open_existing : Option Table → Try TableError Table
open_existing none = failed table_does_not_exist
open_existing (some t) = done t

abbrev pub open_or_create : Option Table → Try TableError Table
open_or_create none = done empty
open_or_create (some t) = done t

abbrev pub memory : Redb Table
memory = record {
  get = λ t k. done (lookup k t.content);
  insert = λ t k v. done (insert_in t k v);
  remove = λ t k. done (remove_in t k, lookup k t.content);
  range = λ t lo hi. done (map (λ row. done row) (slice lo hi t.content));
  iter = λ t. done (map (λ row. done row) t.content);
  retain_none = λ t. done empty;
  begin_read = λ s. done tt;
  begin_write = λ s. done tt;
  open_read = open_existing;
  open_write = open_or_create;
  commit = λ s t i. done (record { entries = some t; index = some i });
  abort = λ s. done tt;
}

abbrev pub memory-IsLawful : IsLawful memory
memory-IsLawful = record {
  rows = λ t. t.content;
  rows-IsSorted = λ t. t.content-IsSorted;
  inserted = insert_in;
  removed = remove_in;
  emptied = λ t. empty;
  new_table = empty;
  get_ok = λ t k. refl;
  insert_ok = λ t k v. refl;
  rows-inserted = λ t k v. refl;
  remove_ok = λ t k. refl;
  rows-removed = λ t k. refl;
  range_ok = λ t lo hi. refl;
  iter_ok = λ t. refl;
  retain_ok = λ t. refl;
  rows-emptied = λ t. refl;
  begin_read_ok = λ s. refl;
  begin_write_ok = λ s. refl;
  open_read_none = refl;
  open_read_some = λ t. refl;
  open_write_none = refl;
  rows-new_table = refl;
  open_write_some = λ t. refl;
  commit_ok = λ s t i. refl;
  abort_ok = λ s. refl;
}
