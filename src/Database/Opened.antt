-- ===== src/Database/Opened.antt =====
-- `Database::open` of crates/nookdb-core/src/database.rs, over the directories and the database files as a
-- parameter.
use nookdb.Prelude.{◌≡◌, ◌≢◌, ℕ, Bool, true, Option, none, some, [], ◌∷◌, if◌then◌else◌}
use nookdb.Bytes.{Bytes}
use nookdb.Database.{Database}
use nookdb.Error.{Result, ok, err, io_failure, ◌>>=◌}
use nookdb.Notify
use nookdb.Redb.{Try, done, failed, Store, EngineError}
use nookdb.Storage.Tx.{map_err, map_redb_db_error}

-- What the code uses of `std::path` and `std::fs`, and `RedbDatabase::create`, which opens the file
-- or creates it: `D` is the disk. A failed call may leave some of its work on the disk.
pub record Disk (D T : Type 0) : Type 0 where
  pub parent : Bytes → Option Bytes
  pub exists : D → Bytes → Bool
  pub create_dir_all : D → Bytes → Try ℕ (Unit {0}) × D
  pub create : D → Bytes → Try EngineError (Store T) × D

module _ {D T : Type 0} (disk : Disk D T) where
  -- Whether the parent directory that a path names, if any, is there.
  unfoldable pub has_parent : D → Option Bytes → Bool
  has_parent d none = true
  has_parent d (some []) = true
  has_parent d (some (b ∷ p)) = disk.exists d (b ∷ p)

  -- `if let Some(parent) = path.parent()`
  unfoldable pub make_parent : D → Option Bytes → Try ℕ (Unit {0}) × D
  make_parent d none = (done tt, d)
  make_parent d (some []) = (done tt, d)
  make_parent d (some (b ∷ p)) =
      if disk.exists d (b ∷ p) then (done tt, d) else disk.create_dir_all d (b ∷ p)

  -- `map_err(map_redb_db_error)?` and the handle
  unfoldable pub opened : Try EngineError (Store T) → Result (Database T)
  unfolding map_redb_db_error
  opened s = do
    inner ← map_err map_redb_db_error s
    ok (record { store = inner; notifier = Notify.new })

  unfoldable pub open_in : Bytes → Try ℕ (Unit {0}) × D → Result (Database T) × D
  unfolding opened
  open_in path (done made, d) = let (s, d') = disk.create d path in (opened s, d')
  open_in path (failed e, d) = (err (io_failure e), d)

  unfoldable pub open_at : D → Bytes → Result (Database T) × D
  unfolding make_parent open_in
  open_at d path = open_in path (make_parent d (disk.parent path))

-- What a file holds, or an empty database where there is none.
abbrev pub content : {T : Type 0} → Option (Store T) → Store T
content none = record { entries = none; index = none }
content (some s) = s

-- The documented behaviour while no fault occurs and no other process has the file: directories are
-- created with their parents, and a file is opened, with what was committed to it, or created.
pub record IsDisk {D T : Type 0} (disk : Disk D T) : Type 0 where
  pub file : D → Bytes → Option (Store T)
  pub made : D → Bytes → D
  pub create_dir_all_ok : (d : D) (p : Bytes) → disk.create_dir_all d p ≡ (done tt, made d p)
  pub exists-made : (d : D) (p : Bytes) → disk.exists (made d p) p ≡ true
  pub file-made : (d : D) (p q : Bytes) → file (made d p) q ≡ file d q
  pub created : D → Bytes → D
  pub create_ok :
      (d : D) (p : Bytes)
      → has_parent disk d (disk.parent p) ≡ true
      → disk.create d p ≡ (done (content (file d p)), created d p)
  pub exists-created : (d : D) (p q : Bytes) → disk.exists (created d p) q ≡ disk.exists d q
  pub file-created : (d : D) (p : Bytes) → file (created d p) p ≡ some (content (file d p))
  pub file-others : (d : D) (p q : Bytes) → p ≢ q → file (created d p) q ≡ file d q

module _ {D T : Type 0} (disk : Disk D T) (law : IsDisk disk) where
  open law use {file}

  -- What `make_parent` leaves: the directory, and every file as it was.
  pub record IsMade (d : D) (parent : Option Bytes) (out : Try ℕ (Unit {0}) × D) : Type 0 where
    pub returned : out.0 ≡ done tt
    pub there : has_parent disk out.1 parent ≡ true
    pub files : (q : Bytes) → file out.1 q ≡ file d q

  -- What `open` returns, and the files that it leaves.
  pub record IsOpened (d : D) (path : Bytes) (out : Result (Database T) × D) : Type 0 where
    pub returned : out.0 ≡ ok (record { store = content (file d path); notifier = Notify.new })
    pub there : has_parent disk out.1 (disk.parent path) ≡ true
    pub kept : file out.1 path ≡ some (content (file d path))
    pub others : (q : Bytes) → path ≢ q → file out.1 q ≡ file d q
