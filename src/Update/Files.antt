-- ===== src/Update/Files.antt =====
-- Replacing the binary on disk, `swapBinary` and `Rollback`. The file system is a map from paths to
-- files, and every call of the package os may fail: `Faults` says which calls do.
use telemux.Base.{String, ◌<>◌, Bool, true, false, none, some, Result, ok, err, if◌then◌else◌}
use telemux.Base.Dict.{Dict, lookup, insert, erase}

pub record File : Type 0 where
  pub content : String
  pub executable : Bool

pub record Faults : Type 0 where
  pub create : Bool
  pub write : Bool
  -- What a write that fails has written.
  pub written : String
  pub close : Bool
  pub chmod : Bool
  pub backup : Bool
  pub place : Bool
  pub restore : Bool
  pub remove : Bool

-- os.Rename: whether it succeeds. It fails also where there is nothing to rename.
unfoldable pub rename : Bool → String → String → Dict File → Bool × Dict File
rename broken from to fs =
    if broken
    then (false, fs)
    else elim (lookup from fs) [ none ↦ (false, fs) | some f ↦ (true, insert to f (erase from fs)) ]

-- The backup, the rename of the new file, and the attempt to bring the backup back.
unfoldable pub place : Faults → String → String → Dict File → Result String (Unit {0}) × Dict File
place flt path tmp fs =
    let (_, backed) = rename flt.backup path (path <> ".bak") fs in
    let (placed, fs') = rename flt.place tmp path backed in
    if placed
    then (ok tt, fs')
    else (err "подмена бинаря", (rename flt.restore (path <> ".bak") path fs').1)

-- From the temporary file on, up to the deferred removal.
unfoldable pub fill :
    Faults → String → String → String → Dict File → Result String (Unit {0}) × Dict File
unfolding place
fill flt path binary tmp fs =
    if flt.write
    then (err "запись temp", insert tmp (record { content = flt.written; executable = false }) fs)
    else let full = insert tmp (record { content = binary; executable = false }) fs in
      if flt.close
      then (err "close", full)
      else if flt.chmod
      then (err "chmod", full)
      else place flt path tmp (insert tmp (record { content = binary; executable = true }) full)

-- `tmp` is the name that os.CreateTemp draws.
unfoldable pub swap_binary :
    Faults → String → String → String → Dict File → Result String (Unit {0}) × Dict File
unfolding fill
swap_binary flt path binary tmp fs =
    if flt.create
    then (err "temp-файл", fs)
    else let (res, fs') =
        fill flt path binary tmp (insert tmp (record { content = ""; executable = false }) fs) in
      (res, if flt.remove then fs' else erase tmp fs')

-- os.Stat is taken to fail where the file is absent; `broken` says whether the rename fails.
unfoldable pub rollback : Bool → String → Dict File → Result String (Unit {0}) × Dict File
rollback broken path fs = elim (lookup (path <> ".bak") fs) [
  | none ↦ (err "backup отсутствует", fs)
  | some _ ↦
      let (renamed, fs') = rename broken (path <> ".bak") path fs in
      (if renamed then ok tt else err "rename", fs')
]
