-- ===== src/Update/Swap.antt =====
-- What is on disk after the binary is replaced, whichever calls fail.
use telemux.Base.{
  not, List, [], ◌∷◌, ◌∙◌, ◌||◌, ◌&&◌, ap, ◌==◌, string_eq, inl, inr, Option-cases, String, ◌<>◌,
  Bool, true, false, Option, none, some, Result, ok, err, if◌then◌else◌, ◌≡◌, ◌≢◌, arith, refl,
}
use Prim.Native.String.append.{cons}
use mathlib.Core.Path.{sym}
use telemux.Base.Dict.{Dict, lookup, insert, erase, lookup-insert, lookup-erase}
use telemux.Update.Files.{place, fill, File, Faults, rename, swap_binary}

pub lookup-rename :
    (broken : Bool) (from to k : String) (fs : Dict File)
    → lookup k (rename broken from to fs).1 ≡ (
        if broken then lookup k fs else elim (lookup from fs) [
          | none ↦ lookup k fs
          | some f ↦ if k == to then some f else if k == from then none else lookup k fs
        ])
unfolding rename
lookup-rename broken from to k fs = elim (Option-cases (lookup from fs)) [
  | inl none_there ↦ ground arith
  | inr (f, e) ↦ ground (arith, lookup-erase k from fs, lookup-insert k to f (erase from fs))
]

abbrev tail : String → String
tail String.[] = ""
tail (String.◌∷◌ c s) = s

abbrev is_empty : String → Bool
is_empty String.[] = true
is_empty (String.◌∷◌ c s) = false

pub longer : (path : String) → (path <> ".bak") ≢ path
longer String.[] e = ground (arith, ap is_empty e)
longer (String.◌∷◌ c path) e = longer path (sym (ap tail (cons c path ".bak")) ∙ ap tail e)

abbrev pub is_ok : Result String (Unit {0}) → Bool
is_ok (ok _) = true
is_ok (err _) = false

pub renamed :
    (broken : Bool) (from to : String) (fs : Dict File) (f : File)
    → lookup from fs ≡ some f
    → (rename broken from to fs).0 ≡ not broken
unfolding rename
renamed broken from to fs f h = ground arith

module _ (flt : Faults) (path binary tmp : String) (fs : Dict File) (old : File) where
  abbrev built : File
  built = record { content = binary; executable = true }

  -- Before anything is renamed.
  abbrev pub failed_early : Bool
  failed_early = flt.create || flt.write || flt.close || flt.chmod

  abbrev or_old : Option File → Option File
  or_old none = some old
  or_old (some stale) = some stale

  -- What the path of the binary holds after the renames.
  abbrev placed_binary : Option File
  placed_binary =
      if not flt.place
      then some built
      else if flt.backup
      then (if flt.restore then some old else or_old (lookup (path <> ".bak") fs))
      else if flt.restore
      then none
      else some old

  abbrev pub binary_after : Option File
  binary_after = if failed_early then some old else placed_binary

  -- What the path of the backup holds after the renames.
  abbrev placed_backup : Option File
  placed_backup =
      if not flt.place
      then (if flt.backup then lookup (path <> ".bak") fs else some old)
      else if not flt.restore
      then none
      else if flt.backup
      then lookup (path <> ".bak") fs
      else some old

  abbrev pub backup_after : Option File
  backup_after = if failed_early then lookup (path <> ".bak") fs else placed_backup

  place_lem :
      (full : Dict File)
      → lookup path full ≡ some old
      → lookup tmp full ≡ some (record { content = binary; executable = true })
      → lookup (path <> ".bak") full ≡ lookup (path <> ".bak") fs
      → tmp ≢ path
      → tmp ≢ path <> ".bak"
      → (lookup path (place flt path tmp full).1 ≡ placed_binary)
        × (lookup (path <> ".bak") (place flt path tmp full).1 ≡ placed_backup)
        × (is_ok (place flt path tmp full).0 ≡ not flt.place)
  unfolding place
  place_lem full there ready same fresh fresh_bak =
      let bak = path <> ".bak" in
      let backed = (rename flt.backup path bak full).1 in
      let placed = (rename flt.place tmp path backed).1 in
      ground (
        arith,
        longer path,
        lookup-rename flt.backup path bak path full,
        lookup-rename flt.backup path bak bak full,
        lookup-rename flt.backup path bak tmp full,
        renamed flt.place tmp path backed (record { content = binary; executable = true }),
        lookup-rename flt.place tmp path path backed,
        lookup-rename flt.place tmp path bak backed,
        lookup-rename flt.restore bak path path placed,
        lookup-rename flt.restore bak path bak placed,
      )

  -- The temporary file is the only one that changes before the renames.
  abbrev with_temporary : List File → Dict File
  with_temporary [] = fs
  with_temporary (f ∷ fs') = insert tmp f (with_temporary fs')

  lookup-with_temporary :
      (k : String) (fs' : List File) → tmp ≢ k → lookup k (with_temporary fs') ≡ lookup k fs
  lookup-with_temporary k [] h = refl
  lookup-with_temporary k (f ∷ fs') h =
      ground (arith, lookup-insert k tmp f (with_temporary fs'), lookup-with_temporary k fs')

  -- What replacing the binary leaves, whichever calls of the system fail: a failure before the
  -- renames leaves the old binary and the old backup; success leaves the new binary, executable,
  -- with the old one as the backup unless the backup failed; a failed replacement leaves the old
  -- binary in place, or, where restoring fails too, in the backup alone, or, where the backup had
  -- failed and an earlier backup is there, replaces it by that one. It succeeds exactly when
  -- nothing before the renames and not the replacement fails. The binary exists, and the temporary
  -- file has a name of its own.
  pub swap_binary_lem :
      lookup path fs ≡ some old
      → tmp ≢ path
      → tmp ≢ path <> ".bak"
      → (lookup path (swap_binary flt path binary tmp fs).1 ≡ binary_after)
        × (lookup (path <> ".bak") (swap_binary flt path binary tmp fs).1 ≡ backup_after)
        × (is_ok (swap_binary flt path binary tmp fs).0 ≡ (not failed_early && not flt.place))
  unfolding swap_binary fill
  swap_binary_lem there fresh fresh_bak =
      let bak = path <> ".bak" in
      let f0 : File = record { content = ""; executable = false } in
      let f1 : File = record { content = binary; executable = false } in
      let fp : File = record { content = flt.written; executable = false } in
      let opened = insert tmp f0 fs in
      let full = insert tmp f1 opened in
      let ready = insert tmp built full in
      let fs' = (fill flt path binary tmp opened).1 in
      ground (
        arith,
        lookup-with_temporary path (f0 ∷ []),
        lookup-with_temporary bak (f0 ∷ []),
        lookup-with_temporary path (f1 ∷ f0 ∷ []),
        lookup-with_temporary bak (f1 ∷ f0 ∷ []),
        lookup-with_temporary path (fp ∷ f0 ∷ []),
        lookup-with_temporary bak (fp ∷ f0 ∷ []),
        lookup-with_temporary path (built ∷ f1 ∷ f0 ∷ []),
        lookup-with_temporary bak (built ∷ f1 ∷ f0 ∷ []),
        lookup-erase path tmp fs',
        lookup-erase bak tmp fs',
        lookup-insert tmp tmp built full,
        place_lem ready,
      )
