-- ===== src/Update/Back.antt =====
-- A rollback after an update.
use telemux.Base.{◌≡◌, ◌≢◌, false, none, some, ok, String, ◌<>◌, arith, string_eq}
use telemux.Base.Dict.{Dict, lookup}
use telemux.Update.Files.{File, Faults, swap_binary, rollback}
use telemux.Update.Swap.{swap_binary_lem, lookup-rename, renamed, longer}

module _ (flt : Faults) (path binary tmp : String) (fs : Dict File) (old : File) where
  -- After a replacement that succeeded and made its backup, a rollback whose rename works succeeds
  -- and brings the old binary back, and uses the backup up.
  pub rollback-swap_binary :
      lookup path fs ≡ some old
      → tmp ≢ path
      → tmp ≢ path <> ".bak"
      → (swap_binary flt path binary tmp fs).0 ≡ ok tt
      → flt.backup ≡ false
      → ((rollback false path (swap_binary flt path binary tmp fs).1).0 ≡ ok tt)
        × (lookup path (rollback false path (swap_binary flt path binary tmp fs).1).1 ≡ some old)
        × (lookup (path <> ".bak") (rollback false path (swap_binary flt path binary tmp fs).1).1
            ≡ none)
  unfolding rollback
  rollback-swap_binary there fresh fresh_bak done backed =
      let bak = path <> ".bak" in
      let fs' = (swap_binary flt path binary tmp fs).1 in
      ground (
        arith,
        longer path,
        swap_binary_lem flt path binary tmp fs old there fresh fresh_bak,
        lookup-rename false bak path path fs',
        lookup-rename false bak path bak fs',
        renamed false bak path fs' old,
      )
