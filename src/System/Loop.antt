-- ===== src/System/Loop.antt =====
-- The background loop of internal/server/server.go next to the routes that write: `markDirty`,
-- `syncLoop` and the read of `runSync`, with the store of this node. A route commits and marks in
-- two steps, so that the loop may run between them; `runMu` lets one run read at a time.
use telemux.Base.{
  ℕ, suc, String, Bool, true, false, List, Result, Option, none, some, ◌≡◌, if◌then◌else◌,
}
use telemux.Diff.{DesiredUser}
use telemux.Store.{Db}
use telemux.Store.Users.{list_desired}
use telemux.Store.Tokens.{Happening, apply}
use telemux.Server.Users.{Write, perform}
use telemux.System.Panel.{store_admin}

-- `dirty` is the signal in the channel, `pending` the routes that have written and not yet marked,
-- `woken` whether the loop is to run, `read` what the last run read of the users that are wanted.
pub record Daemon : Type 0 where
  pub db : Db
  pub dirty : Bool
  pub pending : ℕ
  pub woken : Bool
  pub read : Option (Result String (List DesiredUser))

-- The loop starts with a run.
abbrev pub starting : Db → Daemon
starting db = record { db = db; dirty = false; pending = 0; woken = true; read = none }

unfoldable pub mark_dirty : Daemon → Daemon
mark_dirty s = record s { dirty = true }

module _ (collates : String → String → Bool) (format_time : ℕ → String) where
  -- A run of either kind reads the table.
  unfoldable pub begin_run : Daemon → Daemon
  begin_run s =
      let (answer, db') = list_desired collates format_time s.db in
      record s { db = db'; read = some answer }

  -- A route past the check of the role, up to its call of `markDirty`.
  unfoldable pub write : Write → Daemon → Daemon
  write r s =
      let ((_, marks), db') = perform (store_admin collates) r s.db in
      record s { db = db'; pending = if marks then suc s.pending else s.pending }

  pub data Step : Daemon → Daemon → Type 0 where
    writes : (r : Write) (s : Daemon) → Step s (write r s)
    marks :
        (n : ℕ) (s : Daemon) → s.pending ≡ suc n → Step s (mark_dirty (record s { pending = n }))
    -- The loop receives from the channel.
    receives :
        (s : Daemon)
        → s.woken ≡ false
        → s.dirty ≡ true
        → Step s (record s { dirty = false; woken = true })
    ticks : (s : Daemon) → Step s (record s { woken = true })
    runs : (s : Daemon) → s.woken ≡ true → Step s (record (begin_run s) { woken = false })
    -- POST /api/sync
    is_asked : (s : Daemon) → Step s (begin_run s)
    happens : (h : Happening) (s : Daemon) → Step s (record s { db = apply h s.db })

  pub data Reaches (db : Db) : Daemon → Type 0 where
    starts : Reaches db (starting db)
    goes_on : {s t : Daemon} → Reaches db s → Step s t → Reaches db t
