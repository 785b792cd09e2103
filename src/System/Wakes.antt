-- ===== src/System/Wakes.antt =====
-- No change of the users is lost between the routes and the loop.
use telemux.Base.{
  subst, sym, ◌&&◌, ℕ, String, Bool, false, List, Result, ok, err, Option, none, some, ◌≡◌, refl,
  arith, ◌⊎◌, inl, inr, not, nat_eq, Result-cases, Bool-cases,
}
use telemux.Diff.{DesiredUser}
use telemux.Store.{Db, User, select}
use telemux.Store.Table.{IsUnique}
use telemux.Store.Users.{username, list_desired, enabled_users}
use telemux.Store.Tokens.{apply}
use telemux.Server.Users.{perform}
use telemux.System.Panel.{store_admin}
use telemux.System.Loop.{
  Daemon, mark_dirty, begin_run, write, Step, writes, marks, receives, ticks, runs, is_asked,
  happens, Reaches, starts, goes_on,
}
use telemux.System.Writes.{perform-unmarked, perform-IsUnique, apply-users}

module _ (collates : String → String → Bool) (format_time : ℕ → String) where
  -- The last run read the users that the table has enabled now, if it read them at all.
  IsFresh : Option (Result String (List DesiredUser)) → List User → Type 0
  IsFresh none us = ⊥
  IsFresh (some (err e)) us = Unit
  IsFresh (some (ok ds)) us = ds ≡ enabled_users collates format_time us

  -- A route is about to mark, the signal is there, or the loop is to run.
  abbrev pub Awaits : Daemon → Type 0
  Awaits s = (nat_eq s.pending 0 && not s.dirty && not s.woken) ≡ false

  record IsKept (s : Daemon) : Type 0 where
    pub once : IsUnique username s.db.users
    pub known : Awaits s ⊎ IsFresh s.read s.db.users

  pub list_desired-users : (db : Db) → (list_desired collates format_time db).1.users ≡ db.users
  unfolding list_desired select
  list_desired-users db = ground arith

  list_desired-IsFresh :
      (db : Db) → IsFresh (some (list_desired collates format_time db).0) db.users
  unfolding list_desired select IsFresh
  list_desired-IsFresh db = elim (Result-cases (list_desired collates format_time db).0) [
    | inl (ds, e) ↦ rw e (ground arith)
    | inr (x, e) ↦ rw e tt
  ]

  -- A step that leaves the users keeps what is known of them.
  same_users :
      (us us' : List User) (found : Option (Result String (List DesiredUser))) (A : Type 0)
      → us' ≡ us
      → IsUnique username us
      → A ⊎ IsFresh found us
      → IsUnique username us' × (A ⊎ IsFresh found us')
  same_users us us' found A e once h = (
    subst (λ (vs : List User). IsUnique username vs) (sym e) once,
    subst (λ (vs : List User). A ⊎ IsFresh found vs) (sym e) h,
  )

  run-IsKept :
      (s : Daemon) (w : Bool)
      → IsKept s
      → IsKept (record (begin_run collates format_time s) { woken = w })
  unfolding begin_run
  run-IsKept s w h =
      let (once, known) =
        same_users s.db.users (list_desired collates format_time s.db).1.users
          (some (list_desired collates format_time s.db).0) (Awaits (record s { woken = w }))
          (list_desired-users s.db) h.once (inr (list_desired-IsFresh s.db)) in
      record { once = once; known = known }

  Step-IsKept : {s t : Daemon} → Step collates format_time s t → IsKept s → IsKept t
  unfolding mark_dirty write begin_run IsFresh
  Step-IsKept (writes r s) h = elim (Bool-cases (perform (store_admin collates) r s.db).0.1) [
    | inl m ↦ record { once = perform-IsUnique collates r s.db h.once; known = inl (ground arith) }
    | inr m ↦
        let (once, known) =
          same_users s.db.users (perform (store_admin collates) r s.db).1.users s.read (Awaits s)
            (perform-unmarked collates r s.db h.once m) h.once h.known in
        record { once = once; known = elim known [ inl a ↦ inl (ground arith) | inr f ↦ inr f ] }
  ]
  Step-IsKept (marks n s e) h = record { once = h.once; known = inl (ground arith) }
  Step-IsKept (receives s idle e) h = record { once = h.once; known = inl (ground arith) }
  Step-IsKept (ticks s) h = record { once = h.once; known = inl (ground arith) }
  Step-IsKept (runs s e) h = run-IsKept s false h
  Step-IsKept (is_asked s) h = run-IsKept s s.woken h
  Step-IsKept (happens x s) h =
      let (once, known) =
        same_users s.db.users (apply x s.db).users s.read (Awaits s) (apply-users x s.db) h.once
          h.known in
      record { once = once; known = known }

  Reaches-IsKept :
      {db : Db} {s : Daemon}
      → IsUnique username db.users
      → Reaches collates format_time db s
      → IsKept s
  Reaches-IsKept once starts = record { once = once; known = inl refl }
  Reaches-IsKept once (goes_on r st) = Step-IsKept st (Reaches-IsKept once r)

  IsFresh-read :
      (found : Option (Result String (List DesiredUser))) (us : List User)
      → IsFresh found us
      → (found ≡ some (ok (enabled_users collates format_time us)))
        ⊎ ((e : String) × (found ≡ some (err e)))
  unfolding IsFresh
  IsFresh-read none us f = absurd f
  IsFresh-read (some (ok ds)) us f = inl (ground arith)
  IsFresh-read (some (err e)) us f = inr (e, refl)

  -- Whenever no route is about to mark, the signal is not there and the loop waits, the last run
  -- read the users that the table has enabled now, or could not read them. The table starts with
  -- each name once, and only the routes of this daemon change users.
  pub quiet-read :
      (db : Db) (s : Daemon)
      → IsUnique username db.users
      → Reaches collates format_time db s
      → s.pending ≡ 0
      → s.dirty ≡ false
      → s.woken ≡ false
      → (s.read ≡ some (ok (enabled_users collates format_time s.db.users)))
        ⊎ ((e : String) × (s.read ≡ some (err e)))
  unfolding IsFresh
  quiet-read db s once r p d w = elim (Reaches-IsKept once r).known [
    | inl a ↦ ground arith
    | inr f ↦ IsFresh-read s.read s.db.users f
  ]
