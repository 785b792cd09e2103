-- ===== src/System/Commands.antt =====
-- What the routes that write users do, against a partial map from names to users.
pub mod Statements
use telemux.Base.{
  ℕ, String, Bool, true, false, Option, none, some, List, [], ◌∷◌, Result, ok, err, ◌==◌, ◌≡◌, ◌≢◌,
  refl, sym, ap, ◌∙◌, subst, arith, inl, inr, Bool-cases, string_eq, if◌then◌else◌,
}
use telemux.Base.Int.{ℤ}
use telemux.Role.{detect, is_master}
use telemux.Store.{Db, User, is_in_recovery, select, user_exists, store_failed, StoreError}
use telemux.Store.Users.{create_user, delete_user, set_expiration, set_enabled, username}
use telemux.Store.Refines.{
  Statement, inserts, deletes, expires, enables, passes, Reply, inserted, changed, refused, nothing,
  Users, view, respond, IsAdmissible, IsReady, Follows, perform-Follows, insert_reply, change_reply,
}
use telemux.Store.Refines
use telemux.Server.Users.{
  Write, NewUser, creates, renews, disables, Response, created, done, handle, require_master,
  barred, perform, create_answered, change,
}
use telemux.Store.Table.{find}
use telemux.System.Panel.{store_admin}
use telemux.System.Commands.Statements.{answered, statement_of, before, perform-statement}

module _ (collates : String → String → Bool) where
  before-IsReady : (r : Write) (db : Db) → IsReady db → IsReady (before r db)
  before-IsReady (creates (some b)) db h = record {
    primary = ground arith;
    calm = ground arith;
    once = λ k. ground (arith, h.once k);
  }
  before-IsReady _ db h = h

  -- The names as a map, and the clock, do not change before that method.
  before-same :
      (r : Write) (db : Db) → ((before r db).users ≡ db.users) × ((before r db).now ≡ db.now)
  before-same (creates (some b)) db = ground arith
  before-same _ db = (refl, refl)

  recovery_ready : (db : Db) → IsReady db → is_in_recovery db ≡ (ok false, db)
  unfolding is_in_recovery select
  recovery_ready db h = ground arith

  handle_ready :
      (r : Write) (dirty : Bool) (db : Db)
      → IsReady db
      → handle (store_admin collates) r dirty db ≡ (
          let ((answer, marks), db') = perform (store_admin collates) r db in
          (answer, if marks then true else dirty, db'))
  unfolding handle require_master barred detect is_master
  handle_ready r dirty db h =
      rw (recovery_ready db h, handle, require_master)
        (ap
          (λ (d : Db).
            let ((answer, marks), db') = perform (store_admin collates) r d in
            (answer, if marks then true else dirty, db'))
          (ap (λ (x : Result String Bool × Db). x.1) (recovery_ready db h)))

  -- A route that writes users, on a primary whose statements do not fail, answers and leaves the
  -- users as its method does on a partial map from names to users: a new user with the row that was
  -- made or 409 where the name is taken, the change or 404 where it is not; and leaves the signal
  -- exactly where it changed something. The body is as it must be; where it has no secret, the one
  -- that is drawn is taken.
  pub handle-respond :
      (r : Write) (dirty : Bool) (db : Db) (st : Statement)
      → IsReady db
      → statement_of r db ≡ some st
      → IsAdmissible st
      → (handle (store_admin collates) r dirty db).0 ≡ (answered (respond st db.now (view db)).0).0
        × ((handle (store_admin collates) r dirty db).1
            ≡ (if (answered (respond st db.now (view db)).0).1 then true else dirty))
        × ((k : String)
            → view (handle (store_admin collates) r dirty db).2 k
              ≡ (respond st db.now (view db)).2 k)
        × IsReady (handle (store_admin collates) r dirty db).2
  handle-respond r dirty db st h means a =
      let follows = perform-Follows st (before r db) a (before-IsReady r db h) in
      let (same_users, same_now) = before-same r db in
      let same : respond st (before r db).now (view (before r db)) ≡ respond st db.now (view db) =
        λ i. respond st (same_now i) (λ k. find username k (same_users i)) in
      let handled =
        handle_ready r dirty db h
        ∙ ap (λ (x : (Response × Bool) × Db). (x.0.0, if x.0.1 then true else dirty, x.1))
            (perform-statement collates r db st means a) in
      let reply = follows.replies ∙ ap (λ (x : Reply × ℕ × Users). x.0) same in
      (
        ap (λ (x : Response × Bool × Db). x.0) handled ∙ ap (λ (x : Reply). (answered x).0) reply,
        ap (λ (x : Response × Bool × Db). x.1) handled
            ∙ ap (λ (x : Reply). if (answered x).1 then true else dirty) reply,
        λ k.
            ap (λ (x : Response × Bool × Db). view x.2 k) handled
            ∙ follows.users k
            ∙ ap (λ (x : Reply × ℕ × Users). x.2 k) same,
        subst (λ (x : Response × Bool × Db). IsReady x.2) (sym handled) follows.ready,
      )
