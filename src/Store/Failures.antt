-- ===== src/Store/Failures.antt =====
-- Statements that fail.
use telemux.Base.{◌&&◌, ◌||◌, Bool, true, false, string_eq, ◌≡◌, arith}
use telemux.Store.{Db, execute}
use telemux.Store.Users.{create_user, delete_user, set_expiration, set_enabled}
use telemux.Store.Refines.{
  Statement, inserts, deletes, expires, enables, passes, Reply, refused, perform,
}

abbrev pub is_refused : Reply → Bool
is_refused (refused _) = true
is_refused _ = false

abbrev pub is_write : Statement → Bool
is_write (passes _) = false
is_write _ = true

-- Where a method answers with an error, and where one that writes is called on a replica, the answer
-- is an error and the table is as it was.
perform-refused :
    (st : Statement) (db : Db)
    → (is_refused (perform st db).0 || (db.is_replica && is_write st)) ≡ true
    → (is_refused (perform st db).0 ≡ true) × ((perform st db).1.users ≡ db.users)
unfolding perform create_user delete_user set_expiration set_enabled execute
perform-refused (inserts n s e c) db h = ground arith
perform-refused (deletes n) db h = ground arith
perform-refused (expires n e) db h = ground arith
perform-refused (enables n b) db h = ground arith
perform-refused (passes t) db h = ground arith
