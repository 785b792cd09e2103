-- ===== src/System/Commands/Statements.antt =====
-- Which method of the store a route that writes users calls, and what it answers.
use telemux.Base.{
  ℕ, String, Bool, true, false, Option, none, some, List, [], ◌∷◌, Result, ok, err, ◌==◌, ◌≡◌, ◌≢◌,
  refl, sym, subst, arith, inl, inr, Bool-cases, string_eq, if◌then◌else◌,
}
use telemux.Base.Int.{ℤ}
use telemux.Store.{Db, User, user_exists, store_failed, StoreError}
use telemux.Store.Users.{create_user, delete_user, set_expiration, set_enabled}
use telemux.Store.Refines.{
  Statement, inserts, deletes, expires, enables, passes, Reply, inserted, changed, refused, nothing,
  Users, view, respond, IsAdmissible, IsReady, Follows, perform-Follows, insert_reply, change_reply,
}
use telemux.Store.Refines
use telemux.Server.Users.{
  Write, NewUser, creates, renews, disables, Response, created, done, perform, create_answered,
  change,
}
use telemux.System.Panel.{store_admin}

-- The answer to a reply of the store, and whether it leaves the signal.
abbrev pub answered : Reply → Response × Bool
answered (inserted u) = (created u, true)
answered (changed true) = (done, true)
answered (changed false) = (Response.refused 404 "нет такого юзера", false)
answered (refused user_exists) =
    (Response.refused 409 "пользователь с таким username уже существует", false)
answered (refused (store_failed e)) = (Response.refused 503 e, false)
answered nothing = (done, false)

abbrev drawn : List (Result String String) → String
drawn (ok s ∷ ds) = s
drawn _ = ""

abbrev rest : List (Result String String) → List (Result String String)
rest [] = []
rest (d ∷ ds) = ds

-- The secret of the body, or the one that is drawn.
abbrev secret_for : NewUser → Db → String
secret_for b db = if b.secret == "" then drawn db.draws else b.secret

-- The method of the store that a route means; none where the body is not as it must be.
abbrev pub statement_of : Write → Db → Option Statement
statement_of (creates none) db = none
statement_of (creates (some b)) db =
    if b.username == ""
    then none
    else some (inserts b.username (secret_for b db) b.expiration_at b.max_tcp_conns)
statement_of (Write.deletes name) db = some (Statement.deletes name)
statement_of (renews name none) db = none
statement_of (renews name (some exp)) db = some (expires name exp)
statement_of (Write.enables name) db = some (Statement.enables name true)
statement_of (disables name) db = some (Statement.enables name false)

-- The database before that method.
abbrev pub before : Write → Db → Db
before (creates (some b)) db = if b.secret == "" then record db { draws = rest db.draws } else db
before _ db = db

create_user-drawn :
    (name s : String) (exp : Option ℕ) (conns : Option ℤ) (ds : List (Result String String))
    (db : Db)
    → db.draws ≡ ok s ∷ ds
    → (name == "") ≡ false
    → s ≢ ""
    → create_user name "" exp conns db ≡ create_user name s exp conns (record db { draws = ds })
unfolding create_user
create_user-drawn name s exp conns ds db h named some_secret = ground arith

same_statement : (P : Statement → Type 0) (x st : Statement) → some x ≡ some st → P x → P st
same_statement P x st e p = subst P (ground (arith, e)) p

module _ (collates : String → String → Bool) where
  create_answered-reply :
      (a : Result StoreError User)
      → create_answered (store_admin collates) a ≡ answered (insert_reply a)
  unfolding create_answered
  create_answered-reply (ok u) = refl
  create_answered-reply (err user_exists) = refl
  create_answered-reply (err (store_failed e)) = refl

  change-reply :
      (r : Result String Bool × Db)
      → change (store_admin collates) r ≡ (answered (change_reply r.0), r.1)
  unfolding change
  change-reply (ok true, db) = refl
  change-reply (ok false, db) = refl
  change-reply (err e, db) = refl

  -- A route does what a method of the store does, and answers its reply.
  abbrev pub Does : Write → Db → Statement → Type 0
  Does r db st =
      perform (store_admin collates) r db
      ≡ (answered (Refines.perform st (before r db)).0, (Refines.perform st (before r db)).1)

  creates-given :
      (b : NewUser) (db : Db)
      → (b.username == "") ≡ false
      → (b.secret == "") ≡ false
      → Does (creates (some b)) db (inserts b.username b.secret b.expiration_at b.max_tcp_conns)
  unfolding perform Refines.perform
  creates-given b db named given = ground (
    arith,
    create_answered-reply (create_user b.username b.secret b.expiration_at b.max_tcp_conns db).0,
  )

  creates-drawn :
      (b : NewUser) (s : String) (ds : List (Result String String)) (db : Db)
      → (b.username == "") ≡ false
      → b.secret ≡ ""
      → db.draws ≡ ok s ∷ ds
      → s ≢ ""
      → Does (creates (some b)) db (inserts b.username s b.expiration_at b.max_tcp_conns)
  unfolding perform Refines.perform
  creates-drawn b s ds db named missing d some_secret = ground (
    arith,
    create_answered-reply (create_user b.username "" b.expiration_at b.max_tcp_conns db).0,
    create_user-drawn b.username s b.expiration_at b.max_tcp_conns ds db d named some_secret,
  )

  creates-missing :
      (b : NewUser) (ds : List (Result String String)) (db : Db)
      → (b.username == "") ≡ false
      → b.secret ≡ ""
      → db.draws ≡ ds
      → IsAdmissible (inserts b.username (drawn ds) b.expiration_at b.max_tcp_conns)
      → Does (creates (some b)) db (inserts b.username (drawn ds) b.expiration_at b.max_tcp_conns)
  creates-missing b [] db named missing d a = absurd (a.1 refl)
  creates-missing b (err e ∷ ds) db named missing d a = absurd (a.1 refl)
  creates-missing b (ok s ∷ ds) db named missing d a = creates-drawn b s ds db named missing d a.1

  creates-statement :
      (b : NewUser) (db : Db)
      → (b.username == "") ≡ false
      → IsAdmissible (inserts b.username (secret_for b db) b.expiration_at b.max_tcp_conns)
      → Does
          (creates (some b))
          db
          (inserts b.username (secret_for b db) b.expiration_at b.max_tcp_conns)
  creates-statement b db named a = elim (Bool-cases (b.secret == "")) [
    | inl e ↦
        let same : secret_for b db ≡ drawn db.draws = ground arith in
        subst
          (λ (x : String).
            Does (creates (some b)) db (inserts b.username x b.expiration_at b.max_tcp_conns))
          (sym same)
          (creates-missing b db.draws db named (ground arith) refl (
            subst
              (λ (x : String). IsAdmissible (inserts b.username x b.expiration_at b.max_tcp_conns))
              same a))
    | inr e ↦
        let same : secret_for b db ≡ b.secret = ground arith in
        subst
          (λ (x : String).
            Does (creates (some b)) db (inserts b.username x b.expiration_at b.max_tcp_conns))
          (sym same) (creates-given b db named e)
  ]

  pub perform-statement :
      (r : Write) (db : Db) (st : Statement)
      → statement_of r db ≡ some st
      → IsAdmissible st
      → Does r db st
  unfolding perform Refines.perform
  perform-statement (creates none) db st h a = absurd (ground arith)
  perform-statement (creates (some b)) db st h a = elim (Bool-cases (b.username == "")) [
    | inl e ↦ absurd (ground arith)
    | inr named ↦
        let st' = inserts b.username (secret_for b db) b.expiration_at b.max_tcp_conns in
        let same : st' ≡ st = ground arith in
        subst (Does (creates (some b)) db) same
          (creates-statement b db named (subst IsAdmissible (sym same) a))
  ]
  perform-statement (Write.deletes name) db st h a =
      same_statement (Does (Write.deletes name) db) (Statement.deletes name) st h
        (change-reply (delete_user name db))
  perform-statement (renews name none) db st h a = absurd (ground arith)
  perform-statement (renews name (some exp)) db st h a =
      same_statement (Does (renews name (some exp)) db) (expires name exp) st h
        (change-reply (set_expiration name exp db))
  perform-statement (Write.enables name) db st h a =
      same_statement (Does (Write.enables name) db) (Statement.enables name true) st h
        (change-reply (set_enabled name true db))
  perform-statement (disables name) db st h a =
      same_statement (Does (disables name) db) (Statement.enables name false) st h
        (change-reply (set_enabled name false db))
