-- ===== src/Store.antt =====
-- The database of the panel, internal/store with the tables of internal/migrations/0001_init.sql.
-- A table is the list of its rows. A statement may fail for a reason outside the program, and one
-- that writes fails on a replica. `id` and the columns that no statement reads are left out.
pub mod Table
pub mod Users
pub mod Cluster
pub mod Laws
pub mod Refines
pub mod Failures
pub mod Tokens
pub mod Desired
pub mod Pages
use telemux.Base.{
  ℕ, String, Bool, true, false, Option, none, some, List, [], ◌∷◌, Result, ok, err, if◌then◌else◌,
}
use telemux.Base.Int.{ℤ}

-- A row of `users`, with times as numbers.
pub record User : Type 0 where
  pub username : String
  pub secret : String
  pub expiration_at : Option ℕ
  pub max_tcp_conns : Option ℤ
  pub enabled : Bool
  pub created_at : ℕ

pub record Node : Type 0 where
  pub code : String
  pub name : String
  pub address : String
  pub telemt_api_url : String
  pub role : String
  pub enabled : Bool
  pub last_seen_at : Option ℕ

pub record JoinToken : Type 0 where
  pub token : String
  pub expires_at : ℕ
  pub used_at : Option ℕ

-- `now` is the database's clock. `failures` are the errors that the next statements meet, `draws`
-- what the next calls of crypto/rand return. Past the lists no statement fails, and every draw does.
pub record Db : Type 0 where
  pub users : List User
  pub nodes : List Node
  pub tokens : List JoinToken
  pub is_replica : Bool
  pub now : ℕ
  pub failures : List (Option String)
  pub draws : List (Result String String)

-- ErrUserExists, or any other error.
pub data StoreError : Type 0 where
  user_exists : StoreError
  store_failed : String → StoreError

-- SQLSTATE 23505, or another error.
pub data DbError : Type 0 where
  unique_violation : DbError
  failure : String → DbError

-- The failure that the next statement meets, and the rest.
abbrev pub next_failure : List (Option String) → Option String × List (Option String)
next_failure [] = (none, [])
next_failure (f ∷ fs) = (f, fs)

unfoldable pub select : {A : Type 0} → (Db → A) → Db → Result String A × Db
select q db =
    let (fault, later) = next_failure db.failures in
    elim fault [
      | some e ↦ (err e, record db { failures = later })
      | none ↦ (ok (q db), record db { failures = later })
    ]

unfoldable pub execute : {A : Type 0} → (Db → Result DbError A × Db) → Db → Result DbError A × Db
execute q db =
    let (fault, later) = next_failure db.failures in
    elim fault [
      | some e ↦ (err (failure e), record db { failures = later })
      | none ↦
          if db.is_replica
          then (
            err (failure "cannot execute in a read-only transaction"),
            record db { failures = later },
          )
          else q (record db { failures = later })
    ]

-- pg_is_in_recovery()
unfoldable pub is_in_recovery : Db → Result String Bool × Db
unfolding select
is_in_recovery db = select (λ d. d.is_replica) db
