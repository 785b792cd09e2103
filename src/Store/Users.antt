-- ===== src/Store/Users.antt =====
-- internal/store/users_crud.go, and `ListDesired` of store.go. `collates a b` is the database's order
-- of texts, `format_time` stands for `Format(time.RFC3339)`.
use telemux.Base.{
  take, drop, ℕ, String, Bool, true, ◌&&◌, ◌||◌, Option, none, some, List, [], ◌∷◌, ◌++◌, Result,
  ok, err, ◌==◌, string_eq, if◌then◌else◌, nat_eq, leb, ltb, map, keep, length,
}
use telemux.Base.Int.{ℤ, pos, negsuc, lebℤ}
use telemux.Diff.{DesiredUser}
use telemux.Store.{
  User, Db, StoreError, user_exists, store_failed, DbError, unique_violation, failure, select,
  execute,
}
use telemux.Store.Table.{set_where, affected, delete_where, order_by, with_key}

abbrev pub username : User → String
username u = u.username

-- GenerateSecret
generate_secret : Db → Result String String × Db
generate_secret db = elim db.draws [
  | [] ↦ (err "crypto/rand", db)
  | d ∷ ds ↦ (d, record db { draws = ds })
]

-- A value that the column INTEGER can hold.
abbrev pub fits_int4 : Option ℤ → Bool
fits_int4 none = true
fits_int4 (some n) = lebℤ (negsuc 2147483647) n && lebℤ n (pos 2147483647)

abbrev pub new_row : String → String → Option ℕ → Option ℤ → ℕ → User
new_row name secret exp max_conns now = record {
  username = name;
  secret = secret;
  expiration_at = exp;
  max_tcp_conns = max_conns;
  enabled = true;
  created_at = now;
}

-- INSERT INTO users … RETURNING
insert_user : String → String → Option ℕ → Option ℤ → Db → Result DbError User × Db
insert_user name secret exp max_conns db =
    let u = new_row name secret exp max_conns db.now in
    if nat_eq (with_key username name db.users) 0
    then (ok u, record db { users = db.users ++ u ∷ [] })
    else (err unique_violation, db)

-- `pgErrCode(err) == "23505"`
store_error : Result DbError User → Result StoreError User
store_error (ok u) = ok u
store_error (err unique_violation) = err user_exists
store_error (err (failure e)) = err (store_failed e)

insert_with_secret : String → String → Option ℕ → Option ℤ → Db → Result StoreError User × Db
unfolding insert_user store_error
insert_with_secret name secret exp max_conns db =
    if fits_int4 max_conns
    then (let (answer, db') = execute (insert_user name secret exp max_conns) db in
        (store_error answer, db'))
    else (err (store_failed "value out of range for int4"), db)

unfoldable pub create_user :
    String → String → Option ℕ → Option ℤ → Db → Result StoreError User × Db
unfolding insert_with_secret generate_secret
create_user name secret exp max_conns db =
    if name == ""
    then (err (store_failed "username обязателен"), db)
    else if secret == ""
    then (let (drawn, db') = generate_secret db in
        elim drawn [
          | err e ↦ (err (store_failed e), db')
          | ok s ↦ insert_with_secret name s exp max_conns db'
        ])
    else insert_with_secret name secret exp max_conns db

failure_text : DbError → String
failure_text unique_violation = "unique violation"
failure_text (failure e) = e

-- `tag.RowsAffected() == 1`
one_affected : Result DbError ℕ × Db → Result String Bool × Db
unfolding failure_text
one_affected (ok n, db) = (ok (nat_eq n 1), db)
one_affected (err e, db) = (err (failure_text e), db)

named : String → User → Bool
named name u = name == u.username

unfoldable pub delete_user : String → Db → Result String Bool × Db
unfolding one_affected named
delete_user name db = one_affected (
    execute
      (λ d. (
        ok (affected (named name) d.users),
        record d { users = delete_where (named name) d.users },
      ))
      db)

update_user : String → (User → User) → Db → Result String Bool × Db
unfolding one_affected named
update_user name f db = one_affected (
    execute
      (λ d.
        (ok (affected (named name) d.users), record d { users = set_where (named name) f d.users }))
      db)

unfoldable pub set_expiration : String → Option ℕ → Db → Result String Bool × Db
unfolding update_user
set_expiration name exp db = update_user name (λ u. record u { expiration_at = exp }) db

unfoldable pub set_enabled : String → Bool → Db → Result String Bool × Db
unfolding update_user
set_enabled name enabled db = update_user name (λ u. record u { enabled = enabled }) db

abbrev pub clamp_limit : ℤ → ℕ
clamp_limit (pos n) = if leb n 0 || ltb 100 n then 20 else n
clamp_limit (negsuc n) = 20

abbrev pub clamp_offset : ℤ → ℕ
clamp_offset (pos n) = n
clamp_offset (negsuc n) = 0

module _ (format_time : ℕ → String) where
  formatted : Option ℕ → Option String
  formatted none = none
  formatted (some t) = some (format_time t)

  -- A row as `ListDesired` returns it.
  unfoldable pub desired : User → DesiredUser
  unfolding formatted
  desired u = record {
    username = u.username;
    secret = u.secret;
    expiration_rfc3339 = formatted u.expiration_at;
    max_tcp_conns = u.max_tcp_conns;
  }

module _ (collates : String → String → Bool) where
  -- created_at DESC, username
  unfoldable pub newer_first : User → User → Bool
  newer_first u v =
      ltb v.created_at u.created_at
      || (nat_eq u.created_at v.created_at && collates u.username v.username)

  -- SELECT … ORDER BY … LIMIT … OFFSET …
  unfoldable pub page : ℕ → ℕ → List User → List User
  unfolding newer_first
  page limit offset us = take limit (drop offset (order_by newer_first us))

  unfoldable pub list_users_page : ℤ → ℤ → Db → Result String (List User × ℕ) × Db
  list_users_page limit offset db =
      let (counted, db1) = select (λ d. length d.users) db in
      elim counted [
        | err e ↦ (err e, db1)
        | ok total ↦
            let (listed, db2) =
              select (λ d. page (clamp_limit limit) (clamp_offset offset) d.users) db1 in
            elim listed [ err e ↦ (err e, db2) | ok us ↦ (ok (us, total), db2) ]
      ]

  module _ (format_time : ℕ → String) where
    -- SELECT … FROM users WHERE enabled ORDER BY username
    unfoldable pub enabled_users : List User → List DesiredUser
    enabled_users us =
        map (desired format_time)
          (order_by (λ u v. collates u.username v.username) (keep (λ u. u.enabled) us))

    unfoldable pub list_desired : Db → Result String (List DesiredUser) × Db
    list_desired db = select (λ d. enabled_users d.users) db
