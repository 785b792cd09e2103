-- ===== src/System/Writes.antt =====
-- What the routes that write do to the table of users.
use telemux.Base.{
  ◌≤◌, ℕ, String, Bool, true, false, List, Result, ok, err, Option, none, some, [], ◌∷◌, ◌≡◌, refl,
  arith, nat_eq, ◌++◌,
}
use telemux.Store.Users.{new_row, username, create_user, delete_user, set_expiration, set_enabled}
use telemux.Base.Int.{ℤ}
use telemux.Store.{Db, User, execute}
use telemux.Store.Table.{set_where, affected, delete_where, IsUnique, has_key, with_key}
use telemux.Store.Tokens.{Happening, makes, presents, passes, changes_role, meets, apply}
use telemux.Store.Cluster.{create_join_token, consume_join_token}
use telemux.Server.Users.{Write, creates, deletes, renews, enables, disables, perform}
use telemux.Store.Laws.{
  with_key-append, with_key-delete_where, with_key-set_where, with_key-eq-zero,
}
use telemux.System.Panel.{store_admin}

module _ {R : Type 0} where
  set_where-none :
      (p : R → Bool) (f : R → R) (rs : List R) → affected p rs ≡ 0 → set_where p f rs ≡ rs
  unfolding set_where affected
  set_where-none p f [] h = refl
  set_where-none p f (r ∷ rs) h = ground (arith, set_where-none p f rs)

  delete_where-none : (p : R → Bool) (rs : List R) → affected p rs ≡ 0 → delete_where p rs ≡ rs
  unfolding delete_where affected
  delete_where-none p [] h = refl
  delete_where-none p (r ∷ rs) h = ground (arith, delete_where-none p rs)

module _ (collates : String → String → Bool) where
  -- A row of one name is updated: it is there once, or the table stays the same.
  updated :
      (name : String) (f : User → User) (us : List User)
      → IsUnique username us
      → nat_eq (affected (has_key username name) us) 1 ≡ false
      → set_where (has_key username name) f us ≡ us
  updated name f us once h = ground (arith, once name, set_where-none (has_key username name) f us)

  deleted :
      (name : String) (us : List User)
      → IsUnique username us
      → nat_eq (affected (has_key username name) us) 1 ≡ false
      → delete_where (has_key username name) us ≡ us
  deleted name us once h = ground (arith, once name, delete_where-none (has_key username name) us)

  pub perform-unmarked :
      (r : Write) (db : Db)
      → IsUnique username db.users
      → (perform (store_admin collates) r db).0.1 ≡ false
      → (perform (store_admin collates) r db).1.users ≡ db.users
  unfolding perform create_user delete_user set_expiration set_enabled execute
  perform-unmarked (creates none) db once h = refl
  perform-unmarked (creates (some b)) db once h = ground arith
  perform-unmarked (deletes name) db once h = ground (arith, deleted name db.users once)
  perform-unmarked (renews name none) db once h = refl
  perform-unmarked (renews name (some e)) db once h =
      ground (arith, updated name (λ u. record u { expiration_at = e }) db.users once)
  perform-unmarked (enables name) db once h =
      ground (arith, updated name (λ u. record u { enabled = true }) db.users once)
  perform-unmarked (disables name) db once h =
      ground (arith, updated name (λ u. record u { enabled = false }) db.users once)

  inserted-IsUnique :
      (u : User) (us : List User)
      → IsUnique username us
      → (k : String) → nat_eq (with_key username (username u) us) 0 ≡ true
      → with_key username k (us ++ u ∷ []) ≤ 1
  inserted-IsUnique u us once k h = ground (
    arith,
    once k,
    with_key-append username k us u,
    with_key-eq-zero username (username u) us,
    with_key-eq-zero username k us,
  )

  pub create_user-IsUnique :
      (name secret : String) (e : Option ℕ) (c : Option ℤ) (drawn : List (Result String String))
      (db : Db)
      → db.draws ≡ drawn
      → IsUnique username db.users
      → IsUnique username (create_user name secret e c db).1.users
  unfolding create_user execute
  create_user-IsUnique name secret e c [] db d once k =
      ground (arith, once k, inserted-IsUnique (new_row name secret e c db.now) db.users once k)
  create_user-IsUnique name secret e c (err x ∷ ds) db d once k =
      ground (arith, once k, inserted-IsUnique (new_row name secret e c db.now) db.users once k)
  create_user-IsUnique name secret e c (ok s ∷ ds) db d once k = ground (
    arith,
    once k,
    inserted-IsUnique (new_row name secret e c db.now) db.users once k,
    inserted-IsUnique (new_row name s e c db.now) db.users once k,
  )

  pub perform-IsUnique :
      (r : Write) (db : Db)
      → IsUnique username db.users
      → IsUnique username (perform (store_admin collates) r db).1.users
  unfolding perform create_user delete_user set_expiration set_enabled execute
  perform-IsUnique (creates none) db once k = once k
  perform-IsUnique (creates (some b)) db once k = ground (
    arith,
    once k,
    create_user-IsUnique b.username b.secret b.expiration_at b.max_tcp_conns db.draws db refl once
        k,
  )
  perform-IsUnique (deletes name) db once k =
      ground (arith, once k, with_key-delete_where username k name db.users)
  perform-IsUnique (renews name none) db once k = once k
  perform-IsUnique (renews name (some e)) db once k = ground (
    arith,
    once k,
    with_key-set_where username k (has_key username name) (λ u. record u { expiration_at = e })
        db.users (λ u. refl),
  )
  perform-IsUnique (enables name) db once k = ground (
    arith,
    once k,
    with_key-set_where username k (has_key username name) (λ u. record u { enabled = true })
        db.users (λ u. refl),
  )
  perform-IsUnique (disables name) db once k = ground (
    arith,
    once k,
    with_key-set_where username k (has_key username name) (λ u. record u { enabled = false })
        db.users (λ u. refl),
  )

pub apply-users : (h : Happening) (db : Db) → (apply h db).users ≡ db.users
unfolding create_join_token consume_join_token execute
apply-users (makes t ttl) db = ground arith
apply-users (presents t) db = ground arith
apply-users (passes n) db = refl
apply-users (changes_role b) db = refl
apply-users (meets fs) db = refl
