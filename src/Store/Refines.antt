-- ===== src/Store/Refines.antt =====
-- The table of users against a partial map from names to users.
use telemux.Store.Laws.{
  find-set_key, affected-has_key, is_some, if_fits, with_key-append, with_key-delete_where,
  with_key-set_where, find-append, find-delete_where, with_key-eq-zero,
}
use mathlib.Core.Path.{fun_ext}
use telemux.Base.{
  ◌∙◌, ℕ, ◌+◌, String, Bool, true, false, Option, none, some, List, [], ◌∷◌, ◌==◌, string_eq, ◌≡◌,
  ◌≢◌, refl, arith, if◌then◌else◌, Result, ok, err, All,
}
use telemux.Base.Int.{ℤ}
use telemux.Store.{User, Db, StoreError, user_exists, store_failed, execute}
use telemux.Store.Table.{find, IsUnique, has_key}
use telemux.Store.Users.{
  username, create_user, delete_user, set_expiration, set_enabled, fits_int4, new_row,
}

-- The methods that write users, and the passing of time.
pub data Statement : Type 0 where
  inserts : String → String → Option ℕ → Option ℤ → Statement
  deletes : String → Statement
  expires : String → Option ℕ → Statement
  enables : String → Bool → Statement
  passes : ℕ → Statement

pub data Reply : Type 0 where
  inserted : User → Reply
  changed : Bool → Reply
  refused : StoreError → Reply
  nothing : Reply

abbrev pub insert_reply : Result StoreError User → Reply
insert_reply (ok u) = inserted u
insert_reply (err e) = refused e

abbrev pub change_reply : Result String Bool → Reply
change_reply (ok b) = changed b
change_reply (err e) = refused (store_failed e)

unfoldable pub perform : Statement → Db → Reply × Db
perform (inserts n s e c) db = let (a, db') = create_user n s e c db in (insert_reply a, db')
perform (deletes n) db = let (a, db') = delete_user n db in (change_reply a, db')
perform (expires n e) db = let (a, db') = set_expiration n e db in (change_reply a, db')
perform (enables n b) db = let (a, db') = set_enabled n b db in (change_reply a, db')
perform (passes t) db = (nothing, record db { now = db.now + t })

abbrev pub Users : Type 0
Users = String → Option User

abbrev pub view : Db → Users
view db k = find username k db.users

-- The same on a map: the reply, and what becomes of each name.
abbrev changing : String → (User → User) → Users → Users
changing n f m k = if k == n then if_fits (λ u. true) f (m k) else m k

abbrev pub respond : Statement → ℕ → Users → Reply × ℕ × Users
respond (inserts n s e c) now m = if is_some (m n) then (refused user_exists, now, m) else (
  inserted (new_row n s e c now),
  now,
  λ k. if k == n then some (new_row n s e c now) else m k,
)
respond (deletes n) now m = (changed (is_some (m n)), now, λ k. if k == n then none else m k)
respond (expires n e) now m =
    (changed (is_some (m n)), now, changing n (λ u. record u { expiration_at = e }) m)
respond (enables n b) now m =
    (changed (is_some (m n)), now, changing n (λ u. record u { enabled = b }) m)
respond (passes t) now m = (nothing, now + t, m)

-- What a request must be to reach the table as it is.
abbrev pub IsAdmissible : Statement → Type 0
IsAdmissible (inserts n s e c) = (n ≢ "") × (s ≢ "") × (fits_int4 c ≡ true)
IsAdmissible _ = Unit

pub record IsReady (db : Db) : Type 0 where
  pub primary : db.is_replica ≡ false
  pub calm : db.failures ≡ []
  pub once : IsUnique username db.users

pub record Follows (st : Statement) (db : Db) : Type 0 where
  pub replies : (perform st db).0 ≡ (respond st db.now (view db)).0
  pub clock : (perform st db).1.now ≡ (respond st db.now (view db)).1
  pub users : (k : String) → view (perform st db).1 k ≡ (respond st db.now (view db)).2 k
  pub ready : IsReady (perform st db).1

inserts-Follows :
    (n s : String) (e : Option ℕ) (c : Option ℤ) (db : Db)
    → IsAdmissible (inserts n s e c)
    → IsReady db
    → Follows (inserts n s e c) db
unfolding perform create_user execute
inserts-Follows n s e c db a h = record {
  replies = ground (arith, with_key-eq-zero username n db.users);
  clock = ground (arith, with_key-eq-zero username n db.users);
  users = λ k. ground (
    arith,
    with_key-eq-zero username n db.users,
    find-append username k db.users (new_row n s e c db.now),
  );
  ready = record {
    primary = ground arith;
    calm = ground arith;
    once = λ k. ground (
      arith,
      h.once k,
      with_key-eq-zero username n db.users,
      with_key-eq-zero username k db.users,
      with_key-append username k db.users (new_row n s e c db.now),
    );
  };
}

deletes-Follows : (n : String) (db : Db) → IsReady db → Follows (deletes n) db
unfolding perform delete_user execute
deletes-Follows n db h = record {
  replies = ground (arith, affected-has_key username n db.users (h.once n));
  clock = ground arith;
  users = λ k. ground (arith, find-delete_where username k n db.users);
  ready = record {
    primary = ground arith;
    calm = ground arith;
    once = λ k. ground (arith, h.once k, with_key-delete_where username k n db.users);
  };
}

expires-Follows : (n : String) (e : Option ℕ) (db : Db) → IsReady db → Follows (expires n e) db
unfolding perform set_expiration execute
expires-Follows n e db h =
    let f = λ (u : User). record u { expiration_at = e } in
    record {
      replies = ground (arith, affected-has_key username n db.users (h.once n));
      clock = ground arith;
      users = λ k. ground (arith, find-set_key username k n f db.users (λ u. refl));
      ready = record {
        primary = ground arith;
        calm = ground arith;
        once = λ k. ground (
          arith,
          h.once k,
          with_key-set_where username k (has_key username n) f db.users (λ u. refl),
        );
      };
    }

enables-Follows : (n : String) (b : Bool) (db : Db) → IsReady db → Follows (enables n b) db
unfolding perform set_enabled execute
enables-Follows n b db h =
    let f = λ (u : User). record u { enabled = b } in
    record {
      replies = ground (arith, affected-has_key username n db.users (h.once n));
      clock = ground arith;
      users = λ k. ground (arith, find-set_key username k n f db.users (λ u. refl));
      ready = record {
        primary = ground arith;
        calm = ground arith;
        once = λ k. ground (
          arith,
          h.once k,
          with_key-set_where username k (has_key username n) f db.users (λ u. refl),
        );
      };
    }

passes-Follows : (t : ℕ) (db : Db) → IsReady db → Follows (passes t) db
unfolding perform
passes-Follows t db h = record {
  replies = refl;
  clock = refl;
  users = λ k. refl;
  ready = record { primary = h.primary; calm = h.calm; once = h.once };
}

pub perform-Follows : (st : Statement) (db : Db) → IsAdmissible st → IsReady db → Follows st db
perform-Follows (inserts n s e c) db a h = inserts-Follows n s e c db a h
perform-Follows (deletes n) db a h = deletes-Follows n db h
perform-Follows (expires n e) db a h = expires-Follows n e db h
perform-Follows (enables n b) db a h = enables-Follows n b db h
perform-Follows (passes t) db a h = passes-Follows t db h

-- A sequence of statements on the table, and on the map.
abbrev pub run : List Statement → Db → List Reply × Db
run [] db = ([], db)
run (st ∷ sts) db = let (r, db') = perform st db in let (rs, end) = run sts db' in (r ∷ rs, end)

abbrev pub run_map : List Statement → ℕ → Users → List Reply × Users
run_map [] now m = ([], m)
run_map (st ∷ sts) now m =
    let (r, now', m') = respond st now m in let (rs, end) = run_map sts now' m' in (r ∷ rs, end)

-- Any sequence of the methods that write users answers, and leaves the users, as on a partial map
-- from names to users: a name is taken once, a change of a name that is not there changes nothing
-- and says so, and each change is of its name alone. The database is the primary, no statement
-- fails, the table has each name once, and every insert has a name, a secret and a number of
-- connections that the column holds; then the table still has each name once.
pub run-run_map :
    (sts : List Statement) (db : Db)
    → All IsAdmissible sts
    → IsReady db
    → ((run sts db).0 ≡ (run_map sts db.now (view db)).0)
      × (view (run sts db).1 ≡ (run_map sts db.now (view db)).1)
      × IsReady (run sts db).1
run-run_map [] db a h = (refl, refl, h)
run-run_map (st ∷ sts) db a h =
    let now = perform-Follows st db a.0 h in
    let later = run-run_map sts (perform st db).1 a.1 now.ready in
    let same = fun_ext now.users in
    let (reply, now', users') = respond st db.now (view db) in
    let moved : run_map sts (perform st db).1.now (view (perform st db).1)
        ≡ run_map sts now' users' =
      λ i. run_map sts (now.clock i) (same i) in
    (λ i. now.replies i ∷ (later.0 ∙ (λ k. (moved k).0)) i, later.1 ∙ (λ k. (moved k).1), later.2)
