-- ===== src/System/Unique.antt =====
-- The keys of the tables, whatever requests come.
use telemux.Base.{
  ℕ, String, Bool, true, false, Option, none, some, List, ◌≡◌, refl, arith, string_eq, sym, subst,
}
use telemux.Base.Int.{ℤ}
use telemux.Store.{Db, Node, select, execute}
use telemux.Store.Table.{IsUnique, has_key}
use telemux.Store.Laws.{with_key-append, with_key-set_where, with_key-eq-zero}
use telemux.Store.Users.{username, create_user, delete_user, set_expiration, set_enabled}
use telemux.Store.Cluster.{upsert_node, create_join_token, consume_join_token, excluded}
use telemux.Store.Tokens.{token, makes, presents, apply-IsUnique}
use telemux.Server.Users.{Write, creates, deletes, renews, enables, disables, perform}
use telemux.System.Panel.{store_admin}
use telemux.System.Writes.{create_user-IsUnique, perform-IsUnique}
use telemux.System.Http.{Incoming, Site, State, served}
use telemux.System.Keeps.{Kept, served-Keeps}

abbrev pub code : Node → String
code n = n.code

-- No two rows of a table have the same key.
abbrev pub IsKeyed : Db → Type 0
IsKeyed db = IsUnique username db.users × IsUnique code db.nodes × IsUnique token db.tokens

-- A step that touches one table only.
keeps_users :
    (db db' : Db)
    → IsKeyed db
    → IsUnique username db'.users
    → (db'.nodes ≡ db.nodes) × (db'.tokens ≡ db.tokens)
    → IsKeyed db'
keeps_users db db' k u (n, t) =
    (u, subst (IsUnique code) (sym n) k.1, subst (IsUnique token) (sym t) k.2)

keeps_nodes :
    (db db' : Db)
    → IsKeyed db
    → IsUnique code db'.nodes
    → (db'.users ≡ db.users) × (db'.tokens ≡ db.tokens)
    → IsKeyed db'
keeps_nodes db db' k n (u, t) =
    (subst (IsUnique username) (sym u) k.0, n, subst (IsUnique token) (sym t) k.2)

keeps_tokens :
    (db db' : Db)
    → IsKeyed db
    → IsUnique token db'.tokens
    → (db'.users ≡ db.users) × (db'.nodes ≡ db.nodes)
    → IsKeyed db'
keeps_tokens db db' k t (u, n) =
    (subst (IsUnique username) (sym u) k.0, subst (IsUnique code) (sym n) k.1, t)

upsert_node-IsUnique :
    (n : Node) (db : Db) → IsUnique code db.nodes → IsUnique code (upsert_node n db).1.nodes
unfolding upsert_node execute
upsert_node-IsUnique n db once k = ground (
  arith,
  once k,
  with_key-append code k db.nodes (record n { enabled = true; last_seen_at = some db.now }),
  with_key-eq-zero code n.code db.nodes,
  with_key-eq-zero code k db.nodes,
  with_key-set_where code k (has_key code n.code) (excluded n db.now) db.nodes (λ r. refl),
)

same_order : String → String → Bool
same_order a b = true

written :
    (r : Write) (db : Db)
    → ((perform (store_admin same_order) r db).1.nodes ≡ db.nodes)
      × ((perform (store_admin same_order) r db).1.tokens ≡ db.tokens)
unfolding perform create_user delete_user set_expiration set_enabled execute
written (creates none) db = (refl, refl)
written (creates (some b)) db = ground arith
written (deletes name) db = ground arith
written (renews name none) db = (refl, refl)
written (renews name (some exp)) db = ground arith
written (enables name) db = ground arith
written (disables name) db = ground arith

perform-IsKeyed :
    (r : Write) (db : Db) → IsKeyed db → IsKeyed (perform (store_admin same_order) r db).1
perform-IsKeyed r db k =
    keeps_users db (perform (store_admin same_order) r db).1 k
      (perform-IsUnique same_order r db k.0) (written r db)

created :
    (name secret : String) (exp : Option ℕ) (conns : Option ℤ) (db : Db)
    → ((create_user name secret exp conns db).1.nodes ≡ db.nodes)
      × ((create_user name secret exp conns db).1.tokens ≡ db.tokens)
unfolding create_user execute
created name secret exp conns db = ground arith

selected : {A : Type 0} (q : Db → A) (db : Db) → (select q db).1.users ≡ db.users
unfolding select
selected q db = ground arith

switched : (name : String) (on : Bool) (db : Db) → IsKeyed db → IsKeyed (set_enabled name on db).1
unfolding perform
switched name true db k = perform-IsKeyed (enables name) db k
switched name false db k = perform-IsKeyed (disables name) db k

IsKeyed-Kept : Kept IsKeyed
unfolding select execute perform upsert_node create_join_token consume_join_token
IsKeyed-Kept = record {
  selects = λ q db k.
      keeps_users db (select q db).1 k (subst (IsUnique username) (sym (selected q db)) k.0)
        (ground arith);
  creates = λ name secret exp conns db k.
      keeps_users db (create_user name secret exp conns db).1 k
        (create_user-IsUnique same_order name secret exp conns db.draws db refl k.0)
        (created name secret exp conns db);
  deletes = λ name db k. perform-IsKeyed (deletes name) db k;
  expires = λ name exp db k. perform-IsKeyed (renews name (some exp)) db k;
  enables = switched;
  upserts = λ n db k.
      keeps_nodes db (upsert_node n db).1 k (upsert_node-IsUnique n db k.1) (ground arith);
  makes = λ t ttl db k.
      keeps_tokens db (create_join_token t ttl db).1 k (apply-IsUnique (makes t ttl) db k.2)
        (ground arith);
  uses = λ t db k.
      keeps_tokens db (consume_join_token t db).1 k (apply-IsUnique (presents t) db k.2)
        (ground arith);
}

module _ {N : Type 0} (site : Site N) where
  -- Where the keys of the tables are unique, they are unique after any requests: no two users have
  -- one name, no two nodes one code, and no two tokens to join are the same.
  pub served-IsKeyed :
      (qs : List Incoming) (s : State N) → IsKeyed s.db → IsKeyed (served site qs s).1.db
  served-IsKeyed qs s k = served-Keeps IsKeyed IsKeyed-Kept site qs s k
