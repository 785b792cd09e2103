-- ===== src/Store/Cluster.antt =====
-- internal/store/nodes.go: the registry of nodes and the tokens to join.
use telemux.Base.{
  ℕ, ◌+◌, String, Bool, true, false, ◌&&◌, Option, none, some, List, [], ◌∷◌, ◌++◌, Result, ok, err,
  ◌==◌, string_eq, if◌then◌else◌, nat_eq, ltb,
}
use telemux.Store.{Node, JoinToken, Db, DbError, unique_violation, failure, select, execute}
use telemux.Store.Table.{set_where, affected, order_by, with_key}

-- The result of a statement whose answer is not looked at.
no_answer : Result DbError (Unit {0}) × Db → Result String (Unit {0}) × Db
no_answer (ok u, db) = (ok u, db)
no_answer (err unique_violation, db) = (err "unique violation", db)
no_answer (err (failure e), db) = (err e, db)

-- `EXCLUDED`, the row that was to be inserted.
abbrev pub excluded : Node → ℕ → Node → Node
excluded n now r = record r {
  name = n.name;
  address = n.address;
  telemt_api_url = n.telemt_api_url;
  role = n.role;
  last_seen_at = some now;
}

-- INSERT INTO nodes … ON CONFLICT (code) DO UPDATE
upsert : Node → Db → Db
upsert n db =
    if nat_eq (with_key (λ (r : Node). r.code) n.code db.nodes) 0
    then record db {
      nodes = db.nodes ++ record n { enabled = true; last_seen_at = some db.now } ∷ [];
    }
    else record db { nodes = set_where (λ r. n.code == r.code) (excluded n db.now) db.nodes }

unfoldable pub upsert_node : Node → Db → Result String (Unit {0}) × Db
unfolding upsert no_answer
upsert_node n db = no_answer (execute (λ d. (ok tt, upsert n d)) db)

unfoldable pub list_nodes : (String → String → Bool) → Db → Result String (List Node) × Db
list_nodes collates db = select (λ d. order_by (λ n m. collates n.code m.code) d.nodes) db

-- INSERT INTO join_tokens; the column `token` is the primary key.
insert_token : String → ℕ → Db → Result DbError (Unit {0}) × Db
insert_token token ttl db =
    if nat_eq (with_key (λ (r : JoinToken). r.token) token db.tokens) 0
    then (
      ok tt,
      record db {
        tokens =
            db.tokens ++ record { token = token; expires_at = db.now + ttl; used_at = none } ∷ [];
      },
    )
    else (err unique_violation, db)

-- `ttl` is in seconds, like the clock.
unfoldable pub create_join_token : String → ℕ → Db → Result String (Unit {0}) × Db
unfolding insert_token no_answer
create_join_token token ttl db = no_answer (execute (insert_token token ttl) db)

unfoldable pub is_unused : Option ℕ → Bool
is_unused none = true
is_unused (some _) = false

-- WHERE token = $1 AND used_at IS NULL AND expires_at > now()
unfoldable pub is_valid : String → ℕ → JoinToken → Bool
unfolding is_unused
is_valid token now t = token == t.token && (is_unused t.used_at && ltb now t.expires_at)

mark_used : String → Db → ℕ × Db
unfolding is_valid
mark_used token db = (
  affected (is_valid token db.now) db.tokens,
  record db {
    tokens = set_where (is_valid token db.now) (λ t. record t { used_at = some db.now }) db.tokens;
  },
)

consumed : Result DbError ℕ × Db → Result String Bool × Db
consumed (ok n, db) = (ok (nat_eq n 1), db)
consumed (err unique_violation, db) = (err "unique violation", db)
consumed (err (failure e), db) = (err e, db)

unfoldable pub consume_join_token : String → Db → Result String Bool × Db
unfolding mark_used consumed
consume_join_token token db =
    consumed (execute (λ d. let (n, d') = mark_used token d in (ok n, d')) db)
