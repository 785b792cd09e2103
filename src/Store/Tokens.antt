-- ===== src/Store/Tokens.antt =====
-- Tokens to join the cluster are for one use.
use telemux.Base.{
  ℕ, ◌+◌, ◌≤◌, String, Bool, true, false, ◌&&◌, Option, none, some, List, [], ◌∷◌, ◌==◌, string_eq,
  ◌≡◌, refl, arith, if◌then◌else◌, ltb, Result, ok, err, inl, inr, Option-cases,
}
use telemux.Store.{JoinToken, Db, next_failure, execute}
use telemux.Store.Table.{find, IsUnique}
use telemux.Store.Cluster.{create_join_token, consume_join_token, is_valid, is_unused}
use telemux.Store.Laws.{
  with_key-append, with_key-set_where, find-append, find-set_where, with_key-eq-zero, affected-fits,
  find-key,
}

abbrev pub token : JoinToken → String
token t = t.token

-- What happens to the tokens: one is made, one is presented, time passes, the node changes its role,
-- or the next statements meet failures.
pub data Happening : Type 0 where
  makes : String → ℕ → Happening
  presents : String → Happening
  passes : ℕ → Happening
  changes_role : Bool → Happening
  meets : List (Option String) → Happening

abbrev pub apply : Happening → Db → Db
apply (makes t ttl) db = (create_join_token t ttl db).1
apply (presents t) db = (consume_join_token t db).1
apply (passes n) db = record db { now = db.now + n }
apply (changes_role b) db = record db { is_replica = b }
apply (meets fs) db = record db { failures = fs }

abbrev pub is_true : Result String Bool → Bool
is_true (ok b) = b
is_true (err _) = false

-- Whether a token is presented and accepted.
abbrev pub accepts : String → Happening → Db → Bool
accepts t (presents u) db = t == u && is_true (consume_join_token u db).0
accepts t _ db = false

abbrev pub accepted : String → List Happening → Db → ℕ
accepted t [] db = 0
accepted t (h ∷ hs) db = (if accepts t h db then 1 else 0) + accepted t hs (apply h db)

-- How often a token may still be accepted.
abbrev pub left : Option JoinToken → ℕ
left none = 1
left (some t) = if is_unused t.used_at then 1 else 0

pub apply-IsUnique :
    (h : Happening) (db : Db) → IsUnique token db.tokens → IsUnique token (apply h db).tokens
unfolding create_join_token consume_join_token execute
apply-IsUnique (makes t ttl) db once k = ground (
  arith,
  once k,
  with_key-eq-zero token t db.tokens,
  with_key-eq-zero token k db.tokens,
  with_key-append token k db.tokens
      (record { token = t; expires_at = db.now + ttl; used_at = none }),
)
apply-IsUnique (presents t) db once k = ground (
  arith,
  once k,
  with_key-set_where token k (is_valid t db.now) (λ u. record u { used_at = some db.now }) db.tokens
      (λ u. refl),
)
apply-IsUnique (passes n) db once k = once k
apply-IsUnique (changes_role b) db once k = once k
apply-IsUnique (meets fs) db once k = once k

valid_key : (t : String) (now : ℕ) (u : JoinToken) → is_valid t now u ≡ true → t ≡ token u
unfolding is_valid
valid_key t now u h = ground arith

presents-left :
    (t u : String) (db : Db)
    → IsUnique token db.tokens
    → (if accepts t (presents u) db then 1 else 0)
        + left (find token t (apply (presents u) db).tokens)
      ≤ left (find token t db.tokens)
unfolding consume_join_token execute is_valid is_unused
presents-left t u db once =
    let valid = is_valid u db.now in
    let marked =
      find-set_where token t valid (λ v. record v { used_at = some db.now }) db.tokens
        (λ v. refl) in
    let counted = affected-fits token u valid db.tokens (valid_key u db.now) (once u) in
    elim (Option-cases (find token t db.tokens)) [
      | inl e ↦ ground arith
      | inr (r, e) ↦ ground (arith, find-key token t db.tokens r e)
    ]

makes-left :
    (t u : String) (ttl : ℕ) (db : Db)
    → left (find token t (apply (makes u ttl) db).tokens) ≤ left (find token t db.tokens)
unfolding create_join_token execute is_unused
makes-left t u ttl db = ground (
  arith,
  with_key-eq-zero token u db.tokens,
  find-append token t db.tokens (record { token = u; expires_at = db.now + ttl; used_at = none }),
)

pub apply-left :
    (t : String) (h : Happening) (db : Db)
    → IsUnique token db.tokens
    → (if accepts t h db then 1 else 0) + left (find token t (apply h db).tokens)
      ≤ left (find token t db.tokens)
apply-left t (makes u ttl) db once = omega (arith, makes-left t u ttl db)
apply-left t (presents u) db once = presents-left t u db once
apply-left t (passes n) db once = omega arith
apply-left t (changes_role b) db once = omega arith
apply-left t (meets fs) db once = omega arith

accepted-left :
    (t : String) (hs : List Happening) (db : Db)
    → IsUnique token db.tokens
    → accepted t hs db ≤ left (find token t db.tokens)
accepted-left t [] db once = omega arith
accepted-left t (h ∷ hs) db once =
    omega
      (arith, apply-left t h db once, accepted-left t hs (apply h db) (apply-IsUnique h db once))

-- Whatever happens, and in whichever order, a token is accepted at most once, also if it is made
-- again under the same name. The table starts with each token once.
accepted-le_one :
    (t : String) (hs : List Happening) (db : Db) → IsUnique token db.tokens → accepted t hs db ≤ 1
accepted-le_one t hs db once = ground (arith, accepted-left t hs db once)

abbrev still_good : ℕ → Option JoinToken → Bool
still_good now none = false
still_good now (some t) = is_unused t.used_at && ltb now t.expires_at

-- On a primary whose statement does not fail, a token that is presented is accepted exactly when it
-- was made, is unused and has not expired, and is used afterwards.
pub consume_join_token_lem :
    (t : String) (db : Db)
    → IsUnique token db.tokens
    → db.is_replica ≡ false
    → (next_failure db.failures).0 ≡ none
    → ((consume_join_token t db).0 ≡ ok (still_good db.now (find token t db.tokens)))
      × (still_good db.now (find token t (consume_join_token t db).1.tokens) ≡ false)
unfolding consume_join_token execute is_valid is_unused
consume_join_token_lem t db once primary calm =
    let valid = is_valid t db.now in
    let marked =
      find-set_where token t valid (λ v. record v { used_at = some db.now }) db.tokens
        (λ v. refl) in
    let counted = affected-fits token t valid db.tokens (valid_key t db.now) (once t) in
    elim (Option-cases (find token t db.tokens)) [
      | inl e ↦ ground arith
      | inr (r, e) ↦ ground (arith, find-key token t db.tokens r e)
    ]
