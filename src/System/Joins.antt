-- ===== src/System/Joins.antt =====
-- A node joins: the routes of the cluster over the store.
use telemux.Base.{
  inr, sym, inl, Bool-cases, Result-cases, subst, ℕ, ◌+◌, ◌≤◌, String, Bool, true, false, ◌&&◌,
  Option, List, [], ◌∷◌, ◌==◌, string_eq, ◌≡◌, refl, arith, if◌then◌else◌, Result,
}
use telemux.Store.{JoinToken, Node, Db, select, execute}
use telemux.Store.Table.{find, IsUnique}
use telemux.Store.Cluster.{upsert_node, list_nodes, consume_join_token}
use telemux.Store.Tokens.{
  token, Happening, makes, presents, passes, apply, accepts, left, apply-left, apply-IsUnique,
}
use telemux.Server.Cluster.{
  Deps, Request, lists, beats, asks_token, joins, Response, bundle, serve, cluster_authed,
}
use telemux.System.Panel.{store_cluster}

module _ (deps : Deps) (collates : String → String → Bool) where
  -- A request is served, or something happens to the database.
  pub data Turn : Type 0 where
    serves : Request → Turn
    happens : Happening → Turn

  abbrev pub after : Turn → Db → Db
  after (serves r) db = (serve deps (store_cluster collates) r db).1
  after (happens h) db = apply h db

  abbrev is_bundle : Response → Bool
  is_bundle (bundle _ _) = true
  is_bundle _ = false

  -- Whether a node gets its bundle for a token.
  abbrev pub admits : String → Turn → Db → Bool
  admits t (serves (joins u)) db =
      t == u && is_bundle (serve deps (store_cluster collates) (joins u) db).0
  admits t _ db = false

  abbrev pub admitted : String → List Turn → Db → ℕ
  admitted t [] db = 0
  admitted t (x ∷ xs) db = (if admits t x db then 1 else 0) + admitted t xs (after x db)

  -- To the tokens, a turn is like a happening that accepts where the turn admits.
  abbrev Simulated : String → Turn → Db → Type 0
  Simulated t x db =
      (h : Happening) × ((after x db).tokens ≡ (apply h db).tokens)
      × (admits t x db ≡ true → accepts t h db ≡ true)

  joins-Simulated : (t u : String) (db : Db) → Simulated t (serves (joins u)) db
  unfolding serve
  joins-Simulated t u db = (
    presents u,
    refl,
    λ f. elim (Result-cases (consume_join_token u db).0) [
      | inl (b, e) ↦ elim (Bool-cases b) [ inl g ↦ ground arith | inr g ↦ ground arith ]
      | inr (m, e) ↦ ground arith
    ],
  )

  asks_token-Simulated :
      (t h : String) (drawn : Result String String) (db : Db)
      → Simulated t (serves (asks_token h drawn)) db
  unfolding serve
  asks_token-Simulated t h drawn db = elim (Bool-cases (cluster_authed deps.cluster_secret h)) [
    | inl e ↦ elim (Result-cases drawn) [
      | inl (tok, f) ↦ (makes tok 3600, ground arith, λ f. ground arith)
      | inr (m, f) ↦ (passes 0, ground arith, λ f. ground arith)
    ]
    | inr e ↦ (passes 0, ground arith, λ f. ground arith)
  ]

  beats-Simulated :
      (t h : String) (body : Option Node) (db : Db) → Simulated t (serves (beats h body)) db
  unfolding serve upsert_node execute
  beats-Simulated t h body db = (passes 0, ground arith, λ f. ground arith)

  turn-Simulated : (t : String) (x : Turn) (db : Db) → Simulated t x db
  unfolding serve list_nodes select
  turn-Simulated t (serves lists) db = (passes 0, ground arith, λ f. ground arith)
  turn-Simulated t (serves (beats h body)) db = beats-Simulated t h body db
  turn-Simulated t (serves (asks_token h drawn)) db = asks_token-Simulated t h drawn db
  turn-Simulated t (serves (joins u)) db = joins-Simulated t u db
  turn-Simulated t (happens h) db = (h, refl, λ f. ground arith)

  admitted-left :
      (t : String) (xs : List Turn) (db : Db)
      → IsUnique token db.tokens
      → admitted t xs db ≤ left (find token t db.tokens)
  admitted-left t [] db once = omega arith
  admitted-left t (x ∷ xs) db once =
      let (h, same, admits_too) = turn-Simulated t x db in
      let once' =
        subst (λ (ts : List JoinToken). IsUnique token ts) (sym same) (apply-IsUnique h db once) in
      ground (arith, apply-left t h db once, admitted-left t xs (after x db) once')

  -- Whatever requests the panel gets and whatever happens to the database meanwhile, in whichever
  -- order, at most one node gets its bundle for a token. The table starts with each token once.
  pub admitted-le_one :
      (t : String) (xs : List Turn) (db : Db) → IsUnique token db.tokens → admitted t xs db ≤ 1
  admitted-le_one t xs db once = ground (arith, admitted-left t xs db once)
