-- ===== src/Server/Users.antt =====
-- The routes that change users, internal/server/users.go. The interface `UserAdmin` and the check
-- of the role act on a world; `dirty` is the signal of `markDirty` to the background loop. What
-- `encoding/json` reads from a body is given, `none` for an error.
use telemux.Base.{
  List, ℕ, String, Bool, true, false, Option, none, some, Result, ok, err, ◌==◌, string_eq,
  if◌then◌else◌,
}
use telemux.Base.Int.{ℤ, pos}
use telemux.Server.Query.{atoi_default}
use telemux.Store.{User, StoreError, user_exists, store_failed}
use telemux.Role.{Role, is_master, detect}

pub record UserAdmin (W : Type 0) : Type 0 where
  pub create_user : String → String → Option ℕ → Option ℤ → W → Result StoreError User × W
  pub delete_user : String → W → Result String Bool × W
  pub set_expiration : String → Option ℕ → W → Result String Bool × W
  pub set_enabled : String → Bool → W → Result String Bool × W
  pub list_users_page : ℤ → ℤ → W → Result String (List User × ℕ) × W
  pub is_in_recovery : W → Result String Bool × W

pub record NewUser : Type 0 where
  pub username : String
  pub secret : String
  pub expiration_at : Option ℕ
  pub max_tcp_conns : Option ℤ

-- The routes, with the path's name and the decoded body.
pub data Write : Type 0 where
  creates : Option NewUser → Write
  deletes : String → Write
  renews : String → Option (Option ℕ) → Write
  enables disables : String → Write

-- The status, and the body: a user, `{"ok": true}`, a page with its paging, or an error.
pub data Response : Type 0 where
  created : User → Response
  done : Response
  listed : List User → ℕ → ℤ → ℤ → Response
  refused : ℕ → String → Response

module _ {W : Type 0} (users : UserAdmin W) where
  -- What is left to do after `requireMaster`: `none` goes on.
  unfoldable pub barred : Result String Role → Option Response
  barred (err e) = some (refused 503 e)
  barred (ok r) =
      if is_master r then none else some (refused 409 "эта нода — replica; запись идёт на master")

  unfoldable pub require_master : W → Option Response × W
  unfolding barred
  require_master w = let (answer, w') = users.is_in_recovery w in (barred (detect answer), w')

  -- After CreateUser; the second part is whether `markDirty` is called.
  unfoldable pub create_answered : Result StoreError User → Response × Bool
  create_answered (ok u) = (created u, true)
  create_answered (err user_exists) =
      (refused 409 "пользователь с таким username уже существует", false)
  create_answered (err (store_failed e)) = (refused 503 e, false)

  -- After the other three.
  change_answered : Result String Bool → Response × Bool
  change_answered (ok true) = (done, true)
  change_answered (ok false) = (refused 404 "нет такого юзера", false)
  change_answered (err e) = (refused 503 e, false)

  unfoldable pub change : Result String Bool × W → (Response × Bool) × W
  unfolding change_answered
  change (answer, w) = (change_answered answer, w)

  unfoldable pub perform : Write → W → (Response × Bool) × W
  unfolding create_answered change
  perform (creates none) w = ((refused 400 "нужен JSON с непустым username", false), w)
  perform (creates (some b)) w =
      if b.username == ""
      then ((refused 400 "нужен JSON с непустым username", false), w)
      else let (answer, w') =
          users.create_user b.username b.secret b.expiration_at b.max_tcp_conns w in
        (create_answered answer, w')
  perform (deletes name) w = change (users.delete_user name w)
  perform (renews name none) w = ((refused 400 "нужен JSON {expiration_at}", false), w)
  perform (renews name (some exp)) w = change (users.set_expiration name exp w)
  perform (enables name) w = change (users.set_enabled name true w)
  perform (disables name) w = change (users.set_enabled name false w)

  -- The handler of a route, from the signal and the world before to those after.
  unfoldable pub handle : Write → Bool → W → Response × Bool × W
  unfolding perform require_master
  handle r dirty w =
      let (stopped, w1) = require_master w in
      elim stopped [
        | some answer ↦ (answer, dirty, w1)
        | none ↦
            let ((answer, marks), w2) = perform r w1 in (answer, if marks then true else dirty, w2)
      ]

  unfoldable pub page_answered : ℤ → ℤ → Result String (List User × ℕ) → Response
  page_answered limit offset (err e) = refused 503 e
  page_answered limit offset (ok (us, total)) = listed us total limit offset

  -- GET /api/users, with the texts of the query; a parameter that is not there is empty.
  unfoldable pub list_users : String → String → W → Response × W
  unfolding page_answered
  list_users limit offset w =
      let n = atoi_default limit (pos 20) in
      let skip = atoi_default offset (pos 0) in
      let (answer, w') = users.list_users_page n skip w in (page_answered n skip answer, w')
