-- ===== src/System/Closed.antt =====
-- A server that is started with a password for the panel is closed to those who do not know it.
use telemux.Base.{String, true, false, List, All, ◌≡◌, ◌≢◌, refl, arith, string_eq}
use telemux.Auth.{new_auth}
use telemux.Store.{Db}
use telemux.Cli.{env_or}
use telemux.Server.Mux.{IsSound}
use telemux.System.Http.{Incoming, served}
use telemux.System.Guarded.{is_open, Untouched}
use telemux.System.Outsiders.{knows, served-outsiders}
use telemux.System.Serve.{Env, ServeFlags, Packages, site_of, start_of}

module _ {N : Type 0} (packages : Packages N) (version : String) (env : Env) where
  start-enabled :
      (db : Db) (node : N)
      → env "TELEMUX_ADMIN_PASSWORD" ≢ ""
      → (start_of packages version env db node).auth.enabled ≡ true
  unfolding start_of new_auth env_or
  start-enabled db node set = ground arith

  -- After a start with TELEMUX_ADMIN_PASSWORD set, requests that do not carry the user and the
  -- password, however many and in whatever order, change neither the users nor the status of the last
  -- run, wake no synchronisation, send the node nothing, and get no reply with users, roles, nodes or
  -- runs.
  pub start-guarded :
      (flags : ServeFlags) (db : Db) (node : N) (qs : List Incoming)
      → IsSound packages.mux packages.path
      → env "TELEMUX_ADMIN_PASSWORD" ≢ ""
      → All
          (λ q.
            knows (packages.decoder.credentials q.body) (start_of packages version env db node).auth
            ≡ false)
          qs
      → All
          (λ answer. is_open answer ≡ true)
          (served (site_of packages version env flags) qs (start_of packages version env db node)).0
        × Untouched
            (start_of packages version env db node)
            (served
              (site_of packages version env flags)
              qs
              (start_of packages version env db node)).1
  unfolding site_of start_of new_auth
  start-guarded flags db node qs law set strangers =
      served-outsiders (site_of packages version env flags) qs
        (start_of packages version env db node) law (start-enabled db node set) refl strangers
