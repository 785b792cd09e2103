-- ===== src/System/Serve.antt =====
-- `runServe` of cmd/telemux/main.go: the flags and the variables of the environment that the server
-- is set up with, and the exit code.
use telemux.Base.{
  ℕ, zero, String, ◌<>◌, Bool, false, Option, none, some, List, Result, ok, err, string_eq,
}
use telemux.Base.Int.{ℤ, pos}
use telemux.Diff.Safety.{Float64}
use telemux.Sync.{NodeApi, other}
use telemux.Auth.{new_auth}
use telemux.Store.{Db}
use telemux.Cli.{sync_options, env_or}
use telemux.Server.Cluster.{Deps}
use telemux.Server.Index.{Bundle}
use telemux.Server.Mux.{Route}
use telemux.System.Http.{Decoder, Site, State}

-- `interval` in nanoseconds.
pub record ServeFlags : Type 0 where
  pub dsn : String
  pub api : String
  pub auth : String
  pub listen : String
  pub apply : Bool
  pub interval : ℤ

-- `os.Getenv`
abbrev pub Env : Type 0
Env = String → String

-- The defaults of the flags.
unfoldable pub serve_defaults : Env → ServeFlags
unfolding env_or
serve_defaults env = record {
  dsn = env_or env "DATABASE_URL" "";
  api = env_or env "TELEMT_API_URL" "http://127.0.0.1:9091";
  auth = env_or env "TELEMT_API_AUTH" "";
  listen = env_or env "TELEMUX_LISTEN" ":8080";
  apply = false;
  interval = pos 60000000000;
}

-- `New`: no period is one of a minute.
period : ℤ → ℤ
period (pos zero) = pos 60000000000
period n = n

-- The packages that the program is built with, and the client of a node, by its URL and its
-- Authorization.
pub record Packages (N : Type 0) : Type 1 where
  pub parse_time : String → Option ℕ
  pub f : Float64
  pub format_time : ℕ → String
  pub collates : String → String → Bool
  pub decoder : Decoder
  pub bundle : Bundle
  pub mux : String → String → Option Route
  pub path : String → String
  pub new_client : String → String → NodeApi N

module _ {N : Type 0} (packages : Packages N) (version : String) (env : Env) where
  -- `server.Deps`
  unfoldable pub deps_of : ServeFlags → Deps
  unfolding env_or
  deps_of flags = record {
    version = version;
    cluster_secret = env_or env "TELEMUX_CLUSTER_SECRET" "";
    public_url = env_or env "TELEMUX_PUBLIC_URL" ("http://127.0.0.1" <> flags.listen);
    self_code = env_or env "TELEMUX_NODE_CODE" "";
    self_address = env_or env "TELEMUX_NODE_ADDRESS" "";
    self_telemt_url = flags.api;
    master_url = env_or env "TELEMUX_MASTER_URL" "";
  }

  unfoldable pub site_of : ServeFlags → Site N
  unfolding deps_of sync_options
  site_of flags = record {
    parse_time = packages.parse_time;
    f = packages.f;
    format_time = packages.format_time;
    collates = packages.collates;
    opts = sync_options packages.f (record { apply = flags.apply; force = false });
    node = packages.new_client flags.api flags.auth;
    deps = deps_of flags;
    decoder = packages.decoder;
    bundle = packages.bundle;
    mux = packages.mux;
    path = packages.path;
  }

  -- The state that `New` sets up; a time is 0 for the zero time.
  unfoldable pub start_of : Db → N → State N
  unfolding env_or new_auth
  start_of db node = record {
    auth =
        new_auth (env_or env "TELEMUX_ADMIN_USER" "admin") (env_or env "TELEMUX_ADMIN_PASSWORD" "");
    last_sync = record {
      at = 0;
      mode = other "";
      creates = 0;
      patches = 0;
      deletes = 0;
      applied = 0;
      failed = 0;
      aborted = false;
      error = none;
    };
    dirty = false;
    db = db;
    node = node;
  }

  -- `flag` reads the arguments with the defaults, `none` for an error; `open_store` is
  -- store.Open; `run` is
  -- `Run`, with the server, its period and the address that it listens on, and comes back with the
  -- error that it stopped for, if any.
  unfoldable pub serve_command :
      (ServeFlags → List String → Option ServeFlags)
      → (String → Result String Db)
      → (Site N → State N → ℤ → String → Option String)
      → N
      → List String
      → ℕ
  unfolding serve_defaults site_of start_of period
  serve_command read open_store run node args = elim (read (serve_defaults env) args) [
    | none ↦ 2
    | some flags ↦ elim (open_store flags.dsn) [
      | err e ↦ 1
      | ok db ↦ elim (run (site_of flags) (start_of db node) (period flags.interval) flags.listen) [
        | some e ↦ 1
        | none ↦ 0
      ]
    ]
  ]
