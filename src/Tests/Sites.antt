-- ===== src/Tests/Sites.antt =====
-- A server at concrete parameters: a mux that knows a few routes, and requests to it.
use telemux.Base.{
  String, Bool, true, false, ◌&&◌, Option, none, some, List, [], ◌∷◌, ok, ◌≡◌, arith, string_eq,
  if◌then◌else◌, starts_with,
}
use telemux.Base.Int.{pos}
use telemux.Sync.{apply}
use telemux.Auth.{new_auth}
use telemux.Server.Mux.{
  Route, at_version, at_role, at_status, at_users, at_user, at_renew, at_login, at_index, IsSound,
  takes, fits, verb,
}
use telemux.Server.Index.{Bundle}
use telemux.System.Http.{Incoming, Decoder, Site, State}
use telemux.Tests.Samples.{parse_sample, fractions, run_options}
use telemux.Tests.SyncRuns.{World, node, disturbed}
use telemux.Tests.StoreRuns.{db, text_order, format_sample}
use telemux.Tests.ServerRuns.{deps, quiet_status}

unfoldable pub first : (Route → Bool) → List Route → Option Route
first p [] = none
first p (r ∷ rs) = let rest = first p rs in if p r then some r else rest

first-holds : (p : Route → Bool) (rs : List Route) (r : Route) → first p rs ≡ some r → p r ≡ true
unfolding first
first-holds p [] r h = absurd (ground arith)
first-holds p (x ∷ rs) r h = ground (arith, first-holds p rs r)

abbrev pub known_routes : List Route
known_routes =
    at_user "sub_b"
    ∷ at_renew "sub_b"
    ∷ at_role
    ∷ at_version
    ∷ at_status
    ∷ at_users
    ∷ at_login
    ∷ at_index
    ∷ []

-- The path is what stands before a query.
abbrev pub path_of : String → String
path_of url = if starts_with url "/api/users?" then "/api/users" else url

unfoldable pub mux : String → String → Option Route
unfolding first
mux m url = first (λ r. takes (verb r) m && fits r (path_of url)) known_routes

pub mux-IsSound : IsSound mux path_of
unfolding mux
mux-IsSound = record {
  sound = λ m url r h. first-holds (λ x. takes (verb x) m && fits x (path_of url)) known_routes r h;
}

abbrev pub decoder : Decoder
decoder = record {
  credentials = λ body. ("admin", body);
  new_user = λ body. none;
  renewal = λ body. none;
  node = λ body. none;
}

abbrev pub files : Bundle
files = record { is_built = true; opens = λ name. false; index = some "<html>" }

abbrev pub site : Site World
site = record {
  parse_time = parse_sample;
  f = fractions;
  format_time = format_sample;
  collates = text_order;
  opts = run_options apply (pos 0);
  node = node;
  deps = deps;
  decoder = decoder;
  bundle = files;
  mux = mux;
  path = path_of;
}

abbrev pub closed : State World
closed = record {
  auth = new_auth "admin" "pw";
  last_sync = quiet_status;
  dirty = false;
  db = db;
  node = disturbed;
}

abbrev pub asks : String → String → String → Incoming
asks method url body = record {
  method = method;
  url = url;
  cookie = some "forged";
  authorization = "";
  limit = "";
  offset = "";
  body = body;
  now = 100;
  now_after = 101;
  drawn_session = "t";
  drawn_token = ok "t9";
}

abbrev pub intruder : Incoming
intruder = asks "DELETE" "/api/users/sub_b" ""
