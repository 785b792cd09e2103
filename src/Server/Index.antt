-- ===== src/Server/Index.antt =====
-- `handleIndex` of internal/server/web.go: the built panel, embedded in the binary.
use telemux.Base.{
  String, Bool, ◌||◌, not, Option, none, some, ◌==◌, string_eq, if◌then◌else◌, starts_with,
}
use telemux.Server.Cluster.{trim_prefix}

-- The embedded files: whether there is a directory web/dist, which names can be opened in it, and
-- what its index.html holds.
pub record Bundle : Type 0 where
  pub is_built : Bool
  pub opens : String → Bool
  pub index : Option String

-- `http.FileServerFS` answers for a path; the page; 404; 500.
pub data Page : Type 0 where
  served : String → Page
  page : String → Page
  missing not_built : Page

fallback : Option String → Page
fallback none = not_built
fallback (some html) = page html

unfoldable pub handle_index : Bundle → String → Page
unfolding fallback trim_prefix
handle_index b path =
    if not b.is_built
    then not_built
    else if starts_with path "/api/" || starts_with path "/healthz"
    then missing
    else let rest = trim_prefix path "/" in
      if b.opens (if rest == "" then "index.html" else rest) then served path else fallback b.index
