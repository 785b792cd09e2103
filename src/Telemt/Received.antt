-- ===== src/Telemt/Received.antt =====
-- What a node makes of a request of the client, as RFC 7396 and the paths of its API say.
use telemux.Base.{
  String, Bool, true, Option, none, some, [], ◌∷◌, ◌==◌, string_eq, if◌then◌else◌, not, ◌&&◌, ◌||◌,
  leb, nat_eq, ◌<>◌, false,
}
use telemux.Base.Int.{ℤ}
use telemux.Diff.{RemoteUser}
use Prim.Native.Char.{Char, code}
use telemux.Diff.Node.{value_or}
use telemux.Telemt.{Body, JsonValue, null, bool, num, str}

-- The member of an object with a key.
abbrev pub member : String → Body → Option JsonValue
member k [] = none
member k ((j, v) ∷ b) = if k == j then some v else member k b

abbrev pub as_bool : JsonValue → Option Bool
as_bool (bool b) = some b
as_bool _ = none

abbrev pub as_num : JsonValue → Option ℤ
as_num (num n) = some n
as_num _ = none

abbrev pub as_str : JsonValue → Option String
as_str (str s) = some s
as_str _ = none

-- A field after a merge patch: kept without a member, removed by null, else replaced.
abbrev pub merged {ℓ} :
    {A : Type ℓ} → (JsonValue → Option A) → Option JsonValue → Option A → Option A
merged read none old = old
merged read (some null) old = none
merged read (some v) old = read v

abbrev pub merge : Body → RemoteUser → RemoteUser
merge b r = record {
  username = r.username;
  enabled = value_or (merged as_bool (member "enabled" b) none) r.enabled;
  expiration_rfc3339 = merged as_str (member "expiration_rfc3339" b) r.expiration_rfc3339;
  max_tcp_conns = merged as_num (member "max_tcp_conns" b) r.max_tcp_conns;
}

-- The user that the body of a create describes: enabled unless it says otherwise.
abbrev pub described : String → Body → RemoteUser
described name b =
    merge b
      (record { username = name; enabled = true; expiration_rfc3339 = none; max_tcp_conns = none })

-- An ASCII letter, a digit, `_` or `-`: what stands in a path as it is.
is_plain_char : Char → Bool
is_plain_char c =
    let n = code c in
    (leb 97 n && leb n 122)
    || (leb 65 n && leb n 90)
    || (leb 48 n && leb n 57)
    || nat_eq n 95
    || nat_eq n 45

all_plain : String → Bool
unfolding is_plain_char
all_plain String.[] = true
all_plain (String.◌∷◌ c s) = let rest = all_plain s in is_plain_char c && rest

unfoldable pub is_plain : String → Bool
unfolding all_plain
is_plain name = not (name == "") && all_plain name

-- The body names the user.
abbrev pub names : String → Body → Bool
names k b = elim (member "username" b) [ some (str s) ↦ k == s | _ ↦ false ]

-- The path is that of the user, whose name can stand in it.
abbrev pub is_at : String → String → String → Bool
is_at base url k = is_plain k && url == base <> ("/v1/users/" <> k)

abbrev pub post_received : String → Body → Option RemoteUser → Option RemoteUser
post_received k b none = if names k b then some (described k b) else none
post_received k b (some v) = some v

abbrev pub patch_received : Body → Option RemoteUser → Option RemoteUser
patch_received b none = none
patch_received b (some v) = some (merge b v)

-- What the node makes of its user with a name on a request with a method, a URL and a body. The API
-- is at `base`; a POST to the users creates the one that the body names, a PATCH or a DELETE to the
-- path of a user is about that user.
abbrev pub received :
    String → String → String → Option Body → String → Option RemoteUser → Option RemoteUser
received base method url body k u =
    if method == "POST"
    then if url == base <> "/v1/users"
      then elim body [ none ↦ u | some b ↦ post_received k b u ]
      else u
    else if method == "PATCH"
    then if is_at base url k then elim body [ none ↦ u | some b ↦ patch_received b u ] else u
    else if method == "DELETE"
    then if is_at base url k then none else u
    else u
