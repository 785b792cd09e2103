-- ===== src/Tests/Samples.antt =====
-- Concrete parameters: a node in memory, fractions for floats, a clock, and sample users.
use telemux.Base.{
  ◌≢◌, ◌&&◌, ℕ, ◌*◌, String, Bool, true, false, Option, none, some, List, [], ◌∷◌, ◌++◌, ◌==◌,
  string_eq, ◌≡◌, refl, arith, ltb, nat_eq, if◌then◌else◌, ◌||◌,
}
use telemux.Base.Int.{ℤ}
use telemux.Sync.{NodeError, classified, Mode, verdict, Verdict}
use telemux.Sync
use telemux.Diff.Safety.Guard.{default_guard, IsIeee}
use telemux.Diff.{
  DesiredUser, RemoteUser, SyncOp, OpKind, create, patch, delete, other, PatchFields, Options,
}
use telemux.Diff.Scan.{last_remote, is_some}
use telemux.Diff.Node.{Node, IsLawful, created, patched, effect}
use telemux.Diff.Safety.{Float64}

abbrev patch_all : String → PatchFields → List RemoteUser → List RemoteUser
patch_all n f [] = []
patch_all n f (r ∷ rs) = (if n == r.username then patched f r else r) ∷ patch_all n f rs

abbrev remove : String → List RemoteUser → List RemoteUser
remove n [] = []
remove n (r ∷ rs) = let rest = remove n rs in if n == r.username then rest else r ∷ rest

abbrev perform : OpKind → SyncOp → List RemoteUser → List RemoteUser
perform create o rs = if is_some (last_remote o.username none rs) then rs else rs ++ created o ∷ []
perform patch o rs = patch_all o.username o.fields rs
perform delete o rs = remove o.username rs
perform (other _) o rs = rs

abbrev is_delete : OpKind → Bool
is_delete delete = true
is_delete _ = false

-- No user has another name.
abbrev only : String → List RemoteUser → Bool
only n [] = true
only n (r ∷ rs) = n == r.username && only n rs

abbrev pub memory_node : Node
memory_node = record {
  State = List RemoteUser;
  users = λ rs. rs;
  step = λ rs o. perform o.kind o rs;
  refuses = λ rs o. is_delete o.kind && only o.username rs;
}

abbrev patch_opt : PatchFields → Option RemoteUser → Option RemoteUser
patch_opt f none = none
patch_opt f (some r) = some (patched f r)

module _ (k : String) where
  last_remote-patch_all :
      (n : String) (f : PatchFields) (rs : List RemoteUser) (u : Option RemoteUser)
      → last_remote k (if k == n then patch_opt f u else u) (patch_all n f rs)
        ≡ (if k == n then patch_opt f (last_remote k u rs) else last_remote k u rs)
  unfolding last_remote
  last_remote-patch_all n f [] u = refl
  last_remote-patch_all n f (r ∷ rs) u =
      ground (arith, last_remote-patch_all n f rs u, last_remote-patch_all n f rs (some r))

  last_remote-remove :
      (n : String) (rs : List RemoteUser) (u : Option RemoteUser)
      → last_remote k u (remove n rs) ≡ (if k == n then u else last_remote k u rs)
  unfolding last_remote
  last_remote-remove n [] u = ground arith
  last_remote-remove n (r ∷ rs) u =
      ground (arith, last_remote-remove n rs u, last_remote-remove n rs (some r))

  last_remote-append :
      (rs : List RemoteUser) (r : RemoteUser) (u : Option RemoteUser)
      → last_remote k u (rs ++ r ∷ []) ≡ (if k == r.username then some r else last_remote k u rs)
  unfolding last_remote
  last_remote-append [] r u = refl
  last_remote-append (s ∷ rs) r u =
      ground (arith, last_remote-append rs r u, last_remote-append rs r (some s))

user-perform :
    (kind : OpKind) (o : SyncOp) (rs : List RemoteUser) (k : String)
    → o.kind ≡ kind
    → last_remote k none (perform kind o rs) ≡ effect k (last_remote k none rs) o
user-perform create o rs k e = ground (arith, last_remote-append k rs (created o) none)
user-perform patch o rs k e = ground (arith, last_remote-patch_all k o.username o.fields rs none)
user-perform delete o rs k e = ground (arith, last_remote-remove k o.username rs none)
user-perform (other s) o rs k e = ground arith

last_remote-only :
    (n k : String) (rs : List RemoteUser) → only n rs ≡ true → k ≢ n → last_remote k none rs ≡ none
unfolding last_remote
last_remote-only n k [] h other_name = refl
last_remote-only n k (r ∷ rs) h other_name = ground (arith, last_remote-only n k rs)

is_delete-eq : (kind : OpKind) → is_delete kind ≡ true → kind ≡ delete
is_delete-eq create h = absurd (ground arith)
is_delete-eq patch h = absurd (ground arith)
is_delete-eq delete h = refl
is_delete-eq (other s) h = absurd (ground arith)

pub memory_node-IsLawful : IsLawful memory_node
memory_node-IsLawful = record {
  user-step = λ rs o k accepted. user-perform o.kind o rs k refl;
  last_user = λ rs o no_way. (
    is_delete-eq o.kind (ground arith),
    λ k other_name. last_remote-only o.username k rs (ground arith) other_name,
  );
}

-- Fractions, exact.
abbrev pub fractions : Float64
fractions = record {
  Float = ℕ × ℕ;
  zero_float = (0, 1);
  half = (1, 2);
  of_int = λ n. (n, 1);
  div = λ (a, b) (c, d). (a * d, b * c);
  eq = λ (a, b) (c, d). nat_eq (a * d) (c * b);
  lt = λ (a, b) (c, d). ltb (a * d) (c * b);
}

pub fractions-IsIeee : IsIeee fractions
fractions-IsIeee = record {
  zero-eq-zero = refl;
  half-lt-zero = refl;
  half-lt-div = λ a b within some_managed small. ground arith;
}

-- Two spellings of one instant, and a later one.
abbrev pub parse_sample : String → Option ℕ
parse_sample s =
    if s == "2026-01-01T00:00:00Z" || s == "2026-01-01T03:00:00+03:00"
    then some 1000
    else if s == "2026-02-01T00:00:00Z"
    then some 2000
    else none

abbrev pub wants : String → Option String → DesiredUser
wants name expiry = record {
  username = name;
  secret = "00112233445566778899aabbccddeeff";
  expiration_rfc3339 = expiry;
  max_tcp_conns = none;
}

abbrev pub has : String → Bool → Option String → RemoteUser
has name on expiry = record {
  username = name;
  enabled = on;
  expiration_rfc3339 = expiry;
  max_tcp_conns = none;
}

-- One to create, one to leave, one to patch; on the node one to delete and one of somebody else.
abbrev pub desired_users : List DesiredUser
desired_users =
    wants "sub_a" none
    ∷ wants "sub_b" (some "2026-01-01T03:00:00+03:00")
    ∷ wants "sub_c" (some "2026-02-01T00:00:00Z")
    ∷ []

abbrev pub node_users : List RemoteUser
node_users =
    has "sub_b" true (some "2026-01-01T00:00:00Z")
    ∷ has "sub_c" false none
    ∷ has "sub_d" true none
    ∷ has "manual" true none
    ∷ []

abbrev pub options : Options
options = record { managed_prefix = "" }

abbrev pub conflict : NodeError
conflict =
    classified (record { revision_conflict = true; read_only = false; already_done = false })
      "telemt API HTTP 409: revision mismatch"

-- The refusal to delete the last user.
abbrev pub forbidden : NodeError
forbidden =
    classified (record { revision_conflict = false; read_only = false; already_done = false })
      "telemt API HTTP 403: last_user_forbidden"

abbrev pub run_options : Mode → ℤ → Sync.Options fractions
run_options mode retries = record {
  mode = mode;
  mass_delete = default_guard fractions options;
  force = false;
  max_conflict_retries = retries;
}

pub conflict_retried : verdict conflict ≡ Verdict.retry
unfolding verdict
conflict_retried = refl
