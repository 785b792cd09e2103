-- ===== src/Diff.antt =====
-- The diff engine, internal/telemtsync/diff.go: its types, the field comparison and `ComputeDiff`.
-- `parse_time` stands for `time.Parse(time.RFC3339, …)`: an instant as a number of nanoseconds
-- since a fixed origin, or `none` for an error.
pub mod Spared
pub mod Scan
pub mod Node
pub mod Follow
pub mod Synced
pub mod Converge
pub mod Order
pub mod Safety
use telemux.Base.{
  ℕ, String, Bool, true, false, not, Option, none, some, List, [], ◌∷◌, ◌++◌, ◌==◌, string_eq,
  nat_eq, if◌then◌else◌, starts_with,
}
use telemux.Base.Int.{ℤ, int_eq}
use telemux.Base.Dict.{Dict, lookup, insert}

abbrev pub managed_prefix : String
managed_prefix = "sub_"

pub record DesiredUser : Type 0 where
  pub username : String
  pub secret : String
  pub expiration_rfc3339 : Option String
  pub max_tcp_conns : Option ℤ

pub record RemoteUser : Type 0 where
  pub username : String
  pub enabled : Bool
  pub expiration_rfc3339 : Option String
  pub max_tcp_conns : Option ℤ

-- A Go string type: the three constants, and any other text.
pub data OpKind : Type 0 where
  create patch delete : OpKind
  other : String → OpKind

pub record PatchFields : Type 0 where
  pub set_expiration : Bool
  pub expiration_rfc3339 : Option String
  pub set_max_tcp_conns : Bool
  pub max_tcp_conns : Option ℤ
  pub enabled : Option Bool

-- `var f PatchFields`
abbrev pub no_fields : PatchFields
no_fields = record {
  set_expiration = false;
  expiration_rfc3339 = none;
  set_max_tcp_conns = false;
  max_tcp_conns = none;
  enabled = none;
}

pub record SyncOp : Type 0 where
  pub kind : OpKind
  pub username : String
  pub secret : String
  pub expiration_rfc3339 : Option String
  pub max_tcp_conns : Option ℤ
  pub fields : PatchFields

abbrev pub create_op : DesiredUser → SyncOp
create_op d = record {
  kind = create;
  username = d.username;
  secret = d.secret;
  expiration_rfc3339 = d.expiration_rfc3339;
  max_tcp_conns = d.max_tcp_conns;
  fields = no_fields;
}

abbrev pub patch_op : String → PatchFields → SyncOp
patch_op name f = record {
  kind = patch;
  username = name;
  secret = "";
  expiration_rfc3339 = none;
  max_tcp_conns = none;
  fields = f;
}

abbrev pub delete_op : String → SyncOp
delete_op name = record {
  kind = delete;
  username = name;
  secret = "";
  expiration_rfc3339 = none;
  max_tcp_conns = none;
  fields = no_fields;
}

pub record Options : Type 0 where
  pub managed_prefix : String

unfoldable pub prefix : Options → String
prefix o = if o.managed_prefix == "" then managed_prefix else o.managed_prefix

unfoldable pub int_equal : Option ℤ → Option ℤ → Bool
int_equal none none = true
int_equal none (some b) = false
int_equal (some a) none = false
int_equal (some a) (some b) = a == b

-- The loop that fills `remoteByName`: a later user of the same name replaces an earlier one.
index_remote : List RemoteUser → Dict RemoteUser → Dict RemoteUser
index_remote [] m = m
index_remote (r ∷ rs) m = index_remote rs (insert r.username r m)

unfoldable pub remote_by_name : List RemoteUser → Dict RemoteUser
unfolding index_remote
remote_by_name remote = index_remote remote []

-- The loop that fills the set `desiredByName`.
index_desired : List DesiredUser → Dict (Unit {0}) → Dict (Unit {0})
index_desired [] m = m
index_desired (d ∷ ds) m = index_desired ds (insert d.username tt m)

unfoldable pub desired_by_name : List DesiredUser → Dict (Unit {0})
unfolding index_desired
desired_by_name desired = index_desired desired []

-- The loop over `remote`.
scan_remote : String → Dict (Unit {0}) → List RemoteUser → List SyncOp → List SyncOp
scan_remote prefix desired [] deletes = deletes
scan_remote prefix desired (r ∷ rs) deletes = scan_remote prefix desired rs (
    if not (starts_with r.username prefix) then deletes else elim (lookup r.username desired) [
      | some _ ↦ deletes
      | none ↦ deletes ++ delete_op r.username ∷ []
    ])

module _ (parse_time : String → Option ℕ) where
  same_instant : Option ℕ → Option ℕ → Bool → Bool
  same_instant (some ta) (some tb) same_text = nat_eq ta tb
  same_instant _ _ same_text = same_text

  unfoldable pub expiration_equals : Option String → Option String → Bool
  unfolding same_instant
  expiration_equals none none = true
  expiration_equals none (some b) = false
  expiration_equals (some a) none = false
  expiration_equals (some a) (some b) =
      if a == b then true else same_instant (parse_time a) (parse_time b) (a == b)

  patch_expiration : DesiredUser → RemoteUser → PatchFields × Bool → PatchFields × Bool
  patch_expiration d r (f, changed) =
      if expiration_equals d.expiration_rfc3339 r.expiration_rfc3339
      then (f, changed)
      else (record f { set_expiration = true; expiration_rfc3339 = d.expiration_rfc3339 }, true)

  patch_conns : DesiredUser → RemoteUser → PatchFields × Bool → PatchFields × Bool
  patch_conns d r (f, changed) =
      if int_equal d.max_tcp_conns r.max_tcp_conns
      then (f, changed)
      else (record f { set_max_tcp_conns = true; max_tcp_conns = d.max_tcp_conns }, true)

  patch_enabled : RemoteUser → PatchFields × Bool → PatchFields × Bool
  patch_enabled r (f, changed) =
      if r.enabled then (f, changed) else (record f { enabled = some true }, true)

  unfoldable pub patch_fields_for : DesiredUser → RemoteUser → PatchFields × Bool
  unfolding patch_expiration patch_conns patch_enabled
  patch_fields_for d r = patch_enabled r (patch_conns d r (patch_expiration d r (no_fields, false)))

  -- The loop over `desired`.
  scan_desired :
      Dict RemoteUser → List DesiredUser → List SyncOp → List SyncOp → List SyncOp × List SyncOp
  scan_desired remote [] creates patches = (creates, patches)
  scan_desired remote (d ∷ ds) creates patches = elim (lookup d.username remote) [
    | none ↦ scan_desired remote ds (creates ++ create_op d ∷ []) patches
    | some r ↦
        let (f, changed) = patch_fields_for d r in
        scan_desired remote ds creates
          (if changed then patches ++ patch_op d.username f ∷ [] else patches)
  ]

  unfoldable pub compute_diff : List DesiredUser → List RemoteUser → Options → List SyncOp
  unfolding scan_desired scan_remote
  compute_diff desired remote opts =
      let (creates, patches) = scan_desired (remote_by_name remote) desired [] [] in
      let deletes = scan_remote (prefix opts) (desired_by_name desired) remote [] in
      creates ++ patches ++ deletes
