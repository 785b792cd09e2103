-- ===== src/Tests/DiffRuns.antt =====
-- The diff engine at sample data.
use telemux.Base.{
  ◌^◌, ◌+◌, ◌↔◌, ◌<◌, true, none, some, List, [], ◌∷◌, ◌≡◌, ◌≤◌, refl, arith, All, string_eq,
  option_eq,
}
use telemux.Diff.{
  RemoteUser, compute_diff, create_op, patch_op, delete_op, no_fields, prefix, patch_fields_for,
  remote_by_name, desired_by_name, expiration_equals, int_equal,
}
use telemux.Base.Dict.{lookup, insert}
use telemux.Base.Int.{int_eq}
use telemux.Diff.Scan.{NamedOnce, wanted, last_remote}
use telemux.Diff.Converge.{IsLeft, reconciled, user-run-diff, compute_diff-run}
use telemux.Diff.Synced.{IsSynced, compute_diff-eq-nil}
use telemux.Diff.Order.{IsOrdered, IsJustified, compute_diff-IsOrdered}
use telemux.Diff.Safety.{is_mass_delete}
use telemux.Diff.Safety.Guard.{kept, dropped, default_guard, is_mass_delete-diff}
use telemux.Tests.Samples.{
  memory_node, memory_node-IsLawful, fractions, fractions-IsIeee, parse_sample, wants, has,
  desired_users, node_users, options,
}

-- One operation of each kind; the user whose expiry is the same instant, and the user whose name
-- has not the prefix, are left alone.
sample_diff :
    compute_diff parse_sample desired_users node_users options
    ≡ create_op (wants "sub_a" none)
      ∷ patch_op "sub_c" (record no_fields {
        set_expiration = true;
        expiration_rfc3339 = some "2026-02-01T00:00:00Z";
        enabled = some true;
      })
      ∷ delete_op "sub_d"
      ∷ []
unfolding compute_diff prefix remote_by_name desired_by_name patch_fields_for expiration_equals
    int_equal lookup insert string_eq
sample_diff = refl

once : NamedOnce desired_users
unfolding wanted string_eq
once = (refl, (refl, (refl, tt)))

somebody : IsLeft parse_sample desired_users node_users options "manual"
unfolding wanted prefix last_remote string_eq
somebody e = ground arith

user-run-diff_example :
    last_remote "sub_d" none
      (memory_node.users (reconciled parse_sample memory_node desired_users options node_users))
    ≡ none
unfolding wanted prefix last_remote string_eq
user-run-diff_example =
    user-run-diff parse_sample memory_node memory_node-IsLawful node_users desired_users options
      once "manual" somebody "sub_d"

compute_diff-run_example :
    compute_diff parse_sample desired_users
      (memory_node.users (reconciled parse_sample memory_node desired_users options node_users))
      options
    ≡ []
compute_diff-run_example =
    compute_diff-run parse_sample memory_node memory_node-IsLawful node_users desired_users options
      once "manual" somebody

compute_diff-eq-nil_example :
    (compute_diff parse_sample desired_users node_users options ≡ [])
    ↔ IsSynced parse_sample desired_users node_users options
compute_diff-eq-nil_example = compute_diff-eq-nil parse_sample desired_users node_users options

compute_diff-IsOrdered_example :
    IsOrdered (compute_diff parse_sample desired_users node_users options)
    × All
        (IsJustified desired_users node_users (prefix options))
        (compute_diff parse_sample desired_users node_users options)
compute_diff-IsOrdered_example =
    compute_diff-IsOrdered parse_sample desired_users node_users options

-- Nobody is desired, and the node has six managed users.
abbrev crowd : List RemoteUser
crowd =
    has "sub_1" true none
    ∷ has "sub_2" true none
    ∷ has "sub_3" true none
    ∷ has "sub_4" true none
    ∷ has "sub_5" true none
    ∷ has "sub_6" true none
    ∷ []

crowd_small : kept (prefix options) [] crowd + dropped (prefix options) [] crowd < 2 ^ 52
unfolding kept dropped prefix string_eq wanted
crowd_small = omega arith

is_mass_delete-diff_example :
    (is_mass_delete fractions
        (compute_diff parse_sample [] crowd options)
        crowd
        (default_guard fractions options)
      ≡ true)
    ↔ ((5 ≤ dropped (prefix options) [] crowd)
        × (kept (prefix options) [] crowd < dropped (prefix options) [] crowd))
is_mass_delete-diff_example =
    is_mass_delete-diff fractions fractions-IsIeee parse_sample [] crowd options crowd_small
