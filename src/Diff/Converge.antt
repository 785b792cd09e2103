-- ===== src/Diff/Converge.antt =====
-- A node after the operations of a diff have been carried out.
use telemux.Base.{
  sym, ◌≢◌, ℕ, String, Bool, true, Option, none, some, List, [], ◌∷◌, string_eq, ◌≡◌, ◌∙◌, arith,
  if◌then◌else◌, starts_with, All, All-map, inl, inr, Option-cases,
}
use telemux.Diff.Spared.{compute_diff-IsSpared}
use telemux.Diff.Node.{
  IsSpared-refusals, refusals, Node, IsLawful, created, after, after-append, run, user-run,
}
use telemux.Diff.{DesiredUser, RemoteUser, Options, create_op, prefix, compute_diff}
use telemux.Diff.Scan.{NamedOnce, wanted, last_remote, is_some, compute_diff-eq}
use telemux.Diff.Follow.{
  mended, mended_matches, created_matches, after-creates_present, after-creates_absent,
  after-patches_absent, after-patches_present, occurs, after-deletes,
}
use telemux.Diff.Synced.{Matches, Matches-iff, IsSynced, compute_diff-eq-nil}

occurs-eq-is_some :
    (k : String) (rs : List RemoteUser) (found : Option RemoteUser)
    → is_some (last_remote k found rs) ≡ (if is_some found then true else occurs k rs)
unfolding last_remote occurs
occurs-eq-is_some k [] found = ground arith
occurs-eq-is_some k (r ∷ rs) found =
    ground (arith, occurs-eq-is_some k rs found, occurs-eq-is_some k rs (some r))

module _ (parse_time : String → Option ℕ) where
  -- What becomes of the user of a name: `d` is the desired user of that name, `managed` says
  -- whether the name has the prefix, `u` is the node's user.
  abbrev pub outcome : Option DesiredUser → Bool → Option RemoteUser → Option RemoteUser
  outcome (some d) managed none = some (created (create_op d))
  outcome (some d) managed (some r) = some (mended parse_time d r)
  outcome none managed u = if managed then none else u

  after-diff :
      (ds : List DesiredUser) (rs : List RemoteUser) (opts : Options) (k : String)
      → NamedOnce ds
      → after k (last_remote k none rs) (compute_diff parse_time ds rs opts)
        ≡ outcome (wanted k ds) (starts_with k (prefix opts)) (last_remote k none rs)
  after-diff ds rs opts k once = elim (Option-cases (last_remote k none rs)) [
    | inl absent ↦
        rw
          (
            compute_diff-eq parse_time ds rs opts,
            after-append,
            after-append,
            absent,
            after-creates_absent parse_time k rs ds absent,
            after-patches_absent parse_time k rs ds _ absent,
            after-deletes,
          )
          (ground (arith, occurs-eq-is_some k rs none))
    | inr (r, present) ↦
        rw
          (
            compute_diff-eq parse_time ds rs opts,
            after-append,
            after-append,
            present,
            after-creates_present parse_time k rs ds r,
            after-patches_present parse_time k rs ds r once present,
            after-deletes,
          )
          (ground (arith, occurs-eq-is_some k rs none))
  ]

  NamedOnce-wanted :
      (ds : List DesiredUser) → NamedOnce ds → All (λ d. wanted d.username ds ≡ some d) ds
  unfolding wanted
  NamedOnce-wanted [] once = tt
  NamedOnce-wanted (d ∷ ds) (fresh, once) =
      (ground arith, All-map (λ e found. ground arith) ds (NamedOnce-wanted ds once))

  All-occurs : (rs : List RemoteUser) → All (λ r. occurs r.username rs ≡ true) rs
  unfolding occurs
  All-occurs [] = tt
  All-occurs (r ∷ rs) = (ground arith, All-map (λ e found. ground arith) rs (All-occurs rs))

  Matches-outcome :
      (d : DesiredUser) (managed : Bool) (u : Option RemoteUser)
      → Matches parse_time d (outcome (some d) managed u)
  Matches-outcome d managed none = (Matches-iff parse_time d _).1 (created_matches parse_time d)
  Matches-outcome d managed (some r) =
      (Matches-iff parse_time d _).1 (mended_matches parse_time d r)

  -- The node after the operations of one diff.
  abbrev pub reconciled : (n : Node) → List DesiredUser → Options → n.State → n.State
  reconciled n ds opts s = run n s (compute_diff parse_time ds (n.users s) opts)

  -- Somebody is left by the diff.
  abbrev pub IsLeft : List DesiredUser → List RemoteUser → Options → String → Type 0
  IsLeft ds rs opts j =
      outcome (wanted j ds) (starts_with j (prefix opts)) (last_remote j none rs) ≢ none

  -- A desired user is left.
  pub wanted-IsLeft :
      (ds : List DesiredUser) (rs : List RemoteUser) (opts : Options) (j : String)
      → wanted j ds ≢ none
      → IsLeft ds rs opts j
  wanted-IsLeft ds rs opts j there = elim (Option-cases (wanted j ds)) [
    | inl gone ↦ absurd (there gone)
    | inr (d, e) ↦ elim (Option-cases (last_remote j none rs)) [
      | inl absent ↦ λ left. ground arith
      | inr (r, present) ↦ λ left. ground arith
    ]
  ]

  module _ (n : Node) (law : IsLawful n) (s : n.State) (ds : List DesiredUser) (opts : Options)
      (once : NamedOnce ds) where
    -- No operation of a diff is refused where it leaves somebody.
    pub IsLeft-refusals :
        (j : String)
        → IsLeft ds (n.users s) opts j
        → refusals n s (compute_diff parse_time ds (n.users s) opts) ≡ 0
    IsLeft-refusals j left =
        let u = last_remote j none (n.users s) in
        let rest = after-diff ds (n.users s) opts j once in
        IsSpared-refusals n law (compute_diff parse_time ds (n.users s) opts) s j (
          compute_diff-IsSpared parse_time ds (n.users s) opts j u (λ gone. left (sym rest ∙ gone)))

    module _ (accepted : refusals n s (compute_diff parse_time ds (n.users s) opts) ≡ 0) where
      run-diff-user :
          (k : String)
          → last_remote k none (n.users (reconciled n ds opts s))
            ≡ outcome (wanted k ds) (starts_with k (prefix opts)) (last_remote k none (n.users s))
      run-diff-user k =
          user-run n law (compute_diff parse_time ds (n.users s) opts) s k accepted
          ∙ after-diff ds (n.users s) opts k once

      run-diff-IsSynced : IsSynced parse_time ds (n.users (reconciled n ds opts s)) opts
      run-diff-IsSynced = record {
        wanted_there =
            All-map
              (λ d w.
                rw (run-diff-user d.username, w)
                  (Matches-outcome d (starts_with d.username (prefix opts)) _))
              ds (NamedOnce-wanted ds once);
        rest_kept =
            All-map
              (λ r found managed. ground (
                arith,
                run-diff-user r.username,
                occurs-eq-is_some r.username (n.users (reconciled n ds opts s)) none,
              ))
              _ (All-occurs _);
      }

      pub accepted-run : compute_diff parse_time ds (n.users (reconciled n ds opts s)) opts ≡ []
      accepted-run = (compute_diff-eq-nil parse_time ds _ opts).1 run-diff-IsSynced

    -- The user of each name after a lawful node has carried out the operations of a diff against
    -- its own list, the desired names being distinct and the diff leaving some user on the node:
    -- a desired user that was missing is created as desired; one that was there has the differing
    -- fields set and keeps the rest; a user that is not desired is gone if its name has the managed
    -- prefix, and is untouched if not.
    pub user-run-diff :
        (j : String)
        → IsLeft ds (n.users s) opts j
        → (k : String)
        → last_remote k none (n.users (reconciled n ds opts s))
          ≡ outcome (wanted k ds) (starts_with k (prefix opts)) (last_remote k none (n.users s))
    user-run-diff j left = run-diff-user (IsLeft-refusals j left)

    -- A second diff finds nothing to do, once a lawful node has carried out the operations of the
    -- first one; the desired names are distinct, and the first diff leaves some user on the node.
    pub compute_diff-run :
        (j : String)
        → IsLeft ds (n.users s) opts j
        → compute_diff parse_time ds (n.users (reconciled n ds opts s)) opts ≡ []
    compute_diff-run j left = accepted-run (IsLeft-refusals j left)
