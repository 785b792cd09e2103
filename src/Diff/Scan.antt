-- ===== src/Diff/Scan.antt =====
-- The three loops of `ComputeDiff` as plain recursions, and its two maps as first and last finds.
use telemux.Base.{
  ℕ, String, Bool, true, false, Option, none, some, List, [], ◌∷◌, ◌++◌, ◌==◌, string_eq, ◌≡◌, refl,
  ◌∙◌, arith, ap, inl, inr, Option-cases, append-nil, append_assoc, if◌then◌else◌, starts_with,
}
use telemux.Base.Dict.{Dict, lookup, insert, lookup-insert, lookup-nil}
use telemux.Diff.{
  DesiredUser, RemoteUser, SyncOp, Options, create_op, patch_op, delete_op, prefix, index_remote,
  remote_by_name, index_desired, desired_by_name, scan_remote, patch_fields_for, scan_desired,
  compute_diff,
}

-- The first desired user of a name.
unfoldable pub wanted : String → List DesiredUser → Option DesiredUser
wanted k [] = none
wanted k (d ∷ ds) = if k == d.username then some d else wanted k ds

-- No two desired users share a name.
abbrev pub NamedOnce : List DesiredUser → Type 0
NamedOnce [] = Unit
NamedOnce (d ∷ ds) = (wanted d.username ds ≡ none) × NamedOnce ds

-- The last remote user of a name, or `found` if there is none.
unfoldable pub last_remote : String → Option RemoteUser → List RemoteUser → Option RemoteUser
last_remote k found [] = found
last_remote k found (r ∷ rs) = last_remote k (if k == r.username then some r else found) rs

lookup-index_remote :
    (k : String) (rs : List RemoteUser) (m : Dict RemoteUser)
    → lookup k (index_remote rs m) ≡ last_remote k (lookup k m) rs
unfolding index_remote last_remote
lookup-index_remote k [] m = refl
lookup-index_remote k (r ∷ rs) m =
    ground (arith, lookup-index_remote k rs (insert r.username r m), lookup-insert k r.username r m)

pub lookup-remote_by_name :
    (k : String) (rs : List RemoteUser) → lookup k (remote_by_name rs) ≡ last_remote k none rs
unfolding remote_by_name
lookup-remote_by_name k rs =
    lookup-index_remote k rs [] ∙ ground (arith, lookup-nil {V = RemoteUser} k)

abbrev pub is_some {ℓ} : {A : Type ℓ} → Option A → Bool
is_some none = false
is_some (some _) = true

lookup-index_desired :
    (k : String) (ds : List DesiredUser) (m : Dict (Unit {0}))
    → lookup k m ≡ some tt
    → lookup k (index_desired ds m) ≡ some tt
unfolding index_desired
lookup-index_desired k [] m h = h
lookup-index_desired k (d ∷ ds) m h =
    lookup-index_desired k ds _ (ground (arith, lookup-insert k d.username tt m))

lookup-index_desired_new :
    (k : String) (ds : List DesiredUser) (m : Dict (Unit {0}))
    → lookup k m ≡ none
    → is_some (lookup k (index_desired ds m)) ≡ is_some (wanted k ds)
unfolding index_desired wanted
lookup-index_desired_new k [] m h = ground arith
lookup-index_desired_new k (d ∷ ds) m h = ground (
  arith,
  lookup-insert k d.username tt m,
  lookup-index_desired k ds (insert d.username tt m),
  lookup-index_desired_new k ds (insert d.username tt m),
)

pub lookup-desired_by_name :
    (k : String) (ds : List DesiredUser)
    → is_some (lookup k (desired_by_name ds)) ≡ is_some (wanted k ds)
unfolding desired_by_name
lookup-desired_by_name k ds = lookup-index_desired_new k ds [] (lookup-nil k)

-- The delete operations, in the order of the node's list.
unfoldable pub deletes : String → List DesiredUser → List RemoteUser → List SyncOp
deletes prefix ds [] = []
deletes prefix ds (r ∷ rs) =
    let rest = deletes prefix ds rs in
    if starts_with r.username prefix
    then if is_some (wanted r.username ds) then rest else delete_op r.username ∷ rest
    else rest

scan_remote-eq-deletes :
    (p : String) (ds : List DesiredUser) (rs : List RemoteUser) (acc : List SyncOp)
    → scan_remote p (desired_by_name ds) rs acc ≡ acc ++ deletes p ds rs
unfolding scan_remote deletes
scan_remote-eq-deletes p ds [] acc = ground (arith, append-nil acc)
scan_remote-eq-deletes p ds (r ∷ rs) acc =
    scan_remote-eq-deletes p ds rs _
    ∙ ground (
      arith,
      lookup-desired_by_name r.username ds,
      append_assoc acc (delete_op r.username ∷ []) (deletes p ds rs),
    )

module _ (parse_time : String → Option ℕ) where
  unfoldable pub creates : List RemoteUser → List DesiredUser → List SyncOp
  creates rs [] = []
  creates rs (d ∷ ds) =
      let rest = creates rs ds in
      if is_some (last_remote d.username none rs) then rest else create_op d ∷ rest

  abbrev pub patch_for : DesiredUser → Option RemoteUser → List SyncOp → List SyncOp
  patch_for d none rest = rest
  patch_for d (some r) rest =
      let (f, changed) = patch_fields_for parse_time d r in
      if changed then patch_op d.username f ∷ rest else rest

  unfoldable pub patches : List RemoteUser → List DesiredUser → List SyncOp
  patches rs [] = []
  patches rs (d ∷ ds) = patch_for d (last_remote d.username none rs) (patches rs ds)

  step_patches : DesiredUser → RemoteUser → List SyncOp → List SyncOp
  step_patches d r p =
      let (f, changed) = patch_fields_for parse_time d r in
      if changed then p ++ patch_op d.username f ∷ [] else p

  step_patches-append :
      (d : DesiredUser) (r : RemoteUser) (p rest : List SyncOp)
      → step_patches d r p ++ rest ≡ p ++ patch_for d (some r) rest
  unfolding step_patches
  step_patches-append d r p rest =
      ground
        (arith, append_assoc p (patch_op d.username (patch_fields_for parse_time d r).0 ∷ []) rest)

  scan_desired-eq :
      (rs : List RemoteUser) (ds : List DesiredUser) (c p : List SyncOp)
      → scan_desired parse_time (remote_by_name rs) ds c p
        ≡ (c ++ creates rs ds, p ++ patches rs ds)
  unfolding scan_desired creates patches step_patches
  scan_desired-eq rs [] c p = ground (arith, append-nil c, append-nil p)
  scan_desired-eq rs (d ∷ ds) c p =
      let at_name = lookup-remote_by_name d.username rs in
      elim (Option-cases (last_remote d.username none rs)) [
        | inl absent ↦
            rw (at_name ∙ absent, absent, scan_desired)
              (scan_desired-eq rs ds _ p ∙ rw append_assoc)
        | inr (r, present) ↦
            rw (at_name ∙ present, present, scan_desired)
              (scan_desired-eq rs ds c _
                ∙ ap (λ t. (c ++ creates rs ds, t)) (step_patches-append d r p (patches rs ds)))
      ]

  pub compute_diff-eq :
      (ds : List DesiredUser) (rs : List RemoteUser) (opts : Options)
      → compute_diff parse_time ds rs opts
        ≡ creates rs ds ++ patches rs ds ++ deletes (prefix opts) ds rs
  unfolding compute_diff
  compute_diff-eq ds rs opts = simp (scan_desired-eq rs ds [] [], scan_remote-eq-deletes)
