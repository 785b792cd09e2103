-- ===== src/Server/Statuses.antt =====
-- What the status of a run says.
use telemux.Base.{
  if◌then◌else◌, suc, ℕ, ◌+◌, String, Bool, true, false, Option, List, [], ◌∷◌, ◌≡◌, refl, arith,
  length, All, All-map,
}
use telemux.Diff.{DesiredUser, RemoteUser, SyncOp, OpKind, create, patch, delete, other, prefix}
use telemux.Diff.Order.{Reason, compute_diff-IsOrdered}
use telemux.Diff.Safety.{Float64}
use telemux.Sync.{DesiredSource, NodeApi, Options, sync_node}
use telemux.Sync.Reported.{sync_node-ops}
use telemux.Server.Runs.{count, SyncStatus, tally, status_of, run_sync}

-- An operation that the status counts.
abbrev is_known : OpKind → Bool
is_known (other _) = false
is_known _ = true

abbrev AllKnown : List SyncOp → Type 0
AllKnown os = All (λ o. is_known o.kind ≡ true) os

known :
    (ds : List DesiredUser) (rs : List RemoteUser) (p : String) (k : OpKind) (name : String)
    → Reason ds rs p k name
    → is_known k ≡ true
known ds rs p create name h = refl
known ds rs p patch name h = refl
known ds rs p delete name h = refl
known ds rs p (other _) name h = elim h [ ]

abbrev pub is_create : SyncOp → Bool
is_create o = elim o.kind [ create ↦ true | _ ↦ false ]

abbrev pub is_patch : SyncOp → Bool
is_patch o = elim o.kind [ patch ↦ true | _ ↦ false ]

abbrev pub is_delete : SyncOp → Bool
is_delete o = elim o.kind [ delete ↦ true | _ ↦ false ]

-- How many of the operations are such.
abbrev pub how_many : (SyncOp → Bool) → List SyncOp → ℕ
how_many p [] = 0
how_many p (o ∷ os) = (if p o then 1 else 0) + how_many p os

abbrev Adds : SyncStatus → ℕ → ℕ → ℕ → SyncStatus → Type 0
Adds st c p d st' =
    (st'.creates ≡ st.creates + c) × (st'.patches ≡ st.patches + p) × (st'.deletes ≡ st.deletes + d)

count-Adds :
    (o : SyncOp) (kind : OpKind) (st : SyncStatus)
    → o.kind ≡ kind
    → Adds st
        (if is_create o then 1 else 0)
        (if is_patch o then 1 else 0)
        (if is_delete o then 1 else 0)
        (count kind st)
unfolding count
count-Adds o create st e = ground arith
count-Adds o patch st e = ground arith
count-Adds o delete st e = ground arith
count-Adds o (other _) st e = ground arith

tally-Adds :
    (os : List SyncOp) (st : SyncStatus)
    → Adds st (how_many is_create os) (how_many is_patch os) (how_many is_delete os) (tally os st)
unfolding tally
tally-Adds [] st = (omega arith, omega arith, omega arith)
tally-Adds (o ∷ os) st =
    let (c, p, d) = tally-Adds os (count o.kind st) in
    let (c1, p1, d1) = count-Adds o o.kind st refl in
    (omega (arith, c, c1), omega (arith, p, p1), omega (arith, d, d1))

kind_counts :
    (o : SyncOp) (kind : OpKind) (os : List SyncOp)
    → o.kind ≡ kind
    → is_known kind ≡ true
    → how_many is_create os + how_many is_patch os + how_many is_delete os ≡ length os
    → how_many is_create (o ∷ os) + how_many is_patch (o ∷ os) + how_many is_delete (o ∷ os)
      ≡ suc (length os)
kind_counts o create os e known_op h = ground arith
kind_counts o patch os e known_op h = ground arith
kind_counts o delete os e known_op h = ground arith
kind_counts o (other _) os e known_op h = ground arith

AllKnown-length :
    (os : List SyncOp)
    → AllKnown os
    → how_many is_create os + how_many is_patch os + how_many is_delete os ≡ length os
AllKnown-length [] h = refl
AllKnown-length (o ∷ os) (known_op, h) =
    let rest = AllKnown-length os h in kind_counts o o.kind os refl known_op rest

-- What the tally leaves as it is.
abbrev SameRest : SyncStatus → SyncStatus → Type 0
SameRest st st' =
    (st'.at ≡ st.at)
    × (st'.mode ≡ st.mode)
    × (st'.applied ≡ st.applied)
    × (st'.failed ≡ st.failed)
    × (st'.aborted ≡ st.aborted)
    × (st'.error ≡ st.error)

count-SameRest : (k : OpKind) (st : SyncStatus) → SameRest st (count k st)
unfolding count
count-SameRest create st = (refl, refl, refl, refl, refl, refl)
count-SameRest patch st = (refl, refl, refl, refl, refl, refl)
count-SameRest delete st = (refl, refl, refl, refl, refl, refl)
count-SameRest (other _) st = (refl, refl, refl, refl, refl, refl)

tally-SameRest : (os : List SyncOp) (st : SyncStatus) → SameRest st (tally os st)
unfolding tally
tally-SameRest [] st = (refl, refl, refl, refl, refl, refl)
tally-SameRest (o ∷ os) st =
    ground (arith, tally-SameRest os (count o.kind st), count-SameRest o.kind st)

module _ (parse_time : String → Option ℕ) (f : Float64) {W : Type 0} (node : NodeApi W)
    (source : DesiredSource W) (opts : Options f) where
  reported-AllKnown : (w : W) → AllKnown (sync_node parse_time f node source opts w).0.ops
  reported-AllKnown w =
      sync_node-ops parse_time f node opts AllKnown tt
        (λ ds rs.
          All-map (λ o h. known ds rs (prefix opts.mass_delete.options) o.kind o.username h) _
            (compute_diff-IsOrdered parse_time ds rs opts.mass_delete.options).1)
        source w

  -- The status of a run has as its creates, patches and deletes the number of operations of each
  -- kind in the run's diff, which has no others. Its time is the clock after the run, its mode that
  -- of the options, and it repeats of the run how many operations were applied and how many failed,
  -- whether the guard against mass deletion stopped it, and the error.
  pub run_sync_lem :
      (now : ℕ) (w : W)
      → let (res, error, w') = sync_node parse_time f node source opts w in
        let st = (run_sync parse_time f node source opts now w).0 in
        (st.creates ≡ how_many is_create res.ops)
        × (st.patches ≡ how_many is_patch res.ops)
        × (st.deletes ≡ how_many is_delete res.ops)
        × (st.creates + st.patches + st.deletes ≡ length res.ops)
        × (st.at ≡ now)
        × (st.mode ≡ opts.mode)
        × (st.applied ≡ res.applied)
        × (st.failed ≡ res.failed)
        × (st.aborted ≡ res.aborted)
        × (st.error ≡ error)
  unfolding run_sync status_of
  run_sync_lem now w =
      let (res, error, w') = sync_node parse_time f node source opts w in
      let st : SyncStatus = record {
        at = now;
        mode = opts.mode;
        creates = 0;
        patches = 0;
        deletes = 0;
        applied = res.applied;
        failed = res.failed;
        aborted = res.aborted;
        error = error;
      } in
      let (c, p, d) = tally-Adds res.ops st in
      let all = AllKnown-length res.ops (reported-AllKnown w) in
      let (at, mode, applied, failed, aborted, error_kept) = tally-SameRest res.ops st in
      (
        omega (arith, c),
        omega (arith, p),
        omega (arith, d),
        omega (arith, c, p, d, all),
        at,
        mode,
        applied,
        failed,
        aborted,
        error_kept,
      )
