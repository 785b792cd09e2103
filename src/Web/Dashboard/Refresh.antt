-- ===== src/Web/Dashboard/Refresh.antt =====
-- What a refresh shows.
use telemux.Base.{
  String, none, some, List, [], ◌∷◌, ◌++◌, ok, err, string_eq, ◌≡◌, ◌≢◌, arith, inl, inr,
  Result-cases, Option-cases, ◌⊎◌,
}
use telemux.Web.Dashboard.{
  failure, Dashboard, Loaded, Source, result_of, first_rejection, promise_all, Settled,
  refresh_data, load_nodes, log_out, from_version, from_role, from_sync, from_users, value_of,
  all_sources,
}

-- The four calls have all come back with a value.
abbrev pub AllThere : Loaded → Settled → Type 0
AllThere l a =
    (l.version ≡ ok a.version)
    × (l.role ≡ ok a.role)
    × (l.sync ≡ ok a.sync)
    × (l.users ≡ ok a.users)

first_rejection-some :
    (order : List Source) (l : Loaded) (e : String)
    → first_rejection order l ≡ some e
    → (s : Source) × (result_of l s ≡ err e)
unfolding first_rejection
first_rejection-some [] l e h = cc
first_rejection-some (s ∷ order) l e h = elim (Result-cases (result_of l s)) [
  | inl (v, r) ↦ first_rejection-some order l e (rw (r, first_rejection) at h)
  | inr (x, r) ↦ (s, ground arith)
]

first_rejection-none :
    (order : List Source) (l : Loaded)
    → first_rejection (order ++ all_sources) l ≡ none
    → AllThere l (record {
      version = value_of l.version;
      role = value_of l.role;
      sync = value_of l.sync;
      users = value_of l.users;
    })
unfolding first_rejection
first_rejection-none [] l h = ground arith
first_rejection-none (s ∷ order) l h = elim (Result-cases (result_of l s)) [
  | inl (v, r) ↦ first_rejection-none order l (rw (r, first_rejection) at h)
  | inr (x, r) ↦ absurd (ground arith)
]

pub promise_all-AllThere :
    (order : List Source) (l : Loaded) (a : Settled) → promise_all order l ≡ ok a → AllThere l a
unfolding promise_all
promise_all-AllThere order l a h = elim (Option-cases (first_rejection (order ++ all_sources) l)) [
  | inl no_error ↦ ground (arith, first_rejection-none order l no_error)
  | inr (x, found) ↦ absurd (ground arith)
]

failed_there :
    (l : Loaded) (s : Source) (e : String)
    → result_of l s ≡ err e
    → (a : Settled) → AllThere l a
    → ⊥
failed_there l from_version e h a there = ground arith
failed_there l from_role e h a there = ground arith
failed_there l from_sync e h a there = ground arith
failed_there l from_users e h a there = ground arith

-- A call that fails is found, since all four are waited for.
promise_all_failed :
    (order : List Source) (l : Loaded) (s : Source) (e : String)
    → result_of l s ≡ err e
    → (x : String) × (promise_all order l ≡ err x) × ((t : Source) × (result_of l t ≡ err x))
unfolding promise_all
promise_all_failed order l s e h = elim (Option-cases (first_rejection (order ++ all_sources) l)) [
  | inl no_error ↦ absurd (failed_there l s e h _ (first_rejection-none order l no_error))
  | inr (x, found) ↦ (x, ground arith, first_rejection-some (order ++ all_sources) l x found)
]

-- When a call of a refresh fails, the panel keeps what it showed. Either it logs out, because one
-- of the calls failed with "unauthorized"; or it reports the message of one that failed with
-- another, and the nodes are asked for.
pub refresh_data_failed :
    (order : List Source) (l : Loaded) (d : Dashboard) (s : Source) (e : String)
    → result_of l s ≡ err e
    → ((refresh_data (promise_all order l) d ≡ (d, log_out))
        × ((t : Source) × (result_of l t ≡ err "unauthorized")))
      ⊎ ((x : String) × (x ≢ "unauthorized")
          × (refresh_data (promise_all order l) d ≡ (record d { status = failure x }, load_nodes))
          × ((t : Source) × (result_of l t ≡ err x)))
unfolding refresh_data
refresh_data_failed order l d s e h =
    let (x, rejected, (t, found)) = promise_all_failed order l s e h in
    elim (string_eq.dec x "unauthorized") [
      | yes same ↦ inl (rw rejected (ground arith), (t, ground arith))
      | no other ↦ inr (x, other, rw rejected (ground arith), (t, found))
    ]
