-- ===== src/Server/Writes.antt =====
-- When a route changes users, and when it wakes the synchronisation.
use telemux.Base.{
  Bool, true, false, none, some, ok, string_eq, if◌then◌else◌, ◌≡◌, arith, ◌≢◌, Result-cases, inl,
  inr,
}
use telemux.Role.{detect, is_master}
use telemux.Server.Users.{
  UserAdmin, Write, creates, deletes, renews, enables, disables, Response, created, done, listed,
  refused, perform, handle,
}

abbrev pub is_success : Response → Bool
is_success (created _) = true
is_success done = true
is_success (listed _ _ _ _) = true
is_success (refused _ _) = false

module _ {W : Type 0} (users : UserAdmin W) where
  -- Unless the local database answers that it is not in recovery, a route that writes calls no
  -- method that does: the world is the one that the check of the role leaves, no synchronisation
  -- is asked for, and the answer is an error.
  pub handle-replica :
      (r : Write) (dirty : Bool) (w : W)
      → (users.is_in_recovery w).0 ≢ ok false
      → ((handle users r dirty w).1 ≡ dirty)
        × ((handle users r dirty w).2 ≡ (users.is_in_recovery w).1)
        × (is_success (handle users r dirty w).0 ≡ false)
  unfolding handle detect is_master
  handle-replica r dirty w h = elim (Result-cases (users.is_in_recovery w).0) [
    | inl (true, e) ↦ ground arith
    | inl (false, e) ↦ ground arith
    | inr (s, e) ↦ ground arith
  ]

  perform-marks : (r : Write) (w : W) → (perform users r w).0.1 ≡ is_success (perform users r w).0.0
  unfolding perform
  perform-marks (creates none) w = ground arith
  perform-marks (creates (some b)) w = ground arith
  perform-marks (deletes name) w = ground arith
  perform-marks (renews name none) w = ground arith
  perform-marks (renews name (some exp)) w = ground arith
  perform-marks (enables name) w = ground arith
  perform-marks (disables name) w = ground arith

  -- Every write that succeeds leaves the signal for an immediate synchronisation, and one that
  -- fails leaves the signal as it was.
  handle-marks :
      (r : Write) (dirty : Bool) (w : W)
      → (handle users r dirty w).1 ≡ (if is_success (handle users r dirty w).0 then true else dirty)
  unfolding handle
  handle-marks r dirty w = ground (arith, perform-marks r (users.is_in_recovery w).1)
