-- ===== src/System/Settles.antt =====
-- The loop comes to rest when nothing new happens.
use telemux.Base.{
  ◌≤◌, ◌+◌, ◌*◌, if◌then◌else◌, arith, ℕ, suc, zero, String, Bool, true, false, ◌≡◌, ◌∙◌, refl, ◌⊎◌,
  ok, err, some, Bool-cases, inl, inr,
}
use telemux.Store.{Db}
use telemux.Store.Table.{IsUnique}
use telemux.Store.Users.{username, enabled_users}
use telemux.System.Loop.{Daemon, mark_dirty, begin_run, marks, receives, runs, Reaches, goes_on}
use telemux.System.Wakes.{quiet-read, list_desired-users}

Nat-cases : (n : ℕ) → (n ≡ 0) ⊎ ((m : ℕ) × (n ≡ suc m))
Nat-cases zero = inl refl
Nat-cases (suc m) = inr (m, refl)

module _ (collates : String → String → Bool) (format_time : ℕ → String) where
  -- The daemon finishes what is begun: routes mark, the loop receives and runs.
  pub data Works : Daemon → Daemon → Type 0 where
    rests : (s : Daemon) → Works s s
    marks_first :
        (n : ℕ) (s : Daemon) {t : Daemon}
        → s.pending ≡ suc n
        → Works (mark_dirty (record s { pending = n })) t
        → Works s t
    receives_first :
        (s : Daemon) {t : Daemon}
        → s.woken ≡ false
        → s.dirty ≡ true
        → Works (record s { dirty = false; woken = true }) t
        → Works s t
    runs_first :
        (s : Daemon) {t : Daemon}
        → s.woken ≡ true
        → Works (record (begin_run collates format_time s) { woken = false }) t
        → Works s t

  Works-Reaches :
      {db : Db} {s t : Daemon}
      → Works s t
      → Reaches collates format_time db s
      → Reaches collates format_time db t
  Works-Reaches (rests s) r = r
  Works-Reaches (marks_first n s e w) r = Works-Reaches w (goes_on r (marks n s e))
  Works-Reaches (receives_first s e f w) r = Works-Reaches w (goes_on r (receives s e f))
  Works-Reaches (runs_first s e w) r = Works-Reaches w (goes_on r (runs s e))

  -- How many steps a sequence has.
  unfoldable pub steps : {s t : Daemon} → Works s t → ℕ
  steps (rests s) = 0
  steps (marks_first n s e w) = suc (steps w)
  steps (receives_first s e f w) = suc (steps w)
  steps (runs_first s e w) = suc (steps w)

  -- What is begun: a mark may bring a receipt and a run, a receipt a run.
  abbrev pub left : Daemon → ℕ
  left s = 3 * s.pending + (if s.dirty then 2 else 0) + (if s.woken then 1 else 0)

  steps-left : {s t : Daemon} (w : Works s t) → steps w + left t ≤ left s
  unfolding steps mark_dirty begin_run
  steps-left (rests s) = omega arith
  steps-left (marks_first n s e w) = let rest = steps-left w in ground (arith, rest)
  steps-left (receives_first s e f w) = let rest = steps-left w in ground (arith, rest)
  steps-left (runs_first s e w) = let rest = steps-left w in ground (arith, rest)

  Works-users : {s t : Daemon} → Works s t → t.db.users ≡ s.db.users
  unfolding mark_dirty begin_run
  Works-users (rests s) = refl
  Works-users (marks_first n s e w) = Works-users w
  Works-users (receives_first s e f w) = Works-users w
  Works-users (runs_first s e w) = Works-users w ∙ list_desired-users collates format_time s.db

  -- Nothing is begun.
  abbrev pub AtRest : Daemon → Type 0
  AtRest s = (s.pending ≡ 0) × (s.dirty ≡ false) × (s.woken ≡ false)

  -- There is a step.
  abbrev pub GoesOn : Daemon → Type 0
  GoesOn s = (t : Daemon) × (w : Works s t) × (steps w ≡ 1)

  rest_or_step : (s : Daemon) → AtRest s ⊎ GoesOn s
  unfolding steps
  rest_or_step s = elim (Nat-cases s.pending) [
    | inr (n, p) ↦ inr (_, marks_first n s p (rests _), refl)
    | inl p ↦ elim (Bool-cases s.woken) [
      | inl w ↦ inr (_, runs_first s w (rests _), refl)
      | inr w ↦ elim (Bool-cases s.dirty) [
        | inl d ↦ inr (_, receives_first s w d (rests _), refl)
        | inr d ↦ inl (p, d, w)
      ]
    ]
  ]

  -- From every state that it reaches the daemon comes to rest by finishing what is begun, whatever
  -- the order, without waiting for the timer: a sequence of its own steps is at most as long as
  -- what is begun, and goes on unless it has come to rest. It leaves the users as they were, and at
  -- rest the last run has read the ones that the table has enabled, or could not read them. The
  -- table starts with each name once.
  pub comes_to_rest :
      (db : Db) (s t : Daemon)
      → IsUnique username db.users
      → Reaches collates format_time db s
      → (w : Works s t)
      → (steps w + left t ≤ left s)
        × (t.db.users ≡ s.db.users)
        × (GoesOn t
            ⊎ (AtRest t
                × ((t.read ≡ some (ok (enabled_users collates format_time t.db.users)))
                    ⊎ ((e : String) × (t.read ≡ some (err e))))))
  comes_to_rest db s t once r w = (
    steps-left w,
    Works-users w,
    elim (rest_or_step t) [
      | inr step ↦ inl step
      | inl (p, d, k) ↦
          inr ((p, d, k), quiet-read collates format_time db t once (Works-Reaches w r) p d k)
    ],
  )
