-- ===== src/Store/Desired.antt =====
-- `ListDesired` against the table: the users that are enabled, each once.
use telemux.Base.{
  ℕ, ◌+◌, ◌≤◌, String, Bool, Option, none, some, List, [], ◌∷◌, ◌==◌, string_eq, ◌≡◌, refl, arith,
  if◌then◌else◌, keep, map, ◌∙◌,
}
use telemux.Diff.Scan.{wanted, NamedOnce}
use telemux.Store.{User}
use telemux.Store.Table.{find, with_key, affected, insert_sorted, order_by, IsUnique}
use telemux.Store.Users.{username, desired, enabled_users}
use telemux.Store.Laws.{fits, with_key-eq-zero}

module _ {R : Type 0} (key : R → String) where
  with_key-insert_sorted :
      (k : String) (before : R → R → Bool) (r : R) (rs : List R)
      → with_key key k (insert_sorted before r rs)
        ≡ (if k == key r then 1 else 0) + with_key key k rs
  unfolding insert_sorted affected
  with_key-insert_sorted k before r [] = ground arith
  with_key-insert_sorted k before r (s ∷ rs) = ground (arith, with_key-insert_sorted k before r rs)

  with_key-order_by :
      (k : String) (before : R → R → Bool) (rs : List R)
      → with_key key k (order_by before rs) ≡ with_key key k rs
  unfolding order_by affected
  with_key-order_by k before [] = refl
  with_key-order_by k before (r ∷ rs) =
      ground (
        arith,
        with_key-order_by k before rs,
        with_key-insert_sorted k before r (order_by before rs),
      )

  find-insert_sorted :
      (k : String) (before : R → R → Bool) (r : R) (rs : List R)
      → with_key key (key r) rs ≡ 0
      → find key k (insert_sorted before r rs) ≡ (if k == key r then some r else find key k rs)
  unfolding insert_sorted find affected
  find-insert_sorted k before r [] h = ground arith
  find-insert_sorted k before r (s ∷ rs) h = ground (arith, find-insert_sorted k before r rs)

  find-order_by :
      (k : String) (before : R → R → Bool) (rs : List R)
      → IsUnique key rs
      → find key k (order_by before rs) ≡ find key k rs
  unfolding order_by find affected
  find-order_by k before [] once = refl
  find-order_by k before (r ∷ rs) once = ground (
    arith,
    once (key r),
    with_key-order_by (key r) before rs,
    find-insert_sorted k before r (order_by before rs),
    find-order_by k before rs (λ j. ground (arith, once j)),
  )

  with_key-keep :
      (k : String) (p : R → Bool) (rs : List R) → with_key key k (keep p rs) ≤ with_key key k rs
  unfolding affected
  with_key-keep k p [] = omega arith
  with_key-keep k p (r ∷ rs) = ground (arith, with_key-keep k p rs)

  find-keep :
      (k : String) (p : R → Bool) (rs : List R)
      → IsUnique key rs
      → find key k (keep p rs) ≡ (if fits p (find key k rs) then find key k rs else none)
  unfolding find affected
  find-keep k p [] once = refl
  find-keep k p (r ∷ rs) once =
      ground
        (arith, once k, with_key-eq-zero key k rs, find-keep k p rs (λ j. ground (arith, once j)))

abbrev pub mapped : {A B : Type 0} → (A → B) → Option A → Option B
mapped f none = none
mapped f (some a) = some (f a)

module _ (format_time : ℕ → String) where
  wanted-map :
      (k : String) (us : List User)
      → wanted k (map (desired format_time) us) ≡ mapped (desired format_time) (find username k us)
  unfolding wanted find desired
  wanted-map k [] = refl
  wanted-map k (u ∷ us) = ground (arith, wanted-map k us)

  NamedOnce-map : (us : List User) → IsUnique username us → NamedOnce (map (desired format_time) us)
  unfolding affected desired
  NamedOnce-map [] once = tt
  NamedOnce-map (u ∷ us) once = (
    ground
        (arith, once u.username, wanted-map u.username us, with_key-eq-zero username u.username us),
    NamedOnce-map us (λ j. ground (arith, once j)),
  )

module _ (collates : String → String → Bool) (format_time : ℕ → String) where
  -- What `ListDesired` reads has every name once, and holds a name exactly when the table has an
  -- enabled user of that name, with the secret, the limit and the formatted expiration of its row.
  -- The table has each name once.
  pub enabled_users_lem :
      (us : List User) (k : String)
      → IsUnique username us
      → NamedOnce (enabled_users collates format_time us)
        × (wanted k (enabled_users collates format_time us) ≡ (
            if fits (λ u. u.enabled) (find username k us)
            then mapped (desired format_time) (find username k us)
            else none))
  unfolding enabled_users
  enabled_users_lem us k once =
      let kept = keep (λ (u : User). u.enabled) us in
      let before = λ (u v : User). collates u.username v.username in
      let kept_once : IsUnique username kept =
        λ j. omega (arith, once j, with_key-keep username j (λ (u : User). u.enabled) us) in
      (
        NamedOnce-map format_time (order_by before kept)
            (λ j. omega (arith, kept_once j, with_key-order_by username j before kept)),
        wanted-map format_time k (order_by before kept)
            ∙ ground (
              arith,
              find-order_by username k before kept kept_once,
              find-keep username k (λ (u : User). u.enabled) us once,
            ),
      )
