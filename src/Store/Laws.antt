-- ===== src/Store/Laws.antt =====
-- What the statements do to the rows of a key.
use telemux.Base.{
  ◌&&◌, inl, inr, Option-cases, ◌+◌, ◌≤◌, String, Bool, true, false, not, Option, none, some, List,
  [], ◌∷◌, ◌++◌, ◌==◌, string_eq, ◌≡◌, refl, arith, if◌then◌else◌, nat_eq,
}
use telemux.Store.Table.{set_where, affected, delete_where, has_key, with_key, find, IsUnique}

abbrev pub is_some {ℓ} : {A : Type ℓ} → Option A → Bool
is_some none = false
is_some (some _) = true

abbrev pub if_fits : {R : Type 0} → (R → Bool) → (R → R) → Option R → Option R
if_fits p f none = none
if_fits p f (some r) = some (if p r then f r else r)

abbrev pub fits : {R : Type 0} → (R → Bool) → Option R → Bool
fits p none = false
fits p (some r) = p r

module _ {R : Type 0} (key : R → String) where
  pub with_key-append :
      (k : String) (rs : List R) (r : R)
      → with_key key k (rs ++ r ∷ []) ≡ with_key key k rs + (if k == key r then 1 else 0)
  unfolding affected
  with_key-append k [] r = ground arith
  with_key-append k (s ∷ rs) r = ground (arith, with_key-append k rs r)

  pub with_key-delete_where :
      (k n : String) (rs : List R)
      → with_key key k (delete_where (has_key key n) rs) ≡ (if k == n then 0 else with_key key k rs)
  unfolding affected delete_where
  with_key-delete_where k n [] = ground arith
  with_key-delete_where k n (r ∷ rs) = ground (arith, with_key-delete_where k n rs)

  pub with_key-set_where :
      (k : String) (p : R → Bool) (f : R → R) (rs : List R)
      → ((r : R) → key (f r) ≡ key r)
      → with_key key k (set_where p f rs) ≡ with_key key k rs
  unfolding affected set_where
  with_key-set_where k p f [] h = refl
  with_key-set_where k p f (r ∷ rs) h = ground (arith, h r, with_key-set_where k p f rs h)

  pub find-append :
      (k : String) (rs : List R) (r : R)
      → find key k (rs ++ r ∷ [])
        ≡ (if is_some (find key k rs) then find key k rs else if k == key r then some r else none)
  unfolding find
  find-append k [] r = ground arith
  find-append k (s ∷ rs) r = ground (arith, find-append k rs r)

  pub find-delete_where :
      (k n : String) (rs : List R)
      → find key k (delete_where (has_key key n) rs) ≡ (if k == n then none else find key k rs)
  unfolding find delete_where
  find-delete_where k n [] = ground arith
  find-delete_where k n (r ∷ rs) = ground (arith, find-delete_where k n rs)

  pub find-set_where :
      (k : String) (p : R → Bool) (f : R → R) (rs : List R)
      → ((r : R) → key (f r) ≡ key r)
      → find key k (set_where p f rs) ≡ if_fits p f (find key k rs)
  unfolding find set_where
  find-set_where k p f [] h = refl
  find-set_where k p f (r ∷ rs) h = ground (arith, h r, find-set_where k p f rs h)

  pub find-key : (k : String) (rs : List R) (r : R) → find key k rs ≡ some r → k ≡ key r
  unfolding find
  find-key k [] r h = ground arith
  find-key k (s ∷ rs) r h = ground (arith, find-key k rs r)

  pub with_key-eq-zero :
      (k : String) (rs : List R) → nat_eq (with_key key k rs) 0 ≡ not (is_some (find key k rs))
  unfolding affected find
  with_key-eq-zero k [] = refl
  with_key-eq-zero k (r ∷ rs) = ground (arith, with_key-eq-zero k rs)

  -- A clause that fits rows of one key only.
  affected-none :
      (k : String) (p : R → Bool) (rs : List R)
      → ((r : R) → p r ≡ true → k ≡ key r)
      → with_key key k rs ≡ 0
      → affected p rs ≡ 0
  unfolding affected
  affected-none k p [] h e = refl
  affected-none k p (r ∷ rs) h e = ground (arith, h r, affected-none k p rs h)

  pub affected-fits :
      (k : String) (p : R → Bool) (rs : List R)
      → ((r : R) → p r ≡ true → k ≡ key r)
      → with_key key k rs ≤ 1
      → affected p rs ≡ (if fits p (find key k rs) then 1 else 0)
  unfolding affected find
  affected-fits k p [] h e = refl
  affected-fits k p (r ∷ rs) h e =
      ground (arith, h r, affected-fits k p rs h, affected-none k p rs h)

  -- WHERE key = n
  pub find-set_key :
      (k n : String) (f : R → R) (rs : List R)
      → ((r : R) → key (f r) ≡ key r)
      → find key k (set_where (has_key key n) f rs)
        ≡ (if k == n then if_fits (λ r. true) f (find key k rs) else find key k rs)
  unfolding find set_where
  find-set_key k n f [] h = ground arith
  find-set_key k n f (r ∷ rs) h = ground (arith, h r, find-set_key k n f rs h)

  pub affected-has_key :
      (n : String) (rs : List R)
      → with_key key n rs ≤ 1
      → affected (has_key key n) rs ≡ (if is_some (find key n rs) then 1 else 0)
  affected-has_key n rs h =
      let counted = affected-fits n (has_key key n) rs (λ r e. ground arith) h in
      elim (Option-cases (find key n rs)) [
        | inl e ↦ ground arith
        | inr (r, e) ↦ ground (arith, find-key n rs r e)
      ]

  -- A test of the constraint.
  abbrev is_unique : List R → Bool
  is_unique [] = true
  is_unique (r ∷ rs) = nat_eq (with_key key (key r) rs) 0 && is_unique rs

  pub is_unique-IsUnique : (rs : List R) → is_unique rs ≡ true → IsUnique key rs
  unfolding affected
  is_unique-IsUnique [] h k = omega arith
  is_unique-IsUnique (r ∷ rs) h k = ground (arith, is_unique-IsUnique rs (ground arith) k)
