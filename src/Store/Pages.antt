-- ===== src/Store/Pages.antt =====
-- The pages of `ListUsersPage`.
use telemux.Base.{
  none, All, All-map, Option, some, sym, take, drop, take-all, take-add, drop-add, Bool-cases, inl,
  inr, ℕ, zero, suc, ◌+◌, ◌*◌, ◌≤◌, ◌<◌, String, Bool, List, [], ◌∷◌, ◌++◌, ◌≡◌, refl, arith,
  Result, ok, err, length, ap, ◌∙◌,
}
use mathlib.Core.List.{Perm}
use mathlib.Core.List.Perm
use telemux.Base.Int.{pos}
use telemux.Store.{User, Db, select}
use telemux.Store.Table.{order_by, insert_sorted}
use telemux.Store.Users.{list_users_page, page, newer_first}

length-insert_sorted :
    {R : Type 0} (before : R → R → Bool) (r : R) (rs : List R)
    → length (insert_sorted before r rs) ≡ suc (length rs)
unfolding insert_sorted
length-insert_sorted before r [] = refl
length-insert_sorted before r (s ∷ rs) = ground (arith, length-insert_sorted before r rs)

length-order_by :
    {R : Type 0} (before : R → R → Bool) (rs : List R) → length (order_by before rs) ≡ length rs
unfolding order_by
length-order_by before [] = refl
length-order_by before (r ∷ rs) =
    ground (arith, length-insert_sorted before r (order_by before rs), length-order_by before rs)

insert_sorted-Perm :
    {R : Type 0} (before : R → R → Bool) (r : R) (rs : List R)
    → Perm (insert_sorted before r rs) (r ∷ rs)
unfolding insert_sorted
insert_sorted-Perm before r [] = Perm.refl (r ∷ [])
insert_sorted-Perm before r (s ∷ rs) = elim (Bool-cases (before r s)) [
  | inl first ↦ rw first (Perm.refl (r ∷ s ∷ rs))
  | inr later ↦
      rw later (Perm.trans (Perm.cons s (insert_sorted-Perm before r rs)) (Perm.swap r s rs))
]

order_by-Perm : {R : Type 0} (before : R → R → Bool) (rs : List R) → Perm (order_by before rs) rs
unfolding order_by
order_by-Perm before [] = Perm.refl []
order_by-Perm before (r ∷ rs) =
    Perm.trans (insert_sorted-Perm before r (order_by before rs))
      (Perm.cons r (order_by-Perm before rs))

abbrev listed_users : Result String (List User × ℕ) → List User
listed_users (ok (us, total)) = us
listed_users (err _) = []

abbrev pub listed_total : Result String (List User × ℕ) → Option ℕ
listed_total (ok (us, total)) = some total
listed_total (err _) = none

-- Nobody is after a user who was created earlier.
abbrev pub NewestFirst : List User → Type 0
NewestFirst [] = Unit
NewestFirst (u ∷ us) = All (λ v. v.created_at ≤ u.created_at) us × NewestFirst us

module _ (collates : String → String → Bool) where
  insert_sorted-All :
      (u : User) (us : List User) (bound : ℕ)
      → u.created_at ≤ bound
      → All (λ v. v.created_at ≤ bound) us
      → All (λ v. v.created_at ≤ bound) (insert_sorted (newer_first collates) u us)
  unfolding insert_sorted
  insert_sorted-All u [] bound h all = (h, tt)
  insert_sorted-All u (v ∷ us) bound h (first, all) = elim (Bool-cases (newer_first collates u v)) [
    | inl before ↦ rw before (h, (first, all))
    | inr later ↦ rw later (first, insert_sorted-All u us bound h all)
  ]

  insert_sorted-NewestFirst :
      (u : User) (us : List User)
      → NewestFirst us
      → NewestFirst (insert_sorted (newer_first collates) u us)
  unfolding insert_sorted newer_first
  insert_sorted-NewestFirst u [] h = (tt, tt)
  insert_sorted-NewestFirst u (v ∷ us) (older, h) = elim (Bool-cases (newer_first collates u v)) [
    | inl before ↦
        let newer : v.created_at ≤ u.created_at = ground arith in
        rw before (
          (newer, All-map (λ (x : User) (le : x.created_at ≤ v.created_at). omega arith) us older),
          (older, h),
        )
    | inr later ↦
        let newer : u.created_at ≤ v.created_at = ground arith in
        rw later (insert_sorted-All u us v.created_at newer older, insert_sorted-NewestFirst u us h)
  ]

  order_by-NewestFirst : (us : List User) → NewestFirst (order_by (newer_first collates) us)
  unfolding order_by
  order_by-NewestFirst [] = tt
  order_by-NewestFirst (u ∷ us) =
      insert_sorted-NewestFirst u (order_by (newer_first collates) us) (order_by-NewestFirst us)

module _ (collates : String → String → Bool) (db : Db) (limit : ℕ) where
  -- The pages from an offset on, asked for one after the other.
  abbrev pub pages : ℕ → ℕ → List User
  pages offset zero = []
  pages offset (suc m) =
      listed_users (list_users_page collates (pos limit) (pos offset) db).0
      ++ pages (offset + limit) m

  one_page :
      (offset : ℕ)
      → db.failures ≡ []
      → 0 < limit
      → limit ≤ 100
      → (list_users_page collates (pos limit) (pos offset) db).0
        ≡ ok (take limit (drop offset (order_by (newer_first collates) db.users)), length db.users)
  unfolding list_users_page select page
  one_page offset calm some_limit in_bounds = ground arith

  pages-take :
      (offset m : ℕ)
      → db.failures ≡ []
      → 0 < limit
      → limit ≤ 100
      → pages offset m ≡ take (m * limit) (drop offset (order_by (newer_first collates) db.users))
  pages-take offset zero calm some_limit in_bounds =
      let e : ◌≡◌ {A = ℕ} 0 (0 * limit) = omega arith in
      ap (λ (k : ℕ). take k (drop offset (order_by (newer_first collates) db.users))) e
  pages-take offset (suc m) calm some_limit in_bounds =
      let sorted = order_by (newer_first collates) db.users in
      let first = ap listed_users (one_page offset calm some_limit in_bounds) in
      let rest = pages-take (offset + limit) m calm some_limit in_bounds in
      let size : limit + m * limit ≡ suc m * limit = omega arith in
      (λ i. first i ++ (rest ∙ ap (take (m * limit)) (drop-add offset limit sorted)) i)
      ∙ sym (take-add limit (m * limit) (drop offset sorted))
      ∙ ap (λ (k : ℕ). take k (drop offset sorted)) size

  -- Pages of one size from 1 to 100, asked for one after the other until they hold as many users as
  -- the table, show every user exactly once, those created later first, and the page at any offset
  -- says how many users there are. No statement fails, and the table does not change in between.
  pub list_users_page-covers :
      (m : ℕ)
      → db.failures ≡ []
      → 0 < limit
      → limit ≤ 100
      → length db.users ≤ m * limit
      → Perm (pages 0 m) db.users
        × NewestFirst (pages 0 m)
        × ((offset : ℕ)
            → listed_total (list_users_page collates (pos limit) (pos offset) db).0
              ≡ some (length db.users))
  list_users_page-covers m calm some_limit in_bounds enough =
      let sorted = order_by (newer_first collates) db.users in
      let all : pages 0 m ≡ sorted =
        pages-take 0 m calm some_limit in_bounds
        ∙ take-all (m * limit) sorted
            (omega (arith, length-order_by (newer_first collates) db.users)) in
      (
        rw all (order_by-Perm (newer_first collates) db.users),
        rw all (order_by-NewestFirst collates db.users),
        λ offset. ap listed_total (one_page offset calm some_limit in_bounds),
      )
