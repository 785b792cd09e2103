-- ===== src/Tests/StoreRuns.antt =====
-- A database with three users and a token, and what the statements do to it.
use telemux.Store.Users.{page, list_users_page, username, new_row, newer_first}
use telemux.Store.{select, User, Db}
use telemux.Store.Pages.{listed_total, NewestFirst, pages, list_users_page-covers}
use mathlib.Core.List.{Perm}
use telemux.Base.Int.{pos}
use telemux.Base.{
  length, ℕ, String, Bool, true, false, Option, none, some, List, [], ◌∷◌, ◌≡◌, ◌≢◌, refl, arith,
  ok, ◌==◌, string_eq,
}
use telemux.Store.Table.{find, IsUnique, affected, order_by, insert_sorted}
use telemux.Store.Cluster.{is_unused, consume_join_token}
use telemux.Store.Laws.{is_unique-IsUnique}
use telemux.Store.Refines.{
  Statement, inserts, deletes, expires, enables, passes, run, run_map, view, run-run_map, IsReady,
}
use telemux.Store.Tokens.{token, consume_join_token_lem}

abbrev row : String → Bool → Option ℕ → ℕ → User
row name on exp at = record (new_row name "00112233445566778899aabbccddeeff" exp none at) {
  enabled = on;
}

abbrev pub db : Db
db = record {
  users = row "sub_a" true none 5 ∷ row "sub_b" true (some 1000) 7 ∷ row "sub_d" false none 9 ∷ [];
  nodes = [];
  tokens = record { token = "t1"; expires_at = 50; used_at = none } ∷ [];
  is_replica = false;
  now = 10;
  failures = [];
  draws = [];
}

pub db-IsUnique : IsUnique username db.users
unfolding affected string_eq
db-IsUnique = is_unique-IsUnique username db.users refl

pub tokens-IsUnique : IsUnique token db.tokens
unfolding affected string_eq
tokens-IsUnique = is_unique-IsUnique token db.tokens refl

abbrev pub text_order : String → String → Bool
text_order a b = true

abbrev pub format_sample : ℕ → String
format_sample t = "2026-01-01T00:00:00Z"

abbrev script : List Statement
script =
    inserts "sub_c" "ff" none none
    ∷ inserts "sub_a" "ff" none none
    ∷ passes 3
    ∷ expires "sub_b" none
    ∷ enables "nobody" true
    ∷ deletes "sub_d"
    ∷ []

not_empty : (s : String) → (s == "") ≡ false → s ≢ ""
not_empty s h e = ground arith

run-run_map_example :
    ((run script db).0 ≡ (run_map script 10 (view db)).0)
    × (view (run script db).1 ≡ (run_map script 10 (view db)).1)
    × IsReady (run script db).1
unfolding string_eq
run-run_map_example =
    run-run_map script db
      (
        (not_empty "sub_c" refl, not_empty "ff" refl, refl),
        ((not_empty "sub_a" refl, not_empty "ff" refl, refl), (tt, (tt, (tt, (tt, tt))))),
      )
      (record { primary = refl; calm = refl; once = db-IsUnique })

consume_join_token_lem_example : (consume_join_token "t1" db).0 ≡ ok true
unfolding find string_eq is_unused
consume_join_token_lem_example = (consume_join_token_lem "t1" db tokens-IsUnique refl refl).0

two_pages :
    pages text_order db 2 0 2
    ≡ row "sub_d" false none 9 ∷ row "sub_b" true (some 1000) 7 ∷ row "sub_a" true none 5 ∷ []
unfolding list_users_page select page order_by insert_sorted newer_first
two_pages = refl

list_users_page-covers_example :
    Perm (pages text_order db 2 0 2) db.users
    × NewestFirst (pages text_order db 2 0 2)
    × ((offset : ℕ)
        → listed_total (list_users_page text_order (pos 2) (pos offset) db).0
          ≡ some (length db.users))
list_users_page-covers_example =
    list_users_page-covers text_order db 2 2 refl (omega arith) (omega arith) (omega arith)
