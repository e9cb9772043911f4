-- ===== src/Database/Tests.antt =====
-- Runs, and the theorems at concrete inputs.
use go_utilities.Base.{ℕ, ◌*◌, ◌^◌, ◌<◌, ◌≡◌, refl, ◌↔◌, List, [], ◌∷◌, none, some}
use go_utilities.Base.Int.{pos, negsuc, to_int32}
use go_utilities.Base.Text.{codes, to_lower, text_eq}
use go_utilities.Database.{
  new_pagination, Driving, with_transaction, ConnectionString, dsn, mysql, sqlite, parse_driver,
  option_string, drop_last,
}
use go_utilities.Database.Paging.{new_pagination-offset}
use go_utilities.Database.Transaction.{Commits, with_transaction_iff}

-- Page 3 of 1073741824 rows a page wraps to a negative offset.
wrapped : (new_pagination (pos 3) (pos 1_073_741_824)).offset ≡ negsuc 2_147_483_647
unfolding new_pagination to_int32
wrapped = refl

new_pagination-offset_example :
    ((new_pagination (pos 3) (pos 20)).offset ≡ pos (2 * 20)) ↔ (2 * 20 < 2 ^ 31)
new_pagination-offset_example = new_pagination-offset 2 20

-- A log of the calls; the callback fails at state 0 only.
abbrev logged : Driving (List ℕ)
logged = record {
  begin_tx = λ s. (1 ∷ s, none);
  rollback = λ s. (2 ∷ s, some 9);
  commit = λ s. (3 ∷ s, none);
  run = λ s. (4 ∷ s, some 7);
}

with_transaction_iff_example :
    (with_transaction logged [] ≡ (2 ∷ 4 ∷ 1 ∷ [], none)) ↔ Commits logged [] (2 ∷ 4 ∷ 1 ∷ [])
with_transaction_iff_example = with_transaction_iff logged [] (2 ∷ 4 ∷ 1 ∷ [])

rolled_back : with_transaction logged [] ≡ (2 ∷ 4 ∷ 1 ∷ [], some 7)
unfolding with_transaction
rolled_back = refl

abbrev server : ConnectionString
server = record {
  host = codes "db";
  port = codes "3306";
  user = codes "root";
  password = codes "pw";
  database = codes "app";
  options = (codes "tls", codes "true") ∷ (codes "loc", codes "UTC") ∷ [];
}

mysql_name : dsn mysql server ≡ codes "root:pw@tcp(db:3306)/app?tls=true&loc=UTC"
unfolding dsn option_string drop_last
mysql_name = refl

sqlite_name : parse_driver (codes "SQLite") ≡ some sqlite
unfolding parse_driver to_lower
sqlite_name = refl
