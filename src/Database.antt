-- ===== src/Database.antt =====
-- database/Utils.go and database/Connection.go. An `int32` is the integer that it stands for. The
-- database is a parameter: what `BeginTx`, `Commit` and `Rollback` answer.
pub mod Paging
pub mod Transaction
pub mod Dsn
pub mod Tests
use go_utilities.Base.{
  ℕ, zero, suc, ◌+◌, ◌-◌, ◌*◌, ◌%◌, ◌^◌, String, Bool, true, false, not, List, [], ◌∷◌, ◌++◌,
  Option, none, some, ◌||◌, if◌then◌else◌, ◌==◌, ltb, leb, is_empty,
}
use go_utilities.Base.Dict.{Dict}
use go_utilities.Base.Int.{ℤ, pos, negsuc, to_int32}
use go_utilities.Base.Text.{Text, codes, to_lower, text_eq}

-- Products of integers before they wrap.
abbrev pub mul : ℤ → ℤ → ℤ
mul (pos a) (pos b) = pos (a * b)
mul (pos zero) (negsuc b) = pos 0
mul (pos (suc a)) (negsuc b) = negsuc (suc a * suc b - 1)
mul (negsuc a) (pos zero) = pos 0
mul (negsuc a) (pos (suc b)) = negsuc (suc a * suc b - 1)
mul (negsuc a) (negsuc b) = pos (suc a * suc b)

-- `page < 1`
abbrev pub below_one : ℤ → Bool
below_one (pos n) = ltb n 1
below_one (negsuc n) = true

-- `page - 1`, which does not overflow at a page of at least 1
abbrev pub pred : ℤ → ℤ
pred (pos zero) = negsuc 0
pred (pos (suc n)) = pos n
pred (negsuc n) = negsuc (suc n)

pub record Pagination : Type 0 where
  pub limit : ℤ
  pub offset : ℤ

unfoldable pub new_pagination : ℤ → ℤ → Pagination
new_pagination page page_size =
    let first = if below_one page then pos 1 else page in
    record { limit = page_size; offset = to_int32 (mul (pred first) page_size) }

-- An error is known by a number that names it.
abbrev pub Err : Type 0
Err = ℕ

-- What the driver does, over its state: `none` is no error. `run` is what the callback does.
pub record Driving (S : Type 0) : Type 0 where
  pub begin_tx : S → S × Option Err
  pub rollback : S → S × Option Err
  pub commit : S → S × Option Err
  pub run : S → S × Option Err

module _ {S : Type 0} (d : Driving S) where
  -- The error of `Rollback` is dropped.
  abbrev after_run : S × Option Err → S × Option Err
  after_run (s, some e) = ((d.rollback s).0, some e)
  after_run (s, none) = d.commit s

  abbrev after_begin : S × Option Err → S × Option Err
  after_begin (s, some e) = (s, some e)
  after_begin (s, none) = after_run (d.run s)

  unfoldable pub with_transaction : S → S × Option Err
  with_transaction s = after_begin (d.begin_tx s)

pub data Driver : Type 0 where
  postgres mysql sqlite : Driver
  unknown : Text → Driver

-- `none` is the error.
unfoldable pub parse_driver : Text → Option Driver
parse_driver input =
    let low = to_lower input in
    if low == codes "postgres"
    then some postgres
    else if low == codes "mysql"
    then some mysql
    else if low == codes "sqlite" || low == codes "sqlite3"
    then some sqlite
    else none

pub record ConnectionString : Type 0 where
  pub host : Text
  pub port : Text
  pub user : Text
  pub password : Text
  pub database : Text
  pub options : List (Text × Text)

-- `optionString += fmt.Sprintf("%s=%s ", key, value)`
unfoldable pub option_string : ℕ → List (Text × Text) → Text
option_string sep [] = []
option_string sep ((k, v) ∷ options) = k ++ (b'=' ∷ (v ++ (sep ∷ option_string sep options)))

-- `s[:len(s)-1]`
unfoldable pub drop_last : Text → Text
drop_last [] = []
drop_last (c ∷ []) = []
drop_last (c ∷ d ∷ s) = c ∷ drop_last (d ∷ s)

abbrev pub field_of : Text → Text → Text
field_of name value = name ++ (b'=' ∷ (value ++ (b' ' ∷ [])))

unfoldable pub dsn : Driver → ConnectionString → Text
dsn postgres cs =
    field_of (codes "host") cs.host
    ++ (field_of (codes "port") cs.port
        ++ (field_of (codes "user") cs.user
            ++ (field_of (codes "password") cs.password
                ++ (field_of (codes "dbname") cs.database ++ option_string b' ' cs.options))))
dsn mysql cs =
    let base =
      cs.user
      ++ (b':'
          ∷ (cs.password
              ++ (codes "@tcp("
                  ++ (cs.host ++ (b':' ∷ (cs.port ++ (codes ")/" ++ cs.database))))))) in
    if is_empty cs.options then base else drop_last (base ++ (b'?' ∷ option_string b'&' cs.options))
dsn sqlite cs = cs.database
dsn (unknown name) cs = []

pub record ConnectionPoolConfig : Type 0 where
  pub max_open_conns : ℤ
  pub max_idle_conns : ℤ
  pub conn_max_idle_time : ℤ
  pub conn_max_lifetime : ℤ
  pub enable_telemetry : Bool

-- In nanoseconds.
abbrev minute : ℕ
minute = 60_000_000_000

pub default_pool_config : ConnectionPoolConfig
default_pool_config = record {
  max_open_conns = pos 30;
  max_idle_conns = pos 10;
  conn_max_idle_time = pos (5 * minute);
  conn_max_lifetime = pos (10 * minute);
  enable_telemetry = false;
}

pub record Connection : Type 0 where
  pub driver : Driver
  pub connection_string : ConnectionString
  pub pool_config : ConnectionPoolConfig

abbrev or_default : Option ConnectionPoolConfig → ConnectionPoolConfig
or_default none = default_pool_config
or_default (some pool) = pool

-- `none` is the error of a nil connection string.
unfoldable pub new_connection :
    Driver → Option ConnectionString → Option ConnectionPoolConfig → Option Connection
unfolding default_pool_config
new_connection driver none pool = none
new_connection driver (some cs) pool =
    some (record { driver = driver; connection_string = cs; pool_config = or_default pool })
