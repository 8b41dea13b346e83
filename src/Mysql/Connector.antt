-- ===== src/Mysql/Connector.antt =====
-- socket/mysql/connector.go, ormconnector.go and the pool of mysqlpool.go: the loop of `Start` over the
-- attempts to connect. A handle of a database is a number; what the driver answers to each attempt is
-- given, and the time between two attempts passes by itself.
mod Tests
use rocommon.Prelude.{
  ℕ, List, [], ◌∷◌, ◌++◌, Bool, true, false, not, ◌||◌, Option, none, some, if◌then◌else◌, ◌≡◌,
  refl, All, arith, ◌∙◌,
}

-- How far an attempt comes: the data source is refused, Open fails, the Ping fails, or a handle.
pub data Attempt : Type 0 where
  bad_dsn not_opened no_ping : Attempt
  opened : ℕ → Attempt

-- A connector, and the package's `GMysqlPool`.
pub record MysqlConnector : Type 0 where
  pub db : Option ℕ
  pub reconnects : Bool
  pub pool : Option ℕ

-- The first pool that is made becomes the package's.
abbrev pub first_pool : Option ℕ → ℕ → Option ℕ
first_pool none h = some h
first_pool (some g) h = some g

-- `tryConnect`
unfoldable pub try_connect : Attempt → MysqlConnector → MysqlConnector
try_connect Attempt.bad_dsn a = a
try_connect Attempt.not_opened a = a
try_connect Attempt.no_ping a = a
try_connect (Attempt.opened h) a = record a { db = some h; pool = first_pool a.pool h }

-- `IsReady`
abbrev pub is_ready : MysqlConnector → Bool
is_ready a = elim a.db [ none ↦ false | some h ↦ true ]

-- `Start` over the attempts to come. None: it is still trying after all of them.
unfoldable pub start_mysql : List Attempt → MysqlConnector → Option (MysqlConnector × List Attempt)
unfolding try_connect
start_mysql [] a = none
start_mysql (t ∷ ts) a =
    let b = try_connect t a in
    let rest = start_mysql ts b in if not b.reconnects || is_ready b then some (b, ts) else rest

-- An attempt that gives no handle.
abbrev pub IsFailed : Attempt → Type 0
IsFailed (Attempt.opened h) = ⊥
IsFailed t = Unit {0}

tries_again :
    (a : MysqlConnector)
    → a.db ≡ none
    → a.reconnects ≡ true
    → (not a.reconnects || is_ready a) ≡ false
tries_again a h r = ground (arith, h, r)

start_past :
    (t : Attempt) (ts : List Attempt) (a : MysqlConnector)
    → a.db ≡ none
    → a.reconnects ≡ true
    → IsFailed t
    → start_mysql (t ∷ ts) a ≡ start_mysql ts a
unfolding start_mysql try_connect
start_past Attempt.bad_dsn ts a h r f = rw (tries_again a h r) refl
start_past Attempt.not_opened ts a h r f = rw (tries_again a h r) refl
start_past Attempt.no_ping ts a h r f = rw (tries_again a h r) refl
start_past (Attempt.opened k) ts a h r f = absurd f

-- A connector that tries again goes on while the attempts fail, and returns from Start with the first
-- handle that it gets, which becomes the package's pool unless there is one.
pub start_mysql-opened :
    (ts : List Attempt) (k : ℕ) (later : List Attempt) (a : MysqlConnector)
    → a.db ≡ none
    → a.reconnects ≡ true
    → All IsFailed ts
    → (start_mysql ts a ≡ none)
      × (start_mysql (ts ++ Attempt.opened k ∷ later) a
          ≡ some (record a { db = some k; pool = first_pool a.pool k }, later))
unfolding start_mysql try_connect
start_mysql-opened [] k later a h r f = (refl, ground (arith, r))
start_mysql-opened (t ∷ ts) k later a h r (x, f) =
    let (fails, opens) = start_mysql-opened ts k later a h r f in
    (start_past t ts a h r x ∙ fails, start_past t (ts ++ Attempt.opened k ∷ later) a h r x ∙ opens)
