-- ===== src/Sql.antt =====
-- socket/mysql/sqler.go: the builder of SQL statements. A value that a caller gives (`interface{}`) is
-- one of a few kinds; what `fmt.Sprint` prints of the kinds that the code does not look into comes
-- with the value. A Go map is the list of its entries in the order in which a `range` meets them.
pub mod Literal
pub mod Where
pub mod Query
pub mod Execute
use rocommon.Prelude.{Bool, false, ℕ, List, [], ◌∷◌, Option, none, some}
use rocommon.Text.{String, ℤ, pos}

-- An int, a string, a time (as the literal that it is formatted to), or what `fmt.Sprint` prints.
pub data Scalar : Type 0 where
  int : ℤ → Scalar
  str : String → Scalar
  moment : String → Scalar
  other : String → Scalar

-- A value, or a slice of values with what `fmt.Sprint` prints of it.
pub data Arg : Type 0 where
  one : Scalar → Arg
  slice : String → List Scalar → Arg

-- An argument of `Where`: also a map, or a slice of slices, each with what is printed of it.
pub data Param : Type 0 where
  plain : Arg → Param
  mapping : String → List (String × Arg) → Param
  rows : String → List (String × List Arg) → Param

pub data SqlError : Type 0 where
  where_parameter where_format join_format : SqlError

-- What a call gives: a value, an error, or a panic of a type assertion or an index.
pub data Built {ℓ} (A : Type ℓ) : Type ℓ where
  built : A → Built A
  failed : SqlError → Built A
  panicked : Built A

infixl 5 ◌>>=◌
abbrev pub ◌>>=◌ {ℓ κ} : {A : Type ℓ} {B : Type κ} → Built A → (A → Built B) → Built B
panicked >>= next = panicked
failed e >>= next = failed e
built a >>= next = next a

-- The data of an insert or an update: a string, rows, or one row (a map, or a struct by
-- `utils_Struct2Map`).
pub data Data : Type 0 where
  text_data : String → Data
  rows_data : List (List (String × Arg)) → Data
  row_data : List (String × Arg) → Data

pub record Sqler : Type 0 where
  pub table : String
  pub fields : String
  pub wheres : List (String × List Param)
  pub order : String
  pub limit : ℤ
  pub offset : ℤ
  pub joins : List (String × List Scalar)
  pub distinct : Bool
  pub count : String
  pub sum : String
  pub avg : String
  pub max : String
  pub min : String
  pub group : String
  pub having : String
  pub content : Option Data
  pub inc_fields : List String
  pub translate : Option (String → String)
  pub optype : String
  pub ignore : String

-- `NewSqler`.
unfoldable pub new_sqler : Option (String → String) → Sqler
new_sqler translate = record {
  table = [];
  fields = [];
  wheres = [];
  order = [];
  limit = pos 0;
  offset = pos 0;
  joins = [];
  distinct = false;
  count = [];
  sum = [];
  avg = [];
  max = [];
  min = [];
  group = [];
  having = [];
  content = none;
  inc_fields = [];
  translate = translate;
  optype = [];
  ignore = [];
}
