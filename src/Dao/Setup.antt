-- ===== src/Dao/Setup.antt =====
-- onesql/dao.go, fastsql.go: what a constructor hands to a dao, and what the dao keeps of it.

-- `constructor`, with its two getters as fields.
pub record Constructor (B S : Type 0) : Type 0 where
  pub get_builder : B
  pub get_scanner : S

-- `FastDaoImpl`, with its getters as fields; `N`, `O` and `F` are the types of the function for the name of
-- the table, of that for the omitted columns, and of the binding function.
pub record FastDaoImpl (B S N O F : Type 0) : Type 0 where
  pub table_name : N
  pub omits : O
  pub scanner : S
  pub builder : B
  pub bind : F

-- `Init`.
unfoldable init : {B S N O F : Type 0} → Constructor B S → N → O → F → FastDaoImpl B S N O F
init cons table_name omits bind = record {
  table_name = table_name;
  omits = omits;
  scanner = cons.get_scanner;
  builder = cons.get_builder;
  bind = bind;
}
