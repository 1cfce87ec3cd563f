-- ===== src/Mapreduce/Util.antt =====
-- mapreduce/util: pairs of a key and a value, their order, and the external sort.
pub mod Keys
pub mod Sort
pub mod SysStats
use dfs_mapreduce.Base.{ℕ, List}

pub record KeyValue : Type 0 where
  pub key : List ℕ
  pub value : List ℕ
