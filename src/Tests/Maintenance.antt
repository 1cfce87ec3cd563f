-- ===== src/Tests/Maintenance.antt =====
-- A round of the maintenance over a chunk that has a copy on a node that is gone.
use mathlib.Core.Option
use dfs_mapreduce.Base.{◌≡◌, ◌≢◌, refl, [], ◌∷◌, map, length, arith, Distinct, lookup}
use dfs_mapreduce.Dfs.Controller.{FileMetadata, Controller}
use dfs_mapreduce.Dfs.Controller.Replication.{process_replication}
use dfs_mapreduce.Dfs.Controller.Replication.Copies.{without_dead, process_replication_files}
use dfs_mapreduce.Tests.Controller.{three_nodes}
use dfs_mapreduce.Tests.Reports.{no_json, all_well, chunk}

abbrev on_two : FileMetadata
on_two = record {
  file_name = "f";
  size = 10;
  chunks = chunk 0 ("z" ∷ "a" ∷ []) ∷ [];
  created_at = 0;
  lease_expiry = 0;
}

abbrev one_file : Controller
one_file = record three_nodes { files = ("f", on_two) ∷ [] }

one_file-Distinct : Distinct one_file.files
unfolding lookup
one_file-Distinct = (refl, tt)

has_nodes : length one_file.nodes ≢ 0
has_nodes = λ e. omega arith

process_replication_files_example :
    lookup "f" (process_replication no_json all_well one_file).controller.files
    ≡ Option.map (without_dead (map (λ e. e.1.address) one_file.nodes)) (lookup "f" one_file.files)
process_replication_files_example =
    process_replication_files no_json all_well one_file "f" one_file-Distinct has_nodes
