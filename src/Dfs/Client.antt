-- ===== src/Dfs/Client.antt =====
-- dfs/client/client.go: how a file is cut into chunks, and the chunk size on the command line.
pub mod Chunks
pub mod Pieces
pub mod Lines
pub mod Transfer
pub mod Files
use dfs_mapreduce.Base.{ℕ, ◌*◌, ◌/◌, ◌%◌, ◌^◌, Option, none, some, max, ltb, ◌==◌, if◌then◌else◌}

abbrev pub mib : ℕ
mib = 2 ^ 20

abbrev pub min_chunk_size : ℕ
min_chunk_size = 64 * mib

abbrev pub default_chunk_size : ℕ
default_chunk_size = 128 * mib

abbrev pub max_chunk_size : ℕ
max_chunk_size = 256 * mib

-- The number of chunks on their way at once. It is computed when the program starts, so from the
-- default chunk size.
abbrev pub max_concurrent : ℕ
max_concurrent = max (512 * mib / default_chunk_size) (512 * mib / max_chunk_size)

-- The value of `--chunk-size`, after strconv.ParseUint to 32 bits.
unfoldable pub chosen_chunk_size : ℕ → ℕ
chosen_chunk_size parsed =
    if parsed == 0
    then default_chunk_size
    else if ltb parsed min_chunk_size
    then min_chunk_size
    else if ltb max_chunk_size parsed
    then max_chunk_size
    else parsed
