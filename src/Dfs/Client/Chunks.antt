-- ===== src/Dfs/Client/Chunks.antt =====
-- calculateChunks of dfs/client/client.go, on the bytes of the file. Its reads and seeks succeed.
use dfs_mapreduce.Base.{
  ℕ, zero, suc, ◌+◌, ◌-◌, ◌/◌, ◌%◌, ◌^◌, Bool, true, false, List, [], ◌∷◌, drop, length, leb, ◌==◌,
  if◌then◌else◌,
}

abbrev pub u32 : ℕ
u32 = 2 ^ 32

-- The rounds of the loop that are left, in a file that is no text: the last round has the rest.
unfoldable pub even_chunks : ℕ → ℕ → ℕ → List ℕ
even_chunks max_chunk_size file_size zero = []
even_chunks max_chunk_size file_size (suc zero) = file_size % u32 ∷ []
even_chunks max_chunk_size file_size (suc (suc k)) =
    max_chunk_size % u32 ∷ even_chunks max_chunk_size (file_size - max_chunk_size) (suc k)

-- The bytes up to the first newline, which is counted; all of them if there is none.
unfoldable pub extra_bytes : List ℕ → ℕ
extra_bytes [] = 0
extra_bytes (b ∷ bs) = if b == 10 then 1 else 1 + extra_bytes bs

-- The loop over a text, on the bytes that are left.
unfoldable pub text_chunks : ℕ → ℕ → List ℕ → List ℕ
unfolding extra_bytes
text_chunks zero max_chunk_size bytes = []
text_chunks (suc fuel) max_chunk_size bytes =
    let size = (max_chunk_size - 1 + extra_bytes (drop (max_chunk_size - 1) bytes)) % u32 in
    elim (length bytes == 0) [
      | true ↦ []
      | false ↦ elim (leb (length bytes) max_chunk_size) [
        | true ↦ length bytes % u32 ∷ []
        | false ↦ size ∷ text_chunks fuel max_chunk_size (drop size bytes)
      ]
    ]

-- A text has at most as many chunks as bytes.
unfoldable pub calculate_chunks : List ℕ → Bool → ℕ → List ℕ
unfolding even_chunks text_chunks
calculate_chunks bytes is_text max_chunk_size =
    if is_text
    then text_chunks (length bytes) max_chunk_size bytes
    else even_chunks max_chunk_size (length bytes)
        ((length bytes + max_chunk_size - 1) / max_chunk_size)
