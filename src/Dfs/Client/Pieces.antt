-- ===== src/Dfs/Client/Pieces.antt =====
-- calculateChunks on a file that is no text, and the chunk size on the command line.
use dfs_mapreduce.Base.{
  ℕ, zero, suc, ◌+◌, ◌-◌, ◌*◌, ◌/◌, ◌<◌, ◌≤◌, ◌≡◌, false, List, [], ◌∷◌, length, All, arith,
}
use dfs_mapreduce.Dfs.Client.{min_chunk_size, max_chunk_size, chosen_chunk_size}
use dfs_mapreduce.Dfs.Client.Chunks.{u32, even_chunks, calculate_chunks}

abbrev pub sum : List ℕ → ℕ
sum [] = 0
sum (n ∷ ns) = n + sum ns

-- Whatever number is given, the chunk size is in the range that the client allows.
pub chosen_chunk_size_bounds :
    (parsed : ℕ)
    → (min_chunk_size ≤ chosen_chunk_size parsed) × (chosen_chunk_size parsed ≤ max_chunk_size)
unfolding chosen_chunk_size
chosen_chunk_size_bounds parsed = ground arith

even_chunks_lem :
    (m n k : ℕ)
    → 0 < m
    → m < u32
    → k * m < n + m
    → n ≤ k * m
    → (sum (even_chunks m n k) ≡ n) × All (λ s. (0 < s) × (s ≤ m)) (even_chunks m n k)
unfolding even_chunks
even_chunks_lem m n zero p q lo hi = (omega arith, tt)
even_chunks_lem m n (suc zero) p q lo hi = (omega arith, (omega arith, tt))
even_chunks_lem m n (suc (suc k)) p q lo hi =
    let (total, each) = even_chunks_lem m (n - m) (suc k) p q (grind arith) (grind arith) in
    (grind arith, (omega arith, each))

-- If the chunk size is from 1 to 2 ^ 32 - 1, a file that is no text is cut into chunks of at least
-- one byte and at most the chunk size, which hold all its bytes.
pub calculate_chunks_even :
    (bytes : List ℕ) (m : ℕ)
    → 0 < m
    → m < u32
    → (sum (calculate_chunks bytes false m) ≡ length bytes)
      × All (λ s. (0 < s) × (s ≤ m)) (calculate_chunks bytes false m)
unfolding calculate_chunks
calculate_chunks_even bytes m p q =
    even_chunks_lem m (length bytes) ((length bytes + m - 1) / m) p q (ground arith) (ground arith)
