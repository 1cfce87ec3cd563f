-- ===== src/Tests/Client.antt =====
-- A text of two lines and other bytes, cut into chunks.
use dfs_mapreduce.Base.{
  ℕ, ◌<◌, ◌≤◌, ◌≡◌, refl, true, false, List, [], ◌∷◌, All, drop, length-drop, arith,
}
use dfs_mapreduce.Dfs.Client.Chunks.{calculate_chunks}
use dfs_mapreduce.Dfs.Client.Pieces.{sum, calculate_chunks_even}
use dfs_mapreduce.Dfs.Client.Lines.{LinesFit, CutsAtLines, extra_bytes-le, calculate_chunks_text}

-- Newlines are the third and the fifth byte.
abbrev text : List ℕ
text = 65 ∷ 66 ∷ 10 ∷ 67 ∷ 10 ∷ []

chunks_of_text : calculate_chunks text true 2 ≡ 3 ∷ 2 ∷ []
unfolding calculate_chunks
chunks_of_text = refl

chunks_of_bytes : calculate_chunks text false 2 ≡ 2 ∷ 2 ∷ 1 ∷ []
unfolding calculate_chunks
chunks_of_bytes = refl

text-LinesFit : LinesFit 2 text
text-LinesFit i = grind (arith, extra_bytes-le (drop i text), length-drop i text)

calculate_chunks_text_example :
    CutsAtLines text (calculate_chunks text true 2) × (sum (calculate_chunks text true 2) ≡ 5)
calculate_chunks_text_example =
    calculate_chunks_text text 2 (omega arith) (omega arith) text-LinesFit

calculate_chunks_even_example :
    (sum (calculate_chunks text false 2) ≡ 5)
    × All (λ s. (0 < s) × (s ≤ 2)) (calculate_chunks text false 2)
calculate_chunks_even_example = calculate_chunks_even text 2 (omega arith) (omega arith)
