-- ===== src/Dfs/Client/Lines.antt =====
-- calculateChunks on a text.
use dfs_mapreduce.Base.{
  ℕ, zero, suc, ◌+◌, ◌-◌, ◌%◌, ◌<◌, ◌≤◌, ◌≡◌, refl, inl, inr, ◌⊎◌, true, false, some, ap, sym, ◌∙◌,
  List, [], ◌∷◌, drop, get_elem?, length, length-drop, arith, leb, Bool-cases, ◌==◌, drop-drop,
  get_elem?-drop,
}
use dfs_mapreduce.Dfs.Client.Chunks.{u32, extra_bytes, text_chunks, calculate_chunks}
use dfs_mapreduce.Dfs.Client.Pieces.{sum}

pub extra_bytes-le : (bs : List ℕ) → extra_bytes bs ≤ length bs
unfolding extra_bytes
extra_bytes-le [] = omega arith
extra_bytes-le (b ∷ bs) = ground (arith, extra_bytes-le bs)

extra_bytes_pos : (bs : List ℕ) → 0 < length bs → 0 < extra_bytes bs
unfolding extra_bytes
extra_bytes_pos [] h = absurd (omega arith)
extra_bytes_pos (b ∷ bs) h = ground arith

extra_bytes_here : (b : ℕ) (bs : List ℕ) → (b == 10) ≡ true → extra_bytes (b ∷ bs) ≡ 1
unfolding extra_bytes
extra_bytes_here b bs e = rw e refl

extra_bytes_later :
    (b : ℕ) (bs : List ℕ) → (b == 10) ≡ false → extra_bytes (b ∷ bs) ≡ 1 + extra_bytes bs
unfolding extra_bytes
extra_bytes_later b bs e = rw e refl

get_elem?-suc : (b n : ℕ) (bs : List ℕ) → 0 < n → get_elem? (b ∷ bs) n ≡ get_elem? bs (n - 1)
get_elem?-suc b zero bs p = absurd (omega arith)
get_elem?-suc b (suc n) bs p = ap (get_elem? bs) (omega arith)

-- The counted bytes end in a newline, or are all that is left.
extra_bytes_end :
    (bs : List ℕ)
    → 0 < length bs
    → (get_elem? bs (extra_bytes bs - 1) ≡ some 10) ⊎ (extra_bytes bs ≡ length bs)
extra_bytes_end [] h = absurd (omega arith)
extra_bytes_end (b ∷ bs) h = elim (Bool-cases (b == 10)) [
  | inl e ↦ inl (rw (extra_bytes_here b bs e) (ground arith))
  | inr e ↦ elim (Bool-cases (length bs == 0)) [
    | inl f ↦ inr (rw (extra_bytes_later b bs e) (ground (arith, extra_bytes-le bs)))
    | inr f ↦ elim (extra_bytes_end bs (grind arith)) [
      | inl at ↦ inl (
          rw (extra_bytes_later b bs e)
            (grind (arith, at, get_elem?-suc b (extra_bytes bs) bs, extra_bytes_pos bs)))
      | inr all ↦ inr (rw (extra_bytes_later b bs e) (grind arith))
    ]
  ]
]

-- No line reaches so far behind the chunk size that a chunk's size would not fit 32 bits.
abbrev pub LinesFit : ℕ → List ℕ → Type 0
LinesFit m bytes = (i : ℕ) → m - 1 + extra_bytes (drop i bytes) < u32

-- The sizes cut the bytes, and every cut but the one at the end is behind a newline.
abbrev pub CutsAtLines : List ℕ → List ℕ → Type 0
CutsAtLines bytes [] = length bytes ≡ 0
CutsAtLines bytes (s ∷ ss) =
    (0 < s)
    × (s ≤ length bytes)
    × ((s ≡ length bytes) ⊎ (get_elem? bytes (s - 1) ≡ some 10))
    × CutsAtLines (drop s bytes) ss

text_chunks_end :
    (fuel m : ℕ) (bytes : List ℕ) → (length bytes == 0) ≡ true → text_chunks (suc fuel) m bytes ≡ []
unfolding text_chunks
text_chunks_end fuel m bytes e = ground arith

text_chunks_last :
    (fuel m : ℕ) (bytes : List ℕ)
    → (length bytes == 0) ≡ false
    → leb (length bytes) m ≡ true
    → text_chunks (suc fuel) m bytes ≡ length bytes % u32 ∷ []
unfolding text_chunks
text_chunks_last fuel m bytes e f = ground arith

abbrev next_size : ℕ → List ℕ → ℕ
next_size m bytes = (m - 1 + extra_bytes (drop (m - 1) bytes)) % u32

text_chunks_next :
    (fuel m : ℕ) (bytes : List ℕ)
    → (length bytes == 0) ≡ false
    → leb (length bytes) m ≡ false
    → text_chunks (suc fuel) m bytes
      ≡ next_size m bytes ∷ text_chunks fuel m (drop (next_size m bytes) bytes)
unfolding text_chunks
text_chunks_next fuel m bytes e f = ground arith

LinesFit-drop : (m n : ℕ) (bytes : List ℕ) → LinesFit m bytes → LinesFit m (drop n bytes)
LinesFit-drop m n bytes lines i = rw (drop-drop i n bytes) (lines (n + i))

-- What is left fits in one chunk.
last_cuts :
    (bytes : List ℕ)
    → 0 < length bytes
    → length bytes < u32
    → CutsAtLines bytes (length bytes % u32 ∷ [])
last_cuts bytes p q =
    let size : length bytes % u32 ≡ length bytes = grind arith in
    rw size (p, omega arith, inl refl, grind (arith, length-drop (length bytes) bytes))

next_size_lem :
    (m : ℕ) (bytes : List ℕ)
    → LinesFit m bytes
    → next_size m bytes ≡ m - 1 + extra_bytes (drop (m - 1) bytes)
next_size_lem m bytes lines = grind (arith, lines (m - 1))

next_size_cuts :
    (m : ℕ) (bytes : List ℕ)
    → 0 < m
    → m < length bytes
    → LinesFit m bytes
    → (0 < next_size m bytes)
      × (next_size m bytes ≤ length bytes)
      × ((next_size m bytes ≡ length bytes) ⊎ (get_elem? bytes (next_size m bytes - 1) ≡ some 10))
next_size_cuts m bytes p q lines = rw (next_size_lem m bytes lines) (
    let tail = drop (m - 1) bytes in
    let len : length tail ≡ length bytes - (m - 1) = length-drop (m - 1) bytes in
    let pos : 0 < extra_bytes tail = extra_bytes_pos tail (grind arith) in
    let le : extra_bytes tail ≤ length tail = extra_bytes-le tail in
    (
      grind arith,
      grind arith,
      elim (extra_bytes_end tail (grind arith)) [
        | inl at ↦ inr (
            ap (get_elem? bytes) (grind arith)
            ∙ sym (get_elem?-drop (m - 1) (extra_bytes tail - 1) bytes)
            ∙ at)
        | inr all ↦ inl (grind arith)
      ],
    ))

text_chunks_zero : (m : ℕ) (bytes : List ℕ) → text_chunks 0 m bytes ≡ []
unfolding text_chunks
text_chunks_zero m bytes = refl

-- The loop over a text cuts it behind newlines, down to its end, in at most one round per byte.
pub text_chunks_lem :
    (fuel m : ℕ) (bytes : List ℕ)
    → 0 < m
    → m < u32
    → LinesFit m bytes
    → length bytes ≤ fuel
    → CutsAtLines bytes (text_chunks fuel m bytes)
text_chunks_lem zero m bytes p q lines h = rw (text_chunks_zero m bytes) (omega arith)
text_chunks_lem (suc fuel) m bytes p q lines h = elim (Bool-cases (length bytes == 0)) [
  | inl e ↦ rw (text_chunks_end fuel m bytes e) (ground arith)
  | inr e ↦ elim (Bool-cases (leb (length bytes) m)) [
    | inl f ↦ rw (text_chunks_last fuel m bytes e f) (last_cuts bytes (grind arith) (grind arith))
    | inr f ↦
        let size = next_size m bytes in
        let (pos, le, cut) = next_size_cuts m bytes p (grind arith) lines in
        rw (text_chunks_next fuel m bytes e f) (
          pos,
          le,
          cut,
          text_chunks_lem fuel m (drop size bytes) p q (LinesFit-drop m size bytes lines)
              (grind (arith, length-drop size bytes)),
        )
  ]
]

sum-CutsAtLines : (bytes sizes : List ℕ) → CutsAtLines bytes sizes → sum sizes ≡ length bytes
sum-CutsAtLines bytes [] cuts = sym cuts
sum-CutsAtLines bytes (s ∷ ss) (pos, le, at, cuts) =
    let rest = sum-CutsAtLines (drop s bytes) ss cuts in grind (arith, rest, length-drop s bytes)

-- If the chunk size is from 1 to 2 ^ 32 - 1, and no line reaches so far that a chunk would have 2
-- ^ 32 bytes, a text is cut behind newlines only, into chunks that hold all its bytes.
pub calculate_chunks_text :
    (bytes : List ℕ) (m : ℕ)
    → 0 < m
    → m < u32
    → LinesFit m bytes
    → CutsAtLines bytes (calculate_chunks bytes true m)
      × (sum (calculate_chunks bytes true m) ≡ length bytes)
unfolding calculate_chunks
calculate_chunks_text bytes m p q lines =
    let cuts = text_chunks_lem (length bytes) m bytes p q lines (omega arith) in
    (cuts, sum-CutsAtLines bytes (text_chunks (length bytes) m bytes) cuts)
