-- ===== src/Base/Scanner.antt =====
-- Go's bufio.Scanner with its default split function, ScanLines, over a whole input: the lines
-- without their newlines and without one carriage return at the end. A line that does not fit the
-- buffer, with its newline, stops the scan.
use Prim.Native.Nat.{ℕ, ◌<◌}
use mathlib.Core.Path.{◌≡◌, refl, ap, ◌∙◌, sym}
use mathlib.Core.Logic.{◌≢◌}
use mathlib.Core.Bool.{true, false}
use mathlib.Core.List.{List, [], ◌∷◌, ◌++◌, append_assoc}
use native.Mathlib.Omega.{arith}
use dfs_mapreduce.Base.Tests.{ltb, ◌==◌, if◌then◌else◌, lt→ltb}
use dfs_mapreduce.Base.Lists.{length, All}

-- The pieces between newlines; `current` is the piece read so far. No empty piece after the end.
unfoldable pub lines_from : List ℕ → List ℕ → List (List ℕ)
lines_from [] [] = []
lines_from (c ∷ current) [] = (c ∷ current) ∷ []
lines_from current (b ∷ bs) = elim (b == 10) [
  | true ↦ current ∷ lines_from [] bs
  | false ↦ lines_from (current ++ b ∷ []) bs
]

unfoldable pub drop_cr : List ℕ → List ℕ
drop_cr [] = []
drop_cr (b ∷ []) = if b == 13 then [] else b ∷ []
drop_cr (b ∷ c ∷ bs) = b ∷ drop_cr (c ∷ bs)

unfoldable pub tokens : ℕ → List (List ℕ) → List (List ℕ)
tokens limit [] = []
tokens limit (l ∷ ls) = elim (ltb (length l) limit) [
  | true ↦ drop_cr l ∷ tokens limit ls
  | false ↦ []
]

unfoldable pub scan_lines : ℕ → List ℕ → List (List ℕ)
unfolding lines_from tokens drop_cr
scan_lines limit bs = tokens limit (lines_from [] bs)

-- The lines written out, each with its newline.
abbrev pub join_lines : List (List ℕ) → List ℕ
join_lines [] = []
join_lines (l ∷ ls) = l ++ 10 ∷ join_lines ls

-- A line that a scan with this limit gives back as it is.
pub record IsLine (limit : ℕ) (l : List ℕ) : Type 0 where
  pub no_newline : All (λ b. b ≢ 10) l
  pub no_cr : drop_cr l ≡ l
  pub fits : length l < limit

lines_from-line :
    (current l rest : List ℕ)
    → All (λ b. b ≢ 10) l
    → lines_from current (l ++ 10 ∷ rest) ≡ (current ++ l) ∷ lines_from [] rest
unfolding lines_from
lines_from-line [] [] rest h = refl
lines_from-line (c ∷ current) [] rest h = ground (arith, mathlib.Core.List.append-nil (c ∷ current))
lines_from-line [] (b ∷ l) rest h = ground (arith, lines_from-line (b ∷ []) l rest h.1)
lines_from-line (c ∷ current) (b ∷ l) rest h = ground (
  arith,
  lines_from-line ((c ∷ current) ++ b ∷ []) l rest h.1,
  append_assoc (c ∷ current) (b ∷ []) l,
)

tokens-line :
    (limit : ℕ) (l : List ℕ) (ls : List (List ℕ))
    → IsLine limit l
    → tokens limit (l ∷ ls) ≡ l ∷ tokens limit ls
unfolding tokens
tokens-line limit l ls h = ground (arith, h.no_cr, lt→ltb (length l) limit h.fits)

-- What was written as lines is scanned back, whatever follows.
pub scan_lines-join :
    (limit : ℕ) (ls : List (List ℕ)) (rest : List ℕ)
    → All (IsLine limit) ls
    → scan_lines limit (join_lines ls ++ rest) ≡ ls ++ scan_lines limit rest
unfolding scan_lines
scan_lines-join limit [] rest h = refl
scan_lines-join limit (l ∷ ls) rest h = rw (append_assoc l (10 ∷ join_lines ls) rest) (
    ap (tokens limit) (lines_from-line [] l (join_lines ls ++ rest) h.0.no_newline)
    ∙ tokens-line limit l _ h.0
    ∙ ap (◌∷◌ l) (scan_lines-join limit ls rest h.1))

-- A line over the limit ends the scan: nothing behind it is read.
pub scan_lines-long :
    (limit : ℕ) (l rest : List ℕ)
    → All (λ b. b ≢ 10) l
    → ltb (length l) limit ≡ false
    → scan_lines limit (l ++ 10 ∷ rest) ≡ []
unfolding scan_lines tokens
scan_lines-long limit l rest h long = ap (tokens limit) (lines_from-line [] l rest h) ∙ ground arith

pub join_lines-append :
    (ls ms : List (List ℕ)) → join_lines (ls ++ ms) ≡ join_lines ls ++ join_lines ms
join_lines-append [] ms = refl
join_lines-append (l ∷ ls) ms =
    ap (λ t. l ++ 10 ∷ t) (join_lines-append ls ms)
    ∙ sym (append_assoc l (10 ∷ join_lines ls) (join_lines ms))
