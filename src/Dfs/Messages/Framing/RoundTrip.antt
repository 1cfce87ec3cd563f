-- ===== src/Dfs/Messages/Framing/RoundTrip.antt =====
-- ReadN, WriteN, Send and Receive of dfs/messages/message_handler.go, against one another.
use dfs_mapreduce.Base.{
  ℕ, zero, suc, ◌+◌, ◌-◌, ◌/◌, ◌^◌, ◌≤◌, ◌<◌, ◌≡◌, ◌≢◌, ◌⊎◌, refl, sym, ap, ◌∙◌, inl, inr, some,
  List, [], ◌∷◌, ◌++◌, append_assoc, append-nil, take, drop, length, length-append,
  take-append-drop, arith, leb, leb→le, Bool-cases,
}
use dfs_mapreduce.Dfs.Messages.Framing.{
  Stream, read_all, read_error, read, read_loop, read_n, Answer, wrote, failed, done, write_n,
  put_uint, uint, Codec, send, receive,
}

-- The bytes of a stream, however they are cut.
abbrev pub flatten : Stream → List ℕ
flatten [] = []
flatten (piece ∷ rest) = piece ++ flatten rest

take_append :
    (n : ℕ) (xs ys : List ℕ) → length xs ≡ n → (take n (xs ++ ys) ≡ xs) × (drop n (xs ++ ys) ≡ ys)
take_append zero [] ys h = (refl, refl)
take_append zero (x ∷ xs) ys h = absurd (omega arith)
take_append (suc n) [] ys h = absurd (omega arith)
take_append (suc n) (x ∷ xs) ys h =
    let (p, q) = take_append n xs ys (omega arith) in (ap (◌∷◌ x) p, q)

-- Two cuts of the same bytes.
cut_before :
    (xs ys zs ws : List ℕ)
    → xs ++ ys ≡ zs ++ ws
    → length xs ≤ length zs
    → (mid : List ℕ) × (zs ≡ xs ++ mid) × (ys ≡ mid ++ ws)
cut_before [] ys zs ws e h = (zs, refl, e)
cut_before (x ∷ xs) ys [] ws e h = absurd (omega arith)
cut_before (x ∷ xs) ys (z ∷ zs) ws e h =
    let (mid, p, q) = cut_before xs ys zs ws (cc) (omega arith) in (mid, cc, q)

-- Reading as many bytes as the front part of the stream has gives that part and leaves the rest.
read_loop_exact :
    (fuel : ℕ) (got front rest : List ℕ) (conn : Stream)
    → length conn + 1 < fuel
    → flatten conn ≡ front ++ rest
    → (conn' : Stream) × (read_loop fuel (length front) got conn ≡ read_all (got ++ front) conn')
      × (flatten conn' ≡ rest)
unfolding read_loop read
read_loop_exact zero got front rest conn h e = absurd (omega arith)
read_loop_exact (suc fuel) got [] rest conn h e =
    (conn, ap (λ t. read_all t conn) (sym (append-nil got)), e)
read_loop_exact (suc fuel) got (b ∷ front) rest [] h e = absurd (cc)
read_loop_exact (suc zero) got (b ∷ front) rest (piece ∷ conn) h e = absurd (omega arith)
read_loop_exact (suc (suc fuel)) got (b ∷ front) rest (piece ∷ conn) h e =
    elim (Bool-cases (leb (length piece) (length (b ∷ front)))) [
      | inl short ↦
          let (mid, p, q) = cut_before piece (flatten conn) (b ∷ front) rest e (leb→le _ _ short) in
          let (conn', r, l) =
            read_loop_exact (suc fuel) (got ++ piece) mid rest conn (omega arith) q in
          let size : length (b ∷ front) - length piece ≡ length mid =
            omega (arith, ap length p, length-append piece mid) in
          (conn', ground (arith, short, size, r, append_assoc got piece mid, p), l)
      | inr long ↦
          let (mid, p, q) =
            cut_before (b ∷ front) rest piece (flatten conn) (sym e) (ground arith) in
          let (f, g) = take_append (length (b ∷ front)) (b ∷ front) mid refl in
          (mid ∷ conn, ground (arith, long, p, f, g), sym q)
    ]

length-put_uint : (k n : ℕ) → length (put_uint k n) ≡ k
unfolding put_uint
length-put_uint zero n = refl
length-put_uint (suc k) n = ap suc (length-put_uint k (n / 256))

-- Little-endian bytes keep the number modulo the width.
pub uint-put_uint : (n : ℕ) → n < 2 ^ 64 → uint (put_uint 8 n) ≡ n
unfolding uint put_uint
uint-put_uint n h = omega arith

-- ReadN gives the front part of what the connection delivers, and leaves the rest.
pub read_n_exact :
    (front rest : List ℕ) (conn : Stream)
    → flatten conn ≡ front ++ rest
    → (conn' : Stream) × (read_n (length front) conn ≡ read_all front conn')
      × (flatten conn' ≡ rest)
unfolding read_n
read_n_exact front rest conn e =
    read_loop_exact (length conn + 2) [] front rest conn (omega arith) e

read_loop_short :
    (fuel missing : ℕ) (got : List ℕ) (conn : Stream)
    → length conn < fuel
    → length (flatten conn) < missing
    → read_loop fuel missing got conn ≡ read_error
unfolding read_loop read
read_loop_short zero missing got conn enough h = absurd (omega arith)
read_loop_short (suc fuel) missing got [] enough h = ground arith
read_loop_short (suc fuel) missing got (piece ∷ conn) enough h =
    let size = length-append piece (flatten conn) in
    let rest =
      read_loop_short fuel (missing - length piece) (got ++ piece) conn (omega (arith, enough))
        (omega (arith, size)) in
    ground (arith, size, rest)

-- If the connection ends before the bytes are there, the loop of ReadN ends, with the connection's
-- error, in no more rounds than there are pieces and two.
pub read_n_short : (n : ℕ) (conn : Stream) → length (flatten conn) < n → read_n n conn ≡ read_error
unfolding read_n
read_n_short n conn h = read_loop_short (length conn + 2) n [] conn (omega arith) h

module _ {W : Type 0} (codec : Codec W) where
  -- A frame that Send builds is what Receive takes off a connection, whatever pieces it arrives in,
  -- and the bytes that follow it stay. The message has less than 2^64 bytes, and unmarshals to what
  -- was marshalled.
  pub receive-send :
      (w : W) (bytes frame rest : List ℕ) (conn : Stream)
      → codec.marshal w ≡ some bytes
      → codec.unmarshal bytes ≡ some w
      → length bytes < 2 ^ 64
      → send codec w ≡ some frame
      → flatten conn ≡ frame ++ rest
      → (conn' : Stream) × (receive codec conn ≡ some (w, conn')) × (flatten conn' ≡ rest)
  unfolding send receive
  receive-send w bytes frame rest conn m u small s arrives =
      let header = put_uint 8 (length bytes) in
      let framed : frame ≡ header ++ bytes = ground arith in
      let (after, r, f) =
        read_n_exact header (bytes ++ rest) conn
          (arrives ∙ ap (λ t. t ++ rest) framed ∙ append_assoc header bytes rest) in
      let (last, r', f') = read_n_exact bytes rest after f in
      (
        last,
        ground (
          arith,
          m,
          u,
          r',
          rw (length-put_uint 8 (length bytes)) at r,
          uint-put_uint (length bytes) small,
        ),
        f',
      )

-- What the peer has got is a front part of what was written, and all of it if WriteN is done.
pub write_n_prefix :
    (answers : List Answer) (buf : List ℕ)
    → (rest : List ℕ) × ((write_n answers buf).0 ++ rest ≡ buf)
      × ((rest ≡ []) ⊎ ((write_n answers buf).1 ≢ done))
unfolding write_n
write_n_prefix answers [] = ([], refl, inl refl)
write_n_prefix [] (b ∷ buf) = (b ∷ buf, refl, inr (λ e. absurd cc))
write_n_prefix (failed ∷ answers) (b ∷ buf) = (b ∷ buf, refl, inr (λ e. absurd cc))
write_n_prefix (wrote n ∷ answers) (b ∷ buf) =
    let (rest, p, q) = write_n_prefix answers (drop n (b ∷ buf)) in
    (
      rest,
      append_assoc (take n (b ∷ buf)) _ rest
          ∙ ap (◌++◌ (take n (b ∷ buf))) p
          ∙ take-append-drop n (b ∷ buf),
      q,
    )
