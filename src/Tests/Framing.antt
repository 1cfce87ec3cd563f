-- ===== src/Tests/Framing.antt =====
-- A message of two bytes that arrives in three pieces.
use dfs_mapreduce.Base.{ℕ, ◌≡◌, ◌≢◌, ◌⊎◌, refl, some, List, [], ◌∷◌, ◌++◌, arith}
use dfs_mapreduce.Dfs.Messages.Framing.{
  Stream, read_error, read_n, wrote, failed, done, write_n, Codec, send, receive,
}
use dfs_mapreduce.Dfs.Messages.Framing.RoundTrip.{
  flatten, receive-send, read_n_short, write_n_prefix,
}

-- Bytes as messages.
abbrev as_bytes : Codec (List ℕ)
as_bytes = record { marshal = λ w. some w; unmarshal = λ bs. some bs }

abbrev message : List ℕ
message = 7 ∷ 9 ∷ []

abbrev pieces : Stream
pieces = (2 ∷ 0 ∷ []) ∷ (0 ∷ 0 ∷ 0 ∷ 0 ∷ 0 ∷ 0 ∷ 7 ∷ []) ∷ (9 ∷ 5 ∷ []) ∷ []

abbrev frame : List ℕ
frame = 2 ∷ 0 ∷ 0 ∷ 0 ∷ 0 ∷ 0 ∷ 0 ∷ 0 ∷ 7 ∷ 9 ∷ []

send_message : send as_bytes message ≡ some frame
unfolding send
send_message = refl

receive_message : receive as_bytes pieces ≡ some (message, (5 ∷ []) ∷ [])
unfolding receive
receive_message = refl

receive-send_example :
    (conn' : Stream) × (receive as_bytes pieces ≡ some (message, conn')) × (flatten conn' ≡ 5 ∷ [])
receive-send_example =
    receive-send as_bytes message message frame (5 ∷ []) pieces refl refl (omega arith) send_message
      refl

read_n_short_example : read_n 4 ((1 ∷ []) ∷ (2 ∷ []) ∷ []) ≡ read_error
read_n_short_example = read_n_short 4 ((1 ∷ []) ∷ (2 ∷ []) ∷ []) (omega arith)

write_n_prefix_run :
    (rest : List ℕ) × ((write_n (wrote 2 ∷ failed ∷ []) (1 ∷ 2 ∷ 3 ∷ [])).0 ++ rest
      ≡ 1 ∷ 2 ∷ 3 ∷ [])
    × ((rest ≡ []) ⊎ ((write_n (wrote 2 ∷ failed ∷ []) (1 ∷ 2 ∷ 3 ∷ [])).1 ≢ done))
write_n_prefix_run = write_n_prefix (wrote 2 ∷ failed ∷ []) (1 ∷ 2 ∷ 3 ∷ [])
