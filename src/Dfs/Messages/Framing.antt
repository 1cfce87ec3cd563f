-- ===== src/Dfs/Messages/Framing.antt =====
-- ReadN, WriteN, Send and Receive of dfs/messages/message_handler.go, over a connection that may
-- deliver and take the bytes in pieces. mapreduce/messages/message_handler.go has the same code, so
-- the type of messages is an argument. Marshalling by protobuf is an argument too.
pub mod RoundTrip
use dfs_mapreduce.Base.{
  ℕ, zero, suc, ◌+◌, ◌-◌, ◌*◌, ◌/◌, ◌%◌, Bool, true, false, Option, none, some, List, [], ◌∷◌, ◌++◌,
  take, drop, length, leb, ◌==◌, if◌then◌else◌,
}

-- What is still to come on a connection, piece by piece; then it is closed.
abbrev pub Stream : Type 0
Stream = List (List ℕ)

-- The net package's Read into a buffer of `n` bytes: one piece, or what fits of it.
unfoldable pub read : ℕ → Stream → Option (List ℕ × Stream)
read n [] = none
read n (piece ∷ rest) =
    if leb (length piece) n then some (piece, rest) else some (take n piece, drop n piece ∷ rest)

-- How ReadN ends: with the bytes, or with an error of the connection; a loop that goes on is
-- `out_of_fuel`.
pub data Reading : Type 0 where
  read_all : List ℕ → Stream → Reading
  read_error : Reading
  out_of_fuel : Reading

-- The loop of ReadN, with the bytes that are still missing and those read so far.
unfoldable pub read_loop : ℕ → ℕ → List ℕ → Stream → Reading
read_loop zero missing got conn = out_of_fuel
read_loop (suc fuel) missing got conn = elim (missing == 0) [
  | true ↦ read_all got conn
  | false ↦ elim (read missing conn) [
    | none ↦ read_error
    | some (bs, conn') ↦ read_loop fuel (missing - length bs) (got ++ bs) conn'
  ]
]

-- Every round ends the loop or uses up a piece, so the pieces bound the rounds.
unfoldable pub read_n : ℕ → Stream → Reading
unfolding read_loop read
read_n n conn = read_loop (length conn + 2) n [] conn

-- What Write does next: it takes some bytes, or fails.
pub data Answer : Type 0 where
  wrote : ℕ → Answer
  failed : Answer

-- How WriteN ends: all written, an error, or still waiting when the answers are used up.
pub data Written : Type 0 where
  done error waiting : Written

-- The loop of WriteN; the list is what the peer gets.
unfoldable pub write_n : List Answer → List ℕ → List ℕ × Written
write_n answers [] = ([], done)
write_n [] (b ∷ buf) = ([], waiting)
write_n (failed ∷ answers) (b ∷ buf) = ([], error)
write_n (wrote n ∷ answers) (b ∷ buf) =
    let (sent, outcome) = write_n answers (drop n (b ∷ buf)) in (take n (b ∷ buf) ++ sent, outcome)

-- binary.LittleEndian over `k` bytes.
unfoldable pub put_uint : ℕ → ℕ → List ℕ
put_uint zero n = []
put_uint (suc k) n = n % 256 ∷ put_uint k (n / 256)

unfoldable pub uint : List ℕ → ℕ
uint [] = 0
uint (b ∷ bs) = b + 256 * uint bs

-- protobuf on one type of messages.
pub record Codec {ℓ} (W : Type ℓ) : Type ℓ where
  pub marshal : W → Option (List ℕ)
  pub unmarshal : List ℕ → Option W

module _ {ℓ} {W : Type ℓ} (codec : Codec W) where
  -- The bytes of a frame: eight of length, then the message.
  unfoldable pub send : W → Option (List ℕ)
  unfolding put_uint
  send wrapper = elim (codec.marshal wrapper) [
    | none ↦ none
    | some serialized ↦ some (put_uint 8 (length serialized) ++ serialized)
  ]

  unfoldable pub receive : Stream → Option (W × Stream)
  unfolding read_n uint
  receive conn = elim (read_n 8 conn) [
    | read_error ↦ none
    | out_of_fuel ↦ none
    | read_all prefix conn' ↦ elim (read_n (uint prefix) conn') [
      | read_error ↦ none
      | out_of_fuel ↦ none
      | read_all payload conn'' ↦ elim (codec.unmarshal payload) [
        | none ↦ none
        | some wrapper ↦ some (wrapper, conn'')
      ]
    ]
  ]
