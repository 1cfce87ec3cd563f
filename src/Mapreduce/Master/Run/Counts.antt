-- ===== src/Mapreduce/Master/Run/Counts.antt =====
-- The counters and the reduce data of runJob of mapreduce/master/master.go under every schedule.
use dfs_mapreduce.Base.{
  ℕ, zero, suc, ◌+◌, ◌-◌, ◌%◌, ◌^◌, ◌≤◌, ◌≡◌, refl, String, some, List, [], ◌∷◌, get_elem?,
  some_inj, arith, ap, str_eq, if◌then◌else◌, Dict,
}
use dfs_mapreduce.Mapreduce.Master.Jobs.{add_bytes}
use dfs_mapreduce.Mapreduce.Master.Jobs.Bytes.{held, reported, held-add_bytes}
use dfs_mapreduce.Mapreduce.Master.Run.{
  Job, Routine, waiting, assigned, placed, added, counted, completed, failing, has_read, skipped,
  Run, World, set_elem, send_progress,
}
use dfs_mapreduce.Mapreduce.Master.Run.Steps.{weigh, weigh-set_elem}
use dfs_mapreduce.Mapreduce.Master.Run.Moves.{MapMove, ReduceMove}

-- One for a task that is done and has been counted.
abbrev pub is_counted : Routine → ℕ
is_counted (counted c addr bytes) = 1
is_counted (completed addr bytes) = 1
is_counted waiting = 0
is_counted (assigned addr bytes) = 0
is_counted (placed addr bytes) = 0
is_counted (added addr bytes) = 0
is_counted failing = 0
is_counted (has_read c) = 0
is_counted skipped = 0

-- The bytes that a worker's map task has added for a reducer.
abbrev share : ℕ → String → String → List ℕ → ℕ
share r w addr bytes = if str_eq addr w then reported r bytes else 0

abbrev pub bytes_of : ℕ → String → Routine → ℕ
bytes_of r w (added addr bytes) = share r w addr bytes
bytes_of r w (counted c addr bytes) = share r w addr bytes
bytes_of r w (completed addr bytes) = share r w addr bytes
bytes_of r w waiting = 0
bytes_of r w (assigned addr bytes) = 0
bytes_of r w (placed addr bytes) = 0
bytes_of r w failing = 0
bytes_of r w (has_read c) = 0
bytes_of r w skipped = 0

-- The counters and the table are those of the tasks, in machine words.
pub record IsCounted (run : Run) : Type 0 where
  pub maps : run.map_completed ≡ weigh is_counted run.maps % 2 ^ 32
  pub reduces : run.reduce_completed ≡ weigh is_counted run.reduces % 2 ^ 32
  pub bytes :
      (r : ℕ) (w : String) → held r w run.reduce_data ≡ weigh (bytes_of r w) run.maps % 2 ^ 64

-- What one goroutine has put into the state.
pub record Adds (run mid : Run) (old new : Routine) : Type 0 where
  pub maps_same : run.maps ≡ mid.maps
  pub reduces_same : run.reduces ≡ mid.reduces
  pub map_count :
      (n : ℕ)
      → run.map_completed ≡ (n + is_counted old) % 2 ^ 32
      → mid.map_completed ≡ (n + is_counted new) % 2 ^ 32
  pub reduce_same : run.reduce_completed ≡ mid.reduce_completed
  pub byte_count :
      (r : ℕ) (w : String) (n : ℕ)
      → held r w run.reduce_data ≡ (n + bytes_of r w old) % 2 ^ 64
      → held r w mid.reduce_data ≡ (n + bytes_of r w new) % 2 ^ 64

weigh-get :
    (f : Routine → ℕ) (i : ℕ) (old : Routine) (rs : List Routine)
    → get_elem? rs i ≡ some old
    → f old ≤ weigh f rs
weigh-get f i old [] e = absurd (ground arith)
weigh-get f zero old (r ∷ rs) e = omega (arith, ap f (some_inj e))
weigh-get f (suc i) old (r ∷ rs) e = omega (arith, weigh-get f i old rs e)

table_adds :
    (r n : ℕ) (w addr : String) (bytes : List ℕ) (table out : List (Dict ℕ))
    → add_bytes addr bytes table ≡ some out
    → held r w table ≡ (n + 0) % 2 ^ 64
    → held r w out ≡ (n + share r w addr bytes) % 2 ^ 64
table_adds r n w addr bytes table out e h =
    omega (arith, held-add_bytes r addr w bytes table out (omega (arith, h)) e)

-- A goroutine that changes neither the counters nor the table.
same-Adds :
    (run mid : Run) (old new : Routine)
    → run.maps ≡ mid.maps
    → run.reduces ≡ mid.reduces
    → run.map_completed ≡ mid.map_completed
    → run.reduce_completed ≡ mid.reduce_completed
    → run.reduce_data ≡ mid.reduce_data
    → is_counted old ≡ is_counted new
    → ((r : ℕ) (w : String) → bytes_of r w old ≡ bytes_of r w new)
    → Adds run mid old new
same-Adds run mid old new a b c d t e f = record {
  maps_same = a;
  reduces_same = b;
  map_count = λ n h. omega (arith, c, e, h);
  reduce_same = d;
  byte_count = λ r w n h. omega (arith, ap (held r w) t, f r w, h);
}

pub map-Adds :
    (job : Job) (world : World) (i : ℕ) (run : Run) {mid : Run} {old new : Routine}
    → MapMove job world i run old new mid
    → Adds run mid old new
unfolding send_progress
map-Adds job world i run MapMove.begins =
    same-Adds run run _ _ refl refl refl refl refl refl (λ r w. refl)
map-Adds job world i run MapMove.fails =
    same-Adds run run _ _ refl refl refl refl refl refl (λ r w. refl)
map-Adds job world i run MapMove.places =
    same-Adds run _ _ _ refl refl refl refl refl refl (λ r w. refl)
map-Adds job world i run (MapMove.adds {addr = addr} {bytes = bytes} {table = table} e) = record {
  maps_same = refl;
  reduces_same = refl;
  map_count = λ n h. h;
  reduce_same = refl;
  byte_count = λ r w n h. table_adds r n w addr bytes run.reduce_data table e h;
}
map-Adds job world i run MapMove.counts = record {
  maps_same = refl;
  reduces_same = refl;
  map_count = λ n h. omega (arith, h);
  reduce_same = refl;
  byte_count = λ r w n h. h;
}
map-Adds job world i run MapMove.tells =
    same-Adds run _ _ _ refl refl refl refl refl refl (λ r w. refl)
map-Adds job world i run MapMove.reads =
    same-Adds run run _ _ refl refl refl refl refl refl (λ r w. refl)
map-Adds job world i run MapMove.skips =
    same-Adds run _ _ _ refl refl refl refl refl refl (λ r w. refl)

-- What the goroutine of a reduce task changes: its counter.
pub record AddsReduce (run mid : Run) (old new : Routine) : Type 0 where
  pub maps_same : run.maps ≡ mid.maps
  pub reduces_same : run.reduces ≡ mid.reduces
  pub map_same : run.map_completed ≡ mid.map_completed
  pub reduce_count :
      (n : ℕ)
      → run.reduce_completed ≡ (n + is_counted old) % 2 ^ 32
      → mid.reduce_completed ≡ (n + is_counted new) % 2 ^ 32
  pub data_same : run.reduce_data ≡ mid.reduce_data

pub reduce-Adds :
    (job : Job) (world : World) (run : Run) {mid : Run} {old new : Routine}
    → ReduceMove job world run old new mid
    → AddsReduce run mid old new
unfolding send_progress
reduce-Adds job world run ReduceMove.begins = record {
  maps_same = refl;
  reduces_same = refl;
  map_same = refl;
  reduce_count = λ n h. h;
  data_same = refl;
}
reduce-Adds job world run ReduceMove.fails = record {
  maps_same = refl;
  reduces_same = refl;
  map_same = refl;
  reduce_count = λ n h. h;
  data_same = refl;
}
reduce-Adds job world run ReduceMove.counts = record {
  maps_same = refl;
  reduces_same = refl;
  map_same = refl;
  reduce_count = λ n h. omega (arith, h);
  data_same = refl;
}
reduce-Adds job world run ReduceMove.tells = record {
  maps_same = refl;
  reduces_same = refl;
  map_same = refl;
  reduce_count = λ n h. h;
  data_same = refl;
}
reduce-Adds job world run ReduceMove.reads = record {
  maps_same = refl;
  reduces_same = refl;
  map_same = refl;
  reduce_count = λ n h. h;
  data_same = refl;
}
reduce-Adds job world run ReduceMove.skips = record {
  maps_same = refl;
  reduces_same = refl;
  map_same = refl;
  reduce_count = λ n h. h;
  data_same = refl;
}

-- The sum with one goroutine taken out of it.
module _ (f : Routine → ℕ) (i : ℕ) (old new : Routine) (rs : List Routine) where
  pub weigh-others :
      get_elem? rs i ≡ some old
      → (n : ℕ) × (weigh f rs ≡ n + f old) × (weigh f (set_elem i new rs) ≡ n + f new)
  weigh-others e =
      let change = weigh-set_elem f i old new rs e in
      (
        weigh f rs - f old,
        omega (arith, weigh-get f i old rs e),
        omega (arith, change, weigh-get f i old rs e),
      )
