-- ===== src/Mapreduce/Util/SysStats.antt =====
-- mapreduce/util/sys_stats.go: the processor and memory load in percent. strings.Fields, strconv's
-- parsers and the operations on floating point numbers are parameters.
use dfs_mapreduce.Base.{
  ℕ, ◌+◌, ◌-◌, ◌*◌, ◌%◌, ◌^◌, ◌<◌, ◌≡◌, refl, Bool, true, false, Option, none, some, List, [], ◌∷◌,
  length, ltb, ◌==◌, ◌||◌, ◌&&◌, not, if◌then◌else◌, scan_lines, arith,
}
use dfs_mapreduce.Mapreduce.Util.Keys.{bytes_equal}

pub record CpuStats : Type 0 where
  pub idle : ℕ
  pub total : ℕ

-- `F` is float64; `uint8` cuts off behind the point.
pub record Numbers (F : Type 0) : Type 0 where
  pub fields : List ℕ → List (List ℕ)
  pub parse_uint : List ℕ → Option ℕ
  pub parse_float : List ℕ → F
  pub float64 : ℕ → F
  pub minus : F → F → F
  pub over : F → F → F
  pub times : F → F → F
  pub is_above : F → F → Bool
  pub is_equal : F → F → Bool
  pub uint8 : F → ℕ

-- "cpu", "MemTotal:" and "MemAvailable:"
abbrev pub cpu : List ℕ
cpu = 99 ∷ 112 ∷ 117 ∷ []

abbrev pub mem_total_name : List ℕ
mem_total_name = 77 ∷ 101 ∷ 109 ∷ 84 ∷ 111 ∷ 116 ∷ 97 ∷ 108 ∷ 58 ∷ []

abbrev pub mem_available_name : List ℕ
mem_available_name = 77 ∷ 101 ∷ 109 ∷ 65 ∷ 118 ∷ 97 ∷ 105 ∷ 108 ∷ 97 ∷ 98 ∷ 108 ∷ 101 ∷ 58 ∷ []

-- The loop over the fields from `i` on; a field that is no number is passed over.
unfoldable pub add_fields : (List ℕ → Option ℕ) → ℕ → List (List ℕ) → CpuStats → CpuStats
add_fields parse i [] stats = stats
add_fields parse i (f ∷ fs) stats = elim (parse f) [
  | none ↦ add_fields parse (i + 1) fs stats
  | some val ↦ add_fields parse (i + 1) fs (record {
    idle = if i == 4 || i == 5 then (stats.idle + val) % 2 ^ 64 else stats.idle;
    total = (stats.total + val) % 2 ^ 64;
  })
]

abbrev pub parse_line : {F : Type 0} → Numbers F → List (List ℕ) → Option CpuStats
parse_line numbers [] = none
parse_line numbers (name ∷ fs) =
    if ltb (1 + length fs) 5 || not (bytes_equal name cpu)
    then none
    else some (add_fields numbers.parse_uint 1 fs (record { idle = 0; total = 0 }))

abbrev pub first_line : {F : Type 0} → Numbers F → List (List ℕ) → Option CpuStats
first_line numbers [] = none
first_line numbers (l ∷ ls) = parse_line numbers (numbers.fields l)

-- The content of /proc/stat, if it can be opened.
unfoldable pub get_cpu_stats : {F : Type 0} → Numbers F → Option (List ℕ) → Option CpuStats
unfolding add_fields
get_cpu_stats numbers none = none
get_cpu_stats numbers (some bytes) = first_line numbers (scan_lines (64 * 1024) bytes)

-- a - b for uint64
abbrev pub minus64 : ℕ → ℕ → ℕ
minus64 a b = (a + 2 ^ 64 - b % 2 ^ 64) % 2 ^ 64

-- uint8(float64(a) / float64(b) * 100)
abbrev pub percent : {F : Type 0} → Numbers F → ℕ → ℕ → ℕ
percent numbers a b =
    numbers.uint8
      (numbers.times (numbers.over (numbers.float64 a) (numbers.float64 b)) (numbers.float64 100))

-- Two snapshots; `none` is an error.
unfoldable pub get_cpu_usage :
    {F : Type 0} → Numbers F → Option (List ℕ) → Option (List ℕ) → Option ℕ
unfolding get_cpu_stats
get_cpu_usage numbers before after = elim (get_cpu_stats numbers before) [
  | none ↦ none
  | some stat1 ↦ elim (get_cpu_stats numbers after) [
    | none ↦ none
    | some stat2 ↦
        let idle_delta = minus64 stat2.idle stat1.idle in
        let total_delta = minus64 stat2.total stat1.total in
        if total_delta == 0
        then some 0
        else some (percent numbers (minus64 total_delta idle_delta) total_delta)
  ]
]

-- memTotal and memAvailable.
pub record Memory (F : Type 0) : Type 0 where
  pub total : F
  pub available : F

abbrev pub read_field : {F : Type 0} → Numbers F → List (List ℕ) → Memory F → Memory F
read_field numbers [] m = m
read_field numbers (name ∷ []) m = m
read_field numbers (name ∷ value ∷ fs) m =
    if bytes_equal name mem_total_name
    then record m { total = numbers.parse_float value }
    else if bytes_equal name mem_available_name
    then record m { available = numbers.parse_float value }
    else m

-- A line of fewer than two fields does not end the loop.
abbrev pub is_read : {F : Type 0} → Numbers F → List (List ℕ) → Memory F → Bool
is_read numbers fs m =
    ltb 1 (length fs)
    && (numbers.is_above m.total (numbers.float64 0)
        && numbers.is_above m.available (numbers.float64 0))

unfoldable pub read_memory : {F : Type 0} → Numbers F → List (List ℕ) → Memory F → Memory F
read_memory numbers [] m = m
read_memory numbers (l ∷ ls) m =
    let next = read_field numbers (numbers.fields l) m in
    elim (is_read numbers (numbers.fields l) next) [
      | true ↦ next
      | false ↦ read_memory numbers ls next
    ]

-- The content of /proc/meminfo.
unfoldable pub get_memory_usage : {F : Type 0} → Numbers F → Option (List ℕ) → Option ℕ
unfolding read_memory
get_memory_usage numbers none = none
get_memory_usage numbers (some bytes) =
    let nought = numbers.float64 0 in
    let m =
      read_memory numbers (scan_lines (64 * 1024) bytes)
        (record { total = nought; available = nought }) in
    if numbers.is_equal m.total nought
    then none
    else some (
        numbers.uint8 (
          numbers.times (numbers.over (numbers.minus m.total m.available) m.total)
            (numbers.float64 100)))

minus64-add : (a b d : ℕ) → b ≡ (a + d) % 2 ^ 64 → d < 2 ^ 64 → minus64 b a ≡ d
minus64-add a b d e h = omega (arith, e, h)

minus64-part : (a b : ℕ) → a + b < 2 ^ 64 → minus64 (a + b) a ≡ b
minus64-part a b h = omega (arith, h)

-- If both snapshots are read, and between them the processor has been idle and busy for some ticks,
-- not none and fewer than 2 ^ 64, which the counters of 64 bits have gone on by, then the load is
-- the percentage of the busy ticks among all, although the counters wrap around.
pub get_cpu_usage_lem :
    {F : Type 0} (numbers : Numbers F) (before after : Option (List ℕ)) (stat1 stat2 : CpuStats)
    → (idle busy : ℕ) → get_cpu_stats numbers before ≡ some stat1
    → get_cpu_stats numbers after ≡ some stat2
    → stat2.idle ≡ (stat1.idle + idle) % 2 ^ 64
    → stat2.total ≡ (stat1.total + (idle + busy)) % 2 ^ 64
    → 0 < idle + busy
    → idle + busy < 2 ^ 64
    → get_cpu_usage numbers before after
      ≡ some (
          numbers.uint8 (
            numbers.times
              (numbers.over (numbers.float64 busy) (numbers.float64 (idle + busy)))
              (numbers.float64 100)))
unfolding get_cpu_usage
get_cpu_usage_lem numbers before after stat1 stat2 idle busy e f i t some_ticks few =
    let di : minus64 stat2.idle stat1.idle ≡ idle =
      minus64-add stat1.idle stat2.idle idle i (omega (arith, few)) in
    let dt : minus64 stat2.total stat1.total ≡ idle + busy =
      minus64-add stat1.total stat2.total (idle + busy) t few in
    let part = minus64-part idle busy few in
    let all : (idle + busy == 0) ≡ false = ground (arith, some_ticks) in
    rw (e, f, get_cpu_usage) (rw (dt, di, all, part) refl)
