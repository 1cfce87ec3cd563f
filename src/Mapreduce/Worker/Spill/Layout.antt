-- ===== src/Mapreduce/Worker/Spill/Layout.antt =====
-- The sections of a file that mapreduce/worker/worker.go writes, and their offsets in its index.
use dfs_mapreduce.Base.{
  ℕ, zero, suc, ◌+◌, ◌-◌, ◌≡◌, refl, sym, ap, ◌∙◌, some, List, [], ◌∷◌, ◌++◌, map, arith, take,
  drop, length, length-append, get_elem?, append_assoc, ltb, Bool-cases, inl, inr, ◌<◌, subst,
}
use dfs_mapreduce.Mapreduce.Util.{KeyValue}
use dfs_mapreduce.Mapreduce.Util.Sort.{write_pair, write_pairs}
use dfs_mapreduce.Mapreduce.Worker.{
  Section, read_section, seek_section, find_section, advance, write_parts, stored,
  handle_fetch_intermediate,
}

pub advance_lem :
    (offset : ℕ) (kvs : List KeyValue) → advance offset kvs ≡ offset + length (write_pairs kvs)
unfolding advance write_pairs write_pair
advance_lem offset [] = omega arith
advance_lem offset (kv ∷ kvs) =
    let here = length-append kv.key (9 ∷ (kv.value ++ 10 ∷ [])) in
    let value = length-append kv.value (10 ∷ []) in
    let both = length-append (kv.key ++ 9 ∷ (kv.value ++ 10 ∷ [])) (write_pairs kvs) in
    let next = advance_lem (offset + length kv.key + 1 + length kv.value + 1) kvs in omega arith

drop-append {ℓ} : {A : Type ℓ} (xs ys : List A) → drop (length xs) (xs ++ ys) ≡ ys
drop-append [] ys = refl
drop-append (x ∷ xs) ys = drop-append xs ys

take-append {ℓ} : {A : Type ℓ} (xs ys : List A) → take (length xs) (xs ++ ys) ≡ xs
take-append [] ys = refl
take-append (x ∷ xs) ys = ap (◌∷◌ x) (take-append xs ys)

read_section-append :
    (before here after : List ℕ) (start stop : ℕ)
    → start ≡ length before
    → stop ≡ start + length here
    → read_section start stop (before ++ (here ++ after)) ≡ here
unfolding read_section
read_section-append before here after start stop e f =
    let size : stop - start ≡ length here = omega arith in
    rw (size, e, drop-append before (here ++ after)) (take-append here after)

find_section-here :
    (r i : ℕ) (s : Section) (ss : List Section) → s.reducer ≡ r → find_section r (s ∷ ss) ≡ some s
unfolding find_section
find_section-here r i s ss e = ground (arith, e)

find_section-later :
    (r : ℕ) (s : Section) (ss : List Section)
    → s.reducer < r
    → find_section r (s ∷ ss) ≡ find_section r ss
unfolding find_section
find_section-later r s ss e = ground (arith, e)

-- The section of the i-th part is found in the index, and holds that part.
pub find_section-write_parts :
    (r i offset : ℕ) (before : List ℕ) (parts : List (List KeyValue)) (kvs : List KeyValue)
    → offset ≡ length before
    → get_elem? parts i ≡ some kvs
    → (s : Section) × (find_section (r + i) (write_parts r offset parts).index ≡ some s)
      × (read_section s.start s.stop (before ++ (write_parts r offset parts).bytes)
          ≡ write_pairs kvs)
      × (s.stop ≡ s.start + length (write_pairs kvs))
unfolding write_parts
find_section-write_parts r i offset before [] kvs e g = ground arith
find_section-write_parts r zero offset before (part ∷ parts) kvs e g =
    let stop = advance offset part in
    let own : part ≡ kvs = ground arith in
    let s : Section = record { reducer = r; start = offset; stop = stop } in
    let rest = write_parts (r + 1) stop parts in
    let here : read_section offset stop (before ++ (write_pairs part ++ rest.bytes))
        ≡ write_pairs part =
      read_section-append before (write_pairs part) rest.bytes offset stop e
        (advance_lem offset part) in
    (
      s,
      find_section-here (r + 0) 0 s rest.index (omega arith),
      here ∙ ap write_pairs own,
      advance_lem offset part ∙ ap (λ k. offset + length (write_pairs k)) own,
    )
find_section-write_parts r (suc i) offset before (part ∷ parts) kvs e g =
    let stop = advance offset part in
    let long : stop ≡ length (before ++ write_pairs part) =
      omega (arith, advance_lem offset part, length-append before (write_pairs part)) in
    let rest = write_parts (r + 1) stop parts in
    let (s, f, b, n) =
      find_section-write_parts (r + 1) i stop (before ++ write_pairs part) parts kvs long g in
    let later =
      find_section-later (r + suc i) (record { reducer = r; start = offset; stop = stop })
        rest.index (omega arith) in
    (
      s,
      later ∙ subst (λ j. find_section j rest.index ≡ some s) (omega arith) f,
      ap (read_section s.start s.stop) (sym (append_assoc before (write_pairs part) rest.bytes))
          ∙ b,
      n,
    )

-- The search that falls back on the last line finds the same.
pub seek_section-find_section :
    (r start stop : ℕ) (ss : List Section) (s : Section)
    → find_section r ss ≡ some s
    → seek_section r start stop ss ≡ (s.start, s.stop)
unfolding find_section seek_section
seek_section-find_section r start stop [] s h = ground arith
seek_section-find_section r start stop (t ∷ ss) s h =
    ground (arith, seek_section-find_section r t.start t.stop ss s)

pub length-zero {ℓ} : {A : Type ℓ} (xs : List A) → length xs ≡ 0 → xs ≡ []
length-zero [] h = refl
length-zero (x ∷ xs) h = absurd (omega arith)

-- A reducer that fetches its part from a file with its index gets the lines of the part, and no other byte.
pub handle_fetch_intermediate-write_parts :
    (i : ℕ) (parts : List (List KeyValue)) (kvs : List KeyValue)
    → get_elem? parts i ≡ some kvs
    → handle_fetch_intermediate (stored (write_parts 0 0 parts)) i ≡ some (write_pairs kvs)
unfolding handle_fetch_intermediate
handle_fetch_intermediate-write_parts i parts kvs g =
    let (s, f, b, n) = find_section-write_parts 0 i 0 [] parts kvs refl g in
    let found : find_section i (write_parts 0 0 parts).index ≡ some s =
      subst (λ j. find_section j (write_parts 0 0 parts).index ≡ some s) (omega arith) f in
    elim (Bool-cases (ltb s.start s.stop)) [
      | inl e ↦ rw (found, e, handle_fetch_intermediate) (ap some b)
      | inr e ↦
          let none : length (write_pairs kvs) ≡ 0 = ground (arith, n, e) in
          rw (found, e, handle_fetch_intermediate)
            (ap some (sym (length-zero (write_pairs kvs) none)))
    ]

-- The length of the i-th section.
pub get_elem?-sizes :
    (r i offset : ℕ) (parts : List (List KeyValue)) (kvs : List KeyValue)
    → get_elem? parts i ≡ some kvs
    → get_elem? (map (λ s. s.stop - s.start) (write_parts r offset parts).index) i
      ≡ some (length (write_pairs kvs))
unfolding write_parts
get_elem?-sizes r i offset [] kvs g = ground arith
get_elem?-sizes r zero offset (part ∷ parts) kvs g =
    let own : part ≡ kvs = ground arith in
    let size : advance offset part - offset ≡ length (write_pairs part) =
      omega (arith, advance_lem offset part) in
    ap some (size ∙ ap (λ k. length (write_pairs k)) own)
get_elem?-sizes r (suc i) offset (part ∷ parts) kvs g =
    get_elem?-sizes (r + 1) i (advance offset part) parts kvs g
