-- ===== src/Mapreduce/Util/Sort/Merge.antt =====
-- The loop of externalSortBatch and mergeSpills over a heap of scanners.
use dfs_mapreduce.Base.{
  ℕ, zero, suc, ◌+◌, ◌<◌, ◌≡◌, refl, sym, subst, ◌⊎◌, inl, inr, Bool, true, false, none, some, List,
  [], ◌∷◌, All, arith, Option-cases, total, Permᴰ-All, Permᴰ-total, Permᴰ-sym,
}
use dfs_mapreduce.Mapreduce.Util.{KeyValue}
use dfs_mapreduce.Mapreduce.Util.Keys.{bytes_less, IsBound, IsSorted, count, All-IsBound_le}
use dfs_mapreduce.Mapreduce.Util.Sort.{split_tab, KvScanner, next, ScannerHeap, push_some, merge}

-- The pairs that a scanner finds on the lines.
abbrev pub pairs : List (List ℕ) → List KeyValue
pairs [] = []
pairs (l ∷ ls) = elim (split_tab l) [
  | none ↦ pairs ls
  | some (k, v) ↦ record { key = k; value = v } ∷ pairs ls
]

abbrev pub contents : KvScanner → List KeyValue
contents s = s.current ∷ pairs s.lines

pub next_lem :
    (ls : List (List ℕ))
    → ((next ls ≡ none) × (pairs ls ≡ []))
      ⊎ ((s : KvScanner) × (next ls ≡ some s) × (contents s ≡ pairs ls))
unfolding next
next_lem [] = inl (refl, refl)
next_lem (l ∷ ls) = elim (Option-cases (split_tab l)) [
  | inl e ↦ rw (e, next, pairs) (next_lem ls)
  | inr ((k, v), e) ↦
      rw (e, next, pairs)
        (inr (record { current = record { key = k; value = v }; lines = ls }, refl, refl))
]

module _ (heap : ScannerHeap) where
  abbrev pub held : (KeyValue → Bool) → heap.Heap → ℕ
  held p h = total (λ s. count p (contents s)) (heap.items h)

  pub push_some-All :
      (P : List KeyValue → Type 0) (ls : List (List ℕ)) (h : heap.Heap)
      → (P (pairs ls))
      → All (λ s. P (contents s)) (heap.items h)
      → All (λ s. P (contents s)) (heap.items (push_some heap (next ls) h))
  unfolding push_some
  push_some-All P ls h q a = elim (next_lem ls) [
    | inl (e, f) ↦ rw e a
    | inr (s, e, f) ↦
        rw e
          (Permᴰ-All (λ s. P (contents s)) (Permᴰ-sym (heap.push_items s h)) (subst P (sym f) q, a))
  ]

  pub held-push_some :
      (p : KeyValue → Bool) (ls : List (List ℕ)) (h : heap.Heap)
      → held p (push_some heap (next ls) h) ≡ count p (pairs ls) + held p h
  unfolding push_some
  held-push_some p ls h = elim (next_lem ls) [
    | inl (e, f) ↦ rw (e, f) (omega arith)
    | inr (s, e, f) ↦ rw (e, sym f) (Permᴰ-total (λ s. count p (contents s)) (heap.push_items s h))
  ]

  merge-none : (fuel : ℕ) (h : heap.Heap) → heap.pop h ≡ none → merge heap (suc fuel) h ≡ []
  unfolding merge
  merge-none fuel h e = rw (e, merge) refl

  merge-some :
      (fuel : ℕ) (h rest : heap.Heap) (s : KvScanner)
      → heap.pop h ≡ some (s, rest)
      → merge heap (suc fuel) h ≡ s.current ∷ merge heap fuel (push_some heap (next s.lines) rest)
  unfolding merge
  merge-some fuel h rest s e = rw (e, merge) refl

  -- What holds of every pair that goes in holds of every pair that comes out.
  pub merge-All :
      (P : KeyValue → Type 0) (fuel : ℕ) (h : heap.Heap)
      → All (λ s. All P (contents s)) (heap.items h)
      → All P (merge heap fuel h)
  merge-All P zero h a = unfold merge in tt
  merge-All P (suc fuel) h a = elim (Option-cases (heap.pop h)) [
    | inl e ↦ rw (merge-none fuel h e) tt
    | inr ((s, rest), e) ↦
        let (own, others) =
          Permᴰ-All (λ s. All P (contents s)) (Permᴰ-sym (heap.pop_items h s rest e)) a in
        rw (merge-some fuel h rest s e)
          (own.0, merge-All P fuel _ (push_some-All (All P) s.lines rest own.1 others))
  ]

  IsBound-contents :
      (k : List ℕ) (items : List KvScanner)
      → All (λ t. bytes_less t.current.key k ≡ false) items
      → All (λ t. IsSorted (contents t)) items
      → All (λ t. All (IsBound k) (contents t)) items
  IsBound-contents k [] h a = tt
  IsBound-contents k (t ∷ items) h a = (
    (h.0, All-IsBound_le k t.current.key (pairs t.lines) h.0 a.0.0),
    IsBound-contents k items h.1 a.1,
  )

  -- If each scanner gives its pairs in order, so does the loop.
  pub merge-IsSorted :
      (fuel : ℕ) (h : heap.Heap)
      → All (λ s. IsSorted (contents s)) (heap.items h)
      → IsSorted (merge heap fuel h)
  merge-IsSorted zero h a = unfold merge in tt
  merge-IsSorted (suc fuel) h a = elim (Option-cases (heap.pop h)) [
    | inl e ↦ rw (merge-none fuel h e) tt
    | inr ((s, rest), e) ↦
        let (own, others) =
          Permᴰ-All (λ s. IsSorted (contents s)) (Permᴰ-sym (heap.pop_items h s rest e)) a in
        let bounds =
          IsBound-contents s.current.key (heap.items rest) (heap.pop_least h s rest e) others in
        rw (merge-some fuel h rest s e) (
          merge-All (IsBound s.current.key) fuel _
              (push_some-All (All (IsBound s.current.key)) s.lines rest own.0 bounds),
          merge-IsSorted fuel _ (push_some-All IsSorted s.lines rest own.1 others),
        )
  ]

  -- With a round for each pair and one more, each pair comes out as often as it goes in.
  pub count-merge :
      (p : KeyValue → Bool) (fuel : ℕ) (h : heap.Heap)
      → held (λ _. true) h < fuel
      → count p (merge heap fuel h) ≡ held p h
  count-merge p zero h f = absurd (omega arith)
  count-merge p (suc fuel) h f = elim (Option-cases (heap.pop h)) [
    | inl e ↦ rw (merge-none fuel h e, heap.pop_none h e) refl
    | inr ((s, rest), e) ↦
        let same = Permᴰ-total (λ s. count p (contents s)) (heap.pop_items h s rest e) in
        let size = Permᴰ-total (λ s. count (λ _. true) (contents s)) (heap.pop_items h s rest e) in
        let all = held-push_some (λ _. true) s.lines rest in
        let ih = count-merge p fuel (push_some heap (next s.lines) rest) (omega arith) in
        rw (merge-some fuel h rest s e) (ground (arith, ih, same, held-push_some p s.lines rest))
  ]
