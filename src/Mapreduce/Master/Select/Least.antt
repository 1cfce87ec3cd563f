-- ===== src/Mapreduce/Master/Select/Least.antt =====
-- One walk of selectWorker over the workers.
use mathlib.Core.List.{Memᴰ}
use dfs_mapreduce.Base.{
  ◌≤◌, ◌≡◌, refl, ap, subst, ◌⊎◌, inl, inr, String, Bool, true, false, ◌&&◌, [], ◌∷◌, Dict, ltb,
  arith, Bool-cases,
}
use dfs_mapreduce.Mapreduce.Master.{WorkerStatus}
use dfs_mapreduce.Mapreduce.Master.Select.{is_available, Best, pick_least}

abbrev is_better : (WorkerStatus → Bool) → WorkerStatus → Best → Bool
is_better test ws best = test ws && is_available ws && ltb ws.info.active_tasks best.tasks

abbrev taken : String → WorkerStatus → Best
taken id ws = record { worker = id; tasks = ws.info.active_tasks }

pick_least_better :
    (test : WorkerStatus → Bool) (id : String) (ws : WorkerStatus) (rest : Dict WorkerStatus)
    (best : Best)
    → is_better test ws best ≡ true
    → pick_least test ((id, ws) ∷ rest) best ≡ pick_least test rest (taken id ws)
unfolding pick_least
pick_least_better test id ws rest best e = rw e refl

pick_least_same :
    (test : WorkerStatus → Bool) (id : String) (ws : WorkerStatus) (rest : Dict WorkerStatus)
    (best : Best)
    → is_better test ws best ≡ false
    → pick_least test ((id, ws) ∷ rest) best ≡ pick_least test rest best
unfolding pick_least
pick_least_same test id ws rest best e = rw e refl

-- A free worker among the entries that passes the test, with this number of tasks.
abbrev pub IsPick : (WorkerStatus → Bool) → Dict WorkerStatus → Best → Type 0
IsPick test workers best =
    (ws : WorkerStatus) × Memᴰ (best.worker, ws) workers
    × (is_available ws ≡ true)
    × (test ws ≡ true)
    × (best.tasks ≡ ws.info.active_tasks)

pub pick_least-IsPick :
    (test : WorkerStatus → Bool) (workers : Dict WorkerStatus) (best : Best)
    → (pick_least test workers best ≡ best) ⊎ IsPick test workers (pick_least test workers best)
unfolding pick_least
pick_least-IsPick test [] best = inl refl
pick_least-IsPick test ((id, ws) ∷ rest) best = elim (Bool-cases (is_better test ws best)) [
  | inl e ↦
      rw (pick_least_better test id ws rest best e)
        (elim (pick_least-IsPick test rest (taken id ws)) [
          | inl same ↦ rw same (inr (ws, Memᴰ.head refl, grind arith, grind arith, refl))
          | inr (w, m, a, t, least) ↦ inr (w, Memᴰ.tail m, a, t, least)
        ])
  | inr e ↦ rw (pick_least_same test id ws rest best e) (elim (pick_least-IsPick test rest best) [
    | inl same ↦ inl same
    | inr (w, m, a, t, least) ↦ inr (w, Memᴰ.tail m, a, t, least)
  ])
]

pub pick_least-le :
    (test : WorkerStatus → Bool) (workers : Dict WorkerStatus) (best : Best)
    → (pick_least test workers best).tasks ≤ best.tasks
unfolding pick_least
pick_least-le test [] best = omega arith
pick_least-le test ((id, ws) ∷ rest) best = elim (Bool-cases (is_better test ws best)) [
  | inl e ↦
      let le = pick_least-le test rest (taken id ws) in
      rw (pick_least_better test id ws rest best e) (ground arith)
  | inr e ↦ rw (pick_least_same test id ws rest best e) (pick_least-le test rest best)
]

-- No worker that is free and passes the test has fewer tasks.
pub pick_least-least :
    (test : WorkerStatus → Bool) (workers : Dict WorkerStatus) (best : Best) (id : String)
    (ws : WorkerStatus)
    → Memᴰ (id, ws) workers
    → is_available ws ≡ true
    → test ws ≡ true
    → (pick_least test workers best).tasks ≤ ws.info.active_tasks
unfolding pick_least
pick_least-least test [] best i w m a t = elim m [ ]
pick_least-least test ((id, ws) ∷ rest) best i w (Memᴰ.head e) a t =
    let same : w ≡ ws = ap (λ p. p.1) e in
    elim (Bool-cases (is_better test ws best)) [
      | inl f ↦
          rw (pick_least_better test id ws rest best f, same)
            (pick_least-le test rest (taken id ws))
      | inr f ↦
          let free : is_available ws ≡ true = subst (λ v. is_available v ≡ true) same a in
          let passes : test ws ≡ true = subst (λ v. test v ≡ true) same t in
          let le = pick_least-le test rest best in
          rw (pick_least_same test id ws rest best f, same) (grind arith)
    ]
pick_least-least test ((id, ws) ∷ rest) best i w (Memᴰ.tail m) a t =
    elim (Bool-cases (is_better test ws best)) [
      | inl f ↦
          rw (pick_least_better test id ws rest best f)
            (pick_least-least test rest (taken id ws) i w m a t)
      | inr f ↦
          rw (pick_least_same test id ws rest best f) (pick_least-least test rest best i w m a t)
    ]
