-- ===== src/Mapreduce/Master/Select/Local.antt =====
-- The worker that selectWorker chooses.
use mathlib.Core.List.{Memᴰ}
use dfs_mapreduce.Base.{
  ℕ, ◌+◌, ◌-◌, ◌^◌, ◌<◌, ◌≤◌, ◌≡◌, ◌≢◌, refl, sym, ap, ◌∙◌, subst, ◌⊎◌, inl, inr, String, Bool,
  true, false, not, ◌&&◌, List, [], ◌∷◌, Dict, str_eq, eq_iff, eq_refl, arith, Bool-cases,
}
use dfs_mapreduce.Mapreduce.Master.{WorkerStatus}
use dfs_mapreduce.Mapreduce.Master.Select.{
  Runtime, host_of, is_available, Best, no_best, pick_least, pick_local, is_empty, select_worker,
}
use dfs_mapreduce.Mapreduce.Master.Select.Least.{pick_least-IsPick, pick_least-le, pick_least-least}

-- Go's promise on a walk over a map: it meets the entries of the map, and all of them.
pub record WalkLaws (rt : Runtime) : Type 0 where
  pub order-sound :
      (i : ℕ) (d : Dict WorkerStatus) (e : String × WorkerStatus) → Memᴰ e (rt.order i d) → Memᴰ e d
  pub order-complete :
      (i : ℕ) (d : Dict WorkerStatus) (e : String × WorkerStatus) → Memᴰ e d → Memᴰ e (rt.order i d)

abbrev pub same_host : Runtime → String → WorkerStatus → Bool
same_host rt addr ws = str_eq (host_of rt addr) (host_of rt ws.info.address)

-- A free worker on the host of one of the nodes, with this number of tasks.
abbrev pub IsLocalPick : Runtime → Dict WorkerStatus → List String → Best → Type 0
IsLocalPick rt workers nodes best =
    (ws : WorkerStatus) × (addr : String) × Memᴰ addr nodes
    × Memᴰ (best.worker, ws) workers
    × (is_available ws ≡ true)
    × (same_host rt addr ws ≡ true)
    × (best.tasks ≡ ws.info.active_tasks)

not_eq : (a b : String) → a ≢ b → str_eq a b ≡ false
not_eq a b h = grind (arith, eq_iff a b)

not_empty {ℓ} : {A : Type ℓ} (xs : List A) (x : A) → Memᴰ x xs → is_empty xs ≡ false
unfolding is_empty
not_empty [] x m = elim m [ ]
not_empty (y ∷ ys) x m = refl

module _ (rt : Runtime) (laws : WalkLaws rt) (workers : Dict WorkerStatus) where
  pick_local-IsLocalPick :
      (i : ℕ) (nodes : List String) (best : Best)
      → (pick_local rt i workers nodes best ≡ best)
        ⊎ IsLocalPick rt workers nodes (pick_local rt i workers nodes best)
  unfolding pick_local
  pick_local-IsLocalPick i [] best = inl refl
  pick_local-IsLocalPick i (addr ∷ nodes) best =
      let next = pick_least (same_host rt addr) (rt.order i workers) best in
      elim (pick_local-IsLocalPick (i + 1) nodes next) [
        | inl same ↦ elim (pick_least-IsPick (same_host rt addr) (rt.order i workers) best) [
          | inl before ↦ inl (same ∙ before)
          | inr (ws, m, a, t, e) ↦ inr (
            ws,
            addr,
            Memᴰ.head refl,
            subst (λ b. Memᴰ (b.worker, ws) workers) (sym same)
                (laws.order-sound i workers (next.worker, ws) m),
            a,
            t,
            ap (λ b. b.tasks) same ∙ e,
          )
        ]
        | inr (ws, at, n, m, a, t, e) ↦ inr (ws, at, Memᴰ.tail n, m, a, t, e)
      ]

  pick_local-le :
      (i : ℕ) (nodes : List String) (best : Best)
      → (pick_local rt i workers nodes best).tasks ≤ best.tasks
  unfolding pick_local
  pick_local-le i [] best = omega arith
  pick_local-le i (addr ∷ nodes) best =
      let next = pick_least (same_host rt addr) (rt.order i workers) best in
      let a = pick_local-le (i + 1) nodes next in
      let b = pick_least-le (same_host rt addr) (rt.order i workers) best in omega arith

  pick_local-least :
      (i : ℕ) (nodes : List String) (best : Best) (addr id : String) (ws : WorkerStatus)
      → Memᴰ addr nodes
      → Memᴰ (id, ws) workers
      → is_available ws ≡ true
      → same_host rt addr ws ≡ true
      → (pick_local rt i workers nodes best).tasks ≤ ws.info.active_tasks
  unfolding pick_local
  pick_local-least i [] best addr id ws n m a t = elim n [ ]
  pick_local-least i (at ∷ nodes) best addr id ws (Memᴰ.head e) m a t =
      let next = pick_least (same_host rt at) (rt.order i workers) best in
      let le = pick_local-le (i + 1) nodes next in
      let here : same_host rt at ws ≡ true = subst (λ n. same_host rt n ws ≡ true) e t in
      let least =
        pick_least-least (same_host rt at) (rt.order i workers) best id ws
          (laws.order-complete i workers (id, ws) m) a here in
      omega arith
  pick_local-least i (at ∷ nodes) best addr id ws (Memᴰ.tail n) m a t =
      pick_local-least (i + 1) nodes (pick_least (same_host rt at) (rt.order i workers) best) addr
        id ws n m a t

  abbrev local_best : List String → Best
  local_best nodes = pick_local rt 1 workers nodes no_best

  abbrev any_best : Best
  any_best = pick_least (λ ws. true) (rt.order 0 workers) no_best

  select_worker-cases :
      (nodes : List String) (delay : Bool)
      → select_worker rt workers nodes delay ≢ ""
      → ((select_worker rt workers nodes delay ≡ (local_best nodes).worker)
          × ((local_best nodes).worker ≢ ""))
        ⊎ (select_worker rt workers nodes delay ≡ any_best.worker)
  unfolding select_worker
  select_worker-cases nodes delay h = elim (Bool-cases (is_empty workers)) [
    | inl e ↦ absurd (h (ground arith))
    | inr e ↦ elim (Bool-cases (str_eq (local_best nodes).worker "")) [
      | inl f ↦ elim (Bool-cases (delay && not (is_empty nodes))) [
        | inl g ↦ absurd (h (ground arith))
        | inr g ↦ inr (ground arith)
      ]
      | inr f ↦ inl (ground arith, ground (arith, f, eq_refl ""))
    ]
  ]

  select_worker_pick :
      (nodes : List String) (delay : Bool)
      → is_empty workers ≡ false
      → str_eq (local_best nodes).worker "" ≡ false
      → (local_best nodes).worker ≡ select_worker rt workers nodes delay
  unfolding select_worker
  select_worker_pick nodes delay e f = ground arith

  -- If a walk meets exactly the entries of the map, a worker that is chosen, by a name that is not
  -- empty, is in the map and free.
  pub select_worker-IsFree :
      (nodes : List String) (delay : Bool)
      → select_worker rt workers nodes delay ≢ ""
      → (ws : WorkerStatus) × Memᴰ (select_worker rt workers nodes delay, ws) workers
        × (is_available ws ≡ true)
  select_worker-IsFree nodes delay h = elim (select_worker-cases nodes delay h) [
    | inl (e, f) ↦ elim (pick_local-IsLocalPick 1 nodes no_best) [
      | inl same ↦ absurd (f (ap (λ b. b.worker) same))
      | inr (ws, addr, n, m, a, t, tasks) ↦ (ws, subst (λ w. Memᴰ (w, ws) workers) (sym e) m, a)
    ]
    | inr e ↦ elim (pick_least-IsPick (λ ws. true) (rt.order 0 workers) no_best) [
      | inl same ↦ absurd (h (e ∙ ap (λ b. b.worker) same))
      | inr (ws, m, a, t, tasks) ↦ (
        ws,
        subst (λ w. Memᴰ (w, ws) workers) (sym e)
            (laws.order-sound 0 workers (any_best.worker, ws) m),
        a,
      )
    ]
  ]

  -- If a walk meets exactly the entries of the map, no worker has an empty name, and some free
  -- worker with fewer than 2 ^ 32 - 1 tasks is on the host of a node, then the chosen worker is a
  -- free one on the host of a node, with at most as many tasks as that one.
  pub select_worker-local :
      (nodes : List String) (delay : Bool) (addr id : String) (ws : WorkerStatus)
      → ((name : String) (w : WorkerStatus) → Memᴰ (name, w) workers → name ≢ "")
      → Memᴰ addr nodes
      → Memᴰ (id, ws) workers
      → is_available ws ≡ true
      → same_host rt addr ws ≡ true
      → ws.info.active_tasks < 2 ^ 32 - 1
      → (best : Best) × (best.worker ≡ select_worker rt workers nodes delay)
        × IsLocalPick rt workers nodes best
        × (best.tasks ≤ ws.info.active_tasks)
  select_worker-local nodes delay addr id ws named n m a t h =
      let least = pick_local-least 1 nodes no_best addr id ws n m a t in
      elim (pick_local-IsLocalPick 1 nodes no_best) [
        | inl same ↦
            let tasks : (local_best nodes).tasks ≡ 2 ^ 32 - 1 = ap (λ b. b.tasks) same in
            absurd (omega arith)
        | inr (w, at, n2, m2, a2, t2, tasks) ↦
            let name : (local_best nodes).worker ≢ "" = named (local_best nodes).worker w m2 in
            let e =
              select_worker_pick nodes delay (not_empty workers (id, ws) m)
                (not_eq (local_best nodes).worker "" name) in
            (local_best nodes, e, (w, at, n2, m2, a2, t2, tasks), least)
      ]
