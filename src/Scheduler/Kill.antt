-- ===== src/Scheduler/Kill.antt =====
-- kill_task of src/scheduler.c.
use a_lightweight_os.Base.{
  ℕ, zero, suc, ◌+◌, ◌<◌, ◌≤◌, ◌≡◌, refl, sym, ◌∙◌, ◌⊎◌, inl, inr, ◌≢◌, Bool, true, false, Option,
  none, some, List, [], ◌∷◌, ◌==◌, if◌then◌else◌, update, arith, Bool-cases, Option-cases, ==_refl,
  length, subst, ap,
}
use mathlib.Core.Path.{fun_ext}
use a_lightweight_os.Scheduler.{
  Scheduler, Tcb, zombie, nexts, same_slot, max_tasks, find_task, kill_task,
}
use a_lightweight_os.Scheduler.Chains.{
  Chain, Rising, elem, without, elem_bounds, Rising-without, length-Rising, elem-without,
  Chain-agree,
}
use a_lightweight_os.Scheduler.Valid.{
  IsValid, set_next, nexts-set_next, pid-set_next, state-set_next,
}

-- What the walk finds in a queue: nothing, the first task, or one behind task `j`; and what is linked
-- once it is taken out.
abbrev Found : (ℕ → Option ℕ) → ℕ → Option ℕ → Option ℕ → List ℕ → Option (Option ℕ × ℕ) → Type 0
Found next pid prev p xs none = (i : ℕ) → elem i xs ≡ true → pid ≢ i + 1
Found next pid prev p xs (some (q, i)) =
    (i + 1 ≡ pid)
    × (elem i xs ≡ true)
    × (((q ≡ prev) × (p ≡ some i) × Chain next (next i) (without i xs))
        ⊎ ((j : ℕ) × (q ≡ some j)
            × (elem j xs ≡ true)
            × (j < i)
            × Chain (update next j (next i)) p (without i xs)))

find-Found :
    (ts : ℕ → Tcb) (pid fuel lo hi : ℕ) (prev p : Option ℕ) (xs : List ℕ)
    → Chain (nexts ts) p xs
    → Rising lo hi xs
    → ((i : ℕ) → elem i xs ≡ true → (ts i).pid ≡ i + 1)
    → length xs ≤ fuel
    → Found (nexts ts) pid prev p xs (find_task ts pid fuel prev p)
unfolding find_task
find-Found ts pid zero lo hi prev p [] c r n l = λ i e. cc
find-Found ts pid zero lo hi prev p (x ∷ xs) c r n l = absurd (omega arith)
find-Found ts pid (suc fuel) lo hi prev none [] c r n l = λ i e. cc
find-Found ts pid (suc fuel) lo hi prev (some y) [] c r n l = absurd (cc)
find-Found ts pid (suc fuel) lo hi prev none (x ∷ xs) c r n l = absurd (cc)
find-Found ts pid (suc fuel) lo hi prev (some y) (x ∷ xs) c r n l =
    subst
      (λ (k : ℕ).
        Found (nexts ts) pid prev (some k) (x ∷ xs) (find_task ts pid (suc fuel) prev (some k)))
      (sym same)
      (go ((ts x).pid == pid) refl (find_task ts pid fuel (some x) (ts x).next) (
        find-Found ts pid fuel (x + 1) hi (some x) (ts x).next xs c.1 r.2
          (λ i e. n i (ground arith)) (omega arith)))
  where
    same : y ≡ x
    same = cc

    above : (i : ℕ) → elem i xs ≡ true → (x + 1 ≤ i) × (i < hi)
    above i m = elem_bounds (x + 1) hi xs i r.2 m

    apart : (i : ℕ) → elem i xs ≡ true → (x == i) ≡ false
    apart i m = ground (arith, above i m)

    flip : (j : ℕ) → elem j xs ≡ true → (j == x) ≡ false
    flip j m = ground (arith, above j m)

    kept :
        (i k : ℕ) → elem k (without i xs) ≡ true → nexts ts k ≡ update (nexts ts) x (nexts ts i) k
    kept i k m =
        ground
          (arith, elem_bounds (x + 1) hi (without i xs) k (Rising-without (x + 1) hi xs i r.2) m)

    go :
        (b : Bool)
        → ((ts x).pid == pid) ≡ b
        → (o : Option (Option ℕ × ℕ)) → Found (nexts ts) pid (some x) (ts x).next xs o
        → Found (nexts ts) pid prev (some x) (x ∷ xs) (if b then some (prev, x) else o)
    go true e o f = rw (==_refl x) (ground (arith, n x (ground arith)), refl, inl (refl, refl, c.1))
    go false e none f = λ i m w. ground (arith, f i, n x (ground arith))
    go false e (some (q, i)) (a, m, inl (b, d, h)) = rw (apart i m) (
      a,
      m,
      inr (
        x,
        b,
        rw (==_refl x),
        omega (arith, above i m),
        (
          refl,
          rw (==_refl x) (
              Chain-agree (nexts ts) (update (nexts ts) x (nexts ts i)) (nexts ts i) (without i xs)
                (kept i) h),
        ),
      ),
    )
    go false e (some (q, i)) (a, m, inr (j, b, mj, lj, h)) =
        rw (apart i m) (a, m, inr (j, b, rw (apart j mj) mj, lj, (refl, rw (flip j mj) h)))

-- What killing a pid does to a queue: the task with that pid leaves it as a zombie, and if it was the
-- current one then there is no current one; where no task has the pid nothing changes.
pub record Kills (pid : ℕ) (s : Scheduler) (queue : List ℕ) (r : Scheduler × Bool) : Type 0 where
  pub removes :
      (i : ℕ)
      → elem i queue ≡ true
      → pid ≡ i + 1
      → (r.1 ≡ true)
        × IsValid r.0 (without i queue)
        × ((r.0.tasks i).state ≡ zombie)
        × (r.0.current ≡ (if same_slot s.current i then none else s.current))
  pub misses : ((i : ℕ) → elem i queue ≡ true → pid ≢ i + 1) → r ≡ (s, false)

abbrev zombied : Scheduler → ℕ → ℕ → Tcb
zombied s i = update s.tasks i (record (s.tasks i) { state = zombie })

nexts-zombied : (s : Scheduler) (i : ℕ) → nexts (zombied s i) ≡ nexts s.tasks
nexts-zombied s i = fun_ext λ k. elim (Bool-cases (i == k)) [
  | inl e ↦ rw (e, nexts) (ap (nexts s.tasks) (let q : i ≡ k = ground arith in q))
  | inr e ↦ rw (e, nexts)
]

pid-zombied : (s : Scheduler) (i k : ℕ) → (zombied s i k).pid ≡ (s.tasks k).pid
pid-zombied s i k = elim (Bool-cases (i == k)) [
  | inl e ↦ rw e (ap (λ t. (s.tasks t).pid) (let q : i ≡ k = ground arith in q))
  | inr e ↦ rw e
]

-- Taking task `i` out of a valid queue, for any table that links the rest.
without-IsValid :
    (s : Scheduler) (queue : List ℕ) (i : ℕ) (ts : ℕ → Tcb) (head : Option ℕ)
    → IsValid s queue
    → Chain (nexts ts) head (without i queue)
    → ((k : ℕ) → (ts k).pid ≡ (s.tasks k).pid)
    → ((k : ℕ) → (ts k).state ≡ (zombied s i k).state)
    → IsValid
        (record s {
          tasks = ts;
          head = head;
          current = if same_slot s.current i then none else s.current;
        })
        (without i queue)
without-IsValid s queue i ts head v c pids states = record {
  linked = c;
  rising = Rising-without 0 s.task_count queue i v.rising;
  capacity = v.capacity;
  counted = v.counted;
  numbered = λ k e. pids k ∙ v.numbered k (still k e);
  states =
      λ k e. ground (arith, states k, v.states k (still k e), other k e, Option-cases s.current);
  present =
      λ k e. let p = stays k (same_slot s.current i) refl e in removed k ∙ rw p.1 (v.present k p.0);
}
  where
    removed : (k : ℕ) → elem k (without i queue) ≡ (if i == k then false else elem k queue)
    removed k = elem-without 0 s.task_count queue i k v.rising

    still : (k : ℕ) → elem k (without i queue) ≡ true → elem k queue ≡ true
    still k e = ground (arith, removed k)

    other : (k : ℕ) → elem k (without i queue) ≡ true → (i == k) ≡ false
    other k e = ground (arith, removed k)

    stays :
        (k : ℕ) (b : Bool)
        → same_slot s.current i ≡ b
        → (if b then none else s.current) ≡ some k
        → (s.current ≡ some k) × ((i == k) ≡ false)
    stays k true q e = absurd (cc)
    stays k false q e = (e, ground arith)

Result : ℕ → Scheduler → List ℕ → Option (Option ℕ × ℕ) → Scheduler × Bool → Type 0
Result pid s queue none r = r ≡ (s, false)
Result pid s queue (some (q, i)) r =
    (r.1 ≡ true)
    × IsValid r.0 (without i queue)
    × ((r.0.tasks i).state ≡ zombie)
    × (r.0.current ≡ (if same_slot s.current i then none else s.current))

killed : Scheduler → Option (Option ℕ × ℕ) → Scheduler × Bool
killed s o = elim o [
  | none ↦ (s, false)
  | some (prev, i) ↦ (
    record s {
      tasks = elim prev [
        | none ↦ zombied s i
        | some j ↦ set_next (zombied s i) j (zombied s i i).next
      ];
      head = elim prev [ none ↦ (zombied s i i).next | some j ↦ s.head ];
      current = if same_slot s.current i then none else s.current;
    },
    true,
  )
]

killed-Result :
    (pid : ℕ) (s : Scheduler) (queue : List ℕ)
    → IsValid s queue
    → (o : Option (Option ℕ × ℕ)) → Found (nexts s.tasks) pid none s.head queue o
    → Result pid s queue o (killed s o)
unfolding Result killed
killed-Result pid s queue v none f = refl
killed-Result pid s queue v (some (none, i)) (a, m, inl (b, d, h)) = (
  refl,
  without-IsValid s queue i (zombied s i) (zombied s i i).next v
      (subst (λ f. Chain f (f i) (without i queue)) (sym (nexts-zombied s i)) h) (pid-zombied s i)
      (λ k. refl),
  ground arith,
  refl,
)
killed-Result pid s queue v (some (some j, i)) (a, m, inl (b, d, h)) = absurd (cc)
killed-Result pid s queue v (some (none, i)) (a, m, inr (j, b, mj, lj, h)) = absurd (cc)
killed-Result pid s queue v (some (some j', i)) (a, m, inr (j, b, mj, lj, h)) = (
  refl,
  without-IsValid s queue i (set_next (zombied s i) j' (zombied s i i).next) s.head v linked
      (λ k. pid-set_next (zombied s i) j' (zombied s i i).next k ∙ pid-zombied s i k)
      (λ k. state-set_next (zombied s i) j' (zombied s i i).next k),
  state-set_next (zombied s i) j' (zombied s i i).next i ∙ ground arith,
  refl,
)
  where
    linked : Chain (nexts (set_next (zombied s i) j' (zombied s i i).next)) s.head (without i queue)
    linked =
        subst (λ g. Chain g s.head (without i queue))
          (sym (nexts-set_next (zombied s i) j' (zombied s i i).next))
          (subst (λ f. Chain (update f j' (f i)) s.head (without i queue)) (sym (nexts-zombied s i))
            (subst
              (λ t. Chain (update (nexts s.tasks) t (nexts s.tasks i)) s.head (without i queue))
              (let q : j ≡ j' = cc in q) h))

search-Found :
    (pid : ℕ) (s : Scheduler) (queue : List ℕ)
    → IsValid s queue
    → Found (nexts s.tasks) pid none s.head queue (find_task s.tasks pid max_tasks none s.head)
search-Found pid s queue v =
    find-Found s.tasks pid max_tasks 0 s.task_count none s.head queue v.linked v.rising v.numbered
      (omega (arith, v.capacity, length-Rising 0 s.task_count queue (omega arith) v.rising))

-- The task of a valid queue that has the pid leaves the queue as a zombie, and the rest keeps its order
-- and the invariant; if it was the current one then no task is current. A pid that no task of the queue
-- has changes nothing.
pub kill_task-Kills :
    (pid : ℕ) (s : Scheduler) (queue : List ℕ)
    → IsValid s queue
    → Kills pid s queue (kill_task pid s)
unfolding kill_task killed
kill_task-Kills pid s queue v =
    go (find_task s.tasks pid max_tasks none s.head) (search-Found pid s queue v)
  where
    go :
        (o : Option (Option ℕ × ℕ))
        → Found (nexts s.tasks) pid none s.head queue o
        → Kills pid s queue (killed s o)
    go none f = record { removes = λ i m e. absurd (f i m e); misses = λ n. refl }
    go (some (q, i)) f = record {
      removes = λ k m e.
          subst
            (λ (t : ℕ).
              ((killed s (some (q, i))).1 ≡ true)
              × IsValid (killed s (some (q, i))).0 (without t queue)
              × (((killed s (some (q, i))).0.tasks t).state ≡ zombie)
              × ((killed s (some (q, i))).0.current
                  ≡ (if same_slot s.current t then none else s.current)))
            (let w : i ≡ k = omega (arith, f.0) in w)
            (unfold Result in killed-Result pid s queue v (some (q, i)) f);
      misses = λ n. absurd (n i f.1 (sym f.0));
    }
