-- ===== src/Scheduler/Create.antt =====
-- create_task of src/scheduler.c.
use a_lightweight_os.Base.{
  ℕ, ◌+◌, ◌%◌, ◌^◌, ◌<◌, ◌≡◌, refl, sym, ◌∙◌, inl, inr, true, false, ◌||◌, Option, none, some, List,
  [], ◌∷◌, ◌++◌, ◌==◌, leb, if◌then◌else◌, update, arith, Bool-cases, Option-cases, subst, ap,
}
use a_lightweight_os.Scheduler.{
  Scheduler, Tcb, ready, running, nexts, same_slot, max_tasks, new_task, create_task, last_task,
}
use a_lightweight_os.Scheduler.Chains.{
  Chain, elem, elem_bounds, Rising-append, length-Rising, elem-append, Chain-agree, Chain-append,
}
use a_lightweight_os.Scheduler.Valid.{IsValid, nexts-set_next, pid-set_next, state-set_next}

module _ (stacks wrapper : ℕ) (name : Option (List ℕ)) (entry priority : ℕ) where
  abbrev fresh : Scheduler → Tcb
  fresh s = new_task stacks wrapper s.task_count s.next_pid name entry priority

  -- The first task of an empty queue becomes the current one.
  abbrev first : Scheduler → Scheduler
  first s = record s {
    tasks =
        update (update s.tasks s.task_count (fresh s)) s.task_count
          (record (fresh s) { state = running });
    task_count = s.task_count + 1;
    next_pid = (s.next_pid + 1) % 2 ^ 32;
    current = some s.task_count;
    head = some s.task_count;
  }

  first-IsValid :
      (s : Scheduler)
      → IsValid s []
      → s.task_count < max_tasks
      → IsValid (first s) (s.task_count ∷ [])
  unfolding new_task
  first-IsValid s v l = record {
    linked = (refl, ground arith);
    rising = omega arith;
    capacity = omega arith;
    counted = omega (arith, v.counted);
    numbered = λ i e. ground (arith, v.counted);
    states = λ i e. ground arith;
    present = λ i e. ground arith;
  }

  abbrev appended : Scheduler → ℕ → Scheduler
  appended s h =
      let ts = update s.tasks s.task_count (fresh s) in
      let l = last_task (nexts ts) max_tasks h in
      record s {
        tasks = update ts l (record (ts l) { next = some s.task_count });
        task_count = s.task_count + 1;
        next_pid = (s.next_pid + 1) % 2 ^ 32;
      }

  appended-IsValid :
      (s : Scheduler) (h : ℕ) (xs : List ℕ)
      → IsValid s (h ∷ xs)
      → s.task_count < max_tasks
      → IsValid (appended s h) (h ∷ xs ++ s.task_count ∷ [])
  unfolding new_task
  appended-IsValid s h xs v l = record {
    linked =
        subst (λ p. Chain (nexts (appended s h).tasks) p (h ∷ xs ++ s.task_count ∷ []))
          (sym v.linked.0) chain;
    rising = Rising-append 0 s.task_count (h ∷ xs) (omega arith) v.rising;
    capacity = omega arith;
    counted = omega (arith, v.counted);
    numbered = λ i e. pid-set_next ts k (some s.task_count) i ∙ pids i (members i e);
    states = λ i e. state-set_next ts k (some s.task_count) i ∙ states i (members i e);
    present = λ i e. rw (elem-append i s.task_count (h ∷ xs)) (ground (arith, v.present i e));
  }
    where
      ts : ℕ → Tcb
      ts = update s.tasks s.task_count (fresh s)

      k : ℕ
      k = last_task (nexts ts) max_tasks h

      members :
          (i : ℕ)
          → elem i (h ∷ xs ++ s.task_count ∷ []) ≡ true
          → (elem i (h ∷ xs) || s.task_count == i) ≡ true
      members i e = sym (elem-append i s.task_count (h ∷ xs)) ∙ e

      old : (i : ℕ) → elem i (h ∷ xs) ≡ true → (s.task_count == i) ≡ false
      old i e = ground (arith, elem_bounds 0 s.task_count (h ∷ xs) i v.rising e)

      chain : Chain (nexts (appended s h).tasks) (some h) (h ∷ xs ++ s.task_count ∷ [])
      chain =
          subst (λ f. Chain f (some h) (h ∷ xs ++ s.task_count ∷ []))
            (sym (nexts-set_next ts k (some s.task_count)))
            (Chain-append (nexts ts) s.task_count max_tasks h xs kept v.rising.2 (omega arith)
              (omega (arith, length-Rising (h + 1) s.task_count xs (omega arith) v.rising.2))
              (ground arith))
        where
          kept : Chain (nexts ts) (nexts ts h) xs
          kept =
              (Chain-agree (nexts s.tasks) (nexts ts) s.head (h ∷ xs)
                (λ i e. ground (arith, old i e)) v.linked).1

      pids : (i : ℕ) → (elem i (h ∷ xs) || s.task_count == i) ≡ true → (ts i).pid ≡ i + 1
      pids i e = elim (Bool-cases (elem i (h ∷ xs))) [
        | inl m ↦ ground (arith, old i m, v.numbered i m)
        | inr m ↦ ground (arith, v.counted)
      ]

      idle : (i : ℕ) → elem i (h ∷ xs) ≡ false → same_slot s.current i ≡ false
      idle i m = elim (Option-cases s.current) [
        | inl z ↦ ground arith
        | inr (j, z) ↦ ground (arith, v.present j z, ap (λ t. elem t (h ∷ xs)) {x = j} {y = i})
      ]

      states :
          (i : ℕ)
          → (elem i (h ∷ xs) || s.task_count == i) ≡ true
          → (ts i).state ≡ (if same_slot s.current i then running else ready)
      states i e = elim (Bool-cases (elem i (h ∷ xs))) [
        | inl m ↦ ground (arith, old i m, v.states i m)
        | inr m ↦ ground (arith, idle i m)
      ]

  -- What creating a task does to a queue.
  abbrev pub Creates : Scheduler → List ℕ → Scheduler × Option ℕ → Type 0
  Creates s queue r =
      if leb max_tasks s.task_count
      then r ≡ (s, none)
      else (r.1 ≡ some s.task_count)
        × IsValid r.0 (queue ++ s.task_count ∷ [])
        × (r.0.current ≡ (elim queue [ [] ↦ some s.task_count | _ ∷ _ ↦ s.current ]))

  abbrev made : Scheduler → Scheduler × Option ℕ
  made s = create_task stacks wrapper name entry priority s

  made_full : (s : Scheduler) → leb max_tasks s.task_count ≡ true → made s ≡ (s, none)
  unfolding create_task
  made_full s e = simp e

  made-first :
      (s : Scheduler)
      → leb max_tasks s.task_count ≡ false
      → s.head ≡ none
      → made s ≡ (first s, some s.task_count)
  unfolding create_task
  made-first s e h = simp (e, h)

  made-appended :
      (s : Scheduler) (h : ℕ)
      → leb max_tasks s.task_count ≡ false
      → s.head ≡ some h
      → made s ≡ (appended s h, some s.task_count)
  unfolding create_task
  made-appended s h e p = simp (e, p)

  -- A new task goes to the end of the ready queue under a pid of its own, becomes the current one only
  -- if the queue was empty, and keeps the invariant; where the table is full nothing changes.
  pub create_task-Creates :
      (s : Scheduler) (queue : List ℕ)
      → IsValid s queue
      → Creates s queue (create_task stacks wrapper name entry priority s)
  create_task-Creates s queue v = elim (Bool-cases (leb max_tasks s.task_count)) [
    | inl e ↦ simp e (made_full s e)
    | inr e ↦ simp e (go queue v (ground arith) e)
  ]
    where
      go :
          (q : List ℕ)
          → IsValid s q
          → s.task_count < max_tasks
          → leb max_tasks s.task_count ≡ false
          → ((made s).1 ≡ some s.task_count)
            × IsValid (made s).0 (q ++ s.task_count ∷ [])
            × ((made s).0.current ≡ (elim q [ [] ↦ some s.task_count | _ ∷ _ ↦ s.current ]))
      go [] w l e =
          let m = made-first s e w.linked in
          (
            ap (λ r. r.1) m,
            subst (λ r. IsValid r.0 (s.task_count ∷ [])) (sym m) (first-IsValid s w l),
            ap (λ r. r.0.current) m,
          )
      go (h ∷ xs) w l e =
          let m = made-appended s h e w.linked.0 in
          (
            ap (λ r. r.1) m,
            subst (λ r. IsValid r.0 (h ∷ xs ++ s.task_count ∷ [])) (sym m)
                (appended-IsValid s h xs w l),
            ap (λ r. r.0.current) m,
          )
