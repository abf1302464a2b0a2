-- ===== src/Services/Start.antt =====
-- The start of the background services of src/services.c in a scheduler with room for them.
use a_lightweight_os.Base.{
  ℕ, zero, suc, ◌+◌, ◌<◌, ◌≤◌, ◌≡◌, refl, sym, ◌∙◌, inl, inr, false, Option, none, some, List, [],
  ◌∷◌, ◌++◌, leb, ltb, ◌==◌, if◌then◌else◌, update, arith, ap, subst, Bool-cases, Option-cases,
}
use mathlib.Core.Path.{fun_ext}
use mathlib.Core.List.{append_assoc, append-nil}
use a_lightweight_os.Scheduler.{Scheduler, Tcb, create_task, nexts, max_tasks}
use a_lightweight_os.Scheduler.Chains.{Chain}
use a_lightweight_os.Scheduler.Valid.{IsValid}
use a_lightweight_os.Scheduler.Create.{create_task-Creates}
use a_lightweight_os.Services.{
  Services, set_memory, note_service, start_service, start_from, service_name, initialize,
}
use a_lightweight_os.Services.Queues.{Spooler}

nexts-set_memory : (slot i : ℕ) (ts : ℕ → Tcb) → nexts (set_memory slot i ts) ≡ nexts ts
unfolding set_memory
nexts-set_memory slot i ts = fun_ext λ k. elim (Bool-cases (slot == k)) [
  | inl e ↦ rw (e, nexts) (ap (nexts ts) (let q : slot ≡ k = ground arith in q))
  | inr e ↦ rw (e, nexts)
]

pid-set_memory : (slot i : ℕ) (ts : ℕ → Tcb) (k : ℕ) → (set_memory slot i ts k).pid ≡ (ts k).pid
unfolding set_memory
pid-set_memory slot i ts k = elim (Bool-cases (slot == k)) [
  | inl e ↦ rw e (ap (λ k. (ts k).pid) (let q : slot ≡ k = ground arith in q))
  | inr e ↦ rw e
]

state-set_memory :
    (slot i : ℕ) (ts : ℕ → Tcb) (k : ℕ) → (set_memory slot i ts k).state ≡ (ts k).state
unfolding set_memory
state-set_memory slot i ts k = elim (Bool-cases (slot == k)) [
  | inl e ↦ rw e (ap (λ k. (ts k).state) (let q : slot ≡ k = ground arith in q))
  | inr e ↦ rw e
]

-- The mark on a task does not matter for the queue.
set_memory-IsValid :
    (slot i : ℕ) (s : Scheduler) (queue : List ℕ)
    → IsValid s queue
    → IsValid (record s { tasks = set_memory slot i s.tasks }) queue
set_memory-IsValid slot i s queue v = record {
  linked = subst (λ f. Chain f s.head queue) (sym (nexts-set_memory slot i s.tasks)) v.linked;
  rising = v.rising;
  capacity = v.capacity;
  counted = v.counted;
  numbered = λ k e. pid-set_memory slot i s.tasks k ∙ v.numbered k e;
  states = λ k e. state-set_memory slot i s.tasks k ∙ v.states k e;
  present = v.present;
}

-- The number of tasks grows by one.
count-create_task :
    (stacks wrapper : ℕ) (name : Option (List ℕ)) (entry priority : ℕ) (s : Scheduler)
    → s.task_count < max_tasks
    → (create_task stacks wrapper name entry priority s).0.task_count ≡ s.task_count + 1
unfolding create_task
count-create_task stacks wrapper name entry priority s l =
    let e : leb max_tasks s.task_count ≡ false = ground arith in
    elim (Option-cases s.head) [ inl h ↦ rw (e, h) refl | inr (j, h) ↦ rw (e, h) refl ]

note_service-IsValid :
    (i : ℕ) (v : Services) (r : Scheduler × Option ℕ) (queue : List ℕ) (n : ℕ)
    → IsValid r.0 queue
    → r.0.task_count ≡ n
    → IsValid (note_service i v r).1 queue × ((note_service i v r).1.task_count ≡ n)
unfolding note_service
note_service-IsValid i v (s, none) queue n w c = (w, c)
note_service-IsValid i v (s, some slot) queue n w c = (set_memory-IsValid slot i s queue w, c)

-- The slots from one on.
abbrev pub slots : ℕ → ℕ → List ℕ
slots zero i = []
slots (suc n) i = i ∷ slots n (i + 1)

module _ (stacks wrapper : ℕ) (entries : ℕ → ℕ) where
  -- One service takes a new slot behind the queue.
  start_service-IsValid :
      (i : ℕ) (v : Services) (s : Scheduler) (queue : List ℕ)
      → IsValid s queue
      → s.task_count < max_tasks
      → let r = (start_service stacks wrapper entries i v s).1 in
        IsValid r (queue ++ s.task_count ∷ []) × (r.task_count ≡ s.task_count + 1)
  unfolding start_service
  start_service-IsValid i v s queue w l =
      let entry = if ltb i 4 then entries i else entries 4 in
      let name = some (service_name i) in
      let r = create_task stacks wrapper name entry 1 s in
      let e : leb max_tasks s.task_count ≡ false = ground arith in
      let c = create_task-Creates stacks wrapper name entry 1 s queue w in
      let d = simp e at c in
      note_service-IsValid i (record v { names = update v.names i (service_name i) }) r
        (queue ++ s.task_count ∷ []) (s.task_count + 1) d.1
        (count-create_task stacks wrapper name entry 1 s l)

  start_from-IsValid :
      (n i : ℕ) (v : Services) (s : Scheduler) (queue : List ℕ)
      → IsValid s queue
      → s.task_count + n ≤ max_tasks
      → let r = (start_from stacks wrapper entries n i v s).1 in
        IsValid r (queue ++ slots n s.task_count)
  unfolding start_from
  start_from-IsValid zero i v s queue w l = subst (IsValid s) (sym (append-nil queue)) w
  start_from-IsValid (suc n) i v s queue w l =
      let (a, c) = start_service-IsValid i v s queue w (omega arith) in
      let r = start_service stacks wrapper entries i v s in
      let ih =
        start_from-IsValid n (i + 1) r.0 r.1 (queue ++ s.task_count ∷ []) a (omega (arith, c, l)) in
      subst (IsValid (start_from stacks wrapper entries n (i + 1) r.0 r.1).1)
        (append_assoc queue (s.task_count ∷ []) (slots n r.1.task_count)
          ∙ ap (λ k. queue ++ s.task_count ∷ slots n k) c)
        ih

  -- In a valid scheduler with room for 200 tasks, the services take the next 200 slots, in their order,
  -- behind the ready queue, and the invariant holds.
  pub initialize-IsValid :
      (v : Services) (s : Scheduler) (p : Spooler) (queue : List ℕ)
      → IsValid s queue
      → s.task_count + 200 ≤ max_tasks
      → IsValid (initialize stacks wrapper entries v s p).1 (queue ++ slots 200 s.task_count)
  unfolding initialize
  initialize-IsValid v s p queue w l = start_from-IsValid 200 0 v s queue w l
