-- ===== src/Scheduler/Yield.antt =====
-- task_yield of src/scheduler.c: round robin over the ready queue.
use a_lightweight_os.Base.{
  ℕ, suc, ◌≡◌, refl, sym, ◌∙◌, inl, inr, true, false, Option, none, some, List, [], ◌∷◌, ◌==◌,
  if◌then◌else◌, update, arith, Bool-cases, ==_refl, subst, ap,
}
use mathlib.Core.Path.{fun_ext}
use a_lightweight_os.Scheduler.{
  Scheduler, Tcb, ready, running, nexts, same_slot, first_ready, pick, park, dispatch, yield_from,
  yield_with, task_yield,
}
use a_lightweight_os.Scheduler.Chains.{Chain, elem}
use a_lightweight_os.Scheduler.Valid.{IsValid}

-- The part of the queue behind a task.
abbrev pub after : ℕ → List ℕ → List ℕ
after i [] = []
after i (x ∷ xs) = if x == i then xs else after i xs

abbrev pub first_of : ℕ → List ℕ → ℕ
first_of d [] = d
first_of d (x ∷ xs) = x

-- The task whose turn it is after task `i`: the next one of the queue, or the first after the last.
abbrev pub successor : List ℕ → ℕ → ℕ
successor queue i = first_of (first_of i queue) (after i queue)

Chain-after :
    (next : ℕ → Option ℕ) (p : Option ℕ) (xs : List ℕ) (i : ℕ)
    → Chain next p xs
    → elem i xs ≡ true
    → Chain next (next i) (after i xs)
Chain-after next p [] i c e = absurd (cc)
Chain-after next p (x ∷ xs) i c e = elim (Bool-cases (x == i)) [
  | inl q ↦ rw q (subst (λ t. Chain next (next t) xs) (let w : x ≡ i = ground arith in w) c.1)
  | inr q ↦ rw q (Chain-after next (next x) xs i c.1 (ground arith))
]

pub elem-after : (xs : List ℕ) (i k : ℕ) → elem k (after i xs) ≡ true → elem k xs ≡ true
elem-after [] i k e = e
elem-after (x ∷ xs) i k e = ground (arith, elem-after xs i k)

-- Where the whole queue is ready, the walk stops at once.
first_ready-first :
    (ts : ℕ → Tcb) (fuel : ℕ) (p : Option ℕ) (xs : List ℕ)
    → Chain (nexts ts) p xs
    → ((k : ℕ) → elem k xs ≡ true → (ts k).state ≡ ready)
    → first_ready ts (suc fuel) p ≡ p
unfolding first_ready
first_ready-first ts fuel none xs c r = refl
first_ready-first ts fuel (some y) [] c r = absurd (cc)
first_ready-first ts fuel (some y) (x ∷ xs) c r = let q : y ≡ x = cc in rw (r y (ground arith))

pick-first_of :
    (ts : ℕ → Tcb) (old : ℕ) (head : Option ℕ) (queue rest : List ℕ)
    → Chain (nexts ts) head queue
    → Chain (nexts ts) (ts old).next rest
    → ((k : ℕ) → elem k queue ≡ true → (ts k).state ≡ ready)
    → ((k : ℕ) → elem k rest ≡ true → (ts k).state ≡ ready)
    → elem old queue ≡ true
    → pick ts old head ≡ some (first_of (first_of old queue) rest)
unfolding pick
pick-first_of ts old head [] rest c d r q m = absurd (cc)
pick-first_of ts old head (y ∷ ys) [] c d r q m =
    rw (first_ready-first ts 255 (ts old).next [] d q, d, pick)
      (first_ready-first ts 255 head (y ∷ ys) c r ∙ c.0)
pick-first_of ts old head (y ∷ ys) (x ∷ xs) c d r q m =
    rw (first_ready-first ts 255 (ts old).next (x ∷ xs) d q, d.0, pick)

-- What a yield does when task `i` of the queue is current.
pub record Yields (s : Scheduler) (queue : List ℕ) (i : ℕ) (r : Scheduler × Option (ℕ × ℕ))
    : Type 0 where
  pub turn : r.0.current ≡ some (successor queue i)
  pub keeps : IsValid r.0 queue
  pub switches : r.1 ≡ (if successor queue i == i then none else some (i, successor queue i))

first_of-elem :
    (queue rest : List ℕ) (i : ℕ)
    → elem i queue ≡ true
    → ((k : ℕ) → elem k rest ≡ true → elem k queue ≡ true)
    → elem (first_of (first_of i queue) rest) queue ≡ true
first_of-elem [] rest i m h = m
first_of-elem (y ∷ ys) [] i m h = rw (==_refl y)
first_of-elem (y ∷ ys) (x ∷ xs) i m h = h x (rw (==_refl x))

yields_some :
    (s : Scheduler) (i h : ℕ) → s.current ≡ some i → s.head ≡ some h → task_yield s ≡ yield_from i s
unfolding task_yield yield_with
yields_some s i h c e = ap (λ c. yield_with c s.head s) c ∙ ap (λ h. yield_with (some i) h s) e

-- With no current task a yield does nothing, whatever waits in the queue.
pub task_yield-none : (s : Scheduler) → s.current ≡ none → task_yield s ≡ (s, none)
unfolding task_yield yield_with
task_yield-none s c = ap (λ c. yield_with c s.head s) c

module _ (s : Scheduler) (queue : List ℕ) (i : ℕ) (v : IsValid s queue)
    (cur : s.current ≡ some i) where
  member : elem i queue ≡ true
  member = v.present i cur

  is_now : (k : ℕ) → elem k queue ≡ true → (s.tasks k).state ≡ (if i == k then running else ready)
  is_now k e = v.states k e ∙ ap (λ c. if same_slot c k then running else ready) cur

  abbrev parked : ℕ → Tcb
  parked = update s.tasks i (record (s.tasks i) { state = ready })

  nexts-parked : nexts parked ≡ nexts s.tasks
  nexts-parked = fun_ext λ k. elim (Bool-cases (i == k)) [
    | inl e ↦ rw (e, nexts) (ap (nexts s.tasks) (let q : i ≡ k = ground arith in q))
    | inr e ↦ rw (e, nexts)
  ]

  all_ready : (k : ℕ) → elem k queue ≡ true → (parked k).state ≡ ready
  all_ready k e = ground (arith, is_now k e)

  linked-parked : Chain (nexts parked) s.head queue
  linked-parked = subst (λ f. Chain f s.head queue) (sym nexts-parked) v.linked

  pick-successor : pick parked i s.head ≡ some (successor queue i)
  pick-successor =
      pick-first_of parked i s.head queue (after i queue) linked-parked
        (Chain-after (nexts parked) s.head queue i linked-parked member) all_ready
        (λ k e. all_ready k (elem-after queue i k e)) member

  successor_member : elem (successor queue i) queue ≡ true
  successor_member = first_of-elem queue (after i queue) i member (λ k e. elem-after queue i k e)

  was_running : (s.tasks i).state ≡ running
  was_running = rw (is_now i member, ==_refl i)

  abbrev chosen : ℕ → Scheduler × Option (ℕ × ℕ)
  chosen n =
      if n == i
      then (
        record s {
          tasks = update parked i (record (parked i) { state = running });
          requested = false;
        },
        none,
      )
      else (
        record s {
          tasks = update parked n (record (parked n) { state = running; timeslice = 20 });
          current = some n;
          requested = false;
        },
        some (i, n),
      )

  park-parked : park i s.tasks ≡ parked
  unfolding park
  park-parked = rw (was_running, park)

  dispatch-chosen : (n : ℕ) → dispatch i s parked (some n) ≡ chosen n
  unfolding dispatch
  dispatch-chosen n = refl

  yield_from-chosen : yield_from i s ≡ chosen (successor queue i)
  unfolding yield_from
  yield_from-chosen =
      ap (λ ts. dispatch i s ts (pick ts i s.head)) park-parked
      ∙ ap (dispatch i s parked) pick-successor
      ∙ dispatch-chosen (successor queue i)

  abbrev resumed : ℕ → ℕ → Option ℕ → Scheduler
  resumed n t c = record s {
    tasks = update parked n (record (parked n) { state = running; timeslice = t });
    current = c;
    requested = false;
  }

  nexts-resumed : (n t : ℕ) (c : Option ℕ) → nexts (resumed n t c).tasks ≡ nexts parked
  nexts-resumed n t c = fun_ext λ k. elim (Bool-cases (n == k)) [
    | inl e ↦ rw (e, nexts) (ap (nexts parked) (let q : n ≡ k = ground arith in q))
    | inr e ↦ rw (e, nexts)
  ]

  pid-parked : (k : ℕ) → (parked k).pid ≡ (s.tasks k).pid
  pid-parked k = elim (Bool-cases (i == k)) [
    | inl e ↦ rw e (ap (λ t. (s.tasks t).pid) (let q : i ≡ k = ground arith in q))
    | inr e ↦ rw e
  ]

  pid-resumed : (n t : ℕ) (c : Option ℕ) (k : ℕ) → ((resumed n t c).tasks k).pid ≡ (parked k).pid
  pid-resumed n t c k = elim (Bool-cases (n == k)) [
    | inl e ↦ rw e (ap (λ t. (parked t).pid) (let q : n ≡ k = ground arith in q))
    | inr e ↦ rw e
  ]

  resumed-IsValid :
      (n t : ℕ) (c : Option ℕ) → elem n queue ≡ true → c ≡ some n → IsValid (resumed n t c) queue
  resumed-IsValid n t c m e = record {
    linked = subst (λ f. Chain f s.head queue) (sym (nexts-resumed n t c)) linked-parked;
    rising = v.rising;
    capacity = v.capacity;
    counted = v.counted;
    numbered = λ k h. pid-resumed n t c k ∙ pid-parked k ∙ v.numbered k h;
    states = λ k h.
        subst (λ d. ((resumed n t c).tasks k).state ≡ (if same_slot d k then running else ready))
          (sym e) (state_now k h);
    present = λ k h. let q : n ≡ k = cc in subst (λ j. elem j queue ≡ true) q m;
  }
    where
      state_now :
          (k : ℕ)
          → elem k queue ≡ true
          → ((resumed n t c).tasks k).state ≡ (if n == k then running else ready)
      state_now k h = elim (Bool-cases (n == k)) [ inl q ↦ rw q | inr q ↦ rw q (all_ready k h) ]

  chosen-Yields :
      (n : ℕ) → elem n queue ≡ true → n ≡ successor queue i → Yields s queue i (chosen n)
  chosen-Yields n m e = elim (Bool-cases (n == i)) [
    | inl q ↦
        let w : n ≡ i = ground arith in
        rw q (record {
          turn = cur ∙ ap some (sym w ∙ e);
          keeps = resumed-IsValid i (parked i).timeslice s.current member cur;
          switches = rw (← e, q);
        })
    | inr q ↦ rw q (record {
      turn = ap some e;
      keeps = resumed-IsValid n 20 (some n) m refl;
      switches = rw (← e, q);
    })
  ]

  -- A yield passes the processor to the task whose turn it is, round the queue in its order: that task
  -- becomes the one that is running, the context is switched to it unless it is the same task, and the
  -- invariant holds.
  pub task_yield-Yields : Yields s queue i (task_yield s)
  task_yield-Yields =
      subst (Yields s queue i) (sym (task_yield-yield_from ∙ yield_from-chosen))
        (chosen-Yields (successor queue i) successor_member refl)
    where
      head_some :
          (q : List ℕ)
          → elem i q ≡ true
          → Chain (nexts s.tasks) s.head q
          → (h : ℕ) × (s.head ≡ some h)
      head_some [] m c = absurd (cc)
      head_some (x ∷ xs) m c = (x, c.0)

      task_yield-yield_from : task_yield s ≡ yield_from i s
      task_yield-yield_from =
          yields_some s i (head_some queue member v.linked).0 cur
            (head_some queue member v.linked).1
