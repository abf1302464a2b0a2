-- ===== src/Scheduler/Stall.antt =====
-- src/scheduler.c: what is left when the current task is killed or exits.
use a_lightweight_os.Base.{
  ℕ, zero, suc, ◌+◌, ◌≡◌, refl, ◌∙◌, none, some, List, if◌then◌else◌, ap, ==_refl,
}
use a_lightweight_os.Scheduler.{Scheduler, same_slot, kill_task, task_yield}
use a_lightweight_os.Scheduler.Chains.{without}
use a_lightweight_os.Scheduler.Valid.{IsValid}
use a_lightweight_os.Scheduler.Kill.{kill_task-Kills}
use a_lightweight_os.Scheduler.Yield.{task_yield-none}

-- `n` yields in a row.
abbrev pub yields : ℕ → Scheduler → Scheduler
yields zero s = s
yields (suc n) s = yields n (task_yield s).0

yields-none : (n : ℕ) (s : Scheduler) → s.current ≡ none → yields n s ≡ s
yields-none zero s c = refl
yields-none (suc n) s c = ap (λ r. yields n r.0) (task_yield-none s c) ∙ yields-none n s c

-- Once the current task is killed, the other tasks stay queued and the invariant holds, but no task is
-- current and no number of yields changes the scheduler any more.
pub kill_task-stalls :
    (s : Scheduler) (queue : List ℕ) (i n : ℕ)
    → IsValid s queue
    → s.current ≡ some i
    → let k = (kill_task (i + 1) s).0 in
      (k.current ≡ none) × IsValid k (without i queue) × (yields n k ≡ k)
kill_task-stalls s queue i n v c =
    let r = (kill_task-Kills (i + 1) s queue v).removes i (v.present i c) refl in
    let idle =
      r.3
      ∙ ap (λ o. if same_slot o i then none else o) c
      ∙ ap (λ b. if b then none else some i) (==_refl i) in
    (idle, r.1, yields-none n (kill_task (i + 1) s).0 idle)
