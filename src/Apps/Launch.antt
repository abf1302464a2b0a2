-- ===== src/Apps/Launch.antt =====
-- Launching an application of src/app_launcher.c.
use a_lightweight_os.Base.{
  ℕ, zero, suc, ◌+◌, ◌<◌, ◌≤◌, ◌≡◌, refl, inl, inr, Bool, true, false, Option, some, List, ◌==◌,
  if◌then◌else◌, arith, subst, Bool-cases, ==_refl,
}
use a_lightweight_os.Files.{strings_equal}
use a_lightweight_os.Scheduler.{Scheduler, create_task}
use a_lightweight_os.Apps.{Launcher, mark_running, start, launch_from, launch}

abbrev pub Outcome : Type 0
Outcome = Launcher × Scheduler × Option ℕ

abbrev pub named : List ℕ → Launcher → ℕ → Bool
named name l k = strings_equal (some (l.apps k).name) (some name)

-- Application `i` is the first of the registry under the name.
pub record IsFirst (name : List ℕ) (l : Launcher) (i : ℕ) : Type 0 where
  pub registered : i < l.app_count
  pub hit : named name l i ≡ true
  pub before : (k : ℕ) → k < i → named name l k ≡ false

module _ (stacks wrapper : ℕ) (name : List ℕ) where
  abbrev at_app : ℕ → Launcher → Scheduler → (Scheduler → Outcome) → Outcome
  at_app i l s rest =
      if (l.apps i).running_now
      then (l, s, some (l.apps i).pid)
      else start stacks wrapper i l (create_task stacks wrapper (some name) (l.apps i).entry 1 s)
          rest

  -- The loop comes to the first application under the name.
  launch_from-at_app :
      (n i j : ℕ) (l : Launcher) (s : Scheduler) (r : Outcome)
      → IsFirst name l i
      → j ≤ i
      → i < j + n
      → ((rest : Scheduler → Outcome) → at_app i l s rest ≡ r)
      → launch_from stacks wrapper name n j l s ≡ r
  unfolding launch_from
  launch_from-at_app zero i j l s r f a b h = absurd (omega arith)
  launch_from-at_app (suc n) i j l s r f a b h = elim (Bool-cases (j == i)) [
    | inl e ↦
        let z : i ≡ j = ground arith in
        let m : named name l j ≡ true = subst (λ t. named name l t ≡ true) z f.hit in
        rw m (
          subst (λ t. at_app t l s (launch_from stacks wrapper name n (j + 1) l) ≡ r) z
            (h (launch_from stacks wrapper name n (j + 1) l)))
    | inr e ↦
        rw (f.before j (ground arith))
          (launch_from-at_app n i (j + 1) l s r f (ground arith) (omega arith) h)
  ]

  marked-IsFirst : (l : Launcher) (i p : ℕ) → IsFirst name l i → IsFirst name (mark_running i p l) i
  unfolding mark_running
  marked-IsFirst l i p f = record {
    registered = f.registered;
    hit = rw (==_refl i) f.hit;
    before = λ k b. let e : (i == k) ≡ false = ground arith in rw e (f.before k b);
  }

  again :
      (l : Launcher) (s : Scheduler) (i p : ℕ) (rest : Scheduler → Outcome)
      → at_app i (mark_running i p l) s rest ≡ (mark_running i p l, s, some p)
  unfolding mark_running
  again l s i p rest = rw (==_refl i) refl

  -- Launching an application that does not run, while the scheduler has room, makes a task for it,
  -- gives the task's pid and marks the application; launching it again gives the same pid and changes
  -- neither the registry nor the scheduler.
  launch-twice :
      (l : Launcher) (s s' : Scheduler) (i t : ℕ)
      → IsFirst name l i
      → (l.apps i).running_now ≡ false
      → create_task stacks wrapper (some name) (l.apps i).entry 1 s ≡ (s', some t)
      → let l' = mark_running i (s'.tasks t).pid l in
        (launch stacks wrapper (some name) l s ≡ (l', s', some (s'.tasks t).pid))
        × (launch stacks wrapper (some name) l' s' ≡ (l', s', some (s'.tasks t).pid))
  unfolding launch start
  launch-twice l s s' i t f u c = (
    launch_from-at_app l.app_count i 0 l s _ f (omega arith) (let b = f.registered in omega arith)
        (λ rest. rw (u, c) refl),
    launch_from-at_app l.app_count i 0 (mark_running i (s'.tasks t).pid l) s' _
        (marked-IsFirst l i (s'.tasks t).pid f) (omega arith) (let b = f.registered in omega arith)
        (again l s' i (s'.tasks t).pid),
  )
