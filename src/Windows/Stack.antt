-- ===== src/Windows/Stack.antt =====
-- The operations of src/window_manager.c on the stack of windows.
use a_lightweight_os.Base.{
  ℕ, ◌-◌, ◌<◌, ◌≡◌, ◌≢◌, refl, sym, inl, inr, false, Option, none, some, List, leb, ◌==◌, arith, ap,
  subst, Bool-cases, ==_refl, First, find_first-First, ℤ, if_cases,
}
use a_lightweight_os.Windows.{
  Manager, max_windows, create_window, has_id, find_window, raise_at, raise_window, lower_at,
  lower_window, set_focus, focus_at,
}
use a_lightweight_os.Windows.Order.{IsStack, Moves, level, raise_at-Moves, lower_at-Moves}

-- What raising or lowering the window that was found does.
abbrev pub Moved : Option ℕ → Manager → Manager → ℕ → Type 0
Moved none m m' top = m' ≡ m
Moved (some i) m m' top = Moves m m' i top

found_bound : (id : ℕ) (m : Manager) (i : ℕ) → find_window id m ≡ some i → i < m.window_count
unfolding find_window
found_bound id m i e =
    let b =
      (subst (First (has_id m.windows id) m.window_count 0) e
        (find_first-First (has_id m.windows id) m.window_count 0)).1 in
    omega (arith, b)

-- Raising a window brings it to the front and keeps the levels distinct and the order of the others;
-- an unknown id changes nothing.
pub raise_window-Moved :
    (id : ℕ) (m : Manager)
    → IsStack m
    → Moved (find_window id m) m (raise_window id m) (m.window_count - 1)
unfolding raise_window
raise_window-Moved id m v = go (find_window id m) refl
  where
    go : (o : Option ℕ) → find_window id m ≡ o → Moved o m (raise_at o m) (m.window_count - 1)
    go none e = unfold raise_at in refl
    go (some i) e = raise_at-Moves m i v (found_bound id m i e)

-- Lowering a window brings it to the back and keeps the levels distinct and the order of the others; an
-- unknown id changes nothing.
lower_window-Moved :
    (id : ℕ) (m : Manager) → IsStack m → Moved (find_window id m) m (lower_window id m) 0
unfolding lower_window
lower_window-Moved id m v = go (find_window id m) refl
  where
    go : (o : Option ℕ) → find_window id m ≡ o → Moved o m (lower_at o m) 0
    go none e = unfold lower_at in refl
    go (some i) e = lower_at-Moves m i v (found_bound id m i e)

-- A new window keeps the levels distinct; where the table is full nothing changes.
pub create_window-IsStack :
    (x y width height : ℤ) (title : Option (List ℕ)) (m : Manager)
    → IsStack m
    → IsStack (create_window x y width height title m)
unfolding create_window
create_window-IsStack x y width height title m v =
    if_cases IsStack (leb max_windows m.window_count) m _ (λ _. v)
      (λ e. record {
        capacity = ground arith;
        bounded = λ i l. elim (Bool-cases (m.window_count == i)) [
          | inl q ↦ rw (q, level) (omega arith)
          | inr q ↦ rw (q, level) (let h = v.bounded i (ground arith) in omega arith)
        ];
        distinct = λ i j a b. elim (Bool-cases (m.window_count == i)) [
          | inl p ↦ elim (Bool-cases (m.window_count == j)) [
            | inl q ↦ λ _. ground arith
            | inr q ↦
                rw (p, q, level) (λ h. absurd (let k = v.bounded j (ground arith) in omega arith))
          ]
          | inr p ↦ elim (Bool-cases (m.window_count == j)) [
            | inl q ↦
                rw (p, q, level) (λ h. absurd (let k = v.bounded i (ground arith) in omega arith))
            | inr q ↦ rw (p, q, level) (v.distinct i j (ground arith) (ground arith))
          ]
        ];
      })

-- Setting the focus to a window that is not in front gives it the level of the one that is, so that two
-- windows share the top level.
set_focus-shared :
    (id : ℕ) (m : Manager) (i j : ℕ)
    → find_window id m ≡ some i
    → i ≢ j
    → level m j ≡ m.window_count - 1
    → level (set_focus id m) i ≡ level (set_focus id m) j
unfolding set_focus focus_at
set_focus-shared id m i j e n t =
    let s : set_focus id m ≡ focus_at (some i) m = ap (λ o. focus_at o m) e in
    let d : (i == j) ≡ false = ground (arith, n) in
    subst (λ r. level r i ≡ level r j) (sym s) (rw (==_refl i, d, level) (sym t))
