-- ===== src/Windows/Order.antt =====
-- The order of the windows of src/window_manager.c from back to front.
use a_lightweight_os.Base.{
  ℕ, zero, suc, ◌+◌, ◌-◌, ◌<◌, ◌≤◌, ◌≡◌, ◌≢◌, refl, sym, ◌∙◌, inl, inr, Bool, true, false, some,
  ltb, ◌==◌, if◌then◌else◌, arith, ap, subst, Bool-cases, ==_refl,
}
use a_lightweight_os.Windows.{
  Window, Manager, max_windows, sink, lift, sink_all, lift_all, raise_at, lower_at,
}

abbrev pub level : Manager → ℕ → ℕ
level m i = (m.windows i).z_order

-- The windows have the levels 0, 1, ... up to their number, each its own.
pub record IsStack (m : Manager) : Type 0 where
  pub capacity : m.window_count ≤ max_windows
  pub bounded : (i : ℕ) → i < m.window_count → level m i < m.window_count
  pub distinct : (i j : ℕ) → i < m.window_count → j < m.window_count → level m i ≡ level m j → i ≡ j

sink_self : (w : Window) → sink w.z_order w ≡ w
unfolding sink
sink_self w = let e : ltb w.z_order w.z_order ≡ false = ground arith in rw e refl

lift_self : (w : Window) → lift w.z_order w ≡ w
unfolding lift
lift_self w = let e : ltb w.z_order w.z_order ≡ false = ground arith in rw e refl

if_same : {A : Type 0} (b : Bool) (x y : A) → x ≡ y → (if b then x else y) ≡ y
if_same true x y e = e
if_same false x y e = refl

-- Each window sinks by the level that window `i` has before the loop.
sink_all-at :
    (i n : ℕ) (ws : ℕ → Window) (k : ℕ)
    → sink_all i n ws k ≡ (if ltb k n then sink (ws i).z_order (ws k) else ws k)
unfolding sink_all
sink_all-at i zero ws k = let e : ltb k 0 ≡ false = ground arith in rw e refl
sink_all-at i (suc n) ws k =
    let own : sink_all i n ws i ≡ ws i =
      sink_all-at i n ws i ∙ if_same (ltb i n) _ _ (sink_self (ws i)) in
    let next : sink_all i n ws n ≡ ws n =
      sink_all-at i n ws n ∙ (let e : ltb n n ≡ false = ground arith in rw e refl) in
    elim (Bool-cases (n == k)) [
      | inl e ↦
          let z : n ≡ k = ground arith in
          let t : ltb k (suc n) ≡ true = ground arith in
          rw (e, t)
            (ap (λ w. sink w.z_order (sink_all i n ws n)) own
              ∙ ap (sink (ws i).z_order) (next ∙ ap ws z))
      | inr e ↦ let t : ltb k (suc n) ≡ ltb k n = ground arith in rw (e, t) (sink_all-at i n ws k)
    ]

lift_all-at :
    (i n : ℕ) (ws : ℕ → Window) (k : ℕ)
    → lift_all i n ws k ≡ (if ltb k n then lift (ws i).z_order (ws k) else ws k)
unfolding lift_all
lift_all-at i zero ws k = let e : ltb k 0 ≡ false = ground arith in rw e refl
lift_all-at i (suc n) ws k =
    let own : lift_all i n ws i ≡ ws i =
      lift_all-at i n ws i ∙ if_same (ltb i n) _ _ (lift_self (ws i)) in
    let next : lift_all i n ws n ≡ ws n =
      lift_all-at i n ws n ∙ (let e : ltb n n ≡ false = ground arith in rw e refl) in
    elim (Bool-cases (n == k)) [
      | inl e ↦
          let z : n ≡ k = ground arith in
          let t : ltb k (suc n) ≡ true = ground arith in
          rw (e, t)
            (ap (λ w. lift w.z_order (lift_all i n ws n)) own
              ∙ ap (lift (ws i).z_order) (next ∙ ap ws z))
      | inr e ↦ let t : ltb k (suc n) ≡ ltb k n = ground arith in rw (e, t) (lift_all-at i n ws k)
    ]

-- The levels after window `i` is raised or lowered.
abbrev raised_level : Manager → ℕ → ℕ → ℕ
raised_level m i k =
    if i == k
    then m.window_count - 1
    else if ltb (level m i) (level m k)
    then level m k - 1
    else level m k

abbrev lowered_level : Manager → ℕ → ℕ → ℕ
lowered_level m i k =
    if i == k then 0 else if ltb (level m k) (level m i) then level m k + 1 else level m k

level-raise_at :
    (m : Manager) (i k : ℕ)
    → k < m.window_count
    → level (raise_at (some i) m) k ≡ raised_level m i k
unfolding raise_at sink
level-raise_at m i k l = elim (Bool-cases (i == k)) [
  | inl e ↦ rw (e, level) refl
  | inr e ↦
      let t : ltb k m.window_count ≡ true = ground arith in
      let s : sink_all i m.window_count m.windows k ≡ sink (level m i) (m.windows k) =
        sink_all-at i m.window_count m.windows k ∙ rw t refl in
      rw (e, level) (ap (λ (w : Window). w.z_order) s ∙ split (ltb (level m i) (level m k)) refl)
]
  where
    split :
        (b : Bool)
        → ltb (level m i) (level m k) ≡ b
        → (sink (level m i) (m.windows k)).z_order ≡ (if b then level m k - 1 else level m k)
    split true e = rw e refl
    split false e = rw e refl

level-lower_at :
    (m : Manager) (i k : ℕ)
    → k < m.window_count
    → level (lower_at (some i) m) k ≡ lowered_level m i k
unfolding lower_at lift
level-lower_at m i k l = elim (Bool-cases (i == k)) [
  | inl e ↦ rw (e, level) refl
  | inr e ↦
      let t : ltb k m.window_count ≡ true = ground arith in
      let s : lift_all i m.window_count m.windows k ≡ lift (level m i) (m.windows k) =
        lift_all-at i m.window_count m.windows k ∙ rw t refl in
      rw (e, level) (ap (λ (w : Window). w.z_order) s ∙ split (ltb (level m k) (level m i)) refl)
]
  where
    split :
        (b : Bool)
        → ltb (level m k) (level m i) ≡ b
        → (lift (level m i) (m.windows k)).z_order ≡ (if b then level m k + 1 else level m k)
    split true e = rw e refl
    split false e = rw e refl

-- Window `i` comes to the level `top`, and the others keep their order among each other.
pub record Moves (m m' : Manager) (i top : ℕ) : Type 0 where
  pub stack : IsStack m'
  pub number : m'.window_count ≡ m.window_count
  pub place : level m' i ≡ top
  pub order :
      (j k : ℕ)
      → j < m.window_count
      → k < m.window_count
      → i ≢ j
      → i ≢ k
      → level m j < level m k
      → level m' j < level m' k

pub raise_at-Moves :
    (m : Manager) (i : ℕ)
    → IsStack m
    → i < m.window_count
    → Moves m (raise_at (some i) m) i (m.window_count - 1)
unfolding raise_at
raise_at-Moves m i v l = record {
  stack = record {
    capacity = v.capacity;
    bounded = λ k b.
        let e = level-raise_at m i k b in
        let h = v.bounded k b in
        let g = v.bounded i l in subst (λ t. t < m.window_count) (sym e) (ground arith);
    distinct = λ j k a b e.
        let d : raised_level m i j ≡ raised_level m i k =
          sym (level-raise_at m i j a) ∙ e ∙ level-raise_at m i k b in
        apart j k a b d;
  };
  number = refl;
  place = level-raise_at m i i l ∙ rw (==_refl i) refl;
  order = λ j k a b n o h.
      subst (λ t. t < level (raise_at (some i) m) k) (sym (level-raise_at m i j a))
        (subst (λ t. raised_level m i j < t) (sym (level-raise_at m i k b)) (kept j k a b n o h));
}
  where
    apart :
        (j k : ℕ)
        → j < m.window_count
        → k < m.window_count
        → raised_level m i j ≡ raised_level m i k
        → j ≡ k
    apart j k a b d =
        let ij = v.distinct i j l a in
        let ik = v.distinct i k l b in
        let jk = v.distinct j k a b in
        let bi = v.bounded i l in let bj = v.bounded j a in let bk = v.bounded k b in ground arith

    kept :
        (j k : ℕ)
        → j < m.window_count
        → k < m.window_count
        → i ≢ j
        → i ≢ k
        → level m j < level m k
        → raised_level m i j < raised_level m i k
    kept j k a b n o h = let ij = v.distinct i j l a in let ik = v.distinct i k l b in ground arith

pub lower_at-Moves :
    (m : Manager) (i : ℕ) → IsStack m → i < m.window_count → Moves m (lower_at (some i) m) i 0
unfolding lower_at
lower_at-Moves m i v l = record {
  stack = record {
    capacity = v.capacity;
    bounded = λ k b.
        let e = level-lower_at m i k b in
        let h = v.bounded k b in
        let g = v.bounded i l in subst (λ t. t < m.window_count) (sym e) (ground arith);
    distinct = λ j k a b e.
        let d : lowered_level m i j ≡ lowered_level m i k =
          sym (level-lower_at m i j a) ∙ e ∙ level-lower_at m i k b in
        apart j k a b d;
  };
  number = refl;
  place = level-lower_at m i i l ∙ rw (==_refl i) refl;
  order = λ j k a b n o h.
      subst (λ t. t < level (lower_at (some i) m) k) (sym (level-lower_at m i j a))
        (subst (λ t. lowered_level m i j < t) (sym (level-lower_at m i k b)) (kept j k a b n o h));
}
  where
    apart :
        (j k : ℕ)
        → j < m.window_count
        → k < m.window_count
        → lowered_level m i j ≡ lowered_level m i k
        → j ≡ k
    apart j k a b d =
        let ij = v.distinct i j l a in
        let ik = v.distinct i k l b in
        let jk = v.distinct j k a b in
        let bi = v.bounded i l in let bj = v.bounded j a in let bk = v.bounded k b in ground arith

    kept :
        (j k : ℕ)
        → j < m.window_count
        → k < m.window_count
        → i ≢ j
        → i ≢ k
        → level m j < level m k
        → lowered_level m i j < lowered_level m i k
    kept j k a b n o h = let ij = v.distinct i j l a in let ik = v.distinct i k l b in ground arith
