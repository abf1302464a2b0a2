-- ===== src/Vga/Screen.antt =====
-- What scrolling does to the text screen of src/vga.c.
use a_lightweight_os.Base.{
  ℕ, zero, suc, ◌+◌, ◌*◌, ◌≤◌, ◌≡◌, refl, ◌∙◌, inl, inr, true, false, ◌&&◌, leb, ltb, ◌==◌,
  if◌then◌else◌, update, for_up, arith, Bool-cases,
}
use a_lightweight_os.Vga.{Vga, copy_row, clear_screen, scroll_down, write_char, cell, blank}

-- The first `n` cells of row `y` are those of the next row.
copy_cells :
    (n y k : ℕ) (m : ℕ → ℕ)
    → n ≤ 80
    → for_up n (λ x m. update m (y * 80 + x) (m ((y + 1) * 80 + x))) m k
      ≡ (if leb (y * 80) k && ltb k (y * 80 + n) then m (k + 80) else m k)
copy_cells zero y k m l = ground arith
copy_cells (suc n) y k m l = elim (Bool-cases (y * 80 + n == k)) [
  | inl e ↦
      let z : (y + 1) * 80 + n ≡ k + 80 = ground (arith, e) in
      let o : (leb (y * 80) (k + 80) && ltb (k + 80) (y * 80 + n)) ≡ false = ground (arith, e, l) in
      let i : (leb (y * 80) k && ltb k (y * 80 + suc n)) ≡ true = ground (arith, e) in
      rw (e, i, z) (copy_cells n y (k + 80) m (omega arith) ∙ rw o refl)
  | inr e ↦
      let i : (leb (y * 80) k && ltb k (y * 80 + suc n)) ≡ (leb (y * 80) k && ltb k (y * 80 + n)) =
        ground (arith, e) in
      rw (e, i) (copy_cells n y k m (omega arith))
]

-- The rows before a row, and the row.
join_rows :
    (n k a b x y z : ℕ)
    → a ≡ (if ltb (k + 80) (n * 80) then x else y)
    → b ≡ (if ltb k (n * 80) then y else z)
    → (if leb (n * 80) k && ltb k (n * 80 + 80) then a else b)
      ≡ (if ltb k (suc n * 80) then y else z)
join_rows n k a b x y z e f = ground (arith, e, f)

copy_rows :
    (n k : ℕ) (m : ℕ → ℕ) → for_up n copy_row m k ≡ (if ltb k (n * 80) then m (k + 80) else m k)
unfolding copy_row
copy_rows zero k m = let e : ltb k (0 * 80) ≡ false = ground arith in rw e refl
copy_rows (suc n) k m =
    let a = copy_cells 80 n k (for_up n copy_row m) (omega arith) in
    let b = copy_rows n k m in
    let c = copy_rows n (k + 80) m in a ∙ join_rows n k _ _ (m (k + 80 + 80)) (m (k + 80)) (m k) c b

-- A run of cells gets a value.
fill_cells :
    (n base c k : ℕ) (m : ℕ → ℕ)
    → for_up n (λ x m. update m (base + x) c) m k
      ≡ (if leb base k && ltb k (base + n) then c else m k)
fill_cells zero base c k m = ground arith
fill_cells (suc n) base c k m = ground (arith, fill_cells n base c k m)

fill_rows :
    (n c k : ℕ) (m : ℕ → ℕ)
    → for_up n (λ y m. for_up 80 (λ x m. update m (y * 80 + x) c) m) m k
      ≡ (if ltb k (n * 80) then c else m k)
fill_rows zero c k m = ground arith
fill_rows (suc n) c k m =
    let a =
      fill_cells 80 (n * 80) c k
        (for_up n (λ y m. for_up 80 (λ x m. update m (y * 80 + x) c) m) m) in
    let b = fill_rows n c k m in
    a
    ∙ join_rows n k c _ c c (m k)
        (let e : c ≡ (if ltb (k + 80) (n * 80) then c else c) = ground arith in e) b

-- Clearing the screen makes each of its 2000 cells blank; scrolling moves each cell one row up and makes
-- the last row blank; writing a character changes the cell at its place alone, and that one only on the
-- screen. No operation touches a cell behind the screen.
screen_cells :
    (v : Vga) (x y c color k : ℕ)
    → ((clear_screen v).vram k ≡ (if ltb k 2000 then blank v else v.vram k))
      × ((scroll_down v).vram k
          ≡ (if ltb k 1920 then v.vram (k + 80) else if ltb k 2000 then blank v else v.vram k))
      × ((write_char x y c color v).vram k
          ≡ (if ltb x 80 && ltb y 25 && (k == y * 80 + x) then cell c color else v.vram k))
unfolding clear_screen scroll_down write_char
screen_cells v x y c color k = (
  fill_rows 25 (blank v) k v.vram,
  fill_cells 80 1920 (blank v) k (for_up 24 copy_row v.vram)
      ∙ last_row k _ (blank v) (v.vram (k + 80)) (v.vram k) (copy_rows 24 k v.vram),
  ground arith,
)
  where
    last_row :
        (k b c y z : ℕ)
        → b ≡ (if ltb k 1920 then y else z)
        → (if leb 1920 k && ltb k 2000 then c else b)
          ≡ (if ltb k 1920 then y else if ltb k 2000 then c else z)
    last_row k b c y z e = ground (arith, e)
