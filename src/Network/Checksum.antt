-- ===== src/Network/Checksum.antt =====
-- The checksum of the IP headers that src/network.c writes.
use a_lightweight_os.Base.{
  ℕ, zero, suc, ◌+◌, ◌-◌, ◌*◌, ◌/◌, ◌%◌, ◌^◌, ◌≤◌, ◌<◌, ◌≡◌, ◌↔◌, refl, sym, ap, ◌∙◌, false, [],
  ◌∷◌, ltb, ◌==◌, if◌then◌else◌, arith, Bool-cases, inl, inr, u8, u16,
}
use a_lightweight_os.Network.{
  sum_pairs, fold_carry, checksum16, put_bytes, put_ip, ip_fields, write_ip_header,
}

-- The checksum of bytes with this sum.
abbrev of_sum : ℕ → ℕ
of_sum s = 65535 - u16 (fold_carry 2 (s % 2 ^ 32))

fold_small :
    (s : ℕ)
    → s < 786420
    → s / 65536 + s % 65536 < 65536
    → of_sum s ≡ 65535 - (s / 65536 + s % 65536)
unfolding fold_carry
fold_small s m t =
    let z : s % 2 ^ 32 ≡ s = omega arith in
    let u : (s % 65536 + s / 65536) / 65536 ≡ 0 = omega arith in rw (z, u) (ground arith)

fold_large :
    (s : ℕ)
    → s < 786420
    → 65536 ≤ s / 65536 + s % 65536
    → of_sum s ≡ 131070 - (s / 65536 + s % 65536)
unfolding fold_carry
fold_large s m t =
    let z : s % 2 ^ 32 ≡ s = omega arith in
    let u : (s % 65536 + s / 65536) / 65536 ≡ 1 = omega arith in
    let v : (s / 65536 == 0) ≡ false = ground arith in rw (z, v, u) (omega arith)

-- A sum of ten words and its checksum make a multiple of 65535.
fold_lem :
    (s : ℕ)
    → 1 ≤ s
    → s < 786420
    → (q : ℕ) × (of_sum s + s ≡ q * 65535) × (of_sum s < 65535) × (1 ≤ q)
fold_lem s l m = elim (Bool-cases (ltb (s / 65536 + s % 65536) 65536)) [
  | inl e ↦
      let g : s / 65536 + s % 65536 < 65536 = ground arith in
      let f = fold_small s m g in (s / 65536 + 1, omega arith, omega arith, omega arith)
  | inr e ↦
      let f = fold_large s m (ground arith) in
      let g : 65536 ≤ s / 65536 + s % 65536 = ground arith in
      (s / 65536 + 2, omega arith, omega arith, omega arith)
]

of_sum-multiple : (q s : ℕ) → 1 ≤ q → s < 786420 → s ≡ q * 65535 → of_sum s ≡ 0
of_sum-multiple q s l m e = let f = fold_small s m (omega arith) in omega arith

-- The sum with another value of 16 bits in place of the checksum verifies only for the checksum.
verifies : (s c : ℕ) → 1 ≤ s → s < 655360 → c < 65535 → (of_sum (s + c) ≡ 0) ↔ (c ≡ of_sum s)
verifies s c l m w =
    let f = fold_lem s l (omega arith) in
    let f1 = f.1 in
    let f2 = f.2 in
    let f3 = f.3 in
    (
      λ e.
          let g = fold_lem (s + c) (omega arith) (omega arith) in
          let g1 = g.1 in let g3 = g.3 in omega arith,
      λ e. of_sum-multiple f.0 (s + c) f3 (omega arith) (omega arith),
    )

abbrev pub swapped : (ℕ → ℕ) → ℕ → ℕ
swapped h i = if i == 10 then h 11 else if i == 11 then h 10 else h i

-- The sum of a header without a checksum and that with one.
sum_with :
    (w : ℕ → ℕ) (x y : ℕ)
    → w 10 ≡ 0
    → w 11 ≡ 0
    → (sum_pairs (put_bytes 10 (x ∷ y ∷ []) w) 0 20 ≡ sum_pairs w 0 20 + (x + y * 256))
      × (sum_pairs (swapped (put_bytes 10 (x ∷ y ∷ []) w)) 0 20 ≡ sum_pairs w 0 20 + (y + x * 256))
unfolding sum_pairs put_bytes
sum_with w x y e f = (omega arith, omega arith)

sum_pairs_bound :
    (w : ℕ → ℕ) (n i : ℕ) → ((k : ℕ) → k < i + n → w k < 256) → sum_pairs w i n * 2 ≤ n * 65535
unfolding sum_pairs
sum_pairs_bound w zero i h = omega arith
sum_pairs_bound w (suc zero) i h = let a = h i (omega arith) in omega arith
sum_pairs_bound w (suc (suc n)) i h =
    let a = h i (omega arith) in
    let b = h (i + 1) (omega arith) in
    let r = sum_pairs_bound w n (i + 2) (λ k l. h k (omega arith)) in omega arith

sum_positive : (w : ℕ → ℕ) → w 0 ≡ 0x45 → 1 ≤ sum_pairs w 0 20
unfolding sum_pairs
sum_positive w e = omega arith

of_bytes : (w : ℕ → ℕ) (s : ℕ) → sum_pairs w 0 20 ≡ s → checksum16 w 20 ≡ of_sum s
unfolding checksum16
of_bytes w s e = ap of_sum e

-- The two bytes of a checksum behind a header of bytes that starts with 0x45 and has zeros in their place.
written :
    (w : ℕ → ℕ)
    → w 0 ≡ 0x45
    → w 10 ≡ 0
    → w 11 ≡ 0
    → ((k : ℕ) → k < 20 → w k < 256)
    → let c = checksum16 w 20 in
      let h = put_bytes 10 (u8 (c / 256) ∷ u8 c ∷ []) w in
      (checksum16 (swapped h) 20 ≡ 0) × ((checksum16 h 20 ≡ 0) ↔ (h 10 ≡ h 11))
unfolding put_bytes
written w e0 e10 e11 b =
    let s = sum_pairs w 0 20 in
    let low = sum_positive w e0 in
    let high = sum_pairs_bound w 20 0 b in
    let small = (fold_lem s low (omega arith)).2 in
    let q = of_bytes w s refl in
    let c = checksum16 w 20 in
    let t = sum_with w (u8 (c / 256)) (u8 c) e10 e11 in
    let v = verifies s (u8 c + u8 (c / 256) * 256) low (omega arith) (omega arith) in
    let u = verifies s (u8 (c / 256) + u8 c * 256) low (omega arith) (omega arith) in
    let h = put_bytes 10 (u8 (c / 256) ∷ u8 c ∷ []) w in
    let x = of_bytes h _ t.0 in
    (
      of_bytes (swapped h) _ t.1 ∙ v.1 (omega arith),
      (λ z. let y = u.0 (sym x ∙ z) in omega arith, λ z. x ∙ u.1 (omega arith)),
    )

fields_start :
    (total_length protocol src_ip dest_ip : ℕ) (b : ℕ → ℕ)
    → let w = ip_fields total_length protocol src_ip dest_ip b in
      (w 0 ≡ 0x45) × (w 10 ≡ 0) × (w 11 ≡ 0)
unfolding ip_fields put_ip put_bytes
fields_start total_length protocol src_ip dest_ip b = (refl, refl, refl)

fields_bytes :
    (total_length protocol src_ip dest_ip : ℕ) (b : ℕ → ℕ) (k : ℕ)
    → protocol < 256
    → k < 20
    → ip_fields total_length protocol src_ip dest_ip b k < 256
unfolding ip_fields put_ip put_bytes
fields_bytes total_length protocol src_ip dest_ip b k l m = ground arith

-- The checksum of every IP header that is written goes out with its bytes exchanged: with the two bytes put back the
-- header verifies, and as it is sent it verifies only if the two bytes are equal. The protocol is a
-- byte; the lengths and the addresses are any.
pub write_ip_header-checksum :
    (total_length protocol src_ip dest_ip : ℕ) (b : ℕ → ℕ)
    → protocol < 256
    → let h = write_ip_header total_length protocol src_ip dest_ip b in
      (checksum16 (swapped h) 20 ≡ 0) × ((checksum16 h 20 ≡ 0) ↔ (h 10 ≡ h 11))
unfolding write_ip_header
write_ip_header-checksum total_length protocol src_ip dest_ip b l =
    let w = ip_fields total_length protocol src_ip dest_ip b in
    let f = fields_start total_length protocol src_ip dest_ip b in
    written w f.0 f.1 f.2 (λ k m. fields_bytes total_length protocol src_ip dest_ip b k l m)
