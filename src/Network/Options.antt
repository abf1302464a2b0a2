-- ===== src/Network/Options.antt =====
-- The loop over the DHCP options of src/network.c: it ends, and it reads inside the message alone.
use a_lightweight_os.Base.{
  ℕ, zero, suc, ◌+◌, ◌-◌, ◌<◌, ◌≤◌, ◌≡◌, refl, ◌∙◌, Bool, true, false, ◌&&◌, leb, ltb, ◌==◌,
  if◌then◌else◌, arith, ap, Bool-cases, inl, inr,
}
use a_lightweight_os.Network.{
  Net, ip_pack, from_offset, apply_option, parse_from, parse_dhcp_options,
}

-- The body of one step, from the three results that it may go on with.
abbrev step : (ℕ → ℕ) → ℕ → ℕ → Net → Net → Net → Net
step o len offset n padded rest =
    if ltb len (offset + 2)
    then n
    else if o offset == 255
    then n
    else if o offset == 0
    then padded
    else if ltb len (offset + 2 + o (offset + 1))
    then n
    else rest

step_cases :
    (o : ℕ → ℕ) (len offset : ℕ) (n p p' r r' : Net)
    → (offset + 2 ≤ len → p ≡ p')
    → (offset + 2 + o (offset + 1) ≤ len → r ≡ r')
    → step o len offset n p r ≡ step o len offset n p' r'
step_cases o len offset n p p' r r' f g =
    go (ltb len (offset + 2)) (o offset == 255) (o offset == 0)
      (ltb len (offset + 2 + o (offset + 1))) (λ e. f (ground arith)) (λ e. g (ground arith))
  where
    go :
        (a b c d : Bool)
        → (a ≡ false → p ≡ p')
        → (d ≡ false → r ≡ r')
        → (if a then n else if b then n else if c then p else if d then n else r)
          ≡ (if a then n else if b then n else if c then p' else if d then n else r')
    go true b c d f g = refl
    go false true c d f g = refl
    go false false true d f g = f refl
    go false false false true f g = refl
    go false false false false f g = g refl

-- As many steps as there are bytes left are enough.
pub parse_from_enough :
    (fuel extra : ℕ) (o : ℕ → ℕ) (len offset : ℕ) (n : Net)
    → len ≤ offset + fuel
    → parse_from (fuel + extra) o len offset n ≡ parse_from fuel o len offset n
unfolding parse_from
parse_from_enough zero zero o len offset n l = refl
parse_from_enough zero (suc extra) o len offset n l =
    let z : zero + suc extra ≡ suc extra = omega arith in
    let e : ltb len (offset + 2) ≡ true = ground arith in
    ap (λ k. parse_from k o len offset n) z ∙ rw e refl
parse_from_enough (suc fuel) extra o len offset n l =
    let z : suc fuel + extra ≡ suc (fuel + extra) = omega arith in
    ap (λ k. parse_from k o len offset n) z
    ∙ step_cases o len offset n _ _ _ _
        (λ b. parse_from_enough fuel extra o len (offset + 1) n (omega arith))
        (λ b.
          parse_from_enough fuel extra o len (offset + 2 + o (offset + 1))
            (apply_option (o offset) (o (offset + 1)) (from_offset (offset + 2) o) n) (omega arith))

-- With one step for each byte of the message the loop has ended: more steps give the same.
parse_dhcp_options-parse_from :
    (fuel : ℕ) (o : ℕ → ℕ) (len : ℕ) (n : Net)
    → len ≤ fuel
    → parse_from fuel o len 0 n ≡ parse_dhcp_options o len n
unfolding parse_dhcp_options
parse_dhcp_options-parse_from fuel o len n l =
    let z : fuel ≡ len + (fuel - len) = omega arith in
    ap (λ k. parse_from k o len 0 n) z ∙ parse_from_enough len (fuel - len) o len 0 n (omega arith)

if_map :
    (b : Bool) (x x' y y' : Net)
    → (b ≡ true → x ≡ x')
    → y ≡ y'
    → (if b then x else y) ≡ (if b then x' else y')
if_map true x x' y y' f g = f refl
if_map false x x' y y' f g = g

apply_option_agree :
    (opt opt_len : ℕ) (v w : ℕ → ℕ) (n : Net)
    → ((k : ℕ) → k < opt_len → v k ≡ w k)
    → apply_option opt opt_len v n ≡ apply_option opt opt_len w n
unfolding apply_option ip_pack
apply_option_agree opt opt_len v w n h =
    if_map (opt == 53) _ _ _ _ (λ _. message)
      (if_map (opt == 1) _ _ _ _
        (λ _.
          if_map (opt_len == 4) _ _ _ _
            (λ e. ap (λ a. record n { local_netmask = a }) (packs (ground arith))) refl)
        (if_map (opt == 3) _ _ _ _
          (λ _.
            if_map (leb 4 opt_len) _ _ _ _
              (λ e. ap (λ a. record n { local_gateway = a }) (packs (ground arith))) refl)
          (if_map (opt == 54) _ _ _ _
            (λ _.
              if_map (opt_len == 4) _ _ _ _
                (λ e. ap (λ a. record n { dhcp_server_ip = a }) (packs (ground arith))) refl)
            refl)))
  where
    packs : 4 ≤ opt_len → ip_pack v ≡ ip_pack w
    packs l =
        let a = h 0 (omega arith) in
        let b = h 1 (omega arith) in
        let c = h 2 (omega arith) in let d = h 3 (omega arith) in omega arith

    message :
        (if leb 1 opt_len && (v 0 == 2) then record n { dhcp_acquired = true } else n)
        ≡ (if leb 1 opt_len && (w 0 == 2) then record n { dhcp_acquired = true } else n)
    message = elim (Bool-cases (leb 1 opt_len)) [
      | inl e ↦
          ap (λ t. if leb 1 opt_len && (t == 2) then record n { dhcp_acquired = true } else n)
            (h 0 (ground arith))
      | inr e ↦ rw e refl
    ]

step_agree :
    (o o' : ℕ → ℕ) (len offset : ℕ) (n p r : Net)
    → o offset ≡ o' offset
    → o (offset + 1) ≡ o' (offset + 1)
    → step o len offset n p r ≡ step o' len offset n p r
step_agree o o' len offset n p r a b = rw (a, b) refl

-- The loop reads no byte behind the end of the message: the bytes behind it do not matter.
pub parse_dhcp_options_agree :
    (o o' : ℕ → ℕ) (len : ℕ) (n : Net)
    → ((k : ℕ) → k < len → o k ≡ o' k)
    → parse_dhcp_options o len n ≡ parse_dhcp_options o' len n
unfolding parse_dhcp_options
parse_dhcp_options_agree o o' len n h = agree len 0 n
  where
    agree :
        (fuel offset : ℕ) (n : Net)
        → parse_from fuel o len offset n ≡ parse_from fuel o' len offset n
    agree zero offset n = unfold parse_from in refl
    agree (suc fuel) offset n = elim (Bool-cases (ltb len (offset + 2))) [
      | inl e ↦ unfold parse_from in rw e refl
      | inr e ↦
          unfold parse_from in
          let a = h offset (ground arith) in
          let b = h (offset + 1) (ground arith) in
          step_agree o o' len offset n _ _ a b
          ∙ step_cases o' len offset n _ _ _ _ (λ _. agree fuel (offset + 1) n)
              (λ l.
                ap
                  (λ t.
                    parse_from fuel o len (offset + 2 + t)
                      (apply_option (o offset) t (from_offset (offset + 2) o) n))
                  b
                ∙ ap
                    (λ t.
                      parse_from fuel o len (offset + 2 + o' (offset + 1))
                        (apply_option t (o' (offset + 1)) (from_offset (offset + 2) o) n))
                    a
                ∙ ap (parse_from fuel o len (offset + 2 + o' (offset + 1))) (
                    apply_option_agree (o' offset) (o' (offset + 1)) (from_offset (offset + 2) o)
                      (from_offset (offset + 2) o') n (λ k m. h (offset + 2 + k) (omega arith)))
                ∙ agree fuel (offset + 2 + o' (offset + 1))
                    (apply_option (o' offset) (o' (offset + 1)) (from_offset (offset + 2) o') n))
    ]
