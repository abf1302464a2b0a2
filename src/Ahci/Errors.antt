-- ===== src/Ahci/Errors.antt =====
-- The transfers of src/ahci.c that are refused.
use a_lightweight_os.Base.{
  ℕ, ◌<◌, ◌≡◌, ◌≢◌, refl, sym, ap, ◌∙◌, Bool, true, false, not, Option, none, some, none≢some, ◌==◌,
  if◌then◌else◌, arith, find_first, find_first-First, First-unique, ℤ, negsuc,
}
use a_lightweight_os.Ahci.{Hba, Layout, Ahci, read_register, port_find_free_slot}
use a_lightweight_os.Ahci.Command.{on_port, slotted, do_transfer, result, read_sector, write_sector}

if_map {ℓ} :
    {A B : Type ℓ} (f : A → B) (c : Bool) (x y : A)
    → (if c then f x else f y) ≡ f (if c then x else y)
if_map f true x y = refl
if_map f false x y = refl

if_same {ℓ} : {A : Type ℓ} (c : Bool) (x : A) → (if c then x else x) ≡ x
if_same true x = refl
if_same false x = refl

module _ {D : Hba} (a : Layout) (fuel lba buffer : ℕ) (d : Ahci D) where
  -- What do_transfer gives when the adapter or every port is NULL.
  no_adapter :
      (write : Bool) → d.ahci_hba ≡ 0 → do_transfer a fuel lba buffer 1 write d ≡ some (false, d)
  unfolding do_transfer
  no_adapter write e = rw e refl

  no_port :
      (write : Bool)
      → ((i : ℕ) → i < 32 → d.ahci_ports i ≡ 0)
      → do_transfer a fuel lba buffer 1 write d ≡ some (false, d)
  unfolding do_transfer on_port
  no_port write h =
      let t : ℕ → Bool = λ i. not (d.ahci_ports i == 0) in
      let f : find_first t 32 0 ≡ none =
        First-unique t 32 0 _ none (find_first-First t 32 0)
          (λ k l u. let e = h k u in rw e refl) in
      rw f (if_same (d.ahci_hba == 0) _)

  -- A port whose 32 slots are all in use.
  busy :
      (write : Bool) (i : ℕ)
      → d.ahci_hba ≢ 0
      → find_first (λ k. not (d.ahci_ports k == 0)) 32 0 ≡ some i
      → (port_find_free_slot (d.ahci_ports i) d).0 ≡ none
      → do_transfer a fuel lba buffer 1 write d
        ≡ some (false, (port_find_free_slot (d.ahci_ports i) d).1)
  unfolding do_transfer on_port
  busy write i n e f =
      let z : (d.ahci_hba == 0) ≡ false = ground arith in
      rw (z, e) (go (port_find_free_slot (d.ahci_ports i) d) f)
    where
      go :
          (x : Option ℕ × Ahci D)
          → x.0 ≡ none
          → slotted a fuel (d.ahci_ports i) buffer 1 write lba x ≡ some (false, x.1)
      go (none, s) e = unfold slotted in refl
      go (some k, s) e = absurd (none≢some (sym e))

  read_fails :
      (x : Ahci D)
      → do_transfer a fuel lba buffer 1 false d ≡ some (false, x)
      → read_sector a fuel lba buffer d ≡ some (negsuc 0, if buffer == 0 then d else x)
  unfolding read_sector result
  read_fails x e = rw e (if_map (λ y. some (negsuc 0, y)) (buffer == 0) d x)

  write_fails :
      (x : Ahci D)
      → do_transfer a fuel lba buffer 1 true d ≡ some (false, x)
      → write_sector a fuel lba buffer d ≡ some (negsuc 0, if buffer == 0 then d else x)
  unfolding write_sector result
  write_fails x e = rw e (if_map (λ y. some (negsuc 0, y)) (buffer == 0) d x)

abbrev refused : {D : Hba} → Ahci D → Option (ℤ × Ahci D)
refused d = some (negsuc 0, d)

-- A sector is neither read nor written, and nothing but the adapter's own state can change, with a NULL buffer,
-- before an adapter is found, with no port, and when every slot of the first port is in use: the result is -1.
sector-refused :
    {D : Hba} (a : Layout) (fuel lba buffer i : ℕ) (d missing portless busy_d : Ahci D)
    → missing.ahci_hba ≡ 0
    → ((k : ℕ) → k < 32 → portless.ahci_ports k ≡ 0)
    → busy_d.ahci_hba ≢ 0
    → find_first (λ k. not (busy_d.ahci_ports k == 0)) 32 0 ≡ some i
    → (port_find_free_slot (busy_d.ahci_ports i) busy_d).0 ≡ none
    → let after = (port_find_free_slot (busy_d.ahci_ports i) busy_d).1 in
      (read_sector a fuel lba 0 d ≡ some (negsuc 0, d))
      × (write_sector a fuel lba 0 d ≡ some (negsuc 0, d))
      × (read_sector a fuel lba buffer missing ≡ some (negsuc 0, missing))
      × (write_sector a fuel lba buffer missing ≡ some (negsuc 0, missing))
      × (read_sector a fuel lba buffer portless ≡ some (negsuc 0, portless))
      × (write_sector a fuel lba buffer portless ≡ some (negsuc 0, portless))
      × (read_sector a fuel lba buffer busy_d
          ≡ some (negsuc 0, if buffer == 0 then busy_d else after))
      × (after.memory ≡ busy_d.memory)
sector-refused {D} a fuel lba buffer i d missing portless busy_d e h n f g =
    let same : (x : Ahci D) → refused (if buffer == 0 then x else x) ≡ refused x =
      λ x. ap refused (if_same (buffer == 0) x) in
    (
      unfold read_sector in refl,
      unfold write_sector in refl,
      read_fails a fuel lba buffer missing missing (no_adapter a fuel lba buffer missing false e)
          ∙ same missing,
      write_fails a fuel lba buffer missing missing (no_adapter a fuel lba buffer missing true e)
          ∙ same missing,
      read_fails a fuel lba buffer portless portless (no_port a fuel lba buffer portless false h)
          ∙ same portless,
      write_fails a fuel lba buffer portless portless (no_port a fuel lba buffer portless true h)
          ∙ same portless,
      read_fails a fuel lba buffer busy_d _ (busy a fuel lba buffer busy_d false i n f g),
      unfold port_find_free_slot read_register in refl,
    )
