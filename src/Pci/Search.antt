-- ===== src/Pci/Search.antt =====
-- The scans of the PCI devices of src/audio.c find the first function that is wanted, in the order of
-- bus, device and function.

use a_lightweight_os.Base.{
  ℕ, zero, suc, ◌+◌, ◌*◌, ◌/◌, ◌%◌, ◌≤◌, ◌<◌, ◌≡◌, refl, sym, ap, ◌∙◌, Bool, true, false, not, ◌&&◌,
  ◌||◌, none, some, Option, ltb, ◌==◌, if◌then◌else◌, find_first, find_first-add, First-unique,
  find_first-First, or_else, ◌-◌, arith,
}
use a_lightweight_os.Pci.{
  PciDevice, pci_read_config_dword, describe, scan_functions, or_next, scan_devices, scan_buses,
  pci_find_device, pci_find_class, pci_find_ahci_controller, address_of, wanted_id, wanted_class,
}

module _ (config : ℕ → ℕ) where
  abbrev present : ℕ → ℕ → ℕ → Bool
  present b d f = not (pci_read_config_dword config b d f 0 % 65536 == 0xFFFF)

  -- Function 0 says whether a device has more functions.
  abbrev multi : ℕ → ℕ → Bool
  multi b d = not (ltb (pci_read_config_dword config b d 0 0x0C / 65536 % 256) 128)

  -- A function can be reached if it is the first one or one of a device with more functions.
  abbrev pub reachable : ℕ → ℕ → ℕ → Bool
  reachable b d f = present b d f && ((f == 0) || (present b d 0 && multi b d))

  abbrev pub described : Option ℕ → Option PciDevice
  described none = none
  described (some i) = some (describe config (i / 256) (i / 8 % 32) (i % 8))

  module _ (wanted : ℕ → ℕ → Bool) where
    abbrev pub chosen : ℕ → ℕ → ℕ → Bool
    chosen b d f =
        reachable b d f
        && wanted (pci_read_config_dword config b d f 0) (pci_read_config_dword config b d f 8)

    -- A function by its number: eight functions a device, 32 devices a bus.
    abbrev pub chosen_at : ℕ → Bool
    chosen_at i = chosen (i / 256) (i / 8 % 32) (i % 8)

    described-or_else :
        (o p : Option ℕ) → described (or_else o p) ≡ or_next (described o) (described p)
    unfolding or_next
    described-or_else none p = refl
    described-or_else (some i) p = refl

    number :
        (b d f i : ℕ)
        → d < 32
        → f < 8
        → i ≡ (b * 32 + d) * 8 + f
        → (i / 256 ≡ b) × (i / 8 % 32 ≡ d) × (i % 8 ≡ f)
    number b d f i l m e = (omega arith, omega arith, omega arith)

    described-if :
        (c : Bool) (j : ℕ) (o : Option ℕ)
        → described (if c then some j else o) ≡ (if c then described (some j) else described o)
    described-if true j o = refl
    described-if false j o = refl

    -- One step of the search by number.
    find_first-step :
        (b d f i n : ℕ)
        → d < 32
        → f < 8
        → i ≡ (b * 32 + d) * 8 + f
        → described (find_first chosen_at (suc n) i) ≡ (
            if chosen b d f
            then some (describe config b d f)
            else described (find_first chosen_at n (i + 1)))
    unfolding find_first
    find_first-step b d f i n l m e =
        let q = number b d f i l m e in
        described-if (chosen_at i) i (find_first chosen_at n (i + 1)) ∙ rw (q.0, q.1, q.2) refl

    -- The tests of one step: `p` for no device, `w` for a wanted one, `z` for the first function, `m`
    -- for a device with one function.
    abbrev step : Bool → Bool → Bool → Bool → Option PciDevice → Option PciDevice → Option PciDevice
    step p w z m x o =
        if p then if z then none else o else if w then x else if z && m then none else o

    step-rest :
        (p w z m h : Bool) (x o : Option PciDevice)
        → z ≡ false
        → h ≡ true
        → step p w z m x o ≡ (if (not p && (z || h)) && w then x else o)
    step-rest p w z m h x o e g = rw (e, g) (go p w)
      where
        go : (p w : Bool) → step p w false m x o ≡ (if (not p && true) && w then x else o)
        go true w = refl
        go false true = refl
        go false false = refl

    step-start :
        (p w z m : Bool) (x o o' : Option PciDevice)
        → z ≡ true
        → ((not p && not m) ≡ true → o ≡ o')
        → ((not p && not m) ≡ false → none ≡ o')
        → step p w z m x o ≡ (if (not p && (z || (not p && not m))) && w then x else o')
    step-start p w z m x o o' e f g = rw e (go p w m f g)
      where
        go :
            (p w m : Bool)
            → ((not p && not m) ≡ true → o ≡ o')
            → ((not p && not m) ≡ false → none ≡ o')
            → step p w true m x o ≡ (if (not p && true) && w then x else o')
        go true w m f g = g refl
        go false true m f g = refl
        go false false true f g = g refl
        go false false false f g = f refl

    module _ (b d : ℕ) (l : d < 32) where
      -- The functions behind the first one of a device that has more.
      scan_functions-rest :
          (n f i : ℕ)
          → 1 ≤ f
          → f + n ≡ 8
          → i ≡ (b * 32 + d) * 8 + f
          → (present b d 0 && multi b d) ≡ true
          → scan_functions config wanted b d n f ≡ described (find_first chosen_at n i)
      unfolding scan_functions
      scan_functions-rest zero f i m g e h = unfold find_first in refl
      scan_functions-rest (suc n) f i m g e h =
          let rest =
            scan_functions-rest n (f + 1) (i + 1) (omega arith) (omega arith) (omega arith) h in
          let c =
            step-rest (pci_read_config_dword config b d f 0 % 65536 == 0xFFFF)
              (wanted (pci_read_config_dword config b d f 0) (pci_read_config_dword config b d f 8))
              (f == 0) (ltb (pci_read_config_dword config b d f 0x0C / 65536 % 256) 128)
              (present b d 0 && multi b d) (some (describe config b d f))
              (scan_functions config wanted b d n (f + 1)) (ground arith) h in
          c
          ∙ ap (λ o. if chosen b d f then some (describe config b d f) else o) rest
          ∙ sym (find_first-step b d f i n l (omega arith) e)

      none_chosen :
          (n i : ℕ)
          → (b * 32 + d) * 8 < i
          → i + n ≤ (b * 32 + d) * 8 + 8
          → (present b d 0 && multi b d) ≡ false
          → find_first chosen_at n i ≡ none
      none_chosen n i m g h =
          First-unique chosen_at n i _ none (find_first-First chosen_at n i) (λ k u v.
            let q = number b d (k - (b * 32 + d) * 8) k l (omega arith) (omega arith) in
            let z : (k - (b * 32 + d) * 8 == 0) ≡ false = ground arith in
            rw (q.0, q.1, q.2, z, h) (go (present b d (k - (b * 32 + d) * 8)) _))
        where
          go : (p w : Bool) → ((p && (false || false)) && w) ≡ false
          go true w = refl
          go false w = refl

      scan_functions_lem :
          (i : ℕ)
          → i ≡ (b * 32 + d) * 8
          → scan_functions config wanted b d 8 0 ≡ described (find_first chosen_at 8 i)
      unfolding scan_functions
      scan_functions_lem i e =
          step-start (pci_read_config_dword config b d 0 0 % 65536 == 0xFFFF)
            (wanted (pci_read_config_dword config b d 0 0) (pci_read_config_dword config b d 0 8))
            (0 == 0) (ltb (pci_read_config_dword config b d 0 0x0C / 65536 % 256) 128)
            (some (describe config b d 0)) (scan_functions config wanted b d 7 1)
            (described (find_first chosen_at 7 (i + 1))) refl
            (λ h. scan_functions-rest 7 1 (i + 1) (omega arith) (omega arith) (omega arith) h)
            (λ h. ap described (sym (none_chosen 7 (i + 1) (omega arith) (omega arith) h)))
          ∙ sym (find_first-step b d 0 i 7 l (omega arith) (omega arith))

    scan_devices_lem :
        (b n d i : ℕ)
        → d + n ≡ 32
        → i ≡ (b * 32 + d) * 8
        → scan_devices config wanted b n d ≡ described (find_first chosen_at (n * 8) i)
    unfolding scan_devices
    scan_devices_lem b zero d i g e = unfold find_first in refl
    scan_devices_lem b (suc n) d i g e =
        let z : suc n * 8 ≡ 8 + n * 8 = omega arith in
        ap (λ o. or_next o (scan_devices config wanted b n (d + 1)))
          (scan_functions_lem b d (omega arith) i e)
        ∙ ap (or_next (described (find_first chosen_at 8 i)))
            (scan_devices_lem b n (d + 1) (i + 8) (omega arith) (omega arith))
        ∙ sym (described-or_else (find_first chosen_at 8 i) _)
        ∙ ap described (sym (find_first-add chosen_at 8 (n * 8) i))
        ∙ ap (λ k. described (find_first chosen_at k i)) (sym z)

    -- A scan of the first buses gives the first function, by its number, that can be reached and is wanted.
    scan_buses_lem :
        (n b i : ℕ)
        → i ≡ b * 256
        → scan_buses config wanted n b ≡ described (find_first chosen_at (n * 256) i)
    unfolding scan_buses
    scan_buses_lem zero b i e = unfold find_first in refl
    scan_buses_lem (suc n) b i e =
        let z : suc n * 256 ≡ 256 + n * 256 = omega arith in
        ap (λ o. or_next o (scan_buses config wanted n (b + 1)))
          (scan_devices_lem b 32 0 i (omega arith) (omega arith))
        ∙ ap (or_next (described (find_first chosen_at 256 i)))
            (scan_buses_lem n (b + 1) (i + 256) (omega arith))
        ∙ sym (described-or_else (find_first chosen_at 256 i) _)
        ∙ ap described (sym (find_first-add chosen_at 256 (n * 256) i))
        ∙ ap (λ k. described (find_first chosen_at k i)) (sym z)

-- The three scans find the same as a search by number over two buses, or eight for the disk
-- controller: the first function that is present, can be reached and is wanted, and nothing if there
-- is none. A function of a device can be reached if it is function 0 or if function 0 is present and
-- says that there are more.
pub pci_find-find_first :
    (config : ℕ → ℕ) (vendor_id device_id class_code subclass prog_if : ℕ)
    → (pci_find_device config vendor_id device_id
        ≡ described config (find_first (chosen_at config (wanted_id vendor_id device_id)) 512 0))
      × (pci_find_class config class_code subclass prog_if
          ≡ described config
              (find_first (chosen_at config (wanted_class class_code subclass prog_if)) 512 0))
      × (pci_find_ahci_controller config
          ≡ address_of
              (described config (find_first (chosen_at config (wanted_class 1 6 1)) 2048 0)))
unfolding pci_find_device pci_find_class pci_find_ahci_controller
pci_find-find_first config vendor_id device_id class_code subclass prog_if = (
  scan_buses_lem config (wanted_id vendor_id device_id) 2 0 0 refl,
  scan_buses_lem config (wanted_class class_code subclass prog_if) 2 0 0 refl,
  ap address_of (scan_buses_lem config (wanted_class 1 6 1) 8 0 0 refl),
)
