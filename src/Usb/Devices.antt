-- ===== src/Usb/Devices.antt =====
-- The device table of src/usb.c: one slot for each port.
use a_lightweight_os.Base.{
  ℕ, zero, suc, ◌+◌, ◌<◌, ◌≤◌, ◌≡◌, refl, ◌≢◌, ◌⊎◌, inl, inr, Bool, true, false, not, ◌&&◌, ◌||◌,
  ltb, ◌==◌, if◌then◌else◌, update, u8, test_bit, arith, Bool-cases, subst, sym, if_cases,
}
use a_lightweight_os.Usb.{
  Usb, HidDevice, keyboard, mouse, find_device, attach, poll_port, poll_ports, poll,
  max_hid_devices,
}

-- Each attached slot has the type and the slot number of its place, and an address of its own.
pub record IsTable (ds : ℕ → HidDevice) : Type 0 where
  pub numbered : (i : ℕ) → i < 4 → (ds i).attached ≡ true → (ds i).slot_id ≡ i + 1
  pub typed :
      (i : ℕ) → i < 4 → (ds i).attached ≡ true → (ds i).type ≡ (if i == 0 then keyboard else mouse)
  pub distinct :
      (i j : ℕ)
      → i < 4
      → j < 4
      → (ds i).attached ≡ true
      → (ds j).attached ≡ true
      → (ds i).address ≡ (ds j).address
      → i ≡ j

find_device-none :
    (ds : ℕ → HidDevice) (left i address : ℕ)
    → i + left ≤ 4
    → find_device ds left i address ≡ 0xFF
    → (j : ℕ) → i ≤ j
    → j < i + left
    → (ds j).attached ≡ true
    → (ds j).address ≢ address
unfolding find_device
find_device-none ds zero i address b e j l h a = absurd (omega arith)
find_device-none ds (suc left) i address b e j l h a = elim (Bool-cases (i == j)) [
  | inl q ↦
      let q' : i ≡ j = ground arith in
      λ w.
        hit (subst (λ k. (ds k).attached ≡ true) (sym q') a)
          (subst (λ k. (ds k).address ≡ address) (sym q') w)
  | inr q ↦
      find_device-none ds left (i + 1) address (omega arith) (later e) j (ground arith)
        (omega arith) a
]
  where
    hit : (ds i).attached ≡ true → (ds i).address ≡ address → ⊥
    hit a' w = ground (arith, e)

    later : find_device ds (suc left) i address ≡ 0xFF → find_device ds left (i + 1) address ≡ 0xFF
    later e' = ground (arith, e')

new_device : ℕ → ℕ → HidDevice
new_device i port = record {
  attached = true;
  slot_id = u8 (i + 1);
  address = u8 (port + 1);
  type = if i == 0 then keyboard else mouse;
  endpoint_address = if i == 0 then 0x81 else 0x82;
  max_packet_size = 8;
  interface_number = 0;
}

attach_cases :
    (ds : ℕ → HidDevice) (left i port : ℕ)
    → (attach ds left i port ≡ ds)
      ⊎ ((k : ℕ) × (k < i + left)
          × ((ds k).attached ≡ false)
          × (attach ds left i port ≡ update ds k (new_device k port)))
unfolding attach new_device
attach_cases ds zero i port = inl refl
attach_cases ds (suc left) i port =
    go (Bool-cases (ds i).attached) (attach_cases ds left (i + 1) port)
  where
    go :
        (((ds i).attached ≡ true) ⊎ ((ds i).attached ≡ false))
        → ((attach ds left (i + 1) port ≡ ds)
            ⊎ ((k : ℕ) × (k < i + 1 + left)
                × ((ds k).attached ≡ false)
                × (attach ds left (i + 1) port ≡ update ds k (new_device k port))))
        → (attach ds (suc left) i port ≡ ds)
          ⊎ ((k : ℕ) × (k < i + suc left)
              × ((ds k).attached ≡ false)
              × (attach ds (suc left) i port ≡ update ds k (new_device k port)))
    go (inl e) (inl r) = inl (rw e r)
    go (inl e) (inr (k, l, f, r)) = inr (k, omega arith, f, rw e r)
    go (inr e) r = inr (i, omega arith, e, rw e)

update-IsTable :
    (ds : ℕ → HidDevice) (k port : ℕ)
    → IsTable ds
    → k < 4
    → port < 255
    → ((j : ℕ) → j < 4 → (ds j).attached ≡ true → (ds j).address ≢ port + 1)
    → IsTable (update ds k (new_device k port))
unfolding new_device
update-IsTable ds k port t lk lp fresh = record {
  numbered = λ i l a. ground (arith, t.numbered i l);
  typed = λ i l a. elim (Bool-cases (k == i)) [
    | inl q ↦ let q' : k ≡ i = ground arith in rw q (rw q')
    | inr q ↦ ground (arith, t.typed i l)
  ];
  distinct = λ i j li lj ai aj e. ground (arith, t.distinct i j li lj, fresh i li, fresh j lj);
}

poll_port-IsTable :
    (portsc port : ℕ) (u : Usb)
    → port < 255
    → IsTable u.hid_devices
    → IsTable (poll_port portsc port u).hid_devices
unfolding poll_port
poll_port-IsTable portsc port u l t =
    go (Bool-cases (not (test_bit portsc 0) || not (test_bit portsc 1)))
      (Bool-cases (find_device u.hid_devices max_hid_devices 0 (port + 1) == 0xFF))
      (attach_cases u.hid_devices max_hid_devices 0 port)
  where
    ds : ℕ → HidDevice
    ds = u.hid_devices

    idle : Bool
    idle = not (test_bit portsc 0) || not (test_bit portsc 1)

    idle' : Bool
    idle' = find_device ds max_hid_devices 0 (port + 1) == 0xFF

    go :
        ((idle ≡ true) ⊎ (idle ≡ false))
        → ((idle' ≡ true) ⊎ (idle' ≡ false))
        → ((attach ds max_hid_devices 0 port ≡ ds)
            ⊎ ((k : ℕ) × (k < 0 + max_hid_devices)
                × ((ds k).attached ≡ false)
                × (attach ds max_hid_devices 0 port ≡ update ds k (new_device k port))))
        → IsTable (poll_port portsc port u).hid_devices
    go (inl e) f a = rw e t
    go (inr e) (inr f) a = rw (e, f) t
    go (inr e) (inl f) (inl a) = rw (e, f, a) t
    go (inr e) (inl f) (inr (k, lk, _, a)) =
        rw (e, f, a)
          (update-IsTable ds k port t (omega arith) l λ j lj.
            find_device-none ds max_hid_devices 0 (port + 1) (omega arith) (ground arith) j
              (omega arith) (omega arith))

max_ports-poll_port :
    (portsc port : ℕ) (u : Usb) → (poll_port portsc port u).max_ports ≡ u.max_ports
unfolding poll_port
max_ports-poll_port portsc port u = ground arith

poll_ports-IsTable :
    (portsc : ℕ → ℕ) (left port : ℕ) (u : Usb)
    → u.max_ports ≤ 255
    → IsTable u.hid_devices
    → IsTable (poll_ports portsc left port u).hid_devices
unfolding poll_ports
poll_ports-IsTable portsc zero port u m t = t
poll_ports-IsTable portsc (suc left) port u m t =
    elim (Bool-cases (ltb port u.max_ports && ltb port 256)) [
      | inl e ↦ rw e (
          poll_ports-IsTable portsc left (port + 1) (poll_port (portsc port) port u)
            (rw (max_ports-poll_port (portsc port) port u) m)
            (poll_port-IsTable (portsc port) port u (ground arith) t))
      | inr e ↦ rw e t
    ]

-- Whatever the port registers read, a poll keeps the table well formed: no port takes two slots, and
-- each attached slot keeps the number and the type of its place.
pub poll-IsTable :
    (portsc : ℕ → ℕ) (u : Usb)
    → u.max_ports ≤ 255
    → IsTable u.hid_devices
    → IsTable (poll portsc u).hid_devices
unfolding poll
poll-IsTable portsc u m t =
    if_cases (λ w. IsTable w.hid_devices) u.xhci_ready _ u
      (λ _. poll_ports-IsTable portsc 257 0 u m t) (λ _. t)
