-- ===== src/Services/Daemons/Snapshot.antt =====
-- The clipboard daemon of src/services.c follows the clipboard.
use a_lightweight_os.Base.{
  ℕ, codes, pos, zero, suc, ◌+◌, ◌<◌, ◌≡◌, ◌≢◌, refl, sym, ◌∙◌, inl, inr, Bool, true, false, Option,
  none, some, ◌==◌, if◌then◌else◌, update, arith, ap, Bool-cases, ==_refl,
}
use mathlib.Core.Path.{fun_ext}
use a_lightweight_os.Clipboard.{Clipboard, paste}
use a_lightweight_os.Notifications.{Center, post}
use a_lightweight_os.Services.Daemons.{follow, compare_clipboard, clipboard_round}

-- The snapshot has the bytes from `i` on, up to a 0 or to the end.
abbrev Settled : (ℕ → ℕ) → ℕ → ℕ → (ℕ → ℕ) → Type 0
Settled bytes zero i snapshot = Unit {0}
Settled bytes (suc n) i snapshot =
    (snapshot i ≡ bytes i) × (bytes i ≢ 0 → Settled bytes n (i + 1) snapshot)

follow-below :
    (bytes : ℕ → ℕ) (n i k : ℕ) (snapshot : ℕ → ℕ)
    → k < i
    → (follow bytes n i snapshot).0 k ≡ snapshot k
unfolding follow
follow-below bytes zero i k snapshot l = refl
follow-below bytes (suc n) i k snapshot l =
    let e : (i == k) ≡ false = ground arith in
    elim (Bool-cases (bytes i == 0)) [
      | inl x ↦ rw (x, e) refl
      | inr x ↦
          rw x
            (follow-below bytes n (i + 1) k (update snapshot i (bytes i)) (omega arith) ∙ rw e refl)
    ]

follow-Settled :
    (bytes : ℕ → ℕ) (n i : ℕ) (snapshot : ℕ → ℕ) → Settled bytes n i (follow bytes n i snapshot).0
unfolding follow
follow-Settled bytes zero i snapshot = tt
follow-Settled bytes (suc n) i snapshot =
    let e : (update snapshot i (bytes i)) i ≡ bytes i = let d = ==_refl i in rw d refl in
    elim (Bool-cases (bytes i == 0)) [
      | inl x ↦ rw x (e, λ m. absurd (ground (arith, x, m)))
      | inr x ↦ rw x (
        follow-below bytes n (i + 1) i (update snapshot i (bytes i)) (omega arith) ∙ e,
        λ m. follow-Settled bytes n (i + 1) (update snapshot i (bytes i)),
      )
    ]

update-same : (f : ℕ → ℕ) (i x : ℕ) → f i ≡ x → update f i x ≡ f
update-same f i x e = fun_ext λ k. elim (Bool-cases (i == k)) [
  | inl q ↦ rw q (sym e ∙ ap f (let d : i ≡ k = ground arith in d))
  | inr q ↦ rw q refl
]

Settled-follow :
    (bytes : ℕ → ℕ) (n i : ℕ) (snapshot : ℕ → ℕ)
    → Settled bytes n i snapshot
    → follow bytes n i snapshot ≡ (snapshot, false)
unfolding follow
Settled-follow bytes zero i snapshot s = refl
Settled-follow bytes (suc n) i snapshot s =
    let u = update-same snapshot i (bytes i) s.0 in
    let e : (snapshot i == bytes i) ≡ true = let d = s.0 in ground (arith, d) in
    elim (Bool-cases (bytes i == 0)) [
      | inl x ↦ rw (x, e) (ap (λ f. (f, false)) u)
      | inr x ↦
          let ih = Settled-follow bytes n (i + 1) snapshot (s.1 (ground (arith, x))) in
          let r = ap (follow bytes n (i + 1)) u ∙ ih in
          rw (x, e) (ap (λ (q : (ℕ → ℕ) × Bool). (q.0, q.1)) r)
    ]

compare_clipboard-settled :
    (o : Option (ℕ → ℕ)) (snapshot : ℕ → ℕ) (c c' : Center)
    → let s = (compare_clipboard o snapshot c).0 in compare_clipboard o s c' ≡ (s, c')
unfolding compare_clipboard
compare_clipboard-settled none snapshot c c' = refl
compare_clipboard-settled (some bytes) snapshot c c' =
    let s =
      Settled-follow bytes 63 0 (follow bytes 63 0 snapshot).0
        (follow-Settled bytes 63 0 snapshot) in
    ap
      (λ (q : (ℕ → ℕ) × Bool). (
        q.0,
        if q.1
            then post (codes "Clipboard Daemon") (codes "Clipboard contents updated") (pos 0) c'
            else c',
      ))
      s

-- A clipboard is reported once: a round of the daemon right after another one, with the clipboard
-- unchanged, changes neither its snapshot nor the notifications, whatever they are by then.
clipboard_round-settled :
    (k : Clipboard) (snapshot : ℕ → ℕ) (c c' : Center)
    → let s = (clipboard_round k snapshot c).0 in clipboard_round k s c' ≡ (s, c')
unfolding clipboard_round
clipboard_round-settled k snapshot c c' = compare_clipboard-settled (paste k) snapshot c c'
