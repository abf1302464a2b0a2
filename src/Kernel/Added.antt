-- ===== src/Kernel/Added.antt =====
-- What the memory maps of src/kernel.c add to the frames that are free.
use a_lightweight_os.Base.{
  ℕ, ◌≡◌, refl, sym, ◌∙◌, inl, inr, Bool, true, false, ◌&&◌, ◌||◌, List, [], ◌∷◌, ◌==◌,
  if◌then◌else◌, ap, subst, Bool-cases,
}
use mathlib.Core.Bool.{true≢false}
use a_lightweight_os.Pmm.{Pmm, add_available_range}
use a_lightweight_os.Pmm.Frames.{is_free, IsValid}
use a_lightweight_os.Pmm.Ranges.{covers, is_free-range, total-range}
use a_lightweight_os.Pmm.Invariant.{range-IsValid}
use a_lightweight_os.Kernel.Multiboot.{Entry, visit_available}
use a_lightweight_os.Kernel.Multiboot.Walks.{Tag, other, memory_map, fold_entries, fold_tags}

-- Whether an available entry covers a frame, among the entries of a map, and of all maps.
abbrev pub available : ℕ → List Entry → ℕ → Bool
available total [] f = false
available total (x ∷ xs) f = (x.kind == 1 && covers total x.addr x.len f) || available total xs f

abbrev pub mapped : ℕ → List Tag → ℕ → Bool
mapped total [] f = false
mapped total (other ∷ ts) f = mapped total ts f
mapped total (memory_map es ∷ ts) f = available total es f || mapped total ts f

abbrev pub has_map : List Tag → Bool
has_map [] = false
has_map (other ∷ ts) = has_map ts
has_map (memory_map es ∷ ts) = true

-- A manager with some more frames free.
pub record Added (s r : Pmm) (more : ℕ → Bool) : Type 0 where
  pub valid : IsValid r
  pub total : r.total_frames ≡ s.total_frames
  pub frames : (f : ℕ) → is_free r f ≡ (more f || is_free s f)

abbrev pub at_map : Pmm × Bool → Pmm × Bool
at_map r = (r.0, true)

or_if : (a b : Bool) → (if a then true else b) ≡ (a || b)
or_if true b = refl
or_if false b = refl

or_swap : (a b c : Bool) → (b || (a || c)) ≡ (a || b || c)
or_swap true true c = refl
or_swap true false c = refl
or_swap false b c = refl

or_true : (a : Bool) → (a || true) ≡ true
or_true true = refl
or_true false = refl

pub or_false : (a : Bool) → (a || false) ≡ a
or_false true = refl
or_false false = refl

visit_available-Added :
    (x : Entry) (s : Pmm) (g : Bool)
    → IsValid s
    → Added s
        (visit_available x (s, g)).0
        (λ f. x.kind == 1 && covers s.total_frames x.addr x.len f)
unfolding visit_available
visit_available-Added x s g v = elim (Bool-cases (x.kind == 1)) [
  | inl e ↦ rw e (record {
    valid = (range-IsValid x.addr x.len s v).0;
    total = (total-range x.addr x.len s).0;
    frames = λ f.
        (is_free-range x.addr x.len s f v).0
        ∙ or_if (covers s.total_frames x.addr x.len f) (is_free s f);
  })
  | inr e ↦ rw e (record { valid = v; total = refl; frames = λ f. refl })
]

-- Two additions.
Added-trans :
    (s t r : Pmm) (c d : ℕ → Bool) → Added s t c → Added t r d → Added s r (λ f. c f || d f)
Added-trans s t r c d a b = record {
  valid = b.valid;
  total = b.total ∙ a.total;
  frames = λ f. b.frames f ∙ ap (λ x. d f || x) (a.frames f) ∙ or_swap (c f) (d f) (is_free s f);
}

entries-Added :
    (es : List Entry) (s : Pmm) (g : Bool)
    → IsValid s
    → Added s (fold_entries visit_available at_map es (s, g)).0 (available s.total_frames es)
      × ((fold_entries visit_available at_map es (s, g)).1 ≡ g)
unfolding visit_available
entries-Added [] s g v = (record { valid = v; total = refl; frames = λ f. refl }, refl)
entries-Added (x ∷ xs) s g v =
    let a = visit_available-Added x s g v in
    let t = (visit_available x (s, g)).0 in
    let (b, h) = entries-Added xs t g a.valid in
    (
      Added-trans s t (fold_entries visit_available at_map xs (t, g)).0
          (λ f. x.kind == 1 && covers s.total_frames x.addr x.len f) (available s.total_frames xs) a
          (subst (λ n. Added t (fold_entries visit_available at_map xs (t, g)).0 (available n xs))
            a.total b),
      h,
    )

pub tags-Added :
    (ts : List Tag) (s : Pmm) (g : Bool)
    → IsValid s
    → Added s (fold_tags visit_available at_map ts (s, g)).0 (mapped s.total_frames ts)
      × ((fold_tags visit_available at_map ts (s, g)).1 ≡ (has_map ts || g))
tags-Added [] s g v = (record { valid = v; total = refl; frames = λ f. refl }, refl)
tags-Added (other ∷ ts) s g v = tags-Added ts s g v
tags-Added (memory_map es ∷ ts) s g v =
    let (a, h) = entries-Added es s true v in
    let e = fold_entries visit_available at_map es (s, true) in
    let (b, k) = tags-Added ts e.0 e.1 a.valid in
    let r = fold_tags visit_available at_map ts e in
    (
      Added-trans s e.0 r.0 (available s.total_frames es) (mapped s.total_frames ts) a
          (subst (λ n. Added e.0 r.0 (mapped n ts)) a.total b),
      k ∙ ap (λ x. has_map ts || x) h ∙ or_true (has_map ts),
    )

pub unmapped : (total : ℕ) (ts : List Tag) (f : ℕ) → has_map ts ≡ false → mapped total ts f ≡ false
unmapped total [] f e = refl
unmapped total (other ∷ ts) f e = unmapped total ts f e
unmapped total (memory_map es ∷ ts) f e = absurd (true≢false e)

range-Added :
    (base len : ℕ) (s : Pmm)
    → IsValid s
    → Added s (add_available_range base len s) (covers s.total_frames base len)
range-Added base len s v = record {
  valid = (range-IsValid base len s v).0;
  total = (total-range base len s).0;
  frames = λ f.
      (is_free-range base len s f v).0 ∙ or_if (covers s.total_frames base len f) (is_free s f);
}

-- The default range, where no map was found.
pub default-Added :
    (s p : Pmm) (c : ℕ → Bool) (base len : ℕ) (h found : Bool)
    → found ≡ h
    → Added s p c
    → ((f : ℕ) → h ≡ false → c f ≡ false)
    → Added s
        (if found then p else add_available_range base len p)
        (λ f. if h then c f else covers s.total_frames base len f)
default-Added s p c base len true true e a n = a
default-Added s p c base len true false e a n = absurd (true≢false (sym e))
default-Added s p c base len false true e a n = absurd (true≢false e)
default-Added s p c base len false false e a n =
    let b = range-Added base len p a.valid in
    record {
      valid = b.valid;
      total = b.total ∙ a.total;
      frames = λ f.
          b.frames f
          ∙ ap (λ t. covers t base len f || is_free p f) a.total
          ∙ ap (λ x. covers s.total_frames base len f || x)
              (a.frames f ∙ ap (λ x. x || is_free s f) (n f refl));
    }
