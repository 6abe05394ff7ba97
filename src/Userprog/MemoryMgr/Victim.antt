-- ===== src/Userprog/MemoryMgr/Victim.antt =====
-- Which frame `GetPage` hands out.
use cop5614nachos.Base.{
  ℕ, zero, suc, ◌+◌, ◌≤◌, ◌<◌, ◌≡◌, ◌≢◌, refl, ◌∙◌, ◌⊎◌, inl, inr, true, false, not, Option, none,
  some, ◌&&◌, ◌==◌, Array, arith, Bool-cases, le-cases,
}
use cop5614nachos.Machine.State.{num_phys_pages}
use cop5614nachos.Userprog.MemoryMgr.{earlier, victim_loop, victim}

-- Not to be earlier than another is transitive.
earlier_trans : (a b c : Option ℕ) → earlier b a ≡ false → earlier c b ≡ false → earlier c a ≡ false
earlier_trans none none none h k = h
earlier_trans none none (some z) h k = refl
earlier_trans none (some y) none h k = refl
earlier_trans none (some y) (some z) h k = refl
earlier_trans (some x) none c h k = cc
earlier_trans (some x) (some y) none h k = cc
earlier_trans (some x) (some y) (some z) h k = ground arith

earlier-asym : (a b : Option ℕ) → earlier a b ≡ true → earlier b a ≡ false
earlier-asym none none h = cc
earlier-asym none (some b) h = refl
earlier-asym (some a) none h = cc
earlier-asym (some a) (some b) h = ground arith

earlier_irrefl : (a : Option ℕ) → earlier a a ≡ false
earlier_irrefl none = refl
earlier_irrefl (some a) = ground arith

-- Frame `k` may be taken, and none of the frames from `i` on was taken into use before it.
record IsOldest (rounds i : ℕ) (frametime : Array (Option ℕ)) (shared start k : ℕ) : Type 0 where
  spares : k ≢ shared
  bounded : (k ≡ start) ⊎ (k < i + rounds)
  first_in :
      (j : ℕ) → i ≤ j → j < i + rounds → j ≢ shared → earlier (frametime j) (frametime k) ≡ false
  not_later : earlier (frametime start) (frametime k) ≡ false

victim_loop-IsOldest :
    (rounds i : ℕ) (frametime : Array (Option ℕ)) (shared outpage : ℕ)
    → outpage ≢ shared
    → IsOldest rounds i frametime shared outpage
        (victim_loop rounds i frametime shared outpage (frametime outpage))
unfolding victim_loop
victim_loop-IsOldest zero i frametime shared outpage ne = record {
  spares = ne;
  bounded = inl refl;
  first_in = λ j le lt other. absurd (omega arith);
  not_later = earlier_irrefl (frametime outpage);
}
victim_loop-IsOldest (suc rounds) i frametime shared outpage ne =
    elim (Bool-cases (earlier (frametime i) (frametime outpage) && not (i == shared))) [
      | inl better ↦
          let o = victim_loop-IsOldest rounds (i + 1) frametime shared i (ground arith) in
          let k = victim_loop rounds (i + 1) frametime shared i (frametime i) in
          let sooner : earlier (frametime i) (frametime outpage) ≡ true = ground arith in
          let settled : IsOldest (suc rounds) i frametime shared outpage k = record {
            spares = o.spares;
            bounded = ground (arith, o.bounded);
            first_in = λ j le lt other. elim (le-cases i j le) [
              | inl e ↦ rw e (o.not_later)
              | inr later ↦ o.first_in j later (omega arith) other
            ];
            not_later =
                earlier_trans (frametime k) (frametime i) (frametime outpage) o.not_later
                  (earlier-asym (frametime i) (frametime outpage) sooner);
          } in
          rw better settled
      | inr worse ↦
          let o = victim_loop-IsOldest rounds (i + 1) frametime shared outpage ne in
          let k = victim_loop rounds (i + 1) frametime shared outpage (frametime outpage) in
          let settled : IsOldest (suc rounds) i frametime shared outpage k = record {
            spares = o.spares;
            bounded = ground (arith, o.bounded);
            first_in = λ j le lt other. elim (le-cases i j le) [
              | inl e ↦
                  let apart : i ≢ shared = λ eq. other (e ∙ eq) in
                  let later : earlier (frametime i) (frametime outpage) ≡ false = ground arith in
                  rw e (
                    earlier_trans (frametime k) (frametime outpage) (frametime i) o.not_later later)
              | inr later ↦ o.first_in j later (omega arith) other
            ];
            not_later = o.not_later;
          } in
          rw worse settled
    ]

-- The victim is a frame of the machine other than the shared one, and of all those it was taken
-- into use first.
pub victim-oldest :
    (frametime : Array (Option ℕ)) (shared : ℕ)
    → let k = victim frametime shared in
      (k < num_phys_pages)
      × (k ≢ shared)
      × ((j : ℕ) → j < num_phys_pages → j ≢ shared → earlier (frametime j) (frametime k) ≡ false)
unfolding victim
victim-oldest frametime shared = elim (Bool-cases (shared == 0)) [
  | inl e ↦
      let o = victim_loop-IsOldest num_phys_pages 0 frametime shared 1 (ground arith) in
      rw e (
        ground (arith, o.bounded),
        o.spares,
        λ j lt other. o.first_in j (omega arith) (omega arith) other,
      )
  | inr ne ↦
      let o = victim_loop-IsOldest num_phys_pages 0 frametime shared 0 (ground arith) in
      rw ne (
        ground (arith, o.bounded),
        o.spares,
        λ j lt other. o.first_in j (omega arith) (omega arith) other,
      )
]
