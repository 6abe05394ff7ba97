-- ===== src/Threads/Kernel/Placed.antt =====
-- Where each thread is: on the processor, once in the ready list, or once in the queue that its
-- `resume` names; and what moves one thread keeps this.
use cop5614nachos.Base.{
  ℕ, ◌+◌, ◌≡◌, sym, ap, ◌∙◌, Bool, true, false, not, ◌&&◌, List, [], ◌∷◌, ◌++◌, ◌==◌, if◌then◌else◌,
  arith, ==_refl,
}
use cop5614nachos.Threads.Kernel.{
  Kernel, Status, running, ready, blocked, Resume, in_p, in_acquire, in_wait,
}

abbrev pub count : ℕ → List ℕ → ℕ
count t [] = 0
count t (u ∷ us) = let rest = count t us in if t == u then rest + 1 else rest

abbrev pub bit : Bool → ℕ
bit true = 1
bit false = 0

abbrev pub is_running : Status → Bool
is_running running = true
is_running _ = false

abbrev pub is_ready : Status → Bool
is_ready ready = true
is_ready _ = false

abbrev pub is_blocked : Status → Bool
is_blocked blocked = true
is_blocked _ = false

abbrev pub is_in_p : ℕ → Resume → Bool
is_in_p s (in_p s') = s == s'
is_in_p s _ = false

abbrev pub is_in_acquire : ℕ → Resume → Bool
is_in_acquire l (in_acquire l') = l == l'
is_in_acquire l _ = false

abbrev pub is_in_wait : ℕ → Resume → Bool
is_in_wait c (in_wait c' l) = c == c'
is_in_wait c _ = false

-- Each thread is in the one place that its status and its `resume` name, and nowhere else.
pub record Placed (k : Kernel) : Type 0 where
  pub on_cpu : (t : ℕ) → is_running (k.status t) ≡ (t == k.current_thread && not k.idle)
  pub in_ready : (t : ℕ) → count t k.ready_list ≡ bit (is_ready (k.status t))
  pub in_semaphore :
      (s t : ℕ)
      → count t (k.semaphore s).queue ≡ bit (is_blocked (k.status t) && is_in_p s (k.resume t))
  pub in_lock :
      (l t : ℕ)
      → count t (k.lock l).queue ≡ bit (is_blocked (k.status t) && is_in_acquire l (k.resume t))
  pub in_condition :
      (c t : ℕ) → count t (k.blocked c) ≡ bit (is_blocked (k.status t) && is_in_wait c (k.resume t))

pub count-append : (t : ℕ) (us vs : List ℕ) → count t (us ++ vs) ≡ count t us + count t vs
count-append t [] vs = omega arith
count-append t (u ∷ us) vs = ground (arith, count-append t us vs)

pub first-ready :
    (u : ℕ) (rest : List ℕ) (k : Kernel) → k.ready_list ≡ u ∷ rest → Placed k → k.status u ≡ ready
first-ready u rest k e h =
    let one : count u (u ∷ rest) ≡ bit (is_ready (k.status u)) =
      ap (count u) (sym e) ∙ h.in_ready u in
    let there : (u == u) ≡ true = ==_refl u in ground (arith, one, there)

pub rest_ready :
    (u : ℕ) (rest : List ℕ) (k : Kernel)
    → k.ready_list ≡ u ∷ rest
    → Placed k
    → (t : ℕ) → count t rest ≡ (if t == u then 0 else bit (is_ready (k.status t)))
rest_ready u rest k e h t =
    let one : count t (u ∷ rest) ≡ bit (is_ready (k.status t)) =
      ap (count t) (sym e) ∙ h.in_ready t in
    ground (arith, one, first-ready u rest k e h)
