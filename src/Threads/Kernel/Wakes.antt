-- ===== src/Threads/Kernel/Wakes.antt =====
-- What waking a thread does to the places of the threads.
use cop5614nachos.Base.{
  ℕ, ◌+◌, ◌≡◌, refl, sym, ap, ◌∙◌, Bool, true, false, ◌&&◌, none, List, [], ◌∷◌, ◌==◌,
  if◌then◌else◌, update, arith, inl, inr, ==_refl,
}
use cop5614nachos.Threads.Kernel.{Kernel, ready_to_run, v, free_lock, wake_one, wake_all}
use cop5614nachos.Threads.Kernel.Cases.{v-cases, free_lock-cases, wake_one-cases}
use cop5614nachos.Threads.Kernel.Placed.{
  count, bit, is_blocked, is_in_p, is_in_acquire, is_in_wait, Placed, count-append,
}

-- The first of a queue counts in it.
pub first-bit :
    (u : ℕ) (rest queue : List ℕ) (b : Bool) → queue ≡ u ∷ rest → count u queue ≡ bit b → b ≡ true
first-bit u rest queue b e h =
    let one : count u (u ∷ rest) ≡ bit b = ap (count u) (sym e) ∙ h in
    let there : (u == u) ≡ true = ==_refl u in ground (arith, one, there)

rest-bit :
    (u t : ℕ) (rest queue : List ℕ) (b : Bool)
    → queue ≡ u ∷ rest
    → count t queue ≡ bit b
    → (if t == u then count t rest + 1 else count t rest) ≡ bit b
rest-bit u t rest queue b e h = ap (count t) (sym e) ∙ h

wake_semaphore-Placed :
    (s' value : ℕ) (u : ℕ) (rest : List ℕ) (k : Kernel)
    → (k.semaphore s').queue ≡ u ∷ rest
    → Placed k
    → Placed (
        ready_to_run u
          (record k { semaphore = update k.semaphore s' (record { value = value; queue = rest }) }))
wake_semaphore-Placed s' value u rest k e h =
    let waits =
      first-bit u rest ((k.semaphore s').queue) (is_blocked (k.status u) && is_in_p s' (k.resume u))
        e (h.in_semaphore s' u) in
    record {
      on_cpu = λ t. ground (arith, h.on_cpu t, waits);
      in_ready = λ t. ground (arith, h.in_ready t, waits, count-append t k.ready_list (u ∷ []));
      in_semaphore = λ s t. ground (
        arith,
        h.in_semaphore s t,
        waits,
        rest-bit u t rest ((k.semaphore s').queue)
            (is_blocked (k.status t) && is_in_p s' (k.resume t)) e (h.in_semaphore s' t),
      );
      in_lock = λ l t. ground (arith, h.in_lock l t, waits);
      in_condition = λ c t. ground (arith, h.in_condition c t, waits);
    }

wake_lock-Placed :
    (l' : ℕ) (u : ℕ) (rest : List ℕ) (k : Kernel)
    → (k.lock l').queue ≡ u ∷ rest
    → Placed k
    → Placed (
        ready_to_run u (record k {
          lock = update k.lock l' (record { is_held = false; lock_holder = none; queue = rest });
        }))
wake_lock-Placed l' u rest k e h =
    let waits =
      first-bit u rest ((k.lock l').queue)
        (is_blocked (k.status u) && is_in_acquire l' (k.resume u)) e (h.in_lock l' u) in
    record {
      on_cpu = λ t. ground (arith, h.on_cpu t, waits);
      in_ready = λ t. ground (arith, h.in_ready t, waits, count-append t k.ready_list (u ∷ []));
      in_semaphore = λ s t. ground (arith, h.in_semaphore s t, waits);
      in_lock = λ l t. ground (
        arith,
        h.in_lock l t,
        waits,
        rest-bit u t rest ((k.lock l').queue)
            (is_blocked (k.status t) && is_in_acquire l' (k.resume t)) e (h.in_lock l' t),
      );
      in_condition = λ c t. ground (arith, h.in_condition c t, waits);
    }

wake_condition-Placed :
    (c' : ℕ) (u : ℕ) (rest : List ℕ) (k : Kernel)
    → k.blocked c' ≡ u ∷ rest
    → Placed k
    → Placed (ready_to_run u (record k { blocked = update k.blocked c' rest }))
wake_condition-Placed c' u rest k e h =
    let waits =
      first-bit u rest (k.blocked c') (is_blocked (k.status u) && is_in_wait c' (k.resume u)) e
        (h.in_condition c' u) in
    record {
      on_cpu = λ t. ground (arith, h.on_cpu t, waits);
      in_ready = λ t. ground (arith, h.in_ready t, waits, count-append t k.ready_list (u ∷ []));
      in_semaphore = λ s t. ground (arith, h.in_semaphore s t, waits);
      in_lock = λ l t. ground (arith, h.in_lock l t, waits);
      in_condition = λ c t. ground (
        arith,
        h.in_condition c t,
        waits,
        rest-bit u t rest (k.blocked c') (is_blocked (k.status t) && is_in_wait c' (k.resume t)) e
            (h.in_condition c' t),
      );
    }

empty_semaphore-Placed :
    (s value : ℕ) (k : Kernel)
    → Placed k
    → Placed
        (record k { semaphore = update k.semaphore s (record (k.semaphore s) { value = value }) })
empty_semaphore-Placed s' value k h = record {
  on_cpu = h.on_cpu;
  in_ready = h.in_ready;
  in_semaphore = λ s t. ground (arith, h.in_semaphore s t);
  in_lock = h.in_lock;
  in_condition = h.in_condition;
}

empty_lock-Placed :
    (l : ℕ) (k : Kernel)
    → (k.lock l).queue ≡ []
    → Placed k
    → Placed (record k {
      lock = update k.lock l (record { is_held = false; lock_holder = none; queue = [] });
    })
empty_lock-Placed l' k e h = record {
  on_cpu = h.on_cpu;
  in_ready = h.in_ready;
  in_semaphore = h.in_semaphore;
  in_lock = λ l t. ground (arith, h.in_lock l t, ap (count t) e);
  in_condition = h.in_condition;
}

pub v-Placed : (s : ℕ) (k : Kernel) → Placed k → Placed (v s k)
v-Placed s' k h = elim (v-cases s' k) [
  | inl (none_waits, e) ↦ rw e (empty_semaphore-Placed s' ((k.semaphore s').value + 1) k h)
  | inr (u, rest, first, e) ↦
      rw e (wake_semaphore-Placed s' ((k.semaphore s').value + 1) u rest k first h)
]

pub free_lock-Placed : (l : ℕ) (k : Kernel) → Placed k → Placed (free_lock l k)
free_lock-Placed l' k h = elim (free_lock-cases l' k) [
  | inl (none_waits, e) ↦ rw e (empty_lock-Placed l' k none_waits h)
  | inr (u, rest, first, e) ↦ rw e (wake_lock-Placed l' u rest k first h)
]

pub wake_one-Placed : (c : ℕ) (k : Kernel) → Placed k → Placed (wake_one c k)
wake_one-Placed c k h = elim (wake_one-cases c k) [
  | inl e ↦ rw e h
  | inr (u, rest, first, e) ↦ rw e (wake_condition-Placed c u rest k first h)
]

pub wake_all-Placed :
    (us : List ℕ) (c : ℕ) (k : Kernel) → k.blocked c ≡ us → Placed k → Placed (wake_all us c k)
unfolding wake_all
wake_all-Placed [] c k e h = h
wake_all-Placed (u ∷ rest) c k e h =
    wake_all-Placed rest c (ready_to_run u (record k { blocked = update k.blocked c rest }))
      (rw (==_refl c) refl) (wake_condition-Placed c u rest k e h)
