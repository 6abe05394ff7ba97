-- ===== src/Threads/Kernel/Cases.antt =====
-- The branches of the operations, each with the state that it comes to.
use cop5614nachos.Base.{
  ℕ, ◌+◌, ◌≡◌, ◌⊎◌, true, false, none, List, [], ◌∷◌, ◌==◌, if_true, if_false, update, arith, ap,
  ◌∙◌, inl, inr, Bool-cases,
}
use cop5614nachos.Base.Lists.{List-cases}
use cop5614nachos.Threads.Kernel.{
  Kernel, ready_to_run, run, dispatch, sleep, yield, queue_on_semaphore, consume, p, v,
  queue_on_lock, take_lock, acquire, is_held_by_current_thread, free_lock, release,
  queue_on_condition, wait, wake_one, wake_all, signal, broadcast,
}

pub dispatch-cases :
    (k : Kernel)
    → (dispatch k ≡ k)
      ⊎ ((u : ℕ) × (rest : List ℕ) × (k.idle ≡ true)
          × (k.ready_list ≡ u ∷ rest)
          × (dispatch k ≡ run u (record k { ready_list = rest })))
unfolding dispatch
dispatch-cases k = elim (Bool-cases k.idle) [
  | inr busy ↦ inl (simp busy)
  | inl idle ↦ elim (List-cases k.ready_list) [
    | inl none_ready ↦ inl (simp (idle, none_ready))
    | inr (u, rest, e) ↦ inr (u, rest, idle, e, simp (idle, e))
  ]
]

pub yield-cases :
    (k : Kernel)
    → ((k.ready_list ≡ []) × (yield k ≡ k))
      ⊎ ((u : ℕ) × (rest : List ℕ) × (k.ready_list ≡ u ∷ rest)
          × (yield k ≡ run u (ready_to_run k.current_thread (record k { ready_list = rest }))))
unfolding yield
yield-cases k = elim (List-cases k.ready_list) [
  | inl none_ready ↦ inl (none_ready, simp (yield, none_ready))
  | inr (u, rest, e) ↦ inr (u, rest, e, simp (yield, e))
]

pub p-cases :
    (s : ℕ) (k : Kernel)
    → (((k.semaphore s).value ≡ 0) × (p s k ≡ sleep (queue_on_semaphore s k)))
      ⊎ (((k.semaphore s).value == 0 ≡ false) × (p s k ≡ consume s k))
unfolding p
p-cases s k = elim (Bool-cases ((k.semaphore s).value == 0)) [
  | inl empty ↦ inl (ground arith, simp empty)
  | inr positive ↦ inr (positive, simp positive)
]

pub v-cases :
    (s : ℕ) (k : Kernel)
    → (((k.semaphore s).queue ≡ [])
        × (v s k ≡ record k {
          semaphore =
              update k.semaphore s (record (k.semaphore s) { value = (k.semaphore s).value + 1 });
        }))
      ⊎ ((u : ℕ) × (rest : List ℕ) × ((k.semaphore s).queue ≡ u ∷ rest)
          × (v s k
              ≡ ready_to_run u (record k {
                semaphore =
                    update k.semaphore s
                      (record { value = (k.semaphore s).value + 1; queue = rest });
              })))
unfolding v
v-cases s k = elim (List-cases (k.semaphore s).queue) [
  | inl none_waits ↦ inl (none_waits, simp (v, none_waits))
  | inr (u, rest, e) ↦ inr (u, rest, e, simp (v, e))
]

pub acquire-cases :
    (l : ℕ) (k : Kernel)
    → (((k.lock l).is_held ≡ true) × (acquire l k ≡ sleep (queue_on_lock l k)))
      ⊎ (((k.lock l).is_held ≡ false) × (acquire l k ≡ take_lock l k))
unfolding acquire
acquire-cases l k = elim (Bool-cases (k.lock l).is_held) [
  | inl held ↦ inl (held, if_true (sleep (queue_on_lock l k)) (take_lock l k) held)
  | inr not_held ↦ inr (not_held, if_false (sleep (queue_on_lock l k)) (take_lock l k) not_held)
]

pub free_lock-cases :
    (l : ℕ) (k : Kernel)
    → (((k.lock l).queue ≡ [])
        × (free_lock l k ≡ record k {
          lock = update k.lock l (record { is_held = false; lock_holder = none; queue = [] });
        }))
      ⊎ ((u : ℕ) × (rest : List ℕ) × ((k.lock l).queue ≡ u ∷ rest)
          × (free_lock l k
              ≡ ready_to_run u (record k {
                lock =
                    update k.lock l (record { is_held = false; lock_holder = none; queue = rest });
              })))
unfolding free_lock
free_lock-cases l k = elim (List-cases (k.lock l).queue) [
  | inl none_waits ↦ inl (none_waits, simp (free_lock, none_waits))
  | inr (u, rest, e) ↦ inr (u, rest, e, simp (free_lock, e))
]

pub wake_one-cases :
    (c : ℕ) (k : Kernel)
    → (wake_one c k ≡ k)
      ⊎ ((u : ℕ) × (rest : List ℕ) × (k.blocked c ≡ u ∷ rest)
          × (wake_one c k ≡ ready_to_run u (record k { blocked = update k.blocked c rest })))
unfolding wake_one
wake_one-cases c k = elim (List-cases (k.blocked c)) [
  | inl none_waits ↦ inl (simp (wake_one, none_waits))
  | inr (u, rest, e) ↦ inr (u, rest, e, simp (wake_one, e))
]

pub release-cases :
    (l : ℕ) (k : Kernel)
    → ((is_held_by_current_thread l k ≡ true) × (release l k ≡ free_lock l k))
      ⊎ ((is_held_by_current_thread l k ≡ false) × (release l k ≡ k))
unfolding release
release-cases l k = elim (Bool-cases (is_held_by_current_thread l k)) [
  | inl holds ↦ inl (holds, simp holds)
  | inr other ↦ inr (other, simp other)
]

pub wait-cases :
    (c l : ℕ) (k : Kernel)
    → ((is_held_by_current_thread l k ≡ true)
        × (wait c l k ≡ sleep (queue_on_condition c l (free_lock l k))))
      ⊎ ((is_held_by_current_thread l k ≡ false) × (wait c l k ≡ k))
unfolding wait
wait-cases c l k = elim (release-cases l k) [
  | inl (holds, freed) ↦ inl (
    holds,
    if_true (sleep (queue_on_condition c l (release l k))) k holds
        ∙ ap (λ k'. sleep (queue_on_condition c l k')) freed,
  )
  | inr (other, same) ↦ inr (other, if_false (sleep (queue_on_condition c l (release l k))) k other)
]

pub signal-cases :
    (c l : ℕ) (k : Kernel)
    → ((is_held_by_current_thread l k ≡ true) × (signal c l k ≡ wake_one c k))
      ⊎ ((is_held_by_current_thread l k ≡ false) × (signal c l k ≡ k))
unfolding signal
signal-cases c l k = elim (Bool-cases (is_held_by_current_thread l k)) [
  | inl holds ↦ inl (holds, simp holds)
  | inr other ↦ inr (other, simp other)
]

pub broadcast-cases :
    (c l : ℕ) (k : Kernel)
    → ((is_held_by_current_thread l k ≡ true) × (broadcast c l k ≡ wake_all (k.blocked c) c k))
      ⊎ ((is_held_by_current_thread l k ≡ false) × (broadcast c l k ≡ k))
unfolding broadcast
broadcast-cases c l k = elim (Bool-cases (is_held_by_current_thread l k)) [
  | inl holds ↦ inl (holds, simp holds)
  | inr other ↦ inr (other, simp other)
]
