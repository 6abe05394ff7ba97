-- ===== src/Threads/Kernel/Leaving.antt =====
-- The operations that leave the semaphores alone lose no thread on its way to one.
use cop5614nachos.Base.{
  ℕ, ◌≤◌, ◌≡◌, refl, ap, ◌∙◌, false, not, ◌&&◌, none, List, [], ◌∷◌, ◌++◌, Array, update, arith,
  inl, inr,
}
use cop5614nachos.Threads.Kernel.{
  Kernel, Lock, just_created, begins, ready_to_run, yield, fork, free_lock, wake_one, wake_all,
}
use cop5614nachos.Threads.Kernel.Cases.{yield-cases, free_lock-cases, wake_one-cases}
use cop5614nachos.Threads.Kernel.Placed.{count, bit, is_in_p, Placed}
use cop5614nachos.Threads.Kernel.Wakeups.{
  on_the_way, Wakeful, in_p_count-append, in_p_count-update, run-in_p_count, run-is_in_p,
}
use cop5614nachos.Threads.Kernel.NoneLost.{same-Wakeful}

-- What a step leaves of the semaphores: the same ones, and no fewer threads on the way.
pub record Leaves (k k' : Kernel) : Type 0 where
  semaphores : (s : ℕ) → k'.semaphore s ≡ k.semaphore s
  way : (s : ℕ) → on_the_way s k ≤ on_the_way s k'

pub Leaves-Wakeful :
    (k k' : Kernel)
    → Leaves k k'
    → (s : ℕ) → Wakeful (k.semaphore s) (on_the_way s k)
    → Wakeful (k'.semaphore s) (on_the_way s k')
Leaves-Wakeful k k' same s h = same-Wakeful s k k' (same.semaphores s) (same.way s) h

same-Leaves : (k k' : Kernel) → k' ≡ k → Leaves k k'
same-Leaves k k' e = rw e (record { semaphores = λ s. refl; way = λ s. omega arith })

-- A thread that gets ready, while only locks and conditions change.
ready-Leaves :
    (u : ℕ) (k : Kernel) (lock : Array Lock) (waiters : Array (List ℕ))
    → Leaves k (ready_to_run u (record k { lock = lock; blocked = waiters }))
ready-Leaves u k lock waiters = record {
  semaphores = λ s. refl;
  way = λ s. omega (arith, in_p_count-append s k.resume k.ready_list (u ∷ []));
}

Leaves-trans : (a b c : Kernel) → Leaves a b → Leaves b c → Leaves a c
Leaves-trans a b c ab bc = record {
  semaphores = λ s. bc.semaphores s ∙ ab.semaphores s;
  way = λ s. omega (arith, ab.way s, bc.way s);
}

pub free_lock-Leaves : (l : ℕ) (k : Kernel) → Leaves k (free_lock l k)
free_lock-Leaves l k = elim (free_lock-cases l k) [
  | inl (none_waits, e) ↦ rw e (record { semaphores = λ s. refl; way = λ s. omega arith })
  | inr (u, rest, first, e) ↦ rw e (
      ready-Leaves u k
        (update k.lock l (record { is_held = false; lock_holder = none; queue = rest })) k.blocked)
]

pub wake_one-Leaves : (c : ℕ) (k : Kernel) → Leaves k (wake_one c k)
wake_one-Leaves c k = elim (wake_one-cases c k) [
  | inl e ↦ same-Leaves k (wake_one c k) e
  | inr (u, rest, first, e) ↦ rw e (ready-Leaves u k k.lock (update k.blocked c rest))
]

pub wake_all-Leaves : (us : List ℕ) (c : ℕ) (k : Kernel) → Leaves k (wake_all us c k)
unfolding wake_all
wake_all-Leaves [] c k = same-Leaves k k refl
wake_all-Leaves (u ∷ rest) c k =
    let k1 : Kernel = ready_to_run u (record k { blocked = update k.blocked c rest }) in
    Leaves-trans k k1 (wake_all rest c k1) (ready-Leaves u k k.lock (update k.blocked c rest))
      (wake_all-Leaves rest c k1)

pub yield-Leaves : (k : Kernel) → k.idle ≡ false → Leaves k (yield k)
yield-Leaves k busy = elim (yield-cases k) [
  | inl (none_ready, e) ↦ same-Leaves k (yield k) e
  | inr (u, rest, first, e) ↦
      let k1 : Kernel = ready_to_run k.current_thread (record k { ready_list = rest }) in
      rw e (record {
        semaphores = λ s. refl;
        way = λ s.
            rw (first, busy)
              (omega (
                arith,
                run-in_p_count s u k1 (rest ++ k.current_thread ∷ []),
                in_p_count-append s k.resume rest (k.current_thread ∷ []),
                ap bit (run-is_in_p s u k1),
              ));
      })
]

pub fork-Leaves : (t : ℕ) (k : Kernel) → Placed k → k.status t ≡ just_created → Leaves k (fork t k)
unfolding fork
fork-Leaves t k placed made =
    let out : count t k.ready_list ≡ 0 = placed.in_ready t ∙ rw made refl in
    let cpu = placed.on_cpu t in
    record {
      semaphores = λ s. refl;
      way = λ s.
          let kept : bit (not k.idle && is_in_p s (update k.resume t begins k.current_thread))
              ≡ bit (not k.idle && is_in_p s (k.resume k.current_thread)) =
            ground (arith, cpu, made) in
          omega (
            arith,
            in_p_count-append s (update k.resume t begins) k.ready_list (t ∷ []),
            in_p_count-update s t k.resume begins k.ready_list out,
            kept,
          );
    }
