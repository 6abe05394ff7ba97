-- ===== src/Threads/Kernel/Placement.antt =====
-- No thread is lost: in every state that the kernel comes to, each thread is in one place.
use cop5614nachos.Base.{ℕ, ◌≡◌, refl, ◌∙◌, false, ◌==◌, if◌then◌else◌, arith, inl, inr, Bool-cases}
use cop5614nachos.Threads.Kernel.{
  Kernel, just_created, running, Resume, begins, free, in_p, in_acquire, in_wait, finished, yield,
  p, v, acquire, free_lock, release, wait, signal, broadcast, queue_on_semaphore, queue_on_lock,
  queue_on_condition,
}
use cop5614nachos.Threads.Kernel.Steps.{
  Action, does_p, does_v, does_acquire, does_release, does_wait, does_signal, does_broadcast,
  does_fork, does_yield, does_finish, perform, Allowed, go_on, Step, calls, goes_on, interrupts,
  Starts, Reach, at_start, then_step,
}
use cop5614nachos.Threads.Kernel.Cases.{
  yield-cases, p-cases, acquire-cases, free_lock-cases, release-cases, wait-cases, signal-cases,
  broadcast-cases,
}
use cop5614nachos.Threads.Kernel.Placed.{Placed}
use cop5614nachos.Threads.Kernel.Moves.{
  dispatch-Placed, sleep-Placed, switch-Placed, fork-Placed, finish-Placed, consume-Placed,
  take_lock-Placed, semaphore_queue-Placed, lock_queue-Placed, condition_queue-Placed,
}
use cop5614nachos.Threads.Kernel.Wakes.{
  v-Placed, free_lock-Placed, wake_one-Placed, wake_all-Placed,
}

yield-Placed : (k : Kernel) → k.idle ≡ false → Placed k → Placed (yield k)
yield-Placed k busy h = elim (yield-cases k) [
  | inl (none_ready, e) ↦ rw e h
  | inr (u, rest, first, e) ↦ rw e (switch-Placed u rest k first busy h)
]

p-Placed : (s : ℕ) (k : Kernel) → k.idle ≡ false → Placed k → Placed (p s k)
p-Placed s k busy h = elim (p-cases s k) [
  | inl (empty, e) ↦
      rw e (sleep-Placed (queue_on_semaphore s k) (semaphore_queue-Placed s k busy h))
  | inr (positive, e) ↦ rw e (consume-Placed s k busy h)
]

acquire-Placed : (l : ℕ) (k : Kernel) → k.idle ≡ false → Placed k → Placed (acquire l k)
acquire-Placed l k busy h = elim (acquire-cases l k) [
  | inl (held, e) ↦ rw e (sleep-Placed (queue_on_lock l k) (lock_queue-Placed l k busy h))
  | inr (not_held, e) ↦ rw e (take_lock-Placed l k busy h)
]

release-Placed : (l : ℕ) (k : Kernel) → Placed k → Placed (release l k)
release-Placed l k h = elim (release-cases l k) [
  | inl (holds, e) ↦ rw e (free_lock-Placed l k h)
  | inr (other, e) ↦ rw e h
]

pub free_lock-idle : (l : ℕ) (k : Kernel) → (free_lock l k).idle ≡ k.idle
free_lock-idle l k = elim (free_lock-cases l k) [
  | inl (none_waits, e) ↦ rw e refl
  | inr (u, rest, first, e) ↦ rw e refl
]

wait-Placed : (c l : ℕ) (k : Kernel) → k.idle ≡ false → Placed k → Placed (wait c l k)
wait-Placed c l k busy h = elim (wait-cases c l k) [
  | inl (holds, e) ↦ rw e (
      sleep-Placed (queue_on_condition c l (free_lock l k)) (
        condition_queue-Placed c l (free_lock l k) (free_lock-idle l k ∙ busy)
          (free_lock-Placed l k h)))
  | inr (other, e) ↦ rw e h
]

signal-Placed : (c l : ℕ) (k : Kernel) → Placed k → Placed (signal c l k)
signal-Placed c l k h = elim (signal-cases c l k) [
  | inl (holds, e) ↦ rw e (wake_one-Placed c k h)
  | inr (other, e) ↦ rw e h
]

broadcast-Placed : (c l : ℕ) (k : Kernel) → Placed k → Placed (broadcast c l k)
broadcast-Placed c l k h = elim (broadcast-cases c l k) [
  | inl (holds, e) ↦ rw e (wake_all-Placed (k.blocked c) c k refl h)
  | inr (other, e) ↦ rw e h
]

perform-Placed :
    (a : Action) (k : Kernel) → k.idle ≡ false → Allowed a k → Placed k → Placed (perform a k)
unfolding perform
perform-Placed (does_p s) k busy ok h = p-Placed s k busy h
perform-Placed (does_v s) k busy ok h = v-Placed s k h
perform-Placed (does_acquire l) k busy ok h = acquire-Placed l k busy h
perform-Placed (does_release l) k busy ok h = release-Placed l k h
perform-Placed (does_wait c l) k busy ok h = wait-Placed c l k busy h
perform-Placed (does_signal c l) k busy ok h = signal-Placed c l k h
perform-Placed (does_broadcast c l) k busy ok h = broadcast-Placed c l k h
perform-Placed (does_fork t) k busy ok h = fork-Placed t k ok h
perform-Placed does_yield k busy ok h = yield-Placed k busy h
perform-Placed does_finish k busy ok h = finish-Placed k busy h

go_on-Placed : (r : Resume) (k : Kernel) → k.idle ≡ false → Placed k → Placed (go_on r k)
unfolding go_on
go_on-Placed begins k busy h = h
go_on-Placed free k busy h = h
go_on-Placed (in_p s) k busy h = p-Placed s k busy h
go_on-Placed (in_acquire l) k busy h = acquire-Placed l k busy h
go_on-Placed (in_wait c l) k busy h = acquire-Placed l k busy h
go_on-Placed finished k busy h = h

-- Every step keeps each thread in the one place that its status and its `resume` name.
pub Step-Placed : {k k' : Kernel} → Step k k' → Placed k → Placed k'
Step-Placed {k} (calls a busy at_call ok) h = perform-Placed a k busy ok h
Step-Placed {k} (goes_on busy) h = go_on-Placed (k.resume k.current_thread) k busy h
Step-Placed {k} (interrupts s) h = dispatch-Placed (v s k) (v-Placed s k h)

start-status :
    (k : Kernel)
    → Starts k
    → (t : ℕ) → k.status t ≡ (if t == k.current_thread then running else just_created)
start-status k h t = elim (Bool-cases (t == k.current_thread)) [
  | inl e ↦ ground (arith, h.main_runs)
  | inr ne ↦ ground (arith, h.others t)
]

Starts-Placed : (k : Kernel) → Starts k → Placed k
Starts-Placed k h = record {
  on_cpu = λ t. ground (arith, start-status k h t, h.busy);
  in_ready = λ t. rw h.none_ready (ground (arith, start-status k h t));
  in_semaphore = λ s t. rw (h.no_waiter s) (ground (arith, start-status k h t));
  in_lock = λ l t. rw (h.no_acquirer l) (ground (arith, start-status k h t));
  in_condition = λ c t. rw (h.none_blocked c) (ground (arith, start-status k h t));
}

-- In every state that the kernel reaches, a thread stands once in the one queue that its status and
-- its `resume` name and in no other: a ready thread once in the ready list, a thread that sleeps in
-- `P`, `Acquire` or `Wait` once in the queue of that object, and only the current thread runs.
pub Reach-Placed : {k : Kernel} → Reach k → Placed k
Reach-Placed {k} (at_start h) = Starts-Placed k h
Reach-Placed (then_step r st) = Step-Placed st (Reach-Placed r)
