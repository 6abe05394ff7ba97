-- ===== src/Threads/Kernel/Progress.antt =====
-- The states that the kernel reaches are wakeful, so that an idle kernel has missed no wake-up.
use cop5614nachos.Base.{ℕ, ◌≡◌, ◌≢◌, refl, ap, ◌∙◌, true, false, some, [], update, arith, inl, inr}
use cop5614nachos.Threads.Kernel.{
  Kernel, Resume, begins, free, in_p, in_acquire, in_wait, finished, dispatch, yield, fork, finish,
  v, free_lock, wait, wake_one, wake_all, queue_on_condition,
}
use cop5614nachos.Threads.Kernel.Cases.{
  free_lock-cases, release-cases, wait-cases, signal-cases, broadcast-cases,
}
use cop5614nachos.Threads.Kernel.Placed.{Placed}
use cop5614nachos.Threads.Kernel.Steps.{
  Action, does_p, does_v, does_acquire, does_release, does_wait, does_signal, does_broadcast,
  does_fork, does_yield, does_finish, perform, Allowed, go_on, calls, goes_on, interrupts, Reach,
  at_start, then_step,
}
use cop5614nachos.Threads.Kernel.Placement.{free_lock-idle, Reach-Placed}
use cop5614nachos.Threads.Kernel.Wakes.{free_lock-Placed}
use cop5614nachos.Threads.Kernel.Wakeups.{on_the_way, Wakeful, dispatch-on_the_way}
use cop5614nachos.Threads.Kernel.NoneLost.{
  same-Wakeful, sleep-Wakeful, Only, Nowhere, p-Wakeful, leave-Wakeful, acquire-Wakeful, v-Wakeful,
  dispatch-semaphore,
}
use cop5614nachos.Threads.Kernel.Leaving.{
  Leaves-Wakeful, free_lock-Leaves, wake_one-Leaves, wake_all-Leaves, yield-Leaves, fork-Leaves,
}

free_lock-current : (l : ℕ) (k : Kernel) → (free_lock l k).current_thread ≡ k.current_thread
free_lock-current l k = elim (free_lock-cases l k) [
  | inl (none_waits, e) ↦ ap (λ k'. k'.current_thread) e
  | inr (u, rest, first, e) ↦ ap (λ k'. k'.current_thread) e
]

free_lock-resume : (l : ℕ) (k : Kernel) → (free_lock l k).resume ≡ k.resume
free_lock-resume l k = elim (free_lock-cases l k) [
  | inl (none_waits, e) ↦ ap (λ k'. k'.resume) e
  | inr (u, rest, first, e) ↦ ap (λ k'. k'.resume) e
]

wait-Wakeful :
    (c l : ℕ) (k : Kernel)
    → k.idle ≡ false
    → Placed k
    → Nowhere k
    → (s : ℕ) → Wakeful (k.semaphore s) (on_the_way s k)
    → Wakeful ((wait c l k).semaphore s) (on_the_way s (wait c l k))
wait-Wakeful c l k busy placed nowhere s h = elim (wait-cases c l k) [
  | inl (holds, e) ↦
      let k1 : Kernel = free_lock l k in
      let freed = Leaves-Wakeful k k1 (free_lock-Leaves l k) s h in
      let still : k1.current_thread ≡ k.current_thread = free_lock-current l k in
      let same : k1.resume ≡ k.resume = free_lock-resume l k in
      rw e (
        sleep-Wakeful s (queue_on_condition c l k1) (
          leave-Wakeful k1 (in_wait c l) (free_lock-idle l k ∙ busy) (free_lock-Placed l k placed)
            (λ s'. rw (still, same) (nowhere s')) s freed))
  | inr (other, e) ↦ rw e h
]

finish-Wakeful :
    (k : Kernel)
    → k.idle ≡ false
    → Placed k
    → Nowhere k
    → (s : ℕ) → Wakeful (k.semaphore s) (on_the_way s k)
    → Wakeful ((finish k).semaphore s) (on_the_way s (finish k))
unfolding finish
finish-Wakeful k busy placed nowhere s h =
    let k1 : Kernel = record k {
      resume = update k.resume k.current_thread finished;
      thread_to_be_destroyed = some k.current_thread;
    } in
    sleep-Wakeful s k1 (leave-Wakeful k finished busy placed nowhere s h)

perform-Wakeful :
    (a : Action) (k : Kernel)
    → k.idle ≡ false
    → Placed k
    → Nowhere k
    → Allowed a k
    → (s : ℕ) → Wakeful (k.semaphore s) (on_the_way s k)
    → Wakeful ((perform a k).semaphore s) (on_the_way s (perform a k))
unfolding perform Only
perform-Wakeful (does_p s') k busy placed nowhere ok s h =
    p-Wakeful s' k busy placed (λ t ne. nowhere t) s h
perform-Wakeful (does_v s') k busy placed nowhere ok s h = v-Wakeful s' k placed s h
perform-Wakeful (does_acquire l) k busy placed nowhere ok s h =
    acquire-Wakeful l k busy placed nowhere s h
perform-Wakeful (does_release l) k busy placed nowhere ok s h = elim (release-cases l k) [
  | inl (holds, e) ↦ rw e (Leaves-Wakeful k (free_lock l k) (free_lock-Leaves l k) s h)
  | inr (other, e) ↦ rw e h
]
perform-Wakeful (does_wait c l) k busy placed nowhere ok s h =
    wait-Wakeful c l k busy placed nowhere s h
perform-Wakeful (does_signal c l) k busy placed nowhere ok s h = elim (signal-cases c l k) [
  | inl (holds, e) ↦ rw e (Leaves-Wakeful k (wake_one c k) (wake_one-Leaves c k) s h)
  | inr (other, e) ↦ rw e h
]
perform-Wakeful (does_broadcast c l) k busy placed nowhere ok s h = elim (broadcast-cases c l k) [
  | inl (holds, e) ↦
      rw e (Leaves-Wakeful k (wake_all (k.blocked c) c k) (wake_all-Leaves (k.blocked c) c k) s h)
  | inr (other, e) ↦ rw e h
]
perform-Wakeful (does_fork t) k busy placed nowhere ok s h =
    Leaves-Wakeful k (fork t k) (fork-Leaves t k placed ok) s h
perform-Wakeful does_yield k busy placed nowhere ok s h =
    Leaves-Wakeful k (yield k) (yield-Leaves k busy) s h
perform-Wakeful does_finish k busy placed nowhere ok s h = finish-Wakeful k busy placed nowhere s h

go_on-Wakeful :
    (r : Resume) (k : Kernel)
    → k.resume k.current_thread ≡ r
    → k.idle ≡ false
    → Placed k
    → (s : ℕ) → Wakeful (k.semaphore s) (on_the_way s k)
    → Wakeful ((go_on r k).semaphore s) (on_the_way s (go_on r k))
unfolding go_on Only
go_on-Wakeful begins k at busy placed s h = h
go_on-Wakeful free k at busy placed s h = h
go_on-Wakeful (in_p s') k at busy placed s h = p-Wakeful s' k busy placed (λ t ne. rw at ne) s h
go_on-Wakeful (in_acquire l) k at busy placed s h =
    acquire-Wakeful l k busy placed (λ t. rw at refl) s h
go_on-Wakeful (in_wait c l) k at busy placed s h =
    acquire-Wakeful l k busy placed (λ t. rw at refl) s h
go_on-Wakeful finished k at busy placed s h = h

pub Reach-Wakeful : {k' : Kernel} → Reach k' → (s : ℕ) → Wakeful (k'.semaphore s) (on_the_way s k')
Reach-Wakeful (at_start h) s = λ waits. absurd (waits (h.no_waiter s))
Reach-Wakeful (then_step {k} r (calls a busy at_call ok)) s =
    perform-Wakeful a k busy (Reach-Placed r) (λ t. rw at_call refl) ok s (Reach-Wakeful r s)
Reach-Wakeful (then_step {k} r (goes_on busy)) s =
    go_on-Wakeful (k.resume k.current_thread) k refl busy (Reach-Placed r) s (Reach-Wakeful r s)
Reach-Wakeful (then_step {k} r (interrupts s')) s =
    let woken = v-Wakeful s' k (Reach-Placed r) s (Reach-Wakeful r s) in
    same-Wakeful s (v s' k) (dispatch (v s' k)) (dispatch-semaphore (v s' k) s)
      (omega (arith, dispatch-on_the_way s (v s' k))) woken

-- In a state that the kernel reaches, when it idles with no thread ready, every semaphore that threads
-- sleep on is 0: no thread sleeps on a semaphore that it could pass.
pub idle-value :
    {k : Kernel}
    → Reach k
    → k.idle ≡ true
    → k.ready_list ≡ []
    → (s : ℕ) → (k.semaphore s).queue ≢ []
    → (k.semaphore s).value ≡ 0
idle-value {k} r idle none_ready s waits =
    let way : on_the_way s k ≡ 0 = rw (idle, none_ready) refl in
    omega (arith, Reach-Wakeful r s waits)
