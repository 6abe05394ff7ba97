-- ===== src/Threads/Kernel/Steps.antt =====
-- What may happen next in the kernel, and the states that it comes to.
use cop5614nachos.Base.{ℕ, ◌≡◌, false, none, [], ◌==◌}
use cop5614nachos.Threads.Kernel.{
  Kernel, just_created, running, Resume, free, in_p, in_acquire, in_wait, dispatch, yield, fork,
  finish, p, v, acquire, release, wait, signal, broadcast,
}

-- The calls that a thread makes in its own code.
pub data Action : Type 0 where
  does_p does_v does_acquire does_release : ℕ → Action
  does_wait does_signal does_broadcast : ℕ → ℕ → Action
  does_fork : ℕ → Action
  does_yield does_finish : Action

unfoldable pub perform : Action → Kernel → Kernel
unfolding p v acquire release wait signal broadcast fork yield finish
perform (does_p s) k = p s k
perform (does_v s) k = v s k
perform (does_acquire l) k = acquire l k
perform (does_release l) k = release l k
perform (does_wait c l) k = wait c l k
perform (does_signal c l) k = signal c l k
perform (does_broadcast c l) k = broadcast c l k
perform (does_fork t) k = fork t k
perform does_yield k = yield k
perform does_finish k = finish k

-- A thread is forked once.
abbrev pub Allowed : Action → Kernel → Type 0
Allowed (does_fork t) k = k.status t ≡ just_created
Allowed _ k = Unit

-- The current thread goes on where it slept.
unfoldable pub go_on : Resume → Kernel → Kernel
unfolding p acquire
go_on (in_p s) k = p s k
go_on (in_acquire l) k = acquire l k
go_on (in_wait c l) k = acquire l k
go_on _ k = k

-- A call of the current thread, its return from a sleep, or an interrupt whose handler calls `V`,
-- after which an idle kernel looks for a thread again.
pub data Step : Kernel → Kernel → Type 0 where
  calls :
      {k : Kernel} (a : Action)
      → k.idle ≡ false
      → k.resume k.current_thread ≡ free
      → Allowed a k
      → Step k (perform a k)
  goes_on : {k : Kernel} → k.idle ≡ false → Step k (go_on (k.resume k.current_thread) k)
  interrupts : {k : Kernel} (s : ℕ) → Step k (dispatch (v s k))

-- The kernel as it starts: the main thread runs, and nothing waits.
pub record Starts (k : Kernel) : Type 0 where
  pub busy : k.idle ≡ false
  pub main_runs : k.status k.current_thread ≡ running
  pub main_free : k.resume k.current_thread ≡ free
  pub others : (t : ℕ) → (t == k.current_thread) ≡ false → k.status t ≡ just_created
  pub none_ready : k.ready_list ≡ []
  pub no_waiter : (s : ℕ) → (k.semaphore s).queue ≡ []
  pub no_acquirer : (l : ℕ) → (k.lock l).queue ≡ []
  pub none_blocked : (c : ℕ) → k.blocked c ≡ []
  pub not_held : (l : ℕ) → (k.lock l).is_held ≡ false
  pub no_holder : (l : ℕ) → (k.lock l).lock_holder ≡ none

pub data Reach : Kernel → Type 0 where
  at_start : {k : Kernel} → Starts k → Reach k
  then_step : {k k' : Kernel} → Reach k → Step k k' → Reach k'
