-- ===== src/Witnesses/Kernels.antt =====
-- Two threads of threads/thread.cc that use one lock and one semaphore.
use cop5614nachos.Base.{◌≡◌, ◌≢◌, refl, true, false, none, some, [], ◌∷◌, ◌==◌, if◌then◌else◌}
use cop5614nachos.Threads.Kernel.{
  Kernel, just_created, running, free, yield, fork, acquire, p, dispatch, sleep,
}
use cop5614nachos.Threads.Kernel.Steps.{
  does_acquire, does_fork, does_yield, does_p, perform, Step, calls, Reach, at_start, then_step,
}
use cop5614nachos.Threads.Kernel.Placed.{Placed}
use cop5614nachos.Threads.Kernel.Placement.{Reach-Placed}
use cop5614nachos.Threads.Kernel.Holding.{Reach-lock_holder}
use cop5614nachos.Threads.Kernel.Progress.{idle-value}
use cop5614nachos.Threads.Kernel.Rotation.{yields, yields-current}

-- Thread 0 runs, every semaphore is 0 and every lock is free.
abbrev start : Kernel
start = record {
  current_thread = 0;
  idle = false;
  status = λ t. if t == 0 then running else just_created;
  resume = λ t. free;
  ready_list = [];
  thread_to_be_destroyed = none;
  semaphore = λ s. record { value = 0; queue = [] };
  lock = λ l. record { is_held = false; lock_holder = none; queue = [] };
  blocked = λ c. [];
}

start-Reach : Reach start
start-Reach = at_start (record {
  busy = refl;
  main_runs = refl;
  main_free = refl;
  others = λ t other. rw other refl;
  none_ready = refl;
  no_waiter = λ s. refl;
  no_acquirer = λ l. refl;
  none_blocked = λ c. refl;
  not_held = λ l. refl;
  no_holder = λ l. refl;
})

-- Thread 0 has lock 3 and yielded to thread 1.
held : Kernel
unfolding perform acquire fork yield
held = perform does_yield (perform (does_fork 1) (perform (does_acquire 3) start))

held-Reach : Reach held
unfolding held perform acquire fork yield
held-Reach =
    then_step
      (then_step (then_step start-Reach (calls (does_acquire 3) refl refl tt))
        (calls (does_fork 1) refl refl refl))
      (calls does_yield refl refl tt)

-- Thread 1 waits for the lock, so that thread 0 runs again.
held-Step : Step held (perform (does_acquire 3) held)
unfolding held perform acquire fork yield
held-Step = calls (does_acquire 3) refl refl tt

Reach-Placed_example : Placed held
Reach-Placed_example = Reach-Placed held-Reach

holder-Holds : (held.lock 3).lock_holder ≡ some 0
unfolding held perform acquire fork yield
holder-Holds = refl

other-Runs : (0 == held.current_thread) ≡ false
unfolding held perform acquire fork yield
other-Runs = refl

Reach-lock_holder_example : ((perform (does_acquire 3) held).lock 3).lock_holder ≡ some 0
Reach-lock_holder_example = Reach-lock_holder held-Reach held-Step 3 0 holder-Holds other-Runs

-- Thread 0 sleeps on semaphore 5, and no thread is ready.
waiting : Kernel
unfolding perform p sleep dispatch
waiting = perform (does_p 5) start

waiting-Reach : Reach waiting
unfolding waiting perform p sleep dispatch
waiting-Reach = then_step start-Reach (calls (does_p 5) refl refl tt)

waiting-Idle : waiting.idle ≡ true
unfolding waiting perform p sleep dispatch
waiting-Idle = refl

waiting-None : waiting.ready_list ≡ []
unfolding waiting perform p sleep dispatch
waiting-None = refl

waiting-Queue : (waiting.semaphore 5).queue ≢ []
unfolding waiting perform p sleep dispatch
waiting-Queue e = cc

idle-value_example : (waiting.semaphore 5).value ≡ 0
idle-value_example = idle-value waiting-Reach waiting-Idle waiting-None 5 waiting-Queue

abbrev three_ready : Kernel
three_ready = record start { ready_list = 1 ∷ 2 ∷ 3 ∷ [] }

yields-current_example : (yields 2 three_ready).current_thread ≡ 2
yields-current_example = yields-current (1 ∷ []) (3 ∷ []) 2 three_ready refl
