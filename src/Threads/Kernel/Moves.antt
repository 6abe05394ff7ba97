-- ===== src/Threads/Kernel/Moves.antt =====
-- What the steps do to the places of the threads.
use cop5614nachos.Base.{ℕ, ◌≡◌, true, false, some, List, [], ◌∷◌, update, arith, inl, inr}
use cop5614nachos.Threads.Kernel.{
  Kernel, just_created, finished, ready_to_run, run, dispatch, asleep, sleep, fork, finish,
  queue_on_semaphore, consume, queue_on_lock, take_lock, queue_on_condition,
}
use cop5614nachos.Threads.Kernel.Cases.{dispatch-cases}
use cop5614nachos.Threads.Kernel.Placed.{Placed, count-append, first-ready, rest_ready}

-- The first ready thread gets the processor that is idle.
run-Placed :
    (u : ℕ) (rest : List ℕ) (k : Kernel)
    → k.ready_list ≡ u ∷ rest
    → k.idle ≡ true
    → Placed k
    → Placed (run u (record k { ready_list = rest }))
run-Placed u rest k e idle h =
    let first = first-ready u rest k e h in
    record {
      on_cpu = λ t. ground (arith, h.on_cpu t);
      in_ready = λ t. ground (arith, rest_ready u rest k e h t);
      in_semaphore = λ s t. ground (arith, h.in_semaphore s t, first);
      in_lock = λ l t. ground (arith, h.in_lock l t, first);
      in_condition = λ c t. ground (arith, h.in_condition c t, first);
    }

pub dispatch-Placed : (k : Kernel) → Placed k → Placed (dispatch k)
dispatch-Placed k h = elim (dispatch-cases k) [
  | inl e ↦ rw e h
  | inr (u, rest, idle, ready_first, e) ↦ rw e (run-Placed u rest k ready_first idle h)
]

pub sleep-Placed : (k : Kernel) → Placed (asleep k) → Placed (sleep k)
unfolding sleep
sleep-Placed k h = dispatch-Placed (asleep k) h

-- The running thread yields to the first ready one.
pub switch-Placed :
    (u : ℕ) (rest : List ℕ) (k : Kernel)
    → k.ready_list ≡ u ∷ rest
    → k.idle ≡ false
    → Placed k
    → Placed (run u (ready_to_run k.current_thread (record k { ready_list = rest })))
switch-Placed u rest k e busy h =
    let first = first-ready u rest k e h in
    let runs = h.on_cpu k.current_thread in
    record {
      on_cpu = λ t. ground (arith, h.on_cpu t);
      in_ready = λ t. ground (
        arith,
        rest_ready u rest k e h t,
        count-append t rest (k.current_thread ∷ []),
        runs,
        first,
      );
      in_semaphore = λ s t. ground (arith, h.in_semaphore s t, first, runs);
      in_lock = λ l t. ground (arith, h.in_lock l t, first, runs);
      in_condition = λ c t. ground (arith, h.in_condition c t, first, runs);
    }

-- A thread that was never forked becomes ready.
pub fork-Placed : (u : ℕ) (k : Kernel) → k.status u ≡ just_created → Placed k → Placed (fork u k)
unfolding fork
fork-Placed u k made h = record {
  on_cpu = λ t. ground (arith, h.on_cpu t);
  in_ready = λ t. ground (arith, h.in_ready t, count-append t k.ready_list (u ∷ []));
  in_semaphore = λ s t. ground (arith, h.in_semaphore s t);
  in_lock = λ l t. ground (arith, h.in_lock l t);
  in_condition = λ c t. ground (arith, h.in_condition c t);
}

-- The running thread's `resume` does not matter.
pub consume-Placed : (s : ℕ) (k : Kernel) → k.idle ≡ false → Placed k → Placed (consume s k)
consume-Placed s' k busy h =
    let runs = h.on_cpu k.current_thread in
    record {
      on_cpu = λ t. ground (arith, h.on_cpu t, runs);
      in_ready = λ t. ground (arith, h.in_ready t, runs);
      in_semaphore = λ s t. ground (arith, h.in_semaphore s t, runs);
      in_lock = λ l t. ground (arith, h.in_lock l t, runs);
      in_condition = λ c t. ground (arith, h.in_condition c t, runs);
    }

pub take_lock-Placed : (l : ℕ) (k : Kernel) → k.idle ≡ false → Placed k → Placed (take_lock l k)
take_lock-Placed l' k busy h =
    let runs = h.on_cpu k.current_thread in
    record {
      on_cpu = λ t. ground (arith, h.on_cpu t, runs);
      in_ready = λ t. ground (arith, h.in_ready t, runs);
      in_semaphore = λ s t. ground (arith, h.in_semaphore s t, runs);
      in_lock = λ l t. ground (arith, h.in_lock l t, runs);
      in_condition = λ c t. ground (arith, h.in_condition c t, runs);
    }

pub semaphore_queue-Placed :
    (s : ℕ) (k : Kernel) → k.idle ≡ false → Placed k → Placed (asleep (queue_on_semaphore s k))
semaphore_queue-Placed s' k busy h =
    let runs = h.on_cpu k.current_thread in
    record {
      on_cpu = λ t. ground (arith, h.on_cpu t, runs);
      in_ready = λ t. ground (arith, h.in_ready t, runs);
      in_semaphore = λ s t. ground (
        arith,
        h.in_semaphore s t,
        runs,
        count-append t (k.semaphore s').queue (k.current_thread ∷ []),
      );
      in_lock = λ l t. ground (arith, h.in_lock l t, runs);
      in_condition = λ c t. ground (arith, h.in_condition c t, runs);
    }

pub lock_queue-Placed :
    (l : ℕ) (k : Kernel) → k.idle ≡ false → Placed k → Placed (asleep (queue_on_lock l k))
lock_queue-Placed l' k busy h =
    let runs = h.on_cpu k.current_thread in
    record {
      on_cpu = λ t. ground (arith, h.on_cpu t, runs);
      in_ready = λ t. ground (arith, h.in_ready t, runs);
      in_semaphore = λ s t. ground (arith, h.in_semaphore s t, runs);
      in_lock = λ l t.
          ground
            (arith, h.in_lock l t, runs, count-append t (k.lock l').queue (k.current_thread ∷ []));
      in_condition = λ c t. ground (arith, h.in_condition c t, runs);
    }

pub condition_queue-Placed :
    (c l : ℕ) (k : Kernel) → k.idle ≡ false → Placed k → Placed (asleep (queue_on_condition c l k))
condition_queue-Placed c' l' k busy h =
    let runs = h.on_cpu k.current_thread in
    record {
      on_cpu = λ t. ground (arith, h.on_cpu t, runs);
      in_ready = λ t. ground (arith, h.in_ready t, runs);
      in_semaphore = λ s t. ground (arith, h.in_semaphore s t, runs);
      in_lock = λ l t. ground (arith, h.in_lock l t, runs);
      in_condition = λ c t.
          ground (
            arith,
            h.in_condition c t,
            runs,
            count-append t (k.blocked c') (k.current_thread ∷ []),
          );
    }

finished-Placed :
    (k : Kernel)
    → k.idle ≡ false
    → Placed k
    → Placed (
        asleep (record k {
          resume = update k.resume k.current_thread finished;
          thread_to_be_destroyed = some k.current_thread;
        }))
finished-Placed k busy h =
    let runs = h.on_cpu k.current_thread in
    record {
      on_cpu = λ t. ground (arith, h.on_cpu t, runs);
      in_ready = λ t. ground (arith, h.in_ready t, runs);
      in_semaphore = λ s t. ground (arith, h.in_semaphore s t, runs);
      in_lock = λ l t. ground (arith, h.in_lock l t, runs);
      in_condition = λ c t. ground (arith, h.in_condition c t, runs);
    }

pub finish-Placed : (k : Kernel) → k.idle ≡ false → Placed k → Placed (finish k)
unfolding finish
finish-Placed k busy h =
    let k1 : Kernel = record k {
      resume = update k.resume k.current_thread finished;
      thread_to_be_destroyed = some k.current_thread;
    } in
    sleep-Placed k1 (finished-Placed k busy h)
