-- ===== src/Threads/Kernel.antt =====
-- threads/thread.cc, scheduler.cc and synch.cc: threads, the ready list, semaphores, locks and
-- condition variables. Each operation runs with interrupts off from its start to its end or to the
-- point where the thread sleeps; `resume` says where a thread goes on when it runs again. A queue
-- is the sequence that its list stands for, a thread or an object is a number.
pub mod Steps
pub mod Placed
pub mod Cases
pub mod Moves
pub mod Wakes
pub mod Placement
pub mod Holding
pub mod Wakeups
pub mod NoneLost
pub mod Leaving
pub mod Progress
pub mod Rotation
use cop5614nachos.Base.{
  ℕ, ◌+◌, ◌-◌, Bool, true, false, not, ◌&&◌, Option, none, some, List, [], ◌∷◌, ◌++◌, ◌==◌,
  if◌then◌else◌, Array, update,
}

pub data Status : Type 0 where
  just_created running ready blocked : Status

-- Where a thread goes on: at the start of its function, in its own code, at the test of the loop in
-- `P` or in `Acquire`, at the `Acquire` that ends `Wait`, or nowhere.
pub data Resume : Type 0 where
  begins free : Resume
  in_p : ℕ → Resume
  in_acquire : ℕ → Resume
  in_wait : ℕ → ℕ → Resume
  finished : Resume

pub record Semaphore : Type 0 where
  pub value : ℕ
  pub queue : List ℕ

pub record Lock : Type 0 where
  pub is_held : Bool
  pub lock_holder : Option ℕ
  pub queue : List ℕ

-- `idle` holds while `Sleep` of the current thread waits for a thread to run.
pub record Kernel : Type 0 where
  pub current_thread : ℕ
  pub idle : Bool
  pub status : Array Status
  pub resume : Array Resume
  pub ready_list : List ℕ
  pub thread_to_be_destroyed : Option ℕ
  pub semaphore : Array Semaphore
  pub lock : Array Lock
  pub blocked : Array (List ℕ)

abbrev pub ready_to_run : ℕ → Kernel → Kernel
ready_to_run thread k = record k {
  status = update k.status thread ready;
  ready_list = k.ready_list ++ thread ∷ [];
}

abbrev pub is_new : Resume → Bool
is_new begins = true
is_new _ = false

-- `Run`: a thread that has run before returns from `SWITCH` and deletes the one that finished; a
-- new one starts its function.
abbrev pub run : ℕ → Kernel → Kernel
run thread k =
    let first_time = is_new (k.resume thread) in
    record k {
      current_thread = thread;
      idle = false;
      status = update k.status thread running;
      resume = if first_time then update k.resume thread free else k.resume;
      thread_to_be_destroyed = if first_time then k.thread_to_be_destroyed else none;
    }

-- The loop of `Sleep` that looks for a thread to run.
unfoldable pub dispatch : Kernel → Kernel
dispatch k =
    if k.idle
    then elim k.ready_list [ [] ↦ k | thread ∷ rest ↦ run thread (record k { ready_list = rest }) ]
    else k

abbrev pub asleep : Kernel → Kernel
asleep k = record k { status = update k.status k.current_thread blocked; idle = true }

unfoldable pub sleep : Kernel → Kernel
unfolding dispatch
sleep k = dispatch (asleep k)

-- `Yield`
unfoldable pub yield : Kernel → Kernel
yield k = elim k.ready_list [
  | [] ↦ k
  | thread ∷ rest ↦ run thread (ready_to_run k.current_thread (record k { ready_list = rest }))
]

-- `Fork` of a thread that was made before.
unfoldable pub fork : ℕ → Kernel → Kernel
fork thread k = ready_to_run thread (record k { resume = update k.resume thread begins })

unfoldable pub finish : Kernel → Kernel
unfolding sleep
finish k = sleep (record k {
  resume = update k.resume k.current_thread finished;
  thread_to_be_destroyed = some k.current_thread;
})

abbrev pub queue_on_semaphore : ℕ → Kernel → Kernel
queue_on_semaphore s k =
    let semaphore = k.semaphore s in
    let queue = semaphore.queue ++ k.current_thread ∷ [] in
    record k {
      semaphore = update k.semaphore s (record semaphore { queue = queue });
      resume = update k.resume k.current_thread (in_p s);
    }

abbrev pub consume : ℕ → Kernel → Kernel
consume s k =
    let semaphore = k.semaphore s in
    record k {
      semaphore = update k.semaphore s (record semaphore { value = semaphore.value - 1 });
      resume = update k.resume k.current_thread free;
    }

-- `P` from the test of its loop: asleep in the queue, or through.
unfoldable pub p : ℕ → Kernel → Kernel
unfolding sleep
p s k = if (k.semaphore s).value == 0 then sleep (queue_on_semaphore s k) else consume s k

unfoldable pub v : ℕ → Kernel → Kernel
v s k =
    let semaphore = k.semaphore s in
    let value = semaphore.value + 1 in
    elim semaphore.queue [
      | [] ↦ record k { semaphore = update k.semaphore s (record semaphore { value = value }) }
      | thread ∷ rest ↦
          ready_to_run thread
            (record k { semaphore = update k.semaphore s (record { value = value; queue = rest }) })
    ]

abbrev pub queue_on_lock : ℕ → Kernel → Kernel
queue_on_lock l k =
    let lock = k.lock l in
    let queue = lock.queue ++ k.current_thread ∷ [] in
    record k {
      lock = update k.lock l (record lock { queue = queue });
      resume = update k.resume k.current_thread (in_acquire l);
    }

abbrev pub take_lock : ℕ → Kernel → Kernel
take_lock l k =
    let lock = k.lock l in
    record k {
      lock = update k.lock l (record lock { is_held = true; lock_holder = some k.current_thread });
      resume = update k.resume k.current_thread free;
    }

-- `Acquire` from the test of its loop.
unfoldable pub acquire : ℕ → Kernel → Kernel
unfolding sleep
acquire l k = if (k.lock l).is_held then sleep (queue_on_lock l k) else take_lock l k

abbrev pub is_thread : Option ℕ → ℕ → Bool
is_thread none t = false
is_thread (some u) t = u == t

-- `isHeldByCurrentThread`
abbrev pub is_held_by_current_thread : ℕ → Kernel → Bool
is_held_by_current_thread l k = is_thread (k.lock l).lock_holder k.current_thread

-- What `Release` does for the holder.
unfoldable pub free_lock : ℕ → Kernel → Kernel
free_lock l k = elim (k.lock l).queue [
  | [] ↦ record k {
    lock = update k.lock l (record { is_held = false; lock_holder = none; queue = [] });
  }
  | thread ∷ rest ↦ ready_to_run thread (record k {
    lock = update k.lock l (record { is_held = false; lock_holder = none; queue = rest });
  })
]

unfoldable pub release : ℕ → Kernel → Kernel
unfolding free_lock
release l k = if is_held_by_current_thread l k then free_lock l k else k

abbrev pub queue_on_condition : ℕ → ℕ → Kernel → Kernel
queue_on_condition c l k = record k {
  blocked = update k.blocked c (k.blocked c ++ k.current_thread ∷ []);
  resume = update k.resume k.current_thread (in_wait c l);
}

-- `Wait` up to its `Sleep`; the `Acquire` after it is where the thread goes on.
unfoldable pub wait : ℕ → ℕ → Kernel → Kernel
unfolding release sleep
wait c l k =
    if is_held_by_current_thread l k then sleep (queue_on_condition c l (release l k)) else k

unfoldable pub wake_one : ℕ → Kernel → Kernel
wake_one c k = elim (k.blocked c) [
  | [] ↦ k
  | thread ∷ rest ↦ ready_to_run thread (record k { blocked = update k.blocked c rest })
]

unfoldable pub signal : ℕ → ℕ → Kernel → Kernel
unfolding wake_one
signal c l k = if is_held_by_current_thread l k then wake_one c k else k

-- The loop of `Broadcast`, over the threads that block.
unfoldable pub wake_all : List ℕ → ℕ → Kernel → Kernel
wake_all [] c k = k
wake_all (thread ∷ rest) c k =
    wake_all rest c (ready_to_run thread (record k { blocked = update k.blocked c rest }))

unfoldable pub broadcast : ℕ → ℕ → Kernel → Kernel
unfolding wake_all
broadcast c l k = if is_held_by_current_thread l k then wake_all (k.blocked c) c k else k
