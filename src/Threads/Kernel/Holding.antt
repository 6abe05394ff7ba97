-- ===== src/Threads/Kernel/Holding.antt =====
-- The life of a lock: what a step may do to who holds it.
use cop5614nachos.Base.{
  ℕ, ◌≡◌, refl, sym, ap, ◌∙◌, Bool, true, false, Option, none, some, List, [], ◌∷◌, ◌==◌, update,
  arith, inl, inr, Bool-cases, ==_iff,
}
use cop5614nachos.Threads.Kernel.{
  Kernel, Lock, Resume, begins, free, in_p, in_acquire, in_wait, finished, dispatch, asleep, sleep,
  ready_to_run, yield, fork, finish, p, v, acquire, is_thread, is_held_by_current_thread, free_lock,
  wake_one, wake_all, queue_on_semaphore, queue_on_lock, queue_on_condition, take_lock,
}
use cop5614nachos.Threads.Kernel.Steps.{
  Action, does_p, does_v, does_acquire, does_release, does_wait, does_signal, does_broadcast,
  does_fork, does_yield, does_finish, perform, go_on, Step, calls, goes_on, interrupts, Reach,
  at_start, then_step,
}
use cop5614nachos.Threads.Kernel.Cases.{
  dispatch-cases, yield-cases, p-cases, v-cases, acquire-cases, free_lock-cases, release-cases,
  wait-cases, wake_one-cases, signal-cases, broadcast-cases,
}

-- What thread `t` may do to the fields of a lock.
pub data LockChange (t : ℕ) (a b : Lock) : Type 0 where
  kept : b.is_held ≡ a.is_held → b.lock_holder ≡ a.lock_holder → LockChange t a b
  acquired : a.is_held ≡ false → b.is_held ≡ true → b.lock_holder ≡ some t → LockChange t a b
  released : a.lock_holder ≡ some t → b.is_held ≡ false → b.lock_holder ≡ none → LockChange t a b

same_lock : (t : ℕ) (a b : Lock) → b ≡ a → LockChange t a b
same_lock t a b e = kept (ap (λ lock. lock.is_held) e) (ap (λ lock. lock.lock_holder) e)

dispatch-lock : (k : Kernel) (l : ℕ) → (dispatch k).lock l ≡ k.lock l
dispatch-lock k l = elim (dispatch-cases k) [
  | inl e ↦ ap (λ k'. k'.lock l) e
  | inr (u, rest, idle, first, e) ↦ ap (λ k'. k'.lock l) e
]

sleep-lock : (k : Kernel) (l : ℕ) → (sleep k).lock l ≡ k.lock l
unfolding sleep
sleep-lock k l = dispatch-lock (asleep k) l

v-lock : (s : ℕ) (k : Kernel) (l : ℕ) → (v s k).lock l ≡ k.lock l
v-lock s k l = elim (v-cases s k) [
  | inl (none_waits, e) ↦ ap (λ k'. k'.lock l) e
  | inr (u, rest, first, e) ↦ ap (λ k'. k'.lock l) e
]

p-lock : (s : ℕ) (k : Kernel) (l : ℕ) → (p s k).lock l ≡ k.lock l
p-lock s k l = elim (p-cases s k) [
  | inl (empty, e) ↦ ap (λ k'. k'.lock l) e ∙ sleep-lock (queue_on_semaphore s k) l
  | inr (positive, e) ↦ ap (λ k'. k'.lock l) e
]

yield-lock : (k : Kernel) (l : ℕ) → (yield k).lock l ≡ k.lock l
yield-lock k l = elim (yield-cases k) [
  | inl (none_ready, e) ↦ ap (λ k'. k'.lock l) e
  | inr (u, rest, first, e) ↦ ap (λ k'. k'.lock l) e
]

wake_one-lock : (c : ℕ) (k : Kernel) (l : ℕ) → (wake_one c k).lock l ≡ k.lock l
wake_one-lock c k l = elim (wake_one-cases c k) [
  | inl e ↦ ap (λ k'. k'.lock l) e
  | inr (u, rest, first, e) ↦ ap (λ k'. k'.lock l) e
]

wake_all-lock : (us : List ℕ) (c : ℕ) (k : Kernel) (l : ℕ) → (wake_all us c k).lock l ≡ k.lock l
unfolding wake_all
wake_all-lock [] c k l = refl
wake_all-lock (u ∷ rest) c k l =
    wake_all-lock rest c (ready_to_run u (record k { blocked = update k.blocked c rest })) l

-- `Acquire` of a lock that is held only puts the thread in its queue.
queue-LockChange :
    (t l' : ℕ) (k : Kernel) (l : ℕ) → LockChange t (k.lock l) ((queue_on_lock l' k).lock l)
queue-LockChange t l' k l = elim (Bool-cases (l == l')) [
  | inl e ↦ kept (ground arith) (ground arith)
  | inr ne ↦ same_lock t (k.lock l) ((queue_on_lock l' k).lock l) (rw ne refl)
]

acquire-LockChange :
    (l' : ℕ) (k : Kernel) (l : ℕ) → LockChange k.current_thread (k.lock l) ((acquire l' k).lock l)
acquire-LockChange l' k l = elim (acquire-cases l' k) [
  | inl (held, e) ↦
      rw (e, sleep-lock (queue_on_lock l' k) l) (queue-LockChange k.current_thread l' k l)
  | inr (not_held, e) ↦ rw e (elim (Bool-cases (l == l')) [
    | inl here ↦ acquired (ground arith) (ground arith) (ground arith)
    | inr other ↦ same_lock k.current_thread (k.lock l) ((take_lock l' k).lock l) (rw other refl)
  ])
]

is_thread-some : (o : Option ℕ) (t : ℕ) → is_thread o t ≡ true → o ≡ some t
is_thread-some none t e = cc
is_thread-some (some u) t e = ap some (((==_iff u t).0) e)

-- `Release` by the holder frees the lock, whoever waits.
free_lock-lock :
    (l : ℕ) (k : Kernel)
    → (queue : List ℕ) × ((free_lock l k).lock
        ≡ update k.lock l (record { is_held = false; lock_holder = none; queue = queue }))
free_lock-lock l k = elim (free_lock-cases l k) [
  | inl (none_waits, e) ↦ ([], ap (λ k'. k'.lock) e)
  | inr (u, rest, first, e) ↦ (rest, ap (λ k'. k'.lock) e)
]

free_lock-LockChange :
    (l' : ℕ) (k : Kernel)
    → is_held_by_current_thread l' k ≡ true
    → (l : ℕ) → LockChange k.current_thread (k.lock l) ((free_lock l' k).lock l)
free_lock-LockChange l' k holds l =
    let (queue, e) = free_lock-lock l' k in
    let freed : Lock = record { is_held = false; lock_holder = none; queue = queue } in
    let at_l : (free_lock l' k).lock l ≡ update k.lock l' freed l = ap (λ lock. lock l) e in
    elim (Bool-cases (l == l')) [
      | inl here ↦
          let same : l ≡ l' = ((==_iff l l').0) here in
          let changed : (free_lock l' k).lock l ≡ freed = at_l ∙ rw here refl in
          released
            (ap (λ l. (k.lock l).lock_holder) same
              ∙ is_thread-some (k.lock l').lock_holder k.current_thread holds)
            (ap (λ lock. lock.is_held) changed) (ap (λ lock. lock.lock_holder) changed)
      | inr other ↦
          same_lock k.current_thread (k.lock l) ((free_lock l' k).lock l) (at_l ∙ rw other refl)
    ]

perform-LockChange :
    (a : Action) (k : Kernel) (l : ℕ)
    → LockChange k.current_thread (k.lock l) ((perform a k).lock l)
unfolding perform fork finish
perform-LockChange (does_p s) k l =
    same_lock k.current_thread (k.lock l) ((p s k).lock l) (p-lock s k l)
perform-LockChange (does_v s) k l =
    same_lock k.current_thread (k.lock l) ((v s k).lock l) (v-lock s k l)
perform-LockChange (does_acquire l') k l = acquire-LockChange l' k l
perform-LockChange (does_release l') k l = elim (release-cases l' k) [
  | inl (holds, e) ↦ rw e (free_lock-LockChange l' k holds l)
  | inr (other, e) ↦ rw e (kept refl refl)
]
perform-LockChange (does_wait c l') k l = elim (wait-cases c l' k) [
  | inl (holds, e) ↦
      rw (e, sleep-lock (queue_on_condition c l' (free_lock l' k)) l)
        (free_lock-LockChange l' k holds l)
  | inr (other, e) ↦ rw e (kept refl refl)
]
perform-LockChange (does_signal c l') k l = elim (signal-cases c l' k) [
  | inl (holds, e) ↦ rw (e, wake_one-lock c k l) (kept refl refl)
  | inr (other, e) ↦ rw e (kept refl refl)
]
perform-LockChange (does_broadcast c l') k l = elim (broadcast-cases c l' k) [
  | inl (holds, e) ↦ rw (e, wake_all-lock (k.blocked c) c k l) (kept refl refl)
  | inr (other, e) ↦ rw e (kept refl refl)
]
perform-LockChange (does_fork t) k l = kept refl refl
perform-LockChange does_yield k l = rw (yield-lock k l) (kept refl refl)
perform-LockChange does_finish k l =
    let k1 : Kernel = record k {
      resume = update k.resume k.current_thread finished;
      thread_to_be_destroyed = some k.current_thread;
    } in
    rw (sleep-lock k1 l) (kept refl refl)

go_on-LockChange :
    (r : Resume) (k : Kernel) (l : ℕ) → LockChange k.current_thread (k.lock l) ((go_on r k).lock l)
unfolding go_on
go_on-LockChange begins k l = kept refl refl
go_on-LockChange free k l = kept refl refl
go_on-LockChange (in_p s) k l = rw (p-lock s k l) (kept refl refl)
go_on-LockChange (in_acquire l') k l = acquire-LockChange l' k l
go_on-LockChange (in_wait c l') k l = acquire-LockChange l' k l
go_on-LockChange finished k l = kept refl refl

-- A step leaves a lock's holder and flag as they are, or gives a free lock to the thread that ran,
-- or frees a lock that this thread held.
pub Step-LockChange :
    {k k' : Kernel} → Step k k' → (l : ℕ) → LockChange k.current_thread (k.lock l) (k'.lock l)
Step-LockChange {k} (calls a busy at_call ok) l = perform-LockChange a k l
Step-LockChange {k} (goes_on busy) l = go_on-LockChange (k.resume k.current_thread) k l
Step-LockChange {k} (interrupts s) l = rw (dispatch-lock (v s k) l, v-lock s k l) (kept refl refl)

abbrev pub is_some : Option ℕ → Bool
is_some none = false
is_some (some t) = true

LockChange-is_held :
    (t : ℕ) (a b : Lock)
    → LockChange t a b
    → a.is_held ≡ is_some a.lock_holder
    → b.is_held ≡ is_some b.lock_holder
LockChange-is_held t a b (kept held holder) h = held ∙ h ∙ ap is_some (sym holder)
LockChange-is_held t a b (acquired was held holder) h = held ∙ ap is_some (sym holder)
LockChange-is_held t a b (released was held holder) h = held ∙ ap is_some (sym holder)

-- In every state that the kernel reaches, `isHeld` of a lock tells whether `lockHolder` is a thread.
pub Reach-is_held :
    {k' : Kernel} → Reach k' → (l : ℕ) → (k'.lock l).is_held ≡ is_some (k'.lock l).lock_holder
Reach-is_held (at_start h) l = h.not_held l ∙ ap is_some (sym (h.no_holder l))
Reach-is_held {k'} (then_step {k} r st) l =
    LockChange-is_held k.current_thread (k.lock l) (k'.lock l) (Step-LockChange st l)
      (Reach-is_held r l)

LockChange-other :
    (t u : ℕ) (a b : Lock)
    → LockChange u a b
    → a.is_held ≡ is_some a.lock_holder
    → a.lock_holder ≡ some t
    → (t == u) ≡ false
    → b.lock_holder ≡ some t
LockChange-other t u a b (kept held holder) h by_t other = holder ∙ by_t
LockChange-other t u a b (acquired was held holder) h by_t other = cc
LockChange-other t u a b (released was held holder) h by_t other = ground arith

-- Mutual exclusion: while a thread holds a lock, no step of another thread takes the lock from it,
-- in every state that the kernel reaches.
pub Reach-lock_holder :
    {k k' : Kernel}
    → Reach k
    → Step k k'
    → (l t : ℕ) → (k.lock l).lock_holder ≡ some t
    → (t == k.current_thread) ≡ false
    → (k'.lock l).lock_holder ≡ some t
Reach-lock_holder {k} {k'} r st l t by_t other =
    LockChange-other t k.current_thread (k.lock l) (k'.lock l) (Step-LockChange st l)
      (Reach-is_held r l) by_t other
