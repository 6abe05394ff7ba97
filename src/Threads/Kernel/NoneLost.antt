-- ===== src/Threads/Kernel/NoneLost.antt =====
-- The operations keep semaphores wakeful, and so does every step.
use cop5614nachos.Base.{
  ℕ, ◌+◌, ◌≤◌, ◌≡◌, ◌≢◌, refl, sym, ap, ◌∙◌, Bool, true, false, ◌&&◌, List, [], ◌∷◌, ◌==◌, update,
  arith, inl, inr, Bool-cases, ==_refl, ==_iff,
}
use cop5614nachos.Threads.Kernel.{
  Kernel, Resume, free, in_p, in_acquire, dispatch, asleep, sleep, ready_to_run, p, v, acquire,
  queue_on_semaphore, consume, queue_on_lock,
}
use cop5614nachos.Threads.Kernel.Cases.{dispatch-cases, p-cases, v-cases, acquire-cases}
use cop5614nachos.Threads.Kernel.Placed.{count, bit, is_blocked, is_in_p, Placed}
use cop5614nachos.Threads.Kernel.Wakeups.{
  in_p_count, on_the_way, Wakeful, in_p_count-append, in_p_count-update, dispatch-on_the_way,
}
use cop5614nachos.Threads.Kernel.Wakes.{first-bit}

pub same-Wakeful :
    (s : ℕ) (k k' : Kernel)
    → k'.semaphore s ≡ k.semaphore s
    → on_the_way s k ≤ on_the_way s k'
    → Wakeful (k.semaphore s) (on_the_way s k)
    → Wakeful (k'.semaphore s) (on_the_way s k')
same-Wakeful s k k' e more h waits =
    let value = ap (λ semaphore. semaphore.value) e in
    let old = h (λ none_waits. waits (ap (λ semaphore. semaphore.queue) e ∙ none_waits)) in
    omega arith

pub current-ready :
    (k : Kernel) → k.idle ≡ false → Placed k → count k.current_thread k.ready_list ≡ 0
current-ready k busy h =
    let here : (k.current_thread == k.current_thread) ≡ true = ==_refl k.current_thread in
    ground (arith, h.in_ready k.current_thread, h.on_cpu k.current_thread)

pub dispatch-semaphore : (k : Kernel) (s : ℕ) → (dispatch k).semaphore s ≡ k.semaphore s
dispatch-semaphore k s = elim (dispatch-cases k) [
  | inl e ↦ ap (λ k'. k'.semaphore s) e
  | inr (u, rest, idle, first, e) ↦ ap (λ k'. k'.semaphore s) e
]

-- Going to sleep is wakeful when the state before the dispatch is.
pub sleep-Wakeful :
    (s : ℕ) (k : Kernel)
    → Wakeful (k.semaphore s) (in_p_count s k.resume k.ready_list)
    → Wakeful ((sleep k).semaphore s) (on_the_way s (sleep k))
unfolding sleep
sleep-Wakeful s k h =
    same-Wakeful s (asleep k) (dispatch (asleep k)) (dispatch-semaphore (asleep k) s)
      (omega (arith, dispatch-on_the_way s (asleep k))) (λ waits. omega (arith, h waits))

-- The current thread is on the way to the semaphore `s'` at most.
unfoldable pub Only : ℕ → Kernel → Type 0
Only s' k = (s : ℕ) → (s == s') ≡ false → is_in_p s (k.resume k.current_thread) ≡ false

bit_le : (b : Bool) → bit b ≤ 1
bit_le true = omega arith
bit_le false = omega arith

-- The threads on the way once the current one goes elsewhere.
away :
    (s : ℕ) (k : Kernel) (r : Resume)
    → k.idle ≡ false
    → Placed k
    → in_p_count s (update k.resume k.current_thread r) k.ready_list
        + bit (is_in_p s (k.resume k.current_thread))
      ≡ on_the_way s k
away s k r busy placed =
    rw
      (
        busy,
        in_p_count-update s k.current_thread k.resume r k.ready_list (current-ready k busy placed),
      )
      refl

queue-Wakeful :
    (s' : ℕ) (k : Kernel)
    → k.idle ≡ false
    → Placed k
    → Only s' k
    → (k.semaphore s').value ≡ 0
    → (s : ℕ) → Wakeful (k.semaphore s) (on_the_way s k)
    → Wakeful
        ((queue_on_semaphore s' k).semaphore s)
        (in_p_count s (update k.resume k.current_thread (in_p s')) k.ready_list)
unfolding Only
queue-Wakeful s' k busy placed only empty s h = elim (Bool-cases (s == s')) [
  | inl here ↦ rw here (λ waits. omega (arith, empty))
  | inr other ↦
      rw other
        (λ waits. omega (arith, h waits, away s k (in_p s') busy placed, ap bit (only s other)))
]

consume-Wakeful :
    (s' : ℕ) (k : Kernel)
    → k.idle ≡ false
    → Placed k
    → Only s' k
    → (s : ℕ) → Wakeful (k.semaphore s) (on_the_way s k)
    → Wakeful ((consume s' k).semaphore s) (on_the_way s (consume s' k))
unfolding Only
consume-Wakeful s' k busy placed only s h =
    let at_cpu : (k.current_thread == k.current_thread) ≡ true = ==_refl k.current_thread in
    elim (Bool-cases (s == s')) [
      | inl here ↦
          let same : s ≡ s' = ((==_iff s s').0) here in
          rw (here, busy, at_cpu)
            (λ waits.
              let old = h (λ e. waits (ap (λ t. (k.semaphore t).queue) (sym same) ∙ e)) in
              let value = ap (λ t. (k.semaphore t).value) same in
              let woken : bit (is_in_p s (k.resume k.current_thread)) ≤ 1 =
                bit_le (is_in_p s (k.resume k.current_thread)) in
              omega (arith, away s k free busy placed))
      | inr other ↦
          rw (other, busy, at_cpu)
            (λ waits. omega (arith, h waits, away s k free busy placed, ap bit (only s other)))
    ]

pub p-Wakeful :
    (s' : ℕ) (k : Kernel)
    → k.idle ≡ false
    → Placed k
    → Only s' k
    → (s : ℕ) → Wakeful (k.semaphore s) (on_the_way s k)
    → Wakeful ((p s' k).semaphore s) (on_the_way s (p s' k))
p-Wakeful s' k busy placed only s h = elim (p-cases s' k) [
  | inl (empty, e) ↦
      rw e
        (sleep-Wakeful s (queue_on_semaphore s' k) (queue-Wakeful s' k busy placed only empty s h))
  | inr (positive, e) ↦ rw e (consume-Wakeful s' k busy placed only s h)
]

-- The current thread is on the way to no semaphore.
abbrev pub Nowhere : Kernel → Type 0
Nowhere k = (s : ℕ) → is_in_p s (k.resume k.current_thread) ≡ false

pub leave-Wakeful :
    (k : Kernel) (r : Resume)
    → k.idle ≡ false
    → Placed k
    → Nowhere k
    → (s : ℕ) → Wakeful (k.semaphore s) (on_the_way s k)
    → Wakeful (k.semaphore s) (in_p_count s (update k.resume k.current_thread r) k.ready_list)
leave-Wakeful k r busy placed nowhere s h waits =
    omega (arith, h waits, away s k r busy placed, ap bit (nowhere s))

pub acquire-Wakeful :
    (l : ℕ) (k : Kernel)
    → k.idle ≡ false
    → Placed k
    → Nowhere k
    → (s : ℕ) → Wakeful (k.semaphore s) (on_the_way s k)
    → Wakeful ((acquire l k).semaphore s) (on_the_way s (acquire l k))
acquire-Wakeful l k busy placed nowhere s h = elim (acquire-cases l k) [
  | inl (held, e) ↦
      rw e (
        sleep-Wakeful s (queue_on_lock l k)
          (leave-Wakeful k (in_acquire l) busy placed nowhere s h))
  | inr (not_held, e) ↦
      rw e (λ waits. omega (arith, leave-Wakeful k free busy placed nowhere s h waits))
]

-- A thread that gets ready comes on the way, if anywhere.
pub ready-on_the_way :
    (s u : ℕ) (k : Kernel)
    → on_the_way s (ready_to_run u k) ≡ on_the_way s k + bit (is_in_p s (k.resume u))
ready-on_the_way s u k = omega (arith, in_p_count-append s k.resume k.ready_list (u ∷ []))

nonempty : (u : ℕ) (rest : List ℕ) → u ∷ rest ≢ []
nonempty u rest e = cc

pub v-Wakeful :
    (s' : ℕ) (k : Kernel)
    → Placed k
    → (s : ℕ) → Wakeful (k.semaphore s) (on_the_way s k)
    → Wakeful ((v s' k).semaphore s) (on_the_way s (v s' k))
v-Wakeful s' k placed s h = elim (v-cases s' k) [
  | inl (none_waits, e) ↦ rw e (elim (Bool-cases (s == s')) [
    | inl here ↦ rw here (λ waits. absurd (waits none_waits))
    | inr other ↦ rw other h
  ])
  | inr (u, rest, first, e) ↦
      let woken : (is_blocked (k.status u) && is_in_p s' (k.resume u)) ≡ true =
        first-bit u rest (k.semaphore s').queue (is_blocked (k.status u) && is_in_p s' (k.resume u))
          first (placed.in_semaphore s' u) in
      rw e (elim (Bool-cases (s == s')) [
        | inl here ↦
            let same : s ≡ s' = ((==_iff s s').0) here in
            let value = ap (λ t. (k.semaphore t).value) same in
            let arrives : bit (is_in_p s (k.resume u)) ≡ 1 = ground (arith, woken, same) in
            let old = h λ empty.
              nonempty u rest (sym first ∙ ap (λ t. (k.semaphore t).queue) (sym same) ∙ empty) in
            rw here (λ waits. omega (arith, in_p_count-append s k.resume k.ready_list (u ∷ [])))
        | inr other ↦
            rw other
              (λ waits. omega (arith, h waits, in_p_count-append s k.resume k.ready_list (u ∷ [])))
      ])
]
