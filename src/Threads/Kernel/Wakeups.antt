-- ===== src/Threads/Kernel/Wakeups.antt =====
-- No wake-up is lost: a positive semaphore that has a queue has as many woken threads on their way.
use cop5614nachos.Base.{
  ℕ, ◌+◌, ◌≤◌, ◌≡◌, ◌≢◌, refl, ap, ◌∙◌, true, false, not, ◌&&◌, List, [], ◌∷◌, ◌++◌, ◌==◌, Array,
  update, arith, inl, inr, Bool-cases, ==_refl, if_true, if_false,
}
use cop5614nachos.Threads.Kernel.{Kernel, Semaphore, Resume, free, is_new, dispatch, run}
use cop5614nachos.Threads.Kernel.Cases.{dispatch-cases}
use cop5614nachos.Threads.Kernel.Placed.{count, bit, is_in_p}

-- How many threads of a list go on at the test in `P` of the semaphore.
abbrev pub in_p_count : ℕ → Array Resume → List ℕ → ℕ
in_p_count s resume [] = 0
in_p_count s resume (u ∷ us) = bit (is_in_p s (resume u)) + in_p_count s resume us

-- The threads that were woken for the semaphore, or run to its test.
abbrev pub on_the_way : ℕ → Kernel → ℕ
on_the_way s k =
    in_p_count s k.resume k.ready_list + bit (not k.idle && is_in_p s (k.resume k.current_thread))

-- The value of a semaphore that has a queue is at most the number of threads on the way to it.
abbrev pub Wakeful : Semaphore → ℕ → Type 0
Wakeful semaphore way = semaphore.queue ≢ [] → semaphore.value ≤ way

pub in_p_count-append :
    (s : ℕ) (resume : Array Resume) (us vs : List ℕ)
    → in_p_count s resume (us ++ vs) ≡ in_p_count s resume us + in_p_count s resume vs
in_p_count-append s resume [] vs = omega arith
in_p_count-append s resume (u ∷ us) vs = omega (arith, in_p_count-append s resume us vs)

-- A thread that is not in the list does not count, whatever its `resume`.
pub in_p_count-update :
    (s u : ℕ) (resume : Array Resume) (r : Resume) (us : List ℕ)
    → count u us ≡ 0
    → in_p_count s (update resume u r) us ≡ in_p_count s resume us
in_p_count-update s u resume r [] out = refl
in_p_count-update s u resume r (t ∷ us) out =
    let apart : (t == u) ≡ false = ground arith in
    let later : count u us ≡ 0 = ground arith in
    rw (apart, in_p_count-update s u resume r us later) refl

-- A thread that starts is on the way nowhere, before or after.
in_p_count-starts :
    (s u : ℕ) (resume : Array Resume) (us : List ℕ)
    → is_new (resume u) ≡ true
    → in_p_count s (update resume u free) us ≡ in_p_count s resume us
in_p_count-starts s u resume [] new_one = refl
in_p_count-starts s u resume (t ∷ us) new_one =
    ground (arith, in_p_count-starts s u resume us new_one)

-- `Run` changes no place in `P`.
pub run-in_p_count :
    (s u : ℕ) (k : Kernel) (us : List ℕ)
    → in_p_count s (run u k).resume us ≡ in_p_count s k.resume us
run-in_p_count s u k us = elim (Bool-cases (is_new (k.resume u))) [
  | inl new_one ↦
      ap (λ r. in_p_count s r us) (if_true (update k.resume u free) k.resume new_one)
      ∙ in_p_count-starts s u k.resume us new_one
  | inr old ↦ ap (λ r. in_p_count s r us) (if_false (update k.resume u free) k.resume old)
]

pub run-is_in_p : (s u : ℕ) (k : Kernel) → is_in_p s ((run u k).resume u) ≡ is_in_p s (k.resume u)
run-is_in_p s u k = ground (arith, ==_refl u)

pub dispatch-on_the_way : (s : ℕ) (k : Kernel) → on_the_way s (dispatch k) ≡ on_the_way s k
dispatch-on_the_way s k = elim (dispatch-cases k) [
  | inl e ↦ ap (on_the_way s) e
  | inr (u, rest, idle, first, e) ↦
      ap (on_the_way s) e
      ∙ rw (idle, first)
          (omega (
            arith,
            run-in_p_count s u (record k { ready_list = rest }) rest,
            ap bit (run-is_in_p s u (record k { ready_list = rest })),
          ))
]
