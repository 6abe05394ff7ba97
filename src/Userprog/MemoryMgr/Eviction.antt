-- ===== src/Userprog/MemoryMgr/Eviction.antt =====
-- The loop of `GetPage` that takes a frame from the processes that have it.
use cop5614nachos.Base.{
  ℕ, zero, suc, ◌+◌, ◌≤◌, ◌<◌, ◌≡◌, refl, ◌∙◌, inl, inr, true, false, Option, some, ◌&&◌, ltb, leb,
  ◌==◌, if◌then◌else◌, arith, Bool-cases, Option-cases, ◌>>=◌,
}
use cop5614nachos.Userprog.Vm.{AddrSpace, Vm, pidmap_size, store_space}
use cop5614nachos.Userprog.MemoryMgr.{page_out, page_out_loop, set_owner}

-- The space of a process after its page in the frame was written out; `none` where the process
-- has no space or no page in the frame.
abbrev pub paged_out : Vm → ℕ → ℕ → Option AddrSpace
paged_out v frame pid = v.spaces pid >>= page_out v.main_memory frame

-- The processes from `pid` on have lost the frame, and nothing else changed.
pub record Evicted (rounds pid frame : ℕ) (v w : Vm) : Type 0 where
  pub memory : w.main_memory ≡ v.main_memory
  pub map : w.mgr.memory_map ≡ v.mgr.memory_map
  pub times : w.mgr.frametime ≡ v.mgr.frametime
  pub clock : w.mgr.timestamp ≡ v.mgr.timestamp
  pub owners :
      (f q : ℕ)
      → w.mgr.frame_pid f q
        ≡ (if f == frame && (leb pid q && ltb q (pid + rounds)) then false else v.mgr.frame_pid f q)
  pub spaces :
      (q : ℕ)
      → w.spaces q ≡ (
          if v.mgr.frame_pid frame q && (leb pid q && ltb q (pid + rounds))
          then paged_out v frame q
          else v.spaces q)

-- Every process that is noted for the frame has a page in it.
abbrev pub IsHeld : Vm → ℕ → Type 0
IsHeld v frame =
    (q : ℕ)
    → q < pidmap_size
    → v.mgr.frame_pid frame q ≡ true
    → (s : AddrSpace) × (paged_out v frame q ≡ some s)

-- One round of the loop, for a process that has the frame.
abbrev pub dropped : Vm → ℕ → ℕ → AddrSpace → Vm
dropped v frame pid s = record (store_space v pid s) { mgr = set_owner v.mgr frame pid false }

pub page_out_loop-held :
    (rounds pid frame : ℕ) (v : Vm) {s : AddrSpace}
    → v.mgr.frame_pid frame pid ≡ true
    → paged_out v frame pid ≡ some s
    → page_out_loop (suc rounds) pid frame v
      ≡ page_out_loop rounds (pid + 1) frame (dropped v frame pid s)
unfolding page_out_loop
page_out_loop-held rounds pid frame v h e = ground (arith, Option-cases (v.spaces pid))

pub page_out_loop-free :
    (rounds pid frame : ℕ) (v : Vm)
    → v.mgr.frame_pid frame pid ≡ false
    → page_out_loop (suc rounds) pid frame v ≡ page_out_loop rounds (pid + 1) frame v
unfolding page_out_loop
page_out_loop-free rounds pid frame v h = rw h refl

pub page_out_loop-Evicted :
    (rounds pid frame : ℕ) (v : Vm)
    → ((q : ℕ)
        → pid ≤ q
        → q < pid + rounds
        → v.mgr.frame_pid frame q ≡ true
        → (s : AddrSpace) × (paged_out v frame q ≡ some s))
    → (w : Vm) × (page_out_loop rounds pid frame v ≡ some w) × Evicted rounds pid frame v w
unfolding page_out_loop
page_out_loop-Evicted zero pid frame v held = (
  v,
  refl,
  record {
    memory = refl;
    map = refl;
    times = refl;
    clock = refl;
    owners = λ f q. ground arith;
    spaces = λ q. ground arith;
  },
)
page_out_loop-Evicted (suc rounds) pid frame v held =
    elim (Bool-cases (v.mgr.frame_pid frame pid)) [
      | inr no_owner ↦
          let (w, e, x) =
            page_out_loop-Evicted rounds (pid + 1) frame v
              (λ q le lt. held q (omega arith) (omega arith)) in
          (
            w,
            page_out_loop-free rounds pid frame v no_owner ∙ e,
            record {
              memory = x.memory;
              map = x.map;
              times = x.times;
              clock = x.clock;
              owners = λ f q. ground (arith, x.owners f q, no_owner);
              spaces = λ q. ground (arith, x.spaces q, no_owner);
            },
          )
      | inl owner ↦
          let (s, out) = held pid (omega arith) (omega arith) owner in
          let next = dropped v frame pid s in
          let (w, e, x) = page_out_loop-Evicted rounds (pid + 1) frame next (λ q le lt flag.
            let other : (q == pid) ≡ false = ground arith in
            let flagged : v.mgr.frame_pid frame q ≡ true = ground arith in
            let (t, et) = held q (omega arith) (omega arith) flagged in (t, rw other et)) in
          (
            w,
            page_out_loop-held rounds pid frame v owner out ∙ e,
            record {
              memory = x.memory;
              map = x.map;
              times = x.times;
              clock = x.clock;
              owners = λ f q. ground (arith, x.owners f q);
              spaces = λ q. elim (Bool-cases (q == pid)) [
                | inl here ↦
                    let at : q ≡ pid = ground arith in rw at (ground (arith, x.spaces pid, out))
                | inr other ↦ ground (arith, x.spaces q)
              ];
            },
          )
    ]
