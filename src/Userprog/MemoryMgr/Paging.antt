-- ===== src/Userprog/MemoryMgr/Paging.antt =====
-- What `GetPage` of userprog/memorymgr.cc does: with a frame free, with none, and with a process gone.
use cop5614nachos.Base.{
  ℕ, zero, suc, ◌+◌, ◌≤◌, ◌<◌, ◌≡◌, ◌≢◌, refl, ap, ◌∙◌, inl, inr, Bool, true, false, none, some,
  ◌&&◌, ltb, leb, ◌==◌, if◌then◌else◌, arith, Bool-cases, Option-cases, le-cases,
}
use cop5614nachos.Bitmap.Bits.{is_set, marked, is_set-marked}
use cop5614nachos.Bitmap.Counting.{free_bits, find-Marks, num_clear-free_bits}
use cop5614nachos.Machine.State.{num_phys_pages}
use cop5614nachos.Userprog.Vm.{Vm, pidmap_size}
use cop5614nachos.Userprog.MemoryMgr.Victim.{victim-oldest}
use cop5614nachos.Userprog.MemoryMgr.{victim, page_out_loop, claim, get_page, evict, take_free}
use cop5614nachos.Userprog.MemoryMgr.Eviction.{
  paged_out, Evicted, IsHeld, dropped, page_out_loop-held, page_out_loop-free,
  page_out_loop-Evicted,
}

-- The machine and the tables after `GetPage` took `frame`.
pub record Got (v w : Vm) (frame pid : ℕ) : Type 0 where
  pub on_machine : frame < num_phys_pages
  pub now_used : is_set w.mgr.memory_map frame ≡ true
  pub owner : w.mgr.frame_pid frame pid ≡ true
  pub memory : w.main_memory ≡ v.main_memory
  pub stamped : w.mgr.frametime frame ≡ some v.mgr.timestamp
  pub clock : w.mgr.timestamp ≡ v.mgr.timestamp + 1
  pub other_frames : (f q : ℕ) → f ≢ frame → w.mgr.frame_pid f q ≡ v.mgr.frame_pid f q

in_range :
    {A : Type 0} (b : Bool) (q : ℕ)
    → q < pidmap_size
    → (x y : A)
    → (if b && (leb 0 q && ltb q (0 + pidmap_size)) then x else y) ≡ (if b then x else y)
in_range b q lt x y = ground arith

lost :
    (f q : ℕ)
    → q < pidmap_size
    → (b : Bool) → (if f == f && (leb 0 q && ltb q (0 + pidmap_size)) then false else b) ≡ false
lost f q lt b = ground arith

claimed :
    (x : Vm) (frame pid q : ℕ)
    → q ≢ pid
    → (claim x.mgr frame pid).frame_pid frame q ≡ x.mgr.frame_pid frame q
claimed x frame pid q ne = ground arith

get_page-take_free :
    (pid shared : ℕ) (v : Vm)
    → 0 < free_bits v.mgr.memory_map
    → get_page pid shared v ≡ take_free pid v
unfolding get_page
get_page-take_free pid shared v free =
    let some_free : (free_bits v.mgr.memory_map == 0) ≡ false = ground arith in
    rw (num_clear-free_bits v.mgr.memory_map, some_free) refl

get_page-evict :
    (pid shared : ℕ) (v : Vm)
    → free_bits v.mgr.memory_map ≡ 0
    → get_page pid shared v ≡ evict pid shared v
unfolding get_page
get_page-evict pid shared v full = rw (num_clear-free_bits v.mgr.memory_map, full) refl

-- The state after a free frame was taken.
abbrev pub taken : Vm → ℕ → ℕ → Vm
taken v frame pid = record v {
  mgr = claim (record (v.mgr) { memory_map = marked v.mgr.memory_map frame }) frame pid;
}

-- With a map of all frames and a frame free, `GetPage` takes one that was clear, notes the process
-- and the time for it, and disturbs no other process and no other frame.
pub get_page-free :
    (pid shared : ℕ) (v : Vm)
    → v.mgr.memory_map.num_bits ≡ num_phys_pages
    → 0 < free_bits v.mgr.memory_map
    → (frame : ℕ) × (get_page pid shared v ≡ some (frame, taken v frame pid))
      × Got v (taken v frame pid) frame pid
      × (is_set v.mgr.memory_map frame ≡ false)
unfolding take_free
get_page-free pid shared v size free =
    let map = v.mgr.memory_map in
    let (frame, found) = find-Marks map free in
    let (e, lt, clear, one) = found in
    (
      frame,
      get_page-take_free pid shared v free ∙ rw e refl,
      record {
        on_machine = omega arith;
        now_used = is_set-marked map frame frame ∙ ground arith;
        owner = ground arith;
        memory = refl;
        stamped = ground arith;
        clock = refl;
        other_frames = λ f q ne. ground arith;
      },
      clear,
    )

Evicted-Got :
    (pid frame : ℕ) (v x : Vm)
    → frame < num_phys_pages
    → is_set v.mgr.memory_map frame ≡ true
    → Evicted pidmap_size 0 frame v x
    → Got v (record x { mgr = claim x.mgr frame pid }) frame pid
Evicted-Got pid frame v x lt used ev = record {
  on_machine = lt;
  now_used = ap (λ m. is_set m frame) ev.map ∙ used;
  owner = ground arith;
  memory = ev.memory;
  stamped = ground (arith, ev.clock);
  clock = ap (λ (t : ℕ). t + 1) ev.clock;
  other_frames = λ f q ne. ground (arith, ev.owners f q);
}

evict-some :
    (pid shared : ℕ) (v : Vm) {x : Vm}
    → let frame = victim v.mgr.frametime shared in
      page_out_loop pidmap_size 0 frame v ≡ some x
      → evict pid shared v ≡ some (frame, record x { mgr = claim x.mgr frame pid })
unfolding evict
evict-some pid shared v e = rw e refl

evict-none :
    (pid shared : ℕ) (v : Vm)
    → page_out_loop pidmap_size 0 (victim v.mgr.frametime shared) v ≡ none
    → evict pid shared v ≡ none
unfolding evict
evict-none pid shared v e = rw e refl

-- With no frame free, the bit of the victim in use, and every process noted for the victim alive
-- with a page in it, `GetPage` takes the victim: each of those processes has its page paged out
-- and is no longer noted for it, and no other process is disturbed.
pub get_page-evicts :
    (pid shared : ℕ) (v : Vm)
    → let frame = victim v.mgr.frametime shared in
      free_bits v.mgr.memory_map ≡ 0
      → is_set v.mgr.memory_map frame ≡ true
      → IsHeld v frame
      → (w : Vm) × (get_page pid shared v ≡ some (frame, w))
        × Got v w frame pid
        × ((q : ℕ)
            → q < pidmap_size
            → w.spaces q ≡ (if v.mgr.frame_pid frame q then paged_out v frame q else v.spaces q))
        × ((q : ℕ) → q < pidmap_size → q ≢ pid → w.mgr.frame_pid frame q ≡ false)
get_page-evicts pid shared v full used held =
    let frame = victim v.mgr.frametime shared in
    let (x, e, ev) =
      page_out_loop-Evicted pidmap_size 0 frame v (λ q le lt. held q (omega arith)) in
    (
      record x { mgr = claim x.mgr frame pid },
      get_page-evict pid shared v full ∙ evict-some pid shared v e,
      Evicted-Got pid frame v x (victim-oldest v.mgr.frametime shared).0 used ev,
      λ q lt.
          ev.spaces q ∙ in_range (v.mgr.frame_pid frame q) q lt (paged_out v frame q) (v.spaces q),
      λ q lt ne.
          claimed x frame pid q ne ∙ ev.owners frame q ∙ lost frame q lt (v.mgr.frame_pid frame q),
    )

-- A process that is gone, but still noted for the frame, stops the loop at a null pointer.
page_out_loop-stale :
    (rounds pid frame stale : ℕ) (v : Vm)
    → pid ≤ stale
    → stale < pid + rounds
    → v.mgr.frame_pid frame stale ≡ true
    → v.spaces stale ≡ none
    → page_out_loop rounds pid frame v ≡ none
unfolding page_out_loop
page_out_loop-stale zero pid frame stale v le lt flag gone = absurd (omega arith)
page_out_loop-stale (suc rounds) pid frame stale v le lt flag gone =
    elim (Bool-cases (v.mgr.frame_pid frame pid)) [
      | inr no_owner ↦
          page_out_loop-free rounds pid frame v no_owner ∙ elim (le-cases pid stale le) [
            | inl e ↦ ground arith
            | inr later ↦
                page_out_loop-stale rounds (pid + 1) frame stale v later (omega arith) flag gone
          ]
      | inl owner ↦ elim (Option-cases (paged_out v frame pid)) [
        | inl fails ↦ ground (arith, Option-cases (v.spaces pid))
        | inr (s, out) ↦
            page_out_loop-held rounds pid frame v owner out ∙ elim (le-cases pid stale le) [
              | inl e ↦ let here : v.spaces pid ≡ none = rw e at gone in ground arith
              | inr later ↦
                  let other : (stale == pid) ≡ false = ground arith in
                  page_out_loop-stale rounds (pid + 1) frame stale (dropped v frame pid s) later
                    (omega arith) (ground arith) (rw other gone)
            ]
      ]
    ]

-- When no frame is free and a process that has left is still noted for the victim, `GetPage`
-- fails: it follows the null pointer.
pub get_page-stale :
    (pid shared stale : ℕ) (v : Vm)
    → free_bits v.mgr.memory_map ≡ 0
    → stale < pidmap_size
    → v.mgr.frame_pid (victim v.mgr.frametime shared) stale ≡ true
    → v.spaces stale ≡ none
    → get_page pid shared v ≡ none
get_page-stale pid shared stale v full lt flag gone =
    get_page-evict pid shared v full
    ∙ evict-none pid shared v (
        page_out_loop-stale pidmap_size 0 (victim v.mgr.frametime shared) stale v (omega arith)
          (omega arith) flag gone)
