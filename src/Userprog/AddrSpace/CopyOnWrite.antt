-- ===== src/Userprog/AddrSpace/CopyOnWrite.antt =====
-- `AddrSpace::COW`: a write to a shared page gives the process a frame of its own.
use cop5614nachos.Base.{
  ℕ, zero, suc, ◌+◌, ◌*◌, ◌/◌, ◌<◌, ◌≡◌, ◌≢◌, refl, ap, ◌∙◌, ◌⊎◌, inl, inr, Bool, true, false,
  Option, some, ltb, ◌==◌, if◌then◌else◌, Array, update, arith, Bool-cases,
}
use cop5614nachos.Bitmap.Bits.{is_set}
use cop5614nachos.Bitmap.Counting.{free_bits}
use cop5614nachos.Machine.State.{page_size, num_phys_pages, TranslationEntry}
use cop5614nachos.Userprog.Vm.{pidmap_size, AddrSpace, Vm, store_space, store_entry}
use cop5614nachos.Userprog.MemoryMgr.{
  get_page, set_owner, sharers_loop, unset_share, restore_write, unset_read_only,
}
use cop5614nachos.Userprog.MemoryMgr.Paging.{get_page-free, taken}
use cop5614nachos.Userprog.AddrSpace.{copy_frame, cow}

-- The process that the loop of `UnsetShare` ends with has the frame, if any has.
sharers_loop-owner :
    (rounds i : ℕ) (owners : Array Bool) (pid count : ℕ)
    → let r = sharers_loop rounds i owners pid count in
      ((r.0 ≡ pid) × (r.1 ≡ count)) ⊎ ((owners r.0 ≡ true) × (r.0 < i + rounds))
unfolding sharers_loop
sharers_loop-owner zero i owners pid count = inl (refl, refl)
sharers_loop-owner (suc rounds) i owners pid count = elim (Bool-cases (owners i)) [
  | inr no_ ↦
      let ih = sharers_loop-owner rounds (i + 1) owners pid count in
      rw (no_, sharers_loop)
        (elim ih [ inl same ↦ inl same | inr (has, lt) ↦ inr (has, omega arith) ])
  | inl has ↦
      let ih = sharers_loop-owner rounds (i + 1) owners i (count + 1) in
      rw (has, sharers_loop)
        (elim ih [
          | inl (at, n) ↦ inr (rw at has, omega arith)
          | inr (has', lt) ↦ inr (has', omega arith)
        ])
]

-- What `UnsetShare` may change: who has the frame, and one other space's write protection.
record Unshared (frame pid : ℕ) (v v' : Vm) : Type 0 where
  memory : v'.main_memory ≡ v.main_memory
  released : v'.mgr.frame_pid frame pid ≡ false
  map : v'.mgr.memory_map ≡ v.mgr.memory_map
  own : v'.spaces pid ≡ v.spaces pid

-- `UnsetShare` after its loop.
abbrev finish_unset : ℕ → Vm → ℕ × ℕ → Option Vm
finish_unset frame w r = if r.1 == 1 then restore_write frame r.0 w else some w

unset_share-finish :
    (frame pid : ℕ) (v : Vm)
    → frame < num_phys_pages
    → let mgr = set_owner v.mgr frame pid false in
      unset_share frame pid v
      ≡ finish_unset frame
          (record v { mgr = mgr })
          (sharers_loop pidmap_size 0 (mgr.frame_pid frame) 0 0)
unfolding unset_share
unset_share-finish frame pid v lt =
    let e : ltb frame num_phys_pages ≡ true = ground arith in rw e refl

finish_unset-Unshared :
    (frame pid : ℕ) (v : Vm) (r : ℕ × ℕ)
    → let w : Vm = record v { mgr = set_owner v.mgr frame pid false } in
      ((r.0 ≡ 0) × (r.1 ≡ 0)) ⊎ ((w.mgr.frame_pid frame r.0 ≡ true) × (r.0 < 0 + pidmap_size))
      → ((q : ℕ)
          → q < pidmap_size
          → q ≢ pid
          → v.mgr.frame_pid frame q ≡ true
          → (s : AddrSpace) × (v.spaces q ≡ some s))
      → (v' : Vm) × (finish_unset frame w r ≡ some v') × Unshared frame pid v v'
unfolding restore_write
finish_unset-Unshared frame pid v (last, count) (inl (a, b)) held = (
  record v { mgr = set_owner v.mgr frame pid false },
  rw b refl,
  record { memory = refl; released = ground arith; map = refl; own = refl },
)
finish_unset-Unshared frame pid v (last, count) (inr (a, b)) held = elim (Bool-cases (count == 1)) [
  | inr n ↦ (
    record v { mgr = set_owner v.mgr frame pid false },
    rw n refl,
    record { memory = refl; released = ground arith; map = refl; own = refl },
  )
  | inl one ↦
      let other : (last == pid) ≡ false = ground arith in
      let (s, e) = held last (omega arith) (ground arith) (ground arith) in
      (
        record (store_space v last (unset_read_only frame s)) {
          mgr = set_owner v.mgr frame pid false;
        },
        rw (one, e) refl,
        record { memory = refl; released = ground arith; map = refl; own = ground arith },
      )
]

unset_share-Unshared :
    (frame pid : ℕ) (v : Vm)
    → frame < num_phys_pages
    → ((q : ℕ)
        → q < pidmap_size
        → q ≢ pid
        → v.mgr.frame_pid frame q ≡ true
        → (s : AddrSpace) × (v.spaces q ≡ some s))
    → (v' : Vm) × (unset_share frame pid v ≡ some v') × Unshared frame pid v v'
unset_share-Unshared frame pid v lt held =
    let owners = (set_owner v.mgr frame pid false).frame_pid frame in
    let (v', e, u) =
      finish_unset-Unshared frame pid v (sharers_loop pidmap_size 0 owners 0 0)
        (sharers_loop-owner pidmap_size 0 owners 0 0) held in
    (v', unset_share-finish frame pid v lt ∙ e, u)

-- The state in which `COW` calls `UnsetShare`.
abbrev split_off : Vm → ℕ → ℕ → AddrSpace → ℕ → Vm
split_off v pid vpn s frame =
    let e : TranslationEntry = s.page_table vpn in
    let s' = store_entry s vpn (record e { physical_page = frame; read_only = false }) in
    record (store_space (taken v frame pid) pid s') {
      main_memory = copy_frame v.main_memory e.physical_page frame;
    }

cow-split_off :
    (pid virt_addr : ℕ) (v : Vm) (s : AddrSpace) {frame : ℕ}
    → v.spaces pid ≡ some s
    → virt_addr / page_size < s.num_pages
    → get_page pid (s.page_table (virt_addr / page_size)).physical_page v
      ≡ some (frame, taken v frame pid)
    → cow pid virt_addr v
      ≡ unset_share
          (s.page_table (virt_addr / page_size)).physical_page
          pid
          (split_off v pid (virt_addr / page_size) s frame)
unfolding cow
cow-split_off pid virt_addr v s space lt e =
    let inside : ltb (virt_addr / page_size) s.num_pages ≡ true = ground arith in
    rw (space, inside, e, space, inside) refl

-- A write to a page that is mapped to a frame in use, with a map of all frames, another frame free
-- and every other noted sharer alive: `COW` succeeds, and the entry of the process then names
-- another frame, writable, which holds the bytes of the old frame. The process is no longer noted
-- for the old frame, and the memory outside the new frame is as before.
pub cow-splits :
    (pid virt_addr : ℕ) (v : Vm) (s : AddrSpace)
    → let vpn = virt_addr / page_size in
      let old = (s.page_table vpn).physical_page in
      v.mgr.memory_map.num_bits ≡ num_phys_pages
      → 0 < free_bits v.mgr.memory_map
      → v.spaces pid ≡ some s
      → vpn < s.num_pages
      → old < num_phys_pages
      → is_set v.mgr.memory_map old ≡ true
      → ((q : ℕ)
          → q < pidmap_size
          → q ≢ pid
          → v.mgr.frame_pid old q ≡ true
          → (t : AddrSpace) × (v.spaces q ≡ some t))
      → (v' : Vm) × (s' : AddrSpace) × (frame : ℕ) × (cow pid virt_addr v ≡ some v')
        × (v'.spaces pid ≡ some s')
        × (s'.page_table vpn
            ≡ record (s.page_table vpn) { physical_page = frame; read_only = false })
        × (frame ≢ old)
        × (frame < num_phys_pages)
        × (v'.mgr.frame_pid old pid ≡ false)
        × ((k : ℕ)
            → k < page_size
            → v'.main_memory (frame * page_size + k) ≡ v.main_memory (old * page_size + k))
        × ((j : ℕ) → j / page_size ≢ frame → v'.main_memory j ≡ v.main_memory j)
cow-splits pid virt_addr v s size free space lt low used held =
    let vpn = virt_addr / page_size in
    let old = (s.page_table vpn).physical_page in
    let (frame, e, got, clear) = get_page-free pid old v size free in
    let other : (old == frame) ≡ false = ground arith in
    let s1 =
      store_entry s vpn (record (s.page_table vpn) { physical_page = frame; read_only = false }) in
    let x = split_off v pid vpn s frame in
    let (v', f, u) =
      unset_share-Unshared old pid x low (λ q ltq ne flag. held' s1 q ltq ne (rw other at flag)) in
    (
      v',
      s1,
      frame,
      cow-split_off pid virt_addr v s space lt e ∙ f,
      u.own ∙ ground arith,
      ground arith,
      ground arith,
      got.on_machine,
      u.released,
      λ k ltk. ap (λ (m : Array ℕ). m (frame * page_size + k)) u.memory ∙ ground arith,
      λ j ne. ap (λ (m : Array ℕ). m j) u.memory ∙ ground arith,
    )
  where
    held' :
        (s1 : AddrSpace) (q : ℕ)
        → q < pidmap_size
        → q ≢ pid
        → v.mgr.frame_pid (s.page_table (virt_addr / page_size)).physical_page q ≡ true
        → (t : AddrSpace) × (update v.spaces pid (some s1) q ≡ some t)
    held' s1 q ltq ne flag = let (t, e) = held q ltq ne flag in (t, ground arith)
