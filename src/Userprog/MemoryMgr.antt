-- ===== src/Userprog/MemoryMgr.antt =====
-- userprog/memorymgr.cc, with PageOut and UnsetReadOnly of addrspace.cc, which it calls back.
pub mod Eviction
pub mod Paging
pub mod Victim
use cop5614nachos.Base.{
  ℕ, zero, suc, ◌+◌, ◌*◌, Bool, true, false, not, Option, none, some, ◌&&◌, ltb, ◌==◌,
  if◌then◌else◌, Array, update, bcopy, assert, ◌>>=◌, ◌>>◌,
}
use cop5614nachos.Base.Loops.{first}
use cop5614nachos.Bitmap
use cop5614nachos.Bitmap.{BitMap}
use cop5614nachos.Machine.State.{page_size, num_phys_pages, TranslationEntry}
use cop5614nachos.Userprog.Vm.{
  pidmap_size, no_page, MemoryMgr, AddrSpace, Vm, space_of, store_space, entry_at, store_entry,
}

unfoldable pub memory_mgr : Array ℕ → Option MemoryMgr
memory_mgr garbage = do
  map ← Bitmap.bit_map num_phys_pages garbage
  some (record { memory_map = map; frametime = λ i. none; frame_pid = λ i j. false; timestamp = 0 })

-- `pageTable[virtPage].physicalPage == physicalPage`
abbrev pub maps_frame : AddrSpace → ℕ → ℕ → Bool
maps_frame s frame vpn = (s.page_table vpn).physical_page == frame

-- AddrSpace::PageOut. When no page is in the frame the loop ends at `numPages`, outside the table.
unfoldable pub page_out : Array ℕ → ℕ → AddrSpace → Option AddrSpace
unfolding first
page_out memory frame s = do
  vpn ← first s.num_pages 0 (maps_frame s frame)
  let e : TranslationEntry = s.page_table vpn
  let swap : Array ℕ =
      if e.dirty
      then bcopy memory (frame * page_size) s.swapfile (vpn * page_size) page_size
      else s.swapfile
  some (record s {
    swapfile = swap;
    page_table =
        update s.page_table vpn
          (record e { physical_page = no_page; valid = false; read_only = false });
  })

-- AddrSpace::UnsetReadOnly.
unfoldable pub unset_read_only : ℕ → AddrSpace → AddrSpace
unfolding first
unset_read_only frame s = elim (first s.num_pages 0 (maps_frame s frame)) [
  | none ↦ s
  | some vpn ↦ store_entry s vpn (record (s.page_table vpn) { read_only = false })
]

-- `timemin > frametime[i]`, where -1 is `none`.
abbrev pub earlier : Option ℕ → Option ℕ → Bool
earlier none none = false
earlier none (some t) = true
earlier (some s) none = false
earlier (some s) (some t) = ltb s t

-- The search for the victim, frames from `i` on.
unfoldable pub victim_loop : ℕ → ℕ → Array (Option ℕ) → ℕ → ℕ → Option ℕ → ℕ
victim_loop zero i frametime shared outpage timemin = outpage
victim_loop (suc rounds) i frametime shared outpage timemin =
    let better = earlier (frametime i) timemin && not (i == shared) in
    victim_loop rounds (i + 1) frametime shared (if better then i else outpage)
      (if better then frametime i else timemin)

unfoldable pub victim : Array (Option ℕ) → ℕ → ℕ
unfolding victim_loop
victim frametime shared =
    let outpage : ℕ = if shared == 0 then 1 else 0 in
    victim_loop num_phys_pages 0 frametime shared outpage (frametime outpage)

abbrev pub set_owner : MemoryMgr → ℕ → ℕ → Bool → MemoryMgr
set_owner m frame pid b = record m {
  frame_pid = update m.frame_pid frame (update (m.frame_pid frame) pid b);
}

-- Each process that has the frame writes its page out and loses it.
unfoldable pub page_out_loop : ℕ → ℕ → ℕ → Vm → Option Vm
page_out_loop zero pid frame v = some v
page_out_loop (suc rounds) pid frame v =
    let rest = λ (w : Vm). page_out_loop rounds (pid + 1) frame w in
    if not (v.mgr.frame_pid frame pid) then rest v else do
      s ← space_of v pid
      s' ← page_out v.main_memory frame s
      rest (record (store_space v pid s') { mgr = set_owner v.mgr frame pid false })

-- The bookkeeping at the end of `GetPage`.
abbrev pub claim : MemoryMgr → ℕ → ℕ → MemoryMgr
claim m frame pid = record (set_owner m frame pid true) {
  frametime = update m.frametime frame (some m.timestamp);
  timestamp = m.timestamp + 1;
}

-- `GetPage` with no frame free.
unfoldable pub evict : ℕ → ℕ → Vm → Option (ℕ × Vm)
evict pid shared v = do
  let outpage = victim v.mgr.frametime shared
  w ← page_out_loop pidmap_size 0 outpage v
  some (outpage, record w { mgr = claim w.mgr outpage pid })

-- `GetPage` with a frame free.
unfoldable pub take_free : ℕ → Vm → Option (ℕ × Vm)
take_free pid v = do
  (found, map) ← Bitmap.find v.mgr.memory_map
  frame ← found
  some (frame, record v { mgr = claim (record (v.mgr) { memory_map = map }) frame pid })

-- `GetPage(pid, sharedPage)`; no shared page is `no_page`.
unfoldable pub get_page : ℕ → ℕ → Vm → Option (ℕ × Vm)
get_page pid shared v = do
  clear ← Bitmap.num_clear v.mgr.memory_map
  if clear == 0 then evict pid shared v else take_free pid v

unfoldable pub clear_page : ℕ → Vm → Option Vm
clear_page frame v = do
  map ← Bitmap.clear v.mgr.memory_map frame
  some (record v { mgr = record (v.mgr) { memory_map = map } })

unfoldable pub get_num_free_pages : Vm → Option ℕ
get_num_free_pages v = Bitmap.num_clear v.mgr.memory_map

-- The last process that has the frame, and how many have it.
unfoldable pub sharers_loop : ℕ → ℕ → Array Bool → ℕ → ℕ → ℕ × ℕ
sharers_loop zero i owners pid count = (pid, count)
sharers_loop (suc rounds) i owners pid count =
    sharers_loop rounds (i + 1) owners (if owners i then i else pid)
      (if owners i then count + 1 else count)

unfoldable pub restore_write : ℕ → ℕ → Vm → Option Vm
restore_write frame pid v = do
  s ← space_of v pid
  some (store_space v pid (unset_read_only frame s))

unfoldable pub unset_share : ℕ → ℕ → Vm → Option Vm
unset_share frame pid v = do
  assert (ltb frame num_phys_pages)
  let mgr : MemoryMgr = set_owner v.mgr frame pid false
  let w : Vm = record v { mgr = mgr }
  let (last, count) = sharers_loop pidmap_size 0 (mgr.frame_pid frame) 0 0
  if count == 1 then restore_write frame last w else some w

-- A frame -1 is outside `framePID`.
unfoldable pub set_share : ℕ → ℕ → Vm → Option Vm
set_share frame pid v = do
  assert (ltb frame num_phys_pages)
  some (record v { mgr = set_owner v.mgr frame pid true })
