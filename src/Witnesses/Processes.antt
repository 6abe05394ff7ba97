-- ===== src/Witnesses/Processes.antt =====
-- Processes 0 and 1 share two pages, in frames 3 and 4; a machine with every frame in use; and a
-- process whose first page holds the end of its code and data.
use cop5614nachos.Base.{
  ℕ, ◌+◌, ◌-◌, ◌*◌, ◌/◌, ◌^◌, ◌<◌, ◌≡◌, ◌≢◌, refl, true, false, arith, ◌&&◌, leb, ◌==◌,
  if◌then◌else◌, some, none,
}
use cop5614nachos.Base.Bits.{bit}
use cop5614nachos.Base.Loops.{first}
use cop5614nachos.Bitmap.Bits.{is_set}
use cop5614nachos.Bitmap.Counting.{free_bits, clear_bits}
use cop5614nachos.Machine.State.{page_size, num_phys_pages, TranslationEntry}
use cop5614nachos.Userprog.Vm.{no_page, pidmap_size, AddrSpace, Vm}
use cop5614nachos.Userprog.MemoryMgr.{get_page, victim, victim_loop, page_out}
use cop5614nachos.Userprog.MemoryMgr.Eviction.{paged_out, IsHeld}
use cop5614nachos.Userprog.MemoryMgr.Paging.{Got, get_page-evicts}
use cop5614nachos.Userprog.AddrSpace.{fork, cow, page_in, page_contents}
use cop5614nachos.Userprog.AddrSpace.Faults.{Served, page_in-Served, page_contents-page_out}
use cop5614nachos.Userprog.AddrSpace.Sharing.{fork-shares}
use cop5614nachos.Userprog.AddrSpace.CopyOnWrite.{cow-splits}
use cop5614nachos.Base.{bcopy, ◌+◌}
use cop5614nachos.Userprog.Vm.{store_space, store_entry}
use cop5614nachos.Userprog.AddrSpace.{translate}
use cop5614nachos.Userprog.UserMemory.{translate_int, to_user, to_kernel, user_read_write}
use cop5614nachos.Userprog.Transfers.{user_read_write-in_page}

abbrev mapped : ℕ → ℕ → TranslationEntry
mapped base i = record {
  virtual_page = i;
  physical_page = base + i;
  valid = true;
  read_only = true;
  use_bit = false;
  dirty = true;
  zero_filled = false;
}

-- Two pages of memory from frame `base` on, 100 bytes of code and data.
abbrev space_at : ℕ → AddrSpace
space_at base = record {
  page_table = mapped base;
  num_pages = 2;
  code_data_size = 100;
  code_data_virt_addr = 0;
  code_data_file_addr = 40;
  swap_file_size = 256;
  swapfile = λ i. i;
}

-- Frames 3 and 4 are in use, by processes 0 and 1.
abbrev sharing : Vm
sharing = record {
  mgr = record {
    memory_map = record { num_bits = 32; num_words = 1; map = λ i. 24 };
    frametime = λ i. none;
    frame_pid = λ f q. leb 3 f && (leb f 4 && leb q 1);
    timestamp = 2;
  };
  spaces = λ q. if leb q 1 then some (space_at 3) else none;
  main_memory = λ i. i;
}

-- Every frame is in use; process 1 has frames 0 and 1.
abbrev full : Vm
full = record {
  mgr = record {
    memory_map = record { num_bits = 32; num_words = 1; map = λ i. 2 ^ 32 - 1 };
    frametime = λ i. some i;
    frame_pid = λ f q. leb f 1 && q == 1;
    timestamp = 32;
  };
  spaces = λ q. if q == 1 then some (space_at 0) else none;
  main_memory = λ i. i;
}

-- Nothing is in memory yet.
abbrev absent_space : AddrSpace
absent_space = record (space_at 0) {
  page_table = λ i. record (mapped 0 i) { physical_page = no_page; valid = false };
}

abbrev starting : Vm
starting = record sharing { spaces = λ q. some absent_space }

sharing-free_bits : free_bits sharing.mgr.memory_map ≡ 30
unfolding clear_bits is_set bit
sharing-free_bits = refl

full-free_bits : free_bits full.mgr.memory_map ≡ 0
unfolding clear_bits is_set bit
full-free_bits = refl

sharing-used : is_set sharing.mgr.memory_map 4 ≡ true
unfolding is_set bit
sharing-used = refl

full-victim : victim full.mgr.frametime no_page ≡ 0
unfolding victim victim_loop
full-victim = refl

full-used : is_set full.mgr.memory_map (victim full.mgr.frametime no_page) ≡ true
unfolding is_set bit
full-used = rw full-victim refl

full-IsHeld : IsHeld full (victim full.mgr.frametime no_page)
unfolding page_out first
full-IsHeld q lt noted = rw full-victim (let at : q ≡ 1 = ground arith in rw at (_, refl))

get_page-evicts_example :
    (w : Vm) × (get_page 2 no_page full ≡ some (victim full.mgr.frametime no_page, w))
    × Got full w (victim full.mgr.frametime no_page) 2
    × ((q : ℕ)
        → q < pidmap_size
        → w.spaces q ≡ (
            if full.mgr.frame_pid (victim full.mgr.frametime no_page) q
            then paged_out full (victim full.mgr.frametime no_page) q
            else full.spaces q))
    × ((q : ℕ)
        → q < pidmap_size
        → q ≢ 2
        → w.mgr.frame_pid (victim full.mgr.frametime no_page) q ≡ false)
get_page-evicts_example = get_page-evicts 2 no_page full full-free_bits full-used full-IsHeld

page_in-Served_example :
    (frame : ℕ) × (v' : Vm) × (page_in 0 200 starting ≡ some v')
    × (is_set starting.mgr.memory_map frame ≡ false)
    × Served starting v' 0 200 frame absent_space
page_in-Served_example =
    page_in-Served 0 200 starting absent_space refl (omega (arith, sharing-free_bits)) refl
      (omega arith)

page_contents-page_out_example :
    (s' : AddrSpace) × (page_out (λ i. i) 3 (space_at 3) ≡ some s')
    × ((s'.page_table 0).valid ≡ false)
    × ((offset : ℕ)
        → offset < page_size
        → page_contents s' 10 (s'.page_table 0) (λ i. 0) 7 (7 * page_size + offset)
          ≡ 3 * page_size + offset)
page_contents-page_out_example =
    page_contents-page_out (λ i. i) (λ i. 0) 3 7 10 (space_at 3)
      (record {
        from = omega arith;
        to = omega arith;
        passes = refl;
        before = λ j le lt. absurd (omega arith);
      })
      refl refl

fork-shares_example :
    (v' : Vm) × (p c : AddrSpace) × (fork 0 2 (λ i. i) sharing ≡ some v')
    × (v'.spaces 0 ≡ some p)
    × (v'.spaces 2 ≡ some c)
    × ((q : ℕ) → q ≢ 0 → q ≢ 2 → v'.spaces q ≡ sharing.spaces q)
    × (v'.main_memory ≡ sharing.main_memory)
    × ((j : ℕ)
        → j < 2
        → (p.page_table j ≡ record (mapped 3 j) { read_only = true })
          × (c.page_table j ≡ record (mapped 3 j) { read_only = true })
          × (v'.mgr.frame_pid (3 + j) 2 ≡ true))
fork-shares_example =
    fork-shares 0 2 (λ i. i) sharing (space_at 3) (omega arith) refl (λ j lt. omega arith)

cow-splits_example :
    (v' : Vm) × (s' : AddrSpace) × (frame : ℕ) × (cow 0 130 sharing ≡ some v')
    × (v'.spaces 0 ≡ some s')
    × (s'.page_table 1 ≡ record (mapped 3 1) { physical_page = frame; read_only = false })
    × (frame ≢ 4)
    × (frame < num_phys_pages)
    × (v'.mgr.frame_pid 4 0 ≡ false)
    × ((k : ℕ) → k < page_size → v'.main_memory (frame * page_size + k) ≡ 4 * page_size + k)
    × ((j : ℕ) → j / page_size ≢ frame → v'.main_memory j ≡ j)
cow-splits_example =
    cow-splits 0 130 sharing (space_at 3) refl (omega (arith, sharing-free_bits)) refl (omega arith)
      (omega arith) sharing-used (λ q lt ne noted. (space_at 3, ground arith))

-- Page 1 of process 0 is in frame 4.
abbrev touched : Vm
touched =
    store_space sharing 0 (store_entry (space_at 3) 1 (record (mapped 3 1) { use_bit = true }))

page_1-translates : translate_int 0 130 5 sharing ≡ some (some 514, touched)
unfolding translate_int translate
page_1-translates = refl

user_read_write-in_page_example :
    (user_read_write to_user 0 (λ i. 65 + i) 130 5 sharing
      ≡ some (
        λ i. 65 + i,
        record touched { main_memory = bcopy (λ i. 65 + i) 0 touched.main_memory 514 5 },
      ))
    × (user_read_write to_kernel 0 (λ i. 65 + i) 130 5 sharing
        ≡ some (bcopy touched.main_memory 514 (λ i. 65 + i) 0 5, touched))
user_read_write-in_page_example =
    user_read_write-in_page 0 (λ i. 65 + i) 130 5 514 sharing touched (omega arith) (omega arith)
      (omega arith) page_1-translates
