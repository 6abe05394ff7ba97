-- ===== src/Userprog/AddrSpace/Faults.antt =====
-- Page faults: what a page holds after `PageIn`, and that a page written out comes back.
use cop5614nachos.Base.{
  ℕ, ◌+◌, ◌*◌, ◌/◌, ◌≤◌, ◌<◌, ◌≡◌, ◌≢◌, refl, inl, inr, Bool-cases, true, false, some, ltb, Array,
  update, bcopy, arith,
}
use cop5614nachos.Base.Loops.{first-some, IsFirst}
use cop5614nachos.Bitmap.Bits.{is_set}
use cop5614nachos.Bitmap.Counting.{free_bits}
use cop5614nachos.Machine.State.{page_size, num_phys_pages, TranslationEntry}
use cop5614nachos.Userprog.Vm.{no_page, AddrSpace, Vm, store_space, store_entry}
use cop5614nachos.Userprog.MemoryMgr.{maps_frame, page_out, get_page}
use cop5614nachos.Userprog.MemoryMgr.Paging.{get_page-free, taken}
use cop5614nachos.Userprog.AddrSpace.{zero_fills, page_contents, resident, page_in}

-- A page that was not zero filled yet, faulted on past the end of the code and data.
abbrev pub IsFresh : AddrSpace → ℕ → Type 0
IsFresh s virt_addr =
    (s.code_data_size + s.code_data_virt_addr ≤ virt_addr)
    × ((s.page_table (virt_addr / page_size)).zero_filled ≡ false)

-- The state after a page fault of `pid` at `virt_addr` was served with `frame`.
pub record Served (v v' : Vm) (pid virt_addr frame : ℕ) (s : AddrSpace) : Type 0 where
  pub on_machine : frame < num_phys_pages
  pub marked : is_set v'.mgr.memory_map frame ≡ true
  pub noted : v'.mgr.frame_pid frame pid ≡ true
  pub entry : TranslationEntry
  pub space :
      v'.spaces pid
      ≡ some (record s { page_table = update s.page_table (virt_addr / page_size) entry })
  pub virtual_page : entry.virtual_page ≡ virt_addr / page_size
  pub physical_page : entry.physical_page ≡ frame
  pub valid : entry.valid ≡ true
  pub writable : entry.read_only ≡ false
  pub use_bit : entry.use_bit ≡ (s.page_table (virt_addr / page_size)).use_bit
  pub dirty : entry.dirty ≡ (s.page_table (virt_addr / page_size)).dirty
  pub filled : IsFresh s virt_addr → entry.zero_filled ≡ true
  pub zeros :
      IsFresh s virt_addr
      → (offset : ℕ) → offset < page_size
      → v'.main_memory (frame * page_size + offset) ≡ 0
  pub loaded :
      ¬ IsFresh s virt_addr
      → (offset : ℕ) → offset < page_size
      → v'.main_memory (frame * page_size + offset)
        ≡ s.swapfile (virt_addr / page_size * page_size + offset)
  pub others : (q : ℕ) → q ≢ pid → v'.spaces q ≡ v.spaces q
  pub rest : (a : ℕ) → a / page_size ≢ frame → v'.main_memory a ≡ v.main_memory a

abbrev served : Vm → ℕ → ℕ → ℕ → AddrSpace → Vm
served w pid virt_addr frame s =
    let vpn = virt_addr / page_size in
    record (store_space w pid (store_entry s vpn (resident s virt_addr (s.page_table vpn) frame))) {
      main_memory = page_contents s virt_addr (s.page_table vpn) w.main_memory frame;
    }

page_in-served :
    (pid virt_addr : ℕ) (v : Vm) {frame : ℕ} {w : Vm} {s : AddrSpace}
    → get_page pid no_page v ≡ some (frame, w)
    → w.spaces pid ≡ some s
    → virt_addr / page_size < s.num_pages
    → page_in pid virt_addr v ≡ some (served w pid virt_addr frame s)
unfolding page_in
page_in-served pid virt_addr v {s} got space mapped =
    let inside : ltb (virt_addr / page_size) s.num_pages ≡ true = ground arith in
    rw (got, space, inside) refl

zero_fills-IsFresh :
    (s : AddrSpace) (virt_addr : ℕ)
    → IsFresh s virt_addr
    → zero_fills s virt_addr (s.page_table (virt_addr / page_size)) ≡ true
zero_fills-IsFresh s virt_addr fresh = ground (arith, fresh.0, fresh.1)

IsFresh-zero_fills :
    (s : AddrSpace) (virt_addr : ℕ)
    → ¬ IsFresh s virt_addr
    → zero_fills s virt_addr (s.page_table (virt_addr / page_size)) ≡ false
IsFresh-zero_fills s virt_addr old =
    let e = s.page_table (virt_addr / page_size) in
    elim (Bool-cases (zero_fills s virt_addr e)) [
      | inl fills ↦ absurd (old (ground arith, ground arith))
      | inr loads ↦ loads
    ]

-- With a map of all frames and a frame free, a page fault inside the address space of a process is
-- served: the entry of the page is valid, writable and names a frame of the machine that was free
-- and is now in use and noted for the process; the frame holds zeros when the fault lies past the
-- code and data on a page that was not zero filled before, which it then is, and the part of the
-- swap file for the page otherwise; no other process and no other frame changes.
pub page_in-Served :
    (pid virt_addr : ℕ) (v : Vm) (s : AddrSpace)
    → v.mgr.memory_map.num_bits ≡ num_phys_pages
    → 0 < free_bits v.mgr.memory_map
    → v.spaces pid ≡ some s
    → virt_addr / page_size < s.num_pages
    → (frame : ℕ) × (v' : Vm) × (page_in pid virt_addr v ≡ some v')
      × (is_set v.mgr.memory_map frame ≡ false)
      × Served v v' pid virt_addr frame s
page_in-Served pid virt_addr v s size free space mapped =
    let (frame, got, g, clear) = get_page-free pid no_page v size free in
    let w = taken v frame pid in
    let vpn = virt_addr / page_size in
    (
      frame,
      served w pid virt_addr frame s,
      page_in-served pid virt_addr v got space mapped,
      clear,
      record {
        on_machine = g.on_machine;
        marked = g.now_used;
        noted = g.owner;
        entry = resident s virt_addr (s.page_table vpn) frame;
        space = ground arith;
        virtual_page = refl;
        physical_page = refl;
        valid = refl;
        writable = refl;
        use_bit = refl;
        dirty = refl;
        filled = λ fresh. rw (zero_fills-IsFresh s virt_addr fresh) refl;
        zeros = λ fresh offset lt. rw (zero_fills-IsFresh s virt_addr fresh) (ground arith);
        loaded = λ old offset lt. rw (IsFresh-zero_fills s virt_addr old) (ground arith);
        others = λ q ne. ground arith;
        rest = λ a ne. ground arith;
      },
    )

-- With a frame free, the first fault on a page that holds the end of the code and data, at an
-- address past that end, fills the whole page with zeros, its code and data too.
pub page_in-zeros :
    (pid virt_addr : ℕ) (v : Vm) (s : AddrSpace)
    → v.mgr.memory_map.num_bits ≡ num_phys_pages
    → 0 < free_bits v.mgr.memory_map
    → v.spaces pid ≡ some s
    → virt_addr / page_size < s.num_pages
    → (s.page_table (virt_addr / page_size)).zero_filled ≡ false
    → s.code_data_size + s.code_data_virt_addr ≤ virt_addr
    → virt_addr / page_size * page_size < s.code_data_size + s.code_data_virt_addr
    → (frame : ℕ) × (v' : Vm) × (page_in pid virt_addr v ≡ some v')
      × ((offset : ℕ) → offset < page_size → v'.main_memory (frame * page_size + offset) ≡ 0)
page_in-zeros pid virt_addr v s size free space mapped unfilled past straddles =
    let (frame, v', e, clear, done) = page_in-Served pid virt_addr v s size free space mapped in
    (frame, v', e, λ offset lt. done.zeros (past, unfilled) offset lt)

-- A dirty page whose zero fill is not still to come, written out by `PageOut` and faulted in
-- again, into any frame, holds the same bytes; in between its entry is not valid.
pub page_contents-page_out :
    (memory memory' : Array ℕ) (frame frame' virt_addr : ℕ) (s : AddrSpace)
    → let vpn = virt_addr / page_size in
      IsFirst s.num_pages 0 (maps_frame s frame) vpn
      → (s.page_table vpn).dirty ≡ true
      → zero_fills s virt_addr (s.page_table vpn) ≡ false
      → (s' : AddrSpace) × (page_out memory frame s ≡ some s')
        × ((s'.page_table vpn).valid ≡ false)
        × ((offset : ℕ)
            → offset < page_size
            → page_contents s' virt_addr
                (s'.page_table vpn)
                memory'
                frame'
                (frame' * page_size + offset)
              ≡ memory (frame * page_size + offset))
unfolding page_out
page_contents-page_out memory memory' frame frame' virt_addr s f dirty filled =
    let vpn = virt_addr / page_size in
    let e = s.page_table vpn in
    let found = first-some s.num_pages 0 (maps_frame s frame) f in
    (
      record s {
        swapfile = bcopy memory (frame * page_size) s.swapfile (vpn * page_size) page_size;
        page_table =
            update s.page_table vpn
              (record e { physical_page = no_page; valid = false; read_only = false });
      },
      rw (found, page_out, dirty) refl,
      ground arith,
      λ offset lt. ground arith,
    )
