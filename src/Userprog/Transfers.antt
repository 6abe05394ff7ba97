-- ===== src/Userprog/Transfers.antt =====
-- `userReadWrite` of bytes that lie in one page.
use cop5614nachos.Base.{
  ℕ, zero, suc, ◌+◌, ◌-◌, ◌%◌, ◌^◌, ◌≤◌, ◌<◌, ◌≡◌, refl, true, false, some, ltb, ◌==◌, if_true,
  if_false, ap, ◌∙◌, Bool-cases, inl, inr, >>=-next, Array, bcopy, arith,
}
use cop5614nachos.Machine.State.{page_size}
use cop5614nachos.Userprog.Vm.{Vm}
use cop5614nachos.Userprog.UserMemory.{
  translate_int, Direction, to_user, to_kernel, Copying, move_bytes, copy_part, copy_pages, min,
  copy_head, copy_tail, user_read_write,
}

-- What one part leaves, where its address translates.
abbrev after_part : Direction → ℕ → ℕ → Vm → Copying → Copying
after_part direction phys_addr size w c =
    let moved = move_bytes direction phys_addr size (record c { vm = w }) in
    record moved {
      cur_buffer = moved.cur_buffer + size;
      cur_virt_addr = (moved.cur_virt_addr + size) % 2 ^ 32;
      left_size = moved.left_size - size;
    }

copy_part-after_part :
    (direction : Direction) (pid size phys_addr : ℕ) (w : Vm) (c : Copying)
    → translate_int pid c.cur_virt_addr size c.vm ≡ some (some phys_addr, w)
    → copy_part direction pid size c ≡ some (true, after_part direction phys_addr size w c)
unfolding copy_part
copy_part-after_part direction pid size phys_addr w c e = >>=-next _ e refl

copy_pages-small :
    (fuel : ℕ) (direction : Direction) (pid : ℕ) (c : Copying)
    → c.left_size < page_size
    → copy_pages fuel direction pid c ≡ some c
unfolding copy_pages
copy_pages-small zero direction pid c e =
    let small : ltb c.left_size page_size ≡ true = ground arith in rw small refl
copy_pages-small (suc fuel) direction pid c e =
    let small : ltb c.left_size page_size ≡ true = ground arith in simp (copy_pages, small)

left_size-move_bytes :
    (direction : Direction) (phys_addr size : ℕ) (c : Copying)
    → (move_bytes direction phys_addr size c).left_size ≡ c.left_size
left_size-move_bytes to_user phys_addr size c = refl
left_size-move_bytes to_kernel phys_addr size c = refl

cur_buffer-move_bytes :
    (direction : Direction) (phys_addr size : ℕ) (c : Copying)
    → (move_bytes direction phys_addr size c).cur_buffer ≡ c.cur_buffer
cur_buffer-move_bytes to_user phys_addr size c = refl
cur_buffer-move_bytes to_kernel phys_addr size c = refl

same_number : {a b : ℕ} → a ≡ b → (a == b) ≡ true
same_number e = ground arith

-- The copy as it starts.
abbrev starting : Array ℕ → ℕ → ℕ → Vm → Copying
starting buffer virt_addr size v = record {
  cur_buffer = 0;
  cur_virt_addr = virt_addr;
  left_size = size;
  buffer = buffer;
  vm = v;
}

module _ (direction : Direction) (pid : ℕ) (buffer : Array ℕ) (virt_addr size phys_addr : ℕ)
    (v w : Vm) where
  start : Copying
  start = starting buffer virt_addr size v

  finish : Copying
  finish = after_part direction phys_addr size w (starting buffer virt_addr size v)

  finish-left_size : finish.left_size ≡ 0
  unfolding start finish
  finish-left_size =
      omega (arith, left_size-move_bytes direction phys_addr size (record start { vm = w }))

  finish-cur_buffer : (finish.cur_buffer == size) ≡ true
  unfolding start finish
  finish-cur_buffer =
      let moved = cur_buffer-move_bytes direction phys_addr size (record start { vm = w }) in
      same_number (omega (arith, moved))

  copy_head-inside :
      (virt_addr % page_size == 0) ≡ false
      → virt_addr % page_size + size ≤ page_size
      → translate_int pid virt_addr size v ≡ some (some phys_addr, w)
      → copy_head direction pid start ≡ some finish
  unfolding start finish copy_head
  copy_head-inside inside fits e =
      let all : min size (page_size - virt_addr % page_size) ≡ size = ground arith in
      if_false _ _ inside
      ∙ >>=-next _
          (ap (λ n. copy_part direction pid n (starting buffer virt_addr size v)) all
            ∙ copy_part-after_part direction pid size phys_addr w (starting buffer virt_addr size v)
                e)
          refl

  copy_tail-part :
      0 < size
      → translate_int pid virt_addr size v ≡ some (some phys_addr, w)
      → copy_tail direction pid start ≡ some finish
  unfolding start finish copy_tail
  copy_tail-part some_bytes e =
      let more : (size == 0) ≡ false = ground arith in
      if_false _ _ more
      ∙ (>>=-next _
          (copy_part-after_part direction pid size phys_addr w (starting buffer virt_addr size v) e)
          refl)

  copy_tail-done : (c : Copying) → c.left_size ≡ 0 → copy_tail direction pid c ≡ some c
  unfolding copy_tail
  copy_tail-done c e =
      let none_left : (c.left_size == 0) ≡ true = ground arith in if_true _ _ none_left

  -- All three parts, where the first copies everything.
  user_read_write-inside :
      (virt_addr % page_size == 0) ≡ false
      → virt_addr % page_size + size ≤ page_size
      → translate_int pid virt_addr size v ≡ some (some phys_addr, w)
      → user_read_write direction pid buffer virt_addr size v ≡ some (finish.buffer, finish.vm)
  unfolding user_read_write start
  user_read_write-inside inside fits e = >>=-next _ (copy_head-inside inside fits e) (
      >>=-next _ (copy_pages-small size direction pid finish (omega (arith, finish-left_size)))
        (>>=-next _ (copy_tail-done finish finish-left_size) (rw finish-cur_buffer refl)))

  -- All three parts, where the bytes begin a page and do not fill it.
  user_read_write-aligned :
      (virt_addr % page_size == 0) ≡ true
      → 0 < size
      → size < page_size
      → translate_int pid virt_addr size v ≡ some (some phys_addr, w)
      → user_read_write direction pid buffer virt_addr size v ≡ some (finish.buffer, finish.vm)
  unfolding user_read_write copy_head start
  user_read_write-aligned aligned some_bytes part e =
      >>=-next _ {a = starting buffer virt_addr size v} (if_true _ _ aligned) (
        >>=-next _ (copy_pages-small size direction pid (starting buffer virt_addr size v) part)
          (>>=-next _ (copy_tail-part some_bytes e) (rw finish-cur_buffer refl)))

  user_read_write-finish :
      0 < size
      → size < page_size
      → virt_addr % page_size + size ≤ page_size
      → translate_int pid virt_addr size v ≡ some (some phys_addr, w)
      → user_read_write direction pid buffer virt_addr size v ≡ some (finish.buffer, finish.vm)
  user_read_write-finish some_bytes part fits e = elim (Bool-cases (virt_addr % page_size == 0)) [
    | inl aligned ↦ user_read_write-aligned aligned some_bytes part e
    | inr inside ↦ user_read_write-inside inside fits e
  ]

-- Where the address translates, a transfer of fewer bytes than a page holds that stays inside one
-- page moves exactly those bytes: to the process, into its frame, from the buffer, and from the
-- process, out of its frame, into the buffer.
pub user_read_write-in_page :
    (pid : ℕ) (buffer : Array ℕ) (virt_addr size phys_addr : ℕ) (v w : Vm)
    → 0 < size
    → size < page_size
    → virt_addr % page_size + size ≤ page_size
    → translate_int pid virt_addr size v ≡ some (some phys_addr, w)
    → (user_read_write to_user pid buffer virt_addr size v
        ≡ some (buffer, record w { main_memory = bcopy buffer 0 w.main_memory phys_addr size }))
      × (user_read_write to_kernel pid buffer virt_addr size v
          ≡ some (bcopy w.main_memory phys_addr buffer 0 size, w))
unfolding finish
user_read_write-in_page pid buffer virt_addr size phys_addr v w some_bytes part fits e = (
  user_read_write-finish to_user pid buffer virt_addr size phys_addr v w some_bytes part fits e,
  user_read_write-finish to_kernel pid buffer virt_addr size phys_addr v w some_bytes part fits e,
)
