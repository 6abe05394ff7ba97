-- ===== src/Userprog/OpenFiles.antt =====
-- userprog/sof.cc, sofmgr.cc, pof.cc and the open files of pcb.cc: the table of files open in the
-- system, and the table of each process that points into it. A name is the bytes of a C string. The
-- copies of a name that the tables keep have no room for the final NUL; the bytes after them are
-- taken to start with one. The answer -1 is an inner `none`; `none` as the result is a failed
-- `ASSERT` or an access through a slot that holds no pointer.
use cop5614nachos.Base.{
  ℕ, zero, suc, ◌+◌, ◌-◌, ◌%◌, ◌^◌, Bool, true, false, ◌&&◌, Option, none, some, List, [], ◌∷◌,
  ◌==◌, ◌>>=◌, Array, update,
}
use cop5614nachos.Bitmap.{BitMap, test, clear, find, num_clear}

abbrev pub Name : Type 0
Name = List ℕ

-- `strcmp(a, b) == 0`
abbrev pub same_name : Name → Name → Bool
same_name [] [] = true
same_name [] (y ∷ ys) = false
same_name (x ∷ xs) [] = false
same_name (x ∷ xs) (y ∷ ys) = x == y && same_name xs ys

-- The file system that the kernel was built with, UNIX files or its own disk: `Open`, `Create`, and
-- `ReadAt` and `WriteAt` of an open file, on a state of its own.
pub record FileSystem (World : Type 0) : Type 0 where
  pub open_file : Name → World → Option ℕ × World
  pub create_file : Name → World → Bool × World
  pub read_at : ℕ → Array ℕ → ℕ → ℕ → World → ℕ × Array ℕ × World
  pub write_at : ℕ → Array ℕ → ℕ → ℕ → World → ℕ × World
  pub get_char : World → ℕ × World

abbrev pub sof_maxnum : ℕ
sof_maxnum = 128

abbrev pub pof_maxnum : ℕ
pof_maxnum = 32

-- `openFile` is the handle that the file system returned.
pub record Sof : Type 0 where
  pub filename : Name
  pub open_file : ℕ
  pub counter : ℕ

pub record SofMgr : Type 0 where
  pub sof_map : BitMap
  pub sof_array : Array (Option Sof)

pub record Pof : Type 0 where
  pub filename : Name
  pub sof_index : ℕ
  pub offset : ℕ

pub record PofTable : Type 0 where
  pub pof_map : BitMap
  pub pof_array : Array (Option Pof)

-- The loops of `FindSOFByName` and `FindPOFByName`: the name in each slot that the map marks.
unfoldable pub find_name_loop : ℕ → ℕ → Name → BitMap → (ℕ → Option Name) → Option (Option ℕ)
find_name_loop zero i name map name_at = some none
find_name_loop (suc rounds) i name map name_at = do
  used ← test map i
  elim used [
    | true ↦ do
      other ← name_at i
      elim (same_name name other) [
        | true ↦ some (some i)
        | false ↦ find_name_loop rounds (i + 1) name map name_at
      ]
    | false ↦ find_name_loop rounds (i + 1) name map name_at
  ]

abbrev pub sof_name : SofMgr → ℕ → Option Name
sof_name m i = do sof ← m.sof_array i; some sof.filename

abbrev pub pof_name : PofTable → ℕ → Option Name
pof_name t i = do pof ← t.pof_array i; some pof.filename

unfoldable pub find_sof_by_name : Name → SofMgr → Option (Option ℕ)
unfolding find_name_loop
find_sof_by_name name m = find_name_loop sof_maxnum 0 name m.sof_map (sof_name m)

unfoldable pub find_pof_by_name : Name → PofTable → Option (Option ℕ)
unfolding find_name_loop
find_pof_by_name name t = find_name_loop pof_maxnum 0 name t.pof_map (pof_name t)

abbrev pub put_sof : SofMgr → ℕ → Sof → SofMgr
put_sof m i sof = record m { sof_array = update m.sof_array i (some sof) }

-- `CreateSOF`
unfoldable pub create_sof :
    {World : Type 0} → FileSystem World → Name → SofMgr → World → Option (Option ℕ × SofMgr × World)
create_sof fs name m world =
    let (opened, world') = fs.open_file name world in
    elim opened [
      | none ↦ some (none, m, world')
      | some handle ↦ do
        (slot, map) ← find m.sof_map
        elim slot [
          | none ↦ some (none, m, world')
          | some i ↦
              let sof : Sof = record { filename = name; open_file = handle; counter = 0 } in
              some (some i, put_sof (record m { sof_map = map }) i sof, world')
        ]
    ]

-- `counter --` of an unsigned word.
abbrev pub decrement : ℕ → ℕ
decrement n = (n + (2 ^ 32 - 1)) % 2 ^ 32

-- `RemoveSOF`
unfoldable pub remove_sof : ℕ → SofMgr → Option SofMgr
remove_sof i m = do
  used ← test m.sof_map i
  elim used [
    | false ↦ some m
    | true ↦ do
      sof ← m.sof_array i
      elim (decrement sof.counter == 0) [
        | true ↦ do
          map ← clear m.sof_map i
          some (record { sof_map = map; sof_array = update m.sof_array i none })
        | false ↦ some (put_sof m i (record sof { counter = decrement sof.counter }))
      ]
  ]

-- `IncSOFCounter` and `DecSOFCounter`
unfoldable pub inc_sof_counter : ℕ → SofMgr → Option SofMgr
inc_sof_counter i m = do
  sof ← m.sof_array i
  some (put_sof m i (record sof { counter = (sof.counter + 1) % 2 ^ 32 }))

unfoldable pub dec_sof_counter : ℕ → SofMgr → Option SofMgr
dec_sof_counter i m = do
  sof ← m.sof_array i
  some (put_sof m i (record sof { counter = decrement sof.counter }))

-- `WriteSOF` and `ReadSOF`, with `Write` and `Read` of the file they find.
unfoldable pub write_sof :
    {World : Type 0} → FileSystem World → Array ℕ → ℕ → ℕ → ℕ → SofMgr → World → Option (ℕ × World)
write_sof fs buffer size offset i m world = do
  sof ← m.sof_array i
  some (fs.write_at sof.open_file buffer size offset world)

unfoldable pub read_sof :
    {World : Type 0}
    → FileSystem World
    → Array ℕ
    → ℕ
    → ℕ
    → ℕ
    → SofMgr
    → World
    → Option (ℕ × Array ℕ × World)
read_sof fs buffer size offset i m world = do
  sof ← m.sof_array i
  some (fs.read_at sof.open_file buffer size offset world)

-- `CreatePOF`
unfoldable pub create_pof : ℕ → Name → PofTable → Option (Option ℕ × PofTable)
create_pof sof_index name t = do
  (slot, map) ← find t.pof_map
  elim slot [
    | none ↦ some (none, record t { pof_map = map })
    | some i ↦
        let pof : Pof = record { filename = name; sof_index = sof_index; offset = 0 } in
        some (some i, record { pof_map = map; pof_array = update t.pof_array i (some pof) })
  ]

-- `RemovePOF`
unfoldable pub remove_pof : ℕ → PofTable → Option PofTable
remove_pof i t = do
  used ← test t.pof_map i
  elim used [
    | true ↦ do
      map ← clear t.pof_map i
      some (record { pof_map = map; pof_array = update t.pof_array i none })
    | false ↦ some t
  ]

unfoldable pub test_pof : ℕ → PofTable → Option Bool
test_pof i t = test t.pof_map i

unfoldable pub get_num_free_pof : PofTable → Option ℕ
get_num_free_pof t = num_clear t.pof_map

unfoldable pub get_num_free_sof : SofMgr → Option ℕ
get_num_free_sof m = num_clear m.sof_map

unfoldable pub set_pof_offset : ℕ → ℕ → PofTable → Option PofTable
set_pof_offset i offset t = do
  pof ← t.pof_array i
  some (record t { pof_array = update t.pof_array i (some (record pof { offset = offset })) })

unfoldable pub get_pof_offset : ℕ → PofTable → Option ℕ
get_pof_offset i t = do pof ← t.pof_array i; some pof.offset

unfoldable pub get_pof_sof_index : ℕ → PofTable → Option ℕ
get_pof_sof_index i t = do pof ← t.pof_array i; some pof.sof_index

-- The loop of `~PCB` over the slots of a process.
unfoldable pub close_all_loop : ℕ → ℕ → PofTable → SofMgr → Option (PofTable × SofMgr)
unfolding remove_sof
close_all_loop zero i t m = some (t, m)
close_all_loop (suc rounds) i t m = do
  used ← test t.pof_map i
  elim used [
    | false ↦ close_all_loop rounds (i + 1) t m
    | true ↦ do
      map ← clear t.pof_map i
      pof ← t.pof_array i
      m' ← remove_sof pof.sof_index m
      close_all_loop rounds (i + 1)
          (record { pof_map = map; pof_array = update t.pof_array i none }) m'
  ]

unfoldable pub close_all : PofTable → SofMgr → Option (PofTable × SofMgr)
unfolding close_all_loop
close_all t m = close_all_loop pof_maxnum 0 t m
