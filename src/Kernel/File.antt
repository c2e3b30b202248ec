-- ===== src/Kernel/File.antt =====
-- The file table of kernel/file.c, and `pipealloc` of kernel/pipe.c. A pointer to a `struct file`
-- is its index in the table, and `ftable.lock` makes one step of each look at the table. The pages
-- that `kalloc` can give are a list, as Kernel.Kalloc keeps them.
pub mod Free
pub mod Pipealloc
pub mod Piped
mod Tests
use system_call_enhancement.Base.{
  ℕ, zero, suc, ◌+◌, ◌-◌, ◌==◌, ltb, if◌then◌else◌, Bool, true, false, List, [], ◌∷◌, ◌++◌, Option,
  none, some, get_elem?, set,
}
use system_call_enhancement.Kernel.Pipe.{Pipe, pipe_init, pipeclose}

-- `FD_NONE`, `FD_PIPE`, `FD_INODE` and `FD_DEVICE`
pub data FileType : Type 0 where
  fd_none fd_pipe fd_inode fd_device : FileType

-- `struct file`, less `pipetagged`, the offset and the device number, which these functions do not
-- touch.
pub record File : Type 0 where
  pub type_ : FileType
  pub ref : ℕ
  pub readable : Bool
  pub writable : Bool
  pub pipe : ℕ
  pub ip : ℕ

-- The table, the pages that are free, the pipes by their page, and the inodes given to `iput`, in
-- their order.
pub record State : Type 0 where
  pub files : List File
  pub pages : List ℕ
  pub pipes : ℕ → Pipe
  pub iputs : List ℕ

-- The loop of `filealloc`: the index of the first file that is free.
unfoldable pub find_free : List File → Option ℕ
find_free [] = none
find_free (f ∷ fs) =
    let next = find_free fs in
    if f.ref == 0 then some 0 else elim next [ none ↦ none | some i ↦ some (suc i) ]

abbrev pub set_ref : List File → ℕ → ℕ → List File
set_ref [] i n = []
set_ref (f ∷ fs) zero n = record f { ref = n } ∷ fs
set_ref (f ∷ fs) (suc i) n = f ∷ set_ref fs i n

unfoldable pub filealloc : State → Option (ℕ × State)
filealloc s = elim (find_free s.files) [
  | none ↦ none
  | some i ↦ some (i, record s { files = set_ref s.files i 1 })
]

-- `none` is a panic, or a pointer that is not into the table.
unfoldable pub filedup : ℕ → State → Option State
filedup i s = elim (get_elem? s.files i) [
  | none ↦ none
  | some f ↦ if ltb f.ref 1 then none else some (record s { files = set_ref s.files i (f.ref + 1) })
]

-- The end of `fileclose`, for the copy ff of the file.
unfoldable pub close_last : File → State → State
close_last ff s = elim ff.type_ [
  | fd_none ↦ s
  | fd_pipe ↦
      let (pi, freed) = pipeclose ff.writable (s.pipes ff.pipe) in
      record s {
        pipes = λ a. if a == ff.pipe then pi else s.pipes a;
        pages = if freed then ff.pipe ∷ s.pages else s.pages;
      }
  | fd_inode ↦ record s { iputs = s.iputs ++ (ff.ip ∷ []) }
  | fd_device ↦ record s { iputs = s.iputs ++ (ff.ip ∷ []) }
]

unfoldable pub fileclose : ℕ → State → Option State
fileclose i s = elim (get_elem? s.files i) [
  | none ↦ none
  | some f ↦
      if ltb f.ref 1
      then none
      else if ltb 0 (f.ref - 1)
      then some (record s { files = set_ref s.files i (f.ref - 1) })
      else some (
          close_last f (record s { files = set s.files i (record f { ref = 0; type_ = fd_none }) }))
]

-- The stores of `pipealloc` into its two files.
abbrev pub pipe_end : (readable : Bool) → (pi : ℕ) → File → File
pipe_end readable pi f = record f {
  type_ = fd_pipe;
  readable = readable;
  writable = if readable then false else true;
  pipe = pi;
}

abbrev pub modify : (File → File) → ℕ → List File → List File
modify g i [] = []
modify g zero (f ∷ fs) = g f ∷ fs
modify g (suc i) (f ∷ fs) = f ∷ modify g i fs

-- `pipealloc` on a page whose bytes are `junk`: `none` is a panic of `fileclose`, and the two files
-- are `none` for -1.
unfoldable pub pipealloc : (junk : ℕ → ℕ) → State → Option (Option (ℕ × ℕ) × State)
pipealloc junk s = elim (filealloc s) [
  | none ↦ some (none, s)
  | some (f0, s₁) ↦ elim (filealloc s₁) [
    | none ↦ elim (fileclose f0 s₁) [ none ↦ none | some s₂ ↦ some (none, s₂) ]
    | some (f1, s₂) ↦ elim s₂.pages [
      | [] ↦ elim (fileclose f0 s₂) [
        | none ↦ none
        | some s₃ ↦ elim (fileclose f1 s₃) [ none ↦ none | some s₄ ↦ some (none, s₄) ]
      ]
      | pi ∷ pages ↦ some (
        some (f0, f1),
        record s₂ {
          files = modify (pipe_end false pi) f1 (modify (pipe_end true pi) f0 s₂.files);
          pages = pages;
          pipes = λ a. if a == pi then pipe_init junk else s₂.pipes a;
        },
      )
    ]
  ]
]
