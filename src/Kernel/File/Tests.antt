-- ===== src/Kernel/File/Tests.antt =====
-- A table of three files of which two are free.
use system_call_enhancement.Base.{true, false, [], ◌∷◌, none, some, All, ◌≡◌, refl, arith}
use system_call_enhancement.Kernel.Pipe.{pipe_init}
use system_call_enhancement.Kernel.File.{
  fd_none, fd_inode, File, State, find_free, filealloc, fileclose, close_last, pipealloc,
}
use system_call_enhancement.Kernel.File.Free.{IsFree, in_use, free}
use system_call_enhancement.Kernel.File.Piped.{Allocated, pipealloc-Allocated}

abbrev closed : File
closed = record { type_ = fd_none; ref = 0; readable = false; writable = false; pipe = 0; ip = 0 }

abbrev console : File
console = record { type_ = fd_inode; ref = 2; readable = true; writable = true; pipe = 0; ip = 5 }

abbrev table : State
table = record {
  files = closed ∷ console ∷ closed ∷ [];
  pages = 4096 ∷ [];
  pipes = λ _. pipe_init (λ _. 0);
  iputs = [];
}

table-IsFree : All IsFree table.files
table-IsFree = (free refl refl, (in_use (omega arith), (free refl refl, tt)))

pipealloc-Allocated_example : Allocated (λ _. 0) table
pipealloc-Allocated_example = pipealloc-Allocated (λ _. 0) table table-IsFree

-- Without a page the table stays as it is.
pipealloc_no_page :
    pipealloc (λ _. 0) (record table { pages = [] }) ≡ some (none, record table { pages = [] })
unfolding pipealloc filealloc find_free fileclose close_last
pipealloc_no_page = refl
