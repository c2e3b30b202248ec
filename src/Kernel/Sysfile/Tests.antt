-- ===== src/Kernel/Sysfile/Tests.antt =====
-- A process with one free descriptor calls pipe.
use system_call_enhancement.Base.{true, false, [], ◌∷◌, none, some, All, refl, arith}
use system_call_enhancement.Kernel.Pipe.{pipe_init}
use system_call_enhancement.Kernel.File.{fd_none, fd_inode, File, State}
use system_call_enhancement.Kernel.File.Free.{IsFree, in_use, free}
use system_call_enhancement.Kernel.Sysfile.{Ofile, sys_pipe}
use system_call_enhancement.Kernel.Sysfile.Leaks.{Piped, sys_pipe-Piped}

abbrev unused : File
unused = record { type_ = fd_none; ref = 0; readable = false; writable = false; pipe = 0; ip = 0 }

abbrev console : File
console = record { type_ = fd_inode; ref = 2; readable = true; writable = true; pipe = 0; ip = 5 }

abbrev table : State
table = record {
  files = unused ∷ console ∷ unused ∷ [];
  pages = 4096 ∷ [];
  pipes = λ _. pipe_init (λ _. 0);
  iputs = [];
}

table-IsFree : All IsFree table.files
table-IsFree = (free refl refl, (in_use (omega arith), (free refl refl, tt)))

-- Descriptors 0 and 2 are the console.
abbrev descriptors : Ofile
descriptors = some 1 ∷ none ∷ some 1 ∷ []

sys_pipe-Piped_example :
    Piped
      (λ _ _. true)
      (λ _. 0)
      descriptors
      table
      (sys_pipe (λ _ _. true) (λ _. 0) descriptors table)
sys_pipe-Piped_example = sys_pipe-Piped (λ _ _. true) (λ _. 0) descriptors table table-IsFree
