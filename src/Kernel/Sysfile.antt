-- ===== src/Kernel/Sysfile.antt =====
-- The calls of kernel/sysfile.c on file descriptors: dup, close and pipe. `ofile` is the table of
-- the calling process, whose null pointers are `none`; a result of `none` is a panic.
pub mod Ends
pub mod Leaks
mod Tests
use system_call_enhancement.Base.{
  ℕ, zero, suc, if◌then◌else◌, Bool, true, false, List, [], ◌∷◌, Option, none, some, get_elem?, set,
}
use system_call_enhancement.Kernel.File.{State, filedup, fileclose, pipealloc}

abbrev pub Ofile : Type 0
Ofile = List (Option ℕ)

-- `argfd` of a descriptor that is not negative.
unfoldable pub argfd : ℕ → Ofile → Option ℕ
argfd fd ofile = elim (get_elem? ofile fd) [ none ↦ none | some f ↦ f ]

-- The loop of `fdalloc`: the first descriptor that is free.
unfoldable pub find_fd : Ofile → Option ℕ
find_fd [] = none
find_fd (none ∷ fs) = some 0
find_fd (some f ∷ fs) = elim (find_fd fs) [ none ↦ none | some fd ↦ some (suc fd) ]

unfoldable pub fdalloc : (f : ℕ) → Ofile → Option (ℕ × Ofile)
fdalloc f ofile = elim (find_fd ofile) [ none ↦ none | some fd ↦ some (fd, set ofile fd (some f)) ]

-- What a call returns, `none` for -1, with the table of the process and the files.
abbrev pub Called : Type 0
Called = Option (Option ℕ × Ofile × State)

unfoldable pub sys_dup : (fd : ℕ) → Ofile → State → Called
sys_dup fd ofile s = elim (argfd fd ofile) [
  | none ↦ some (none, ofile, s)
  | some f ↦ elim (fdalloc f ofile) [
    | none ↦ some (none, ofile, s)
    | some (new, ofile₁) ↦ elim (filedup f s) [
      | none ↦ none
      | some s₁ ↦ some (some new, ofile₁, s₁)
    ]
  ]
]

unfoldable pub sys_close : (fd : ℕ) → Ofile → State → Called
sys_close fd ofile s = elim (argfd fd ofile) [
  | none ↦ some (none, ofile, s)
  | some f ↦ elim (fileclose f s) [ none ↦ none | some s₁ ↦ some (some 0, set ofile fd none, s₁) ]
]

-- The ends of `sys_pipe` that give the two files up.
unfoldable pub give_up : (rf wf : ℕ) → Ofile → State → Called
give_up rf wf ofile s = elim (fileclose rf s) [
  | none ↦ none
  | some s₁ ↦ elim (fileclose wf s₁) [ none ↦ none | some s₂ ↦ some (none, ofile, s₂) ]
]

-- `sys_pipe`; `copied` tells whether both calls of `copyout` succeed for the two descriptors.
unfoldable pub sys_pipe : (copied : ℕ → ℕ → Bool) → (junk : ℕ → ℕ) → Ofile → State → Called
sys_pipe copied junk ofile s = elim (pipealloc junk s) [
  | none ↦ none
  | some (none, s₁) ↦ some (none, ofile, s₁)
  | some (some (rf, wf), s₁) ↦ elim (fdalloc rf ofile) [
    | none ↦ give_up rf wf ofile s₁
    | some (fd0, ofile₁) ↦ elim (fdalloc wf ofile₁) [
      | none ↦ give_up rf wf (set ofile₁ fd0 none) s₁
      | some (fd1, ofile₂) ↦
          if copied fd0 fd1
          then some (some 0, ofile₂, s₁)
          else give_up rf wf (set (set ofile₂ fd0 none) fd1 none) s₁
    ]
  ]
]
