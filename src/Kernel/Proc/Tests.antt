-- ===== src/Kernel/Proc/Tests.antt =====
-- The theorems about kernel/proc.c at a table of three processes and services that count pages.
use system_call_enhancement.Base.{
  ℕ, ◌+◌, true, false, none, some, replicate, [], ◌∷◌, set, ◌≡◌, ◌≢◌, refl, arith,
}
use system_call_enhancement.Base.Int.{pos, negsuc, ◌+ℤ◌}
use system_call_enhancement.Kernel.Spinlock.{Hart, ok, panic, ◌>>=◌, push_off}
use system_call_enhancement.Kernel.Spinlock.Nesting.{IsNested, IsFree, settle}
use system_call_enhancement.Kernel.Proc.{
  Context, page_size, Proc, ProcState, Chan, Kernel, Services, AllFree, zero_proc, lock_proc,
}
use system_call_enhancement.Kernel.Proc.Locks.{locked_by}
use system_call_enhancement.Kernel.Proc.Wakeup.{wakeup}
use system_call_enhancement.Kernel.Proc.Wakeup.Effect.{wakeup_lem, wake_all}
use system_call_enhancement.Kernel.Proc.Alloc.{
  allocproc, proc_pagetable, proc_freepagetable, freeproc, cleared,
}
use system_call_enhancement.Kernel.Proc.Alloc.Slot.{first_unused}
use system_call_enhancement.Kernel.Proc.Alloc.Effect.{fresh_proc, allocproc_ok}
use system_call_enhancement.Kernel.Proc.Fork.{fork, sfork, share}
use system_call_enhancement.Kernel.Proc.Fork.Parts.{dup_all}
use system_call_enhancement.Kernel.Proc.Fork.Effect.{Allocates, fork_ok, fork_failed}
use system_call_enhancement.Kernel.Proc.Fork.Shared.{shared, sfork-lock_proc, sfork-freeproc}

-- The world is the address of the next free page; `pages` and `copies` say what succeeds.
abbrev pub services : Services ℕ
services = record {
  trampoline = 0x8000;
  forkret = 0x9000;
  kalloc = λ w. (some w, w + 4096);
  kfree = λ _ w. w;
  uvmcreate = λ w. (some w, w + 4096);
  mappages = λ _ _ _ _ _ w. (true, w);
  uvmunmap = λ _ _ _ _ w. w;
  uvmfree = λ _ _ w. w;
  uvmcopy = λ _ _ _ w. (true, w);
  uvmalloc = λ _ _ new _ w. (new, w);
  uvmdealloc = λ _ _ new w. (new, w);
  copyout_int = λ _ _ _ w. (true, w);
  copy_trapframe = λ _ _ w. w;
  set_a0 = λ _ _ w. w;
  filedup = λ _ w. w;
  fileclose = λ _ w. w;
  idup = λ _ w. w;
  iput = λ _ w. w;
  begin_op = λ w. w;
  end_op = λ w. w;
}

abbrev pub cpu0 : Hart
cpu0 = record { id = 0; proc = some 0; noff = 0; intena = true; intr = true }

abbrev pub shell : Proc
shell = record zero_proc {
  state = ProcState.running;
  pid = pos 1;
  sz = 4096;
  pagetable = some 0x2000;
  trapframe = some 0x1000;
  ofile = some 5 ∷ replicate 15 none;
  cwd = some 1;
  name = "sh";
}

abbrev pub sleeper : Proc
sleeper = record zero_proc { state = ProcState.sleeping; pid = pos 2; chan = some (Chan.of_ticks) }

abbrev pub kernel : Kernel ℕ
kernel = record {
  hart = cpu0;
  table = shell ∷ sleeper ∷ zero_proc ∷ [];
  nextpid = pos 3;
  initproc = some 0;
  pid_lock = zero_proc.lock;
  wait_lock = zero_proc.lock;
  tickslock = zero_proc.lock;
  ticks = 0;
  world = 0x10000;
}

pub cpu0-IsNested : IsNested cpu0
cpu0-IsNested = record { off = λ h. absurd (omega arith) }

pub unheld : IsFree zero_proc.lock
unheld = record { unlocked = refl; nobody = refl }

pub table-AllFree : AllFree kernel.table
table-AllFree = (unheld, (unheld, (unheld, tt)))

table-ne : kernel.table ≢ []
table-ne e = cc

wakeup_lem_example :
    wakeup (some Chan.of_ticks) kernel
    ≡ ok (record kernel {
      hart = settle cpu0;
      table = shell ∷ record sleeper { state = ProcState.runnable } ∷ zero_proc ∷ [];
    })
unfolding wake_all
wakeup_lem_example = wakeup_lem (some Chan.of_ticks) kernel cpu0-IsNested table-AllFree table-ne

fork-Allocates : Allocates services kernel 0 2 shell zero_proc 0x10000 0x11000 0x11000 0x12000
unfolding first_unused proc_pagetable
fork-Allocates = record {
  nested = cpu0-IsNested;
  free = table-AllFree;
  free_pid = unheld;
  caller = refl;
  caller_at = refl;
  slot = refl;
  slot_at = refl;
  apart = λ h. absurd (omega arith);
  page = refl;
  pagetable = refl;
}

-- The context of a new process
abbrev started_at : Context
started_at = record { ra = 0x9000; sp = zero_proc.kstack + page_size; saved = replicate 12 0 }

-- The child as `allocproc` leaves it: trapframe at 0x10000, page table at 0x11000.
abbrev new_child : Proc
new_child = fresh_proc services (pos 3) 0x10000 0x11000 zero_proc

allocproc_ok_example :
    allocproc services kernel
    ≡ ok (
      some 2,
      record kernel {
        hart = push_off cpu0;
        nextpid = pos 3 +ℤ pos 1;
        table = set kernel.table 2 (record (locked_by 0 zero_proc) {
          pid = pos 3;
          state = ProcState.used;
          trapframe = some 0x10000;
          pagetable = some 0x11000;
          context = started_at;
        });
        world = 0x12000;
      },
    )
unfolding first_unused proc_pagetable
allocproc_ok_example =
    allocproc_ok services kernel cpu0-IsNested table-AllFree 2 zero_proc 0x10000 0x11000 0x11000
      0x12000 unheld refl refl refl refl

fork_ok_example :
    fork services kernel
    ≡ ok (
      pos 3,
      record kernel {
        hart = settle cpu0;
        nextpid = pos 3 +ℤ pos 1;
        table = set kernel.table 2 (record zero_proc {
          state = ProcState.runnable;
          parent = some 0;
          pid = pos 3;
          trapframe = some 0x10000;
          pagetable = some 0x11000;
          context = started_at;
          sz = shell.sz;
          ofile = shell.ofile;
          cwd = shell.cwd;
          name = shell.name;
        });
        world = 0x12000;
      },
    )
unfolding dup_all
fork_ok_example = fork_ok fork-Allocates 0x12000 unheld refl refl

-- A copy of the user memory that fails
abbrev no_copy : Services ℕ
no_copy = record services { uvmcopy = λ _ _ _ w. (false, w) }

no_copy-Allocates : Allocates no_copy kernel 0 2 shell zero_proc 0x10000 0x11000 0x11000 0x12000
unfolding first_unused proc_pagetable
no_copy-Allocates = record {
  nested = cpu0-IsNested;
  free = table-AllFree;
  free_pid = unheld;
  caller = refl;
  caller_at = refl;
  slot = refl;
  slot_at = refl;
  apart = λ h. absurd (omega arith);
  page = refl;
  pagetable = refl;
}

fork_failed_example :
    fork no_copy kernel
    ≡ ok (
      negsuc 0,
      record kernel {
        hart = settle cpu0;
        nextpid = pos 3 +ℤ pos 1;
        table = set kernel.table 2 (record zero_proc { context = started_at });
        world = 0x12000;
      },
    )
fork_failed_example = fork_failed no_copy-Allocates 0x12000 refl

sfork-lock_proc_example : (sfork services kernel >>= λ (_, k). lock_proc 2 k) ≡ panic
sfork-lock_proc_example = sfork-lock_proc fork-Allocates

sfork-freeproc_example :
    (sfork services kernel >>= λ (_, k). freeproc services 2 k)
    ≡ ok (record (shared fork-Allocates) {
      table = set kernel.table 2 (cleared services (share 0 shell (locked_by 0 new_child)));
      world = proc_freepagetable services 0x2000 4096 (services.kfree 0x10000 0x12000);
    })
sfork-freeproc_example = sfork-freeproc fork-Allocates 0x2000 refl
