-- ===== src/Kernel/Proc/Exit/Tests.antt =====
-- `wait` on a process with a ZOMBIE child, and on one without children.
use system_call_enhancement.Base.{
  ℕ, zero, suc, ◌<◌, ◌≡◌, refl, false, ◌&&◌, some, [], ◌∷◌, set, get_elem?, arith,
}
use system_call_enhancement.Base.Int.{pos}
use system_call_enhancement.Kernel.Spinlock.{ok}
use system_call_enhancement.Kernel.Spinlock.Nesting.{settle}
use system_call_enhancement.Kernel.Proc.{Proc, ProcState, Kernel, AllFree, zero_proc}
use system_call_enhancement.Kernel.Proc.Tests.{services, cpu0, shell, kernel, cpu0-IsNested, unheld}
use system_call_enhancement.Kernel.Proc.Alloc.{cleared, free_pages}
use system_call_enhancement.Kernel.Proc.Sleep.{Switch}
use system_call_enhancement.Kernel.Proc.Exit.{wait}
use system_call_enhancement.Kernel.Proc.Exit.Effect.{is_child, is_zombie}
use system_call_enhancement.Kernel.Proc.Exit.Wait.{wait_reaps}

abbrev back : Switch ℕ
back _ k = ok k

abbrev exited : Proc
exited = record zero_proc {
  state = ProcState.zombie;
  pid = pos 2;
  parent = some 0;
  trapframe = some 0x3000;
}

abbrev family : Kernel ℕ
family = record kernel { table = shell ∷ exited ∷ zero_proc ∷ [] }

family-AllFree : AllFree family.table
family-AllFree = (unheld, (unheld, (unheld, tt)))

no_earlier :
    (j : ℕ) (r : Proc)
    → j < 1
    → get_elem? family.table j ≡ some r
    → (is_child 0 r && is_zombie r) ≡ false
no_earlier zero r lt e = ground (arith, e)
no_earlier (suc j) r lt e = absurd (omega arith)

wait_reaps_example :
    wait services back 1 0 family
    ≡ ok (
        some (
          pos 2,
          record family {
            hart = settle cpu0;
            table = set family.table 1 (cleared services exited);
            world = free_pages services exited 0x10000;
          },
        ))
wait_reaps_example =
    wait_reaps services back family 0 0 0 cpu0-IsNested family-AllFree unheld refl 1 shell exited
      refl refl (omega arith) refl refl no_earlier
