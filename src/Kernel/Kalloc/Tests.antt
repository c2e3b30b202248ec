-- ===== src/Kernel/Kalloc/Tests.antt =====
-- kernel/kalloc.c with one page on the free list.
use system_call_enhancement.Base.{true, false, none, [], ◌∷◌, ◌≡◌, refl, arith}
use system_call_enhancement.Kernel.Spinlock.{Hart, ok}
use system_call_enhancement.Kernel.Spinlock.Nesting.{IsNested, settle}
use system_call_enhancement.Kernel.Kalloc.{Kmem, kfree}
use system_call_enhancement.Kernel.Kalloc.Freelist.{Holds, kfree_lem}

abbrev cpu : Hart
cpu = record { id = 0; proc = none; noff = 0; intena = false; intr = true }

cpu-IsNested : IsNested cpu
cpu-IsNested = record { off = λ h. absurd (omega arith) }

abbrev one_page : Kmem
one_page = record {
  lock = record { locked = false; name = "kmem"; cpu = none };
  freelist = 0x80003000;
  words = λ _. 0;
}

one_page-Holds : Holds one_page (0x80003000 ∷ [])
one_page-Holds = record {
  lock_free = record { unlocked = refl; nobody = refl };
  chain = (refl, (λ e. omega arith), refl);
  distinct = (tt, tt);
}

kfree_lem_example :
    (m' : Kmem) × (kfree 0x80002000 0x80004000 cpu one_page ≡ ok (settle cpu, m'))
    × Holds m' (0x80004000 ∷ 0x80003000 ∷ [])
kfree_lem_example =
    (kfree_lem 0x80002000 0x80004000 cpu one_page (0x80003000 ∷ []) cpu-IsNested one_page-Holds).0
      refl (omega arith) (omega arith) (λ e. omega arith) ((λ e. omega arith), tt)
