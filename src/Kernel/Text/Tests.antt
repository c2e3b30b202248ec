-- ===== src/Kernel/Text/Tests.antt =====
-- The functions of kernel/string.c on a memory whose byte at each address is that address.
use system_call_enhancement.Base.{ℕ, ◌+◌, ◌≤◌, ◌<◌, ◌≡◌}
use system_call_enhancement.Kernel.Text.{Bytes, safestrcpy}
use system_call_enhancement.Kernel.Text.Copy.{safestrcpy_lem}

abbrev numbered : Bytes
numbered a = a

safestrcpy_lem_example :
    ((a : ℕ) → a < 20 → safestrcpy 20 5 4 numbered a ≡ a)
    × ((a : ℕ) → 24 ≤ a → safestrcpy 20 5 4 numbered a ≡ a)
    × (0 < 4 → (j : ℕ) × (j < 4) × (safestrcpy 20 5 4 numbered (20 + j) ≡ 0))
safestrcpy_lem_example = safestrcpy_lem 20 5 4 numbered
