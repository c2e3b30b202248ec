-- ===== src/Kernel/Text.antt =====
-- kernel/string.c: blocks of memory and NUL-terminated strings. Memory is a function from addresses
-- to bytes; no object reaches around the end of the address space.
pub mod Move
pub mod Copy
mod Tests
use system_call_enhancement.Base.{
  ℕ, zero, suc, ◌+◌, ◌-◌, ◌%◌, ◌==◌, ltb, if◌then◌else◌, Bool, true, false, not, ◌&&◌, Option, none,
  some,
}
use system_call_enhancement.Base.Int.{ℤ, pos, negsuc, ◌-ℤ◌}

abbrev pub Bytes : Type 0
Bytes = ℕ → ℕ

-- `*a = v`
abbrev pub poke : Bytes → (a v : ℕ) → Bytes
poke m a v b = if a == b then v else m b

-- The loop of `memset` with n turns left, at the address dst + i.
unfoldable pub fill : (n at c : ℕ) → Bytes → Bytes
fill zero at c m = m
fill (suc n) at c m = fill n (at + 1) c (poke m at c)

unfoldable pub memset : (dst c n : ℕ) → Bytes → Bytes
memset dst c n m = fill n dst (c % 256) m

unfoldable pub memcmp : (v1 v2 n : ℕ) → Bytes → ℤ
memcmp v1 v2 zero m = pos 0
memcmp v1 v2 (suc n) m =
    let rest = memcmp (v1 + 1) (v2 + 1) n m in
    if not (m v1 == m v2) then pos (m v1) -ℤ pos (m v2) else rest

-- The two loops of `memmove`: down from the ends, and up.
unfoldable pub copy_down : (n s d : ℕ) → Bytes → Bytes
copy_down zero s d m = m
copy_down (suc n) s d m = copy_down n (s - 1) (d - 1) (poke m (d - 1) (m (s - 1)))

unfoldable pub copy_up : (n s d : ℕ) → Bytes → Bytes
copy_up zero s d m = m
copy_up (suc n) s d m = copy_up n (s + 1) (d + 1) (poke m d (m s))

unfoldable pub memmove : (dst src n : ℕ) → Bytes → Bytes
memmove dst src n m =
    if n == 0
    then m
    else if ltb src dst && ltb dst (src + n)
    then copy_down n (src + n) (dst + n) m
    else copy_up n src dst m

unfoldable pub strncmp : (p q n : ℕ) → Bytes → ℤ
strncmp p q zero m = pos 0
strncmp p q (suc n) m =
    let rest = strncmp (p + 1) (q + 1) n m in
    if not (m p == 0) && (m p == m q) then rest else pos (m p) -ℤ pos (m q)

-- The second loop pads with NULs.
unfoldable pub strncpy : (s t n : ℕ) → Bytes → Bytes
strncpy s t zero m = m
strncpy s t (suc n) m =
    let rest = strncpy (s + 1) (t + 1) n (poke m s (m t)) in
    if m t == 0 then fill n (s + 1) 0 (poke m s (m t)) else rest

-- `safestrcpy` behind its test, with n more characters to copy at most.
unfoldable pub copy_and_end : (s t n : ℕ) → Bytes → Bytes
copy_and_end s t zero m = poke m s 0
copy_and_end s t (suc n) m =
    let rest = copy_and_end (s + 1) (t + 1) n (poke m s (m t)) in
    if m t == 0 then poke (poke m s (m t)) (s + 1) 0 else rest

unfoldable pub safestrcpy : (s t n : ℕ) → Bytes → Bytes
safestrcpy s t zero m = m
safestrcpy s t (suc n) m = copy_and_end s t n m

-- The loop of `strlen` on fuel, from s[n] on.
unfoldable pub count : (fuel s n : ℕ) → Bytes → Option ℕ
count zero s n m = none
count (suc fuel) s n m =
    let rest = count fuel s (suc n) m in if m (s + n) == 0 then some n else rest

unfoldable pub strlen : (fuel s : ℕ) → Bytes → Option ℕ
strlen fuel s m = count fuel s 0 m
