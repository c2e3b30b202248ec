-- ===== src/Kernel/Namex/Tests.antt =====
-- The path "//usr/./cat" in a small file system.
use system_call_enhancement.Base.{
  ℕ, if◌then◌else◌, true, false, List, [], ◌∷◌, ◌==◌, ◌≡◌, refl, arith,
}
use system_call_enhancement.Kernel.Namex.{Inode, World, namex, is_absolute, root_ino}
use system_call_enhancement.Kernel.Namex.Components.{components, parts}
use system_call_enhancement.Kernel.Namex.Lookup.{Resolved, target, namex-Resolved}

abbrev path : List ℕ
path = b'/' ∷ b'/' ∷ b'u' ∷ b's' ∷ b'r' ∷ b'/' ∷ b'.' ∷ b'/' ∷ b'c' ∷ b'a' ∷ b't' ∷ []

abbrev usr : List ℕ
usr = b'u' ∷ b's' ∷ b'r' ∷ []

abbrev cat : List ℕ
cat = b'c' ∷ b'a' ∷ b't' ∷ []

-- Inode 1 is the root, 4 is /usr and 9 is /usr/cat; the root's first entry is free.
abbrev tree : ℕ → Inode
tree a =
    if a == 1
    then record {
      is_dir = true;
      entries = record { inum = 0; name = usr } ∷ record { inum = 4; name = usr } ∷ [];
    }
    else if a == 4
    then record {
      is_dir = true;
      entries = record { inum = 4; name = b'.' ∷ [] } ∷ record { inum = 9; name = cat } ∷ [];
    }
    else record { is_dir = false; entries = [] }

abbrev world : World
world = record { inode = tree; refs = λ _. 1 }

components-path : components path ≡ usr ∷ (b'.' ∷ []) ∷ cat ∷ []
unfolding parts
components-path = refl

namex-Resolved_example :
    Resolved
      (namex 12 true 7 path [] world)
      world.refs
      (target true world.inode (components path) [] (if is_absolute path then root_ino else 7))
namex-Resolved_example = namex-Resolved 12 true 7 path [] world (omega arith)
