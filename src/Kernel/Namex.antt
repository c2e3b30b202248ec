-- ===== src/Kernel/Namex.antt =====
-- Paths in kernel/fs.c. A string is the list of its bytes before the NUL; a name is what its 14
-- bytes hold up to the first NUL. An inode stands for its entry of `itable`: what `ilock` reads
-- from the disk does not change while a path is looked up.
pub mod Components
pub mod Names
pub mod Lookup
mod Tests
use system_call_enhancement.Base.{
  ℕ, zero, suc, ◌+◌, ◌-◌, ◌==◌, if◌then◌else◌, Bool, true, false, not, ◌&&◌, ◌||◌, List, [], ◌∷◌,
  take, Option, none, some,
}
use system_call_enhancement.Base.Int.{ℤ, pos, ◌-ℤ◌}

abbrev pub dir_siz : ℕ
dir_siz = 14

abbrev pub is_slash : ℕ → Bool
is_slash c = c == b'/'

-- The loops of `skipelem` over slashes, and over the bytes of an element.
unfoldable pub skip_slashes : List ℕ → List ℕ
skip_slashes [] = []
skip_slashes (c ∷ path) = if is_slash c then skip_slashes path else c ∷ path

unfoldable pub element : List ℕ → List ℕ
element [] = []
element (c ∷ path) = if is_slash c then [] else c ∷ element path

unfoldable pub behind_element : List ℕ → List ℕ
behind_element [] = []
behind_element (c ∷ path) = if is_slash c then c ∷ path else behind_element path

-- The name and the path behind it, `none` for 0.
unfoldable pub skipelem : List ℕ → Option (List ℕ × List ℕ)
skipelem path = elim (skip_slashes path) [
  | [] ↦ none
  | c ∷ s ↦ some (take dir_siz (element (c ∷ s)), skip_slashes (behind_element (c ∷ s)))
]

-- `namecmp`: `strncmp` on n bytes of two strings.
unfoldable pub namecmp : (n : ℕ) → (s t : List ℕ) → ℤ
namecmp zero s t = pos 0
namecmp (suc n) [] [] = pos 0
namecmp (suc n) [] (d ∷ t) = pos 0 -ℤ pos d
namecmp (suc n) (c ∷ s) [] = pos c
namecmp (suc n) (c ∷ s) (d ∷ t) =
    let rest = namecmp n s t in if not (c == 0) && c == d then rest else pos c -ℤ pos d

-- `struct dirent`
pub record Dirent : Type 0 where
  pub inum : ℕ
  pub name : List ℕ

-- An inode: whether its type is T_DIR, and the entries that `readi` finds in it.
pub record Inode : Type 0 where
  pub is_dir : Bool
  pub entries : List Dirent

-- The inodes of the device by number, and the references to them, `ref` of `itable`.
pub record World : Type 0 where
  pub inode : ℕ → Inode
  pub refs : ℕ → ℕ

-- `iget`, where the table has an entry left, and `idup`
abbrev pub iget : ℕ → World → World
iget inum w = record w { refs = λ a. if inum == a then w.refs a + 1 else w.refs a }

-- `ip->ref--` of `iput`
abbrev pub iput : ℕ → World → World
iput inum w = record w { refs = λ a. if inum == a then w.refs a - 1 else w.refs a }

abbrev pub is_zero : ℤ → Bool
is_zero (pos zero) = true
is_zero _ = false

-- The loop of `dirlookup`: the number of the inode that it gets.
unfoldable pub lookup_from : List Dirent → (name : List ℕ) → Option ℕ
lookup_from [] name = none
lookup_from (de ∷ es) name =
    let rest = lookup_from es name in
    if de.inum == 0
    then rest
    else if is_zero (namecmp dir_siz name de.name)
    then some de.inum
    else rest

unfoldable pub dirlookup : (dp : ℕ) → (name : List ℕ) → World → Option (ℕ × World)
dirlookup dp name w = elim (lookup_from (w.inode dp).entries name) [
  | none ↦ none
  | some inum ↦ some (inum, iget inum w)
]

-- What `namex` returns, `name` as it leaves it, and the references.
pub record Found : Type 0 where
  pub ip : Option ℕ
  pub name : List ℕ
  pub world : World

abbrev pub is_empty : List ℕ → Bool
is_empty [] = true
is_empty (c ∷ s) = false

-- The loop of `namex` on fuel, `none` when that runs out.
unfoldable pub namex_loop :
    (fuel : ℕ) → (nameiparent : Bool) → (path name : List ℕ) → (ip : ℕ) → World → Option Found
namex_loop zero nameiparent path name ip w = none
namex_loop (suc fuel) nameiparent path name ip w = elim (skipelem path) [
  | none ↦
      if nameiparent
      then some (record { ip = none; name = name; world = iput ip w })
      else some (record { ip = some ip; name = name; world = w })
  | some (elem, rest) ↦
      if not (w.inode ip).is_dir
      then some (record { ip = none; name = elem; world = iput ip w })
      else if nameiparent && is_empty rest
      then some (record { ip = some ip; name = elem; world = w })
      else elim (dirlookup ip elem w) [
        | none ↦ some (record { ip = none; name = elem; world = iput ip w })
        | some (next, w₁) ↦ namex_loop fuel nameiparent rest elem next (iput ip w₁)
      ]
]

-- `ROOTINO`
abbrev pub root_ino : ℕ
root_ino = 1

abbrev pub is_absolute : List ℕ → Bool
is_absolute [] = false
is_absolute (c ∷ path) = is_slash c

-- `namex` of a process whose working directory is cwd.
unfoldable pub namex :
    (fuel : ℕ) → (nameiparent : Bool) → (cwd : ℕ) → (path name : List ℕ) → World → Option Found
namex fuel nameiparent cwd path name w =
    let ip = if is_absolute path then root_ino else cwd in
    namex_loop fuel nameiparent path name ip (iget ip w)
