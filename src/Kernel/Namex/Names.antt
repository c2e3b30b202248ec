-- ===== src/Kernel/Namex/Names.antt =====
-- The entry of a name in a directory, as `dirlookup` of kernel/fs.c looks for it, and by the names.
use system_call_enhancement.Base.{
  ℕ, zero, suc, ◌==◌, if◌then◌else◌, Bool, true, false, not, ◌&&◌, List, [], ◌∷◌, Option, none,
  some, ◌≡◌, refl, arith, Bool-cases, inl, inr,
}
use system_call_enhancement.Base.Int.{pos, ◌-ℤ◌}
use system_call_enhancement.Kernel.Namex.{namecmp, is_zero, Dirent, lookup_from}

-- The string in a field of n bytes
unfoldable pub in_field : (n : ℕ) → List ℕ → List ℕ
in_field zero s = []
in_field (suc n) [] = []
in_field (suc n) (c ∷ s) = if c == 0 then [] else c ∷ in_field n s

unfoldable pub same_bytes : List ℕ → List ℕ → Bool
same_bytes [] [] = true
same_bytes [] (d ∷ t) = false
same_bytes (c ∷ s) [] = false
same_bytes (c ∷ s) (d ∷ t) = c == d && same_bytes s t

-- The inode of the first entry in use whose name is the given one, as strings of 14 bytes
unfoldable pub entry_for : List Dirent → (name : List ℕ) → Option ℕ
entry_for [] name = none
entry_for (de ∷ es) name =
    let next = entry_for es name in
    if not (de.inum == 0) && same_bytes (in_field 14 name) (in_field 14 de.name)
    then some de.inum
    else next

is_zero-sub : (c d : ℕ) → is_zero (pos c -ℤ pos d) ≡ (c == d)
unfolding ◌-ℤ◌
is_zero-sub c d = ground arith

namecmp-same_bytes :
    (n : ℕ) (s t : List ℕ) → is_zero (namecmp n s t) ≡ same_bytes (in_field n s) (in_field n t)
unfolding namecmp in_field same_bytes
namecmp-same_bytes zero s t = refl
namecmp-same_bytes (suc n) [] [] = refl
namecmp-same_bytes (suc n) [] (d ∷ t) = elim (Bool-cases (d == 0)) [
  | inl e ↦ rw (e, is_zero-sub 0 d) (ground (arith, e))
  | inr e ↦ rw (e, is_zero-sub 0 d) (ground (arith, e))
]
namecmp-same_bytes (suc n) (c ∷ s) [] = ground arith
namecmp-same_bytes (suc n) (c ∷ s) (d ∷ t) =
    ground (arith, namecmp-same_bytes n s t, is_zero-sub c d)

pub lookup_from-entry_for :
    (es : List Dirent) (name : List ℕ) → lookup_from es name ≡ entry_for es name
unfolding lookup_from entry_for
lookup_from-entry_for [] name = refl
lookup_from-entry_for (de ∷ es) name =
    rw (lookup_from-entry_for es name, namecmp-same_bytes 14 name de.name) (ground arith)
