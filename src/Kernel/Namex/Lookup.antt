-- ===== src/Kernel/Namex/Lookup.antt =====
-- `namex` of kernel/fs.c follows the components of a path, and gives back each reference that it
-- takes on the way.
use system_call_enhancement.Base.{
  ℕ, zero, suc, ◌+◌, ◌<◌, ◌==◌, if◌then◌else◌, Bool, not, ◌&&◌, List, [], ◌∷◌, length, Option, none,
  some, ◌≡◌, refl, arith, Bool-cases, Option-cases, inl, inr,
}
use system_call_enhancement.Kernel.Namex.{
  Inode, World, iget, iput, dirlookup, Found, namex_loop, namex, is_absolute, root_ino,
}
use system_call_enhancement.Kernel.Namex.Names.{entry_for, lookup_from-entry_for}
use system_call_enhancement.Kernel.Namex.Components.{
  components, is_nil, at_end, one_off, skipelem-Skipped,
}

-- The inode that the names lead to from ip, or for `nameiparent` the one before it, and the last
-- name.
abbrev pub target :
    (nameiparent : Bool)
    → (ℕ → Inode)
    → (names : List (List ℕ)) → (name : List ℕ) → (ip : ℕ) → Option (ℕ × List ℕ)
target nameiparent inode [] name ip = if nameiparent then none else some (ip, name)
target nameiparent inode (n ∷ ns) name ip =
    if not (inode ip).is_dir
    then none
    else if nameiparent && is_nil ns
    then some (ip, n)
    else elim (entry_for (inode ip).entries n) [
      | none ↦ none
      | some next ↦ target nameiparent inode ns n next
    ]

abbrev pub pair : Found → Option (ℕ × List ℕ)
pair f = elim f.ip [ none ↦ none | some ip ↦ some (ip, f.name) ]

-- One reference to the inode, if there is one
abbrev pub one_to : Option ℕ → ℕ → ℕ
one_to none a = 0
one_to (some ip) a = if ip == a then 1 else 0

-- `namex` returns t, with one reference more to the inode it returns and no other.
pub record Resolved (out : Option Found) (base : ℕ → ℕ) (t : Option (ℕ × List ℕ)) : Type 0 where
  pub found : Found
  pub returns : out ≡ some found
  pub result : pair found ≡ t
  pub refs : (a : ℕ) → found.world.refs a ≡ base a + one_to found.ip a

abbrev Held : World → (ℕ → ℕ) → ℕ → Type 0
Held w base ip = (a : ℕ) → w.refs a ≡ base a + one_to (some ip) a

iput-refs :
    (w : World) (base : ℕ → ℕ) (ip : ℕ) → Held w base ip → (a : ℕ) → (iput ip w).refs a ≡ base a + 0
iput-refs w base ip h a = ground (arith, h a)

step-Held :
    (w : World) (base : ℕ → ℕ) (ip next : ℕ)
    → Held w base ip
    → Held (iput ip (iget next w)) base next
step-Held w base ip next h a = ground (arith, h a)

namex_loop-Resolved :
    (fuel : ℕ) (nameiparent : Bool) (path name : List ℕ) (ip : ℕ) (w : World) (base : ℕ → ℕ)
    → length path < fuel
    → Held w base ip
    → Resolved
        (namex_loop fuel nameiparent path name ip w)
        base
        (target nameiparent w.inode (components path) name ip)
unfolding namex_loop dirlookup
namex_loop-Resolved zero nameiparent path name ip w base l h = absurd (omega arith)
namex_loop-Resolved (suc fuel) nameiparent path name ip w base l h = elim (skipelem-Skipped path) [
  | at_end e c ↦ elim (Bool-cases nameiparent) [
    | inl p ↦
        rw (namex_loop, e, c, p)
          (record {
            found = record { ip = none; name = name; world = iput ip w };
            returns = refl;
            result = refl;
            refs = iput-refs w base ip h;
          })
    | inr p ↦
        rw (namex_loop, e, c, p)
          (record {
            found = record { ip = some ip; name = name; world = w };
            returns = refl;
            result = refl;
            refs = h;
          })
  ]
  | one_off elem rest e c shorter last ↦ elim (Bool-cases (w.inode ip).is_dir) [
    | inr d ↦
        rw (namex_loop, e, c, d)
          (record {
            found = record { ip = none; name = elem; world = iput ip w };
            returns = refl;
            result = refl;
            refs = iput-refs w base ip h;
          })
    | inl d ↦ elim (Bool-cases (nameiparent && is_nil (components rest))) [
      | inl p ↦
          rw (namex_loop, e, c, d, last, p)
            (record {
              found = record { ip = some ip; name = elem; world = w };
              returns = refl;
              result = refl;
              refs = h;
            })
      | inr p ↦ elim (Option-cases (entry_for (w.inode ip).entries elem)) [
        | inl f ↦
            rw
              (
                namex_loop,
                e,
                c,
                d,
                last,
                p,
                dirlookup,
                lookup_from-entry_for (w.inode ip).entries elem,
                f,
              )
              (record {
                found = record { ip = none; name = elem; world = iput ip w };
                returns = refl;
                result = refl;
                refs = iput-refs w base ip h;
              })
        | inr (next, f) ↦
            let r =
              namex_loop-Resolved fuel nameiparent rest elem next (iput ip (iget next w)) base
                (omega (arith, l, shorter)) (step-Held w base ip next h) in
            rw
              (
                namex_loop,
                e,
                c,
                d,
                last,
                p,
                dirlookup,
                lookup_from-entry_for (w.inode ip).entries elem,
                f,
              )
              r
      ]
    ]
  ]
]

-- With fuel of more than the path's length `namex` returns. The components of the path are its
-- parts between slashes that are not empty, each cut to 14 bytes. `namei` returns the inode that
-- they lead to, each by the first entry in use that has its name, from the root for a path with a slash at its start and else from the working
-- directory; `nameiparent` returns the inode that the components before the last lead to, with the
-- last in `name`. It returns 0 exactly when some inode on the way is no directory or lacks the
-- name, or when `nameiparent` has no component. Either way it leaves one reference more to what it
-- returns and to nothing else.
pub namex-Resolved :
    (fuel : ℕ) (nameiparent : Bool) (cwd : ℕ) (path name : List ℕ) (w : World)
    → length path < fuel
    → Resolved (namex fuel nameiparent cwd path name w) w.refs (
        target nameiparent w.inode
          (components path)
          name
          (if is_absolute path then root_ino else cwd))
unfolding namex
namex-Resolved fuel nameiparent cwd path name w l =
    let ip = if is_absolute path then root_ino else cwd in
    namex_loop-Resolved fuel nameiparent path name ip (iget ip w) w.refs l (λ a. ground arith)
