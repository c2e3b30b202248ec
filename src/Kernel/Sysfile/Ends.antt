-- ===== src/Kernel/Sysfile/Ends.antt =====
-- The two files of a pipe of kernel/pipe.c, closed by `sys_pipe` of kernel/sysfile.c when it fails.
use system_call_enhancement.Base.{
  ℕ, zero, suc, ◌==◌, if◌then◌else◌, Bool, true, false, List, [], ◌∷◌, map, Option, none, some,
  get_elem?, set, ==_refl, All, ◌≡◌, ◌≢◌, refl, arith, ap, ap₂, sym, ◌∙◌,
}
use system_call_enhancement.Kernel.Pipe.{pipe_init, pipeclose}
use system_call_enhancement.Kernel.File.{
  FileType, fd_none, File, State, set_ref, close_last, fileclose, pipe_end, modify,
}
use system_call_enhancement.Kernel.File.Free.{IsFree, in_use, free}
use system_call_enhancement.Kernel.Sysfile.{Ofile, give_up}

-- The use that is made of a file
abbrev pub use_of : File → ℕ × FileType
use_of f = (f.ref, f.type_)

abbrev unused : ℕ × FileType
unused = (0, fd_none)

-- The files of `pipealloc` and what `fileclose` leaves of them.
abbrev pub opened : (rf wf pi : ℕ) → List File → List File
opened rf wf pi fs =
    modify (pipe_end false pi) wf (modify (pipe_end true pi) rf (set_ref (set_ref fs rf 1) wf 1))

abbrev end_of : Bool → ℕ → File → File
end_of readable pi g = pipe_end readable pi (record g { ref = 1 })

opened-rf :
    (fs : List File) (rf wf pi : ℕ) {g : File}
    → get_elem? fs rf ≡ some g
    → rf ≢ wf
    → get_elem? (opened rf wf pi fs) rf ≡ some (end_of true pi g)
opened-rf [] rf wf pi e h = absurd (ground (arith, e))
opened-rf (f ∷ fs) zero zero pi e h = absurd (h refl)
opened-rf (f ∷ fs) zero (suc wf) pi {g} e h =
    let same : f ≡ g = cc in ap (λ (x : File). some (end_of true pi x)) same
opened-rf (f ∷ fs) (suc rf) zero pi {g} e h = one fs rf e
  where
    one :
        (xs : List File) (i : ℕ)
        → get_elem? xs i ≡ some g
        → get_elem? (modify (pipe_end true pi) i (set_ref xs i 1)) i ≡ some (end_of true pi g)
    one [] i k = absurd (ground (arith, k))
    one (x ∷ xs) zero k = let same : x ≡ g = cc in ap (λ (y : File). some (end_of true pi y)) same
    one (x ∷ xs) (suc i) k = one xs i k
opened-rf (f ∷ fs) (suc rf) (suc wf) pi {g} e h =
    opened-rf fs rf wf pi {g = g} e (λ q. h (ap suc q))

opened-wf :
    (fs : List File) (rf wf pi : ℕ) {g : File} (b : File)
    → get_elem? fs wf ≡ some g
    → rf ≢ wf
    → get_elem? (set (opened rf wf pi fs) rf b) wf ≡ some (end_of false pi g)
opened-wf [] rf wf pi b e h = absurd (ground (arith, e))
opened-wf (f ∷ fs) zero zero pi b e h = absurd (h refl)
opened-wf (f ∷ fs) (suc rf) zero pi {g} b e h =
    let same : f ≡ g = cc in ap (λ (x : File). some (end_of false pi x)) same
opened-wf (f ∷ fs) zero (suc wf) pi {g} b e h = one fs wf e
  where
    one :
        (xs : List File) (i : ℕ)
        → get_elem? xs i ≡ some g
        → get_elem? (modify (pipe_end false pi) i (set_ref xs i 1)) i ≡ some (end_of false pi g)
    one [] i k = absurd (ground (arith, k))
    one (x ∷ xs) zero k = let same : x ≡ g = cc in ap (λ (y : File). some (end_of false pi y)) same
    one (x ∷ xs) (suc i) k = one xs i k
opened-wf (f ∷ fs) (suc rf) (suc wf) pi {g} b e h =
    opened-wf fs rf wf pi {g = g} b e (λ q. h (ap suc q))

abbrev shut : Bool → ℕ → File → File
shut readable pi g = record (end_of readable pi g) { ref = 0; type_ = fd_none }

-- Both ends closed
abbrev reclosed : (rf wf pi : ℕ) → (g0 g1 : File) → List File → List File
reclosed rf wf pi g0 g1 fs =
    set (set (opened rf wf pi fs) rf (shut true pi g0)) wf (shut false pi g1)

free_use : (f g : File) → IsFree f → some f ≡ some g → g.ref ≡ 0 → use_of f ≡ unused
free_use f g h e r =
    let same : f ≡ g = cc in
    elim h [
      | in_use q ↦ absurd (omega (arith, q, r, ap (λ (x : File). x.ref) same))
      | free q t ↦ ap₂ (λ x y. (x, y)) q t
    ]

one_use :
    (fs : List File) (i : ℕ) (end : File → File) {g : File} (b : File)
    → get_elem? fs i ≡ some g
    → All IsFree fs
    → g.ref ≡ 0
    → use_of b ≡ unused
    → map use_of (set (modify end i (set_ref fs i 1)) i b) ≡ map use_of fs
one_use [] i end b e v r u = absurd (ground (arith, e))
one_use (f ∷ fs) zero end {g} b e (h, v) r u =
    ap (λ x. x ∷ map use_of fs) (u ∙ sym (free_use f g h e r))
one_use (f ∷ fs) (suc i) end {g} b e (h, v) r u =
    ap (λ xs. use_of f ∷ xs) (one_use fs i end {g = g} b e v r u)

reclosed_use :
    (fs : List File) (rf wf pi : ℕ) {g0 g1 : File}
    → get_elem? fs rf ≡ some g0
    → g0.ref ≡ 0
    → get_elem? fs wf ≡ some g1
    → g1.ref ≡ 0
    → rf ≢ wf
    → All IsFree fs
    → map use_of (reclosed rf wf pi g0 g1 fs) ≡ map use_of fs
reclosed_use [] rf wf pi e r e₁ r₁ h v = absurd (ground (arith, e))
reclosed_use (f ∷ fs) zero zero pi e r e₁ r₁ h v = absurd (h refl)
reclosed_use (f ∷ fs) zero (suc wf) pi {g0} {g1} e r e₁ r₁ h (hf, v) =
    ap₂ (λ x xs. x ∷ xs) (sym (free_use f g0 hf e r))
      (one_use fs wf (pipe_end false pi) {g = g1} (shut false pi g1) e₁ v r₁ refl)
reclosed_use (f ∷ fs) (suc rf) zero pi {g0} {g1} e r e₁ r₁ h (hf, v) =
    ap₂ (λ x xs. x ∷ xs) (sym (free_use f g1 hf e₁ r₁))
      (one_use fs rf (pipe_end true pi) {g = g0} (shut true pi g0) e v r refl)
reclosed_use (f ∷ fs) (suc rf) (suc wf) pi {g0} {g1} e r e₁ r₁ h (hf, v) =
    ap (λ xs. use_of f ∷ xs)
      (reclosed_use fs rf wf pi {g0 = g0} {g1 = g1} e r e₁ r₁ (λ q. h (ap suc q)) v)

-- What a call that fails leaves.
pub record GaveBack (ofile : Ofile) (s : State) (out : Option (Option ℕ × Ofile × State))
    : Type 0 where
  pub after : State
  pub returns : out ≡ some (none, ofile, after)
  pub uses : map use_of after.files ≡ map use_of s.files
  pub pages : after.pages ≡ s.pages

-- `fileclose` of the last reference to an end of a pipe.
fileclose-pipe :
    (i : ℕ) (s : State) (readable : Bool) (pi : ℕ) (g : File)
    → get_elem? s.files i ≡ some (end_of readable pi g)
    → fileclose i s
      ≡ some (
          close_last
            (end_of readable pi g)
            (record s { files = set s.files i (shut readable pi g) }))
unfolding fileclose
fileclose-pipe i s readable pi g e = rw (fileclose, e) refl

module _ (junk : ℕ → ℕ) (s : State) (rf wf pi : ℕ) (rest : List ℕ) (g0 g1 : File)
    (e0 : get_elem? s.files rf ≡ some g0) (r0 : g0.ref ≡ 0) (e1 : get_elem? s.files wf ≡ some g1)
    (r1 : g1.ref ≡ 0) (apart : rf ≢ wf) (p : s.pages ≡ pi ∷ rest) (valid : All IsFree s.files) where
  abbrev piped : State
  piped = record s {
    files = opened rf wf pi s.files;
    pages = rest;
    pipes = λ a. if a == pi then pipe_init junk else s.pipes a;
  }

  abbrev half : State
  half =
      close_last (end_of true pi g0)
        (record piped { files = set (opened rf wf pi s.files) rf (shut true pi g0) })

  abbrev closed : State
  closed =
      close_last (end_of false pi g1) (record half { files = set half.files wf (shut false pi g1) })

  closed-files : closed.files ≡ reclosed rf wf pi g0 g1 s.files
  unfolding close_last
  closed-files = refl

  closed-pages : closed.pages ≡ s.pages
  unfolding close_last pipeclose
  closed-pages = rw (==_refl pi) (sym p)

  pub give_up-GaveBack : (ofile : Ofile) → GaveBack ofile s (give_up rf wf ofile piped)
  unfolding give_up close_last
  give_up-GaveBack ofile = record {
    after = closed;
    returns =
        rw
          (
            give_up,
            fileclose-pipe rf piped true pi g0 (opened-rf s.files rf wf pi {g = g0} e0 apart),
            fileclose-pipe wf half false pi g1
                (opened-wf s.files rf wf pi {g = g1} (shut true pi g0) e1 apart),
          )
          refl;
    uses =
        ap (map use_of) closed-files
        ∙ reclosed_use s.files rf wf pi {g0 = g0} {g1 = g1} e0 r0 e1 r1 apart valid;
    pages = closed-pages;
  }
