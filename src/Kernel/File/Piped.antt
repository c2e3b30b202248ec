-- ===== src/Kernel/File/Piped.antt =====
-- The two ends of the pipe that `pipealloc` of kernel/pipe.c makes, file by file.
use system_call_enhancement.Base.{
  ℕ, zero, suc, ◌==◌, ltb, if◌then◌else◌, true, false, ◌||◌, List, [], ◌∷◌, none, some, get_elem?,
  All, ◌≡◌, ◌≢◌, refl, ap, sym, ◌∙◌,
}
use system_call_enhancement.Kernel.File.{fd_pipe, File, State, set_ref, pipe_end, modify, pipealloc}
use system_call_enhancement.Kernel.File.Free.{IsFree, free_count, get_elem?-set_ref}
use system_call_enhancement.Kernel.File.Pipealloc.{
  get_elem?-set_ref_ne, no_page, gave_up, made, pipealloc-Ended,
}

module _ (g : File → File) where
  get_elem?-modify_self :
      (fs : List File) (i : ℕ) {x : File}
      → get_elem? fs i ≡ some x
      → get_elem? (modify g i fs) i ≡ some (g x)
  get_elem?-modify_self [] i h = absurd cc
  get_elem?-modify_self (f ∷ fs) zero {x} h = let same : f ≡ x = cc in ap (λ y. some (g y)) same
  get_elem?-modify_self (f ∷ fs) (suc i) {x} h = get_elem?-modify_self fs i {x = x} h

  get_elem?-modify_ne :
      (fs : List File) (i j : ℕ) → i ≢ j → get_elem? (modify g i fs) j ≡ get_elem? fs j
  get_elem?-modify_ne [] i j h = refl
  get_elem?-modify_ne (f ∷ fs) zero zero h = absurd (h refl)
  get_elem?-modify_ne (f ∷ fs) zero (suc j) h = refl
  get_elem?-modify_ne (f ∷ fs) (suc i) zero h = refl
  get_elem?-modify_ne (f ∷ fs) (suc i) (suc j) h = get_elem?-modify_ne fs i j (λ e. h (ap suc e))

-- What `pipealloc` gives: nothing, and then it changes nothing, or the two ends of a new pipe.
pub data Allocated (junk : ℕ → ℕ) (s : State) : Type 0 where
  refused :
      (ltb (free_count s.files) 2 || no_page s.pages) ≡ true
      → pipealloc junk s ≡ some (none, s)
      → Allocated junk s
  given :
      (f0 f1 pi : ℕ) (pages : List ℕ) (g0 g1 : File) (files : List File)
      → get_elem? s.files f0 ≡ some g0
      → g0.ref ≡ 0
      → get_elem? s.files f1 ≡ some g1
      → g1.ref ≡ 0
      → f0 ≢ f1
      → s.pages ≡ pi ∷ pages
      → pipealloc junk s
        ≡ some (
          some (f0, f1),
          record s {
            files = files;
            pages = pages;
            pipes = λ a.
                if a == pi
                then record {
                  data_ = junk;
                  nread = 0;
                  nwrite = 0;
                  readopen = true;
                  writeopen = true;
                  woken = [];
                }
                else s.pipes a;
          },
        )
      → get_elem? files f0
        ≡ some
            (record g0 { type_ = fd_pipe; ref = 1; readable = true; writable = false; pipe = pi })
      → get_elem? files f1
        ≡ some
            (record g1 { type_ = fd_pipe; ref = 1; readable = false; writable = true; pipe = pi })
      → ((j : ℕ) → f0 ≢ j → f1 ≢ j → get_elem? files j ≡ get_elem? s.files j)
      → Allocated junk s

module _ (fs : List File) (f0 f1 pi : ℕ) (apart : f0 ≢ f1) where
  abbrev taken : List File
  taken = set_ref (set_ref fs f0 1) f1 1

  abbrev ends : List File
  ends = modify (pipe_end false pi) f1 (modify (pipe_end true pi) f0 taken)

  ends-others : (j : ℕ) → f0 ≢ j → f1 ≢ j → get_elem? ends j ≡ get_elem? fs j
  ends-others j h k =
      get_elem?-modify_ne (pipe_end false pi) (modify (pipe_end true pi) f0 taken) f1 j k
      ∙ get_elem?-modify_ne (pipe_end true pi) taken f0 j h
      ∙ get_elem?-set_ref_ne (set_ref fs f0 1) f1 j k
      ∙ get_elem?-set_ref_ne fs f0 j h

  ends-read :
      {g : File}
      → get_elem? fs f0 ≡ some g
      → get_elem? ends f0 ≡ some (pipe_end true pi (record g { ref = 1 }))
  ends-read {g} e =
      get_elem?-modify_ne (pipe_end false pi) (modify (pipe_end true pi) f0 taken) f1 f0
        (λ q. apart (sym q))
      ∙ get_elem?-modify_self (pipe_end true pi) taken f0 {x = record g { ref = 1 }} (
          get_elem?-set_ref_ne (set_ref fs f0 1) f1 f0 (λ q. apart (sym q))
          ∙ get_elem?-set_ref fs f0 {f = g} e)

  ends-write :
      {g : File}
      → get_elem? fs f1 ≡ some g
      → get_elem? ends f1 ≡ some (pipe_end false pi (record g { ref = 1 }))
  ends-write {g} e =
      get_elem?-modify_self (pipe_end false pi) (modify (pipe_end true pi) f0 taken) f1
        {x = record g { ref = 1 }}
        (get_elem?-modify_ne (pipe_end true pi) taken f0 f1 apart
          ∙ get_elem?-set_ref (set_ref fs f0 1) f1 {f = g}
              (get_elem?-set_ref_ne fs f0 f1 apart ∙ e))

-- On a table in which every file that nobody refers to has type FD_NONE, `pipealloc` never panics.
-- Either there are fewer than two free files or no page, and it returns -1 with the table, the
-- pages, the pipes and the inodes exactly as they were; or it returns two different files that were
-- free, with one reference each, the first to read only and the second to write only the same new
-- pipe, which is empty and open at both ends, on a page that was free and no longer is. Every other
-- file stays as it was.
pub pipealloc-Allocated : (junk : ℕ → ℕ) (s : State) → All IsFree s.files → Allocated junk s
pipealloc-Allocated junk s valid = elim (pipealloc-Ended junk s valid) [
  | gave_up c e ↦ refused c e
  | made f0 f1 pi pages g0 g1 e0 r0 e1 r1 apart p e ↦
      given f0 f1 pi pages g0 g1 (ends s.files f0 f1 pi apart) e0 r0 e1 r1 apart p e
        (ends-read s.files f0 f1 pi apart {g = g0} e0)
        (ends-write s.files f0 f1 pi apart {g = g1} e1) (ends-others s.files f0 f1 pi apart)
]
