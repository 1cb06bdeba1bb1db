-- ===== src/DynamicModule/Opening/Outcomes.antt =====
-- source/DynamicModule.cpp: what the constructor leaves, however it ends.
use mathlib.Core.Path.{subst}
use spytester.Base.{ℕ, ◌≡◌, ◌⊎◌, inl, inr, refl, sym, Bool, [], ◌∷◌, Option, none, some}
use spytester.Base.Texts.{Text}
use spytester.ElfFile.{Elf, Outcome, done, thrown, undefined, Built}
use spytester.DynamicNamespace.Libraries.{lookup}
use spytester.ElfFile.Files.{Files, before_nul, get_elf_file}
use spytester.ElfFile.Files.Kept.{IsOwned, Kept, Served, get_elf_file-Served}
use spytester.DynamicModule.Opening.{
  LinkMap, Module, Opened, with_file, with_map, with_handle, construct,
}

-- The path of a link map's file: its name, or the program's own path where the name is empty.
abbrev pub file_of : Option Text → Text → Text
file_of self (c ∷ cs) = c ∷ cs
file_of none [] = []
file_of (some t) [] = before_nul t

-- The files that were known are still there, as they were.
abbrev pub KeepsFiles : Files → Files → Type 0
KeepsFiles s t =
    (j : Text) (e : Elf) → lookup j s.elf_files ≡ some e → lookup j t.elf_files ≡ some e

abbrev Gets : Text → Files → Files × Outcome Text → Type 0
Gets p s (t, done q) =
    (q ≡ p) × ((e : Elf) × (lookup p t.elf_files ≡ some e)) × IsOwned t × KeepsFiles s t
Gets p s (t, thrown) = t ≡ s
Gets p s (t, undefined) = t ≡ s

Kept-Gets :
    (make : Text → Built) (p : Text) (s : Files) (r : Files × Outcome Text)
    → Kept make p s r
    → Gets p s r
Kept-Gets make p s (t, done q) (o, k, (e, (el, l, w))) = (e, (el, l), o, k)
Kept-Gets make p s (t, thrown) (o, k, e) = e
Kept-Gets make p s (t, undefined) (o, k, e) = e

Served-Gets :
    (make : Text → Built) (self : Option Text) (path : Text) (s : Files) (r : Files × Outcome Text)
    → Served make self path s r
    → Gets (file_of self path) s r
Served-Gets make self (c ∷ cs) s r h = Kept-Gets make (c ∷ cs) s r h
Served-Gets make none [] s r h = subst (Gets [] s) (sym h) refl
Served-Gets make (some t) [] s r (inl (lt, h)) = Kept-Gets make (before_nul t) s r h
Served-Gets make (some t) [] s r (inr (le, h)) = subst (Gets (before_nul t) s) (sym h) refl

module _ {H : Type 0} (self : Option Text) (dlmopen : Text → ℕ → Option H)
    (dlinfo : H → Option LinkMap) where
  -- A module of the name, with the handle and the link map that the dynamic linker gives, and with a
  -- file of the table.
  abbrev pub IsModule : Text → ℕ → Opened H → Opened H → Module H → Type 0
  IsModule name id s t m =
      (m.name ≡ name)
      × (dlmopen name id ≡ some m.handle)
      × (dlinfo m.handle ≡ some m.lm)
      × (m.elf ≡ file_of self m.lm.l_name)
      × ((e : Elf) × (lookup m.elf t.files.elf_files ≡ some e))
      × (t.handles ≡ m.handle ∷ s.handles)

  -- A handle that no module has.
  abbrev pub IsLeaked : Text → ℕ → Opened H → Opened H → Type 0
  IsLeaked name id s t =
      (h : H) × (dlmopen name id ≡ some h) × (t.handles ≡ h ∷ s.handles) × (t.files ≡ s.files)

  abbrev pub Constructs : Text → ℕ → Opened H → Opened H × Outcome (Module H) → Type 0
  Constructs name id s (t, done m) =
      IsModule name id s t m × IsOwned t.files × KeepsFiles s.files t.files
  Constructs name id s (t, thrown) = ((dlmopen name id ≡ none) × (t ≡ s)) ⊎ IsLeaked name id s t
  Constructs name id s (t, undefined) = IsLeaked name id s t

  with_file-Constructs :
      (name : Text) (id : ℕ) (h : H) (lm : LinkMap) (s : Opened H) (r : Files × Outcome Text)
      → dlmopen name id ≡ some h
      → dlinfo h ≡ some lm
      → Gets (file_of self lm.l_name) s.files r
      → Constructs name id s (with_file name h lm (h ∷ s.handles) r)
  with_file-Constructs name id h lm s (t, done q) d e (p, (el, l), o, k) =
      ((refl, d, e, p, (el, subst (λ x. lookup x t.elf_files ≡ some el) (sym p) l), refl), o, k)
  with_file-Constructs name id h lm s (t, thrown) d e g = inr (h, d, refl, g)
  with_file-Constructs name id h lm s (t, undefined) d e g = (h, d, refl, g)

  module _ (eager_self eager_path : Bool) (make : Text → Built) where
    -- If every descriptor held is that of a file of the table: where the constructor of DynamicModule
    -- returns, the module has the name, the handle of dlmopen, the link map that dlinfo gives for it,
    -- and the file at the link map's name, or the program's own where that is empty; the files known
    -- before are there as they were, and again every descriptor is that of a file of the table. Where
    -- it throws, dlmopen has failed and nothing has changed, or else the files are as before, and the
    -- handle stays open with no module to close it.
    pub construct-Constructs :
        (name : Text) (id : ℕ) (s : Opened H)
        → IsOwned s.files
        → Constructs name id s (construct eager_self eager_path make self dlmopen dlinfo name id s)
    unfolding construct
    construct-Constructs name id s o = of_handle (dlmopen name id) refl
      where
        get_file : Text → Files → Files × Outcome Text
        get_file = get_elf_file eager_self eager_path make self

        of_map :
            (h : H) (m : Option LinkMap)
            → dlmopen name id ≡ some h
            → dlinfo h ≡ m
            → Constructs name id s (with_map get_file name h m s)
        of_map h none d e = inr (h, d, refl, refl)
        of_map h (some lm) d e =
            with_file-Constructs name id h lm s (get_file lm.l_name s.files) d e (
              Served-Gets make self lm.l_name s.files _
                (get_elf_file-Served eager_self eager_path make self lm.l_name s.files o))

        of_handle :
            (h : Option H)
            → dlmopen name id ≡ h
            → Constructs name id s (with_handle get_file dlinfo name h s)
        of_handle none d = inl (d, refl)
        of_handle (some h) d = of_map h (dlinfo h) d refl
