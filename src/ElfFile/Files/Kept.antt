-- ===== src/ElfFile/Files/Kept.antt =====
-- source/ElfFile.cpp: what a call of `getElfFile` leaves of the table.
use spytester.Base.{
  suc, ◌≡◌, ◌⊎◌, inl, inr, refl, Bool, true, false, ◌&&◌, not, List, [], ◌∷◌, Option, none, some,
  ◌<◌, ◌≤◌, leb, length, Bool-cases, if◌then◌else◌, arith,
}
use spytester.Base.Texts.{Text, same_text→eq, same_text_refl}
use spytester.ElfFile.{
  Elf, Outcome, done, thrown, undefined, Built, built, not_opened, closed_again, out_of_bounds,
}
use spytester.DynamicNamespace.Libraries.{lookup, insert, is_some}
use spytester.DynamicNamespace.Libraries.Added.{lookup-insert}
use spytester.ElfFile.Files.{
  Files, path_max, before_nul, inserted, discarded, emplace, from_link, get_elf_file,
}

length-insert :
    (k : Text) (e : Elf) (l : List (Text × Elf)) → length (insert k e l) ≡ suc (length l)
unfolding insert
length-insert k e [] = refl
length-insert k e ((j, o) ∷ l) = ground (arith, length-insert k e l)

-- Every descriptor is that of an object in the table.
abbrev pub IsOwned : Files → Type 0
IsOwned s = s.descriptors ≡ length s.elf_files

-- The entry of a path: the one that was there, or the file as it was read now.
abbrev pub IsEntry : (Text → Built) → Text → Files → Files → Type 0
IsEntry make p s t =
    (e : Elf) × (lookup p t.elf_files ≡ some e)
    × ((lookup p s.elf_files ≡ some e) ⊎ ((lookup p s.elf_files ≡ none) × (make p ≡ built e)))

-- Only a call that returns changes the table.
abbrev pub Returns : (Text → Built) → Text → Files → Files × Outcome Text → Type 0
Returns make p s (t, done q) = (q ≡ p) × IsEntry make p s t
Returns make p s (t, _) = t ≡ s

abbrev pub Kept : (Text → Built) → Text → Files → Files × Outcome Text → Type 0
Kept make p s (t, out) =
    IsOwned t
    × ((j : Text) (e : Elf) → lookup j s.elf_files ≡ some e → lookup j t.elf_files ≡ some e)
    × Returns make p s (t, out)

inserted-Kept :
    (make : Text → Built) (p : Text) (s : Files)
    → IsOwned s
    → lookup p s.elf_files ≡ none
    → Kept make p s (inserted p (make p) s)
inserted-Kept make p s h f = from (make p) refl
  where
    from : (b : Built) → make p ≡ b → Kept make p s (inserted p b s)
    from (built e) eq = (
      omega (arith, length-insert p e s.elf_files, h),
      (λ j o there. ground (arith, there, f, lookup-insert j p e s.elf_files f, same_text→eq j p)),
      (refl, (e, ground (arith, lookup-insert p p e s.elf_files f, same_text_refl p), inr (f, eq))),
    )
    from not_opened eq = (h, (λ j e there. there), refl)
    from closed_again eq = (h, (λ j e there. there), refl)
    from out_of_bounds eq = (h, (λ j e there. there), refl)

discarded-Kept :
    (make : Text → Built) (p : Text) (s : Files) (e : Elf)
    → IsOwned s
    → lookup p s.elf_files ≡ some e
    → Kept make p s (discarded p (make p) s)
discarded-Kept make p s e h f = from (make p)
  where
    from : (b : Built) → Kept make p s (discarded p b s)
    from (built o) = (h, (λ j e there. there), (refl, (e, f, inl f)))
    from not_opened = (h, (λ j e there. there), refl)
    from closed_again = (h, (λ j e there. there), refl)
    from out_of_bounds = (h, (λ j e there. there), refl)

emplace-Kept :
    (eager : Bool) (make : Text → Built) (p : Text) (s : Files)
    → IsOwned s
    → Kept make p s (emplace eager make p s)
unfolding emplace
emplace-Kept eager make p s h = from eager (lookup p s.elf_files) refl
  where
    from :
        (b : Bool) (o : Option Elf)
        → lookup p s.elf_files ≡ o
        → Kept make p s (
            if is_some o && not b
            then (s, done p)
            else if is_some o
            then discarded p (make p) s
            else inserted p (make p) s)
    from b none f = inserted-Kept make p s h f
    from true (some e) f = discarded-Kept make p s e h f
    from false (some e) f = (h, (λ j e there. there), (refl, (e, f, inl f)))

-- What each case of a call gives: for a path, the entry of the path; for none, that of the program's
-- own path, if it can be read and the buffer has room for its end.
abbrev pub Served : (Text → Built) → Option Text → Text → Files → Files × Outcome Text → Type 0
Served make self (c ∷ cs) s r = Kept make (c ∷ cs) s r
Served make none [] s r = r ≡ (s, thrown)
Served make (some t) [] s r =
    ((length t < path_max) × Kept make (before_nul t) s r)
    ⊎ ((path_max ≤ length t) × (r ≡ (s, undefined)))

-- If every descriptor held is that of an object in the table, this is so after `getElfFile` too,
-- whichever order `emplace` has and whether the call returns or not: every object of the table is kept
-- as it was; a call that returns gives the entry of the path asked for, either the one that was there
-- or the file as it was read now; and a call that does not return changes nothing. For an empty path
-- this holds of the program's own, unless readlink fails, when the call throws, or gives as many bytes
-- as the buffer has, when the NUL is written past the buffer's end.
pub get_elf_file-Served :
    (eager_self eager_path : Bool) (make : Text → Built) (self : Option Text) (path : Text)
    (s : Files)
    → IsOwned s
    → Served make self path s (get_elf_file eager_self eager_path make self path s)
unfolding get_elf_file from_link
get_elf_file-Served eager_self eager_path make self (c ∷ cs) s h =
    emplace-Kept eager_path make (c ∷ cs) s h
get_elf_file-Served eager_self eager_path make none [] s h = refl
get_elf_file-Served eager_self eager_path make (some t) [] s h =
    elim (Bool-cases (leb path_max (length t))) [
      | inl e ↦ rw e (inr (ground (arith, e), refl))
      | inr e ↦ rw e (inl (ground (arith, e), emplace-Kept eager_self make (before_nul t) s h))
    ]
