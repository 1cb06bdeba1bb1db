-- ===== src/DynamicModule/Links/Undo.antt =====
-- source/DynamicModule.cpp: `relink`, and `unrelink` after it.
use spytester.Base.{
  ℕ, ◌<◌, ◌≡◌, refl, sym, ap, ◌∙◌, true, false, List, Option, none, some, ◌==◌, ==→eq, ==_refl,
  Bool-cases, inl, inr,
}
use spytester.Base.Texts.{Text}
use spytester.ElfFile.{DynEntry}
use spytester.Relinkage.{Space, Mprotect, IsMprotect, Rela, read_write, collect}
use spytester.Relinkage.Installing.{Installed}
use spytester.Relinkage.Redirect.{IsSpread, relink-invalidate}
use spytester.DynamicModule.Links.{
  Out, World, same_link, set_out, set_ins, has, add_in_relinkage, remove_in_relinkage, is_needed,
  erase_found, unrelink, emplace_out, relink_needed, relink_module,
}
use spytester.DynamicModule.Links.Entries.{
  leads, IsRegistered, same_link_refl, same_link→eq, has-remove, has-add,
}

-- The same relinkages are kept, and registered, as before.
abbrev pub SameLinks : World → World → Type 0
SameLinks w w' =
    ((s : ℕ) (l : Text) → w'.out s l ≡ w.out s l)
    × ((s : ℕ) (l : Text) (d : ℕ) → has s l (w'.ins d) ≡ has s l (w.ins d))

set_out_undone :
    (out : ℕ → Text → Option Out) (src : ℕ) (lib : Text) (o : Option Out) (s : ℕ) (l : Text)
    → out src lib ≡ none
    → set_out (set_out out src lib o) src lib none s l ≡ out s l
set_out_undone out src lib o s l h = elim (Bool-cases (same_link s l src lib)) [
  | inl e ↦
      let (p, q) = same_link→eq s l src lib e in
      rw e (sym (ap (λ x. out x l) p ∙ ap (λ y. out src y) q ∙ h))
  | inr e ↦ rw e refl
]

has_undone :
    (s : ℕ) (l : Text) (src : ℕ) (lib : Text) (ls : List (ℕ × Text))
    → has src lib ls ≡ false
    → has s l (remove_in_relinkage src lib (add_in_relinkage src lib ls)) ≡ has s l ls
has_undone s l src lib ls h = elim (Bool-cases (same_link s l src lib)) [
  | inl e ↦
      let (p, q) = same_link→eq s l src lib e in
      has-remove s l src lib (add_in_relinkage src lib ls)
      ∙ rw e (sym (ap (λ x. has x l ls) p ∙ ap (λ y. has src y ls) q ∙ h))
  | inr e ↦
      has-remove s l src lib (add_in_relinkage src lib ls)
      ∙ rw e (has-add s l src lib ls ∙ rw e refl)
]

set_ins_undone :
    (ins : ℕ → List (ℕ × Text)) (src dst : ℕ) (lib : Text) (s : ℕ) (l : Text) (d : ℕ)
    → has src lib (ins dst) ≡ false
    → let ins1 = set_ins ins dst (add_in_relinkage src lib (ins dst)) in
      has s l (set_ins ins1 dst (remove_in_relinkage src lib (ins1 dst)) d) ≡ has s l (ins d)
set_ins_undone ins src dst lib s l d h = elim (Bool-cases (d == dst)) [
  | inl e ↦
      rw (e, ==_refl dst)
        (has_undone s l src lib (ins dst) h ∙ ap (λ x. has s l (ins x)) (sym (==→eq d dst e)))
  | inr e ↦ rw e refl
]

module _ (page : ℕ) (mprotect : Mprotect) (pos : 0 < page) (law : IsMprotect page mprotect)
    (grants : (s : Space) (a n : ℕ) → (s' : Space) × (mprotect s a n read_write ≡ some s'))
    (name : ℕ → Text) (relas : ℕ → List Rela) (dynamic_symbol : ℕ → Text → ℕ) where
  relink_needed-unrelink :
      (src dst : ℕ) (w : World)
      → w.alive dst ≡ true
      → IsRegistered w
      → w.out src (name dst) ≡ none
      → IsSpread page (collect (dynamic_symbol dst) (relas src))
      → (w1 : World) × (relink_needed page mprotect name relas dynamic_symbol src dst w ≡ some w1)
        × Installed (collect (dynamic_symbol dst) (relas src)) w1.space.words
        × (w2 : World) × (unrelink page mprotect src (name dst) w1 ≡ some w2)
        × (w2.space.words ≡ w.space.words)
        × SameLinks w w2
  unfolding relink_needed unrelink erase_found emplace_out
  relink_needed-unrelink src dst w a h e sp =
      let (r1, s1, p1, inst, _, r2, s2, p2, back, _) =
        relink-invalidate page mprotect pos law grants (dynamic_symbol dst) (relas src) w.space
          sp in
      let w1 = record w {
        space = s1;
        out = set_out w.out src (name dst) (some (record { relinkage = r1; destination = dst }));
        ins = set_ins w.ins dst (add_in_relinkage src (name dst) (w.ins dst));
      } in
      (
        w1,
        rw (e, p1) refl,
        inst,
        record w1 {
          space = s2;
          out = set_out w1.out src (name dst) none;
          ins = set_ins w1.ins dst (remove_in_relinkage src (name dst) (w1.ins dst));
        },
        rw (same_link_refl src (name dst), p2, a) refl,
        back,
        (
          (λ s l. set_out_undone w.out src (name dst) _ s l e),
          (λ s l d.
              set_ins_undone w.ins src dst (name dst) s l d
                (h src (name dst) dst ∙ ap (leads dst) e)),
        ),
      )

  -- For a module that needs a destination, as its dynamic entries say, and that has no relinkage to
  -- it: if each module knows exactly the relinkages that lead to it, and the relocations that
  -- the destination defines, at least two, are in growing order and the last is not the first word of
  -- its page, and `mprotect` grants every request to write: `relink` ends, with the destination's
  -- addresses at these relocations; and `unrelink` after it ends with every word of the memory, every
  -- relinkage and every registration as before.
  pub relink-unrelink :
      (dynstr : ℕ → List ℕ) (dynamic : ℕ → List DynEntry) (src dst : ℕ) (w : World)
      → is_needed (dynstr src) (name dst) (dynamic src) ≡ some true
      → w.alive dst ≡ true
      → IsRegistered w
      → w.out src (name dst) ≡ none
      → IsSpread page (collect (dynamic_symbol dst) (relas src))
      → (w1 : World) × (relink_module page mprotect name relas dynamic_symbol dynstr dynamic src dst
            w
          ≡ some w1)
        × Installed (collect (dynamic_symbol dst) (relas src)) w1.space.words
        × (w2 : World) × (unrelink page mprotect src (name dst) w1 ≡ some w2)
        × (w2.space.words ≡ w.space.words)
        × SameLinks w w2
  unfolding relink_module
  relink-unrelink dynstr dynamic src dst w n a h e sp =
      let (w1, p, inst, w2, q, back, same) = relink_needed-unrelink src dst w a h e sp in
      (w1, rw n p, inst, w2, q, back, same)
