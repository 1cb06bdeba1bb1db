-- ===== src/DynamicModule/Links/Entries.antt =====
-- include/DynamicModule.h: `_inRelinkages` and `_outRelinkages` when one entry is added or removed.
use spytester.Base.{
  ℕ, ◌≡◌, refl, sym, ap, ◌∙◌, Bool, true, false, List, [], ◌∷◌, Option, none, some, ◌==◌, ==→eq,
  ==_refl, Bool-cases, if◌then◌else◌, inl, inr, arith,
}
use spytester.Base.Texts.{Text, same_text→eq, same_text_refl}
use spytester.Relinkage.{Space, Relinkage}
use spytester.DynamicModule.Links.{
  Out, World, same_link, set_out, set_ins, has, add_in_relinkage, remove_in_relinkage,
}

pub same_link→eq :
    (s : ℕ) (l : Text) (src : ℕ) (lib : Text) → same_link s l src lib ≡ true → (s ≡ src) × (l ≡ lib)
same_link→eq s l src lib h =
    (==→eq s src (ground (arith, h)), same_text→eq l lib (ground (arith, h)))

pub same_link_refl : (s : ℕ) (l : Text) → same_link s l s l ≡ true
same_link_refl s l = rw (==_refl s) (same_text_refl l)

same_link_left :
    (s : ℕ) (l : Text) (i : ℕ) (j : Text) (src : ℕ) (lib : Text)
    → same_link s l i j ≡ true
    → same_link s l src lib ≡ same_link i j src lib
same_link_left s l i j src lib h =
    let (e, f) = same_link→eq s l i j h in
    ap (λ x. same_link x l src lib) e ∙ ap (λ y. same_link i y src lib) f

same_link_right :
    (s : ℕ) (l : Text) (i : ℕ) (j : Text) (src : ℕ) (lib : Text)
    → same_link i j src lib ≡ true
    → same_link s l i j ≡ same_link s l src lib
same_link_right s l i j src lib h =
    let (e, f) = same_link→eq i j src lib h in
    ap (λ x. same_link s l x j) e ∙ ap (λ y. same_link s l src y) f

pub has-remove :
    (s : ℕ) (l : Text) (src : ℕ) (lib : Text) (ls : List (ℕ × Text))
    → has s l (remove_in_relinkage src lib ls)
      ≡ (if same_link s l src lib then false else has s l ls)
has-remove s l src lib [] = elim (Bool-cases (same_link s l src lib)) [
  | inl e ↦ rw e refl
  | inr e ↦ rw e refl
]
has-remove s l src lib ((i, j) ∷ ls) = elim (Bool-cases (same_link i j src lib)) [
  | inl e ↦
      rw (e, same_link_right s l i j src lib e)
        (has-remove s l src lib ls ∙ twice (same_link s l src lib) (has s l ls))
  | inr e ↦ rw e (elim (Bool-cases (same_link s l i j)) [
    | inl f ↦ rw (f, same_link_left s l i j src lib f, e) refl
    | inr f ↦ rw f (has-remove s l src lib ls)
  ])
]
  where
    twice : (b h : Bool) → (if b then false else h) ≡ (if b then false else if b then true else h)
    twice true h = refl
    twice false h = refl

pub has-add :
    (s : ℕ) (l : Text) (src : ℕ) (lib : Text) (ls : List (ℕ × Text))
    → has s l (add_in_relinkage src lib ls) ≡ (if same_link s l src lib then true else has s l ls)
has-add s l src lib ls = elim (Bool-cases (has src lib ls)) [
  | inl e ↦ rw e (elim (Bool-cases (same_link s l src lib)) [
    | inl f ↦ rw f (has_same f ∙ e)
    | inr f ↦ rw f refl
  ])
  | inr e ↦ rw e refl
]
  where
    has_same : same_link s l src lib ≡ true → has s l ls ≡ has src lib ls
    has_same f =
        let (p, q) = same_link→eq s l src lib f in ap (λ x. has x l ls) p ∙ ap (λ y. has src y ls) q

-- Whether an entry is a relinkage to a module.
abbrev pub leads : ℕ → Option Out → Bool
leads d none = false
leads d (some o) = d == o.destination

-- Each module knows exactly the relinkages that lead to it.
abbrev pub IsRegistered : World → Type 0
IsRegistered w = (s : ℕ) (l : Text) (d : ℕ) → has s l (w.ins d) ≡ leads d (w.out s l)

set_out_there :
    (out : ℕ → Text → Option Out) (src : ℕ) (lib : Text) (o : Option Out) (s : ℕ) (l : Text) (d : ℕ)
    → leads d (set_out out src lib o s l)
      ≡ (if same_link s l src lib then leads d o else leads d (out s l))
set_out_there out src lib o s l d = elim (Bool-cases (same_link s l src lib)) [
  | inl e ↦ rw e refl
  | inr e ↦ rw e refl
]

-- An entry that does not lead to a module can be left out of what leads to it.
leads_elsewhere :
    (out : ℕ → Text → Option Out) (src : ℕ) (lib : Text) (s : ℕ) (l : Text) (d : ℕ)
    → leads d (out src lib) ≡ false
    → leads d (out s l) ≡ (if same_link s l src lib then false else leads d (out s l))
leads_elsewhere out src lib s l d h = elim (Bool-cases (same_link s l src lib)) [
  | inl e ↦
      let (p, q) = same_link→eq s l src lib e in
      rw e (ap (λ x. leads d (out x l)) p ∙ ap (λ y. leads d (out src y)) q ∙ h)
  | inr e ↦ rw e refl
]

pub removed-IsRegistered :
    (w : World) (src : ℕ) (lib : Text) (o : Out) (sp : Space)
    → IsRegistered w
    → w.out src lib ≡ some o
    → IsRegistered (record w {
      space = sp;
      out = set_out w.out src lib none;
      ins = set_ins w.ins o.destination (remove_in_relinkage src lib (w.ins o.destination));
    })
removed-IsRegistered w src lib o sp h e s l d = elim (Bool-cases (d == o.destination)) [
  | inl f ↦ rw f (
      has-remove s l src lib (w.ins o.destination)
      ∙ ap (λ b. if same_link s l src lib then false else b)
          (h s l o.destination ∙ ap (λ x. leads x (w.out s l)) (sym (==→eq d o.destination f)))
      ∙ sym (set_out_there w.out src lib none s l d))
  | inr f ↦ rw f (
      h s l d
      ∙ leads_elsewhere w.out src lib s l d (ap (leads d) e ∙ f)
      ∙ sym (set_out_there w.out src lib none s l d))
]

pub added-IsRegistered :
    (w : World) (src : ℕ) (lib : Text) (dst : ℕ) (r : Relinkage) (sp : Space)
    → IsRegistered w
    → w.out src lib ≡ none
    → IsRegistered (record w {
      space = sp;
      out = set_out w.out src lib (some (record { relinkage = r; destination = dst }));
      ins = set_ins w.ins dst (add_in_relinkage src lib (w.ins dst));
    })
added-IsRegistered w src lib dst r sp h e s l d = elim (Bool-cases (d == dst)) [
  | inl f ↦ rw f (
      has-add s l src lib (w.ins dst)
      ∙ ap (λ b. if same_link s l src lib then true else b)
          (h s l dst ∙ ap (λ x. leads x (w.out s l)) (sym (==→eq d dst f)))
      ∙ ap (λ b. if same_link s l src lib then b else leads d (w.out s l)) (sym f)
      ∙ sym (set_out_there w.out src lib _ s l d))
  | inr f ↦ rw f (
      h s l d
      ∙ leads_elsewhere w.out src lib s l d (ap (leads d) e)
      ∙ ap (λ b. if same_link s l src lib then b else leads d (w.out s l)) (sym f)
      ∙ sym (set_out_there w.out src lib _ s l d))
]
