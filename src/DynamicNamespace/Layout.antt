-- ===== src/DynamicNamespace/Layout.antt =====
-- source/DynamicNamespace.cpp: what stands on the stack when `start` jumps to the entry point.
use mathlib.Core.List.{append_assoc}
use mathlib.Core.Path.{subst}
use spytester.Base.{
  ℕ, zero, suc, ◌+◌, ◌-◌, ◌*◌, ◌%◌, ◌≤◌, ◌<◌, ◌≡◌, refl, sym, ap, ◌∙◌, List, [], ◌∷◌, ◌++◌, ◌==◌,
  ==→eq, ==_refl, Bool-cases, inl, inr, length, length-append, if◌then◌else◌, arith,
}
use spytester.DynamicNamespace.{
  Stack, stored, push_word, words_to_push, align, push_env, push_args, start,
}

-- The words from an address on.
abbrev pub Holds : List ℕ → ℕ → (ℕ → ℕ) → Type 0
Holds [] a m = Unit {0}
Holds (v ∷ vs) a m = (m a ≡ v) × Holds vs (a + 8) m

-- The first n arguments.
abbrev pub first_args : ℕ → (ℕ → ℕ) → List ℕ
first_args zero argv = []
first_args (suc n) argv = argv 0 ∷ first_args n (λ i. argv (suc i))

Holds-stored :
    (vs : List ℕ) (a b v : ℕ) (m : ℕ → ℕ) → b < a → Holds vs a m → Holds vs a (stored m b v)
Holds-stored [] a b v m lt h = tt
Holds-stored (u ∷ vs) a b v m lt h =
    (ground (arith, h.0), Holds-stored vs (a + 8) b v m (omega arith) h.1)

-- A stack that grew from another: the words that it has on top, the space that they take, and that
-- nothing above was touched.
abbrev Grown : List ℕ → Stack → Stack → Type 0
Grown vs s t =
    Holds vs t.sp t.words
    × (t.sp + 8 * length vs ≡ s.sp)
    × ((x : ℕ) → s.sp ≤ x → t.words x ≡ s.words x)

Grown-push_word :
    (v : ℕ) (vs : List ℕ) (s t : Stack)
    → 8 * length vs + 8 ≤ s.sp
    → Grown vs s t
    → Grown (v ∷ vs) s (push_word v t)
unfolding push_word
Grown-push_word v vs s t le (h, d, u) =
    ((rw (==_refl (t.sp - 8)), below), omega arith, λ x up. ground (arith, u x up))
  where
    back : t.sp - 8 + 8 ≡ t.sp
    back = omega arith

    below : Holds vs (t.sp - 8 + 8) (stored t.words (t.sp - 8) v)
    below = rw back (Holds-stored vs t.sp (t.sp - 8) v t.words (omega arith) h)

Grown-push_env :
    (es vs : List ℕ) (s t : Stack)
    → 8 * length (es ++ vs) ≤ s.sp
    → Grown vs s t
    → Grown (es ++ vs) s (push_env es t)
unfolding push_env
Grown-push_env [] vs s t le g = g
Grown-push_env (e ∷ es) vs s t le g =
    Grown-push_word e (es ++ vs) s (push_env es t) (omega arith)
      (Grown-push_env es vs s t (omega arith) g)

first_args-suc :
    (n : ℕ) (argv : ℕ → ℕ) (vs : List ℕ)
    → first_args n argv ++ argv n ∷ vs ≡ first_args (suc n) argv ++ vs
first_args-suc zero argv vs = refl
first_args-suc (suc n) argv vs = ap (λ l. argv 0 ∷ l) (first_args-suc n (λ i. argv (suc i)) vs)

length-first_args : (n : ℕ) (argv : ℕ → ℕ) → length (first_args n argv) ≡ n
length-first_args zero argv = refl
length-first_args (suc n) argv = ap suc (length-first_args n (λ i. argv (suc i)))

Grown-push_args :
    (n : ℕ) (argv : ℕ → ℕ) (vs : List ℕ) (s t : Stack)
    → 8 * (n + length vs) ≤ s.sp
    → Grown vs s t
    → Grown (first_args n argv ++ vs) s (push_args n argv t)
unfolding push_args
Grown-push_args zero argv vs s t le g = g
Grown-push_args (suc n) argv vs s t le g =
    subst (λ l. Grown l s (push_args n argv (push_word (argv n) t))) (first_args-suc n argv vs)
      (Grown-push_args n argv (argv n ∷ vs) s (push_word (argv n) t) (omega arith)
        (Grown-push_word (argv n) vs s t (omega arith) g))

-- The word that is pushed for the alignment, if there is one.
abbrev padding : ℕ → Stack → List ℕ
padding count s = if (s.sp + 8 * count) % 16 == 0 then [] else 0 ∷ []

Grown-align : (count : ℕ) (s : Stack) → 8 ≤ s.sp → Grown (padding count s) s (align count s)
unfolding align
Grown-align count s le = elim (Bool-cases ((s.sp + 8 * count) % 16 == 0)) [
  | inl e ↦ rw e (tt, omega arith, λ x up. refl)
  | inr e ↦ rw e (Grown-push_word 0 [] s s (omega arith) (tt, omega arith, λ x up. refl))
]

-- The words above the arguments: a null pointer, the environment and a null pointer, and an empty
-- auxiliary vector, over what is there.
abbrev above : List ℕ → List ℕ → List ℕ
above envp pad = 0 ∷ ((envp ++ (0 ∷ [])) ++ (0 ∷ pad))

-- What the program finds, from argc on.
abbrev pub layout : ℕ → (ℕ → ℕ) → List ℕ → List ℕ
layout argc argv envp = argc ∷ (first_args argc argv ++ above envp [])

Holds-append : (vs ws : List ℕ) (a : ℕ) (m : ℕ → ℕ) → Holds (vs ++ ws) a m → Holds vs a m
Holds-append [] ws a m h = tt
Holds-append (v ∷ vs) ws a m h = (h.0, Holds-append vs ws (a + 8) m h.1)

layout-append :
    (argc : ℕ) (argv : ℕ → ℕ) (envp pad : List ℕ)
    → argc ∷ (first_args argc argv ++ above envp pad) ≡ layout argc argv envp ++ pad
layout-append argc argv envp pad = sym (
    ap (λ l. argc ∷ l)
      (append_assoc (first_args argc argv) (above envp []) pad
        ∙ ap (λ l. first_args argc argv ++ (0 ∷ l)) (append_assoc (envp ++ (0 ∷ [])) (0 ∷ []) pad)))

length-words :
    (argc : ℕ) (argv : ℕ → ℕ) (envp pad : List ℕ)
    → length (argc ∷ (first_args argc argv ++ above envp pad))
      ≡ words_to_push argc envp + length pad
unfolding words_to_push
length-words argc argv envp pad = omega (
  arith,
  length-append (first_args argc argv) (above envp pad),
  length-first_args argc argv,
  length-append (envp ++ (0 ∷ [])) (0 ∷ pad),
  length-append envp (0 ∷ []),
)

length-padding :
    (count : ℕ) (s : Stack)
    → (length (padding count s) ≤ 1)
      × (s.sp % 8 ≡ 0 → (s.sp + 8 * (count + length (padding count s))) % 16 ≡ 0)
length-padding count s = elim (Bool-cases ((s.sp + 8 * count) % 16 == 0)) [
  | inl e ↦ rw e (omega arith, λ h. omega (arith, ==→eq _ _ e))
  | inr e ↦ rw e (omega arith, λ h. ground arith)
]

Grown-start :
    (argc : ℕ) (argv : ℕ → ℕ) (envp : List ℕ) (s : Stack)
    → 8 * (words_to_push argc envp + 1) ≤ s.sp
    → Grown
        (layout argc argv envp ++ padding (words_to_push argc envp) s)
        s
        (start argc argv envp s)
unfolding start words_to_push
Grown-start argc argv envp s le =
    subst (λ l. Grown l s (start argc argv envp s)) (layout-append argc argv envp pad)
      (Grown-push_word argc (first_args argc argv ++ words) s _
        (omega (arith, room.0, room.1, size))
        (Grown-push_args argc argv words s _ (omega (arith, room.0, room.1, size)) (
          Grown-push_word 0 ((envp ++ (0 ∷ [])) ++ (0 ∷ pad)) s _
            (omega (arith, room.0, room.1, size))
            (Grown-push_env (envp ++ (0 ∷ [])) (0 ∷ pad) s _ (omega (arith, room.0, room.1, size)) (
              Grown-push_word 0 pad s _ (omega (arith, room.0, room.1, size))
                (Grown-align (words_to_push argc envp) s (omega arith)))))))
  where
    pad : List ℕ
    pad = padding (words_to_push argc envp) s

    words : List ℕ
    words = above envp pad

    size : length words ≡ 3 + length envp + length pad
    size = omega (arith, length-append (envp ++ (0 ∷ [])) (0 ∷ pad), length-append envp (0 ∷ []))

    room :
        (8 * length (argc ∷ (first_args argc argv ++ words)) ≤ s.sp)
        × (8 * (argc + length words) ≤ s.sp)
    room = (
      omega
          (arith, length-words argc argv envp pad, (length-padding (words_to_push argc envp) s).0),
      omega (arith, size, (length-padding (words_to_push argc envp) s).0),
    )

-- With room for the words on a stack whose pointer is a multiple of 8, the pointer at the jump to
-- the entry point is a multiple of 16; from it on stand argc, the arguments and a null pointer, the
-- environment and a null pointer, and an empty auxiliary vector; and no word at or above the former
-- pointer has changed.
pub start_lem :
    (argc : ℕ) (argv : ℕ → ℕ) (envp : List ℕ) (s : Stack)
    → s.sp % 8 ≡ 0
    → 8 * (words_to_push argc envp + 1) ≤ s.sp
    → let t = start argc argv envp s in
      (t.sp % 16 ≡ 0)
      × Holds (layout argc argv envp) t.sp t.words
      × ((x : ℕ) → s.sp ≤ x → t.words x ≡ s.words x)
start_lem argc argv envp s whole le =
    let g = Grown-start argc argv envp s le in
    let pad = padding (words_to_push argc envp) s in
    (
      omega (
        arith,
        g.1,
        ap length (layout-append argc argv envp pad),
        length-words argc argv envp pad,
        (length-padding (words_to_push argc envp) s).1 whole,
      ),
      Holds-append (layout argc argv envp) pad _ _ g.0,
      g.2,
    )
