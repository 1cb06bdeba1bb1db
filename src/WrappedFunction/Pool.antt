-- ===== src/WrappedFunction/Pool.antt =====
-- include/WrappedFunction.h: which wrapped function has which wrapper, after any calls.
use spytester.Base.{
  ℕ, suc, ◌+◌, ◌<◌, ◌≡◌, ◌≢◌, ◌⊎◌, inl, inr, refl, sym, ap, ◌∙◌, List, [], ◌∷◌, ◌==◌, ==_refl,
  ==→eq, Bool-cases, ltb, length, if◌then◌else◌, arith,
}
use spytester.Base.Counts.{one, count}
use spytester.ElfFile.{Outcome, done, thrown, undefined}
use spytester.WrappedFunction.{
  wrapper_max_nb, Wrapper, Wrappers, constexpr_for, init, get_wrapper, take_wrapper,
  release_wrapper, set_wrapper,
}

abbrev pub remove : ℕ → List ℕ → List ℕ
remove i [] = []
remove i (j ∷ js) = let rest = remove i js in if i == j then js else j ∷ rest

count-remove :
    (k i : ℕ) (js : List ℕ) → count i js ≢ 0 → one k i + count k (remove i js) ≡ count k js
count-remove k i [] h = absurd (h refl)
count-remove k i (j ∷ js) h = ground (arith, count-remove k i js)

length-remove : (i : ℕ) (js : List ℕ) → count i js ≢ 0 → suc (length (remove i js)) ≡ length js
length-remove i [] h = absurd (h refl)
length-remove i (j ∷ js) h = ground (arith, length-remove i js)

-- The calls on the wrappers: a wrapped function is constructed, with the function that it stands
-- for; its wrapper is set; or it is destroyed, and gives its wrapper back.
pub data PoolCall (W : Type 0) : Type 0 where
  get : ℕ → PoolCall W
  set : ℕ → W → PoolCall W
  release : ℕ → PoolCall W

-- The wrappers, and those that have been taken and not been given back, the latest first.
pub record Pool (W : Type 0) : Type 0 where
  pub wrappers : Wrappers W
  pub taken : List ℕ

module _ {W : Type 0} where
  abbrev pub taking : Pool W → Wrappers W × Outcome ℕ → Pool W
  taking s (p, done idx) = record { wrappers = p; taken = idx ∷ s.taken }
  taking s (p, thrown) = record s { wrappers = p }
  taking s (p, undefined) = record s { wrappers = p }

  -- Only a wrapper that is taken is set or given back.
  unfoldable pub pool_call : PoolCall W → Pool W → Pool W
  pool_call (get wrapped) s = taking s (get_wrapper wrapped s.wrappers)
  pool_call (set idx w) s = record s { wrappers = set_wrapper idx w s.wrappers }
  pool_call (release idx) s =
      if count idx s.taken == 0
      then s
      else record { wrappers = release_wrapper idx s.wrappers; taken = remove idx s.taken }

  unfoldable pub pool_calls : List (PoolCall W) → Pool W → Pool W
  pool_calls [] s = s
  pool_calls (c ∷ cs) s = pool_calls cs (pool_call c s)

  kept_static :
      (f : ℕ → Wrapper W) (idx : ℕ) (w : Wrapper W)
      → w.static_wrapper ≡ (f idx).static_wrapper
      → (k : ℕ) → (if k == idx then w else f k).static_wrapper ≡ (f k).static_wrapper
  kept_static f idx w h k = elim (Bool-cases (k == idx)) [
    | inl e ↦ rw e (h ∙ ap (λ i. (f i).static_wrapper) (sym (==→eq k idx e)))
    | inr e ↦ rw e refl
  ]

  module _ (static : ℕ → ℕ) where
    record Inv (s : Pool W) : Type 0 where
      total : length s.wrappers.available + length s.taken ≡ wrapper_max_nb
      once :
          (k : ℕ)
          → count k s.wrappers.available + count k s.taken ≡ (if ltb k wrapper_max_nb then 1 else 0)
      statics : (k : ℕ) → k < wrapper_max_nb → (s.wrappers.wrappers k).static_wrapper ≡ static k

    get-Inv : (wrapped : ℕ) (s : Pool W) → Inv s → Inv (pool_call (get wrapped) s)
    unfolding pool_call get_wrapper
    get-Inv wrapped s = from s.wrappers.available
      where
        from :
            (l : List ℕ)
            → Inv (record s { wrappers = record s.wrappers { available = l } })
            → Inv (taking s (take_wrapper l wrapped (record s.wrappers { available = l })))
        from [] i = i
        from (idx ∷ rest) i = record {
          total = omega (arith, i.total);
          once = λ k. omega (arith, i.once k);
          statics = λ k lt. kept_static s.wrappers.wrappers idx _ refl k ∙ i.statics k lt;
        }

    set-Inv : (idx : ℕ) (w : W) (s : Pool W) → Inv s → Inv (pool_call (set idx w) s)
    unfolding pool_call set_wrapper
    set-Inv idx w s i = record {
      total = i.total;
      once = i.once;
      statics = λ k lt. kept_static s.wrappers.wrappers idx _ refl k ∙ i.statics k lt;
    }

    release-Inv : (idx : ℕ) (s : Pool W) → Inv s → Inv (pool_call (release idx) s)
    unfolding pool_call release_wrapper
    release-Inv idx s i = elim (Bool-cases (count idx s.taken == 0)) [
      | inl e ↦ rw e i
      | inr e ↦
          let held : count idx s.taken ≢ 0 = λ z. ground arith in
          rw e (record {
            total = omega (arith, i.total, length-remove idx s.taken held);
            once = λ k. omega (arith, i.once k, count-remove k idx s.taken held);
            statics = λ k lt. kept_static s.wrappers.wrappers idx _ refl k ∙ i.statics k lt;
          })
    ]

    calls-Inv : (cs : List (PoolCall W)) (s : Pool W) → Inv s → Inv (pool_calls cs s)
    unfolding pool_calls
    calls-Inv [] s i = i
    calls-Inv (get wrapped ∷ cs) s i = calls-Inv cs _ (get-Inv wrapped s i)
    calls-Inv (set idx w ∷ cs) s i = calls-Inv cs _ (set-Inv idx w s i)
    calls-Inv (release idx ∷ cs) s i = calls-Inv cs _ (release-Inv idx s i)

    unfoldable pub fresh_pool : ℕ → Pool W
    unfolding init
    fresh_pool faddr = record { wrappers = init static faddr; taken = [] }

    init-Inv : (faddr : ℕ) → Inv (fresh_pool faddr)
    unfolding fresh_pool init constexpr_for
    init-Inv faddr = record {
      total = omega arith;
      once = λ k. ground arith;
      statics = λ k lt. ground arith;
    }

    -- What a construction gets.
    abbrev pub Got : ℕ → Pool W → Wrappers W × Outcome ℕ → Type 0
    Got wrapped s (p, out) =
        ((out ≡ undefined) × (length s.taken ≡ wrapper_max_nb))
        ⊎ ((idx : ℕ) × (out ≡ done idx)
            × (idx < wrapper_max_nb)
            × (count idx s.taken ≡ 0)
            × ((p.wrappers idx).static_wrapper ≡ static idx)
            × ((p.wrappers idx).wrapped_function ≡ wrapped))

    Inv-Got : (wrapped : ℕ) (s : Pool W) → Inv s → Got wrapped s (get_wrapper wrapped s.wrappers)
    unfolding get_wrapper
    Inv-Got wrapped s = from s.wrappers.available
      where
        from :
            (l : List ℕ)
            → Inv (record s { wrappers = record s.wrappers { available = l } })
            → Got wrapped s (take_wrapper l wrapped (record s.wrappers { available = l }))
        from [] i = inl (refl, omega (arith, i.total))
        from (idx ∷ rest) i =
            let own : one idx idx ≡ 1 = rw (==_refl idx) refl in
            let low : idx < wrapper_max_nb = ground (arith, own, i.once idx) in
            inr (
              idx,
              refl,
              low,
              ground (arith, own, i.once idx),
              kept_static s.wrappers.wrappers idx _ refl idx ∙ i.statics idx low,
              rw (==_refl idx) refl,
            )

    -- After any calls on the wrappers of a function, the next wrapped function gets a wrapper that no
    -- other one holds, with the static wrapper of its index and the function that it stands for,
    -- unless all ten are held: then what `getWrapper` does is undefined.
    pub get_wrapper_lem :
        (faddr : ℕ) (cs : List (PoolCall W)) (wrapped : ℕ)
        → let s = pool_calls cs (fresh_pool faddr) in Got wrapped s (get_wrapper wrapped s.wrappers)
    get_wrapper_lem faddr cs wrapped =
        Inv-Got wrapped (pool_calls cs (fresh_pool faddr))
          (calls-Inv cs (fresh_pool faddr) (init-Inv faddr))
