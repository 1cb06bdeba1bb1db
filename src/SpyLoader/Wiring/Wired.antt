-- ===== src/SpyLoader/Wiring/Wired.antt =====
-- source/SpyLoader.cpp: the loader after its constructor and `updateWrappedFunctions` on the
-- namespaces that `createSpiedNamespaces` makes.
use mathlib.Core.Path.{subst}
use mathlib.Core.List.{append-nil, append_assoc}
use spytester.Base.Chains.{◌>>=◌}
use spytester.Base.{
  ℕ, ◌≡◌, ◌≢◌, inl, refl, sym, ap, ◌∙◌, List, [], ◌∷◌, ◌++◌, Option, some, map, get_elem?, arith,
}
use spytester.SpyLoader.Wiring.Rings.{
  IsRing, IsEmptied, set_word_there, index_of_there, repaired-IsRing, repaired-IsEmptied,
  repaired-own,
}
use spytester.SpyLoader.Wiring.{
  Lib, libpthread, libc, Symbol, init_static_tls, key_delete, key_create, stack_user, ctype_init,
  Loader, found, set_word, index_of, repaired, update_wrapped_functions, make, update_each,
}

found_lem : (a b : ℕ) → a ≡ b → b ≢ 0 → found a ≡ some b
found_lem a b e h = ground (arith, e, h)

module _ {N D : Type 0} (load : N → Lib → Option D) (get_symbol : D → Symbol → ℕ) (own : ℕ) where
  -- The namespace's libraries have the symbols that the loader wants, at these addresses.
  pub record Provides (addr : N → Symbol → ℕ) (ns : N) : Type 0 where
    pub pthread : D
    pub c : D
    pub has_pthread : load ns libpthread ≡ some pthread
    pub has_c : load ns libc ≡ some c
    pub has_tls : get_symbol pthread init_static_tls ≡ addr ns init_static_tls
    pub has_delete : get_symbol pthread key_delete ≡ addr ns key_delete
    pub has_create : get_symbol pthread key_create ≡ addr ns key_create
    pub has_stack : get_symbol pthread stack_user ≡ addr ns stack_user
    pub has_ctype : get_symbol c ctype_init ≡ addr ns ctype_init
    pub not_null : (x : Symbol) → addr ns x ≢ 0

  module _ (addr : N → Symbol → ℕ) where
    -- What one call adds to the loader.
    wired : N → Loader → Loader
    wired ns s = record s {
      init_static_tls_functions = s.init_static_tls_functions ++ addr ns init_static_tls ∷ [];
      rtld_global = set_word s.dl_init_static_tls own s.rtld_global;
      key_delete_functions = s.key_delete_functions ++ addr ns key_delete ∷ [];
      key_create_functions = s.key_create_functions ++ addr ns key_create ∷ [];
      next = repaired (addr ns stack_user) s.base_stack_user_list s.default_thread_stack s.next;
      prev = repaired (addr ns stack_user) s.base_stack_user_list s.default_thread_stack s.prev;
      ctype_init_functions = s.ctype_init_functions ++ addr ns ctype_init ∷ [];
    }

    update_wrapped_functions-wired :
        (ns : N) (s : Loader)
        → Provides addr ns
        → update_wrapped_functions load get_symbol own ns s ≡ some (wired ns s)
    unfolding update_wrapped_functions wired
    update_wrapped_functions-wired ns s p =
        rw
          (
            p.has_pthread,
            p.has_c,
            found_lem _ _ p.has_tls (p.not_null init_static_tls),
            found_lem _ _ p.has_delete (p.not_null key_delete),
            found_lem _ _ p.has_create (p.not_null key_create),
            found_lem _ _ p.has_stack (p.not_null stack_user),
            found_lem _ _ p.has_ctype (p.not_null ctype_init),
          )
          refl

    abbrev pub at : Symbol → List N → List ℕ
    at x nss = map (λ ns. addr ns x) nss

    at-append :
        (x : Symbol) (done : List N) (ns : N) → at x (done ++ ns ∷ []) ≡ at x done ++ addr ns x ∷ []
    at-append x [] ns = refl
    at-append x (n ∷ done) ns = ap (λ l. addr n x ∷ l) (at-append x done ns)

    -- The lists of the namespaces' libpthreads are empty, but for that of the base namespace.
    abbrev pub AllEmptied : (ℕ → ℕ) → ℕ → ℕ → List N → Type 0
    AllEmptied link a b [] = Unit {0}
    AllEmptied link a b (ns ∷ nss) =
        IsEmptied link a b (addr ns stack_user) × AllEmptied link a b nss

    AllEmptied-step :
        (link : ℕ → ℕ) (a b : ℕ) (done : List N) (ns : N)
        → AllEmptied link a b done
        → AllEmptied (repaired (addr ns stack_user) a b link) a b (done ++ ns ∷ [])
    AllEmptied-step link a b [] ns h = (repaired-own (addr ns stack_user) a b link, tt)
    AllEmptied-step link a b (n ∷ done) ns (e, h) = (
      repaired-IsEmptied (addr ns stack_user) a b (addr n stack_user) link e,
      AllEmptied-step link a b done ns h,
    )

    -- The functions of each vector are those of the namespaces, in their order; the base namespace's
    -- list of threads and the default thread are a ring, in both directions, and the lists of the
    -- other libpthreads are empty; and the hook of `_rtld_global` is the loader's.
    abbrev pub IsWired : List N → Loader → Type 0
    IsWired done s =
        (s.key_delete_functions ≡ at key_delete done)
        × (s.key_create_functions ≡ at key_create done)
        × (s.ctype_init_functions ≡ at ctype_init done)
        × (s.init_static_tls_functions ≡ at init_static_tls done)
        × IsRing s.next s.base_stack_user_list s.default_thread_stack
        × IsRing s.prev s.base_stack_user_list s.default_thread_stack
        × AllEmptied s.next s.base_stack_user_list s.default_thread_stack done
        × AllEmptied s.prev s.base_stack_user_list s.default_thread_stack done
        × (get_elem? s.rtld_global s.dl_init_static_tls ≡ some own)

    added :
        (x : Symbol) (fs : List ℕ) (done : List N) (ns : N)
        → fs ≡ at x done
        → fs ++ addr ns x ∷ [] ≡ at x (done ++ ns ∷ [])
    added x fs done ns e = ap (λ l. l ++ addr ns x ∷ []) e ∙ sym (at-append x done ns)

    wired-IsWired :
        (done : List N) (ns : N) (s : Loader)
        → IsWired done s
        → IsWired (done ++ ns ∷ []) (wired ns s)
    unfolding wired
    wired-IsWired done ns s (del, cre, cty, tls, rn, rp, en, ep, own_at) = (
      added key_delete _ done ns del,
      added key_create _ done ns cre,
      added ctype_init _ done ns cty,
      added init_static_tls _ done ns tls,
      repaired-IsRing (addr ns stack_user) _ _ s.next,
      repaired-IsRing (addr ns stack_user) _ _ s.prev,
      AllEmptied-step s.next _ _ done ns en,
      AllEmptied-step s.prev _ _ done ns ep,
      set_word_there s.dl_init_static_tls own own s.rtld_global own_at,
    )

    abbrev pub AllProvide : List N → Type 0
    AllProvide [] = Unit {0}
    AllProvide (ns ∷ nss) = Provides addr ns × AllProvide nss

    update_each-IsWired :
        (nss done : List N) (s : Loader)
        → AllProvide nss
        → IsWired done s
        → (t : Loader) × (update_each load get_symbol own nss s ≡ some t) × IsWired (done ++ nss) t
    unfolding update_each
    update_each-IsWired [] done s p w =
        (s, refl, subst (λ l. IsWired l s) (sym (append-nil done)) w)
    update_each-IsWired (ns ∷ nss) done s (p, ps) w =
        let (t, e, v) =
          update_each-IsWired nss (done ++ ns ∷ []) (wired ns s) ps (wired-IsWired done ns s w) in
        (
          t,
          ap (λ o. o >>= λ s'. update_each load get_symbol own nss s')
                (update_wrapped_functions-wired ns s p)
              ∙ e,
          subst (λ l. IsWired l t) (append_assoc done (ns ∷ []) nss) v,
        )

    -- The loader that the constructor hands to the first call.
    unwired : N → (ℕ → ℕ) → (ℕ → ℕ) → List ℕ → ℕ → Loader
    unwired base next prev rtld place = record {
      key_delete_functions = [];
      key_create_functions = [];
      ctype_init_functions = [];
      init_static_tls_functions = [];
      next = next;
      prev = prev;
      rtld_global = rtld;
      dl_init_static_tls = place;
      base_stack_user_list = addr base stack_user;
      default_thread_stack = next (addr base stack_user);
    }

    unwired-IsWired :
        (base : N) (next prev : ℕ → ℕ) (rtld : List ℕ) (place : ℕ)
        → get_elem? rtld place ≡ some (addr base init_static_tls)
        → IsWired (base ∷ []) (wired base (unwired base next prev rtld place))
    unfolding wired unwired
    unwired-IsWired base next prev rtld place h =
        let stack = addr base stack_user in
        (
          refl,
          refl,
          refl,
          refl,
          repaired-IsRing stack stack (next stack) next,
          repaired-IsRing stack stack (next stack) prev,
          (inl refl, tt),
          (inl refl, tt),
          set_word_there place own (addr base init_static_tls) rtld h,
        )

    make-wired :
        (base : N) (next prev : ℕ → ℕ) (rtld : List ℕ) (place : ℕ)
        → Provides addr base
        → index_of (addr base init_static_tls) rtld ≡ some place
        → make load get_symbol own base next prev rtld
          ≡ some (wired base (unwired base next prev rtld place))
    unfolding make unwired
    make-wired base next prev rtld place p h =
        rw
          (
            p.has_pthread,
            found_lem _ _ p.has_tls (p.not_null init_static_tls),
            h,
            found_lem _ _ p.has_stack (p.not_null stack_user),
          )
          (update_wrapped_functions-wired base (unwired base next prev rtld place) p)

    -- If every namespace's libpthread and libc can be loaded and have the symbols, and the base
    -- namespace's `__pthread_init_static_tls` stands in `_rtld_global`: the constructor and the calls
    -- for the spied namespaces end without an abort. Then each vector holds the functions of the
    -- namespaces in their order, the base namespace's first; the base namespace's list of threads
    -- holds the default thread and nothing else, in both directions; the lists of the other
    -- libpthreads are empty; and the hook of `_rtld_global` is the loader's.
    pub make-IsWired :
        (base : N) (nss : List N) (next prev : ℕ → ℕ) (rtld : List ℕ) (place : ℕ)
        → Provides addr base
        → AllProvide nss
        → index_of (addr base init_static_tls) rtld ≡ some place
        → (s : Loader) × ((make load get_symbol own base next prev rtld
              >>= update_each load get_symbol own nss)
            ≡ some s)
          × IsWired (base ∷ nss) s
    make-IsWired base nss next prev rtld place p ps h =
        let (s, e, w) =
          update_each-IsWired nss (base ∷ []) (wired base (unwired base next prev rtld place)) ps
            (unwired-IsWired base next prev rtld place (index_of_there _ place rtld h)) in
        (
          s,
          ap (λ o. o >>= update_each load get_symbol own nss)
                (make-wired base next prev rtld place p h)
              ∙ e,
          w,
        )
