-- ===== src/SpyLoader/Initial/Rounds.antt =====
-- source/SpyLoader.cpp: the rounds that make the spied namespaces and take their functions.
use mathlib.Core.List.{append-nil, append_assoc}
use spytester.Base.Chains.{◌>>=◌}
use spytester.Base.{
  ℕ, ◌≡◌, ◌≢◌, refl, sym, ap, ◌∙◌, List, [], ◌∷◌, ◌++◌, Option, none, some, ◌==◌, Bool-cases, inl,
  inr, if◌then◌else◌, arith,
}
use spytester.SpyLoader.{
  NamespaceIds, base_id, insert, emplace, no_ids, reserve_namespace_id, release_namespace_id,
  close_namespaces, create_spied_namespaces, all_closed,
}
use spytester.SpyLoader.Creation.{opened, fill, open_namespaces_lem}
use spytester.SpyLoader.Wiring.{Loader, update_wrapped_functions, update_each}
use spytester.DynamicNamespace.Object.{Namespace, checked, new, destroy}
use spytester.DynamicNamespace.Object.Lifetime.{started, started-id}
use spytester.SpyLoader.Initial.{
  Setup, Linker, no_args, emplace_back, wire, round, rounds, destroy_all, create_and_wire,
}

abbrev pub no_loader_ids : {N : Type 0} → NamespaceIds N
no_loader_ids = record { avl = []; used = [] }

module _ {N D E : Type 0} (n : N) (l : Linker D E) where
  -- A namespace can be made on the id: it has a link map, libSpyLoader.so and `createMainThread`.
  pub record IsOpen (id : ℕ) : Type 0 where
    pub ns : Namespace D
    pub starts : started l.link_map l.open_loader l.main_of 0 no_args [] id ≡ some ns
    pub has_main : ns.create_main_thread ≢ 0

  abbrev pub AllOpen : List ℕ → Type 0
  AllOpen [] = Unit {0}
  AllOpen (id ∷ ids) = IsOpen id × AllOpen ids

  namespaces_of : (ids : List ℕ) → AllOpen ids → List (Namespace D)
  namespaces_of [] a = []
  namespaces_of (id ∷ ids) (a, rest) = a.ns ∷ namespaces_of ids rest

  emplace_back_lem :
      (id : ℕ) (u : List (ℕ × N)) (a : IsOpen id)
      → emplace_back n l (record { avl = id ∷ []; used = u })
        ≡ (record { avl = []; used = emplace id n u }, some a.ns)
  unfolding new checked reserve_namespace_id
  emplace_back_lem id u a =
      ap (checked (record { avl = []; used = emplace id n u })) a.starts ∙ there
    where
      there :
          checked (record { avl = []; used = emplace id n u }) (some a.ns)
          ≡ (record { avl = []; used = emplace id n u }, some a.ns)
      there = elim (Bool-cases (a.ns.create_main_thread == 0)) [
        | inl z ↦ absurd (a.has_main (ground (arith, z)))
        | inr z ↦ rw z refl
      ]

  own_id : (id : ℕ) (a : IsOpen id) → a.ns.id ≡ id
  own_id id a = started-id l.link_map l.open_loader l.main_of 0 no_args [] id a.ns a.starts

  abbrev after_round :
      ℕ → List (ℕ × N) → List (Namespace D) → Loader → Namespace D → Option (Setup N D)
  after_round id u nss t ns = update_wrapped_functions l.open_lib l.symbol_at l.own id t >>= λ t'.
      some (record {
        ids = record { avl = []; used = emplace id n u };
        namespaces = nss ++ ns ∷ [];
        loader = t';
      })

  abbrev at_round : List (ℕ × N) → List (Namespace D) → Loader → Setup N D
  at_round u nss t = record { ids = record { avl = []; used = u }; namespaces = nss; loader = t }

  round_lem :
      (id : ℕ) (u : List (ℕ × N)) (nss : List (Namespace D)) (t : Loader) (a : IsOpen id)
      → round n l (some id) (at_round u nss t) ≡ after_round id u nss t a.ns
  unfolding round wire insert
  round_lem id u nss t a =
      ap (λ p. wire n l p (at_round u nss t)) (emplace_back_lem id u a)
      ∙ ap
          (λ i. update_wrapped_functions l.open_lib l.symbol_at l.own i t >>= λ t'. some (record {
            ids = record { avl = []; used = emplace id n u };
            namespaces = nss ++ a.ns ∷ [];
            loader = t';
          }))
          (own_id id a)

  -- The rounds make the namespaces on the ids, and what is left of them is a call for each.
  rounds_lem :
      (os : List (Option ℕ)) (u : List (ℕ × N)) (nss : List (Namespace D)) (t : Loader)
      (a : AllOpen (opened os))
      → rounds n l os (at_round u nss t) ≡ (
          update_each l.open_lib l.symbol_at l.own (opened os) t >>= λ t'.
          some (at_round (fill n (opened os) u) (nss ++ namespaces_of (opened os) a) t'))
  unfolding rounds update_each namespaces_of
  rounds_lem [] u nss t a = ap (λ m. some (at_round u m t)) (sym (append-nil nss))
  rounds_lem (none ∷ os) u nss t a = rounds_lem os u nss t a
  rounds_lem (some id ∷ os) u nss t (a, rest) =
      ap (λ o. o >>= λ s'. rounds n l os s') (round_lem id u nss t a)
      ∙ from (update_wrapped_functions l.open_lib l.symbol_at l.own id t)
          (λ t'. rounds_lem os (emplace id n u) (nss ++ a.ns ∷ []) t' rest)
    where
      from :
          (o : Option Loader)
          → ((t' : Loader)
              → rounds n l os (at_round (emplace id n u) (nss ++ a.ns ∷ []) t') ≡ (
                  update_each l.open_lib l.symbol_at l.own (opened os) t' >>= λ v. some (
                    at_round
                      (fill n (opened os) (emplace id n u))
                      ((nss ++ a.ns ∷ []) ++ namespaces_of (opened os) rest)
                      v)))
          → ((o >>= λ t'. some (at_round (emplace id n u) (nss ++ a.ns ∷ []) t')) >>= λ s'.
              rounds n l os s')
            ≡ ((o >>= λ t'. update_each l.open_lib l.symbol_at l.own (opened os) t') >>= λ t'.
                some (
                  at_round
                    (fill n (opened os) (emplace id n u))
                    (nss ++ a.ns ∷ namespaces_of (opened os) rest)
                    t'))
      from none later = refl
      from (some t') later =
          later t'
          ∙ ap
              (λ m. update_each l.open_lib l.symbol_at l.own (opened os) t' >>= λ v.
                some (at_round (fill n (opened os) (emplace id n u)) m v))
              (append_assoc nss (a.ns ∷ []) (namespaces_of (opened os) rest))

  destroy_all_lem :
      (ids : List ℕ) (a : AllOpen ids) (s : NamespaceIds N)
      → destroy_all n l (namespaces_of ids a) s ≡ close_namespaces ids s
  unfolding destroy_all destroy close_namespaces namespaces_of
  destroy_all_lem [] a s = refl
  destroy_all_lem (id ∷ ids) (a, rest) s =
      ap
        (λ i.
          destroy_all n l (namespaces_of ids rest)
            (if i == base_id then s else release_namespace_id i s))
        (own_id id a)
      ∙ destroy_all_lem ids rest _

  pub create_and_wire_lem :
      (os : List (Option ℕ)) (t v : Loader)
      → AllOpen (opened os)
      → update_each l.open_lib l.symbol_at l.own (opened os) t ≡ some v
      → create_and_wire n l os no_loader_ids t
        ≡ some (create_spied_namespaces n os no_loader_ids, v)
  unfolding create_and_wire no_ids create_spied_namespaces all_closed
  create_and_wire_lem os t v a h =
      rw (rounds_lem os [] [] t a, h)
        (ap (λ x. some (x, v))
          (destroy_all_lem (opened os) a (record { avl = []; used = fill n (opened os) [] })
            ∙ sym (ap all_closed (open_namespaces_lem n os [] []))))
