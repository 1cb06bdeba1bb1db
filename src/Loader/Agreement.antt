-- ===== src/Loader/Agreement.antt =====
-- source/Loader.cpp and source/DynamicNamespace.cpp: the loader against `loadExecutable`.
use mathlib.Core.Path.{subst}
use spytester.Base.Chains.{◌>>=◌}
use spytester.Base.{
  ℕ, ◌*◌, ◌+◌, ◌%◌, ◌^◌, ◌≤◌, ◌≡◌, ◌≢◌, ◌⊎◌, inl, inr, refl, sym, List, Option, none, some, ◌==◌,
  ==→eq, Bool-cases, arith,
}
use spytester.ElfFile.{File, Elf, Layout}
use spytester.DynamicModule.{get_entry_point}
use spytester.DynamicNamespace.{Stack, words_to_push}
use spytester.DynamicNamespace.{start as ns_start}
use spytester.DynamicNamespace.Layout.{Holds, layout, start_lem}
use spytester.DynamicNamespace.Object.{
  Namespace, Loaded, terminated, jumped, with_executable, load_executable,
}
use spytester.Loader.{LoadEnd, abandoned, entered, start, from_map, from_handle, load}

start-same :
    (argc : ℕ) (argv : ℕ → ℕ) (envp : List ℕ) (s : Stack)
    → start argc argv envp s ≡ ns_start argc argv envp s
unfolding start ns_start
start-same argc argv envp s = refl

-- `e_entry` of the header at an address.
abbrev pub entry_at : (ℕ → Elf) → ℕ → ℕ
entry_at elf_at l_addr = (elf_at l_addr).header.entry

module _ {H : Type 0} (dlopen : ℕ → Option H) (link_map : H → Option ℕ) (f : File) (lay : Layout)
    (elf_at : ℕ → Elf) where
  -- A module as `loadExecutable` sees it: where it is loaded, and its file.
  abbrev pub opened : ℕ → ℕ → Option (ℕ × Elf)
  opened path id = do h ← dlopen path; l_addr ← link_map h; some (l_addr, elf_at l_addr)

  abbrev pub entry_of : ℕ × Elf → ℕ
  entry_of (l_addr, e) = get_entry_point f lay l_addr e

  -- Both give up; or both jump, with the program's arguments on the stack, to the same address, but
  -- where the header has no entry point: then to the module's own address and to the null pointer.
  abbrev pub Agrees : Namespace (ℕ × Elf) → LoadEnd H → Loaded (ℕ × Elf) → Type 0
  Agrees ns abandoned terminated = Unit {0}
  Agrees ns (entered h a t) (jumped b u ns') =
      (t ≡ u)
      × (t.sp % 16 ≡ 0)
      × Holds (layout ns.argc ns.argv ns.envp) t.sp t.words
      × (l_addr : ℕ) × (link_map h ≡ some l_addr)
      × (((entry_at elf_at l_addr ≢ 0) × (a ≡ b))
          ⊎ ((entry_at elf_at l_addr ≡ 0) × (a ≡ l_addr % 2 ^ 64) × (b ≡ 0)))
  Agrees ns _ _ = ⊥

  entries :
      (l : ℕ)
      → let a = (l + entry_at elf_at l) % 2 ^ 64 in
        ((entry_at elf_at l ≢ 0) × (a ≡ entry_of (l, elf_at l)))
        ⊎ ((entry_at elf_at l ≡ 0) × (a ≡ l % 2 ^ 64) × (entry_of (l, elf_at l) ≡ 0))
  unfolding get_entry_point
  entries l = elim (Bool-cases (entry_at elf_at l == 0)) [
    | inl z ↦ inr (==→eq _ _ z, rw (==→eq _ _ z) (omega arith), rw z refl)
    | inr z ↦ inl ((λ q. ground (arith, z, q)), rw z refl)
  ]

  -- On a stack with room for the words and a pointer that is a multiple of 8, the loader and
  -- `loadExecutable` agree on a module that is opened in the same way: both give up, or both jump with
  -- the same stack, whose pointer is a multiple of 16 and which holds argc, the arguments and the
  -- environment. Where the module's header has an entry point, both jump to it; where it has none, the
  -- loader jumps to the address of the module and `loadExecutable` to the null pointer.
  pub load-Agrees :
      (ns : Namespace (ℕ × Elf)) (s : Stack)
      → s.sp % 8 ≡ 0
      → 8 * (words_to_push ns.argc ns.envp + 1) ≤ s.sp
      → Agrees ns
          (load dlopen link_map (entry_at elf_at) ns.argc ns.argv ns.envp s)
          (load_executable opened entry_of ns s)
  unfolding load load_executable
  load-Agrees ns s whole le = of_handle (dlopen (ns.argv 0))
    where
      t : Stack
      t = start ns.argc ns.argv ns.envp s

      laid : (t.sp % 16 ≡ 0) × Holds (layout ns.argc ns.argv ns.envp) t.sp t.words
      laid =
          subst (λ v. (v.sp % 16 ≡ 0) × Holds (layout ns.argc ns.argv ns.envp) v.sp v.words)
            (sym (start-same ns.argc ns.argv ns.envp s))
            (let l = start_lem ns.argc ns.argv ns.envp s whole le in (l.0, l.1))

      of_map :
          (h : H) (o : Option ℕ)
          → link_map h ≡ o
          → Agrees ns
              (from_map dlopen link_map (entry_at elf_at) h t o)
              (with_executable opened entry_of ns s (do l_addr ← o; some (l_addr, elf_at l_addr)))
      of_map h none e = tt
      of_map h (some l_addr) e =
          (start-same ns.argc ns.argv ns.envp s, laid.0, laid.1, l_addr, e, entries l_addr)

      of_handle :
          (o : Option H)
          → Agrees ns (from_handle dlopen link_map (entry_at elf_at) t o) (
              with_executable opened entry_of ns s
                (do h ← o; l_addr ← link_map h; some (l_addr, elf_at l_addr)))
      of_handle none = tt
      of_handle (some h) = of_map h (link_map h) refl
