-- ===== src/DynamicNamespace/Object/Conversion.antt =====
-- source/DynamicNamespace.cpp: what `convertDynSymbolAddr` gives.
use spytester.Base.{
  ℕ, ◌≡◌, ◌≢◌, ◌⊎◌, refl, Option, none, some, ◌==◌, ==→eq, Bool-cases, inl, inr, if◌then◌else◌,
  arith,
}
use spytester.Base.Chains.{◌>>=◌}
use spytester.Base.Texts.{Text}
use spytester.DynamicNamespace.Object.{DlInfo, or_null, convert_dyn_symbol_addr}

module _ {H : Type 0} (dladdr : ℕ → Option DlInfo) (open_loaded : ℕ → Text → Option H)
    (dlsym : H → Text → ℕ) where
  -- Why an address has no counterpart.
  abbrev pub Fails : ℕ → ℕ → Type 0
  Fails id addr =
      (dladdr addr ≡ none)
      ⊎ ((info : DlInfo) × (dladdr addr ≡ some info)
          × ((info.saddr ≢ addr) ⊎ (open_loaded id info.fname ≡ none)))

  abbrev pub Converts : ℕ → ℕ → ℕ → Type 0
  Converts id addr r =
      ((info : DlInfo) × (h : H) × (dladdr addr ≡ some info)
        × (info.saddr ≡ addr)
        × (open_loaded id info.fname ≡ some h)
        × (r ≡ dlsym h info.sname))
      ⊎ (Fails id addr × (r ≡ 0))

  -- The address of the same symbol of the same file in the namespace, for an address at which dladdr
  -- says that a symbol starts and whose file is loaded there; the null pointer for any other.
  convert_dyn_symbol_addr-Converts :
      (id addr : ℕ) → Converts id addr (convert_dyn_symbol_addr dladdr open_loaded dlsym id addr)
  unfolding convert_dyn_symbol_addr
  convert_dyn_symbol_addr-Converts id addr = described (dladdr addr) refl
    where
      opened :
          (info : DlInfo) (o : Option H)
          → (dladdr addr ≡ some info)
          → (info.saddr ≡ addr)
          → open_loaded id info.fname ≡ o
          → Converts id addr (or_null (do handle ← o; some (dlsym handle info.sname)))
      opened info none d a e = inr (inr (info, d, inr e), refl)
      opened info (some h) d a e = inl (info, h, d, a, e, refl)

      described :
          (o : Option DlInfo)
          → dladdr addr ≡ o
          → Converts id addr (
              or_null (do
                info ← o
                file ← if info.saddr == addr then some info.fname else none
                handle ← open_loaded id file
                some (dlsym handle info.sname)))
      described none e = inr (inl e, refl)
      described (some info) e = elim (Bool-cases (info.saddr == addr)) [
        | inl z ↦ rw z (opened info (open_loaded id info.fname) e (==→eq _ _ z) refl)
        | inr z ↦ rw z (inr (inr (info, e, inl (λ q. ground (arith, z, q))), refl))
      ]
