-- ===== src/SpiedProgram/Wrapping.antt =====
-- include/SpiedProgram.h: `wrapFunction`, over the pools of wrappers, one for each function, and the
-- map of wrapped functions, by the function's address and the binary's name. `converted` and `found`
-- are what the constructor of WrappedFunction is given by the spied namespace. `unwrapFunction` does
-- not compile when it is used, and is not modelled.
use spytester.Base.{
  ℕ, ◌≡◌, refl, ap, ◌∙◌, ◌&&◌, Option, none, some, ◌==◌, ==_refl, if◌then◌else◌, arith,
}
use spytester.Base.Texts.{Text, same_text, same_text_refl}
use spytester.ElfFile.{Outcome, done, thrown, undefined}
use spytester.WrappedFunction.{Wrappers, WrappedFunction, new}

pub record Wrapped (W : Type 0) : Type 0 where
  pub pools : ℕ → Wrappers W
  pub functions : ℕ → Text → Option WrappedFunction

abbrev of_done : Outcome WrappedFunction → Option WrappedFunction
of_done (done wf) = some wf
of_done thrown = none
of_done undefined = none

module _ {W : Type 0} where
  abbrev with_function : ℕ → Text → WrappedFunction → Wrapped W → Wrapped W
  with_function faddr bin wf s = record s {
    functions = λ f b. if f == faddr && same_text b bin then some wf else s.functions f b;
  }

  -- The new object goes into the map, unless its constructor threw.
  keep : ℕ → Text → Outcome WrappedFunction → Wrapped W → Wrapped W
  keep faddr bin (done wf) s = with_function faddr bin wf s
  keep faddr bin thrown s = s
  keep faddr bin undefined s = s

  wrap_found :
      ℕ
      → Text
      → ℕ
      → Option (Outcome ℕ)
      → Wrapped W
      → Option WrappedFunction
      → Wrapped W × Outcome WrappedFunction
  unfolding keep
  wrap_found faddr bin converted found s (some wf) = (s, done wf)
  wrap_found faddr bin converted found s none =
      let (pool, out) = new converted found (s.pools faddr) in
      (keep faddr bin out (record s { pools = λ f. if f == faddr then pool else s.pools f }), out)

  unfoldable pub wrap_function :
      ℕ → Text → ℕ → Option (Outcome ℕ) → Wrapped W → Wrapped W × Outcome WrappedFunction
  unfolding wrap_found
  wrap_function faddr bin converted found s =
      wrap_found faddr bin converted found s (s.functions faddr bin)

  keep_there :
      (faddr : ℕ) (bin : Text) (out : Outcome WrappedFunction) (s : Wrapped W)
      (wf : WrappedFunction)
      → out ≡ done wf
      → (keep faddr bin out s).functions faddr bin ≡ some wf
  unfolding keep
  keep_there faddr bin (done wf') s wf h =
      rw (==_refl faddr) (rw (same_text_refl bin) (ap of_done h))
  keep_there faddr bin thrown s wf h = absurd (ground (arith, ap of_done h))
  keep_there faddr bin undefined s wf h = absurd (ground (arith, ap of_done h))

  wrap_found_there :
      (faddr : ℕ) (bin : Text) (converted : ℕ) (found : Option (Outcome ℕ)) (s : Wrapped W)
      (o : Option WrappedFunction) (wf : WrappedFunction)
      → s.functions faddr bin ≡ o
      → (wrap_found faddr bin converted found s o).1 ≡ done wf
      → (wrap_found faddr bin converted found s o).0.functions faddr bin ≡ some wf
  unfolding wrap_found
  wrap_found_there faddr bin converted found s (some wf') wf e h = e ∙ ap of_done h
  wrap_found_there faddr bin converted found s none wf e h = keep_there faddr bin _ _ wf h

  -- Once `wrapFunction` has returned an object, it returns the same one for the same function and
  -- binary, and takes no further wrapper.
  wrap_function_twice :
      (faddr : ℕ) (bin : Text) (converted converted' : ℕ) (found found' : Option (Outcome ℕ))
      (s : Wrapped W) (wf : WrappedFunction)
      → (wrap_function faddr bin converted found s).1 ≡ done wf
      → let s' = (wrap_function faddr bin converted found s).0 in
        wrap_function faddr bin converted' found' s' ≡ (s', done wf)
  unfolding wrap_function wrap_found
  wrap_function_twice faddr bin converted converted' found found' s wf h =
      ap (wrap_found faddr bin converted' found' (wrap_function faddr bin converted found s).0)
        (wrap_found_there faddr bin converted found s (s.functions faddr bin) wf refl h)
