-- ===== src/DynamicNamespace/Libraries/Iteration.antt =====
-- source/DynamicNamespace.cpp: which modules `iterateOverModule` calls its function on.
use spytester.Base.{
  ◌≡◌, refl, ap, Bool, true, false, List, [], ◌∷◌, Option, none, some, if◌then◌else◌,
}
use spytester.Base.Texts.{Text}
use spytester.DynamicNamespace.Libraries.{
  Libraries, sync_modules, iterate_libs, on_executable, iterate_over_module,
}

abbrev pub is_empty : {A : Type 0} → List A → Bool
is_empty [] = true
is_empty (x ∷ xs) = false

abbrev pub modules : {D : Type 0} → List (Text × D) → Option D → List D
modules [] none = []
modules [] (some d) = d ∷ []
modules ((name, d) ∷ rest) o = d ∷ modules rest o

module _ {D : Type 0} {S : Type 0} (f : S → D → S × Bool) where
  -- The function on each module in turn, until it returns false.
  abbrev pub each : S → List D → S × Bool
  each s [] = (s, true)
  each s (d ∷ ds) =
      let (s', next) = f s d in let rest = each s' ds in if next then rest else (s', false)

  libs_each :
      (s : S) (l : List (Text × D)) (o : Option D)
      → on_executable f o (iterate_libs f l (s, true)) ≡ each s (modules l o)
  unfolding iterate_libs
  libs_each s [] none = refl
  libs_each s [] (some d) = last (f s d)
    where
      last : (r : S × Bool) → r ≡ (if r.1 then (r.0, true) else (r.0, false))
      last (s', true) = refl
      last (s', false) = refl
  libs_each s ((name, d) ∷ rest) o = next (f s d) (libs_each (f s d).0 rest o)
    where
      stopped : (s' : S) (e : Option D) → on_executable f e (s', false) ≡ (s', false)
      stopped s' none = refl
      stopped s' (some x) = refl

      next :
          (r : S × Bool)
          → on_executable f o (iterate_libs f rest (r.0, true)) ≡ each r.0 (modules rest o)
          → on_executable f o (if r.1 then iterate_libs f rest (r.0, true) else (r.0, false))
            ≡ (if r.1 then each r.0 (modules rest o) else (r.0, false))
      next (s', true) h = h
      next (s', false) h = stopped s' o

  -- If `syncModules` throws, so does `iterateOverModule`. Otherwise, with a library, it calls the
  -- function on each library in the order of the names and then on the executable, up to the first
  -- call that returns false, and returns whether there was none; but without any library it returns
  -- false and calls the function on nothing, not even on the executable.
  pub iterate_over_module-each :
      (open_module : Text → Option D) (s : S) (names : List Text) (l : Libraries D)
      → let (l', ok) = sync_modules open_module names l in
        iterate_over_module open_module f s names l ≡ (
          l',
          if ok
              then some (
                  if is_empty l'.dynamic_lib
                  then (s, false)
                  else each s (modules l'.dynamic_lib l'.executable))
              else none,
        )
  unfolding iterate_over_module
  iterate_over_module-each open_module s names l =
      ap
        (λ r. (
          (sync_modules open_module names l).0,
          if (sync_modules open_module names l).1 then some r else none,
        ))
        (from (sync_modules open_module names l).0.dynamic_lib
          (sync_modules open_module names l).0.executable)
    where
      from :
          (libs : List (Text × D)) (o : Option D)
          → on_executable f o (iterate_libs f libs (s, false))
            ≡ (if is_empty libs then (s, false) else each s (modules libs o))
      from [] none = refl
      from [] (some x) = refl
      from ((name, d) ∷ rest) o = libs_each s ((name, d) ∷ rest) o
