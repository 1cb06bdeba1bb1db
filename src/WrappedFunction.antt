-- ===== src/WrappedFunction.antt =====
-- include/WrappedFunction.h, with `constexpr_for` of include/Meta.h: the wrappers of one function,
-- of which each wrapped function of a program takes one. Function pointers are addresses, 0 the null
-- pointer; a wrapper that the test sets is a value of a parameter type. The addresses of the static
-- wrappers, which the compiler makes of `getStaticWrapper`, are a parameter as well.
mod Pool
mod Writes
mod Tests
use spytester.Base.{
  ℕ, zero, suc, Bool, true, false, ◌&&◌, ◌||◌, List, [], ◌∷◌, ◌++◌, Option, none, some, ◌==◌,
  if◌then◌else◌,
}
use spytester.Base.Texts.{Text, same_text}
use spytester.Tracer.{Request, Reply, Tracer, failed, write_word}
use spytester.ElfFile.{Outcome, done, thrown, undefined}
use spytester.Relinkage.{glob_dat, jump_slot}
use spytester.DynamicModule.{OnRela}

-- WRAPPER_MAX_NB.
abbrev pub wrapper_max_nb : ℕ
wrapper_max_nb = 10

pub record Wrapper (W : Type 0) : Type 0 where
  pub static_wrapper : ℕ
  pub wrapped_function : ℕ
  pub dynamic_wrapper : Option W

-- The array, and the vector of those that are available, by their indices and the last one first.
pub record Wrappers (W : Type 0) : Type 0 where
  pub wrappers : ℕ → Wrapper W
  pub available : List ℕ

-- `constexpr_for` from 0 by steps of 1.
unfoldable pub constexpr_for {ℓ} : {S : Type ℓ} → ℕ → (ℕ → S → S) → S → S
constexpr_for zero f s = s
constexpr_for (suc n) f s = f n (constexpr_for n f s)

-- What a call of a static wrapper calls.
pub data Callee (W : Type 0) : Type 0 where
  dynamic : W → Callee W
  original : ℕ → Callee W

module _ {W : Type 0} where
  abbrev pub with_wrapper : ℕ → Wrapper W → Wrappers W → Wrappers W
  with_wrapper idx w p = record p { wrappers = λ i. if i == idx then w else p.wrappers i }

  -- The constructor of `Wrappers`, for the function at `faddr`.
  abbrev pub unset_wrappers : ℕ → Wrappers W
  unset_wrappers faddr = record {
    wrappers = λ i. record { static_wrapper = 0; wrapped_function = faddr; dynamic_wrapper = none };
    available = [];
  }

  abbrev pub add_wrapper : (ℕ → ℕ) → ℕ → Wrappers W → Wrappers W
  add_wrapper static idx p =
      let p1 = with_wrapper idx (record (p.wrappers idx) { static_wrapper = static idx }) p in
      record p1 { available = idx ∷ p1.available }

  unfoldable pub init : (ℕ → ℕ) → ℕ → Wrappers W
  unfolding constexpr_for
  init static faddr = constexpr_for wrapper_max_nb (add_wrapper static) (unset_wrappers faddr)

  take_wrapper : List ℕ → ℕ → Wrappers W → Wrappers W × Outcome ℕ
  take_wrapper [] wrapped p = (p, undefined)
  take_wrapper (idx ∷ rest) wrapped p =
      let p1 = with_wrapper idx (record (p.wrappers idx) { wrapped_function = wrapped }) p in
      (record p1 { available = rest }, done idx)

  -- `back()` of the empty vector, where none is available, is undefined.
  unfoldable pub get_wrapper : ℕ → Wrappers W → Wrappers W × Outcome ℕ
  unfolding take_wrapper
  get_wrapper wrapped p = take_wrapper p.available wrapped p

  unfoldable pub release_wrapper : ℕ → Wrappers W → Wrappers W
  release_wrapper idx p =
      let p1 = with_wrapper idx (record (p.wrappers idx) { dynamic_wrapper = none }) p in
      record p1 { available = idx ∷ p1.available }

  unfoldable pub set_wrapper : ℕ → W → Wrappers W → Wrappers W
  set_wrapper idx w p = with_wrapper idx (record (p.wrappers idx) { dynamic_wrapper = some w }) p

  called : Wrapper W → Option W → Callee W
  called w none = original w.wrapped_function
  called w (some d) = dynamic d

  -- The lambda of `getStaticWrapper`; an empty std::function throws std::bad_function_call.
  unfoldable pub call_static : ℕ → Wrappers W → Callee W
  unfolding called
  call_static idx p = called (p.wrappers idx) (p.wrappers idx).dynamic_wrapper

-- A wrapped function: the index of its wrapper, and the address of its relocation.
pub record WrappedFunction : Type 0 where
  pub wrapper : ℕ
  pub rela_addr : ℕ

-- The callback `findRela`, which stops at the first relocation of the function.
unfoldable pub find_first : Text → OnRela ℕ
find_first mangled rela_addr type name addr =
    if (type == glob_dat || type == jump_slot) && same_text name mangled
    then (addr, false)
    else (rela_addr, true)

module _ {W : Type 0} where
  with_rela : Wrappers W → ℕ → Outcome ℕ → Wrappers W × Outcome WrappedFunction
  with_rela p idx (done addr) = (p, done (record { wrapper = idx; rela_addr = addr }))
  with_rela p idx thrown = (p, thrown)
  with_rela p idx undefined = (p, undefined)

  -- `found` is what the iteration over the module's relocations gives, `none` where the module cannot
  -- be loaded: its null pointer is dereferenced.
  with_wrapper_taken :
      Option (Outcome ℕ) → Wrappers W × Outcome ℕ → Wrappers W × Outcome WrappedFunction
  unfolding with_rela
  with_wrapper_taken found (p, thrown) = (p, thrown)
  with_wrapper_taken found (p, undefined) = (p, undefined)
  with_wrapper_taken none (p, done idx) = (p, undefined)
  with_wrapper_taken (some addr) (p, done idx) = with_rela p idx addr

  -- The constructor. The exceptions that it names after a failure are not thrown.
  unfoldable pub new : ℕ → Option (Outcome ℕ) → Wrappers W → Wrappers W × Outcome WrappedFunction
  unfolding get_wrapper with_wrapper_taken
  new converted found p = with_wrapper_taken found (get_wrapper converted p)

  module _ {M : Type 0} (exec : M → Request → M × Reply) where
    unfoldable pub wrapping : Bool → WrappedFunction → Wrappers W → Tracer M → Tracer M × Bool
    wrapping active wf p t =
        let w = p.wrappers wf.wrapper in
        let addr = if active then w.static_wrapper else w.wrapped_function in
        let (t1, reply) = write_word exec t wf.rela_addr addr in
        if wf.rela_addr == 0
        then (t, true)
        else if reply.res == failed
        then (t1, false)
        else (t1, true)

    -- The destructor.
    unfoldable pub destroy : WrappedFunction → Wrappers W → Tracer M → Tracer M × Wrappers W
    unfolding release_wrapper
    destroy wf p t = (
      (write_word exec t wf.rela_addr (p.wrappers wf.wrapper).wrapped_function).0,
      release_wrapper wf.wrapper p,
    )
