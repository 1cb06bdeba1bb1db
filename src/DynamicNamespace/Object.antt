-- ===== src/DynamicNamespace/Object.antt =====
-- include/DynamicNamespace.h and source/DynamicNamespace.cpp: a namespace as an object, with its id, and
-- how it finds the function that one of the base namespace stands for. The dynamic linker is a
-- parameter: dlmopen and dlinfo, the constructor of DynamicModule and its `getSymbol`. Addresses are
-- numbers, 0 the null pointer.
pub mod Lifetime
mod Conversion
mod Tests
use spytester.Base.Chains.{◌>>=◌}
use spytester.Base.{ℕ, List, [], ◌∷◌, Option, none, some, ◌==◌, if◌then◌else◌}
use spytester.Base.Texts.{Text}
use spytester.DynamicNamespace.{Stack, start}
use spytester.DynamicNamespace.Libraries.{Libraries}
use spytester.SpyLoader.{NamespaceIds, base_id, reserve_namespace_id, release_namespace_id}

-- `while(lm->l_prev) lm = lm->l_prev`, from a link map over those before it, the nearest first.
abbrev pub first_of : ℕ → List ℕ → ℕ
first_of lm [] = lm
first_of lm (prev ∷ prevs) = first_of prev prevs

module _ {H : Type 0} (dlmopen : ℕ → Option H) (dlinfo : H → Option (ℕ × List ℕ)) where
  -- The file's own `getLinkMap`, with libSpyLoader.so for its handle; `none` where it throws.
  unfoldable pub get_link_map : ℕ → Option ℕ
  get_link_map id = do handle ← dlmopen id; (lm, prevs) ← dlinfo handle; some (first_of lm prevs)

pub record Namespace (D : Type 0) : Type 0 where
  pub id : ℕ
  pub lm : ℕ
  pub argc : ℕ
  pub argv : ℕ → ℕ
  pub envp : List ℕ
  pub libraries : Libraries D
  pub loader : D
  pub create_main_thread : ℕ

module _ {D : Type 0} (link_map : ℕ → Option ℕ) (open_loader : ℕ → Option D) (main_of : D → ℕ) where
  abbrev no_libraries : Libraries D
  no_libraries = record { executable = none; dynamic_lib = [] }

  -- The members, in the order of their initialisation; an exception ends it.
  unfoldable pub initialised : ℕ → (ℕ → ℕ) → List ℕ → ℕ → Option (Namespace D)
  initialised argc argv envp id = do
    lm ← link_map id
    loader ← open_loader id
    some (record {
      id = id;
      lm = lm;
      argc = argc;
      argv = argv;
      envp = envp;
      libraries = no_libraries;
      loader = loader;
      create_main_thread = main_of loader;
    })

  -- The constructor of the base namespace, which looks for no function.
  unfoldable pub new_base : Option (Namespace D)
  new_base = do
    lm ← link_map base_id
    loader ← open_loader base_id
    some (record {
      id = base_id;
      lm = lm;
      argc = 0;
      argv = λ i. 0;
      envp = [];
      libraries = no_libraries;
      loader = loader;
      create_main_thread = 0;
    })

module _ {N D : Type 0} where
  -- The constructor's body. Where it throws, the destructor does not run.
  unfoldable pub checked :
      NamespaceIds N → Option (Namespace D) → NamespaceIds N × Option (Namespace D)
  checked s none = (s, none)
  checked s (some ns) =
      if ns.create_main_thread == 0 then (release_namespace_id ns.id s, none) else (s, some ns)

  -- The destructor.
  unfoldable pub destroy : Namespace D → NamespaceIds N → NamespaceIds N
  destroy ns s = if ns.id == base_id then s else release_namespace_id ns.id s

  module _ (link_map : ℕ → Option ℕ) (open_loader : ℕ → Option D) (main_of : D → ℕ) where
    -- The constructor of a spied namespace; n stands for the reference to it.
    unfoldable pub new :
        N → ℕ → (ℕ → ℕ) → List ℕ → NamespaceIds N → NamespaceIds N × Option (Namespace D)
    unfolding initialised checked
    new n argc argv envp s =
        let (s', id) = reserve_namespace_id n s in
        checked s' (initialised link_map open_loader main_of argc argv envp id)

-- How `loadExecutable` ends: with an exception, which ends the process, or by the jump that `start`
-- makes on the stack that it has laid out.
pub data Loaded (D : Type 0) : Type 0 where
  terminated : Loaded D
  jumped : ℕ → Stack → Namespace D → Loaded D

module _ {D : Type 0} (open_executable : ℕ → ℕ → Option D) (entry_point : D → ℕ) where
  -- A null entry point is only logged.
  abbrev pub with_executable : Namespace D → Stack → Option D → Loaded D
  with_executable ns s none = terminated
  with_executable ns s (some d) =
      jumped (entry_point d) (start ns.argc ns.argv ns.envp s)
        (record ns { libraries = record ns.libraries { executable = some d } })

  unfoldable pub load_executable : Namespace D → Stack → Loaded D
  load_executable ns s = with_executable ns s (open_executable (ns.argv 0) ns.id)

-- What dladdr says of an address: the start and the name of the symbol, and the file.
pub record DlInfo : Type 0 where
  pub saddr : ℕ
  pub sname : Text
  pub fname : Text

abbrev pub or_null : Option ℕ → ℕ
or_null none = 0
or_null (some a) = a

module _ {H : Type 0} (dladdr : ℕ → Option DlInfo) (open_loaded : ℕ → Text → Option H)
    (dlsym : H → Text → ℕ) where
  -- `convertDynSymbolAddr`; every failure gives the null pointer.
  unfoldable pub convert_dyn_symbol_addr : ℕ → ℕ → ℕ
  convert_dyn_symbol_addr id addr = or_null (do
    info ← dladdr addr
    file ← if info.saddr == addr then some info.fname else none
    handle ← open_loaded id file
    some (dlsym handle info.sname))
