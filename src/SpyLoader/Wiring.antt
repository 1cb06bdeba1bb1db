-- ===== src/SpyLoader/Wiring.antt =====
-- source/SpyLoader.cpp: what the loader takes from each namespace, and how it repairs the lists of
-- threads of the libpthreads. The dynamic linker is a parameter, by its modules and the addresses of
-- their symbols, 0 where there is none. `fatal_log` does not return: `none`.
mod Rings
pub mod Wired
use spytester.Base.Chains.{◌>>=◌}
use spytester.Base.{
  ℕ, zero, suc, Bool, List, [], ◌∷◌, ◌++◌, Option, none, some, ◌==◌, if◌then◌else◌,
}
use spytester.Relinkage.{update}

pub data Lib : Type 0 where
  libpthread libc : Lib

pub data Symbol : Type 0 where
  init_static_tls key_delete key_create stack_user ctype_init : Symbol

-- The vectors of functions; the links of list heads; the words of `_rtld_global`, with the place of
-- `_dlInitStaticTLS` among them.
pub record Loader : Type 0 where
  pub key_delete_functions : List ℕ
  pub key_create_functions : List ℕ
  pub ctype_init_functions : List ℕ
  pub init_static_tls_functions : List ℕ
  pub next : ℕ → ℕ
  pub prev : ℕ → ℕ
  pub rtld_global : List ℕ
  pub dl_init_static_tls : ℕ
  pub base_stack_user_list : ℕ
  pub default_thread_stack : ℕ

abbrev pub found : ℕ → Option ℕ
found a = if a == 0 then none else some a

abbrev pub set_word : ℕ → ℕ → List ℕ → List ℕ
set_word i v [] = []
set_word zero v (w ∷ ws) = v ∷ ws
set_word (suc i) v (w ∷ ws) = w ∷ set_word i v ws

-- The scan of `_rtld_global`, which has no bound: `none` is a read past its words.
abbrev pub one_on : Option ℕ → Option ℕ
one_on none = none
one_on (some i) = some (suc i)

unfoldable pub index_of : ℕ → List ℕ → Option ℕ
index_of v [] = none
index_of v (w ∷ ws) = let later = one_on (index_of v ws) in if w == v then some 0 else later

-- "repair __stack_user": the namespace's own list is emptied, and the default thread is all that the
-- base namespace's holds.
abbrev pub repaired : ℕ → ℕ → ℕ → (ℕ → ℕ) → ℕ → ℕ
repaired stack base_list thread link =
    update (update (update link stack stack) thread base_list) base_list thread

module _ {N D : Type 0} (load : N → Lib → Option D) (get_symbol : D → Symbol → ℕ) (own : ℕ) where
  -- `own` is the address of the loader's `dl_init_static_tls`.
  unfoldable pub update_wrapped_functions : N → Loader → Option Loader
  update_wrapped_functions ns s = do
    pthread ← load ns libpthread
    tls ← found (get_symbol pthread init_static_tls)
    key_del ← found (get_symbol pthread key_delete)
    key_cre ← found (get_symbol pthread key_create)
    stack ← found (get_symbol pthread stack_user)
    c ← load ns libc
    ctype ← found (get_symbol c ctype_init)
    some (record s {
      init_static_tls_functions = s.init_static_tls_functions ++ tls ∷ [];
      rtld_global = set_word s.dl_init_static_tls own s.rtld_global;
      key_delete_functions = s.key_delete_functions ++ key_del ∷ [];
      key_create_functions = s.key_create_functions ++ key_cre ∷ [];
      next = repaired stack s.base_stack_user_list s.default_thread_stack s.next;
      prev = repaired stack s.base_stack_user_list s.default_thread_stack s.prev;
      ctype_init_functions = s.ctype_init_functions ++ ctype ∷ [];
    })

  -- The constructor, for the base namespace.
  unfoldable pub make : N → (ℕ → ℕ) → (ℕ → ℕ) → List ℕ → Option Loader
  make base next prev rtld = do
    pthread ← load base libpthread
    tls ← found (get_symbol pthread init_static_tls)
    place ← index_of tls rtld
    stack ← found (get_symbol pthread stack_user)
    update_wrapped_functions base (record {
      key_delete_functions = [];
      key_create_functions = [];
      ctype_init_functions = [];
      init_static_tls_functions = [];
      next = next;
      prev = prev;
      rtld_global = rtld;
      dl_init_static_tls = place;
      base_stack_user_list = stack;
      default_thread_stack = next stack;
    })

  -- The calls in the loop of `createSpiedNamespaces`, for the namespaces that it has made.
  unfoldable pub update_each : List N → Loader → Option Loader
  update_each [] s = some s
  update_each (ns ∷ nss) s = update_wrapped_functions ns s >>= λ s'. update_each nss s'

-- `ctypeInit` and `initStaticTLS`: every function, in the order of the namespaces.
abbrev run_all : {S : Type 0} → (ℕ → S → S) → List ℕ → S → S
run_all call [] m = m
run_all call (f ∷ fs) m = run_all call fs (call f m)

unfoldable pub ctype_init_all : {S : Type 0} → (ℕ → S → S) → Loader → S → S
ctype_init_all call s m = run_all call s.ctype_init_functions m

unfoldable pub init_static_tls_all : {S : Type 0} → (ℕ → S → S) → Loader → S → S
init_static_tls_all call s m = run_all call s.init_static_tls_functions m
