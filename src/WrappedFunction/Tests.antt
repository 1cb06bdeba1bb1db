-- ===== src/WrappedFunction/Tests.antt =====
-- include/WrappedFunction.h: the wrappers of a function at 0x400, and a relocation at 0x3000.
use spytester.Base.{ℕ, ◌+◌, ◌<◌, ◌≤◌, ◌≡◌, ◌⊎◌, refl, true, false, List, [], ◌∷◌, ◌≡◌, arith}
use spytester.Tracer.{Tracer}
use spytester.ElfFile.{done}
use spytester.BreakPoint.Text.{Text, exec, read, settle, final}
use spytester.BreakPoint.Patch.{catching_up}
use spytester.WrappedFunction.{
  WrappedFunction, Wrappers, dynamic, original, init, constexpr_for, get_wrapper, set_wrapper,
  release_wrapper, call_static, wrapping, destroy,
}
use spytester.WrappedFunction.Pool.{
  PoolCall, get, set, release, pool_call, pool_calls, fresh_pool, Got, get_wrapper_lem,
}
use spytester.WrappedFunction.Writes.{wrapping_lem}

abbrev static : ℕ → ℕ
static idx = 0x500 + idx

abbrev calls : List (PoolCall ℕ)
calls = get 0x7400 ∷ get 0x7400 ∷ set 9 1 ∷ release 9 ∷ release 3 ∷ []

-- The second wrapped function keeps its wrapper, 8, and the next one gets 9 again.
get_again : (get_wrapper 0x7400 (pool_calls calls (fresh_pool static 0x400)).wrappers).1 ≡ done 9
unfolding get_wrapper pool_calls pool_call fresh_pool init constexpr_for set_wrapper release_wrapper
get_again = refl

get_wrapper_lem_example :
    let s = pool_calls calls (fresh_pool static 0x400) in
    Got static 0x7400 s (get_wrapper 0x7400 s.wrappers)
get_wrapper_lem_example = get_wrapper_lem static 0x400 calls 0x7400

-- A wrapper that is set is called, and the function itself once it is given back.
abbrev wrappers : Wrappers ℕ
wrappers = init static 0x400

call_set : call_static 9 (set_wrapper 9 1 wrappers) ≡ dynamic 1
unfolding call_static set_wrapper
call_set = refl

call_released : call_static 9 (release_wrapper 9 (set_wrapper 9 1 wrappers)) ≡ original 0x400
unfolding call_static set_wrapper release_wrapper init constexpr_for
call_released = refl

abbrev tracer : Tracer Text
tracer = record { machine = record { memory = λ x. 0; pending = [] }; tracee_pid = 100; sent = [] }

abbrev wrapped : WrappedFunction
wrapped = record { wrapper = 9; rela_addr = 0x3000 }

wrapping_lem_example :
    let (t1, on) = wrapping exec true wrapped wrappers tracer in
    let (t2, off) = wrapping exec false wrapped wrappers (catching_up 1 t1) in
    let (t3, _) = destroy exec wrapped wrappers (catching_up 1 t1) in
    (on ≡ true)
    × (off ≡ true)
    × (read 8 (final t1.machine) 0x3000 ≡ 0x509)
    × (read 8 (final t2.machine) 0x3000 ≡ 0x400)
    × (read 8 (final t3.machine) 0x3000 ≡ 0x400)
    × ((x : ℕ)
        → (x < 0x3000) ⊎ (0x3008 ≤ x)
        → (final t1.machine x ≡ 0) × (final t2.machine x ≡ 0) × (final t3.machine x ≡ 0))
unfolding init constexpr_for settle
wrapping_lem_example =
    wrapping_lem wrapped wrappers tracer 1 (omega arith) (omega arith) (omega arith)
