-- ===== src/Tracer/Handshake/Tests.antt =====
-- source/Tracer.cpp: a start in which all goes well, and one in which the option cannot be set.
use spytester.Base.{◌≡◌, ◌⊎◌, refl, true, false, List, [], ◌∷◌}
use spytester.Tracer.Handshake.{
  StartCall, by_tracer, by_starter, init, make_call, make_calls, told, pausing, at_pause, traced,
  untraced,
}
use spytester.Tracer.Handshake.Order.{make_calls-traced}

abbrev good_start : List StartCall
good_start =
    by_tracer true
    ∷ by_starter true
    ∷ by_tracer true
    ∷ by_starter true
    ∷ by_tracer true
    ∷ by_tracer true
    ∷ by_tracer true
    ∷ by_starter true
    ∷ by_tracer true
    ∷ by_tracer true
    ∷ []

make_calls-traced_example :
    let s = make_calls good_start init in
    (s.option ≡ true) × (s.main ≡ traced) × ((s.starter ≡ pausing) ⊎ (s.starter ≡ at_pause))
unfolding make_calls make_call init
make_calls-traced_example = make_calls-traced good_start refl refl

abbrev no_option : List StartCall
no_option =
    by_tracer true
    ∷ by_starter true
    ∷ by_starter true
    ∷ by_tracer true
    ∷ by_tracer false
    ∷ by_tracer true
    ∷ by_starter true
    ∷ by_starter true
    ∷ by_tracer true
    ∷ by_tracer true
    ∷ []

-- The promise is kept all the same, with a main thread that is not traced.
no_option_run : let s = make_calls no_option init in (s.tracer ≡ told) × (s.main ≡ untraced)
unfolding make_calls make_call init
no_option_run = (refl, refl)
