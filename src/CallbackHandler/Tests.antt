-- ===== src/CallbackHandler/Tests.antt =====
-- Runs of the callback handler.
use spytester.Base.{ℕ, ◌≡◌, refl, true, [], ◌∷◌, ◌++◌}
use spytester.CallbackHandler.{
  Handler, Reach, waiting, finished, push, post, wait, take, return, drained, again, here, next,
  init,
}
use spytester.CallbackHandler.Order.{current, Reach-fifo, Reach-none_forgotten}
use spytester.CallbackHandler.Shutdown.{checking_loses}

-- One callback is pushed, runs, and the thread waits again.
abbrev idle : Handler ℕ
idle = record {
  running = true;
  phase = waiting;
  sem = 0;
  posting = 0;
  callbacks = [];
  pushed = 4 ∷ [];
  called = 4 ∷ [];
}

one_callback : Reach init idle
unfolding init
one_callback =
    next
      (next
        (next
          (next (next (next (next here (push 4 (λ e. cc))) (post 0 refl)) (wait 0 refl refl))
            (take 4 [] refl refl))
          (return 4 refl))
        (drained refl refl))
      (again refl refl)

Reach-fifo_example : idle.called ++ (current idle.phase ++ idle.callbacks) ≡ idle.pushed
Reach-fifo_example = Reach-fifo idle one_callback

Reach-none_forgotten_example : idle.called ≡ idle.pushed
Reach-none_forgotten_example = Reach-none_forgotten idle one_callback refl refl

checking_loses_example :
    (s : Handler ℕ) × Reach init s
    × (s.running ≡ true)
    × (s.called ≡ 4 ∷ 5 ∷ [])
    × (s.callbacks ≡ 6 ∷ [])
    × (t : Handler ℕ) × Reach s t
    × (t.phase ≡ finished)
    × (t.callbacks ≡ 6 ∷ [])
    × ((u : Handler ℕ) → Reach t u → u.called ≡ 4 ∷ 5 ∷ [])
checking_loses_example = checking_loses (4 ∷ []) 5 6
