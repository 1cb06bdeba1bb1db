-- ===== src/CallbackHandler/Shutdown.antt =====
-- source/CallbackHandler.cpp: what the destructor leaves behind.
use mathlib.Core.Path.{subst}
use mathlib.Core.List.{append_assoc, append-nil}
use spytester.Base.{◌++◌, ◌≡◌, refl, sym, ap, true, false, List, [], ◌∷◌, arith}
use spytester.CallbackHandler.{
  Handler, Step, Reach, init, waiting, looking, checking, finished, push, post, wait, take, return,
  drained, again, quit, stop, here, next,
}

module _ {ℓ} {C : Type ℓ} where
  IsOver : List C → Handler C → Type ℓ
  IsOver called s = (s.phase ≡ finished) × (s.called ≡ called)

  Step-IsOver : (l : List C) {s t : Handler C} → Step s t → IsOver l s → IsOver l t
  unfolding IsOver
  Step-IsOver l (push c h) v = ground arith
  Step-IsOver l (post n h) v = ground arith
  Step-IsOver l (wait n h e) v = ground arith
  Step-IsOver l (take c cs h e) v = ground arith
  Step-IsOver l (return c h) v = ground arith
  Step-IsOver l (drained h e) v = ground arith
  Step-IsOver l (again h e) v = ground arith
  Step-IsOver l (quit h e) v = ground arith
  Step-IsOver l stop v = ground arith

  Reach-IsOver : (l : List C) {s t : Handler C} → IsOver l s → Reach s t → IsOver l t
  Reach-IsOver l v here = v
  Reach-IsOver l v (next r st) = Step-IsOver l st (Reach-IsOver l v r)

  Reach-trans : {s t u : Handler C} → Reach s t → Reach t u → Reach s u
  Reach-trans r here = r
  Reach-trans r (next q st) = next (Reach-trans r q) st

  -- The handler at `sem_wait` after it has run these callbacks.
  idle : List C → Handler C
  idle cs = record {
    running = true;
    phase = waiting;
    sem = 0;
    posting = 0;
    callbacks = [];
    pushed = cs;
    called = cs;
  }

  -- One more callback is pushed and runs, and the inner loop finds the queue empty.
  serves :
      (cs : List C) (c : C) → Reach (idle cs) (record (idle (cs ++ c ∷ [])) { phase = checking })
  unfolding idle
  serves cs c =
      let called = next (next (next here (push c (λ e. cc))) (post 0 refl)) (wait 0 refl refl) in
      next (next (next called (take c [] refl refl)) (return c refl)) (drained refl refl)

  reaches_idle : (cs ds : List C) → Reach (idle ds) (idle (ds ++ cs))
  unfolding idle
  reaches_idle [] ds = subst (λ l. Reach (idle ds) (idle l)) (sym (append-nil ds)) here
  reaches_idle (c ∷ cs) ds =
      subst (λ l. Reach (idle ds) (idle l)) (append_assoc ds (c ∷ []) cs)
        (Reach-trans (next (serves ds c) (again refl refl)) (reaches_idle cs (ds ++ c ∷ [])))

  -- A callback that was pushed before the destructor ran can be lost. After any callbacks, one at
  -- least, have run, the handler can reach a state, not yet being destroyed, in which one more
  -- callback is queued, and from which the destructor and the thread's test of `_running` lead to
  -- the end of the thread with that callback still in the queue; no later step runs any callback.
  pub checking_loses :
      (cs : List C) (b c : C)
      → (s : Handler C) × Reach init s
        × (s.running ≡ true)
        × (s.called ≡ cs ++ b ∷ [])
        × (s.callbacks ≡ c ∷ [])
        × (t : Handler C) × Reach s t
        × (t.phase ≡ finished)
        × (t.callbacks ≡ c ∷ [])
        × ((u : Handler C) → Reach t u → u.called ≡ cs ++ b ∷ [])
  unfolding IsOver init idle
  checking_loses cs b c = (
    late,
    next (Reach-trans (reaches_idle cs []) (serves cs b)) (push c (λ e. cc)),
    refl,
    refl,
    refl,
    record late { phase = finished; running = false; posting = 2 },
    next (next here stop) (quit refl refl),
    refl,
    refl,
    λ u r. (Reach-IsOver (cs ++ b ∷ []) (refl, refl) r).1,
  )
    where
      late : Handler C
      late = record (idle (cs ++ b ∷ [])) {
        phase = checking;
        callbacks = c ∷ [];
        pushed = (cs ++ b ∷ []) ++ c ∷ [];
        posting = 1;
      }

  drain_from :
      (cs : List C) (s : Handler C)
      → s.phase ≡ looking
      → s.callbacks ≡ cs
      → Reach s (record s { phase = checking; callbacks = []; called = s.called ++ cs })
  drain_from [] s p e =
      subst (Reach s) (ground (arith, append-nil s.called)) (next here (drained p e))
  drain_from (c ∷ cs) s p e = Reach-trans (next (next here (take c cs p e)) (return c refl)) (
      subst (Reach _) (ap over (append_assoc s.called (c ∷ []) cs)) (
        drain_from cs (record s { phase = looking; callbacks = cs; called = s.called ++ c ∷ [] })
          refl refl))
    where
      over : List C → Handler C
      over l = record s { phase = checking; callbacks = []; called = l }

  -- In the inner loop nothing is lost: the thread can always go on, by its own steps alone, until
  -- every queued callback has run in order and the queue is empty, whether or not the handler is
  -- being destroyed.
  looking_drains :
      (s : Handler C)
      → s.phase ≡ looking
      → Reach s (record s { phase = checking; callbacks = []; called = s.called ++ s.callbacks })
  looking_drains s p = drain_from s.callbacks s p refl
