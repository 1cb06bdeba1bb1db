-- ===== src/CallbackHandler/Order.antt =====
-- source/CallbackHandler.cpp: the order in which callbacks run.
use spytester.Base.{◌+◌, ◌<◌, ◌≡◌, ◌≢◌, refl, ◌⊎◌, inl, List, [], ◌∷◌, ◌++◌, arith}
use mathlib.Core.List.{append_assoc, append-nil}
use spytester.CallbackHandler.{
  Phase, Handler, Step, Reach, waiting, looking, checking, calling, push, post, wait, take, return,
  drained, again, quit, stop, here, next, init, pushing,
}

module _ {ℓ} {C : Type ℓ} where
  -- The callback that is running.
  abbrev pub current : Phase C → List C
  current (calling c) = c ∷ []
  current _ = []

  -- A thread at `sem_wait` leaves a callback behind only with a post still to come. So it is before
  -- the test of `_running`, but for a callback pushed with its post on the way.
  abbrev pub Promise : Phase C → Handler C → Type ℓ
  Promise waiting s = (s.callbacks ≡ []) ⊎ (0 < s.sem + s.posting)
  Promise checking s = (s.callbacks ≡ []) ⊎ (0 < s.sem + s.posting)
  Promise _ s = Unit {ℓ}

  pub record Inv (s : Handler C) : Type ℓ where
    pub order : s.called ++ (current s.phase ++ s.callbacks) ≡ s.pushed
    pub promise : Promise s.phase s

  push-order :
      (a b d : List C) (c : C) (p : List C)
      → a ++ (b ++ d) ≡ p
      → a ++ (b ++ (d ++ c ∷ [])) ≡ p ++ c ∷ []
  push-order a b d c p e = simp (← e, append_assoc)

  push-Inv : (c : C) (s : Handler C) → s.phase ≢ looking → Inv s → Inv (pushing c s)
  push-Inv c s h v = record {
    order = push-order s.called (current s.phase) s.callbacks c s.pushed v.order;
    promise = ground arith;
  }

  pub Step-Inv : {s t : Handler C} → Step s t → Inv s → Inv t
  Step-Inv {s} (push c h) v = push-Inv c s h v
  Step-Inv (post n h) v = ground arith
  Step-Inv (wait n h e) v = ground arith
  Step-Inv (take c cs h e) v = ground arith
  Step-Inv {s} (return c h) v = ground (arith, append_assoc s.called (c ∷ []) s.callbacks)
  Step-Inv (drained h e) v = ground arith
  Step-Inv (again h e) v = ground arith
  Step-Inv (quit h e) v = ground arith
  Step-Inv stop v = ground arith

  pub init-Inv : Inv init
  unfolding init
  init-Inv = record { order = refl; promise = inl refl }

  pub Reach-Inv : {s t : Handler C} → Inv s → Reach s t → Inv t
  Reach-Inv v here = v
  Reach-Inv v (next r st) = Step-Inv st (Reach-Inv v r)

  -- In every state that can be reached, the callbacks that have returned, then the one that is
  -- running, then those in the queue are the callbacks pushed, in the order of the pushes: each
  -- runs once at most, in turn.
  pub Reach-fifo :
      (s : Handler C) → Reach init s → s.called ++ (current s.phase ++ s.callbacks) ≡ s.pushed
  Reach-fifo s r = (Reach-Inv init-Inv r).order

  -- If the thread is at `sem_wait` with no post made or on its way, every callback that was pushed
  -- has returned.
  pub Reach-none_forgotten :
      (s : Handler C)
      → Reach init s
      → s.phase ≡ waiting
      → s.sem + s.posting ≡ 0
      → s.called ≡ s.pushed
  Reach-none_forgotten s r p e = ground (arith, Reach-Inv init-Inv r, append-nil s.called)
