-- ===== src/CallbackHandler.antt =====
-- include/CallbackHandler.h and source/CallbackHandler.cpp: a queue of callbacks that one thread
-- runs. The class is a step relation between the states of its fields and of that thread; every
-- step is one critical section or one call of the source, and any thread may take the next one.
-- Callbacks are values of a parameter type: what they do is the client's.
mod Order
mod Shutdown
mod Tests
use spytester.Base.{ℕ, suc, ◌≡◌, ◌≢◌, Bool, true, false, List, [], ◌∷◌, ◌++◌}

module _ {ℓ} (C : Type ℓ) where
  -- Where the thread is in `handleCallback`: at `sem_wait`, at the inner loop's test with the mutex
  -- held, in a callback with the mutex released, before `if(!_running)`, or past the loop.
  pub data Phase : Type ℓ where
    waiting looking checking finished : Phase
    calling : C → Phase

  -- The fields, the number of threads between their unlock and their `sem_post`, and as ghost state
  -- the callbacks pushed and those that have returned, oldest first.
  pub record Handler : Type ℓ where
    pub running : Bool
    pub phase : Phase
    pub sem : ℕ
    pub posting : ℕ
    pub callbacks : List C
    pub pushed : List C
    pub called : List C

module _ {ℓ} {C : Type ℓ} where
  -- The constructor, which starts the thread.
  unfoldable pub init : Handler C
  init = record {
    running = true;
    phase = waiting;
    sem = 0;
    posting = 0;
    callbacks = [];
    pushed = [];
    called = [];
  }

  -- `executeCallback` up to the unlock.
  abbrev pub pushing : C → Handler C → Handler C
  pushing c s = record s {
    callbacks = s.callbacks ++ c ∷ [];
    pushed = s.pushed ++ c ∷ [];
    posting = suc s.posting;
  }

  pub data Step (s : Handler C) : Handler C → Type ℓ where
    push : (c : C) → s.phase ≢ looking → Step s (pushing c s)
    post : (n : ℕ) → s.posting ≡ suc n → Step s (record s { posting = n; sem = suc s.sem })
    wait :
        (n : ℕ) → s.phase ≡ waiting → s.sem ≡ suc n → Step s (record s { phase = looking; sem = n })
    take :
        (c : C) (cs : List C)
        → s.phase ≡ looking
        → s.callbacks ≡ c ∷ cs
        → Step s (record s { phase = calling c; callbacks = cs })
    return :
        (c : C)
        → s.phase ≡ calling c
        → Step s (record s { phase = looking; called = s.called ++ c ∷ [] })
    drained : s.phase ≡ looking → s.callbacks ≡ [] → Step s (record s { phase = checking })
    again : s.phase ≡ checking → s.running ≡ true → Step s (record s { phase = waiting })
    quit : s.phase ≡ checking → s.running ≡ false → Step s (record s { phase = finished })
    -- The destructor, with the post that follows.
    stop : Step s (record s { running = false; posting = suc s.posting })

  pub data Reach (s : Handler C) : Handler C → Type ℓ where
    here : Reach s s
    next : {t u : Handler C} → Reach s t → Step t u → Reach s u
