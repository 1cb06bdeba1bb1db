-- ===== src/Context.antt =====
-- What the parts of a spied program share: the tracer, and the queue of callbacks that
-- `CallbackHandler::executeCallback` fills. CallbackHandler has the thread that empties it.
use spytester.Base.{ℕ, List, [], ◌∷◌, ◌++◌}
use spytester.Tracer.{Tracer}

-- The callbacks that the program queues, by the object that queues them: SpiedProgram::listenEvent,
-- WatchPoint::hit and BreakPoint::hit.
pub data Callback : Type 0 where
  thread_created : ℕ → Callback  -- tid
  watch_hit : ℕ → ℕ → Callback  -- tid, slot
  break_hit : ℕ → ℕ → Callback  -- address, tid

pub record Context (M : Type 0) : Type 0 where
  pub tracer : Tracer M
  pub callbacks : List Callback

unfoldable pub execute_callback : {M : Type 0} → Callback → Context M → Context M
execute_callback c ctx = record ctx { callbacks = ctx.callbacks ++ c ∷ [] }
