-- ===== src/SpiedProgram/Ending.antt =====
-- source/SpiedProgram.cpp: `start` and the destructor, over whether `_eventListener` holds a thread. A
-- std::thread that is overwritten while it holds one, or joined while it holds none, ends the
-- process. The listening thread goes on until `waitpid` fails, with the statuses that come by then.
use spytester.Base.{ℕ, ◌≡◌, List, []}
use spytester.Tracer.{Request, Reply}
use spytester.SpiedThread.Event.{Dladdr}
use spytester.SpiedProgram.{Program, WaitMacros, listen}
use spytester.SpiedProgram.Threads.{tids, notes, listen-tids}

pub data Listener : Type 0 where
  not_started listening killed : Listener

unfoldable pub start_listener : Listener → Listener
start_listener not_started = listening
start_listener listening = killed
start_listener killed = killed

pub data ProgramEnd (M : Type 0) : Type 0 where
  process_ends : ProgramEnd M
  joined : Program M → ProgramEnd M

module _ {M : Type 0} (exec : M → Request → M × Reply) (dladdr : Dladdr) (m : WaitMacros) where
  -- The destructor's body, with the statuses that come after it has cleared the two vectors.
  unfoldable pub destroy_program : Listener → List (ℕ × ℕ) → Program M → ProgramEnd M
  destroy_program listening es p =
      joined (listen exec dladdr m es (record p { break_points = []; threads = [] }))
  destroy_program _ es p = process_ends

  -- The threads that a program ends with.
  abbrev tids_at_end : ProgramEnd M → List ℕ
  tids_at_end process_ends = []
  tids_at_end (joined p) = tids p.threads

  -- A thread of which a status comes after the clearing is made known again, as if it were new.
  destroy_program-tids :
      (es : List (ℕ × ℕ)) (p : Program M)
      → tids_at_end (destroy_program (start_listener not_started) es p) ≡ notes p.pid es []
  unfolding destroy_program start_listener
  destroy_program-tids es p =
      listen-tids exec dladdr m es (record p { break_points = []; threads = [] })
