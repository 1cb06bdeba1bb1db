-- ===== src/SpiedThread/Slots.antt =====
-- source/SpiedThread.cpp: `createWatchPoint` and `deleteWatchPoint`. A pointer to a watchpoint of
-- the thread is the number of its slot.
use spytester.Base.{
  ℕ, ◌≡◌, refl, ◌∙◌, Bool, false, List, [], ◌∷◌, Option, none, some, ◌==◌, if◌then◌else◌, arith,
}
use spytester.Tracer.{Request, Reply, Tracer}
use spytester.Context.{Context}
use spytester.WatchPoint
use spytester.WatchPoint.{WatchPoint}
use spytester.SpiedThread.{World, new}

unfoldable pub first_free : List (WatchPoint × Bool) → Option ℕ
first_free [] = none
first_free ((wp, used) ∷ rest) = if used then first_free rest else some wp.idx

-- `createWatchPoint` changes nothing: no code sets the mark of a slot that is handed out.
unfoldable pub create_watch_point : {M : Type 0} → World M → World M × Option ℕ
create_watch_point w = (w, first_free w.thread.watch_points)

module _ {M : Type 0} (exec : M → Request → M × Reply) where
  unfoldable pub delete_from :
      ℕ → ℕ → Tracer M → List (WatchPoint × Bool) → Tracer M × List (WatchPoint × Bool)
  delete_from tid p t [] = (t, [])
  delete_from tid p t ((wp, used) ∷ rest) =
      let (t1, wp1, _) = WatchPoint.unset exec t tid wp in
      let (t2, rest2) = delete_from tid p t rest in
      if wp.idx == p then (t1, (wp1, false) ∷ rest) else (t2, (wp, used) ∷ rest2)

  unfoldable pub delete_watch_point : ℕ → World M → World M
  unfolding delete_from
  delete_watch_point p w =
      let (t, wps) = delete_from w.thread.tid p w.ctx.tracer w.thread.watch_points in
      record w {
        ctx = record w.ctx { tracer = t };
        thread = record w.thread { watch_points = wps };
      }

  -- The calls that a client can make on the slots, and what a history of them leads to.
  pub data Call : Type 0 where
    create : Call
    delete : ℕ → Call

  unfoldable pub call : Call → World M → World M
  call create w = (create_watch_point w).0
  call (delete p) w = delete_watch_point p w

  unfoldable pub calls : List Call → World M → World M
  calls [] w = w
  calls (c ∷ cs) w = calls cs (call c w)

  -- No slot is marked as in use.
  abbrev Free : List (WatchPoint × Bool) → Type 0
  Free [] = Unit {0}
  Free ((wp, used) ∷ rest) = (used ≡ false) × Free rest

  abbrev first_idx : List (WatchPoint × Bool) → Option ℕ
  first_idx [] = none
  first_idx ((wp, used) ∷ rest) = some wp.idx

  unset-idx :
      (t : Tracer M) (tid : ℕ) (wp : WatchPoint) → (WatchPoint.unset exec t tid wp).1.idx ≡ wp.idx
  unfolding WatchPoint.unset
  unset-idx t tid wp = ground arith

  delete_from-Free :
      (tid p : ℕ) (t : Tracer M) (wps : List (WatchPoint × Bool))
      → Free wps
      → Free (delete_from tid p t wps).1
  unfolding delete_from
  delete_from-Free tid p t [] f = tt
  delete_from-Free tid p t ((wp, used) ∷ rest) f = ground (arith, delete_from-Free tid p t rest f.1)

  delete_from-first :
      (tid p : ℕ) (t : Tracer M) (wps : List (WatchPoint × Bool))
      → first_idx (delete_from tid p t wps).1 ≡ first_idx wps
  unfolding delete_from
  delete_from-first tid p t [] = refl
  delete_from-first tid p t ((wp, used) ∷ rest) = ground (arith, unset-idx t tid wp)

  record Unmarked (w : World M) : Type 0 where
    free : Free w.thread.watch_points
    first : first_idx w.thread.watch_points ≡ some 0

  call-Unmarked : (c : Call) (w : World M) → Unmarked w → Unmarked (call c w)
  unfolding call create_watch_point delete_watch_point
  call-Unmarked create w u = u
  call-Unmarked (delete p) w u = record {
    free = delete_from-Free w.thread.tid p w.ctx.tracer w.thread.watch_points u.free;
    first = delete_from-first w.thread.tid p w.ctx.tracer w.thread.watch_points ∙ u.first;
  }

  calls-Unmarked : (cs : List Call) (w : World M) → Unmarked w → Unmarked (calls cs w)
  unfolding calls
  calls-Unmarked [] w u = u
  calls-Unmarked (c ∷ cs) w u = calls-Unmarked cs (call c w) (call-Unmarked c w u)

  first_free-Free : (wps : List (WatchPoint × Bool)) → Free wps → first_free wps ≡ first_idx wps
  unfolding first_free
  first_free-Free [] f = refl
  first_free-Free ((wp, used) ∷ rest) f = rw f.0

  -- A thread as the constructor leaves it.
  abbrev pub fresh : Context M → ℕ → World M
  fresh ctx tid = record { ctx = ctx; thread = new tid }

  new-Unmarked : (ctx : Context M) (tid : ℕ) → Unmarked (fresh ctx tid)
  unfolding new WatchPoint.new
  new-Unmarked ctx tid = record { free = (refl, (refl, (refl, (refl, tt)))); first = refl }

  -- From a new thread on, whatever watchpoints were created and deleted before, `createWatchPoint`
  -- returns slot 0: the other three slots are never handed out, and two calls return the same
  -- watchpoint.
  pub create_watch_point-calls :
      (cs : List Call) (ctx : Context M) (tid : ℕ)
      → (create_watch_point (calls cs (fresh ctx tid))).1 ≡ some 0
  unfolding create_watch_point
  create_watch_point-calls cs ctx tid =
      let u = calls-Unmarked cs (fresh ctx tid) (new-Unmarked ctx tid) in
      first_free-Free (calls cs (fresh ctx tid)).thread.watch_points u.free ∙ u.first
