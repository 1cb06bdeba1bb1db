-- ===== src/SpiedProgram/Threads.antt =====
-- source/SpiedProgram.cpp: which threads the program knows of.
use spytester.Base.{
  ℕ, ◌≡◌, ◌||◌, inl, inr, refl, sym, ap, ◌∙◌, Bool, true, false, Bool-cases, List, [], ◌∷◌, ◌++◌,
  map, Option, none, some, ◌==◌, if◌then◌else◌, arith,
}
use mathlib.Core.Option
use mathlib.Core.Bool.{false≢true}
use mathlib.Core.List.{map-append}
use spytester.Tracer.{Request, Reply}
use spytester.Context.{Context, thread_created, execute_callback}
use spytester.SpiedThread.{Thread, World, new}
use spytester.SpiedThread.Event.{Dladdr, deliver}
use spytester.SpiedThread.Identity.{deliver-tid}
use spytester.SpiedProgram.{
  Program, WaitMacros, decode, with_thread, created, add_thread, found_or_new, listen_one, listen,
}

abbrev pub tids : List Thread → List ℕ
tids = map λ t. t.tid

-- `find_if` by tid, as a test.
unfoldable pub member : ℕ → List ℕ → Bool
member k [] = false
member k (x ∷ xs) = k == x || member k xs

-- The tids that a run of wait statuses makes known, in the order of their first appearance.
unfoldable pub note : ℕ → ℕ → List ℕ → List ℕ
note pid tid known =
    if tid == pid then known else if member tid known then known else known ++ tid ∷ []

unfoldable pub notes : ℕ → List (ℕ × ℕ) → List ℕ → List ℕ
notes pid [] known = known
notes pid ((tid, ws) ∷ es) known = notes pid es (note pid tid known)

-- No tid is listed twice, and none is the starter's.
abbrev pub Distinct : ℕ → List ℕ → Type 0
Distinct pid [] = Unit {0}
Distinct pid (k ∷ ks) = ((k == pid) ≡ false) × (member k ks ≡ false) × Distinct pid ks

member-append :
    (k x : ℕ) (xs : List ℕ)
    → (k == x) ≡ false
    → member k xs ≡ false
    → member k (xs ++ x ∷ []) ≡ false
unfolding member
member-append k x [] ne h = rw ne
member-append k x (y ∷ ys) ne h = ground (arith, member-append k x ys ne)

append-Distinct :
    (pid x : ℕ) (xs : List ℕ)
    → Distinct pid xs
    → (x == pid) ≡ false
    → member x xs ≡ false
    → Distinct pid (xs ++ x ∷ [])
unfolding member
append-Distinct pid x [] d ne h = (ne, refl, tt)
append-Distinct pid x (y ∷ ys) d ne h =
    (d.0, member-append y x ys (ground arith) d.1, append-Distinct pid x ys d.2 ne (ground arith))

note-Distinct :
    (pid tid : ℕ) (known : List ℕ) → Distinct pid known → Distinct pid (note pid tid known)
unfolding note
note-Distinct pid tid known d = elim (Bool-cases (tid == pid)) [
  | inl e ↦ rw e d
  | inr e ↦ elim (Bool-cases (member tid known)) [
    | inl old ↦ rw (e, old) d
    | inr new_tid ↦ rw (e, new_tid) (append-Distinct pid tid known d e new_tid)
  ]
]

notes-Distinct :
    (pid : ℕ) (es : List (ℕ × ℕ)) (known : List ℕ)
    → Distinct pid known
    → Distinct pid (notes pid es known)
unfolding notes
notes-Distinct pid [] known d = d
notes-Distinct pid ((tid, ws) ∷ es) known d =
    notes-Distinct pid es (note pid tid known) (note-Distinct pid tid known d)

module _ {M : Type 0} where
  -- What `with_thread` returns, over a list of which the tids are known.
  WithThread : ℕ → List ℕ → Option (Context M × List Thread) → Type 0
  WithThread tid known none = member tid known ≡ false
  WithThread tid known (some (ctx, ts)) = (member tid known ≡ true) × (tids ts ≡ known)

  WithThread-later :
      (tid : ℕ) (t : Thread) (known : List ℕ) (o : Option (Context M × List Thread))
      → (tid == t.tid) ≡ false
      → WithThread tid known o
      → WithThread tid (t.tid ∷ known) (Option.map (λ (c, rest). (c, t ∷ rest)) o)
  unfolding WithThread member
  WithThread-later tid t known none e h = rw e h
  WithThread-later tid t known (some (c, ts)) e h = (rw e h.0, ap (λ l. t.tid ∷ l) h.1)

  with_thread-WithThread :
      (tid : ℕ) (f : World M → World M) (ctx : Context M) (ts : List Thread)
      → ((w : World M) → (f w).thread.tid ≡ w.thread.tid)
      → WithThread tid (tids ts) (with_thread tid f ctx ts)
  unfolding with_thread
  with_thread-WithThread tid f ctx [] keep = unfold WithThread member in refl
  with_thread-WithThread tid f ctx (t ∷ ts) keep = elim (Bool-cases (tid == t.tid)) [
    | inl e ↦ rw e (unfold WithThread member in (rw e, ap (λ k. k ∷ tids ts) (keep _)))
    | inr e ↦ rw e (WithThread-later tid t (tids ts) _ e (with_thread-WithThread tid f ctx ts keep))
  ]

  WithThread-none :
      (tid : ℕ) (known : List ℕ) (o : Option (Context M × List Thread))
      → WithThread tid known o
      → member tid known ≡ false
      → o ≡ none
  unfolding WithThread
  WithThread-none tid known none h e = refl
  WithThread-none tid known (some (ctx, ts)) h e = absurd (false≢true (sym e ∙ h.0))

  found_or_new-tids :
      (tid : ℕ) (o : Option (Context M × List Thread)) (p : Program M)
      → WithThread tid (tids p.threads) o
      → tids (found_or_new tid o p).threads
        ≡ (if member tid (tids p.threads) then tids p.threads else tids p.threads ++ tid ∷ [])
  unfolding found_or_new add_thread WithThread new
  found_or_new-tids tid none p h = rw h (map-append _ p.threads (new tid ∷ []))
  found_or_new-tids tid (some (ctx, ts)) p h = rw h.0 h.1

  found_or_new-pid :
      (tid : ℕ) (o : Option (Context M × List Thread)) (p : Program M)
      → (found_or_new tid o p).pid ≡ p.pid
  unfolding found_or_new add_thread
  found_or_new-pid tid none p = refl
  found_or_new-pid tid (some (ctx, ts)) p = refl

module _ {M : Type 0} (exec : M → Request → M × Reply) (dladdr : Dladdr) (m : WaitMacros) where
  delivered :
      (tid ws : ℕ) (p : Program M)
      → WithThread tid
          (tids p.threads)
          (with_thread tid (deliver exec dladdr p.break_points (decode m ws)) p.ctx p.threads)
  delivered tid ws p =
      with_thread-WithThread tid _ p.ctx p.threads
        (deliver-tid exec dladdr p.break_points (decode m ws))

  listen_one-tids :
      (tid ws : ℕ) (p : Program M)
      → (tids (listen_one exec dladdr m (tid, ws) p).threads ≡ note p.pid tid (tids p.threads))
        × ((listen_one exec dladdr m (tid, ws) p).pid ≡ p.pid)
  unfolding listen_one note
  listen_one-tids tid ws p = elim (Bool-cases (tid == p.pid)) [
    | inl e ↦ rw e (refl, refl)
    | inr e ↦ rw e (found_or_new-tids tid _ p (delivered tid ws p), found_or_new-pid tid _ p)
  ]

  -- After any run of wait statuses, the known threads are those known before and then one for each
  -- other tid that was reported, but for the starter's, in the order of their first reports.
  pub listen-tids :
      (es : List (ℕ × ℕ)) (p : Program M)
      → tids (listen exec dladdr m es p).threads ≡ notes p.pid es (tids p.threads)
  unfolding listen notes
  listen-tids [] p = refl
  listen-tids ((tid, ws) ∷ es) p =
      let (known, same) = listen_one-tids tid ws p in
      listen-tids es (listen_one exec dladdr m (tid, ws) p) ∙ rw (known, same)

  -- If the known threads have different tids, none of them the starter's, this stays so after any
  -- run of wait statuses.
  listen-Distinct :
      (es : List (ℕ × ℕ)) (p : Program M)
      → Distinct p.pid (tids p.threads)
      → Distinct p.pid (tids (listen exec dladdr m es p).threads)
  listen-Distinct es p d = rw (listen-tids es p) (notes-Distinct p.pid es (tids p.threads) d)

  -- The first status of a tid, whatever it says, only makes the thread known, in the state that the
  -- constructor gives it, which is stopped, and queues the creation callback if there is one. The
  -- event itself, be it the thread's end, is not handled.
  listen_one-new :
      (tid ws : ℕ) (p : Program M)
      → (tid == p.pid) ≡ false
      → member tid (tids p.threads) ≡ false
      → let p' = listen_one exec dladdr m (tid, ws) p in
        (p'.threads ≡ p.threads ++ new tid ∷ [])
        × (p'.ctx ≡ (if p.on_creation then execute_callback (thread_created tid) p.ctx else p.ctx))
  unfolding listen_one found_or_new add_thread
  listen_one-new tid ws p ne h =
      rw (ne, WithThread-none tid (tids p.threads) _ (delivered tid ws p) h)
        (refl, created_lem p.on_creation)
    where
      created_lem :
          (b : Bool)
          → created b tid p.ctx ≡ (if b then execute_callback (thread_created tid) p.ctx else p.ctx)
      created_lem true = refl
      created_lem false = refl
