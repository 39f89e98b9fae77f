-- ===== src/Supervisor/Life/Generation.antt =====
-- The generation that a run is sent to, and fresh runs (native/src/supervisor.rs).
use repl_mcp.Supervisor.Life.{
  NotStarted, Life, Texts, Execution, Report, Course, execute_inner, conclude, dispatch, Worker,
  run_on, stop_old, with_worker, after_wait, report_of, has_moved, not_sent, gates_of, drop_dead,
  fresh_child, own_worker, is_none, fill_slot, next_generation,
}
use repl_mcp.Base.{
  ℕ, ◌+◌, ◌%◌, ◌≡◌, ◌^◌, false, Option, Bool, ◌≢◌, if◌then◌else◌, true, Result-cases, arith, ap,
  ◌||◌, some, inl, not, [], none, ◌&&◌, inr, refl, Result, subst, err, ok, sym, false≢true, ◌<◌,
  ◌⊎◌, ◌>>=◌, ◌==◌, Bool-cases, lt→ltb, nat_eq,
}
use repl_mcp.Supervisor.Execute.{Streams, Conclusion, await_result, pass_gates, is_stale, Gates}

-- The result says preserved, and the life of the persistent worker is as it was.
abbrev pub IsPreserved : Life → Report × Life → Type 0
IsPreserved l (r, l') = (r.cleared ≡ false) × (l' ≡ l)

-- The future of the run was dropped while its worker was started.
abbrev pub WasDropped : Result NotStarted Worker → Type 0
WasDropped new = (e : NotStarted) × (new ≡ err e) × (e.dropped ≡ true)

-- The same, but for the result of a run that was dropped while its worker was started.
abbrev pub IsApart : Course → Life → Report × Life → Type 0
IsApart c l (r, l') = ((r.cleared ≡ false) ⊎ WasDropped c.spawned) × (l' ≡ l)

next_generation_other : (g : ℕ) → (g + 1) % 2 ^ 64 ≢ g
next_generation_other g h = omega arith

pass_gates_passed :
    (g : Gates) {u : Unit {0}}
    → pass_gates g ≡ ok u
    → is_stale g.expected_generation g.generation ≡ false
unfolding pass_gates
pass_gates_passed g e = ground (arith, e)

module _ (texts : Texts) (x : Execution) (c : Course) where
  either-IsPreserved :
      (l : Life) (b : Bool) (p q : Report × Life)
      → IsPreserved l p
      → IsPreserved l q
      → IsPreserved l (if b then p else q)
  either-IsPreserved l true p q first second = first
  either-IsPreserved l false p q first second = second

  slot_of_fresh :
      (slot other : Option Worker) (b : Bool)
      → x.fresh ≡ true
      → (if x.fresh || b then slot else other) ≡ slot
  slot_of_fresh slot other b fresh = ground (arith, fresh)

  conclude-IsPreserved :
      (l : Life) (w : Worker) (r : Report) (out : Streams)
      → x.fresh ≡ true
      → IsPreserved l (conclude texts x c l l.slot false w (r, out))
  unfolding conclude
  conclude-IsPreserved l w r out fresh = (
    ground (arith, fresh),
    ap (λ (o : Option Worker). record l { slot = o })
        (slot_of_fresh l.slot (some w) r.cleared fresh),
  )

  after_wait-IsPreserved :
      (l : Life) (w : Worker) (o : Option (Conclusion × Streams))
      → x.fresh ≡ true
      → IsPreserved l (after_wait texts x c l l.slot false w o)
  after_wait-IsPreserved l w none fresh = (ground (arith, fresh), refl)
  after_wait-IsPreserved l w (some (ending, out)) fresh =
      conclude-IsPreserved l w (report_of texts l ending) out fresh

  dispatch-IsPreserved :
      (l : Life) (w : Worker) → x.fresh ≡ true → IsPreserved l (dispatch texts x c l l.slot false w)
  unfolding dispatch
  dispatch-IsPreserved l w fresh = elim (Result-cases c.sent) [
    | inl (u, e) ↦
        simp (e, dispatch)
          (after_wait-IsPreserved l w (await_result x.id c.happenings ([], [])) fresh)
    | inr (e, failed) ↦
        simp (failed, dispatch) (conclude-IsPreserved l w (not_sent e l) ([], []) fresh)
  ]

  run_on-IsPreserved :
      (l : Life) (w : Worker) → x.fresh ≡ true → IsPreserved l (run_on texts x c l l.slot false w)
  unfolding run_on
  run_on-IsPreserved l w fresh =
      let back = ap (λ (b : Bool). record l { slot = if b then l.slot else some w }) fresh in
      either-IsPreserved l
        (not x.fresh && (not x.reset && has_moved x.expected_generation l.generation)) _ _
        (refl, back)
        (either-IsPreserved l c.cancelled_late _ _ (refl, back) (dispatch-IsPreserved l w fresh))

  fresh_child-IsApart :
      (l : Life) (new : Result NotStarted Worker)
      → c.spawned ≡ new
      → x.fresh ≡ true
      → IsApart c l (fresh_child texts x c l l.slot new)
  fresh_child-IsApart l (err e) gives fresh = elim (Bool-cases e.dropped) [
    | inl dropped ↦ (inr (e, gives, dropped), refl)
    | inr failed ↦ (inl failed, refl)
  ]
  fresh_child-IsApart l (ok w) gives fresh =
      let kept = run_on-IsPreserved l w fresh in (inl kept.0, kept.1)

  with_worker-IsApart :
      (l : Life) → x.fresh ≡ true → IsApart c l (with_worker texts x c l (stop_old x l.slot))
  unfolding with_worker stop_old
  with_worker-IsApart l fresh =
      subst
        (λ (b : Bool). IsApart c l (
          let slot = (if b then l.slot else if x.reset then none else drop_dead l.slot) in
          if b
          then fresh_child texts x c l slot c.spawned
          else own_worker texts x c l (is_none slot) (fill_slot c l slot)))
        (sym fresh) (fresh_child-IsApart l c.spawned refl fresh)

  -- A fresh run leaves the persistent worker and its generation as they are, whatever becomes of it, and
  -- its result says that the state is preserved, unless its future was dropped while its worker was
  -- started: the record of such a run may say that the state is cleared.
  pub fresh-IsApart : (l : Life) → x.fresh ≡ true → IsApart c l (execute_inner texts x c l)
  unfolding execute_inner
  fresh-IsApart l fresh = elim (Result-cases (pass_gates (gates_of x c l))) [
    | inl (u, e) ↦ simp (e, execute_inner) (with_worker-IsApart l fresh)
    | inr (fault, e) ↦ simp (e, execute_inner) (inl refl, refl)
  ]

  -- The result of a run with the generation that it expects, and its worker.
  abbrev HasState : ℕ → Life → Report × Life → Type 0
  HasState expected l (r, l') =
      r.dispatched ≡ true
      → (l.generation ≡ expected) × ((w : Worker) × (l.slot ≡ some w) × (w.live ≡ true))

  moved-HasState :
      (expected : ℕ) (l m : Life) (w : Worker)
      → x.fresh ≡ false
      → (not x.reset && has_moved x.expected_generation m.generation) ≡ true
      → HasState expected l (run_on texts x c m none true w)
  unfolding run_on
  moved-HasState expected l m w persistent moved =
      simp (persistent, moved, run_on) (λ sent. absurd (false≢true sent))

  started-HasState :
      (expected : ℕ) (l : Life) (new : Result NotStarted Worker)
      → x.fresh ≡ false
      → (not x.reset && has_moved x.expected_generation (next_generation l.generation)) ≡ true
      → HasState expected l
          (own_worker texts x c l true (new >>= λ w. ok (w, next_generation l.generation)))
  started-HasState expected l (err e) persistent moved = λ sent. absurd (false≢true sent)
  started-HasState expected l (ok w) persistent moved =
      moved-HasState expected l (record { slot = none; generation = next_generation l.generation })
        w persistent moved

  has_moved_next :
      (expected : ℕ) (l : Life)
      → x.reset ≡ false
      → x.expected_generation ≡ some expected
      → l.generation ≡ expected
      → 0 < expected
      → (not x.reset && has_moved x.expected_generation (next_generation l.generation)) ≡ true
  has_moved_next expected l keep expects same positive =
      let other : (expected == next_generation l.generation) ≡ false =
        ground (arith, same, next_generation_other l.generation) in
      simp (keep, expects, lt→ltb 0 expected positive, other) refl

  with_worker-HasState :
      (expected : ℕ) (l : Life) (slot : Option Worker)
      → l.slot ≡ slot
      → x.fresh ≡ false
      → x.reset ≡ false
      → x.expected_generation ≡ some expected
      → l.generation ≡ expected
      → 0 < expected
      → HasState expected l
          (own_worker texts x c l (is_none (drop_dead slot)) (fill_slot c l (drop_dead slot)))
  with_worker-HasState expected l none there persistent keep expects same positive =
      started-HasState expected l c.spawned persistent
        (has_moved_next expected l keep expects same positive)
  with_worker-HasState expected l (some w) there persistent keep expects same positive =
      elim (Bool-cases w.live) [
        | inl live ↦ λ _. (same, (w, there, live))
        | inr dead ↦ simp dead (
            started-HasState expected l c.spawned persistent
              (has_moved_next expected l keep expects same positive))
      ]

  is_stale-same : (expected g : ℕ) → is_stale (some expected) g ≡ false → g ≡ expected
  is_stale-same expected g h = ground (arith, h)

  execute_inner-HasState :
      (expected : ℕ) (l : Life)
      → x.fresh ≡ false
      → x.reset ≡ false
      → x.expected_generation ≡ some expected
      → 0 < expected
      → HasState expected l (execute_inner texts x c l)
  unfolding execute_inner with_worker stop_old
  execute_inner-HasState expected l persistent keep expects positive =
      elim (Result-cases (pass_gates (gates_of x c l))) [
        | inl (u, e) ↦
            let same = is_stale-same expected l.generation (
              subst (λ o. is_stale o l.generation ≡ false) expects
                (pass_gates_passed (gates_of x c l) e)) in
            simp (e, persistent, keep, execute_inner, with_worker, stop_old)
              (with_worker-HasState expected l l.slot refl persistent keep expects same positive)
        | inr (fault, e) ↦ simp (e, execute_inner) (λ sent. absurd (false≢true sent))
      ]

  pub dispatched_lem :
      (expected : ℕ) (l l' : Life) (r : Report)
      → x.fresh ≡ false
      → x.reset ≡ false
      → x.expected_generation ≡ some expected
      → 0 < expected
      → execute_inner texts x c l ≡ (r, l')
      → r.dispatched ≡ true
      → (l.generation ≡ expected) × ((w : Worker) × (l.slot ≡ some w) × (w.live ≡ true))
  dispatched_lem expected l l' r persistent keep expects positive ends sent =
      subst (HasState expected l) ends
        (execute_inner-HasState expected l persistent keep expects positive) sent
