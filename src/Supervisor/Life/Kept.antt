-- ===== src/Supervisor/Life/Kept.antt =====
-- The worker after a run (native/src/supervisor.rs).
use repl_mcp.Supervisor.Life.{
  Texts, Course, Life, Execution, Report, run_on, Worker, conclude, dispatch, after_wait, report_of,
  next_generation, with_worker, execute_inner, stop_old, not_sent, has_moved, gates_of, fresh_child,
  own_worker, NotStarted,
}
use repl_mcp.Base.{
  Option, ◌≡◌, false, Bool, ◌⊎◌, Result-cases, some, Bool-cases, inl, true, none, inr, refl, [], ok,
  ◌∙◌, ap, not, ◌&&◌, sym, arith, Result, subst, if◌then◌else◌, ◌>>=◌, err,
}
use repl_mcp.Supervisor.Execute.{Conclusion, Streams, await_result, pass_gates}

-- A report that says preserved leaves the worker in the slot, one that says cleared does not.
abbrev IsEnded : Life → Option Worker → Worker → Report × Life → Type 0
IsEnded l rest w (r, l') =
    ((r.cleared ≡ false) × (l' ≡ record l { slot = some w }))
    ⊎ ((r.cleared ≡ true) × (l' ≡ record l { slot = rest }))

-- What a run has done to the life of the persistent worker.
abbrev pub Ending : Course → Life → Report × Life → Type 0
Ending c l (r, l') =
    ((r.cleared ≡ false) × (l' ≡ l))
    ⊎ ((r.cleared ≡ true) × (l'.slot ≡ none))
    ⊎ ((r.cleared ≡ false)
        × ((w : Worker) × (c.spawned ≡ ok w)
            × (l' ≡ record { slot = some w; generation = next_generation l.generation })))

module _ (texts : Texts) (x : Execution) (c : Course) where
  conclude-IsEnded :
      (l : Life) (rest : Option Worker) (restarted : Bool) (w : Worker) (r : Report) (out : Streams)
      → x.fresh ≡ false
      → IsEnded l rest w (conclude texts x c l rest restarted w (r, out))
  unfolding conclude
  conclude-IsEnded l rest restarted w r out persistent = elim (Bool-cases r.cleared) [
    | inl gone ↦ rw (persistent, gone) (inr (refl, refl))
    | inr kept ↦ rw (persistent, kept) (inl (refl, refl))
  ]

  after_wait-IsEnded :
      (l : Life) (rest : Option Worker) (restarted : Bool) (w : Worker)
      (o : Option (Conclusion × Streams))
      → x.fresh ≡ false
      → IsEnded l rest w (after_wait texts x c l rest restarted w o)
  after_wait-IsEnded l rest restarted w none persistent = rw persistent (inr (refl, refl))
  after_wait-IsEnded l rest restarted w (some (ending, out)) persistent =
      conclude-IsEnded l rest restarted w (report_of texts l ending) out persistent

  dispatch-IsEnded :
      (l : Life) (rest : Option Worker) (restarted : Bool) (w : Worker)
      → x.fresh ≡ false
      → IsEnded l rest w (dispatch texts x c l rest restarted w)
  unfolding dispatch
  dispatch-IsEnded l rest restarted w persistent = elim (Result-cases c.sent) [
    | inl (u, e) ↦
        rw (e, dispatch)
          (after_wait-IsEnded l rest restarted w (await_result x.id c.happenings ([], []))
            persistent)
    | inr (e, failed) ↦
        rw (failed, dispatch)
          (conclude-IsEnded l rest restarted w (not_sent e l) ([], []) persistent)
  ]

  run_on-IsEnded :
      (l : Life) (rest : Option Worker) (restarted : Bool) (w : Worker)
      → x.fresh ≡ false
      → IsEnded l rest w (run_on texts x c l rest restarted w)
  unfolding run_on
  run_on-IsEnded l rest restarted w persistent =
      elim (Bool-cases (not x.reset && has_moved x.expected_generation l.generation)) [
        | inl moved ↦ rw (persistent, moved, run_on) (inl (refl, refl))
        | inr same ↦ elim (Bool-cases c.cancelled_late) [
          | inl late ↦ rw (persistent, same, late, run_on) (inl (refl, refl))
          | inr on ↦
              simp (persistent, same, on, run_on) (dispatch-IsEnded l rest restarted w persistent)
        ]
      ]

  -- A worker that was in the slot is kept or gone, a new one is in the slot or gone.
  kept-Ending :
      (l : Life) (w : Worker) (out : Report × Life)
      → l.slot ≡ some w
      → IsEnded (record l { slot = none }) none w out
      → Ending c l out
  kept-Ending l w out there (inl (kept, e)) =
      inl (kept, e ∙ ap (λ (o : Option Worker). record l { slot = o }) (sym there))
  kept-Ending l w out there (inr (gone, e)) = inr (inl (gone, ap (λ (m : Life). m.slot) e))

  started-Ending :
      (l : Life) (w : Worker) (out : Report × Life)
      → c.spawned ≡ ok w
      → IsEnded (record { slot = none; generation = next_generation l.generation }) none w out
      → Ending c l out
  started-Ending l w out new (inl (kept, e)) = inr (inr (kept, (w, new, e)))
  started-Ending l w out new (inr (gone, e)) = inr (inl (gone, ap (λ (m : Life). m.slot) e))

  own_worker-Ending :
      (l : Life) (new : Result NotStarted Worker)
      → x.fresh ≡ false
      → c.spawned ≡ new
      → Ending c l (own_worker texts x c l true (new >>= λ w. ok (w, next_generation l.generation)))
  own_worker-Ending l (err e) persistent same = inr (inl (refl, refl))
  own_worker-Ending l (ok w) persistent same =
      let m : Life = record { slot = none; generation = next_generation l.generation } in
      started-Ending l w (run_on texts x c m none true w) same
        (run_on-IsEnded m none true w persistent)

  with_worker-Ending :
      (l : Life) (slot : Option Worker)
      → x.fresh ≡ false
      → (slot ≡ l.slot) ⊎ (slot ≡ none)
      → Ending c l (with_worker texts x c l slot)
  unfolding with_worker
  with_worker-Ending l (some w) persistent (inl same) =
      subst
        (λ b. Ending c l (
          if b
          then fresh_child texts x c l (some w) c.spawned
          else own_worker texts x c l false (ok (w, l.generation))))
        (sym persistent)
        (kept-Ending l w (run_on texts x c (record l { slot = none }) none false w) (sym same)
          (run_on-IsEnded (record l { slot = none }) none false w persistent))
  with_worker-Ending l (some w) persistent (inr e) = absurd (ground (arith, e))
  with_worker-Ending l none persistent from =
      subst
        (λ b. Ending c l (
          if b
          then fresh_child texts x c l none c.spawned
          else own_worker texts x c l true
              (c.spawned >>= λ w. ok (w, next_generation l.generation))))
        (sym persistent) (own_worker-Ending l c.spawned persistent refl)

  stop_old-slot : (slot : Option Worker) → (stop_old x slot ≡ slot) ⊎ (stop_old x slot ≡ none)
  unfolding stop_old
  stop_old-slot none = ground arith
  stop_old-slot (some w) = ground arith

  -- A run of the persistent worker that says that the state is preserved leaves the life of the worker
  -- as it found it, or with a worker that it started and the next generation; one that says that
  -- the state is cleared leaves no worker.
  pub execute_inner-Ending : (l : Life) → x.fresh ≡ false → Ending c l (execute_inner texts x c l)
  unfolding execute_inner
  execute_inner-Ending l persistent = elim (Result-cases (pass_gates (gates_of x c l))) [
    | inl (u, e) ↦
        rw (e, execute_inner)
          (with_worker-Ending l (stop_old x l.slot) persistent (stop_old-slot l.slot))
    | inr (fault, e) ↦ rw (e, execute_inner) (inl (refl, refl))
  ]
