-- ===== src/Broker/Writer/Awake.antt =====
-- The callers that wait for the journal's writer (native/src/broker.rs).
use repl_mcp.Broker.Writer.{
  enable, configure, sleep, wake, change, ask, pick, copy, replace, fail_copy, fail_write, finish,
  at_start, after,
}
use repl_mcp.Base.{Memᴰ, All-Mem, ◌≢◌, false≢true, sym}
use repl_mcp.Broker.Writer.{
  answer, World, request, schedule, end_round, Io, Reachable, complete, give, after, stopped,
  notify, Step, change, configure, ask,
}
use repl_mcp.Base.{ℕ, Bool, ◌≡◌, List, some, false, All, ◌≤◌, ◌∷◌, none, ◌<◌, arith, [], true, refl}
use repl_mcp.Broker.Writer.Durable.{Ample, Ample-before, Reachable-IsSound, IsSound, Given, At-task}

abbrev Within : ℕ → List ℕ → Type 0
Within n ts = All (λ t. t ≤ n) ts

Within-more : (n m : ℕ) (ts : List ℕ) → n ≤ m → Within n ts → Within m ts
Within-more n m [] le a = tt
Within-more n m (t ∷ ts) le a = (omega (arith, le, a.0), Within-more n m ts le a.1)

-- A caller sleeps only for a round to come, or with a notification to come.
abbrev pub IsAwake : World → Type 0
IsAwake w =
    Within w.io.requested w.enabled
    × Within w.io.requested w.asleep
    × (w.notifying ≡ false → All (λ t. w.io.completed < t) w.asleep)

give-IsAwake :
    (w : World) (b : Bool)
    → Ample (give (schedule b w.io) w)
    → IsAwake w
    → IsAwake (give (schedule b w.io) w)
unfolding schedule
give-IsAwake w false more a = a
give-IsAwake w true more (near, slow, late) = (
  Within-more w.io.requested _ w.enabled (omega arith) near,
  Within-more w.io.requested _ w.asleep (omega arith) slow,
  late,
)

unanswered : (t : ℕ) (io : Io) → answer (some t) io ≡ none → io.completed < t
unfolding answer
unanswered t io h = ground (arith, h)

Step-IsAwake : (w w' : World) → Step w w' → Ample w' → IsSound w → IsAwake w → IsAwake w'
unfolding request end_round complete notify
Step-IsAwake _ _ (change w) more sound a = a
Step-IsAwake _ _ (configure w) more sound a = a
Step-IsAwake _ _ (ask w) more sound a = give-IsAwake w w.configured more a
Step-IsAwake _ _ (enable w t v m) more (given, behind, low, told, at) (near, slow, late) =
    (((All-Mem (Given w.io.requested w.changes) (t, v) w.tickets given m).0, near), slow, late)
Step-IsAwake _ _ (sleep w t m e) more sound (near, slow, late) = (
  near,
  (All-Mem (λ t. t ≤ w.io.requested) t w.enabled near m, slow),
  λ h. (unanswered t w.io e, late h),
)
Step-IsAwake _ _ (wake w e) more sound a = (tt, tt, λ h. tt)
Step-IsAwake _ _ (pick w e) more sound a = a
Step-IsAwake _ _ (copy w t e) more sound a = a
Step-IsAwake _ _ (replace w t c e) more sound a = a
Step-IsAwake _ _ (fail_copy w t e at) more sound a = a
Step-IsAwake _ _ (fail_write w t c e replaced at) more sound a = a
Step-IsAwake _ _ (finish w t e at) more sound (near, slow, late) =
    (near, slow, λ h. absurd (false≢true (sym h)))

Reachable-IsAwake : (w : World) → Reachable w → Ample w → IsAwake w
Reachable-IsAwake _ at_start more = (tt, tt, λ h. tt)
Reachable-IsAwake _ (after v w r st) more =
    let before = Ample-before v w st more in
    Step-IsAwake v w st more (Reachable-IsSound v r before) (Reachable-IsAwake v r before)

nobody : (c n : ℕ) (ts : List ℕ) → n ≤ c → Within n ts → All (λ t. c < t) ts → ts ≡ []
nobody c n [] le a b = refl
nobody c n (t ∷ ts) le a b = absurd (omega (arith, le, a.0, b.0))

-- When the writer has stopped and its last round has been notified, no caller of persist_journal
-- sleeps, and one with a ticket that looks is told an outcome: none is left waiting for a round that
-- does not come. As long as fewer than 2^64 - 1 requests were made.
pub none_stranded :
    (w : World) (target v : ℕ)
    → Reachable w
    → Ample w
    → w.task ≡ stopped
    → w.notifying ≡ false
    → Memᴰ (target, v) w.tickets
    → (w.asleep ≡ []) × (answer (some target) w.io ≢ none)
none_stranded w target v r more idle told m =
    let (given, behind, low, safe, a) = Reachable-IsSound w r more in
    let (run, same) = At-task w stopped idle a in
    let (near, slow, late) = Reachable-IsAwake w r more in
    (
      nobody w.io.completed w.io.requested w.asleep (omega (arith, same)) slow (late told),
      λ waits.
          let lower = unanswered target w.io waits in
          absurd (
            omega (
              arith,
              lower,
              same,
              (All-Mem (Given w.io.requested w.changes) (target, v) w.tickets given m).0,
            )),
    )
