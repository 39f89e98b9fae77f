-- ===== src/Broker/Writer/Durable.antt =====
-- Tickets, copies and the file of the journal's writer (native/src/broker.rs).

-- A ticket that a copy of `c` changes serves.
use repl_mcp.Base.{
  Memᴰ, ℕ, ◌≡◌, All, ◌<◌, ◌≤◌, false, none, true, some, List, arith, suc, ◌∷◌, [], Option, String,
  Bool, subst, not, if◌then◌else◌, refl, Bool-cases, ltb, inl, inr, ok, All-Mem, Option-cases,
}
use repl_mcp.Broker.Writer.{
  enable, configure, sleep, wake, fail_copy, fail_write, finish, replace, Task, World, u64_max,
  picked, copied, written, stopped, ready, request, end_round, complete, schedule, begin_task, Step,
  answer, Reachable, change, after, at_start, ask, pick, copy, give, notify, configure,
}

abbrev pub Served : ℕ → ℕ → ℕ × ℕ → Type 0
Served upto c (t, v) = t ≤ upto → v ≤ c

abbrev pub Given : ℕ → ℕ → ℕ × ℕ → Type 0
Given requested changes (t, v) = (t ≤ requested) × (v ≤ changes)

abbrev pub At : Task → World → Type 0
At stopped w = (w.io.running ≡ false) × (w.io.completed ≡ w.io.requested)
At ready w = w.io.running ≡ true
At (picked t) w = (w.io.running ≡ true) × (t ≤ w.io.requested)
At (copied t c) w =
    (w.io.running ≡ true)
    × (t ≤ w.io.requested)
    × (w.disk ≤ c)
    × (c ≤ w.changes)
    × All (Served t c) w.tickets
At (written t none) w =
    (w.io.running ≡ true) × (t ≤ w.io.requested) × All (Served t w.disk) w.tickets
At (written t (some e)) w = (w.io.running ≡ true) × (t ≤ w.io.requested)

-- What holds between the tickets, the copies and the file.
abbrev pub IsSound : World → Type 0
IsSound w =
    All (Given w.io.requested w.changes) w.tickets
    × (w.disk ≤ w.changes)
    × (w.io.completed ≤ w.io.requested)
    × (w.io.error ≡ none → All (Served w.io.completed w.disk) w.tickets)
    × At w.task w

-- No ticket number was used twice yet.
abbrev pub Ample : World → Type 0
Ample w = w.io.requested < u64_max

-- The tickets given out are at most the requests; a copy of every change serves them all.
serves-All : (n c t : ℕ) (ts : List (ℕ × ℕ)) → All (Given n c) ts → All (Served t c) ts
serves-All n c t [] a = tt
serves-All n c t ((u, v) ∷ ts) a = ((λ h. a.0.1), serves-All n c t ts a.1)

Given-more :
    (n c n' c' : ℕ) (ts : List (ℕ × ℕ))
    → n ≤ n'
    → c ≤ c'
    → All (Given n c) ts
    → All (Given n' c') ts
Given-more n c n' c' [] r l a = tt
Given-more n c n' c' ((u, v) ∷ ts) r l a =
    ((omega (arith, a.0.0), omega (arith, a.0.1)), Given-more n c n' c' ts r l a.1)

Served-more : (t c c' : ℕ) (ts : List (ℕ × ℕ)) → c ≤ c' → All (Served t c) ts → All (Served t c') ts
Served-more t c c' [] le a = tt
Served-more t c c' ((u, v) ∷ ts) le a = ((λ h. ground (arith, a.0 h)), Served-more t c c' ts le a.1)

-- A ticket above `t` is not one that a round up to `t` serves.
above : (t u v c : ℕ) → t < u → Served t c (u, v)
above t u v c h below = absurd (omega arith)

pub At-task : (w : World) (t : Task) → w.task ≡ t → At w.task w → At t w
At-task w t e a = subst (λ t. At t w) e a

At-change : (w : World) (t : Task) → At t w → At t (record w { changes = suc w.changes })
At-change w stopped a = a
At-change w ready a = a
At-change w (picked t) a = a
At-change w (copied t c) (run, bound, behind, past, served) =
    (run, bound, behind, omega arith, served)
At-change w (written t none) a = a
At-change w (written t (some e)) a = a

step_change : (w : World) → IsSound w → IsSound (record w { changes = suc w.changes })
step_change w (given, behind, low, told, a) = (
  Given-more _ w.changes _ (suc w.changes) w.tickets (omega arith) (omega arith) given,
  omega arith,
  low,
  told,
  At-change w w.task a,
)

At-request :
    (w : World) (t : Task)
    → Ample (give (schedule true w.io) w)
    → At t w
    → At (begin_task (not w.io.running) t) (give (schedule true w.io) w)
unfolding schedule
At-request w stopped more (run, same) = rw run refl
At-request w ready more run = rw run refl
At-request w (picked t) more (run, bound) = rw run (refl, omega arith)
At-request w (copied t c) more (run, bound, behind, past, served) =
    rw run (refl, omega arith, behind, past, (above t _ w.changes c (omega arith), served))
At-request w (written t none) more (run, bound, served) =
    rw run (refl, omega arith, (above t _ w.changes w.disk (omega arith), served))
At-request w (written t (some e)) more (run, bound) = rw run (refl, omega arith)

step_give :
    (w : World) (b : Bool)
    → Ample (give (schedule b w.io) w)
    → IsSound w
    → IsSound (give (schedule b w.io) w)
unfolding schedule
step_give w false more s = s
step_give w true more (given, behind, low, told, a) = (
  (
    (omega arith, omega arith),
    Given-more w.io.requested w.changes _ w.changes w.tickets (omega arith) (omega arith) given,
  ),
  behind,
  omega arith,
  (λ e. (above w.io.completed _ w.changes w.disk (omega arith), told e)),
  At-request w w.task more a,
)

step_request : (w : World) → Ample (request w) → IsSound w → IsSound (request w)
unfolding request
step_request w more s = step_give w w.configured more s

step_pick :
    (w : World) → w.task ≡ ready → IsSound w → IsSound (record w { task = picked w.io.requested })
step_pick w e (given, behind, low, told, a) =
    (given, behind, low, told, (At-task w ready e a, omega arith))

step_copy :
    (w : World) (t : ℕ)
    → w.task ≡ picked t
    → IsSound w
    → IsSound (record w { task = copied t w.changes })
step_copy w t e (given, behind, low, told, a) = (
  given,
  behind,
  low,
  told,
  (
    (At-task w (picked t) e a).0,
    (At-task w (picked t) e a).1,
    behind,
    omega arith,
    serves-All _ w.changes t w.tickets given,
  ),
)

step_replace :
    (w : World) (t c : ℕ)
    → w.task ≡ copied t c
    → IsSound w
    → IsSound (record w { task = written t none; disk = c })
step_replace w t c e (given, behind, low, told, a) = go (At-task w (copied t c) e a)
  where
    go : At (copied t c) w → IsSound (record w { task = written t none; disk = c })
    go (run, bound, older, past, served) = (
      given,
      past,
      low,
      (λ e. Served-more w.io.completed w.disk c w.tickets older (told e)),
      (run, bound, served),
    )

step_fail_copy :
    (w : World) (t : ℕ) (e : String)
    → w.task ≡ picked t
    → IsSound w
    → IsSound (record w { task = written t (some e) })
step_fail_copy w t e at (given, behind, low, told, a) =
    (given, behind, low, told, At-task w (picked t) at a)

step_fail_write :
    (w : World) (t c : ℕ) (e : String) (replaced : Bool)
    → w.task ≡ copied t c
    → IsSound w
    → IsSound (record w { task = written t (some e); disk = if replaced then c else w.disk })
step_fail_write w t c e true at s = go (step_replace w t c at s)
  where
    go :
        IsSound (record w { task = written t none; disk = c })
        → IsSound (record w { task = written t (some e); disk = c })
    go (given, behind, low, told, (run, bound, served)) = (given, behind, low, told, (run, bound))
step_fail_write w t c e false at (given, behind, low, told, a) =
    (given, behind, low, told, ((At-task w (copied t c) at a).0, (At-task w (copied t c) at a).1))

At-written :
    (w : World) (t : ℕ) (e : Option String)
    → At (written t e) w
    → (w.io.running ≡ true) × (t ≤ w.io.requested) × (e ≡ none → All (Served t w.disk) w.tickets)
At-written w t none (run, bound, served) = (run, bound, λ e. served)
At-written w t (some x) (run, bound) = (run, bound, λ e. cc)

At-ended :
    (w : World) (t : ℕ) (e : Option String)
    → w.io.running ≡ true
    → t ≤ w.io.requested
    → At (end_round t e w).task (end_round t e w)
unfolding end_round complete
At-ended w t e run bound = elim (Bool-cases (ltb t w.io.requested)) [
  | inl again ↦ rw again run
  | inr last ↦ rw last (refl, ground arith)
]

step_finish :
    (w : World) (t : ℕ) (e : Option String)
    → w.task ≡ written t e
    → IsSound w
    → IsSound (end_round t e w)
unfolding end_round complete
step_finish w t e h (given, behind, low, told, a) = (
  given,
  behind,
  (At-written w t e (At-task w (written t e) h a)).1,
  (At-written w t e (At-task w (written t e) h a)).2,
  At-ended w t e (At-written w t e (At-task w (written t e) h a)).0
      (At-written w t e (At-task w (written t e) h a)).1,
)

At-aside :
    (w : World) (t : Task) (c : Bool) (e a : List ℕ) (n : Bool)
    → At t w
    → At t (record w { configured = c; enabled = e; asleep = a; notifying = n })
At-aside w stopped c e a n h = h
At-aside w ready c e a n h = h
At-aside w (picked t) c e a n h = h
At-aside w (copied t v) c e a n h = h
At-aside w (written t none) c e a n h = h
At-aside w (written t (some x)) c e a n h = h

-- The path and the waiting callers do not matter.
step_aside :
    (w : World) (c : Bool) (e a : List ℕ) (n : Bool)
    → IsSound w
    → IsSound (record w { configured = c; enabled = e; asleep = a; notifying = n })
step_aside w c e a n (given, behind, low, told, at) =
    (given, behind, low, told, At-aside w w.task c e a n at)

step_lem : (w w' : World) → Step w w' → Ample w' → IsSound w → IsSound w'
unfolding notify
step_lem _ _ (change w) more s = step_change w s
step_lem _ _ (configure w) more s = step_aside w true w.enabled w.asleep w.notifying s
step_lem _ _ (enable w t v m) more s =
    step_aside w w.configured (t ∷ w.enabled) w.asleep w.notifying s
step_lem _ _ (sleep w t m e) more s =
    step_aside w w.configured w.enabled (t ∷ w.asleep) w.notifying s
step_lem _ _ (wake w e) more s = step_aside w w.configured [] [] false s
step_lem _ _ (ask w) more s = step_request w more s
step_lem _ _ (pick w e) more s = step_pick w e s
step_lem _ _ (copy w t e) more s = step_copy w t e s
step_lem _ _ (replace w t c e) more s = step_replace w t c e s
step_lem _ _ (fail_copy w t e at) more s = step_fail_copy w t e at s
step_lem _ _ (fail_write w t c e replaced at) more s = step_fail_write w t c e replaced at s
step_lem _ _ (finish w t e at) more s = step_finish w t e at s

give_more : (w : World) (b : Bool) → Ample (give (schedule b w.io) w) → Ample w
unfolding schedule
give_more w false more = more
give_more w true more = omega arith

pub Ample-before : (w w' : World) → Step w w' → Ample w' → Ample w
unfolding request end_round complete notify
Ample-before _ _ (change w) more = more
Ample-before _ _ (ask w) more = give_more w w.configured more
Ample-before _ _ (configure w) more = more
Ample-before _ _ (enable w t v m) more = more
Ample-before _ _ (sleep w t m e) more = more
Ample-before _ _ (wake w e) more = more
Ample-before _ _ (pick w e) more = more
Ample-before _ _ (copy w t e) more = more
Ample-before _ _ (replace w t c e) more = more
Ample-before _ _ (fail_copy w t e at) more = more
Ample-before _ _ (fail_write w t c e replaced at) more = more
Ample-before _ _ (finish w t e at) more = more

pub Reachable-IsSound : (w : World) → Reachable w → Ample w → IsSound w
Reachable-IsSound _ at_start more = (tt, omega arith, omega arith, (λ e. tt), (refl, refl))
Reachable-IsSound _ (after v w r st) more =
    step_lem v w st more (Reachable-IsSound v r (Ample-before v w st more))

-- A caller of persist_journal that got a ticket, since the journal has a path, and that is told of
-- success finds in the file every change it made before it asked: in every interleaving of callers and
-- writer, failed and half done writes among them, as long as fewer than 2^64 - 1 requests were made.
pub acknowledged_durable :
    (w : World) (target v : ℕ)
    → Reachable w
    → Ample w
    → Memᴰ (target, v) w.tickets
    → answer (some target) w.io ≡ some (ok tt)
    → v ≤ w.disk
unfolding answer
acknowledged_durable w target v r more m told = go (Reachable-IsSound w r more)
  where
    go : IsSound w → v ≤ w.disk
    go (given, behind, low, safe, a) = elim (Option-cases w.io.error) [
      | inl e ↦ All-Mem _ (target, v) w.tickets (safe e) m (ground (arith, told))
      | inr (x, e) ↦ ground (arith, told, e)
    ]
