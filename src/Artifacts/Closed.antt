-- ===== src/Artifacts/Closed.antt =====
-- Lowered guards and the calls that hold them (native/src/artifacts.rs).
use repl_mcp.Base.{
  ℕ, String, Option, Bool, ◌≡◌, ◌<◌, arith, false, ◌∷◌, if◌then◌else◌, ◌==◌, [], string_eq, ◌&&◌,
  List, Result, ◌⊎◌, some, ◌≢◌, none, err, ok, true, refl, pair_eq, inl, inr,
}
use repl_mcp.Artifacts.State.{
  Upload, Store, update, Outcome, Io, Error, upload_cancelled, settle, closed_before_commit,
  closed_before_import, Entry,
}
use repl_mcp.Artifacts.Host.{Host}
use repl_mcp.Base.Map.{Map, get, remove}
use repl_mcp.Artifacts.Registry.{
  register_owner, lower_found, register_run, abort_unfinished_uploads, remove_owner, lower_runs,
  lower_uploads, drop_uploads,
}
use repl_mcp.Artifacts.Upload.{
  begin, append, accept_chunk, write_chunk, commit, abort, finish_commit,
}
use repl_mcp.Artifacts.Create.{create, commit_import, Event, is_lowered}
use repl_mcp.Artifacts.Range.{delete}
use repl_mcp.Artifacts.Steps.{IsKept, Op, steps, steps_keeps}
use repl_mcp.Json.{Value}

-- A guard that was handed out, and that its owner's or its run's end has lowered.
abbrev pub IsLowered : ℕ → Store → Type 0
IsLowered g s = (g < s.next) × (s.flags g ≡ false)

lower_uploads_low :
    (p : Upload → Bool) (m : Map String Upload) (flags : ℕ → Bool) (g : ℕ)
    → flags g ≡ false
    → lower_uploads p m flags g ≡ false
lower_uploads_low p [] flags g h = h
lower_uploads_low p ((id, u) ∷ m) flags g h =
    lower_uploads_low p m (if p u then update flags u.alive false else flags) g (ground arith)

lower_runs_low :
    (owner : String) (m : Map (String × String) ℕ) (flags : ℕ → Bool) (g : ℕ)
    → flags g ≡ false
    → lower_runs owner m flags g ≡ false
lower_runs_low owner [] flags g h = h
lower_runs_low owner ((key, guard) ∷ m) flags g h =
    lower_runs_low owner m (if key.0 == owner then update flags guard false else flags) g
      (ground arith)

-- The end of a run: its guard, if it had one, and the uploads that match.
run_out_low :
    (p : Upload → Bool) (o : Option ℕ) (runs : Map (String × String) ℕ) (g : ℕ) (s : Store)
    → IsLowered g s
    → IsLowered g (drop_uploads p (record (lower_found o s) { runs = runs }))
run_out_low p none runs g s v = (v.0, lower_uploads_low p s.uploads s.flags g v.1)
run_out_low p (some guard) runs g s v =
    (v.0, lower_uploads_low p s.uploads (update s.flags guard false) g (ground arith))

module _ (host : Host) (g : ℕ) where
  IsLowered-kept : IsKept host (IsLowered g)
  unfolding register_owner register_run abort_unfinished_uploads remove_owner begin append
      accept_chunk write_chunk commit abort create commit_import delete
  IsLowered-kept = record {
    owner_in = λ owner s v. ground arith;
    owner_out = λ owner s v.
        let closed = lower_found (get owner s.owners) s in
        (
          ground arith,
          lower_uploads_low (λ u. u.owner == owner) closed.uploads
              (lower_runs owner s.runs closed.flags) g
              (lower_runs_low owner s.runs closed.flags g (ground arith)),
        );
    run_in = λ owner run s v. ground arith;
    run_out = λ owner run s v.
        run_out_low (λ u. u.owner == owner && u.run == run) (get (owner, run) s.runs)
          (remove (owner, run) s.runs) g s v;
    begun = λ owner params og rg id io s v. ground arith;
    appended = λ params og rg io u s v. ground arith;
    committed = λ og rg id fresh io u s v. ground arith;
    aborted = λ id u s v. ground arith;
    created = λ owner params og rg fresh io source s v. ground arith;
    deleted = λ owner params s v. ground arith;
  }

  -- Once lowered, for good: no operation raises a guard that was handed out before.
  steps_low : (ops : List Op) (s : Store) → IsLowered g s → IsLowered g (steps host ops s)
  steps_low ops s = steps_keeps host IsLowered-kept ops s

-- The guard of an owner is lowered when the owner is removed.
remove_owner-IsLowered :
    (owner : String) (s : Store) (g : ℕ)
    → get owner s.owners ≡ some g
    → g < s.next
    → IsLowered g (remove_owner owner s).1
unfolding remove_owner
remove_owner-IsLowered owner s g h fresh =
    rw h (fresh, lower_uploads_low _ s.uploads _ g (lower_runs_low owner s.runs _ g (ground arith)))

-- The guard of a run is lowered when the run ends.
abort_unfinished_uploads-IsLowered :
    (owner run : String) (s : Store) (g : ℕ)
    → get (owner, run) s.runs ≡ some g
    → g < s.next
    → IsLowered g (abort_unfinished_uploads owner run s).1
unfolding abort_unfinished_uploads
abort_unfinished_uploads-IsLowered owner run s g h fresh =
    rw h (fresh, lower_uploads_low _ s.uploads _ g (ground arith))

-- A call refused: an error, and the store as it was.
abbrev pub IsRefused : {A : Type 0} → Store → Outcome A → Type 0
IsRefused s (r, s') = ((e : Error) × (r ≡ err e)) × (s' ≡ s)

settle-IsRefused :
    {A : Type 0} (s : Store) (r : Result Error (A × Store))
    → ((x : A × Store) → r ≢ ok x)
    → IsRefused s (settle s r)
settle-IsRefused s (ok x) h = absurd (h x refl)
settle-IsRefused s (err e) h = ((e, refl), refl)

begin-IsRefused :
    (owner : String) (params : Value) (og rg : ℕ) (id : String) (io : Io) (s : Store)
    → (s.flags og ≡ false) ⊎ (s.flags rg ≡ false)
    → IsRefused s (begin owner params og rg id io s)
unfolding begin
begin-IsRefused owner params og rg id io s low = settle-IsRefused s _ (λ x e. ground arith)

commit-IsRefused :
    (host : Host) (og rg : ℕ) (id fresh : String) (io : Io) (u : Upload) (s : Store)
    → (s.flags og ≡ false) ⊎ (s.flags rg ≡ false)
    → IsRefused s (commit host og rg id fresh io u s)
unfolding commit
commit-IsRefused host og rg id fresh io u s low = settle-IsRefused s _ (λ x e. ground arith)

-- A commit that was prepared before the guard was lowered is refused by its second reading.
finish_commit-IsRefused :
    (og rg : ℕ) (id : String) (u : Upload) (entry : Entry) (s : Store)
    → (s.flags og ≡ false) ⊎ (s.flags rg ≡ false)
    → finish_commit og rg id u entry s ≡ err closed_before_commit
finish_commit-IsRefused og rg id u entry s low = ground arith

commit_import-IsRefused :
    (og : ℕ) (rg : Option ℕ) (entry : Entry) (s : Store)
    → (s.flags og ≡ false) ⊎ (is_lowered rg s ≡ true)
    → commit_import og rg entry s ≡ err closed_before_import
unfolding commit_import
commit_import-IsRefused og rg entry s low = ground arith

append-IsRefused :
    (host : Host) (params : Value) (og rg : ℕ) (io : Io) (u : Upload) (s : Store)
    → (s.flags og ≡ false) ⊎ (s.flags rg ≡ false)
    → IsRefused s (append host params og rg io u s)
unfolding append accept_chunk
append-IsRefused host params og rg io u s low = ((upload_cancelled, ground arith), ground arith)

create-IsRefused :
    (host : Host) (owner : String) (params : Value) (og : ℕ) (rg : Option ℕ) (fresh : String)
    (io : Io) (source : Option (List Event)) (s : Store)
    → (s.flags og ≡ false) ⊎ (is_lowered rg s ≡ true)
    → IsRefused s (create host owner params og rg fresh io source s)
unfolding create commit_import
create-IsRefused host owner params og rg fresh io source s low =
    settle-IsRefused s _ (λ x e. ground arith)

-- What the calls of a closed owner come to.
abbrev pub AllRefused : Host → ℕ → Store → Type 0
AllRefused host g s =
    ((owner : String) (params : Value) (rg : ℕ) (id : String) (io : Io)
      → IsRefused s (begin owner params g rg id io s))
    × ((params : Value) (rg : ℕ) (io : Io) (u : Upload)
        → IsRefused s (append host params g rg io u s))
    × ((rg : ℕ) (id fresh : String) (io : Io) (u : Upload)
        → IsRefused s (commit host g rg id fresh io u s))
    × ((rg : ℕ) (id : String) (u : Upload) (entry : Entry)
        → finish_commit g rg id u entry s ≡ err closed_before_commit)
    × ((rg : Option ℕ) (entry : Entry) → commit_import g rg entry s ≡ err closed_before_import)
    × ((owner : String) (params : Value) (rg : Option ℕ) (fresh : String) (io : Io)
          (source : Option (List Event))
        → IsRefused s (create host owner params g rg fresh io source s))

-- A job that was admitted with its owner's guard, and is still running when the owner is removed,
-- publishes nothing: after the removal and any later operations, its begin, append, commit and create
-- all fail and leave the store as it is. So does the rest of a commit, or of a create, that had read
-- the guards and prepared its entry before: the second reading, under the lock on the entries,
-- refuses whatever entry it brings.
pub remove_owner_final :
    (host : Host) (owner : String) (s : Store) (g : ℕ) (ops : List Op)
    → get owner s.owners ≡ some g
    → g < s.next
    → AllRefused host g (steps host ops (remove_owner owner s).1)
remove_owner_final host owner s g ops h fresh =
    let later = steps host ops (remove_owner owner s).1 in
    let low = steps_low host g ops _ (remove_owner-IsLowered owner s g h fresh) in
    (
      λ o params rg id io. begin-IsRefused o params g rg id io later (inl low.1),
      λ params rg io u. append-IsRefused host params g rg io u later (inl low.1),
      λ rg id new io u. commit-IsRefused host g rg id new io u later (inl low.1),
      λ rg id u entry. finish_commit-IsRefused g rg id u entry later (inl low.1),
      λ rg entry. commit_import-IsRefused g rg entry later (inl low.1),
      λ o params rg new io source.
          create-IsRefused host o params g rg new io source later (inl low.1),
    )

-- A job that holds the guard of a run that has ended publishes nothing: after the end and any later
-- operations, its begin, append, commit and create all fail and leave the store as it is, and the rest
-- of a commit or of a create that was prepared before is refused under the lock on the entries.
pub run_end_final :
    (host : Host) (owner run : String) (s : Store) (g : ℕ) (ops : List Op)
    → get (owner, run) s.runs ≡ some g
    → g < s.next
    → let later = steps host ops (abort_unfinished_uploads owner run s).1 in
      ((o : String) (params : Value) (og : ℕ) (id : String) (io : Io)
        → IsRefused later (begin o params og g id io later))
      × ((params : Value) (og : ℕ) (io : Io) (u : Upload)
          → IsRefused later (append host params og g io u later))
      × ((og : ℕ) (id fresh : String) (io : Io) (u : Upload)
          → IsRefused later (commit host og g id fresh io u later))
      × ((og : ℕ) (id : String) (u : Upload) (entry : Entry)
          → finish_commit og g id u entry later ≡ err closed_before_commit)
      × ((og : ℕ) (entry : Entry)
          → commit_import og (some g) entry later ≡ err closed_before_import)
      × ((o : String) (params : Value) (og : ℕ) (fresh : String) (io : Io)
            (source : Option (List Event))
          → IsRefused later (create host o params og (some g) fresh io source later))
run_end_final host owner run s g ops h fresh =
    let later = steps host ops (abort_unfinished_uploads owner run s).1 in
    let low = steps_low host g ops _ (abort_unfinished_uploads-IsLowered owner run s g h fresh) in
    (
      λ o params og id io. begin-IsRefused o params og g id io later (inr low.1),
      λ params og io u. append-IsRefused host params og g io u later (inr low.1),
      λ og id new io u. commit-IsRefused host og g id new io u later (inr low.1),
      λ og id u entry. finish_commit-IsRefused og g id u entry later (inr low.1),
      λ og entry. commit_import-IsRefused og (some g) entry later (inr (ground arith)),
      λ o params og new io source.
          create-IsRefused host o params og (some g) new io source later (inr (ground arith)),
    )
