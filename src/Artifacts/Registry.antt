-- ===== src/Artifacts/Registry.antt =====
-- Owners and runs (native/src/artifacts.rs): registration, and the two ways that a registration ends.
use repl_mcp.Base.{
  ℕ, ◌+◌, ◌-◌, String, Bool, true, false, not, ◌&&◌, ◌==◌, string_eq, pair_eq, [], ◌∷◌, Option,
  none, some, length, retain, leb, if◌then◌else◌, ok, err,
}
use repl_mcp.Base.Map.{Map, get, contains_key, insert, remove}
use repl_mcp.Artifacts.State.{
  Store, Upload, Outcome, owner_capacity, owner_closed, run_capacity, update, lower,
}

-- Artifacts::register_owner; `or_insert_with` leaves a registered owner's guard alone.
unfoldable pub register_owner : String → Store → Outcome (Unit {0})
register_owner owner s =
    if leb 256 (length s.owners) && not (contains_key owner s.owners)
    then (err owner_capacity, s)
    else if contains_key owner s.owners
    then (ok tt, s)
    else (
      ok tt,
      record s {
        owners = insert owner s.next s.owners;
        flags = update s.flags s.next true;
        next = s.next + 1;
      },
    )

-- Artifacts::register_run
unfoldable pub register_run : String → String → Store → Outcome (Unit {0})
register_run owner run s =
    if not (contains_key owner s.owners)
    then (err owner_closed, s)
    else if leb 256 (length s.runs)
    then (err run_capacity, s)
    else if contains_key (owner, run) s.runs
    then (ok tt, s)
    else (
      ok tt,
      record s {
        runs = insert (owner, run) s.next s.runs;
        flags = update s.flags s.next true;
        next = s.next + 1;
      },
    )

-- if let Some(guard) = ... { guard.store(false) }
abbrev pub lower_found : Option ℕ → Store → Store
lower_found none s = s
lower_found (some guard) s = lower guard s

-- The `alive` flags that a `retain` over the uploads lowers.
abbrev pub lower_uploads : (Upload → Bool) → Map String Upload → (ℕ → Bool) → ℕ → Bool
lower_uploads p [] flags = flags
lower_uploads p ((id, upload) ∷ rest) flags =
    lower_uploads p rest (if p upload then update flags upload.alive false else flags)

abbrev pub drop_uploads : (Upload → Bool) → Store → Store
drop_uploads p s = record s {
  uploads = retain (λ u. not (p u.1)) s.uploads;
  flags = lower_uploads p s.uploads s.flags;
}

-- Artifacts::abort_unfinished_uploads
unfoldable pub abort_unfinished_uploads : String → String → Store → ℕ × Store
abort_unfinished_uploads owner run s =
    let ended = lower_found (get (owner, run) s.runs) s in
    let kept =
      drop_uploads (λ u. u.owner == owner && u.run == run)
        (record ended { runs = remove (owner, run) s.runs }) in
    (length s.uploads - length kept.uploads, kept)

-- The guards of an owner's runs.
abbrev pub lower_runs : String → Map (String × String) ℕ → (ℕ → Bool) → ℕ → Bool
lower_runs owner [] flags = flags
lower_runs owner ((key, guard) ∷ rest) flags =
    lower_runs owner rest (if key.0 == owner then update flags guard false else flags)

-- Artifacts::remove_owner
unfoldable pub remove_owner : String → Store → ℕ × Store
remove_owner owner s =
    let closed = lower_found (get owner s.owners) s in
    let ended = record closed {
      owners = remove owner s.owners;
      runs = retain (λ r. not (r.0.0 == owner)) s.runs;
      flags = lower_runs owner s.runs closed.flags;
    } in
    let dropped = drop_uploads (λ u. u.owner == owner) ended in
    let kept = retain (λ e. not (e.owner == owner)) s.entries in
    (length s.entries - length kept, record dropped { entries = kept })
