-- ===== src/Artifacts/Saved.antt =====
-- What a save does to the file system.
use repl_mcp.Artifacts.Save.{
  place, SaveIo, Disk, sweep, save, true_or, write_verified, destination, write_file, exists,
}
use repl_mcp.Base.{
  String, Bool, Bytes, ◌≢◌, Result, ◌≡◌, ok, some, true, ◌⊎◌, none, err, arith, string_eq, ==_refl,
  take, Result-cases, inl, inr, [], refl, false, not, if◌then◌else◌, ◌||◌, Option, Bool-cases,
  ◌>>=◌,
}
use repl_mcp.Artifacts.State.{
  Error, Store, Entry, Reference, reference, link_failed, sync_failed, replace_failed, save_failed,
  create_failed,
}
use repl_mcp.Json.{Value, and_then, as_bool}
use repl_mcp.Artifacts.Host.{Host}
use repl_mcp.Artifacts.Reader.{verify}

-- The content is in place, or nothing has changed; at the temporary path nothing is left if it could be
-- removed, and no other file is touched.
abbrev pub IsPlaced :
    Bool → String → String → Bool → Bytes → Disk → Result Error (Unit {0}) × Disk → Type 0
IsPlaced removed temporary path overwrite content disk (r, after) =
    (((r ≡ ok tt) × (after path ≡ some content) × ((overwrite ≡ true) ⊎ (disk path ≡ none)))
      ⊎ (((e : Error) × (r ≡ err e)) × (after path ≡ disk path)))
    × ((removed ≡ false) ⊎ (after temporary ≡ none))
    × ((other : String) → other ≢ temporary → other ≢ path → after other ≡ disk other)

sweep-IsPlaced :
    (removed : Bool) (temporary path : String) (overwrite : Bool) (content : Bytes) (disk : Disk)
    (out : Result Error (Unit {0}) × Disk)
    → temporary ≢ path
    → IsPlaced false temporary path overwrite content disk out
    → IsPlaced removed temporary path overwrite content disk (sweep removed temporary out)
sweep-IsPlaced false temporary path overwrite content disk (r, after) apart placed = placed
sweep-IsPlaced true temporary path overwrite content disk (r, after) apart (outcome, _, kept) = (
  elim outcome [
    | inl (a, b, c) ↦ inl (a, ground (arith, b, string_eq.test_iff temporary path), c)
    | inr (a, b) ↦ inr (a, ground (arith, b, string_eq.test_iff temporary path))
  ],
  inr (ground (arith, ==_refl temporary)),
  λ other h k. ground (arith, kept other h k, string_eq.test_iff temporary other),
)

sweep_unchanged :
    (removed : Bool) (e : Error) (temporary path : String) (overwrite : Bool) (content : Bytes)
    (disk : Disk)
    → temporary ≢ path
    → IsPlaced removed temporary path overwrite content disk (sweep removed temporary (err e, disk))
sweep_unchanged removed e temporary path overwrite content disk apart =
    sweep-IsPlaced removed temporary path overwrite content disk (err e, disk) apart
      (inr ((e, refl), refl), inl refl, λ other h k. refl)

sweep-path :
    (removed : Bool) (e : Error) (temporary path : String) (disk : Disk)
    → temporary ≢ path
    → (sweep {A = Unit {0}} removed temporary (err e, disk)).1 path ≡ disk path
sweep-path false e temporary path disk apart = refl
sweep-path true e temporary path disk apart = ground (arith, string_eq.test_iff temporary path)

-- The ways that the writing can end.
place_elim :
    (P : Result Error (Unit {0}) × Disk → Type 0) (io : SaveIo) (temporary path : String)
    (overwrite : Bool) (content : Bytes) (disk : Disk)
    → ((e : Error) → P (err e, disk))
    → ((e : Error) (part : Bytes) → P (err e, write_file disk temporary (some part)))
    → (overwrite ≡ true
        → P (
          ok tt,
          write_file
              (write_file (write_file disk temporary (some content)) path (some content))
              temporary
              none,
        ))
    → (exists (write_file disk temporary (some content)) path ≡ false
        → P (ok tt, write_file (write_file disk temporary (some content)) path (some content)))
    → P (place io temporary path overwrite content disk)
unfolding place
place_elim P io temporary path overwrite content disk kept torn replaced linked =
    elim (Bool-cases (exists disk temporary || not io.created)) [
      | inl e ↦ rw (place, e) (kept create_failed)
      | inr e ↦ rw (place, e) (copied io.partial)
    ]
  where
    written : Disk
    written = write_file disk temporary (some content)

    linking :
        (b : Bool)
        → (not b ≡ true → exists written path ≡ false)
        → P (
            if b
            then (err link_failed, written)
            else (ok tt, write_file written path (some content)))
    linking true free = torn link_failed content
    linking false free = linked (free refl)

    finishing :
        (synced over renamed : Bool)
        → (over ≡ true → overwrite ≡ true)
        → P (
            if not synced
            then (err sync_failed, written)
            else if over
            then if renamed
              then (ok tt, write_file (write_file written path (some content)) temporary none)
              else (err replace_failed, written)
            else if exists written path || not io.linked
            then (err link_failed, written)
            else (ok tt, write_file written path (some content)))
    finishing false over renamed h = torn sync_failed content
    finishing true true true h = replaced (h refl)
    finishing true true false h = torn replace_failed content
    finishing true false renamed h =
        linking (exists written path || not io.linked) (λ f. ground arith)

    copied :
        (o : Option Bytes)
        → P (elim o [
          | some part ↦ (err save_failed, write_file disk temporary (some part))
          | none ↦
              if not io.synced
              then (err sync_failed, written)
              else if overwrite
              then if io.renamed
                then (ok tt, write_file (write_file written path (some content)) temporary none)
                else (err replace_failed, written)
              else if exists written path || not io.linked
              then (err link_failed, written)
              else (ok tt, write_file written path (some content))
        ])
    copied (some part) = torn save_failed part
    copied none = finishing io.synced overwrite io.renamed (λ f. f)

-- At a path that is not the temporary, before the temporary is removed.
place-IsPlaced :
    (io : SaveIo) (temporary path : String) (overwrite : Bool) (content : Bytes) (disk : Disk)
    → temporary ≢ path
    → IsPlaced false temporary path overwrite content disk
        (place io temporary path overwrite content disk)
place-IsPlaced io temporary path overwrite content disk apart =
    place_elim (IsPlaced false temporary path overwrite content disk) io temporary path overwrite
      content disk (λ e. (inr ((e, refl), refl), inl refl, λ other h k. refl))
      (λ e part. (
        inr ((e, refl), ground (arith, string_eq.test_iff temporary path)),
        inl refl,
        λ other h k. ground (arith, string_eq.test_iff temporary other),
      ))
      (λ over. (
        inl (refl, ground (arith, string_eq.test_iff temporary path, ==_refl path), inl over),
        inl refl,
        λ other h k.
            ground (arith, string_eq.test_iff temporary other, string_eq.test_iff path other),
      ))
      (λ free. (
        inl (
          refl,
          ground (arith, ==_refl path),
          inr (ground (arith, string_eq.test_iff temporary path)),
        ),
        inl refl,
        λ other h k.
            ground (arith, string_eq.test_iff temporary other, string_eq.test_iff path other),
      ))

-- The same for the whole save.
abbrev pub overwrites : Value → Bool
overwrites params = true_or (and_then (repl_mcp.Json.get "overwrite" params) as_bool) false

save-placed :
    (host : Host) (owner : String) (params : Value) (temporary : String) (io : SaveIo) (s : Store)
    (disk : Disk) (entry : Entry) (path : String)
    → destination host owner params io.parent s ≡ ok (entry, path)
    → verify host entry ≡ ok tt
    → let placed =
        sweep io.removed temporary
          (place io temporary path (overwrites params) (take entry.size entry.file) disk) in
      save host owner params temporary io s disk
      ≡ ((placed.0 >>= λ _. ok (reference entry)), placed.1)
unfolding save write_verified
save-placed host owner params temporary io s disk entry path found good =
    rw (save, found, write_verified, good)

swept :
    (removed : Bool) (e : Error) (r : Reference) (temporary : String) (disk : Disk)
    → let out = sweep {A = Unit {0}} removed temporary (err e, disk) in
      ◌≡◌ {A = Result Error Reference × Disk} ((out.0 >>= λ _. ok r), out.1) (err e, out.1)
swept false e r temporary disk = refl
swept true e r temporary disk = refl

save-refused :
    (host : Host) (owner : String) (params : Value) (temporary : String) (io : SaveIo) (s : Store)
    (disk : Disk) (entry : Entry) (path : String) (e : Error)
    → destination host owner params io.parent s ≡ ok (entry, path)
    → verify host entry ≡ err e
    → save host owner params temporary io s disk
      ≡ (err e, (sweep {A = Unit {0}} io.removed temporary (err e, disk)).1)
unfolding save write_verified
save-refused host owner params temporary io s disk entry path e found bad =
    rw (save, found, write_verified, bad) (swept io.removed e (reference entry) temporary disk)

-- A save that finds its entry and accepts its destination, when the fresh temporary name is another
-- path: it succeeds with exactly the entry's content at the destination, having verified it, and
-- replaces a file that was there only if the request says `overwrite`; or it fails and the
-- destination is as it was. In both cases no other file has changed, and the temporary is gone unless
-- its removal failed, which the code ignores.
pub save_lem :
    (host : Host) (owner : String) (params : Value) (temporary : String) (io : SaveIo) (s : Store)
    (disk : Disk) (entry : Entry) (path : String)
    → destination host owner params io.parent s ≡ ok (entry, path)
    → temporary ≢ path
    → let (r, after) = save host owner params temporary io s disk in
      (((r ≡ ok (reference entry))
          × (verify host entry ≡ ok tt)
          × (after path ≡ some (take entry.size entry.file))
          × ((overwrites params ≡ true) ⊎ (disk path ≡ none)))
        ⊎ (((e : Error) × (r ≡ err e)) × (after path ≡ disk path)))
      × ((io.removed ≡ false) ⊎ (after temporary ≡ none))
      × ((other : String) → other ≢ temporary → other ≢ path → after other ≡ disk other)
save_lem host owner params temporary io s disk entry path found apart =
    elim (Result-cases (verify host entry)) [
      | inl (done, good) ↦
          let placed =
            sweep-IsPlaced io.removed temporary path (overwrites params)
              (take entry.size entry.file) disk
              (place io temporary path (overwrites params) (take entry.size entry.file) disk) apart
              (place-IsPlaced io temporary path (overwrites params) (take entry.size entry.file)
                disk apart) in
          rw (save-placed host owner params temporary io s disk entry path found good) (
            elim placed.0 [
              | inl (a, b, c) ↦ inl (rw a refl, good, b, c)
              | inr ((e, a), b) ↦ inr ((e, rw a refl), b)
            ],
            placed.1,
            placed.2,
          )
      | inr (e, bad) ↦
          let left =
            sweep_unchanged io.removed e temporary path (overwrites params) [] disk apart in
          rw (save-refused host owner params temporary io s disk entry path e found bad)
            (inr ((e, refl), sweep-path io.removed e temporary path disk apart), left.1, left.2)
    ]
