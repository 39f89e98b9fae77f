-- ===== src/Server/Envelope/Marked.antt =====
-- The marks of an answer (native/src/server.rs, `identify` of native/src/supervisor.rs).
use repl_mcp.Json.{get, Fields, Value, object, get-put_field, get-put_other, lookup, str, unsigned}
use repl_mcp.Server.Envelope.{identify, Identity, or_insert, identify_if, or_insert_at}
use repl_mcp.Base.{
  ◌≡◌, Bool, arith, some, String, ◌≢◌, Option, Bool-cases, inl, none, inr, refl, ◌==◌, ◌∙◌, ap,
  false, ==_refl, if◌then◌else◌, string_eq, subst, ==_sound,
}
use repl_mcp.Config.Normal.{or_else}

-- What a key has after marking: the result's own value, or the mark.
abbrev pub mark : Identity → String → Option Value → Option Value
mark by key o =
    if "generation" == key
    then some (or_else o (unsigned by.generation))
    else if "session_id" == key
    then some (or_else o (str by.session_id))
    else if "server_id" == key
    then some (or_else o (str by.server_id))
    else o

abbrev pub IsMarked : Option Identity → Value → Value → Type 0
IsMarked none v marked = marked ≡ v
IsMarked (some by) v marked = (key : String) → get key marked ≡ mark by key (get key v)

or_insert_at-lookup :
    (o : Option Value) (key : String) (v : Value) (fields : Fields)
    → lookup key fields ≡ o
    → lookup key (or_insert_at o key v fields) ≡ some (or_else o v)
or_insert_at-lookup none key v fields there =
    get-put_field key key v fields
    ∙ ap (λ (b : Bool). if b then some v else lookup key fields) (==_refl key)
or_insert_at-lookup (some w) key v fields there = there

or_insert-lookup :
    (key : String) (v : Value) (fields : Fields)
    → lookup key (or_insert key v fields) ≡ some (or_else (lookup key fields) v)
or_insert-lookup key v fields = or_insert_at-lookup (lookup key fields) key v fields refl

or_insert_at-other :
    (o : Option Value) (key j : String) (v : Value) (fields : Fields)
    → key ≢ j
    → lookup j (or_insert_at o key v fields) ≡ lookup j fields
or_insert_at-other none key j v fields other = get-put_other key j v fields other
or_insert_at-other (some w) key j v fields other = refl

or_insert-other :
    (key j : String) (v : Value) (fields : Fields)
    → key ≢ j
    → lookup j (or_insert key v fields) ≡ lookup j fields
or_insert-other key j v fields other = or_insert_at-other (lookup key fields) key j v fields other

apart : (key j : String) → (key == j) ≡ false → key ≢ j
apart key j different same = ground (arith, different, same, ==_refl key)

marked_generation :
    (by : Identity) (key : String) (fields : Fields)
    → "generation" ≡ key
    → lookup key (
        or_insert "generation" (unsigned by.generation) (
          or_insert "session_id"
            (str by.session_id)
            (or_insert "server_id" (str by.server_id) fields)))
      ≡ some (or_else (lookup key fields) (unsigned by.generation))
marked_generation by key fields same =
    let first = or_insert "server_id" (str by.server_id) fields in
    let second = or_insert "session_id" (str by.session_id) first in
    subst
      (λ k.
        lookup k (or_insert "generation" (unsigned by.generation) second)
        ≡ some (or_else (lookup k fields) (unsigned by.generation)))
      same
      (or_insert-lookup "generation" (unsigned by.generation) second
        ∙ ap (λ (o : Option Value). some (or_else o (unsigned by.generation)))
            (or_insert-other "session_id" "generation" (str by.session_id) first (apart _ _ refl)
              ∙ or_insert-other "server_id" "generation" (str by.server_id) fields
                  (apart _ _ refl)))

marked_session :
    (by : Identity) (key : String) (fields : Fields)
    → "session_id" ≡ key
    → lookup key (
        or_insert "session_id"
          (str by.session_id)
          (or_insert "server_id" (str by.server_id) fields))
      ≡ some (or_else (lookup key fields) (str by.session_id))
marked_session by key fields same =
    let first = or_insert "server_id" (str by.server_id) fields in
    subst
      (λ k.
        lookup k (or_insert "session_id" (str by.session_id) first)
        ≡ some (or_else (lookup k fields) (str by.session_id)))
      same
      (or_insert-lookup "session_id" (str by.session_id) first
        ∙ ap (λ (o : Option Value). some (or_else o (str by.session_id)))
            (or_insert-other "server_id" "session_id" (str by.server_id) fields (apart _ _ refl)))

identify_lem :
    (by : Identity) (fields : Fields)
    → (marked : Fields) × (identify by (object fields) ≡ some (object marked))
      × IsMarked (some by) (object fields) (object marked)
unfolding identify
identify_lem by fields =
    let first = or_insert "server_id" (str by.server_id) fields in
    let second = or_insert "session_id" (str by.session_id) first in
    (
      or_insert "generation" (unsigned by.generation) second,
      refl,
      λ key. elim (Bool-cases ("generation" == key)) [
        | inl same ↦ simp same (marked_generation by key fields (==_sound "generation" key same))
        | inr newer ↦
            let below =
              or_insert-other "generation" key (unsigned by.generation) second (apart _ _ newer) in
            elim (Bool-cases ("session_id" == key)) [
              | inl same ↦
                  simp (newer, same)
                    (below ∙ marked_session by key fields (==_sound "session_id" key same))
              | inr session ↦
                  let lower =
                    below
                    ∙ or_insert-other "session_id" key (str by.session_id) first
                        (apart _ _ session) in
                  elim (Bool-cases ("server_id" == key)) [
                    | inl same ↦
                        simp (newer, session, same)
                          (lower
                            ∙ subst
                                (λ k.
                                  lookup k first
                                  ≡ some (or_else (lookup k fields) (str by.server_id)))
                                (==_sound "server_id" key same)
                                (or_insert-lookup "server_id" (str by.server_id) fields))
                    | inr other ↦
                        simp (newer, session, other)
                          (lower
                            ∙ or_insert-other "server_id" key (str by.server_id) fields
                                (apart _ _ other))
                  ]
            ]
      ],
    )

pub identify_if_lem :
    (by : Option Identity) (fields : Fields)
    → (marked : Fields) × (identify_if by (object fields) ≡ some (object marked))
      × IsMarked by (object fields) (object marked)
identify_if_lem none fields = (fields, refl, refl)
identify_if_lem (some by) fields = identify_lem by fields
