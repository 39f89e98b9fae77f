-- ===== src/Server/Envelope/Presented.antt =====
-- What an answer presents (native/src/server.rs).
use repl_mcp.Json.{
  get, Fields, Value, object, put_field, bool, get-put_field, str, unsigned, field, end, number,
  array, null,
}
use repl_mcp.Server.Envelope.{
  Printing, present, Response, envelope, text_of, preview_limit, omitted_text, truncated_text,
  Identity, preview, identify_if, answer, value_of, is_failure, enveloped, IsResult,
}
use repl_mcp.Base.{
  ◌≡◌, Bool, arith, ◌≤◌, some, ◌⊎◌, length, true, ◌<◌, String, ℕ, sym, take, ◌++◌, Option,
  Bool-cases, Result, err, ltb, ok, inl, inr, ltb→lt, refl, ◌==◌, ◌∙◌, ap, if◌then◌else◌, string_eq,
  subst, false≢true,
}
use repl_mcp.Supervisor.Output.{is_char_boundary, boundary_before}
use repl_mcp.Supervisor.Output.Cuts.{boundary_before-IsCut}
use repl_mcp.Server.Envelope.Marked.{IsMarked, identify_if_lem}

-- The whole value, with the flag that its text is cut.
abbrev pub IsFlagged : Value → Value → Type 0
IsFlagged v structured =
    (key : String)
    → get key structured ≡ (if "text_truncated" == key then some (bool true) else get key v)

flagged :
    (fields : Fields)
    → IsFlagged (object fields) (object (put_field "text_truncated" (bool true) fields))
flagged fields key = get-put_field "text_truncated" key (bool true) fields

module _ (printing : Printing) where
  -- A short text with its value, or a preview that ends between two characters with the flagged value.
  abbrev pub IsWhole : Value → Response → Type 0
  IsWhole v r =
      let text = text_of printing v in
      ((length text ≤ preview_limit) × (r.content ≡ text) × (r.structured ≡ v))
      ⊎ ((preview_limit < length text)
          × ((n : ℕ) × (n ≤ preview_limit)
              × (is_char_boundary text n ≡ true)
              × (r.content ≡ take n text ++ truncated_text printing)
              × IsFlagged v r.structured))

  -- The answer is presented, its text only where the encoding is within the budget.
  abbrev pub IsPresented : Response → Response → Type 0
  IsPresented whole r =
      (r.structured ≡ whole.structured)
      × (r.is_error ≡ whole.is_error)
      × (((printing.encoded whole ≤ 1000000) × (r.content ≡ whole.content))
          ⊎ ((1000000 < printing.encoded whole) × (r.content ≡ omitted_text printing)))

  present_lem : (whole : Response) → IsPresented whole (present printing whole)
  unfolding present
  present_lem whole = ground arith

  -- Every result that is an object is answered: with its whole text and value where the text is at most
  -- 8192 bytes, else with a preview that is at most as long, ends between two characters and names
  -- itself a preview, and with the value unchanged but for the flag `text_truncated`; the value is there
  -- also where the text is omitted because the encoding is above 1000000 bytes.
  pub envelope_lem :
      (fields : Fields) (error : Bool)
      → (whole : Response) × ((r : Response) × (envelope printing (object fields) error ≡ some r)
          × (r.is_error ≡ error)
          × IsWhole (object fields) whole
          × IsPresented whole r)
  unfolding envelope
  envelope_lem fields error =
      let v = object fields in
      let text = text_of printing v in
      elim (Bool-cases (ltb preview_limit (length text))) [
        | inl long ↦
            let structured = object (put_field "text_truncated" (bool true) fields) in
            let whole : Response = record {
              content = preview printing text;
              structured = structured;
              is_error = error;
            } in
            let shown = present_lem whole in
            let (low, ends, _) = boundary_before-IsCut text preview_limit in
            (
              whole,
              (
                present printing whole,
                simp (long, envelope) refl,
                shown.1,
                inr (
                  ltb→lt preview_limit (length text) long,
                  (boundary_before text preview_limit, low, ends, refl, flagged fields),
                ),
                shown,
              ),
            )
        | inr short ↦
            let whole : Response = record { content = text; structured = v; is_error = error } in
            let shown = present_lem whole in
            (
              whole,
              (
                present printing whole,
                simp (short, envelope) refl,
                shown.1,
                inl (ground (arith, short), refl, refl),
                shown,
              ),
            )
      ]

value_of_lem :
    (result : Result String Value)
    → IsResult result
    → (fields : Fields) × (value_of result ≡ object fields)
value_of_lem (err e) good = (field "error" (str e) end, refl)
value_of_lem (ok (object fields)) good = (fields, refl)
value_of_lem (ok null) good = absurd (false≢true good)
value_of_lem (ok (bool b)) good = absurd (false≢true good)
value_of_lem (ok (unsigned n)) good = absurd (false≢true good)
value_of_lem (ok (number n)) good = absurd (false≢true good)
value_of_lem (ok (str s)) good = absurd (false≢true good)
value_of_lem (ok (array vs)) good = absurd (false≢true good)

-- Every error and every result that is an object is answered: with the marks of the session that the
-- call is made for, each field that the result has as it is, the error flag of the marked result, and
-- its presentation.
pub answer_lem :
    (printing : Printing) (by : Option Identity) (result : Result String Value)
    → IsResult result
    → (marked : Fields) × ((whole : Response) × ((r : Response) × (answer printing by result
            ≡ some r)
          × IsMarked by (value_of result) (object marked)
          × (r.is_error ≡ is_failure (object marked))
          × IsWhole printing (object marked) whole
          × IsPresented printing whole r))
unfolding answer
answer_lem printing by result good =
    let (fields, e) = value_of_lem result good in
    let (marked, made, marks) = identify_if_lem by fields in
    let (whole, (r, there, flag, shape, shown)) =
      envelope_lem printing marked (is_failure (object marked)) in
    (
      marked,
      (
        whole,
        (
          r,
          ap (λ (v : Value). enveloped printing (identify_if by v)) e
              ∙ (ap (enveloped printing) made ∙ there),
          subst (λ v. IsMarked by v (object marked)) (sym e) marks,
          flag,
          shape,
          shown,
        ),
      ),
    )
