-- ===== src/Broker/Reload/Settled.antt =====
-- The records that `set_journal` of native/src/broker.rs goes on with.
use repl_mcp.Base.{
  String, Bool, ◌≡◌, false, ◌≢◌, some, ◌==◌, arith, not, Bool-cases, string_eq, inl, inr, refl,
  subst, sym, List, false≢true, ok, ap, All, length, ◌∙◌, ◌∷◌, ◌≤◌, ok-chain, suc, refuse_if, [],
  ltb, Result,
}
use repl_mcp.Broker.Reload.{
  Disk, put_field, any_field, is_metadata, settled, is_dispatched, check_record, set_journal,
  check_records, is_bad_text, no_lock, owned, read_journal, too_many, not_saved, Refused,
}
use repl_mcp.Json.{
  Value, object, Fields, get_str, field, end, str, bool, unsigned, number, array, null,
  get-put_field,
}

-- An object of metadata, which is not in flight.
abbrev pub IsSettled : Disk → Value → Type 0
IsSettled d (object fields) =
    (get_str "status" (object fields) ≢ some "dispatched")
    × (any_field (λ key v. not (is_metadata key)) fields ≡ false)
IsSettled d _ = ⊥

any_field-put_field :
    (p : String → Value → Bool) (key : String) (v : Value) (fs : Fields)
    → p key v ≡ false
    → any_field p fs ≡ false
    → any_field p (put_field key v fs) ≡ false
any_field-put_field p key v end fits h = ground (arith, fits)
any_field-put_field p key v (field k w rest) fits h = elim (Bool-cases (k == key)) [
  | inl same ↦
      let fits' = subst (λ j. p j v ≡ false) (sym ((string_eq.test_iff k key).0 same)) fits in
      ground (arith, fits', same, h)
  | inr other ↦ ground (arith, other, h, any_field-put_field p key v rest fits)
]

outcome_unknown :
    (fs : Fields)
    → get_str "status" (object (put_field "status" (str "outcome_unknown") fs))
      ≡ some "outcome_unknown"
outcome_unknown fs = ground (arith, get-put_field "status" "status" (str "outcome_unknown") fs)

settled-IsSettled :
    (d : Disk) (fs : Fields)
    → any_field (λ key v. not (is_metadata key)) fs ≡ false
    → IsSettled d (object (settled d fs))
settled-IsSettled d fs h = elim (Bool-cases (is_dispatched (get_str "status" (object fs)))) [
  | inl flying ↦ rw flying (
    λ e. absurd (false≢true (ap is_dispatched (sym (outcome_unknown fs) ∙ e))),
    any_field-put_field (λ key v. not (is_metadata key)) "status" (str "outcome_unknown") fs refl h,
  )
  | inr ended ↦ rw ended (λ e. absurd (false≢true (sym ended ∙ ap is_dispatched e)), h)
]

check_record-IsSettled : (d : Disk) (r r' : Value) → check_record d r ≡ ok r' → IsSettled d r'
check_record-IsSettled d (object fs) r' h =
    elim (Bool-cases (any_field (λ key v. not (is_metadata key)) fs)) [
      | inl foreign ↦ absurd (ground (arith, h, foreign))
      | inr own ↦ elim (Bool-cases (any_field (is_bad_text d) fs)) [
        | inl bad ↦ absurd (ground (arith, h, own, bad))
        | inr good ↦
            subst (IsSettled d) {x = object (settled d fs)} (ground (arith, h, own, good))
              (settled-IsSettled d fs own)
      ]
    ]
check_record-IsSettled d null r' h = absurd (ground (arith, h))
check_record-IsSettled d (bool b) r' h = absurd (ground (arith, h))
check_record-IsSettled d (unsigned n) r' h = absurd (ground (arith, h))
check_record-IsSettled d (number n) r' h = absurd (ground (arith, h))
check_record-IsSettled d (str s) r' h = absurd (ground (arith, h))
check_record-IsSettled d (array vs) r' h = absurd (ground (arith, h))

same_records : (a b : List Value) → ◌≡◌ {A = Result Refused (List Value)} (ok a) (ok b) → a ≡ b
same_records a b h = cc

check_records-IsSettled :
    (d : Disk) (rs rs' : List Value)
    → check_records d rs ≡ ok rs'
    → All (IsSettled d) rs' × (length rs' ≡ length rs)
unfolding check_records
check_records-IsSettled d [] rs' h =
    subst (λ xs. All (IsSettled d) xs × (length xs ≡ 0)) (same_records [] rs' h) (tt, refl)
check_records-IsSettled d (r ∷ rs) rs' h =
    let (r', later, first) = ok-chain _ (check_record d r) rs' h in
    let (ks, last, rest) = ok-chain _ (check_records d rs) rs' later in
    let (all, same) = check_records-IsSettled d rs ks rest in
    subst (λ xs. All (IsSettled d) xs × (length xs ≡ suc (length rs)))
      (same_records (r' ∷ ks) rs' last) ((check_record-IsSettled d r r' first, all), ap suc same)

-- When the journal of an earlier runtime is taken over, it has at most 256 records, each an object whose
-- keys are metadata and whose status is not that of a call in flight.
pub set_journal-IsSettled :
    (d : Disk) (rs : List Value) → set_journal d ≡ ok rs → All (IsSettled d) rs × (length rs ≤ 256)
unfolding set_journal
set_journal-IsSettled d rs h =
    let (u, locked, opened) = ok-chain _ (refuse_if (not d.opens_lock) no_lock) rs h in
    let (u', read, mine) = ok-chain _ (refuse_if (not d.owns_lock) owned) rs locked in
    let (old, bounded, found) = ok-chain _ (read_journal d d.journal) rs read in
    let (u'', checked, few) = ok-chain _ (refuse_if (ltb 256 (length old)) too_many) rs bounded in
    let (ks, saved, settled_all) = ok-chain _ (check_records d old) rs checked in
    let (all, same) = check_records-IsSettled d old ks settled_all in
    let (u3, done, kept) = ok-chain _ (refuse_if (not d.saves) not_saved) rs saved in
    subst (λ xs. All (IsSettled d) xs × (length xs ≤ 256)) (same_records ks rs done)
      (all, ground (arith, same, few))
