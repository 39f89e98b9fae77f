-- ===== src/Broker/Transports/Claims.antt =====
-- The slots of a broker's transports (native/src/broker.rs, `session`).
use repl_mcp.Broker.Transports.{
  find_idle, retire, Slot, is_idle, entry, slot_limit, empty_slot, Broker, claim, Session, Attempt,
  settle, put, live_at, is_cooling, refused, recently_failed, connected, made, not_locked, shared,
  session, connect_slot, Fault,
}
use repl_mcp.Base.Map.{
  Map, IsDistinct, contains_key, get, remove, length-remove-lt, IsDistinct-remove,
  IsDistinct-insert, get-remove, length-insert-le, contains_key-insert_self, get-insert,
  contains_key-get, length-insert_known,
}
use repl_mcp.Base.{
  String, ◌≡◌, length, some, false, ok, ◌≤◌, ◌∷◌, true, arith, string_eq, [], ◌<◌, Bool-cases, not,
  inl, inr, ◌&&◌, leb, Option-cases, Option, subst, ℕ, ok-chain, ◌≢◌, refuse_if, none, Result, Bool,
  ◌∙◌, Result-cases, if◌then◌else◌, refl, err,
}

-- A slot that another task has locked, or whose open session a caller owns.
abbrev pub IsBusy : Slot → Type 0
IsBusy slot = is_idle slot ≡ false

find_idle-contains_key :
    (m : Map String Slot) (key : String) → find_idle m ≡ some key → contains_key key m ≡ true
unfolding find_idle
find_idle-contains_key [] key h = cc
find_idle-contains_key ((k, slot) ∷ rest) key h =
    ground (arith, h, string_eq.test_iff k key, find_idle-contains_key rest key)

idle_not_busy :
    (m : Map String Slot) (key : String) (slot : Slot)
    → IsDistinct m
    → find_idle m ≡ some key
    → get key m ≡ some slot
    → IsBusy slot
    → ⊥
unfolding find_idle
idle_not_busy [] key slot d h g busy = cc
idle_not_busy ((k, s) ∷ rest) key slot d h g busy = ground (
  arith,
  h,
  g,
  busy,
  d,
  string_eq.test_iff k key,
  find_idle-contains_key rest key,
  idle_not_busy rest key slot,
)

-- A map of slots, of which there are at most 32.
abbrev pub IsWithin : Map String Slot → Type 0
IsWithin m = IsDistinct m × (length m ≤ slot_limit)

entry_lem :
    (key : String) (m : Map String Slot)
    → IsWithin m
    → (contains_key key m ≡ false → length m < slot_limit)
    → IsWithin (entry key m)
      × (contains_key key (entry key m) ≡ true)
      × ((j : String) (slot : Slot) → get j m ≡ some slot → get j (entry key m) ≡ some slot)
entry_lem key m (d, l) room = elim (Bool-cases (contains_key key m)) [
  | inl known ↦ rw known ((d, l), known, λ j slot g. g)
  | inr new ↦ rw new (
    (
      IsDistinct-insert key empty_slot m d,
      omega (arith, room new, length-insert-le key empty_slot m),
    ),
    contains_key-insert_self key empty_slot m,
    λ j slot g. ground (
      arith,
      g,
      get-insert key j empty_slot m,
      contains_key-get key m new,
      string_eq.test_iff key j,
    ),
  )
]

-- Room for the key, with every busy slot in its place.
abbrev Retired : String → Map String Slot → Map String Slot → Type 0
Retired key m m' =
    IsWithin m'
    × (contains_key key m' ≡ false → length m' < slot_limit)
    × ((j : String) (slot : Slot) → get j m ≡ some slot → IsBusy slot → get j m' ≡ some slot)

removed-Retired :
    (key idle : String) (m : Map String Slot)
    → IsWithin m
    → find_idle m ≡ some idle
    → Retired key m (remove idle m)
removed-Retired key idle m (d, l) f =
    let less = length-remove-lt idle m (find_idle-contains_key m idle f) in
    (
      (IsDistinct-remove idle m d, omega (arith, less)),
      (λ absent. omega (arith, less)),
      λ j slot g busy. ground (
        arith,
        g,
        get-remove idle j m,
        string_eq.test_iff idle j,
        λ (same : idle ≡ j). idle_not_busy m idle slot d f (rw same g) busy,
      ),
    )

retire-Retired :
    (key : String) (m m' : Map String Slot) → IsWithin m → retire key m ≡ ok m' → Retired key m m'
unfolding retire
retire-Retired key m m' w h =
    elim (Bool-cases (not (contains_key key m) && leb slot_limit (length m))) [
      | inl full ↦ elim (Option-cases (find_idle m)) [
        | inl e ↦ absurd (ground (arith, h, full, e))
        | inr (idle, e) ↦
            subst (Retired key m) (ground (arith, h, full, e)) (removed-Retired key idle m w e)
      ]
      | inr room ↦
          subst (Retired key m) (ground (arith, h, room))
            (w, (λ absent. ground (arith, room, absent)), λ j slot g busy. g)
    ]

-- The slots within their limit, those of others that are busy as they were.
abbrev pub Kept : String → Broker → Broker → Type 0
Kept key b b' =
    IsWithin b'.sessions
    × ((j : String) (slot : Slot)
        → key ≢ j
        → get j b.sessions ≡ some slot
        → IsBusy slot
        → get j b'.sessions ≡ some slot)

claimed : (b c : Broker) → ◌≡◌ {A = Result Fault Broker} (ok b) (ok c) → b ≡ c
claimed b c h = cc

claim-Kept :
    (now : ℕ) (key : String) (b b' : Broker)
    → IsWithin b.sessions
    → claim now key b ≡ ok b'
    → Kept key b b' × (contains_key key b'.sessions ≡ true)
unfolding claim
claim-Kept now key b b' w h =
    let (u, later, cool) =
      ok-chain _ (refuse_if (is_cooling now (get key b.failures)) recently_failed) b' h in
    let (m, last, retired) = ok-chain _ (retire key b.sessions) b' later in
    let (within, room, busy) = retire-Retired key b.sessions m w retired in
    let (after, known, kept) = entry_lem key m within room in
    subst (λ c. Kept key b c × (contains_key key c.sessions ≡ true)) (claimed _ b' last)
      ((after, λ j slot other g is_busy. kept j slot (busy j slot g is_busy)), known)

-- The slot of the key may be written.
put-Kept :
    (key : String) (live : Option Session) (b c : Broker)
    → Kept key b c
    → contains_key key c.sessions ≡ true
    → Kept key b (put key live c)
put-Kept key live b c ((d, l), kept) known = (
  (
    IsDistinct-insert key _ c.sessions d,
    omega (
      arith,
      l,
      length-insert_known key (record { live = live; locked = false }) c.sessions known,
    ),
  ),
  λ j slot other g busy. ground (
    arith,
    kept j slot other g busy,
    string_eq.test_iff key j,
    other,
    get-insert key j (record { live = live; locked = false }) c.sessions,
  ),
)

either-Kept :
    (key : String) (b : Broker) (first : Bool) (x y : Result Fault Session × Broker)
    → Kept key b x.1
    → Kept key b y.1
    → Kept key b (if first then x else y).1
either-Kept key b true x y p q = p
either-Kept key b false x y p q = q

connect_slot-Kept :
    (now : ℕ) (key : String) (attempt : Attempt) (b c : Broker)
    → Kept key b c
    → contains_key key c.sessions ≡ true
    → Kept key b (connect_slot now key attempt c).1
connect_slot-Kept now key not_locked b c k known = k
connect_slot-Kept now key (refused e) b c k known = put-Kept key none b c k known
connect_slot-Kept now key (connected id) b c k known = put-Kept key (some (made id)) b c k known

settle-Kept :
    (now : ℕ) (key : String) (attempt : Attempt) (b c : Broker) (live : Option Session)
    → Kept key b c
    → contains_key key c.sessions ≡ true
    → Kept key b (settle now key attempt c live).1
settle-Kept now key not_locked b c live k known = k
settle-Kept now key (refused e) b c none k known = put-Kept key none b c k known
settle-Kept now key (connected id) b c none k known = put-Kept key (some (made id)) b c k known
settle-Kept now key (refused e) b c (some s) k known =
    either-Kept key b s.closed _ _ (put-Kept key none b c k known)
      (put-Kept key (some (shared s)) b c k known)
settle-Kept now key (connected id) b c (some s) k known =
    either-Kept key b s.closed _ _ (put-Kept key (some (made id)) b c k known)
      (put-Kept key (some (shared s)) b c k known)

live_at-put :
    (key : String) (live : Option Session) (c : Broker) → live_at key (put key live c) ≡ live
live_at-put key live c = ground (
  arith,
  get-insert key key (record { live = live; locked = false }) c.sessions,
  string_eq.test_iff key key,
)

-- A session with its broker: open, and in the slot of its key.
abbrev Given : String → Session → Result Fault Session × Broker → Type 0
Given key s r = (s.closed ≡ false) × (live_at key r.1 ≡ some s)

connect_slot-Given :
    (now : ℕ) (key : String) (attempt : Attempt) (c : Broker) (s : Session)
    → (connect_slot now key attempt c).0 ≡ ok s
    → Given key s (connect_slot now key attempt c)
connect_slot-Given now key not_locked c s h = absurd (ground (arith, h))
connect_slot-Given now key (refused e) c s h = absurd (ground (arith, h))
connect_slot-Given now key (connected id) c s h =
    (ground (arith, h), live_at-put key (some (made id)) c ∙ ground (arith, h))

shared-Given :
    (now : ℕ) (key : String) (attempt : Attempt) (c : Broker) (t s : Session) (gone : Bool)
    → t.closed ≡ gone
    → (if gone
        then connect_slot now key attempt c
        else (ok (shared t), put key (some (shared t)) c)).0
      ≡ ok s
    → Given key s (
        if gone
        then connect_slot now key attempt c
        else (ok (shared t), put key (some (shared t)) c))
shared-Given now key attempt c t s true e h = connect_slot-Given now key attempt c s h
shared-Given now key attempt c t s false e h =
    (ground (arith, h, e), live_at-put key (some (shared t)) c ∙ ground (arith, h))

settle-Given :
    (now : ℕ) (key : String) (attempt : Attempt) (c : Broker) (live : Option Session) (s : Session)
    → (settle now key attempt c live).0 ≡ ok s
    → Given key s (settle now key attempt c live)
settle-Given now key not_locked c live s h = absurd (ground (arith, h))
settle-Given now key (refused e) c none s h = absurd (ground (arith, h))
settle-Given now key (connected id) c none s h = connect_slot-Given now key (connected id) c s h
settle-Given now key (refused e) c (some t) s h =
    shared-Given now key (refused e) c t s t.closed refl h
settle-Given now key (connected id) c (some t) s h =
    shared-Given now key (connected id) c t s t.closed refl h

-- A session that is returned is open, and in the slot of its key.
abbrev pub IsGiven : String → Broker → Result Fault Session → Type 0
IsGiven key b (err e) = Unit
IsGiven key b (ok s) = (s.closed ≡ false) × (live_at key b ≡ some s)

Given-IsGiven :
    (key : String) (b : Broker) (r : Result Fault Session)
    → ((s : Session) → r ≡ ok s → (s.closed ≡ false) × (live_at key b ≡ some s))
    → IsGiven key b r
Given-IsGiven key b (err e) h = tt
Given-IsGiven key b (ok s) h = h s refl

-- A request for a session, whatever becomes of the connection, leaves at most 32 slots and no key
-- twice, as it found them; what it returns is open, and in its slot; and it does not touch the slot of
-- another key that is busy, that is, locked by a task or with an open transport that a caller holds.
pub session_lem :
    (now : ℕ) (key : String) (attempt : Attempt) (b : Broker)
    → IsWithin b.sessions
    → let b' = (session now key attempt b).1 in
      IsWithin b'.sessions
      × IsGiven key b' (session now key attempt b).0
      × ((j : String) (slot : Slot)
          → key ≢ j
          → get j b.sessions ≡ some slot
          → IsBusy slot
          → get j b'.sessions ≡ some slot)
unfolding session
session_lem now key attempt b w = elim (Result-cases (claim now key b)) [
  | inl (c, e) ↦
      let (kept, known) = claim-Kept now key b c w e in
      let (within, others) = settle-Kept now key attempt b c (live_at key c) kept known in
      rw (e, session)
        (
          within,
          Given-IsGiven key (settle now key attempt c (live_at key c)).1
              (settle now key attempt c (live_at key c)).0
              (λ s h. settle-Given now key attempt c (live_at key c) s h),
          others,
        )
  | inr (x, e) ↦ rw (e, session) (w, tt, λ j slot other g busy. g)
]
