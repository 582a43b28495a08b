-- ===== src/Messages/History.antt =====
-- The history that a reply is written from: what is in it, and in which order.
use opod_service_backend.Prelude.{
  ℕ, ◌≤◌, ◌<◌, ◌≡◌, refl, ◌⊎◌, true, false, Bool, ◌==◌, ltb, Bool-cases, inl, inr, Option, none,
  some, List, [], ◌∷◌, All, All-map, select, arith,
}
use opod_service_backend.Prelude.Sorting.{
  Sorted, Precedes, lex_leb, sort_by, sort_by-Sorted, sort_by-All, All-sort_by,
}
use opod_service_backend.Database.{Database}
use opod_service_backend.Database.MessageRows.{MessageRow, JobRow, SenderType, user, character}
use opod_service_backend.Messages.Claiming.{ClaimedJob}
use opod_service_backend.Messages.Context.{
  HistoryRow, history, in_scope, no_later, role_order, history_key, scoped_history,
}

-- One time and identifier against another.
abbrev pub NoLater : ℕ → ℕ → ℕ → ℕ → Type 0
NoLater at id at' id' = (at < at') ⊎ ((at ≡ at') × (id ≤ id'))

abbrev pub Later : ℕ → ℕ → ℕ → ℕ → Type 0
Later at id at' id' = (at' < at) ⊎ ((at ≡ at') × (id' < id))

-- A message of a job, against the job that is worked on; one of no job, against the turn.
abbrev pub Compared :
    (ℕ → ℕ → ℕ → ℕ → Type 0) → ClaimedJob → MessageRow → MessageRow → Option JobRow → Type 0
Compared R job turn m none = R m.created_at m.id turn.created_at turn.id
Compared R job turn m (some j) = R j.created_at j.id job.created_at job.id

abbrev pub Known : ClaimedJob → MessageRow → HistoryRow → Type 0
Known job turn r = Compared NoLater job turn r.message r.reply_job

abbrev pub Unknown : ClaimedJob → MessageRow → HistoryRow → Type 0
Unknown job turn r = Compared Later job turn r.message r.reply_job

-- Where a message stands: at its job, or by itself if it has none.
abbrev pub place_at : HistoryRow → ℕ
place_at r = elim r.reply_job [ none ↦ r.message.created_at | some j ↦ j.created_at ]

abbrev pub place_id : HistoryRow → ℕ
place_id r = elim r.reply_job [ none ↦ r.message.id | some j ↦ j.id ]

-- In one place, a message of the user stands before one of the character, and of two by one sender
-- the older one stands first.
abbrev pub AtOnePlace : MessageRow → MessageRow → Type 0
AtOnePlace m n =
    ((m.sender_type ≡ user) × (n.sender_type ≡ character))
    ⊎ ((m.sender_type ≡ n.sender_type) × NoLater m.created_at m.id n.created_at n.id)

abbrev pub ReadBefore : HistoryRow → HistoryRow → Type 0
ReadBefore r s =
    (place_at r < place_at s)
    ⊎ ((place_at r ≡ place_at s)
        × ((place_id r < place_id s)
            ⊎ ((place_id r ≡ place_id s) × AtOnePlace r.message s.message)))

abbrev pub InReadingOrder : List HistoryRow → Type 0
InReadingOrder [] = Unit
InReadingOrder (r ∷ rows) = All (ReadBefore r) rows × InReadingOrder rows

abbrev pub Among : HistoryRow → List HistoryRow → Type 0
Among r [] = ◌≡◌ {A = ℕ} 0 1
Among r (s ∷ rows) = (r ≡ s) ⊎ Among r rows

lex_step :
    (x y : ℕ) (xs ys : List ℕ)
    → lex_leb (x ∷ xs) (y ∷ ys) ≡ true
    → (x < y) ⊎ ((x ≡ y) × (lex_leb xs ys ≡ true))
unfolding lex_leb
lex_step x y xs ys h = elim (Bool-cases (ltb x y)) [
  | inl k ↦ inl (ground arith)
  | inr k ↦ inr (ground arith, ground arith)
]

last_step : (c d i j : ℕ) → lex_leb (c ∷ i ∷ []) (d ∷ j ∷ []) ≡ true → NoLater c i d j
unfolding lex_leb
last_step c d i j h = elim (Bool-cases (ltb c d)) [
  | inl k ↦ inl (ground arith)
  | inr k ↦ inr (ground arith, ground arith)
]

role_lem :
    (k l : SenderType) (xs ys : List ℕ)
    → lex_leb (role_order k ∷ xs) (role_order l ∷ ys) ≡ true
    → ((k ≡ user) × (l ≡ character)) ⊎ ((k ≡ l) × (lex_leb xs ys ≡ true))
unfolding lex_leb
role_lem user character xs ys h = inl (refl, refl)
role_lem user user xs ys h = inr (refl, ground arith)
role_lem character character xs ys h = inr (refl, ground arith)
role_lem character user xs ys h = ground arith

at_one_place :
    (m n : MessageRow)
    → lex_leb
        (role_order m.sender_type ∷ m.created_at ∷ m.id ∷ [])
        (role_order n.sender_type ∷ n.created_at ∷ n.id ∷ [])
      ≡ true
    → AtOnePlace m n
at_one_place m n h = elim (role_lem m.sender_type n.sender_type _ _ h) [
  | inl k ↦ inl k
  | inr (k, rest) ↦ inr (k, last_step m.created_at n.created_at m.id n.id rest)
]

read_before : (r s : HistoryRow) → Precedes history_key r s → ReadBefore r s
read_before r s h = elim (lex_step (place_at r) (place_at s) _ _ h) [
  | inl k ↦ inl k
  | inr (k, rest) ↦ elim (lex_step (place_id r) (place_id s) _ _ rest) [
    | inl l ↦ inr (k, inl l)
    | inr (l, rest') ↦ inr (k, inr (l, at_one_place r.message s.message rest'))
  ]
]

Sorted-InReadingOrder : (rows : List HistoryRow) → Sorted history_key rows → InReadingOrder rows
Sorted-InReadingOrder [] h = tt
Sorted-InReadingOrder (r ∷ rows) h =
    (All-map _ _ rows (read_before r) h.0, Sorted-InReadingOrder rows h.1)

no_later_lem : (a i b j : ℕ) → no_later a i b j ≡ true → NoLater a i b j
no_later_lem a i b j h = elim (Bool-cases (ltb a b)) [
  | inl k ↦ inl (ground arith)
  | inr k ↦ inr (ground arith, ground arith)
]

later_lem : (a i b j : ℕ) → no_later a i b j ≡ false → Later a i b j
later_lem a i b j h = elim (Bool-cases (a == b)) [
  | inl k ↦ inr (ground arith, ground arith)
  | inr k ↦ inl (ground arith)
]

scope_of : ClaimedJob → MessageRow → MessageRow → Option JobRow → Bool
scope_of job turn m reply = in_scope job turn (record { message = m; reply_job = reply })

known_lem :
    (job : ClaimedJob) (turn m : MessageRow) (reply : Option JobRow)
    → scope_of job turn m reply ≡ true
    → Compared NoLater job turn m reply
unfolding scope_of
known_lem job turn m none h = no_later_lem m.created_at m.id turn.created_at turn.id h
known_lem job turn m (some j) h = no_later_lem j.created_at j.id job.created_at job.id h

unknown_lem :
    (job : ClaimedJob) (turn m : MessageRow) (reply : Option JobRow)
    → scope_of job turn m reply ≡ false
    → Compared Later job turn m reply
unfolding scope_of
unknown_lem job turn m none h = later_lem m.created_at m.id turn.created_at turn.id h
unknown_lem job turn m (some j) h = later_lem j.created_at j.id job.created_at job.id h

module _ (job : ClaimedJob) (turn : MessageRow) where
  select-Known : (rows : List HistoryRow) → All (Known job turn) (select (in_scope job turn) rows)
  unfolding scope_of
  select-Known [] = tt
  select-Known (r ∷ rows) = elim (Bool-cases (in_scope job turn r)) [
    | inl k ↦ rw k (known_lem job turn r.message r.reply_job k, select-Known rows)
    | inr k ↦ rw k (select-Known rows)
  ]

  -- Every row is among the chosen ones or unknown.
  chosen_or_Unknown :
      (Q : HistoryRow → Type 0) (rows : List HistoryRow)
      → All Q (select (in_scope job turn) rows)
      → All (λ r. Q r ⊎ Unknown job turn r) rows
  unfolding scope_of
  chosen_or_Unknown Q [] h = tt
  chosen_or_Unknown Q (r ∷ rows) h = elim (Bool-cases (in_scope job turn r)) [
    | inl k ↦ let h' = rw k at h in (inl h'.0, chosen_or_Unknown Q rows h'.1)
    | inr k ↦
        let h' = rw k at h in
        (inr (unknown_lem job turn r.message r.reply_job k), chosen_or_Unknown Q rows h')
  ]

every_Among : (rows : List HistoryRow) → All (λ r. Among r rows) rows
every_Among [] = tt
every_Among (r ∷ rows) = (
  inl refl,
  All-map (λ s. Among s rows) (λ s. Among s (r ∷ rows)) rows (λ s h. inr h) (every_Among rows),
)

-- The history that a reply is written from has every message of the conversation that is known by
-- then, and no other: a message of a job, if this job is no later than the one that is worked on; one
-- of no job, if it is no later than the turn. It is sorted: by the job, or by the message itself if
-- it has none, then the user's before the character's, then by time and identifier.
pub scoped_history_lem :
    (job : ClaimedJob) (turn : MessageRow) (db : Database)
    → All (Known job turn) (scoped_history job turn db)
      × All
          (λ r. Among r (scoped_history job turn db) ⊎ Unknown job turn r)
          (history job.conversation_id db)
      × InReadingOrder (scoped_history job turn db)
unfolding scoped_history
scoped_history_lem job turn db =
    let rows = history job.conversation_id db in
    let chosen = select (in_scope job turn) rows in
    let found = sort_by history_key chosen in
    (
      sort_by-All history_key (Known job turn) chosen (select-Known job turn rows),
      chosen_or_Unknown job turn (λ r. Among r found) rows
          (All-sort_by history_key (λ r. Among r found) chosen (every_Among found)),
      Sorted-InReadingOrder found (sort_by-Sorted history_key chosen),
    )
