-- ===== src/Notifications/Sync/Windows.antt =====
-- The windows of the follows, after a sync.
use opod_service_backend.Prelude.{
  ℕ, ◌≤◌, ◌≡◌, refl, sym, subst, Bool, true, false, ◌&&◌, Bool-cases, some, Option-cases, inl, inr,
  List, [], ◌∷◌, select, first, update, any, All, All-map, ◌==◌, ==_refl, ltb, is_some, arith,
}
use opod_service_backend.Database.{Database}
use opod_service_backend.Database.CharacterRows.{CharacterRow, FollowRow, PostRow, StoryRow}
use opod_service_backend.Paging.{newest_first}
use opod_service_backend.Notifications.Sync.{
  FollowedCharacter, is_followed, join_character, join_characters, in_window, candidates, is_synced,
  synced_row,
}

module _ (user : ℕ) (characters : List CharacterRow) where
  abbrev pub own : FollowRow → Bool
  own f = f.user_id == user

  abbrev pub IsJoined : List FollowedCharacter → FollowRow → Type 0
  IsJoined follows x =
      own x ≡ true
      → is_some (first (is_followed x.character_id) characters) ≡ true
      → any (λ g. g.character_id == x.character_id) follows ≡ true

  -- Every follow of an active character is among those that are looked at.
  pub every-IsJoined :
      (rows : List FollowRow) → All (IsJoined (join_characters characters (select own rows))) rows
  every-IsJoined [] = tt
  every-IsJoined (x ∷ rows) =
      let rest = every-IsJoined rows in
      let joined = join_characters characters (select own rows) in
      let now_joined = join_characters characters (select own (x ∷ rows)) in
      elim (Bool-cases (own x)) [
        | inr h ↦
            let same : now_joined ≡ joined = rw h refl in
            ((λ k l. let k' = rw h at k in cc), subst (λ F. All (IsJoined F) rows) (sym same) rest)
        | inl h ↦ elim (Option-cases (first (is_followed x.character_id) characters)) [
          | inl k ↦
              let same : now_joined ≡ joined = rw (h, k) refl in
              (
                (λ o l. let l' = rw k at l in cc),
                subst (λ F. All (IsJoined F) rows) (sym same) rest,
              )
          | inr (c, k) ↦
              let same : now_joined ≡ join_character (some c) x joined = rw (h, k) refl in
              (
                (λ o l. rw (same, ==_refl x.character_id) refl),
                subst (λ F. All (IsJoined F) rows) (sym same)
                    (All-map _ _ rows (λ y j o s. ground (arith, j o s)) rest),
              )
        ]
      ]

  -- After the sync the follows that are looked at stand at its time.
  pub every_synced :
      (now : ℕ) (follows : List FollowedCharacter) (rows : List FollowRow)
      → All (IsJoined follows) rows
      → All
          (λ f. f.notified_up_to_at ≡ now)
          (join_characters characters
            (select own (update (is_synced user follows) (synced_row now) rows)))
  every_synced now follows [] h = tt
  every_synced now follows (x ∷ rows) h =
      let rest = every_synced now follows rows h.1 in
      elim (Bool-cases (own x)) [
        | inr o ↦ rw (o, o) rest
        | inl o ↦ elim (Option-cases (first (is_followed x.character_id) characters)) [
          | inl k ↦ elim (Bool-cases (is_synced user follows x)) [
            | inl s ↦ rw (s, o, k) rest
            | inr s ↦ rw (s, o, k) rest
          ]
          | inr (c, k) ↦
              let s : is_synced user follows x ≡ true = rw (o, h.0 o (rw k refl)) refl in
              rw (s, o, k) (refl, rest)
        ]
      ]

-- No window of follows that stand at a time is open for what was published by then.
window_closed :
    (now later : ℕ) (follows : List FollowedCharacter) (character created : ℕ)
    → All (λ f. f.notified_up_to_at ≡ now) follows
    → created ≤ now
    → in_window later follows character created ≡ false
window_closed now later [] character created h le = refl
window_closed now later (f ∷ follows) character created h le =
    let rest = window_closed now later follows character created h.1 le in
    let e = h.0 in ground arith

select_none :
    {A : Type 0} (p : A → Bool) (xs : List A) → All (λ x. p x ≡ false) xs → select p xs ≡ []
select_none p [] h = refl
select_none p (x ∷ xs) h = rw h.0 (select_none p xs h.1)

pub nothing_new :
    (now later : ℕ) (follows : List FollowedCharacter) (db : Database)
    → All (λ f. f.notified_up_to_at ≡ now) follows
    → All (λ (p : PostRow). p.created_at ≤ now) db.posts
    → All (λ (s : StoryRow). s.created_at ≤ now) db.stories
    → candidates later follows db ≡ []
unfolding candidates newest_first
nothing_new now later follows db synced posts stories =
    let closed = λ (character created : ℕ) (le : created ≤ now).
      window_closed now later follows character created synced le in
    rw
      (
        select_none (λ (p : PostRow). in_window later follows p.character_id p.created_at) db.posts
            (All-map _ _ db.posts (λ p le. closed p.character_id p.created_at le) posts),
        select_none
            (λ (s : StoryRow).
              in_window later follows s.character_id s.created_at && ltb later s.expires_at)
            db.stories
            (All-map _ _ db.stories (λ s le. rw (closed s.character_id s.created_at le) refl)
              stories),
      )
      refl
