-- ===== src/Notifications/Sync/Once.antt =====
-- What a sync writes, and a second sync after it.
use opod_service_backend.Prelude.{
  ℕ, suc, ◌+◌, ◌≤◌, ◌≡◌, refl, false, List, [], ◌∷◌, take, length, length-take-le, update, All, ltb,
  arith,
}
use opod_service_backend.Database.{Database, ok, >>=-eq-ok}
use opod_service_backend.Database.CharacterRows.{PostRow, StoryRow}
use opod_service_backend.Notifications.Sync.{
  FollowedCharacter, follows_of, sync_limit, Candidate, candidates, candidate_row,
  insert_candidates, is_synced, synced_row, SyncResult, sync_follows, sync_if_any,
  sync_follow_notifications,
}
use opod_service_backend.Notifications.Sync.Windows.{
  IsJoined, every-IsJoined, every_synced, nothing_new,
}

-- Inserted candidates are the only change, but for the identifiers.
record Inserted (cs : List Candidate) (db : Database) (p : Unit {0} × Database) : Type 0 where
  pub counted : length p.1.notifications ≡ length cs + length db.notifications
  pub same_follows : p.1.follows ≡ db.follows
  pub same_characters : p.1.characters ≡ db.characters
  pub same_posts : p.1.posts ≡ db.posts
  pub same_stories : p.1.stories ≡ db.stories

insert_candidates-eq-ok :
    (now user : ℕ) (cs : List Candidate) (db : Database) {p : Unit {0} × Database}
    → insert_candidates now user cs db ≡ ok p
    → Inserted cs db p
unfolding insert_candidates
insert_candidates-eq-ok now user [] db {p} e =
    let same : p ≡ (tt, db) = ground arith in
    rw same (record {
      counted = omega arith;
      same_follows = refl;
      same_characters = refl;
      same_posts = refl;
      same_stories = refl;
    })
insert_candidates-eq-ok now user (c ∷ cs) db {p} e =
    let next : Database = record db {
      next_id = suc db.next_id;
      notifications = candidate_row now user c db.next_id ∷ db.notifications;
    } in
    let i = insert_candidates-eq-ok now user cs next {p = p} e in
    record {
      counted = omega (arith, i.counted);
      same_follows = i.same_follows;
      same_characters = i.same_characters;
      same_posts = i.same_posts;
      same_stories = i.same_stories;
    }

abbrev pub nothing : SyncResult
nothing = record { created = 0; truncated = false }

-- What a sync that looks at these follows has done.
record Synced (now user : ℕ) (follows : List FollowedCharacter) (db : Database)
    (p : SyncResult × Database) : Type 0 where
  pub bounded : p.0.created ≤ sync_limit
  pub counted : length p.1.notifications ≡ p.0.created + length db.notifications
  pub moved : p.1.follows ≡ update (is_synced user follows) (synced_row now) db.follows
  pub same_characters : p.1.characters ≡ db.characters
  pub same_posts : p.1.posts ≡ db.posts
  pub same_stories : p.1.stories ≡ db.stories

sync_follows-eq-ok :
    (now user : ℕ) (follows : List FollowedCharacter) (db : Database) {p : SyncResult × Database}
    → sync_follows now user follows db ≡ ok p
    → Synced now user follows db p
unfolding sync_follows
sync_follows-eq-ok now user follows db {p} e =
    let chosen = take sync_limit (candidates now follows db) in
    let (q, inserted, e') = >>=-eq-ok (insert_candidates now user chosen) _ db e in
    let i = insert_candidates-eq-ok now user chosen db inserted in
    let same : p ≡ (
      record {
        created = length chosen;
        truncated = ltb sync_limit (length (candidates now follows db));
      },
      record q.1 { follows = update (is_synced user follows) (synced_row now) q.1.follows },
    ) =
      ground arith in
    rw same (record {
      bounded = length-take-le sync_limit (candidates now follows db);
      counted = i.counted;
      moved = rw i.same_follows refl;
      same_characters = i.same_characters;
      same_posts = i.same_posts;
      same_stories = i.same_stories;
    })

-- A sync creates 50 notifications at most, and as many as it says.
pub sync_bounded :
    (now user : ℕ) (db : Database) (p : SyncResult × Database)
    → sync_follow_notifications now user db ≡ ok p
    → (p.0.created ≤ 50) × (length p.1.notifications ≡ p.0.created + length db.notifications)
unfolding sync_follow_notifications
sync_bounded now user db p e = by_follows (follows_of user db) e
  where
    by_follows :
        (follows : List FollowedCharacter)
        → sync_if_any now user follows db ≡ ok p
        → (p.0.created ≤ 50) × (length p.1.notifications ≡ p.0.created + length db.notifications)
    by_follows [] e =
        let same : p ≡ (nothing, db) = ground arith in rw same (omega arith, omega arith)
    by_follows (f ∷ follows) e =
        let s = sync_follows-eq-ok now user (f ∷ follows) db e in (s.bounded, s.counted)

nothing_written :
    (later user : ℕ) (follows : List FollowedCharacter) (db : Database)
    → candidates later follows db ≡ []
    → (after : Database) × (sync_if_any later user follows db ≡ ok (nothing, after))
      × (after.notifications ≡ db.notifications)
unfolding sync_follows insert_candidates
nothing_written later user [] db none_found = (db, refl, refl)
nothing_written later user (f ∷ follows) db none_found = (
  record db { follows = update (is_synced user (f ∷ follows)) (synced_row later) db.follows },
  rw none_found refl,
  refl,
)

-- A second sync, at whatever later time, creates nothing if all that is published was published by
-- the time of the first one: nothing is notified twice.
pub sync_again :
    (now later user : ℕ) (db : Database) (p : SyncResult × Database)
    → All (λ (p : PostRow). p.created_at ≤ now) db.posts
    → All (λ (s : StoryRow). s.created_at ≤ now) db.stories
    → sync_follow_notifications now user db ≡ ok p
    → (after : Database) × (sync_follow_notifications later user p.1 ≡ ok (nothing, after))
      × (after.notifications ≡ p.1.notifications)
unfolding sync_follow_notifications follows_of
sync_again now later user db p posts stories e =
    by_follows (follows_of user db) (every-IsJoined user db.characters db.follows) refl e
  where
    by_follows :
        (follows : List FollowedCharacter)
        → All (IsJoined user db.characters follows) db.follows
        → follows_of user db ≡ follows
        → sync_if_any now user follows db ≡ ok p
        → (after : Database) × (sync_follow_notifications later user p.1 ≡ ok (nothing, after))
          × (after.notifications ≡ p.1.notifications)
    by_follows [] joined same e =
        let kept : p ≡ (nothing, db) = ground arith in rw kept (db, rw same refl, refl)
    by_follows (f ∷ follows) joined same e =
        let s = sync_follows-eq-ok now user (f ∷ follows) db e in
        let synced : All (λ f. f.notified_up_to_at ≡ now) (follows_of user p.1) =
          rw (s.moved, s.same_characters)
            (every_synced user db.characters now (f ∷ follows) db.follows joined) in
        nothing_written later user (follows_of user p.1) p.1 (
          nothing_new now later (follows_of user p.1) p.1 synced (rw s.same_posts posts)
            (rw s.same_stories stories))
