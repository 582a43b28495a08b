-- ===== src/Notifications/Sync.antt =====
-- `syncFollowNotifications` of notifications/notifications.service.ts: notifications of what followed
-- characters have published since the last time.
pub mod Windows
pub mod Once
use opod_service_backend.Prelude.{
  ℕ, suc, Bool, true, false, ◌&&◌, ◌||◌, Option, none, some, List, [], ◌∷◌, ◌++◌, map, take, length,
  select, first, update, any, String, ◌==◌, ltb, leb, if◌then◌else◌,
}
use opod_service_backend.Prelude.Text.{append_text}
use opod_service_backend.Database.{Database, Tx, return, reads, modify, new_id, ◌>>=◌, ◌>>◌}
use opod_service_backend.Database.CharacterRows.{CharacterRow, FollowRow, PostRow, StoryRow}
use opod_service_backend.Database.NotificationRows.{
  NotificationRow, NotificationType, character_new_post, character_new_story, TargetType,
  post_target, story_target,
}
use opod_service_backend.Paging.{newest_first}

pub record FollowedCharacter : Type 0 where
  pub character_id : ℕ
  pub notified_up_to_at : ℕ
  pub display_name : String

abbrev pub is_followed : ℕ → CharacterRow → Bool
is_followed id c = c.id == id && c.is_active

-- The follow with its character, if that is active.
abbrev pub join_character :
    Option CharacterRow → FollowRow → List FollowedCharacter → List FollowedCharacter
join_character none f rest = rest
join_character (some c) f rest =
    record {
      character_id = f.character_id;
      notified_up_to_at = f.notified_up_to_at;
      display_name = c.display_name;
    }
    ∷ rest

abbrev pub join_characters : List CharacterRow → List FollowRow → List FollowedCharacter
join_characters characters [] = []
join_characters characters (f ∷ fs) =
    join_character (first (is_followed f.character_id) characters) f (join_characters characters fs)

unfoldable pub follows_of : ℕ → Database → List FollowedCharacter
follows_of user db = join_characters db.characters (select (λ f. f.user_id == user) db.follows)

-- `windows`: published after the follow's last sync, and by now.
abbrev pub in_window : ℕ → List FollowedCharacter → ℕ → ℕ → Bool
in_window now follows character created =
    any (λ f. f.character_id == character && ltb f.notified_up_to_at created && leb created now)
      follows

abbrev pub sync_limit : ℕ
sync_limit = 50

abbrev pub post_rows : ℕ → List FollowedCharacter → List PostRow → List PostRow
post_rows now follows posts = take (suc sync_limit) (
    newest_first (λ (p : PostRow). p.id) (λ p. p.created_at)
      (select (λ p. in_window now follows p.character_id p.created_at) posts))

abbrev pub story_rows : ℕ → List FollowedCharacter → List StoryRow → List StoryRow
story_rows now follows stories = take (suc sync_limit) (
    newest_first (λ (s : StoryRow). s.id) (λ s. s.created_at)
      (select (λ s. in_window now follows s.character_id s.created_at && ltb now s.expires_at)
        stories))

pub record Candidate : Type 0 where
  pub created_at : ℕ
  pub type : NotificationType
  pub title : String
  pub target_type : TargetType
  pub target_id : ℕ

-- `displayNames.get(characterId) ?? "캐릭터"`
abbrev pub name_of : ℕ → List FollowedCharacter → String
name_of character follows = elim (first (λ f. f.character_id == character) follows) [
  | none ↦ "캐릭터"
  | some f ↦ f.display_name
]

abbrev pub post_candidate : List FollowedCharacter → PostRow → Candidate
post_candidate follows p = record {
  created_at = p.created_at;
  type = character_new_post;
  title = append_text (name_of p.character_id follows) "님의 새 게시글";
  target_type = post_target;
  target_id = p.id;
}

abbrev pub story_candidate : List FollowedCharacter → StoryRow → Candidate
story_candidate follows s = record {
  created_at = s.created_at;
  type = character_new_story;
  title = append_text (name_of s.character_id follows) "님의 새 스토리";
  target_type = story_target;
  target_id = s.id;
}

-- Sorted by time alone, the newest first; `sort` keeps the order of those of the same time.
unfoldable pub candidates : ℕ → List FollowedCharacter → Database → List Candidate
candidates now follows db =
    newest_first (λ (c : Candidate). 0) (λ c. c.created_at)
      (map (post_candidate follows) (post_rows now follows db.posts)
        ++ map (story_candidate follows) (story_rows now follows db.stories))

abbrev pub candidate_row : ℕ → ℕ → Candidate → ℕ → NotificationRow
candidate_row now user c id = record {
  id = id;
  user_id = user;
  type = c.type;
  title = c.title;
  body = none;
  target_type = some c.target_type;
  target_id = some c.target_id;
  read_at = none;
  created_at = now;
}

unfoldable pub insert_candidates : ℕ → ℕ → List Candidate → Tx (Unit {0})
insert_candidates now user [] = return tt
insert_candidates now user (c ∷ cs) = do
  id ← new_id
  modify (λ d. record d { notifications = candidate_row now user c id ∷ d.notifications })
  insert_candidates now user cs

-- The follows whose characters were looked at.
abbrev pub is_synced : ℕ → List FollowedCharacter → FollowRow → Bool
is_synced user follows f = f.user_id == user && any (λ g. g.character_id == f.character_id) follows

abbrev pub synced_row : ℕ → FollowRow → FollowRow
synced_row now f = record f { notified_up_to_at = now }

pub record SyncResult : Type 0 where
  pub created : ℕ
  pub truncated : Bool

unfoldable pub sync_follows : ℕ → ℕ → List FollowedCharacter → Tx SyncResult
sync_follows now user follows = do
  found ← reads (candidates now follows)
  insert_candidates now user (take sync_limit found)
  modify (λ d. record d { follows = update (is_synced user follows) (synced_row now) d.follows })
  return (record {
    created = length (take sync_limit found);
    truncated = ltb sync_limit (length found);
  })

abbrev pub sync_if_any : ℕ → ℕ → List FollowedCharacter → Tx SyncResult
sync_if_any now user [] = return (record { created = 0; truncated = false })
sync_if_any now user (f ∷ fs) = sync_follows now user (f ∷ fs)

-- `syncFollowNotifications`
unfoldable pub sync_follow_notifications : ℕ → ℕ → Tx SyncResult
sync_follow_notifications now user = do
  follows ← reads (follows_of user)
  sync_if_any now user follows
