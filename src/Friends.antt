-- ===== src/Friends.antt =====
-- friends/friends.service.ts and friends/mappers/friend.mapper.ts: friend requests and friendships.
-- A row of `friends` is a request from `user_uid1` to `user_uid2`, or what became of it.
pub mod Cases
pub mod Valid
pub mod Effects
pub mod Answers
use ludora_back.Prelude.{ℕ, String, Bool, not, ◌&&◌, ◌||◌, ◌==◌, Option, none, if◌then◌else◌}
use ludora_back.World.{
  Client, User, Friend, Name, InvitationStatus, ◌is_status◌, friend_request, friend_accepted,
  cannot_add_yourself, sender_not_found, receiver_not_found, request_exists, request_not_found,
  already_pending, not_authorized, sender_cannot, receiver_cannot, bad_request, not_found, conflict,
  unique_violation, foreign_key_violation, record_not_found, Action, pure, gets, or_raise, ◌>>=◌,
  ◌>>◌, raise_if, modify, emit, when, has, is_some, is_none,
}
use ludora_back.Users.{find_one, find_user}

pub record FriendWithUsers : Type 0 where
  pub friend : Friend
  pub user1 : User
  pub user2 : User

pub record FriendResponseData : Type 0 where
  pub avatar_url : Option String
  pub created_at : ℕ
  pub firstname : Option String
  pub friend_uid : ℕ
  pub lastname : Option String
  pub status : InvitationStatus
  pub updated_at : ℕ

-- `FriendMapper.toDto`
unfoldable pub to_dto : FriendWithUsers → ℕ → FriendResponseData
to_dto f current_user_uid =
    let other_user = if f.friend.user_uid1 == current_user_uid then f.user2 else f.user1 in
    let friend_uid =
      if f.friend.user_uid1 == current_user_uid then f.friend.user_uid2 else f.friend.user_uid1 in
    record {
      avatar_url = other_user.image_url;
      created_at = f.friend.created_at;
      firstname = other_user.firstname;
      friend_uid = friend_uid;
      lastname = other_user.lastname;
      status = f.friend.status;
      updated_at = f.friend.updated_at;
    }

-- The `where` clauses of the service.
abbrev pub is_key : ℕ → ℕ → Friend → Bool
is_key a b f = f.user_uid1 == a && f.user_uid2 == b

abbrev pub is_between : ℕ → ℕ → Friend → Bool
is_between a b f = is_key a b f || is_key b a f

abbrev pub is_live : ℕ → ℕ → Friend → Bool
is_live a b f =
    is_between a b f
    && (f.status is_status InvitationStatus.accepted || f.status is_status InvitationStatus.pending)

abbrev pub is_pending : ℕ → ℕ → Friend → Bool
is_pending a b f = is_between a b f && f.status is_status InvitationStatus.pending

abbrev pub is_accepted : ℕ → ℕ → Friend → Bool
is_accepted a b f = is_between a b f && f.status is_status InvitationStatus.accepted

-- A request may be accepted or refused by its receiver, and withdrawn by its sender.
unfoldable pub check_update_authorization : Bool → Bool → InvitationStatus → Action (Unit {0})
check_update_authorization connected_user_is_sender other_user_is_sender status = do
  raise_if (status is_status InvitationStatus.pending) (bad_request already_pending)
  raise_if
      ((connected_user_is_sender && other_user_is_sender)
        || (not connected_user_is_sender && not other_user_is_sender))
      (bad_request not_authorized)
  raise_if (connected_user_is_sender && not (status is_status InvitationStatus.canceled))
      (bad_request sender_cannot)
  raise_if (other_user_is_sender && status is_status InvitationStatus.canceled)
      (bad_request receiver_cannot)

abbrev pub name_of : User → Name
name_of u = record { firstname = u.firstname; lastname = u.lastname }

-- The sender of an accepted request is told who accepted it.
unfoldable pub emit_friend_request_update_event : ℕ → ℕ → FriendWithUsers → Action (Unit {0})
unfolding to_dto
emit_friend_request_update_event event_receiver_uid request_accepter_uid f =
    when (f.friend.status is_status InvitationStatus.accepted) do
      let dto = to_dto f event_receiver_uid
      emit (
          friend_accepted event_receiver_uid request_accepter_uid
            (record { firstname = dto.firstname; lastname = dto.lastname }))

module _ ⦃client : Client⦄ where
  -- `include: { user1, user2 }`; both columns are foreign keys.
  unfoldable pub include_users : Friend → Action FriendWithUsers
  include_users f = do
    user1 ← or_raise (← gets (find_user f.user_uid1)) foreign_key_violation
    user2 ← or_raise (← gets (find_user f.user_uid2)) foreign_key_violation
    pure (record { friend = f; user1 = user1; user2 = user2 })

  -- `prisma.friends.create`: the pair of users is the primary key.
  unfoldable pub create_friend : Friend → Action FriendWithUsers
  create_friend f = do
    raise_if (← gets (λ w. has (is_key f.user_uid1 f.user_uid2) w.friends)) unique_violation
    created ← include_users f
    modify (λ w. record w { friends = client.insert f w.friends })
    pure created

  unfoldable pub create : (sender_uid receiver_uid now : ℕ) → Action (Unit {0})
  unfolding find_one
  create sender_uid receiver_uid now = do
    raise_if (sender_uid == receiver_uid) (bad_request cannot_add_yourself)
    raise_if (is_none (← find_one sender_uid none)) (bad_request sender_not_found)
    raise_if (is_none (← find_one receiver_uid none)) (bad_request receiver_not_found)
    existing_friend ← gets (λ w. client.find_first (is_live sender_uid receiver_uid) w.friends)
    raise_if (is_some existing_friend) (conflict request_exists)
    created ← create_friend (record {
      user_uid1 = sender_uid;
      user_uid2 = receiver_uid;
      status = InvitationStatus.pending;
      created_at = now;
      updated_at = now;
    })
    emit (friend_request receiver_uid sender_uid (name_of created.user1))

  unfoldable pub find_one_friend : (connected_uid other_uid : ℕ) → Action FriendResponseData
  unfolding include_users to_dto
  find_one_friend connected_uid other_uid = do
    existing_friend ←
        or_raise (← gets (λ w. client.find_first (is_between connected_uid other_uid) w.friends))
          (not_found request_not_found)
    found ← include_users existing_friend
    pure (to_dto found connected_uid)

  -- `prisma.friends.update` of one row by its primary key.
  unfoldable pub set_status : ℕ → ℕ → InvitationStatus → ℕ → Action FriendWithUsers
  set_status a b status now = do
    raise_if (not (← gets (λ w. has (is_key a b) w.friends))) record_not_found
    modify (λ w. record w {
      friends =
          client.update_many (is_key a b) (λ f. record f { status = status; updated_at = now })
            w.friends;
    })
    updated ← or_raise (← gets (λ w. client.find_first (is_key a b) w.friends)) record_not_found
    include_users updated

  -- `prisma.friends.delete` of one row by its primary key.
  unfoldable pub delete_friend : ℕ → ℕ → Action (Unit {0})
  delete_friend a b = do
    raise_if (not (← gets (λ w. has (is_key a b) w.friends))) record_not_found
    modify (λ w. record w { friends = client.delete_many (is_key a b) w.friends })

  unfoldable pub update :
      (connected_uid receiver_uid : ℕ) → InvitationStatus → (now : ℕ) → Action (Unit {0})
  unfolding find_one
  update connected_uid receiver_uid status now = do
    raise_if (is_none (← find_one receiver_uid none)) (not_found receiver_not_found)
    existing ←
        or_raise (← gets (λ w. client.find_first (is_pending connected_uid receiver_uid) w.friends))
          (not_found request_not_found)
    check_update_authorization (existing.user_uid1 == connected_uid)
        (existing.user_uid2 == connected_uid) status
    updated ← set_status existing.user_uid1 existing.user_uid2 status now
    emit_friend_request_update_event existing.user_uid1 existing.user_uid2 updated
    when (status is_status InvitationStatus.canceled)
        (delete_friend existing.user_uid1 existing.user_uid2)

  unfoldable pub remove : (connected_uid receiver_uid : ℕ) → Action (Unit {0})
  remove connected_uid receiver_uid = do
    existing ←
        or_raise
          (← gets (λ w. client.find_first (is_accepted connected_uid receiver_uid) w.friends))
          (not_found request_not_found)
    delete_friend existing.user_uid1 existing.user_uid2
