-- ===== src/Moderation.antt =====
-- moderation/moderation.service.ts: blocks between users, and reports.
pub mod Blocks
pub mod Reports
use ludora_back.Prelude.{ℕ, Bool, String, not, ◌&&◌, ◌||◌, ◌==◌, Option, List, map}
use ludora_back.World.{
  Client, User, UserBlock, UserReport, ReportReason, ◌is_reason◌, user_not_found, already_blocked,
  not_blocked, already_reported, bad_request, not_found, conflict, unique_violation,
  foreign_key_violation, record_not_found, Action, pure, gets, or_raise, ◌>>=◌, ◌>>◌, raise_if,
  modify, transaction, has, is_some, is_none,
}
use ludora_back.Users.{find_user}
use ludora_back.Friends.{is_between}

abbrev pub is_block : ℕ → ℕ → UserBlock → Bool
is_block a b k = k.blocker_uid == a && k.blocked_uid == b

abbrev pub is_report : ℕ → ℕ → ReportReason → UserReport → Bool
is_report a b reason k = k.reporter_uid == a && k.reported_uid == b && k.reason is_reason reason

pub record CreateReportDto : Type 0 where
  pub reported_uid : ℕ
  pub reason : ReportReason
  pub description : Option String

module _ ⦃client : Client⦄ where
  -- A column that must hold the id of a user.
  abbrev pub check_user : ℕ → Action (Unit {0})
  check_user uid = do raise_if (is_none (← gets (find_user uid))) foreign_key_violation

  -- `prisma.userBlocks.create`: the two users are the primary key.
  unfoldable pub create_block : ℕ → ℕ → Action (Unit {0})
  create_block a b = do
    raise_if (← gets (λ w. has (is_block a b) w.user_blocks)) unique_violation
    check_user a
    check_user b
    modify (λ w. record w {
      user_blocks = client.insert (record { blocker_uid = a; blocked_uid = b }) w.user_blocks;
    })

  -- The block and the end of every friendship and request between the two are one transaction.
  unfoldable pub block_user : (blocker_uid user_to_block_uid : ℕ) → Action (Unit {0})
  unfolding create_block
  block_user blocker_uid user_to_block_uid = do
    raise_if (is_none (← gets (find_user user_to_block_uid))) (not_found user_not_found)
    existing_block ←
        gets (λ w. client.find_first (is_block blocker_uid user_to_block_uid) w.user_blocks)
    raise_if (is_some existing_block) (conflict already_blocked)
    transaction do
      create_block blocker_uid user_to_block_uid
      modify (λ w. record w {
        friends = client.delete_many (is_between blocker_uid user_to_block_uid) w.friends;
      })

  unfoldable pub unblock_user : (blocker_uid user_to_unblock_uid : ℕ) → Action (Unit {0})
  unblock_user blocker_uid user_to_unblock_uid = do
    existing_block ←
        gets (λ w. client.find_first (is_block blocker_uid user_to_unblock_uid) w.user_blocks)
    raise_if (is_none existing_block) (bad_request not_blocked)
    raise_if (not (← gets (λ w. has (is_block blocker_uid user_to_unblock_uid) w.user_blocks)))
        record_not_found
    modify (λ w. record w {
      user_blocks = client.delete_many (is_block blocker_uid user_to_unblock_uid) w.user_blocks;
    })

  unfoldable pub create_report : (reporter_uid : ℕ) → CreateReportDto → Action (Unit {0})
  create_report reporter_uid dto = do
    existing_report ←
        gets (λ w.
          client.find_first (is_report reporter_uid dto.reported_uid dto.reason) w.user_reports)
    raise_if (is_some existing_report) (conflict already_reported)
    raise_if (← gets (λ w. has (is_report reporter_uid dto.reported_uid dto.reason) w.user_reports))
        unique_violation
    check_user reporter_uid
    check_user dto.reported_uid
    modify (λ w. record w {
      user_reports =
          client.insert
            (record {
              reporter_uid = reporter_uid;
              reported_uid = dto.reported_uid;
              reason = dto.reason;
              description = dto.description;
            })
            w.user_reports;
    })
