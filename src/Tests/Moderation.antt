-- ===== src/Tests/Moderation.antt =====
-- Blocks and reports.
use ludora_back.Prelude.{◌≡◌, refl, none, some}
use ludora_back.World.{ReportReason, list_client, ok}
use ludora_back.Users.{find_one}
use ludora_back.Moderation.{block_user, create_block, CreateReportDto}
use ludora_back.Moderation.Blocks.{find_one-block_user}
use ludora_back.Tests.Sample.{sample}

abbrev spam_report : CreateReportDto
spam_report = record { reported_uid = 2; reason = ReportReason.spam; description = none }

find_one-block_user_example :
    let w' = (block_user 1 2 sample).1 in
    (find_one 2 (some 1) w' ≡ (ok none, w')) × (find_one 1 (some 2) w' ≡ (ok none, w'))
unfolding block_user create_block
find_one-block_user_example = find_one-block_user 1 2 sample refl
