-- ===== src/Tests/AuthSample.antt =====
-- Accounts with tokens, and a server whose texts and tokens are simple.
use ludora_back.Prelude.{[], ◌∷◌, none, some, true, str_eq}
use ludora_back.World.{User, World}
use ludora_back.Tokens.{Server, TokenType, Issue, payload}
use ludora_back.Tests.Sample.{sample, user, no_auth}

-- Every token is 50 and tells of user 1.
abbrev pub server : Server
server = record {
  sign = λ p l now. 50;
  verify = λ k now. some (payload 1 TokenType.access);
  hash = λ x. x;
  matches = λ h x. str_eq h x;
  lower = λ x. x;
  upper = λ x. x;
  capitalise = λ x. x;
  is_production = true;
}

-- The same with a lower case in which "Ann" is "ann".
abbrev pub lowering : Server
lowering = record server { lower = λ x. "ann" }

abbrev pub issue : Issue
issue = record { user_token = 80; refresh_token = 81; now = 1000 }

abbrev pub later : Issue
later = record { user_token = 82; refresh_token = 83; now = 2000 }

abbrev pub ann : User
ann = record (user 1) { email = some "ann"; password = some "secret"; deleted_at = some 900 }

-- 1 is signed in with the tokens 40 and 41, and has the code "123456".
abbrev pub signed_in : World
signed_in = record sample {
  users = ann ∷ user 2 ∷ [];
  auth = record no_auth {
    user_tokens = record { uid = 90; user_uid = 1; organisation_uid = none; token = 40 } ∷ [];
    refresh_tokens =
        record { uid = 91; user_uid = 1; organisation_uid = none; token = 41; expires_at = 5000 }
        ∷ [];
    email_verifications =
        record { uid = 92; user_uid = 1; code = "123456"; expires_at = 5000 } ∷ [];
  };
}
