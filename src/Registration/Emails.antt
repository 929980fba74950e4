-- ===== src/Registration/Emails.antt =====
-- Signing in with an email that was changed.
use ludora_back.Prelude.{ℕ, ◌≡◌, true, false, not, ◌&&◌, ◌==◌, none, arith, count, str_eq}
use ludora_back.World.{Client, World, Refuses, is_ok}
use ludora_back.Tokens.{Server, Issue}
use ludora_back.Accounts.{is_email, find_one_by_email, update_email}
use ludora_back.Accounts.Emails.{update_email-hides}
use ludora_back.Registration.{LoginDto, login}

module _ ⦃client : Client⦄ where
  unknown_refused :
      (s : Server) (i : Issue) (dto : LoginDto) (w : World)
      → find_one_by_email (s.lower dto.email) w ≡ none
      → Refuses w (login s i dto w)
  unfolding login
  unknown_refused s i dto w e = ground (arith, e)

  -- A user who has changed the email to one that is not in lower case cannot sign in any more,
  -- with that email and any password, unless another account has it in lower case: the email is
  -- stored as it is given, and looked up in lower case.
  pub update_email-locks_out :
      (s : Server) (i : Issue) (uid : ℕ) (dto : LoginDto) (w : World)
      → str_eq dto.email (s.lower dto.email) ≡ false
      → count (λ u. not (u.uid == uid) && is_email (s.lower dto.email) u) w.users ≡ 0
      → is_ok (update_email uid dto.email w).0 ≡ true
      → let w' = (update_email uid dto.email w).1 in Refuses w' (login s i dto w')
  update_email-locks_out s i uid dto w mixed absent changed =
      unknown_refused s i dto (update_email uid dto.email w).1
        (update_email-hides uid dto.email (s.lower dto.email) w mixed absent changed)
