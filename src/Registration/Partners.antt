-- ===== src/Registration/Partners.antt =====
-- The tokens of a partner's registration.
use ludora_back.Prelude.{
  ℕ, String, ◌≡◌, inl, inr, Bool, false, not, ◌&&◌, ◌==◌, Option, none, some, arith, count,
  count-le, ==_iff, ap, ◌∙◌, Option-cases,
}
use ludora_back.World.{
  Client, User, Partner, UserToken, AuthTables, World, Refuses, >>=-keeps, transaction-keeps,
  is_none, transaction, find_first-eq_none,
}
use ludora_back.Tokens.{
  Server, Issue, Payload, TokenPair, is_user_token_of, create_pair, create_user_token,
  create_refresh_token, new_user_token,
}
use ludora_back.Guards.{auth_b2b_guard, is_partner_token}
use ludora_back.Accounts.{CreateUserDto, create, insert_user}
use ludora_back.Registration.{
  RegisterB2BDto, register_b2b, partner_pair, signed_up_partner, partner_steps, b2b_user,
  insert_partner,
}

module _ ⦃client : Client⦄ where
  -- A user token that names a partner.
  abbrev names_partner : ℕ → UserToken → Bool
  names_partner u t = t.user_uid == u && not (is_none t.organisation_uid)

  create_frame :
      (s : Server) (uid : ℕ) (dto : CreateUserDto) (image : Option String) (w : World)
      → (create s uid dto image w).1.auth ≡ w.auth
  unfolding create insert_user
  create_frame s uid dto image w = ground arith

  create_pair-names_none :
      (i : Issue) (u v : ℕ) (pair : TokenPair) (w : World)
      → count (names_partner v) (create_pair i u pair w).1.auth.user_tokens
        ≡ count (names_partner v) w.auth.user_tokens
  unfolding create_pair create_user_token create_refresh_token
  create_pair-names_none i u v pair w = ground (
    arith,
    client.count-insert (new_user_token i u none pair.access_token) (names_partner v)
        w.auth.user_tokens,
  )

  module _ (s : Server) (i : Issue) (uid o v : ℕ) (image : Option String)
      (dto : RegisterB2BDto) where
    -- No token of the user names a partner.
    abbrev NamesNone : World → Type 0
    NamesNone w = count (names_partner v) w.auth.user_tokens ≡ 0

    signed_up_partner-NamesNone :
        (detailed : Bool) (w : World)
        → NamesNone w
        → NamesNone (signed_up_partner s i uid o image detailed dto w).1
    unfolding insert_partner
    signed_up_partner-NamesNone detailed w h =
        >>=-keeps NamesNone (create s uid (b2b_user s dto) image) (partner_steps s i o detailed dto)
          w
          (ap (λ (a : AuthTables). count (names_partner v) a.user_tokens)
              (create_frame s uid (b2b_user s dto) image w)
            ∙ h)
          λ user w1 h1. added user w1 h1
      where
        added :
            (user : User) (w1 : World)
            → NamesNone w1
            → NamesNone (partner_steps s i o detailed dto user w1).1
        added user w1 h1 =
            let p : Partner = record { uid = o; name = dto.partner_name; email = dto.email } in
            let w2 : World = record w1 {
              billing = record w1.billing { partners = client.insert p w1.billing.partners };
            } in
            let frame = create_pair-names_none i user.uid v (partner_pair s user.uid o i.now) w2 in
            ground (arith, h1, frame)

    register_b2b-NamesNone :
        (located detailed : Bool) (w : World)
        → NamesNone w
        → NamesNone (register_b2b s i uid o image located detailed dto w).1
    unfolding register_b2b
    register_b2b-NamesNone located detailed w h =
        let signed : NamesNone (transaction (signed_up_partner s i uid o image detailed dto) w).1 =
          transaction-keeps NamesNone (signed_up_partner s i uid o image detailed dto) w h
            (signed_up_partner-NamesNone detailed w h) (λ es k. k) in
        ground (arith, h, signed)

  -- The tokens that a partner's registration returns are never let in: whatever the call does, no
  -- token of the new user passes the partners' guard afterwards, since their rows do not name the
  -- partner; the new user's id has no tokens before.
  pub register_b2b-shut_out :
      (s : Server) (i : Issue) (uid o : ℕ) (image : Option String) (located detailed : Bool)
      (dto : RegisterB2BDto) (k later : ℕ) (c : Payload) (w : World)
      → count (is_user_token_of uid) w.auth.user_tokens ≡ 0
      → s.verify k later ≡ some c
      → c.uid ≡ uid
      → let w' = (register_b2b s i uid o image located detailed dto w).1 in
        Refuses w' (auth_b2b_guard s false (some k) later w')
  unfolding auth_b2b_guard
  register_b2b-shut_out s i uid o image located detailed dto k later c w new e same =
      let w' = (register_b2b s i uid o image located detailed dto w).1 in
      let left = register_b2b-NamesNone s i uid o uid image dto located detailed w (
        omega (
          arith,
          new,
          count-le (names_partner uid) (is_user_token_of uid) w.auth.user_tokens
              (λ t h. ground arith),
        )) in
      elim (Option-cases c.organisation_uid) [
        | inl none_named ↦ ground (arith, e, none_named)
        | inr (p, named) ↦ ground (
          arith,
          e,
          named,
          find_first-eq_none (is_partner_token k c.uid p) w'.auth.user_tokens (
              omega (
                arith,
                left,
                count-le (is_partner_token k c.uid p) (names_partner uid) w'.auth.user_tokens
                    (λ t h. ground (arith, same, ==_iff t.user_uid c.uid, ==_iff t.user_uid uid)),
              )),
        )
      ]
