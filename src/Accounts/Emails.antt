-- ===== src/Accounts/Emails.antt =====
-- Changing an email keeps the case that it is written in.
use ludora_back.Prelude.{
  ℕ, String, ◌≡◌, Bool, false, not, ◌&&◌, ◌==◌, none, some, arith, count, count-none, true, str_eq,
  inl, inr, ◌⊎◌,
}
use ludora_back.World.{Client, User, World, Refuses, ok, is_ok, find_first-eq_none}
use ludora_back.Accounts.{is_email, find_one_by_email, update_email, update_user}

module _ ⦃client : Client⦄ where
  abbrev with_email : String → User → User
  with_email e u = record u { email = some e }

  update_email_cases :
      (uid : ℕ) (e : String) (w : World)
      → let (r, w') = update_email uid e w in
        Refuses w (r, w')
        ⊎ (r ≡ ok tt)
          × (count (is_email e) w.users ≡ 0)
          × (w'.users ≡ client.update_many (λ (u : User). u.uid == uid) (with_email e) w.users)
  unfolding update_email update_user
  update_email_cases uid e w = ground (arith, client.find_first-none (is_email e) w.users)

  -- No other account has the email `x`, and then none has it once the user has another one.
  other_email :
      (uid : ℕ) (e x : String) (w : World)
      → str_eq e x ≡ false
      → count (λ u. not (u.uid == uid) && is_email x u) w.users ≡ 0
      → count (is_email x) (client.update_many (λ (u : User). u.uid == uid) (with_email e) w.users)
        ≡ 0
  other_email uid e x w other absent =
      let mine : User → Bool = λ u. u.uid == uid in
      omega (
        arith,
        absent,
        client.count-update_many mine (with_email e) (is_email x) w.users,
        count-none (λ u. mine u && is_email x (with_email e u)) w.users
            (λ u. ground (arith, other)),
      )

  pub update_email-hides :
      (uid : ℕ) (e x : String) (w : World)
      → str_eq e x ≡ false
      → count (λ u. not (u.uid == uid) && is_email x u) w.users ≡ 0
      → is_ok (update_email uid e w).0 ≡ true
      → find_one_by_email x (update_email uid e w).1 ≡ none
  update_email-hides uid e x w other absent changed = elim (update_email_cases uid e w) [
    | inl (failed, same) ↦ absurd (ground (arith, failed, changed))
    | inr (done, new, table) ↦
        rw (find_one_by_email, table)
          (find_first-eq_none (is_email x) _ (other_email uid e x w other absent))
  ]
