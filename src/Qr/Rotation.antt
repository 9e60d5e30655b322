-- ===== src/Qr/Rotation.antt =====
-- modules/tickets/qr.service.js: two requests that rotate one token.
use qpass_backend.Prelude.{
  ℕ, String, ◌≡◌, refl, ◌∙◌, true, false, Option, none, some, List, arith, eq_refl,
}
use qpass_backend.Prelude.Tables.{
  find_first, count, update_many, count-update_many, find_first-update_many, count_narrow,
}
use qpass_backend.Db.{Db, QrToken, ok, ◌>>◌}
use qpass_backend.Event.Handlers.{alone}
use qpass_backend.Qr.{Crypto, Draw, is_qr_token, same_cipher, unrotated, rotate, rotate_token}

same_cipher_refl : (o : Option String) → same_cipher o o ≡ true
same_cipher_refl none = refl
same_cipher_refl (some s) = eq_refl s

module _ (crypto : Crypto) (seen : QrToken) (db : Db)
    (found : find_first (is_qr_token seen.id) db.qr_tokens ≡ some seen)
    (one : count (is_qr_token seen.id) db.qr_tokens ≡ 1) (live : seen.revoked_at ≡ none) where
  winner_counts : count (unrotated seen) db.qr_tokens ≡ 1
  winner_counts =
      count_narrow (is_qr_token seen.id) (unrotated seen) db.qr_tokens (λ b h. ground arith) found
        one
      ∙ ground (arith, eq_refl seen.id, same_cipher_refl seen.token_cipher, live)

  module _ (draw : Draw) (expires_at : ℕ)
      (fresh : same_cipher (some (crypto.encrypt draw.iv draw.raw_token)) seen.token_cipher
        ≡ false) where
    abbrev won : QrToken
    won = rotate crypto draw expires_at seen

    abbrev tokens : List QrToken
    tokens = update_many (unrotated seen) (rotate crypto draw expires_at) db.qr_tokens

    won_found : find_first (is_qr_token seen.id) tokens ≡ some won
    won_found =
        find_first-update_many (is_qr_token seen.id) (unrotated seen)
          (rotate crypto draw expires_at) db.qr_tokens (λ a h. refl)
        ∙ ground (arith, found, eq_refl seen.id, same_cipher_refl seen.token_cipher, live)

    loser_counts : count (unrotated seen) tokens ≡ 0
    loser_counts =
        count_narrow (is_qr_token seen.id) (unrotated seen) tokens (λ b h. ground arith) won_found
          (count-update_many (is_qr_token seen.id) (unrotated seen) (rotate crypto draw expires_at)
              db.qr_tokens (λ a h. refl)
            ∙ one)
        ∙ ground (arith, fresh)

    -- Two requests have read the same row, unrevoked and the only one of its id, and both rotate it;
    -- the other one does so before this one's update. Where the cipher opens what it closed and the
    -- other request's ciphertext differs from the stored one, both return the other request's token.
    pub rotate_token-converges :
        (draw' : Draw) (expires_at' : ℕ)
        → ((iv s : String) → crypto.decrypt (crypto.encrypt iv s) ≡ some s)
        → ((rotate_token crypto alone draw expires_at seen db).0 ≡ ok (some draw.raw_token))
          × ((rotate_token crypto
                (record alone {
                  before_write = λ d. (rotate_token crypto alone draw expires_at seen d).1;
                })
                draw'
                expires_at'
                seen
                db).0
              ≡ ok (some draw.raw_token))
    unfolding rotate_token ◌>>◌
    rotate_token-converges draw' expires_at' law =
        let w = winner_counts in
        let l = loser_counts in
        let latest =
          find_first-update_many (is_qr_token seen.id) (unrotated seen)
            (rotate crypto draw' expires_at') tokens (λ a h. refl) in
        let opens = law draw.iv draw.raw_token in
        (
          ground (arith, w),
          ground (
            arith,
            l,
            latest,
            won_found,
            fresh,
            live,
            opens,
            eq_refl (crypto.hash_token draw.raw_token),
          ),
        )
