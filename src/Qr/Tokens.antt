-- ===== src/Qr/Tokens.antt =====
-- modules/tickets/qr.service.js: a token that was issued is the one that is validated and recovered.
use qpass_backend.Prelude.{ℕ, ◌≤◌, String, ◌≡◌, Option, some, arith, ◌==◌, eq_refl}
use qpass_backend.Prelude.Tables.{find_first-append, find_first-none}
use qpass_backend.Db.{Db, ok, ◌>>◌}
use qpass_backend.Event.Handlers.{Interleaving}
use qpass_backend.Qr.{
  Crypto, Draw, clashes, insert_token, new_token, generate_token, or_rotate, recover_raw_token,
  validate_token,
}

module _ (crypto : Crypto) (draw : Draw) (registration_id raw : String) (expires_at now : ℕ)
    (db : Db) (issued : (generate_token crypto draw registration_id expires_at db).0 ≡ ok raw) where
  generate-validate :
      now ≤ expires_at
      → validate_token crypto now raw (generate_token crypto draw registration_id expires_at db).1
        ≡ (
          ok (new_token crypto draw registration_id expires_at),
          (generate_token crypto draw registration_id expires_at db).1,
        )
  unfolding generate_token insert_token validate_token ◌>>◌
  generate-validate h =
      let new = new_token crypto draw registration_id expires_at in
      let hash = crypto.hash_token draw.raw_token in
      let free =
        find_first-none (clashes new) (λ t. t.token_hash == hash) db.qr_tokens
          (λ t e. ground arith) in
      let x = find_first-append (λ t. t.token_hash == hash) db.qr_tokens new in
      ground (arith, free, x, eq_refl hash, issued)

  generate-recover :
      ((iv s : String) → crypto.decrypt (crypto.encrypt iv s) ≡ some s)
      → (env : Interleaving) (draw' : Draw) (end_time : Option ℕ) (db' : Db)
      → recover_raw_token crypto env draw' now end_time
          (new_token crypto draw registration_id expires_at)
          db'
        ≡ (ok (some raw), db')
  unfolding generate_token insert_token recover_raw_token or_rotate ◌>>◌
  generate-recover law env draw' end_time db' =
      let l = law draw.iv draw.raw_token in
      ground (arith, l, eq_refl (crypto.hash_token draw.raw_token), issued)

  -- A token that `generateToken` returned is accepted until it expires, as the token of that
  -- registration; and where the cipher opens what it closed, it is recovered from its row as it was
  -- returned, whatever other requests do. Neither writes anything.
  pub generate_round_trip :
      now ≤ expires_at
      → ((iv s : String) → crypto.decrypt (crypto.encrypt iv s) ≡ some s)
      → (env : Interleaving) (draw' : Draw) (end_time : Option ℕ) (db' : Db)
      → (validate_token crypto now raw (generate_token crypto draw registration_id expires_at db).1
          ≡ (
            ok (new_token crypto draw registration_id expires_at),
            (generate_token crypto draw registration_id expires_at db).1,
          ))
        × (recover_raw_token crypto env draw' now end_time
              (new_token crypto draw registration_id expires_at)
              db'
            ≡ (ok (some raw), db'))
  generate_round_trip h law env draw' end_time db' =
      (generate-validate h, generate-recover law env draw' end_time db')
