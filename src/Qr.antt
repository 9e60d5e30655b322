-- ===== src/Qr.antt =====
-- modules/tickets/qr.service.js: the QR token of a registration.
pub mod Tokens
pub mod Rotation
use qpass_backend.Prelude.{
  ℕ, ◌+◌, ◌*◌, String, Bool, true, false, ◌&&◌, ◌||◌, Option, none, some, [], ◌∷◌, ◌++◌, ◌==◌,
  is_none, is_some, if◌then◌else◌, eqb, ltb,
}
use qpass_backend.Prelude.Tables.{find_first, count, update_many}
use qpass_backend.Fault.{
  plain, not_found, unique_violation, ticket_already_exists, ticket_invalid_qr, ticket_expired,
  ticket_revoked,
}
use qpass_backend.Db.{
  QrToken, pos, M, Result, ok, err, ◌>>=◌, ◌>>◌, pure, throw_if, or_throw, gets, modify, attempt,
  from_result,
}
use qpass_backend.Event.Handlers.{Interleaving}

-- utils/crypto.js over Node's crypto: SHA-256, and AES-256-GCM under the key of the server.
-- `decrypt` is `none` where the original throws. An encryption takes its random bytes.
pub record Crypto : Type 0 where
  pub hash_token : String → String
  pub encrypt : String → String → String
  pub decrypt : String → Option String

-- The random values of one request, and the id of a new row.
pub record Draw : Type 0 where
  pub raw_token : String
  pub iv : String
  pub new_id : String

abbrev pub is_qr_token : String → QrToken → Bool
is_qr_token id t = t.id == id

abbrev pub token_of : String → QrToken → Bool
token_of registration_id t = t.registration_id == registration_id

-- The unique columns of the table.
abbrev pub clashes : QrToken → QrToken → Bool
clashes new t =
    (t.id == new.id)
    || (t.registration_id == new.registration_id)
    || (t.token_hash == new.token_hash)

-- prisma.qrToken.create
unfoldable pub insert_token : QrToken → M (Unit {0})
insert_token new = do
  clash ← gets (λ db. find_first (clashes new) db.qr_tokens)
  throw_if (is_some clash) unique_violation
  modify (λ db. record db { qr_tokens = db.qr_tokens ++ new ∷ [] })

-- catch (err) { if (err.code === 'P2002') throw new Error(...); throw err; }
abbrev exists_error : Result (Unit {0}) → Result (Unit {0})
exists_error (ok u) = ok u
exists_error (err unique_violation) = err (plain ticket_already_exists)
exists_error (err e) = err e

-- A ciphertext that decrypts to the token that is stored by its hash.
abbrev pub confirmed : Crypto → String → Option String → Option String
confirmed crypto token_hash none = none
confirmed crypto token_hash (some raw) =
    if crypto.hash_token raw == token_hash then some raw else none

abbrev pub opened : Crypto → QrToken → Option String
opened crypto t = elim t.token_cipher [
  | none ↦ none
  | some c ↦ confirmed crypto t.token_hash (crypto.decrypt c)
]

-- where: { id, tokenCipher: qrToken.tokenCipher ?? null, revokedAt: null }
abbrev pub same_cipher : Option String → Option String → Bool
same_cipher none none = true
same_cipher none (some b) = false
same_cipher (some a) none = false
same_cipher (some a) (some b) = a == b

abbrev pub unrotated : QrToken → QrToken → Bool
unrotated seen t =
    is_qr_token seen.id t && same_cipher t.token_cipher seen.token_cipher && is_none t.revoked_at

abbrev pub hours_ms : ℕ → ℕ
hours_ms h = h * 60 * 60 * 1000

module _ (crypto : Crypto) where
  abbrev pub new_token : Draw → String → ℕ → QrToken
  new_token draw registration_id expires_at = record {
    id = draw.new_id;
    registration_id = registration_id;
    token_hash = crypto.hash_token draw.raw_token;
    token_cipher = some (crypto.encrypt draw.iv draw.raw_token);
    expires_at = expires_at;
    revoked_at = none;
    scan_count = pos 0;
  }

  unfoldable pub generate_token : Draw → String → ℕ → M String
  generate_token draw registration_id expires_at = do
    r ← attempt (insert_token (new_token draw registration_id expires_at))
    u ← from_result (exists_error r)
    pure draw.raw_token

  -- The row with a fresh token.
  abbrev pub rotate : Draw → ℕ → QrToken → QrToken
  rotate draw expires_at t = record t {
    token_hash = crypto.hash_token draw.raw_token;
    token_cipher = some (crypto.encrypt draw.iv draw.raw_token);
    expires_at = expires_at;
  }

  -- The token of the caller that won, reloaded.
  abbrev pub reloaded : Option QrToken → Option String
  reloaded none = none
  reloaded (some latest) = if is_some latest.revoked_at then none else opened crypto latest

  -- The conditional update and what follows it. `env.before_write` is what other requests do since
  -- the row was read, `env.after_write` what they do before the reload.
  unfoldable pub rotate_token : Interleaving → Draw → ℕ → QrToken → M (Option String)
  rotate_token env draw expires_at seen = do
    modify env.before_write
    n ← gets (λ db. count (unrotated seen) db.qr_tokens)
    modify (λ db. record db {
      qr_tokens = update_many (unrotated seen) (rotate draw expires_at) db.qr_tokens;
    })
    modify env.after_write
    latest ← gets (λ db. find_first (is_qr_token seen.id) db.qr_tokens)
    pure (if eqb n 1 then some draw.raw_token else reloaded latest)

  -- `end_time` is the end of the event, where one is given.
  -- A token whose cipher opens is returned as it is.
  unfoldable pub or_rotate : Option String → M (Option String) → M (Option String)
  or_rotate (some raw) rotation = pure (some raw)
  or_rotate none rotation = rotation

  -- event?.endTime ? endTime + 24 h : now + 24 h
  abbrev pub reissue_expiry : ℕ → Option ℕ → ℕ
  reissue_expiry now none = now + hours_ms 24
  reissue_expiry now (some end_time) = end_time + hours_ms 24

  unfoldable pub recover_raw_token :
      Interleaving → Draw → ℕ → Option ℕ → QrToken → M (Option String)
  recover_raw_token env draw now end_time t = or_rotate (opened crypto t) (
      if is_some t.revoked_at
      then pure none
      else rotate_token env draw (reissue_expiry now end_time) t)

  -- where: { tokenHash }
  unfoldable pub validate_token : ℕ → String → M QrToken
  validate_token now token = do
    found ← gets (λ db. find_first (λ t. t.token_hash == crypto.hash_token token) db.qr_tokens)
    t ← or_throw found (not_found ticket_invalid_qr)
    throw_if (ltb t.expires_at now) (plain ticket_expired)
    throw_if (is_some t.revoked_at) (plain ticket_revoked)
    pure t
