-- ===== src/Db/Users.antt =====
-- The statements on the table of users that several services send.
use qpass_backend.Prelude.{String, Bool, ◌||◌, [], ◌∷◌, ◌++◌, ◌==◌, is_some, is_none}
use qpass_backend.Prelude.Tables.{find_first, update_many}
use qpass_backend.Fault.{unique_violation, record_missing}
use qpass_backend.Db.Rows.{User}
use qpass_backend.Db.Monad.{M, ◌>>=◌, ◌>>◌, pure, throw_if, gets, modify}

abbrev pub has_email : String → User → Bool
has_email email u = u.email == email

abbrev pub is_user : String → User → Bool
is_user id u = u.id == id

-- prisma.user.create
unfoldable pub insert_user : User → M User
insert_user new = do
  clash ← gets (λ db. find_first (λ u. (u.id == new.id) || (u.email == new.email)) db.users)
  throw_if (is_some clash) unique_violation
  modify (λ db. record db { users = db.users ++ new ∷ [] })
  pure new

-- prisma.user.update by id
unfoldable pub update_user : String → (User → User) → M (Unit {0})
update_user id f = do
  found ← gets (λ db. find_first (is_user id) db.users)
  throw_if (is_none found) record_missing
  modify (λ db. record db { users = update_many (is_user id) f db.users })
