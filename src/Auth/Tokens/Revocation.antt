-- ===== src/Auth/Tokens/Revocation.antt =====
-- What `logout_all` and `change_password` of app/modules/auth/service.py take away.
use aidigiplanner_backend.Base.{
  ℕ, ◌+◌, ◌≡◌, refl, Bool, true, false, ◌&&◌, ◌==◌, String, Option, some, List, [], ◌∷◌, first,
  update, count, ◌⊎◌, str_eq, ◌≤◌, count-update_zero, Bool-cases, Option-cases, arith, inl, inr,
}
use aidigiplanner_backend.Model.{Database, User, RefreshToken, RefreshTokenRevokedReason}
use aidigiplanner_backend.Model.Session.{err, app, unauthorized, open_session, with_code}
use aidigiplanner_backend.Model.Queries.{get_user}
use aidigiplanner_backend.Core.Access.{Claims, get_current_user}
use aidigiplanner_backend.Auth.Tokens.{
  TokenEnvironment, logout_all, change_password, is_live, revoked, verify_password,
}

abbrev pub live_of : ℕ → RefreshToken → Bool
live_of user_id t = t.user_id == user_id && is_live t

-- How many refresh tokens the user can still use.
abbrev pub usable_tokens : ℕ → Database → ℕ
usable_tokens user_id d = count (live_of user_id) d.refresh_tokens

all_revoked :
    (user_id now : ℕ) (reason : RefreshTokenRevokedReason) (rows : List RefreshToken)
    → count (live_of user_id) (update (live_of user_id) (revoked now reason) rows) ≡ 0
all_revoked user_id now reason rows =
    count-update_zero (live_of user_id) (live_of user_id) (revoked now reason) rows
      (λ x _. ground arith) (λ x h. h)

-- The row that is read after the user has been written back.
first-put :
    (user new : User) (rows : List User) {found : User}
    → first (λ u. u.id == user.id) (update (λ u. u.id == user.id) (λ _. new) rows) ≡ some found
    → new.id ≡ user.id
    → found ≡ new
first-put user new [] e id = cc
first-put user new (u ∷ us) {found} e id = elim (Bool-cases (u.id == user.id)) [
  | inl hit ↦ ground arith
  | inr miss ↦ first-put user new us (rw (miss, miss) at e) id
]

-- What takes the user's sessions away: no refresh token left, and a newer token version.
module _ (decode : String → Option Claims) (token : String) (claims : Claims) where
  outdated :
      (d : Database)
      → decode token ≡ some claims
      → ((user : User)
          → get_user claims.sub d ≡ some user
          → claims.token_version + 1 ≤ user.token_version)
      → (get_current_user decode (some token) (open_session d)).0 ≡ err (app unauthorized)
  unfolding get_current_user
  outdated d signed older = elim (Bool-cases (str_eq claims.token_type "access")) [
    | inr other ↦ ground arith
    | inl access ↦ elim (Option-cases (get_user claims.sub d)) [
      | inl gone ↦ ground arith
      | inr (user, found) ↦ let newer = older user found in ground arith
    ]
  ]

  module _ (env : TokenEnvironment) (user : User) (d : Database) where
    -- The row that a write of the user leaves.
    newer_row :
        (new : User)
        → claims.sub ≡ user.id
        → claims.token_version ≤ user.token_version
        → new.id ≡ user.id
        → new.token_version ≡ user.token_version + 1
        → (found : User)
        → first (λ u. u.id == claims.sub) (update (λ u. u.id == user.id) (λ _. new) d.users)
          ≡ some found
        → claims.token_version + 1 ≤ found.token_version
    newer_row new sub older id version found e =
        let same : found ≡ new = first-put user new d.users (rw sub at e) id in
        rw same (ground arith)

    -- After logging out everywhere a user has no usable refresh token, and every access token of the
    -- user with the version that was current, or an older one, is refused.
    pub logout_all_ends :
        decode token ≡ some claims
        → claims.sub ≡ user.id
        → claims.token_version ≤ user.token_version
        → (usable_tokens user.id (logout_all env user (open_session d)).1.committed ≡ 0)
          × ((get_current_user decode
                (some token)
                (open_session (logout_all env user (open_session d)).1.committed)).0
              ≡ err (app unauthorized))
    unfolding logout_all get_user
    logout_all_ends signed sub older = (
      all_revoked user.id env.now RefreshTokenRevokedReason.logout_all d.refresh_tokens,
      outdated (logout_all env user (open_session d)).1.committed signed
          (newer_row (record user { token_version = user.token_version + 1 }) sub older refl refl),
    )

    -- After a change of password with the right current one a user has no usable refresh token, and
    -- every access token of the user with the version that was current, or an older one, is refused;
    -- with a wrong current password the change is refused with 401 and changes nothing.
    pub change_password_ends :
        (current new : String)
        → decode token ≡ some claims
        → claims.sub ≡ user.id
        → claims.token_version ≤ user.token_version
        → ((verify_password env current (some user.password_hash) ≡ true)
            × (usable_tokens user.id
                  (change_password env user current new (open_session d)).1.committed
                ≡ 0)
            × ((get_current_user decode (some token) (
                  open_session
                    (change_password env user current new (open_session d)).1.committed)).0
                ≡ err (app unauthorized)))
          ⊎ ((verify_password env current (some user.password_hash) ≡ false)
              × (change_password env user current new (open_session d)
                  ≡ (err (app (with_code unauthorized "invalid_credentials")), open_session d)))
    unfolding change_password get_user
    change_password_ends current new signed sub older =
        elim (Bool-cases (verify_password env current (some user.password_hash))) [
          | inr wrong ↦ inr (wrong, ground arith)
          | inl right ↦
              let changed : User = record user {
                password_hash = env.hash_password new;
                token_version = user.token_version + 1;
              } in
              let zero =
                all_revoked user.id env.now RefreshTokenRevokedReason.password_changed
                  d.refresh_tokens in
              inl (
                right,
                rw right zero,
                outdated (change_password env user current new (open_session d)).1.committed signed
                    (rw right (newer_row changed sub older refl refl)),
              )
        ]
