-- ===== src/Auth/Tokens/Families.antt =====
-- The families of refresh tokens of app/modules/auth/service.py, and the ways in which `refresh` ends.
use aidigiplanner_backend.Base.{
  ℕ, ◌+◌, ◌≤◌, ◌≡◌, refl, Bool, true, false, not, ◌&&◌, ◌||◌, ◌==◌, leb, str_eq, String, none, some,
  List, ◌∷◌, is_none, first, update, count, count-update_le, count-update_lt, count-update_zero,
  Bool-cases, Option-cases, arith, inl, inr,
}
use aidigiplanner_backend.Model.{
  Database, User, UserStatus, RefreshToken, RefreshTokenRevokedReason, is_user_status,
}
use aidigiplanner_backend.Model.Session.{Session, Result, ok, err, app, unauthorized, open_session}
use aidigiplanner_backend.Model.Queries.{get_user}
use aidigiplanner_backend.Auth.Tokens.{
  TokenEnvironment, TokenPair, token_pair, refresh, find_token, is_live, new_refresh_token, revoked,
  revoke_live,
}

abbrev pub live_in : ℕ → RefreshToken → Bool
live_in family_id t = t.family_id == family_id && is_live t

-- How many tokens of the family could still be used.
abbrev pub live_tokens : ℕ → Database → ℕ
live_tokens family_id d = count (live_in family_id) d.refresh_tokens

module _ (now : ℕ) (reason : RefreshTokenRevokedReason) where
  off-revoked : (f : ℕ) (t : RefreshToken) → live_in f (revoked now reason t) ≡ false
  off-revoked f t = ground arith

  -- Revoking the live tokens that pass a test adds no live token to any family.
  pub revoke_live_le :
      (test : RefreshToken → Bool) (d : Database) (f : ℕ)
      → live_tokens f (revoke_live test now reason d) ≤ live_tokens f d
  revoke_live_le test d f =
      count-update_le (live_in f) (λ t. test t && is_live t) (revoked now reason) d.refresh_tokens
        (λ x _. off-revoked f x)

  -- Revoking one row adds none either.
  pub revoke_row_le :
      (token : RefreshToken) (rows : List RefreshToken) (f : ℕ)
      → count (live_in f) (update (λ t. t.id == token.id) (λ _. revoked now reason token) rows)
        ≤ count (live_in f) rows
  revoke_row_le token rows f =
      count-update_le (live_in f) (λ t. t.id == token.id) (λ _. revoked now reason token) rows
        (λ x _. off-revoked f token)

  -- The token that takes the place of a live one in its family.
  replace_le :
      (token new : RefreshToken) (q : RefreshToken → Bool) (rows : List RefreshToken) (f : ℕ)
      → first q rows ≡ some token
      → is_live token ≡ true
      → new.family_id ≡ token.family_id
      → count
          (live_in f)
          (new ∷ update (λ t. t.id == token.id) (λ _. revoked now reason token) rows)
        ≤ count (live_in f) rows
  replace_le token new q rows f found live same = elim (Bool-cases (token.family_id == f)) [
    | inl here ↦
        let fewer =
          count-update_lt (live_in f) (λ t. t.id == token.id) (λ _. revoked now reason token) q rows
            (λ x _. off-revoked f token) found (ground arith) (ground arith) in
        ground arith
    | inr other ↦ let rest = revoke_row_le token rows f in ground arith
  ]

  family_revoked :
      (f : ℕ) (d : Database) → live_tokens f (revoke_live (λ t. t.family_id == f) now reason d) ≡ 0
  family_revoked f d =
      count-update_zero (live_in f) (live_in f) (revoked now reason) d.refresh_tokens
        (λ x _. off-revoked f x) (λ x h. h)

active :
    (status : UserStatus)
    → is_user_status status UserStatus.active ≡ true
    → status ≡ UserStatus.active
active UserStatus.pending h = cc
active UserStatus.active h = refl
active UserStatus.suspended h = cc

module _ (env : TokenEnvironment) (raw : String) (d : Database) where
  -- How a refresh ends.
  pub data RefreshOutcome (r : Result TokenPair) (s : Session) : Type 0 where
    refused : r ≡ err (app unauthorized) → s ≡ open_session d → RefreshOutcome r s
    reused :
        (token : RefreshToken)
        → find_token (env.hash_opaque_token raw) d ≡ some token
        → is_live token ≡ false
        → r ≡ err (app unauthorized)
        → live_tokens token.family_id s.committed ≡ 0
        → ((f : ℕ) → live_tokens f s.committed ≤ live_tokens f d)
        → RefreshOutcome r s
    rotated :
        (token : RefreshToken) (user : User)
        → find_token (env.hash_opaque_token raw) d ≡ some token
        → is_live token ≡ true
        → env.now + 1 ≤ token.expires_at
        → get_user token.user_id d ≡ some user
        → user.deleted_at ≡ none
        → user.status ≡ UserStatus.active
        → r ≡ ok (token_pair env user)
        → first (λ t. t.id == env.new_id) s.committed.refresh_tokens
          ≡ some (new_refresh_token env user.id token.family_id (some token.id))
        → ((f : ℕ) → live_tokens f s.committed ≤ live_tokens f d)
        → RefreshOutcome r s

  -- A refresh ends in one of three ways: 401 with nothing changed; for a token that was revoked before,
  -- 401 with no usable token left in its family; or, for a live token that has not expired and whose
  -- user is active and not deleted, a new token in the same family with the old one as its parent. No
  -- way leaves any family with more usable tokens than it had.
  pub refresh-RefreshOutcome :
      RefreshOutcome (refresh env raw (open_session d)).0 (refresh env raw (open_session d)).1
  unfolding refresh find_token
  refresh-RefreshOutcome = elim (Option-cases (find_token (env.hash_opaque_token raw) d)) [
    | inl missing ↦ RefreshOutcome.refused (ground arith) (ground arith)
    | inr (token, found) ↦ elim (Bool-cases (is_live token)) [
      | inl live ↦ elim (Bool-cases (leb token.expires_at env.now)) [
        | inl expired ↦ RefreshOutcome.refused (ground arith) (ground arith)
        | inr fresh ↦ elim (Option-cases (get_user token.user_id d)) [
          | inl gone ↦ RefreshOutcome.refused (ground arith) (ground arith)
          | inr (user, user_found) ↦
              elim (Bool-cases (
                not (is_none user.deleted_at)
                || not (is_user_status user.status UserStatus.active))) [
                  | inl shut ↦ RefreshOutcome.refused (ground arith) (ground arith)
                  | inr passed ↦
                      RefreshOutcome.rotated token user found live (ground arith) user_found
                        (ground arith) (active user.status (ground arith)) (ground arith)
                        (ground arith)
                        (λ f.
                          let le =
                            replace_le env.now RefreshTokenRevokedReason.rotated token
                              (new_refresh_token env user.id token.family_id (some token.id))
                              (λ t. str_eq t.token_hash (env.hash_opaque_token raw))
                              d.refresh_tokens f found live refl in
                          ground arith)
                ]
        ]
      ]
      | inr dead ↦
          RefreshOutcome.reused token found dead (ground arith)
            (let zero =
                family_revoked env.now RefreshTokenRevokedReason.reuse_detected token.family_id d in
              ground arith)
            (λ f.
              let le =
                revoke_live_le env.now RefreshTokenRevokedReason.reuse_detected
                  (λ t. t.family_id == token.family_id) d f in
              ground arith)
    ]
  ]
