-- ===== src/Auth/Codes/Redeem.antt =====
-- The ways in which `verify_reset_otp` of app/modules/auth/service.py ends, and the code that it uses up.
use aidigiplanner_backend.Base.{
  ℕ, ◌+◌, ◌*◌, ◌≤◌, none, update, eq_iff, ◌≡◌, ◌≢◌, refl, false, ◌&&◌, ◌==◌, leb, ltb, str_eq,
  String, some, List, [], ◌∷◌, is_none, arith, Bool-cases, Option-cases, inl, inr,
}
use aidigiplanner_backend.Model.{Database, User, Otp, PasswordResetToken}
use aidigiplanner_backend.Model.Session.{Session, Result, ok, err, app, bad_request, open_session}
use aidigiplanner_backend.Auth.Login.{find_user}
use aidigiplanner_backend.Auth.Codes.Newest.{Newest, current_otp-Newest, Newest-current_otp}
use aidigiplanner_backend.Auth.Codes.{
  CodeEnvironment, verify_reset_otp, find_account, current_otp, put_otp, new_reset_token,
}

module _ (env : CodeEnvironment) (email otp : String) (d : Database) where
  -- The code that the request is checked against.
  pub record Candidate (user : User) (o : Otp) : Type 0 where
    pub account : find_user (env.tokens.lower email) d ≡ some user
    pub kept : user.deleted_at ≡ none
    pub newest : Newest user.id env.tokens.now o d.password_reset_otps
    pub unlocked : o.attempts + 1 ≤ env.otp_max_attempts

  -- The token is the user's, opens with what the request returns, and ends with its lifetime.
  pub record IsResetToken (user : User) (t : PasswordResetToken) : Type 0 where
    pub owner : t.user_id ≡ user.id
    pub secret : t.token_hash ≡ env.tokens.hash_opaque_token env.tokens.generated_token
    pub lifetime : t.expires_at ≡ env.tokens.now + env.password_reset_ttl_minutes * 60_000_000
    pub unused : t.used_at ≡ none

  pub data ResetOutcome (r : Result String) (s : Session) : Type 0 where
    refused :
        ¬ ((user : User) × (o : Otp) × Candidate user o)
        → r ≡ err (app bad_request)
        → s ≡ open_session d
        → ResetOutcome r s
    wrong :
        (user : User) (o : Otp)
        → Candidate user o
        → env.tokens.hash_opaque_token otp ≢ o.otp_hash
        → r ≡ err (app bad_request)
        → s.committed.password_reset_otps
          ≡ update
              (λ x. x.id == o.id)
              (λ _. record o { attempts = o.attempts + 1 })
              d.password_reset_otps
        → s.committed.password_reset_tokens ≡ d.password_reset_tokens
        → ResetOutcome r s
    redeemed :
        (user : User) (o : Otp) (t : PasswordResetToken)
        → Candidate user o
        → env.tokens.hash_opaque_token otp ≡ o.otp_hash
        → IsResetToken user t
        → r ≡ ok env.tokens.generated_token
        → s.committed.password_reset_otps
          ≡ update
              (λ x. x.id == o.id)
              (λ _. record o { used_at = some env.tokens.now })
              d.password_reset_otps
        → s.committed.password_reset_tokens ≡ t ∷ d.password_reset_tokens
        → ResetOutcome r s

  -- What the request finds of a candidate.
  Candidate-current :
      {user : User} {o : Otp}
      → Candidate user o
      → (find_account env email d ≡ some user)
        × (current_otp user.id env.tokens.now d.password_reset_otps ≡ some o)
        × (leb env.otp_max_attempts o.attempts ≡ false)
  unfolding find_account
  Candidate-current {user} {o} c =
      let account = c.account in
      let kept = c.kept in
      let unlocked = c.unlocked in
      (
        ground arith,
        Newest-current_otp user.id env.tokens.now o d.password_reset_otps c.newest,
        ground arith,
      )

  account_kept :
      (user : User)
      → find_account env email d ≡ some user
      → (find_user (env.tokens.lower email) d ≡ some user) × (user.deleted_at ≡ none)
  unfolding find_account
  account_kept user h = elim (Option-cases (find_user (env.tokens.lower email) d)) [
    | inl missing ↦ absurd (ground arith)
    | inr (u, found) ↦ elim (Bool-cases (is_none u.deleted_at)) [
      | inr gone ↦ absurd (ground arith)
      | inl kept ↦ (ground arith, ground arith)
    ]
  ]

  checked-ResetOutcome :
      (user : User) (o : Otp)
      → find_account env email d ≡ some user
      → current_otp user.id env.tokens.now d.password_reset_otps ≡ some o
      → leb env.otp_max_attempts o.attempts ≡ false
      → ResetOutcome
          (verify_reset_otp env email otp (open_session d)).0
          (verify_reset_otp env email otp (open_session d)).1
  unfolding verify_reset_otp
  checked-ResetOutcome user o account current unlocked =
      let (found, kept) = account_kept user account in
      let c : Candidate user o = record {
        account = found;
        kept = kept;
        newest = current_otp-Newest user.id env.tokens.now o d.password_reset_otps current;
        unlocked = ground arith;
      } in
      elim (Bool-cases (str_eq (env.tokens.hash_opaque_token otp) o.otp_hash)) [
        | inl right ↦
            ResetOutcome.redeemed user o (new_reset_token env user.id) c
              ((eq_iff (env.tokens.hash_opaque_token otp) o.otp_hash).0 right)
              (record { owner = refl; secret = refl; lifetime = refl; unused = refl })
              (ground arith) (ground arith) (ground arith)
        | inr mismatch ↦
            ResetOutcome.wrong user o c
              (λ e. let right = (eq_iff (env.tokens.hash_opaque_token otp) o.otp_hash).1 e in cc)
              (ground arith) (ground arith) (ground arith)
      ]

  -- The newest code of the account, among its unused and unexpired ones, is what a check of a
  -- password-reset code counts on. Without such a code, or when it has been tried too often, the
  -- check is refused and nothing changes; a wrong code costs that code one attempt; the right one is
  -- used up and buys the user one reset token, with the token's full lifetime.
  pub verify_reset_otp-ResetOutcome :
      ResetOutcome
        (verify_reset_otp env email otp (open_session d)).0
        (verify_reset_otp env email otp (open_session d)).1
  unfolding verify_reset_otp
  verify_reset_otp-ResetOutcome = elim (Option-cases (find_account env email d)) [
    | inl missing ↦
        ResetOutcome.refused (λ (user, o, c). let e = (Candidate-current c).0 in cc) (ground arith)
          (ground arith)
    | inr (user, account) ↦
        elim (Option-cases (current_otp user.id env.tokens.now d.password_reset_otps)) [
          | inl no_code ↦
              ResetOutcome.refused
                (λ (u, o, c). let (e, f, g) = Candidate-current c in ground arith) (ground arith)
                (ground arith)
          | inr (o, current) ↦ elim (Bool-cases (leb env.otp_max_attempts o.attempts)) [
            | inl locked ↦
                ResetOutcome.refused
                  (λ (u, x, c). let (e, f, g) = Candidate-current c in ground arith) (ground arith)
                  (ground arith)
            | inr unlocked ↦ checked-ResetOutcome user o account current unlocked
          ]
        ]
  ]

-- A code that was used up is no user's current code any more.
pub current_otp-used :
    (o used : Otp) (user_id now : ℕ) (rows : List Otp) {found : Otp}
    → used.id ≡ o.id
    → is_none used.used_at ≡ false
    → current_otp user_id now (put_otp used rows) ≡ some found
    → found.id ≢ o.id
current_otp-used o used user_id now [] id spent e = cc
current_otp-used o used user_id now (r ∷ rs) {found} id spent e =
    elim (Bool-cases (r.id == used.id)) [
      | inl hit ↦ current_otp-used o used user_id now rs {found = found} id spent (ground arith)
      | inr miss ↦
          elim (Bool-cases (r.user_id == user_id && (is_none r.used_at && ltb now r.expires_at))) [
            | inl here ↦ let same : r ≡ found = ground arith in λ clash. ground arith
            | inr further ↦
                current_otp-used o used user_id now rs {found = found} id spent (ground arith)
          ]
    ]

-- Whatever code is anybody's current one, at any time, after a code has bought a reset token, it is
-- not that code: a password-reset code cannot be redeemed again.
pub verify_reset_otp_once :
    (env : CodeEnvironment) (email otp : String) (d : Database) (raw : String) (user_id now : ℕ)
    (x : Otp)
    → (verify_reset_otp env email otp (open_session d)).0 ≡ ok raw
    → current_otp user_id now
        (verify_reset_otp env email otp (open_session d)).1.committed.password_reset_otps
      ≡ some x
    → (user : User) × (o : Otp) × Candidate env email otp d user o × (x.id ≢ o.id)
verify_reset_otp_once env email otp d raw user_id now x granted h =
    elim (verify_reset_otp-ResetOutcome env email otp d) [
      | ResetOutcome.refused none_current e same ↦ cc
      | ResetOutcome.wrong user o c mismatch e counted tokens ↦ cc
      | ResetOutcome.redeemed user o t c right token e used tokens ↦ (
        user,
        o,
        c,
        current_otp-used o (record o { used_at = some env.tokens.now }) user_id now
            d.password_reset_otps {found = x} refl refl (rw used at h),
      )
    ]
