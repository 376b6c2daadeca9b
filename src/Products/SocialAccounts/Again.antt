-- ===== src/Products/SocialAccounts/Again.antt =====
-- Accounts that are connected again, under `SocialAccountService`
-- (app/modules/social_accounts/service.py).
use aidigiplanner_backend.Base.{
  ℕ, ◌≡◌, refl, true, ◌&&◌, ◌==◌, none, some, List, [], ◌∷◌, any, first, is_none, update, arith,
  Bool-cases, inl, inr,
}
use aidigiplanner_backend.Model.{Database, User, SocialAccount}
use aidigiplanner_backend.Model.Session.{err, crash, open_session}
use aidigiplanner_backend.Products.SocialAccounts.{
  AccountDraft, is_twin, live_twin, add_account, find_account, remove_account,
}

-- The row stays in the table.
twin-stays :
    (product_id account_id now : ℕ) (draft : AccountDraft) (a : SocialAccount)
    (xs : List SocialAccount)
    → first (λ r. r.id == account_id && r.product_id == product_id && is_none r.deleted_at) xs
      ≡ some a
    → is_twin product_id draft a ≡ true
    → any
        (is_twin product_id draft)
        (update (λ r. r.id == a.id) (λ _. record a { deleted_at = some now }) xs)
      ≡ true
twin-stays product_id account_id now draft a [] found twin = cc
twin-stays product_id account_id now draft a (x ∷ xs) found twin =
    elim (Bool-cases (x.id == a.id)) [
      | inl hit ↦ rw hit (rw twin refl)
      | inr miss ↦
          elim (Bool-cases
            (x.id == account_id && x.product_id == product_id && is_none x.deleted_at)) [
              | inl same ↦ absurd (ground arith)
              | inr other ↦
                  let rest =
                    twin-stays product_id account_id now draft a xs (rw other at found) twin in
                  rw miss (ground arith)
            ]
    ]

taken_crashes :
    (product_id id : ℕ) (actor : User) (draft : AccountDraft) (d : Database)
    → live_twin product_id draft d ≡ none
    → any (is_twin product_id draft) d.social_accounts ≡ true
    → add_account id product_id actor draft (open_session d) ≡ (err crash, open_session d)
unfolding add_account
taken_crashes product_id id actor draft d alone taken = ground arith

-- An account that has been removed cannot be entered again: where no other live account is like it, the
-- request fails with an exception that is no answer of the API, and stores nothing.
pub removed_account_stays_taken :
    (product_id account_id now id : ℕ) (actor : User) (draft : AccountDraft) (d : Database)
    (a : SocialAccount)
    → find_account product_id account_id d ≡ some a
    → is_twin product_id draft a ≡ true
    → live_twin product_id draft
        (remove_account product_id account_id actor now (open_session d)).1.committed
      ≡ none
    → add_account id product_id actor draft
        (open_session (remove_account product_id account_id actor now (open_session d)).1.committed)
      ≡ (
        err crash,
        open_session (remove_account product_id account_id actor now (open_session d)).1.committed,
      )
unfolding find_account remove_account
removed_account_stays_taken product_id account_id now id actor draft d a found twin alone =
    let d' = (remove_account product_id account_id actor now (open_session d)).1.committed in
    let rows : d'.social_accounts
        ≡ update (λ r. r.id == a.id) (λ _. record a { deleted_at = some now }) d.social_accounts =
      ground arith in
    taken_crashes product_id id actor draft d' alone
      (rw rows (twin-stays product_id account_id now draft a d.social_accounts found twin))
