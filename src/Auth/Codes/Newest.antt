-- ===== src/Auth/Codes/Newest.antt =====
-- The current one-time code of a user (app/modules/auth/service.py), read off the
-- rows.
use aidigiplanner_backend.Base.{
  ℕ, ◌<◌, ◌≡◌, refl, subst, Bool, true, ◌&&◌, ◌==◌, ltb, none, some, List, [], ◌∷◌, is_none, arith,
  Bool-cases, inl, inr,
}
use aidigiplanner_backend.Model.{Otp}
use aidigiplanner_backend.Auth.Codes.{current_otp}

-- A code of the user that is neither used nor expired.
pub record IsUsable (user_id now : ℕ) (o : Otp) : Type 0 where
  pub owner : o.user_id ≡ user_id
  pub unused : o.used_at ≡ none
  pub unexpired : now < o.expires_at

-- The first such code in the table, which has the newest rows first.
pub data Newest (user_id now : ℕ) (o : Otp) : List Otp → Type 0 where
  top : {rows : List Otp} → IsUsable user_id now o → Newest user_id now o (o ∷ rows)
  behind :
      {x : Otp} {rows : List Otp}
      → ¬ IsUsable user_id now x
      → Newest user_id now o rows
      → Newest user_id now o (x ∷ rows)

module _ (user_id now : ℕ) where
  abbrev is_usable : Otp → Bool
  is_usable o = o.user_id == user_id && (is_none o.used_at && ltb now o.expires_at)

  is_usable-IsUsable : (o : Otp) → is_usable o ≡ true → IsUsable user_id now o
  is_usable-IsUsable o h = record {
    owner = ground arith;
    unused = ground arith;
    unexpired = ground arith;
  }

  IsUsable-is_usable : (o : Otp) → IsUsable user_id now o → is_usable o ≡ true
  IsUsable-is_usable o u =
      let owner = u.owner in let unused = u.unused in let unexpired = u.unexpired in ground arith

  pub current_otp-Newest :
      (o : Otp) (rows : List Otp)
      → current_otp user_id now rows ≡ some o
      → Newest user_id now o rows
  current_otp-Newest o [] h = cc
  current_otp-Newest o (x ∷ rows) h = elim (Bool-cases (is_usable x)) [
    | inl hit ↦
        let same : x ≡ o = ground arith in
        subst (λ y. Newest user_id now y (x ∷ rows)) same (Newest.top (is_usable-IsUsable x hit))
    | inr miss ↦
        Newest.behind (λ u. let hit = IsUsable-is_usable x u in cc)
          (current_otp-Newest o rows (rw miss at h))
  ]

  pub Newest-current_otp :
      (o : Otp) (rows : List Otp)
      → Newest user_id now o rows
      → current_otp user_id now rows ≡ some o
  Newest-current_otp o [] n = elim n [ ]
  Newest-current_otp o (x ∷ rows) (Newest.top u) = rw (IsUsable-is_usable o u) refl
  Newest-current_otp o (x ∷ rows) (Newest.behind worn n) = elim (Bool-cases (is_usable x)) [
    | inl hit ↦ absurd (worn (is_usable-IsUsable x hit))
    | inr miss ↦ rw miss (Newest-current_otp o rows n)
  ]
