-- ===== src/Password/Change.antt =====
-- `ChangePassword` of password.go, on every branch.
use dbmeta.Common.{
  ◌≡◌, ◌≢◌, refl, sym, ◌⊎◌, inl, inr, false, none, some, [], ◌∷◌, arith, is_empty, if◌then◌else◌,
  Bool-cases, Option-cases, Result, err, Error, model_not_built, not_supported, missing_param,
  invalid_password, wrapped, subst,
}
use dbmeta.Common.Text.{Text, str, contains_rune}
use dbmeta.Info.{Info, PasswordChange, Quoting}
use dbmeta.Dialect.{Dialect, Infos, info_of, lift}
use dbmeta.Password.{change_password, holds_nul}

-- The model of the dialect is built and writes the statement.
pub record Writes (infos : Infos) (d : Dialect) (write : PasswordChange → Quoting → Error ⊎ Text)
    : Type 0 where
  pub info : Info
  pub built : info_of infos d ≡ some info
  pub writes : info.change_password ≡ some write

abbrev pub NoNul : Text → Type 0
NoNul s = contains_rune s 0 ≡ false

-- What `ChangePassword` may answer.
pub data Changed (infos : Infos) (d : Dialect) (c : PasswordChange) (q : Quoting)
    : Result Text → Type 0 where
  no_model : info_of infos d ≡ none → Changed infos d c q (err model_not_built)
  no_statement :
      (info : Info)
      → info_of infos d ≡ some info
      → info.change_password ≡ none
      → Changed infos d c q (err not_supported)
  no_user :
      (write : PasswordChange → Quoting → Error ⊎ Text)
      → Writes infos d write
      → c.user ≡ []
      → (context : Text) → Changed infos d c q (err (wrapped context missing_param))
  nul :
      (write : PasswordChange → Quoting → Error ⊎ Text)
      → Writes infos d write
      → c.user ≢ []
      → ¬ (NoNul c.user × NoNul c.password × NoNul c.old)
      → Changed infos d c q (err invalid_password)
  written :
      (write : PasswordChange → Quoting → Error ⊎ Text)
      → Writes infos d write
      → c.user ≢ []
      → NoNul c.user × NoNul c.password × NoNul c.old
      → Changed infos d c q (lift (write c q))

module _ (infos : Infos) (d : Dialect) (c : PasswordChange) (q : Quoting) where
  without_model : info_of infos d ≡ none → change_password infos d c q ≡ err model_not_built
  unfolding change_password
  without_model e = rw (e, change_password)

  at_model :
      (info : Info)
      → info_of infos d ≡ some info
      → change_password infos d c q ≡ elim info.change_password [
        | none ↦ err not_supported
        | some write ↦
            if is_empty c.user
            then err (wrapped (str "changing a password: ") missing_param)
            else if holds_nul c
            then err invalid_password
            else lift (write c q)
      ]
  unfolding change_password
  at_model info e = rw (e, change_password)

  checks :
      (write : PasswordChange → Quoting → Error ⊎ Text)
      → Writes infos d write
      → Changed infos d c q (
          if is_empty c.user
          then err (wrapped (str "changing a password: ") missing_param)
          else if holds_nul c
          then err invalid_password
          else lift (write c q))
  unfolding holds_nul
  checks write w = go c.user refl
    where
      go :
          (user : Text)
          → c.user ≡ user
          → Changed infos d c q (
              if is_empty user
              then err (wrapped (str "changing a password: ") missing_param)
              else if holds_nul c
              then err invalid_password
              else lift (write c q))
      go [] e = no_user write w e _
      go (u ∷ user) e = elim (Bool-cases (holds_nul c)) [
        | inl h ↦ rw h (nul write w (λ n. cc) (λ free. ground arith))
        | inr h ↦ rw h (written write w (λ n. cc) (ground arith, ground arith, ground arith))
      ]

-- `ChangePassword` hands a change to the model of a dialect only when the model is built and writes
-- such a statement, the user is named and no NUL stands in any of the three texts; what the model
-- answers is the answer. In every other case it gives the error that names the fault, a missing model
-- before a missing statement, that before a missing user, and that before a NUL.
pub change_password-Changed :
    (infos : Infos) (d : Dialect) (c : PasswordChange) (q : Quoting)
    → Changed infos d c q (change_password infos d c q)
change_password-Changed infos d c q = elim (Option-cases (info_of infos d)) [
  | inl e ↦ subst (Changed infos d c q) (sym (without_model infos d c q e)) (no_model e)
  | inr (info, e) ↦
      subst (Changed infos d c q) (sym (at_model infos d c q info e))
        (elim (Option-cases info.change_password) [
          | inl n ↦ rw n (no_statement info e n)
          | inr (write, w) ↦
              rw w (checks infos d c q write (record { info = info; built = e; writes = w }))
        ])
]
