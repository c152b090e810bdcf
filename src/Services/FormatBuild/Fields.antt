-- ===== src/Services/FormatBuild/Fields.antt =====
-- The fields that the loop of build keeps.
use account_manager.Prelude.{
  ok, >>=-eq-ok, ok-injective, Bool, true, false, ◌||◌, ◌&&◌, not, List, [], ◌∷◌, length, Text,
  text_eq, is_empty, Map, has, insert, has-insert, All, All-map, ◌≡◌, refl, ap, arith, inl, inr,
  Bool-cases, subst, suc, if◌then◌else◌,
}
use account_manager.Domain.{MailboxFormatField}
use account_manager.Services.Formats.{valid_format_target, sensitive_format_target}
use account_manager.Services.FormatBuild.{
  Builder, Checked, has_prefix_metadata, kept_field, refuses, check_fields,
}

-- One of the fields has this target.
unfoldable pub targets_field : Text → List MailboxFormatField → Bool
targets_field target [] = false
targets_field target (field ∷ fields) = text_eq field.target target || targets_field target fields

module _ (b : Builder) where
  pub record IsAllowed (field : MailboxFormatField) : Type 0 where
    pub named : is_empty field.column ≡ false
    pub known : valid_format_target b.lower field.target ≡ true
    pub marked :
        (if sensitive_format_target b.lower field.target then field.sensitive else true) ≡ true

  -- Two fields with different columns, and with different targets unless these are metadata.
  abbrev pub IsApart : MailboxFormatField → MailboxFormatField → Type 0
  IsApart f g =
      (text_eq (b.lower f.column) (b.lower g.column) ≡ false)
      × ((text_eq f.target g.target && not (has_prefix_metadata g.target)) ≡ false)

  abbrev pub AreApart : List MailboxFormatField → Type 0
  AreApart [] = Unit
  AreApart (field ∷ fields) = All (IsApart field) fields × AreApart fields

  -- The field repeats no column and no target that was met before.
  pub IsFresh : Map (Unit {0}) → Map (Unit {0}) → MailboxFormatField → Type 0
  IsFresh columns targets g =
      (has (b.lower g.column) columns ≡ false)
      × ((has g.target targets && not (has_prefix_metadata g.target)) ≡ false)

  kept_field-IsAllowed :
      (given : MailboxFormatField) (columns targets : Map (Unit {0}))
      → refuses b (kept_field b given) columns targets ≡ false
      → IsAllowed (kept_field b given) × IsFresh columns targets (kept_field b given)
  unfolding refuses kept_field IsFresh
  kept_field-IsAllowed given columns targets h = (
    record { named = ground arith; known = ground arith; marked = ground arith },
    (ground arith, ground arith),
  )

  IsFresh-insert :
      (f g : MailboxFormatField) (columns targets : Map (Unit {0}))
      → IsFresh (insert (b.lower f.column) tt columns) (insert f.target tt targets) g
      → IsApart f g × IsFresh columns targets g
  unfolding IsFresh
  IsFresh-insert f g columns targets (h, k) =
      let column = has-insert (b.lower f.column) (b.lower g.column) tt columns in
      let target = has-insert f.target g.target tt targets in
      (
        (ground (arith, column, h), ground (arith, target, k)),
        (ground (arith, column, h), ground (arith, target, k)),
      )

  check_fields-step :
      (given : MailboxFormatField) (givens : List MailboxFormatField)
      (columns targets : Map (Unit {0})) (checked : Checked)
      → check_fields b (given ∷ givens) columns targets ≡ ok checked
      → let field = kept_field b given in
        (refuses b field columns targets ≡ false)
        × (rest : Checked) × (check_fields b givens
              (insert (b.lower field.column) tt columns)
              (insert field.target tt targets)
            ≡ ok rest)
        × (record { fields = field ∷ rest.fields; targets = rest.targets } ≡ checked)
  unfolding check_fields
  check_fields-step given givens columns targets checked h =
      elim (Bool-cases (refuses b (kept_field b given) columns targets)) [
        | inl e ↦ let failed = rw e at h in cc
        | inr e ↦
            let (rest, done, last) = >>=-eq-ok _ _ (rw e at h) in (e, rest, done, ok-injective last)
      ]

  check_fields-end :
      (columns targets : Map (Unit {0})) (checked : Checked)
      → check_fields b [] columns targets ≡ ok checked
      → record { fields = []; targets = targets } ≡ checked
  unfolding check_fields
  check_fields-end columns targets checked h = ok-injective h

  pub check_fields-IsAllowed :
      (givens : List MailboxFormatField) (columns targets : Map (Unit {0})) (checked : Checked)
      → check_fields b givens columns targets ≡ ok checked
      → All IsAllowed checked.fields
        × All (IsFresh columns targets) checked.fields
        × AreApart checked.fields
        × (length checked.fields ≡ length givens)
  check_fields-IsAllowed [] columns targets checked h =
      subst
        (λ (c : Checked).
          All IsAllowed c.fields
          × All (IsFresh columns targets) c.fields
          × AreApart c.fields
          × (length c.fields ≡ 0))
        (check_fields-end columns targets checked h) (tt, tt, tt, refl)
  check_fields-IsAllowed (given ∷ givens) columns targets checked h =
      let (taken, rest, done, same) = check_fields-step given givens columns targets checked h in
      let field = kept_field b given in
      let (allowed, fresh) = kept_field-IsAllowed given columns targets taken in
      let (others, unseen, apart, count) = check_fields-IsAllowed givens _ _ rest done in
      subst
        (λ (c : Checked).
          All IsAllowed c.fields
          × All (IsFresh columns targets) c.fields
          × AreApart c.fields
          × (length c.fields ≡ suc (length givens)))
        same
        (
          (allowed, others),
          (fresh, All-map rest.fields (λ g k. (IsFresh-insert field g columns targets k).1) unseen),
          (All-map rest.fields (λ g k. (IsFresh-insert field g columns targets k).0) unseen, apart),
          ap suc count,
        )

  pub check_fields-targets :
      (givens : List MailboxFormatField) (columns targets : Map (Unit {0})) (checked : Checked)
      (target : Text)
      → check_fields b givens columns targets ≡ ok checked
      → has target checked.targets ≡ (has target targets || targets_field target checked.fields)
  unfolding targets_field
  check_fields-targets [] columns targets checked target h =
      subst
        (λ (c : Checked).
          has target c.targets ≡ (has target targets || targets_field target c.fields))
        (check_fields-end columns targets checked h) (ground arith)
  check_fields-targets (given ∷ givens) columns targets checked target h =
      let (taken, rest, done, same) = check_fields-step given givens columns targets checked h in
      let field = kept_field b given in
      subst
        (λ (c : Checked).
          has target c.targets ≡ (has target targets || targets_field target c.fields))
        same
        (ground (
          arith,
          check_fields-targets givens _ _ rest target done,
          has-insert field.target target tt targets,
        ))
