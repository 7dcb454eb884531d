-- ===== src/Db/Sqlite/Reading.antt =====
-- Which values crates/ndhcpd/src/db/sqlite.rs reads from the rows of an answer.
use ndhcpd.Common.{
  ◌≡◌, refl, sym, Option, none, some, List, [], ◌∷◌, ◌>>=◌, >>=-eq-some, ok, In, here, there, ◌⊎◌,
  Option-cases, inl, inr, arith, ap, Result, err, ◌∙◌,
}
use ndhcpd.Db.Interface.{DbError}
use ndhcpd.Db.Sql.{Row}
use ndhcpd.Db.Sqlite.Answers.{read_rows, all_rows, first_row}

module _ {A : Type 0} (f : Row → Option A) where
  -- The values of the rows that can be read.
  unfoldable pub values_of : List Row → List A
  values_of [] = []
  values_of (r ∷ rs) = elim (f r) [ none ↦ values_of rs | some a ↦ a ∷ values_of rs ]

  pub In-values_of :
      (rs : List Row) (a : A) → In a (values_of rs) → (r : Row) × In r rs × (f r ≡ some a)
  unfolding values_of
  In-values_of [] a m = elim m [ ]
  In-values_of (r ∷ rs) a m = elim (Option-cases (f r)) [
    | inl e ↦ let (r', k, g) = In-values_of rs a (rw (e, values_of) at m) in (r', there k, g)
    | inr (b, e) ↦ elim (split (rw (e, values_of) at m)) [
      | inl same ↦ (r, here refl, e ∙ ap some (sym same))
      | inr later ↦ let (r', k, g) = In-values_of rs a later in (r', there k, g)
    ]
  ]
    where
      split : {b : A} → In a (b ∷ values_of rs) → (a ≡ b) ⊎ In a (values_of rs)
      split (here e) = inl e
      split (there k) = inr k

  pub values_of-In :
      (rs : List Row) (a : A) (r : Row) → In r rs → f r ≡ some a → In a (values_of rs)
  unfolding values_of
  values_of-In [] a r m e = elim m [ ]
  values_of-In (x ∷ rs) a r (here p) e =
      let g : f x ≡ some a = ap f (sym p) ∙ e in rw (g, values_of) (here refl)
  values_of-In (x ∷ rs) a r (there m) e = elim (Option-cases (f x)) [
    | inl n ↦ rw (n, values_of) (values_of-In rs a r m e)
    | inr (b, n) ↦ rw (n, values_of) (there (values_of-In rs a r m e))
  ]

  -- A list of rows that is read whole gives the values of its rows.
  pub read_rows-values_of :
      (rs : List Row) (as' : List A) → read_rows f rs ≡ some as' → as' ≡ values_of rs
  unfolding read_rows values_of
  read_rows-values_of [] as' h = ground arith
  read_rows-values_of (r ∷ rs) as' h =
      let (a, e, h') = >>=-eq-some (f r) (λ a. read_rows f rs >>= λ as'. some (a ∷ as')) as' h in
      let (rest, g, k) = >>=-eq-some (read_rows f rs) (λ as'. some (a ∷ as')) as' h' in
      let ih = read_rows-values_of rs rest g in rw (e, values_of) (ground (arith, k, ih))

  pub all_rows-eq-ok :
      (answer : Result DbError (List Row)) (as' : List A)
      → all_rows f answer ≡ ok as'
      → (rs : List Row) × (answer ≡ ok rs) × (as' ≡ values_of rs)
  all_rows-eq-ok (err e) as' h = cc
  all_rows-eq-ok (ok rs) as' h = elim (Option-cases (read_rows f rs)) [
    | inl e ↦ absurd (ground (arith, e))
    | inr (bs, e) ↦ (rs, refl, read_rows-values_of rs as' (ground (arith, e)))
  ]

  pub first_row-eq-some :
      (answer : Result DbError (Option Row)) (a : A)
      → first_row f answer ≡ ok (some a)
      → (r : Row) × (answer ≡ ok (some r)) × (f r ≡ some a)
  first_row-eq-some (err e) a h = cc
  first_row-eq-some (ok none) a h = cc
  first_row-eq-some (ok (some r)) a h = elim (Option-cases (f r)) [
    | inl e ↦ absurd (ground (arith, e))
    | inr (b, e) ↦ (r, refl, ground (arith, e))
  ]

  pub first_row-eq-none :
      (answer : Result DbError (Option Row)) → first_row f answer ≡ ok none → answer ≡ ok none
  first_row-eq-none (err e) h = cc
  first_row-eq-none (ok none) h = refl
  first_row-eq-none (ok (some r)) h = elim (Option-cases (f r)) [
    | inl e ↦ absurd (ground (arith, e))
    | inr (b, e) ↦ absurd (ground (arith, e))
  ]
