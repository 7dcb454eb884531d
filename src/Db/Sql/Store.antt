-- ===== src/Db/Sql/Store.antt =====
-- A small engine of lists, to run the statements of `Db.Sql` and to show that its laws can be met. It
-- has no constraints, and its statements never fail.
pub mod Laws
use ndhcpd.Common.{
  ℕ, suc, ◌≤◌, ◌<◌, ◌≡◌, ◌≢◌, ◌↔◌, ◌⊎◌, refl, sym, subst, ap, ◌∙◌, Bool, true, false, not, Option,
  none, some, List, [], ◌∷◌, map, ltb, ltb→lt, if◌then◌else◌, retain, In, here, there, In-retain,
  retain-In, In-map, map-In, inl, inr, Bool-cases, Option-cases, arith, Result, ok, length, max,
  ==_iff,
}
use ndhcpd.Db.Interface.{DbError}
use ndhcpd.Db.Sql.{
  Table, Column, Value, null, integer, text, Row, Condition, Expr, Statement, insert, update,
  delete, Order, unordered, descending, Select, meets, assign, project, key_of, same_table,
}
use ndhcpd.Db.Sql.Engine.{Done, Engine, SqlLaws}

abbrev pub Store : Type 0
Store = Table → List Row

abbrev number : Value → ℕ
number (integer n) = n
number _ = 0

-- A key above all others.
unfoldable pub next_key : List Row → ℕ
next_key [] = 1
next_key (r ∷ rs) = max (suc (number (r Column.id))) (next_key rs)

abbrev put_table : Table → List Row → Store → Store
put_table t rs s u = if same_table t u then rs else s u

-- The row with the greatest number in a column.
unfoldable pub top : Column → List Row → Option Row
top c [] = none
top c (r ∷ rs) = elim (top c rs) [
  | none ↦ some r
  | some r' ↦ if ltb (number (r c)) (number (r' c)) then some r' else some r
]

unfoldable pub first_of : Order → List Row → Option Row
unfolding top
first_of unordered [] = none
first_of unordered (r ∷ rs) = some r
first_of (descending c) rs = top c rs

abbrev blank : Row
blank c = null

abbrev done : ℕ → Done
done i = record { rows_affected = 0; last_insert_rowid = i }

unfoldable pub execute : Statement → Store → Store × Result DbError Done
unfolding next_key
execute (insert t sets) s =
    let i = next_key (s t) in (put_table t (assign 0 (key_of t i sets) blank ∷ s t) s, ok (done i))
execute (update t sets c) s =
    (put_table t (map (λ r. if meets c r then assign 0 sets r else r) (s t)) s, ok (done 0))
execute (delete t c) s = (put_table t (retain (λ r. not (meets c r)) (s t)) s, ok (done 0))

abbrev found : Select → Store → List Row
found q s = retain (meets q.condition) (s q.table)

unfoldable pub fetch_all : Select → Store → Result DbError (List Row)
fetch_all q s = ok (map (project q.columns) (found q s))

unfoldable pub fetch_optional : Select → Store → Result DbError (Option Row)
unfolding first_of
fetch_optional q s = elim (first_of q.order (found q s)) [
  | none ↦ ok none
  | some r ↦ ok (some (project q.columns r))
]

abbrev pub store : Engine Store
store = record { execute = execute; fetch_all = fetch_all; fetch_optional = fetch_optional }

same_table_refl : (t : Table) → same_table t t ≡ true
same_table_refl Table.subnets = refl
same_table_refl Table.dynamic_ranges = refl
same_table_refl Table.static_ips = refl
same_table_refl Table.leases = refl
same_table_refl Table.ia_prefixes = refl
same_table_refl Table.api_tokens = refl

pub put_here : (t : Table) (rs : List Row) (s : Store) → put_table t rs s t ≡ rs
put_here t rs s = rw (same_table_refl t) refl

pub put_elsewhere :
    (t u : Table) (rs : List Row) (s : Store) → same_table t u ≡ false → put_table t rs s u ≡ s u
put_elsewhere t u rs s h = rw h refl

pub In-iff : (xs ys : List Row) (r : Row) → xs ≡ ys → In r xs ↔ In r ys
In-iff xs ys r e = (λ m. subst (In r) e m, λ m. subst (In r) (sym e) m)

pub selected :
    (q : Select) (s : Store) (rs : List Row) (r : Row)
    → fetch_all q s ≡ ok rs
    → In r rs ↔ (
        (r' : Row) × In r' (s q.table) × (meets q.condition r' ≡ true) × (r ≡ project q.columns r'))
unfolding fetch_all
selected q s rs r h =
    let e : map (project q.columns) (found q s) ≡ rs = ground arith in
    (
      λ m.
          let (r', k, cut) = In-map (project q.columns) (found q s) r (subst (In r) (sym e) m) in
          let (met, k') = In-retain (meets q.condition) (s q.table) r' k in (r', k', met, cut),
      λ (r', k, met, cut). subst (In r) e (
          subst (λ z. In z (map (project q.columns) (found q s))) (sym cut)
            (map-In (project q.columns) (found q s) r'
              (retain-In (meets q.condition) (s q.table) r' met k))),
    )

pub top-In : (c : Column) (rs : List Row) (r : Row) → top c rs ≡ some r → In r rs
unfolding top
top-In c [] r h = cc
top-In c (x ∷ rs) r h = elim (Option-cases (top c rs)) [
  | inl e ↦ here (ground (arith, e))
  | inr (r', e) ↦ elim (Bool-cases (ltb (number (x c)) (number (r' c)))) [
    | inl less ↦
        let same : r' ≡ r = ground (arith, e, less) in
        there (subst (λ z. In z rs) same (top-In c rs r' e))
    | inr least ↦ here (ground (arith, e, least))
  ]
]

pub first_of-In : (o : Order) (rs : List Row) (r : Row) → first_of o rs ≡ some r → In r rs
unfolding first_of
first_of-In unordered [] r h = cc
first_of-In unordered (x ∷ rs) r h = here (ground arith)
first_of-In (descending c) rs r h = top-In c rs r h

top-none : (c : Column) (rs : List Row) (r : Row) → top c rs ≡ none → ¬ In r rs
unfolding top
top-none c [] r h m = elim m [ ]
top-none c (x ∷ rs) r h m = elim (Option-cases (top c rs)) [
  | inl e ↦ absurd (ground (arith, e))
  | inr (r', e) ↦ absurd (ground (arith, e))
]

pub first_of-none : (o : Order) (rs : List Row) (r : Row) → first_of o rs ≡ none → ¬ In r rs
unfolding first_of
first_of-none unordered [] r h m = elim m [ ]
first_of-none unordered (x ∷ rs) r h m = cc
first_of-none (descending c) rs r h m = top-none c rs r h m

pub top_greatest :
    (c : Column) (rs : List Row) (r r' : Row)
    → top c rs ≡ some r
    → In r' rs
    → number (r' c) ≤ number (r c)
unfolding top
top_greatest c [] r r' h m = elim m [ ]
top_greatest c (x ∷ rs) r r' h (here e) = elim (Option-cases (top c rs)) [
  | inl n ↦ let same : x ≡ r = ground (arith, n) in rw e (rw (← same) (omega arith))
  | inr (b, n) ↦ elim (Bool-cases (ltb (number (x c)) (number (b c)))) [
    | inl less ↦
        let same : b ≡ r = ground (arith, n, less) in
        rw e (rw (← same) (omega (arith, ltb→lt _ _ less)))
    | inr least ↦ let same : x ≡ r = ground (arith, n, least) in rw e (rw (← same) (omega arith))
  ]
]
top_greatest c (x ∷ rs) r r' h (there m) = elim (Option-cases (top c rs)) [
  | inl n ↦ absurd (top-none c rs r' n m)
  | inr (b, n) ↦
      let below = top_greatest c rs b r' n m in
      elim (Bool-cases (ltb (number (x c)) (number (b c)))) [
        | inl less ↦ let same : b ≡ r = ground (arith, n, less) in rw (← same) below
        | inr least ↦
            let same : x ≡ r = ground (arith, n, least) in
            rw (← same) (ground (arith, least, below))
      ]
]
