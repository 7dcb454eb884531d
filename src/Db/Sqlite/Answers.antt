-- ===== src/Db/Sqlite/Answers.antt =====
-- The answers of the engine as crates/ndhcpd/src/db/sqlite.rs returns them. Where the source panics
-- on a row that it cannot read, the answer here is the error `other`.
use ndhcpd.Common.{
  ℕ, ◌≡◌, refl, arith, Bool, true, false, Option, none, some, List, [], ◌∷◌, ◌>>=◌, Result, ok, err,
}
use ndhcpd.Bytes.{Text}
use ndhcpd.Db.Interface.{DbError, other}
use ndhcpd.Db.Sql.{Row, null, integer, text, Expr, bind}
use ndhcpd.Db.Sql.Engine.{Done}

-- `.bind(…)` of a number, a text, a Boolean `as i64`, and an optional text.
abbrev pub int : ℕ → Expr
int n = bind (integer n)

abbrev pub str : Text → Expr
str t = bind (text t)

abbrev pub flag : Bool → Expr
flag true = bind (integer 1)
flag false = bind (integer 0)

abbrev pub optional_str : Option Text → Expr
optional_str none = bind null
optional_str (some t) = bind (text t)

-- `Ok(f(result))` after `.await?`
abbrev pub answer : {S A : Type 0} → (Done → A) → S × Result DbError Done → S × Result DbError A
answer f (s, ok d) = (s, ok (f d))
answer f (s, err e) = (s, err e)

abbrev pub nothing : Done → Unit {0}
nothing d = tt

abbrev pub rowid : Done → ℕ
rowid d = d.last_insert_rowid

-- `rows.into_iter().map(|r| …).collect()`
unfoldable pub read_rows : {A : Type 0} → (Row → Option A) → List Row → Option (List A)
read_rows f [] = some []
read_rows f (r ∷ rs) = do a ← f r; as' ← read_rows f rs; some (a ∷ as')

abbrev pub or_panic : {A : Type 0} → Option A → Result DbError A
or_panic none = err other
or_panic (some a) = ok a

abbrev pub all_rows :
    {A : Type 0} → (Row → Option A) → Result DbError (List Row) → Result DbError (List A)
all_rows f (ok rs) = or_panic (read_rows f rs)
all_rows f (err e) = err e

-- `Ok(row.map(|r| …))`
abbrev pub first_row :
    {A : Type 0} → (Row → Option A) → Result DbError (Option Row) → Result DbError (Option A)
first_row f (ok none) = ok none
first_row f (ok (some r)) = or_panic (f r >>= λ a. some (some a))
first_row f (err e) = err e

pub answer-state :
    {S A : Type 0} (f : Done → A) (x : S × Result DbError Done) → (answer f x).0 ≡ x.0
answer-state f (s, ok d) = refl
answer-state f (s, err e) = refl

-- An answer comes from a statement that ran.
pub answer-eq-ok :
    {S A : Type 0} (f : Done → A) (x : S × Result DbError Done) (a : A)
    → (answer f x).1 ≡ ok a
    → (d : Done) × (x.1 ≡ ok d) × (f d ≡ a)
answer-eq-ok f (s, ok d) a h = (d, refl, ground arith)
answer-eq-ok f (s, err e) a h = cc
