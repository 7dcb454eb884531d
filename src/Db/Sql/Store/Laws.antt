-- ===== src/Db/Sql/Store/Laws.antt =====
-- The engine of lists meets the laws.
use ndhcpd.Common.{
  ℕ, ◌≤◌, ◌<◌, ◌≡◌, ◌≢◌, ◌↔◌, ◌⊎◌, refl, sym, subst, true, false, not, none, some, List, [], ◌∷◌,
  map, if◌then◌else◌, retain, In, here, there, In-retain, retain-In, In-map, map-In, inl, inr,
  Bool-cases, Option-cases, arith, ok, err,
}
use ndhcpd.Db.Interface.{DbError}
use ndhcpd.Db.Sql.{
  null, Table, Column, integer, Row, Condition, Expr, Statement, insert, update, delete, descending,
  Select, meets, assign, project, key_of, same_table, same_table-eq, same_column,
}
use ndhcpd.Db.Sql.Engine.{Done, SqlLaws}
use ndhcpd.Db.Sql.Store.{
  Store, store, execute, fetch_optional, next_key, number, blank, found, put_here, put_elsewhere,
  In-iff, first_of, first_of-In, first_of-none, top_greatest, selected,
}

selected_some :
    (q : Select) (s : Store) (r : Row)
    → fetch_optional q s ≡ ok (some r)
    → (r' : Row) × (first_of q.order (found q s) ≡ some r') × (r ≡ project q.columns r')
unfolding fetch_optional
selected_some q s r h = elim (Option-cases (first_of q.order (found q s))) [
  | inl e ↦ absurd (ground (arith, e))
  | inr (r', e) ↦ (r', e, ground (arith, e))
]

first_selected :
    (q : Select) (s : Store) (r : Row)
    → fetch_optional q s ≡ ok (some r)
    → (r' : Row) × In r' (s q.table) × (meets q.condition r' ≡ true) × (r ≡ project q.columns r')
first_selected q s r h =
    let (r', e, cut) = selected_some q s r h in
    let (met, m) =
      In-retain (meets q.condition) (s q.table) r' (first_of-In q.order (found q s) r' e) in
    (r', m, met, cut)

none_selected :
    (q : Select) (s : Store) (r : Row)
    → fetch_optional q s ≡ ok none
    → In r (s q.table)
    → meets q.condition r ≡ false
unfolding fetch_optional
none_selected q s r h m = elim (Option-cases (first_of q.order (found q s))) [
  | inr (r', e) ↦ absurd (ground (arith, e))
  | inl e ↦ elim (Bool-cases (meets q.condition r)) [
    | inr out ↦ out
    | inl met ↦
        absurd (
          first_of-none q.order (found q s) r e (retain-In (meets q.condition) (s q.table) r met m))
  ]
]

project-integer :
    (columns : List Column) (r : Row) (c : Column) (n : ℕ)
    → project columns r c ≡ integer n
    → r c ≡ integer n
project-integer [] r c n h = cc
project-integer (d ∷ columns) r c n h = elim (Bool-cases (same_column d c)) [
  | inl e ↦ rw e at h
  | inr e ↦ project-integer columns r c n (rw e at h)
]

ordered :
    (q : Select) (s : Store) (c : Column) (r r' : Row) (n n' : ℕ)
    → q.order ≡ descending c
    → fetch_optional q s ≡ ok (some r)
    → r c ≡ integer n
    → In r' (s q.table)
    → meets q.condition r' ≡ true
    → r' c ≡ integer n'
    → n' ≤ n
unfolding first_of
ordered q s c r r' n n' by h at m met at' =
    let (r0, e, cut) = selected_some q s r h in
    let at0 = project-integer q.columns r0 c n (subst (λ z. z c ≡ integer n) cut at) in
    let bound =
      top_greatest c (found q s) r0 r' (rw by at e)
        (retain-In (meets q.condition) (s q.table) r' met m) in
    rw at0 at (rw at' at bound)

inserted :
    (t : Table) (sets : List (Column × Expr)) (s : Store) (d : Done)
    → (execute (insert t sets) s).1 ≡ ok d
    → (now : ℕ) × (defaults : Row) × (defaults Column.last_used_at ≡ null)
      × ((r : Row)
          → In r ((execute (insert t sets) s).0 t)
            ↔ (In r (s t) ⊎ (r ≡ assign now (key_of t d.last_insert_rowid sets) defaults)))
unfolding execute
inserted t sets s d h =
    let e : next_key (s t) ≡ d.last_insert_rowid = ground arith in
    let new = assign 0 (key_of t (next_key (s t)) sets) blank in
    rw (← e) (
      0,
      blank,
      refl,
      λ r. (
        λ m. split r (subst (In r) (put_here t (new ∷ s t) s) m),
        λ m.
            subst (In r) (sym (put_here t (new ∷ s t) s))
              (elim m [ inl old ↦ there old | inr is_new ↦ here is_new ]),
      ),
    )
  where
    split : {new : Row} (r : Row) → In r (new ∷ s t) → In r (s t) ⊎ (r ≡ new)
    split r (here e) = inr e
    split r (there m) = inl m

next_key_above : (rs : List Row) (r : Row) → In r rs → number (r Column.id) < next_key rs
unfolding next_key
next_key_above [] r m = elim m [ ]
next_key_above (x ∷ rs) r (here e) = rw e (omega arith)
next_key_above (x ∷ rs) r (there m) = omega (arith, next_key_above rs r m)

fresh :
    (t : Table) (sets : List (Column × Expr)) (s : Store) (d : Done) (r : Row)
    → (execute (insert t sets) s).1 ≡ ok d
    → In r (s t)
    → r Column.id ≢ integer d.last_insert_rowid
unfolding execute
fresh t sets s d r h m same =
    let e : next_key (s t) ≡ d.last_insert_rowid = ground arith in
    let low = next_key_above (s t) r m in absurd (omega (arith, e, rw same at low))

updated :
    (t : Table) (sets : List (Column × Expr)) (c : Condition) (s : Store)
    → (now : ℕ) × ((r : Row)
        → In r ((execute (update t sets c) s).0 t)
          ↔ ((r' : Row) × In r' (s t) × (r ≡ (if meets c r' then assign now sets r' else r'))))
unfolding execute
updated t sets c s =
    let set_row : Row → Row = λ r. if meets c r then assign 0 sets r else r in
    let here_now = put_here t (map set_row (s t)) s in
    (
      0,
      λ r. (
        λ m. In-map set_row (s t) r (subst (In r) here_now m),
        λ (r', m, e).
            subst (In r) (sym here_now)
              (subst (λ z. In z (map set_row (s t))) (sym e) (map-In set_row (s t) r' m)),
      ),
    )

deleted :
    (t : Table) (c : Condition) (s : Store) (r : Row)
    → In r ((execute (delete t c) s).0 t) ↔ (In r (s t) × (meets c r ≡ false))
unfolding execute
deleted t c s r =
    let kept = λ (r : Row). not (meets c r) in
    let here_now = put_here t (retain kept (s t)) s in
    (
      λ m. let (q, k) = In-retain kept (s t) r (subst (In r) here_now m) in (k, ground (arith, q)),
      λ (m, out). subst (In r) (sym here_now) (retain-In kept (s t) r (ground (arith, out)) m),
    )

never_refused :
    (q : Statement) (s : Store) (e : DbError) → (execute q s).1 ≡ err e → (execute q s).0 ≡ s
unfolding execute
never_refused (insert t sets) s e h = cc
never_refused (update t sets c) s e h = cc
never_refused (delete t c) s e h = cc

delete_elsewhere :
    (t u : Table) (c : Condition) (s : Store) (r : Row)
    → In r ((execute (delete t c) s).0 u)
    → In r (s u)
unfolding execute
delete_elsewhere t u c s r m = elim (Bool-cases (same_table t u)) [
  | inl e ↦
      let kept = λ (r : Row). not (meets c r) in
      let m' : In r (retain kept (s t)) = rw e at m in from_same t u e (In-retain kept (s t) r m').1
  | inr e ↦ rw e at m
]
  where
    from_same : (t u : Table) → same_table t u ≡ true → In r (s t) → In r (s u)
    from_same t u e m = subst (λ z. In r (s z)) (same_table-eq t u e) m

insert_elsewhere :
    (t u : Table) (sets : List (Column × Expr)) (s : Store) (r : Row)
    → same_table t u ≡ false
    → In r ((execute (insert t sets) s).0 u) ↔ In r (s u)
unfolding execute
insert_elsewhere t u sets s r h = In-iff _ _ r (put_elsewhere t u _ s h)

update_elsewhere :
    (t u : Table) (sets : List (Column × Expr)) (c : Condition) (s : Store) (r : Row)
    → same_table t u ≡ false
    → In r ((execute (update t sets c) s).0 u) ↔ In r (s u)
unfolding execute
update_elsewhere t u sets c s r h = In-iff _ _ r (put_elsewhere t u _ s h)

pub store_laws : SqlLaws store
store_laws = record {
  rows = λ t s. s t;
  refused = λ q s e. never_refused q s e;
  selected = selected;
  selected_some = first_selected;
  selected_none = none_selected;
  ordered = ordered;
  inserted = inserted;
  fresh = λ t sets s d r keyed. fresh t sets s d r;
  updated = λ t sets c s d h. updated t sets c s;
  deleted = λ t c s d r h. deleted t c s r;
  insert_elsewhere = insert_elsewhere;
  update_elsewhere = update_elsewhere;
  delete_elsewhere = delete_elsewhere;
}

-- The rows that the laws speak of are those of the store.
pub store_rows : (t : Table) (s : Store) → store_laws.rows t s ≡ s t
unfolding store_laws
store_rows t s = refl
