-- ===== src/Db/Memory/Tables.antt =====
-- The numbered tables of crates/ndhcpd/src/db/memory.rs: a list of rows, each with an id of its own
-- below the table's counter.
use ndhcpd.Common.{
  ℕ, ◌+◌, ◌≤◌, ◌<◌, ◌≡◌, ◌≢◌, refl, sym, ap, ◌∙◌, inl, inr, ◌⊎◌, Bool, true, false, Option, none,
  some, List, [], ◌∷◌, ◌++◌, arith, ==_iff, find, find-In, find-none, retain, update_first, In,
  here, there, All, All-In, In-All, All-append, All-retain, Pairwise, Pairwise-push,
  Pairwise-retain, Pairwise-In, Bool-cases, Option-cases,
}
use ndhcpd.Db.Interface.{has_id}

pub has_id_iff : (i : ℕ) (o : Option ℕ) → has_id i o ≡ true → o ≡ some i
has_id_iff i none h = cc
has_id_iff i (some j) h = ap some ((==_iff j i).0 h)

pub has_id-some : (i : ℕ) → has_id i (some i) ≡ true
has_id-some i = (==_iff i i).1 refl

module _ {A : Type 0} (id : A → Option ℕ) where
  -- A row has an id below `next`.
  pub record Below (next : ℕ) (a : A) : Type 0 where
    pub i : ℕ
    pub has : id a ≡ some i
    pub below : i < next

  -- Two rows have two ids.
  abbrev pub Differ : A → A → Type 0
  Differ a b = id a ≢ id b

  pub record Numbered (next : ℕ) (xs : List A) : Type 0 where
    pub ids : All (Below next) xs
    pub unique : Pairwise Differ xs

  Below-mono : (n m : ℕ) (a : A) → n ≤ m → Below n a → Below m a
  Below-mono n m a h b = record { i = b.i; has = b.has; below = omega (arith, b.below) }

  pub Numbered-empty : Numbered 1 []
  Numbered-empty = record { ids = tt; unique = tt }

  -- `create_*`: a new row at the end takes the counter's value, which grows by one.
  pub Numbered-push :
      (next : ℕ) (xs : List A) (a : A)
      → id a ≡ some next
      → Numbered next xs
      → Numbered (next + 1) (xs ++ (a ∷ []))
  Numbered-push next xs a e n =
      let new_row : Below (next + 1) a = record { i = next; has = e; below = omega arith } in
      record {
        ids =
            All-append (Below (next + 1)) xs (a ∷ [])
              (In-All (Below (next + 1)) xs (λ x m.
                Below-mono next (next + 1) x (omega arith) (All-In (Below next) xs x n.ids m)))
              (new_row, tt);
        unique = Pairwise-push Differ xs a n.unique (
            In-All (λ x. Differ x a) xs
              (λ x m same.
                let b = All-In (Below next) xs x n.ids m in
                let f : some b.i ≡ some next = sym b.has ∙ same ∙ e in ground (arith, b.below)));
      }

  -- `delete_*`
  pub Numbered-retain :
      (p : A → Bool) (next : ℕ) (xs : List A) → Numbered next xs → Numbered next (retain p xs)
  Numbered-retain p next xs n = record {
    ids = All-retain (Below next) p xs n.ids;
    unique = Pairwise-retain Differ p xs n.unique;
  }

  module _ (p : A → Bool) (f : A → A) (keeps : (x : A) → p x ≡ true → id (f x) ≡ id x) where
    All-updated :
        (P : Option ℕ → Type 0) (xs : List A)
        → All (λ x. P (id x)) xs
        → All (λ x. P (id x)) (update_first p f xs)
    All-updated P [] h = tt
    All-updated P (x ∷ xs) (h, hs) = elim (Bool-cases (p x)) [
      | inl e ↦ rw e (rw (keeps x e) h, hs)
      | inr e ↦ rw e (h, All-updated P xs hs)
    ]

    Pairwise-updated : (xs : List A) → Pairwise Differ xs → Pairwise Differ (update_first p f xs)
    Pairwise-updated [] h = tt
    Pairwise-updated (x ∷ xs) (h, hs) = elim (Bool-cases (p x)) [
      | inl e ↦
          rw e (In-All (Differ (f x)) xs (λ y m. rw (keeps x e) (All-In (Differ x) xs y h m)), hs)
      | inr e ↦ rw e (All-updated (λ o. id x ≢ o) xs h, Pairwise-updated xs hs)
    ]

    -- `update_*`: the first row that is found changes, its id does not.
    pub Numbered-updated :
        (next : ℕ) (xs : List A) → Numbered next xs → Numbered next (update_first p f xs)
    Numbered-updated next xs n = record {
      ids = In-All (Below next) (update_first p f xs) (λ x m.
          let (i, has, below) =
            All-In (λ x. (i : ℕ) × (id x ≡ some i) × (i < next)) (update_first p f xs) x
              (All-updated (λ o. (i : ℕ) × (o ≡ some i) × (i < next)) xs
                (In-All (λ x. (i : ℕ) × (id x ≡ some i) × (i < next)) xs
                  (λ x m. let b = All-In (Below next) xs x n.ids m in (b.i, b.has, b.below))))
              m in
          record { i = i; has = has; below = below });
      unique = Pairwise-updated xs n.unique;
    }

  -- After an update of the row with some id, a row is the updated one, or an old one with another id.
  pub In-updated :
      (p : A → Bool) (f : A → A) (xs : List A) (y : A)
      → ((x z : A) → p x ≡ true → p z ≡ true → id x ≡ id z)
      → Pairwise Differ xs
      → In y (update_first p f xs)
      → ((x : A) × In x xs × (p x ≡ true) × (y ≡ f x)) ⊎ (In y xs × (p y ≡ false))
  In-updated p f [] y one h m = elim m [ ]
  In-updated p f (x ∷ xs) y one (h, hs) m = elim (Bool-cases (p x)) [
    | inl e ↦ elim (In_split (rw e at m)) [
      | inl same ↦ inl (x, here refl, e, same)
      | inr k ↦ elim (Bool-cases (p y)) [
        | inl q ↦ absurd (All-In (Differ x) xs y h k (one x y e q))
        | inr q ↦ inr (there k, q)
      ]
    ]
    | inr e ↦ elim (In_split (rw e at m)) [
      | inl same ↦ inr (here same, ap p same ∙ e)
      | inr k ↦ elim (In-updated p f xs y one hs k) [
        | inl (z, n, q, r) ↦ inl (z, there n, q, r)
        | inr (n, q) ↦ inr (there n, q)
      ]
    ]
  ]
    where
      In_split : {x y : A} {xs : List A} → In y (x ∷ xs) → (y ≡ x) ⊎ In y xs
      In_split (here e) = inl e
      In_split (there m) = inr m

  -- A search by id finds the row that has it.
  pub find_by_id :
      (next : ℕ) (xs : List A) (a : A) (i : ℕ)
      → Numbered next xs
      → In a xs
      → id a ≡ some i
      → find (λ x. has_id i (id x)) xs ≡ some a
  find_by_id next xs a i n m e = elim (Option-cases (find (λ x. has_id i (id x)) xs)) [
    | inl missed ↦
        let unseen : has_id i (id a) ≡ false = find-none (λ x. has_id i (id x)) xs a missed m in
        absurd (ground (arith, unseen, has_id-some i, ap (has_id i) e))
    | inr (b, found) ↦
        let (hit, k) = find-In (λ x. has_id i (id x)) xs b found in
        let same : id b ≡ id a = has_id_iff i (id b) hit ∙ sym e in
        elim (Pairwise-In Differ xs a b n.unique m k) [
          | inl eq ↦ found ∙ ap some (sym eq)
          | inr (inl differ) ↦ absurd (differ (sym same))
          | inr (inr differ) ↦ absurd (differ same)
        ]
  ]
