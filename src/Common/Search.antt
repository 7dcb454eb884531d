-- ===== src/Common/Search.antt =====
-- The searches of the source: `find`, `any`, `retain` and `position`-free updates over a Boolean
-- test, and membership as a family that can be matched.
use mathlib.Core.Path.{◌≡◌, refl, sym, ap, ◌∙◌, subst}
use mathlib.Core.Bool.{Bool, true, false, ◌||◌}
use mathlib.Core.Logic.{◌⊎◌, inl, inr}
use mathlib.Core.Option.{Option, none, some}
use mathlib.Core.List.{List, [], ◌∷◌, ◌++◌, map}
use native.Mathlib.Omega.{arith}
use ndhcpd.Common.Tests.{if◌then◌else◌, Bool-cases}
use ndhcpd.Common.Lists.{All}

pub data In {ℓ} {A : Type ℓ} (a : A) : List A → Type ℓ where
  here : {x : A} {xs : List A} → a ≡ x → In a (x ∷ xs)
  there : {x : A} {xs : List A} → In a xs → In a (x ∷ xs)

module _ {ℓ} {A : Type ℓ} where
  -- `iter().find(p).cloned()`
  abbrev pub find : (A → Bool) → List A → Option A
  find p [] = none
  find p (x ∷ xs) = if p x then some x else find p xs

  -- `iter().any(p)`
  abbrev pub any : (A → Bool) → List A → Bool
  any p [] = false
  any p (x ∷ xs) = p x || any p xs

  -- `retain(p)` and `iter().filter(p).cloned().collect()`
  abbrev pub retain : (A → Bool) → List A → List A
  retain p [] = []
  retain p (x ∷ xs) = if p x then x ∷ retain p xs else retain p xs

  -- `if let Some(e) = iter_mut().find(p) { *e = f(e) }`
  abbrev pub update_first : (A → Bool) → (A → A) → List A → List A
  update_first p f [] = []
  update_first p f (x ∷ xs) = if p x then f x ∷ xs else x ∷ update_first p f xs

  pub find-In : (p : A → Bool) (xs : List A) (a : A) → find p xs ≡ some a → (p a ≡ true) × In a xs
  find-In p [] a h = cc
  find-In p (x ∷ xs) a h = elim (Bool-cases (p x)) [
    | inl e ↦ let eq : x ≡ a = ground arith in (ap p (sym eq) ∙ e, here (sym eq))
    | inr e ↦ let (q, m) = find-In p xs a (ground arith) in (q, there m)
  ]

  -- A search that fails has seen every element.
  pub find-none : (p : A → Bool) (xs : List A) (a : A) → find p xs ≡ none → In a xs → p a ≡ false
  find-none p [] a h m = elim m [ ]
  find-none p (x ∷ xs) a h (here e) = ap p e ∙ ground arith
  find-none p (x ∷ xs) a h (there m) = find-none p xs a (ground arith) m

  pub any-In : (p : A → Bool) (xs : List A) → any p xs ≡ true → (a : A) × (p a ≡ true) × In a xs
  any-In p [] h = cc
  any-In p (x ∷ xs) h = elim (Bool-cases (p x)) [
    | inl e ↦ (x, e, here refl)
    | inr e ↦ let (a, q, m) = any-In p xs (ground arith) in (a, q, there m)
  ]

  pub In-any : (p : A → Bool) (xs : List A) (a : A) → p a ≡ true → In a xs → any p xs ≡ true
  In-any p [] a h m = elim m [ ]
  In-any p (x ∷ xs) a h (here e) = let q : p x ≡ true = ap p (sym e) ∙ h in rw q
  In-any p (x ∷ xs) a h (there m) = ground (arith, In-any p xs a h m)

  In-kept :
      (p : A → Bool) {x : A} {xs ys : List A} {a : A}
      → p x ≡ true
      → (In a ys → (p a ≡ true) × In a xs)
      → In a (x ∷ ys)
      → (p a ≡ true) × In a (x ∷ xs)
  In-kept p e rest (here q) = (ap p q ∙ e, here q)
  In-kept p e rest (there k) = let (q, l) = rest k in (q, there l)

  pub In-retain : (p : A → Bool) (xs : List A) (a : A) → In a (retain p xs) → (p a ≡ true) × In a xs
  In-retain p [] a m = elim m [ ]
  In-retain p (x ∷ xs) a m = elim (Bool-cases (p x)) [
    | inl e ↦ In-kept p e (In-retain p xs a) (rw e at m)
    | inr e ↦ let (q, k) = In-retain p xs a (rw e at m) in (q, there k)
  ]

  pub retain-In : (p : A → Bool) (xs : List A) (a : A) → p a ≡ true → In a xs → In a (retain p xs)
  retain-In p [] a h m = elim m [ ]
  retain-In p (x ∷ xs) a h (here e) = let q : p x ≡ true = ap p (sym e) ∙ h in rw q (here e)
  retain-In p (x ∷ xs) a h (there m) = elim (Bool-cases (p x)) [
    | inl e ↦ rw e (there (retain-In p xs a h m))
    | inr e ↦ rw e (retain-In p xs a h m)
  ]

  pub In-append : (xs ys : List A) (a : A) → In a (xs ++ ys) → In a xs ⊎ In a ys
  In-append [] ys a m = inr m
  In-append (x ∷ xs) ys a (here e) = inl (here e)
  In-append (x ∷ xs) ys a (there m) = elim (In-append xs ys a m) [
    | inl l ↦ inl (there l)
    | inr r ↦ inr r
  ]

  pub append_left-In : (xs ys : List A) (a : A) → In a xs → In a (xs ++ ys)
  append_left-In [] ys a m = elim m [ ]
  append_left-In (x ∷ xs) ys a (here e) = here e
  append_left-In (x ∷ xs) ys a (there m) = there (append_left-In xs ys a m)

  pub append-In : (xs ys : List A) (a : A) → In a ys → In a (xs ++ ys)
  append-In [] ys a m = m
  append-In (x ∷ xs) ys a m = there (append-In xs ys a m)

module _ {ℓ κ} {A : Type ℓ} (P : A → Type κ) where
  pub All-In : (xs : List A) (a : A) → All P xs → In a xs → P a
  All-In [] a h m = elim m [ ]
  All-In (x ∷ xs) a (h, hs) (here e) = subst P (sym e) h
  All-In (x ∷ xs) a (h, hs) (there m) = All-In xs a hs m

  pub In-All : (xs : List A) → ((a : A) → In a xs → P a) → All P xs
  In-All [] f = tt
  In-All (x ∷ xs) f = (f x (here refl), In-All xs (λ a m. f a (there m)))

pub map-In {ℓ κ} :
    {A : Type ℓ} {B : Type κ} (f : A → B) (xs : List A) (a : A) → In a xs → In (f a) (map f xs)
map-In f [] a m = elim m [ ]
map-In f (x ∷ xs) a (here e) = here (ap f e)
map-In f (x ∷ xs) a (there m) = there (map-In f xs a m)

pub In-map {ℓ κ} :
    {A : Type ℓ} {B : Type κ} (f : A → B) (xs : List A) (b : B)
    → In b (map f xs)
    → (a : A) × In a xs × (b ≡ f a)
In-map f [] b m = elim m [ ]
In-map f (x ∷ xs) b (here e) = (x, here refl, e)
In-map f (x ∷ xs) b (there m) = let (a, k, e) = In-map f xs b m in (a, there k, e)

-- `iter().filter_map(f).collect()`
abbrev pub filter_map : {A B : Type 0} → (A → Option B) → List A → List B
filter_map f [] = []
filter_map f (x ∷ xs) = let rest = filter_map f xs in elim (f x) [ none ↦ rest | some b ↦ b ∷ rest ]

pub filter_map-map :
    {A B : Type 0} (f : A → Option B) (g : B → A) (bs : List B)
    → All (λ b. f (g b) ≡ some b) bs
    → filter_map f (map g bs) ≡ bs
filter_map-map f g [] h = refl
filter_map-map f g (b ∷ bs) (h, hs) =
    rw (h, filter_map) (ap (λ rest. b ∷ rest) (filter_map-map f g bs hs))
