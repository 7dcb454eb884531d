-- ===== src/Common/Pairs.antt =====
-- A relation between every earlier and later element of a list.
use mathlib.Core.Path.{◌≡◌, sym, subst, ◌∙◌}
use mathlib.Core.Bool.{Bool}
use mathlib.Core.Logic.{◌⊎◌, inl, inr}
use mathlib.Core.List.{List, [], ◌∷◌, ◌++◌}
use ndhcpd.Common.Tests.{Bool-cases}
use ndhcpd.Common.Lists.{All, All-append}
use ndhcpd.Common.Search.{In, here, there, retain, In-retain, All-In, In-All}

abbrev pub Pairwise {ℓ κ} : {A : Type ℓ} → (A → A → Type κ) → List A → Type κ
Pairwise R [] = Unit
Pairwise R (x ∷ xs) = All (R x) xs × Pairwise R xs

module _ {ℓ κ} {A : Type ℓ} (P : A → Type κ) where
  pub All-retain : (p : A → Bool) (xs : List A) → All P xs → All P (retain p xs)
  All-retain p xs h = In-All P (retain p xs) (λ a m. All-In P xs a h (In-retain p xs a m).1)

module _ {ℓ κ} {A : Type ℓ} (R : A → A → Type κ) where
  pub Pairwise-retain : (p : A → Bool) (xs : List A) → Pairwise R xs → Pairwise R (retain p xs)
  Pairwise-retain p [] h = tt
  Pairwise-retain p (x ∷ xs) (h, hs) = elim (Bool-cases (p x)) [
    | inl e ↦ rw e (All-retain (R x) p xs h, Pairwise-retain p xs hs)
    | inr e ↦ rw e (Pairwise-retain p xs hs)
  ]

  pub Pairwise-push :
      (xs : List A) (y : A) → Pairwise R xs → All (λ x. R x y) xs → Pairwise R (xs ++ (y ∷ []))
  Pairwise-push [] y h k = (tt, tt)
  Pairwise-push (x ∷ xs) y (h, hs) (k, ks) =
      (All-append (R x) xs (y ∷ []) h (k, tt), Pairwise-push xs y hs ks)

  pub Pairwise-mono {μ} :
      (Q : A → A → Type μ)
      → ((x y : A) → R x y → Q x y)
      → (xs : List A) → Pairwise R xs
      → Pairwise Q xs
  Pairwise-mono Q f [] h = tt
  Pairwise-mono Q f (x ∷ xs) (h, hs) =
      (In-All (Q x) xs (λ a m. f x a (All-In (R x) xs a h m)), Pairwise-mono Q f xs hs)

  -- Two elements are the same, or stand in the relation one way or the other.
  pub Pairwise-In :
      (xs : List A) (a b : A) → Pairwise R xs → In a xs → In b xs → (a ≡ b) ⊎ (R a b ⊎ R b a)
  Pairwise-In [] a b h m n = elim m [ ]
  Pairwise-In (x ∷ xs) a b (h, hs) (here e) (here f) = inl (e ∙ sym f)
  Pairwise-In (x ∷ xs) a b (h, hs) (here e) (there n) =
      inr (inl (subst (λ z. R z b) (sym e) (All-In (R x) xs b h n)))
  Pairwise-In (x ∷ xs) a b (h, hs) (there m) (here f) =
      inr (inr (subst (λ z. R z a) (sym f) (All-In (R x) xs a h m)))
  Pairwise-In (x ∷ xs) a b (h, hs) (there m) (there n) = Pairwise-In xs a b hs m n
