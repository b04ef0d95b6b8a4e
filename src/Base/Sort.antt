-- ===== src/Base/Sort.antt =====
-- Sorting as Go's package `sort` leaves a slice without equal elements: ascending. Shared helpers.
use mathlib.Core.Path.{◌≡◌, refl}
use mathlib.Core.Bool.{Bool, true, false, ◌&&◌, ◌||◌}
use mathlib.Core.List.{List, [], ◌∷◌, foldr, Perm}
use mathlib.Core.List
use mathlib.Core.List.Perm
use native.Mathlib.Omega.{arith}
use alertmanager_webhook_rel.Base.Tests.{ltb, ◌==◌, if◌then◌else◌}
use alertmanager_webhook_rel.Base.Texts.{Text}

module _ {ℓ} {A : Type ℓ} (le : A → A → Bool) where
  unfoldable pub insert : A → List A → List A
  insert x [] = x ∷ []
  insert x (y ∷ ys) = let rest = y ∷ insert x ys in if le x y then x ∷ y ∷ ys else rest

  -- `sort.Slice` and `sort.Strings`
  abbrev pub sort_by : List A → List A
  sort_by = foldr insert []

  pub record IsTotal : Type ℓ where
    pub either : (x y : A) → le x y ≡ false → le y x ≡ true
    pub both_ways : (x y : A) → le x y ≡ true → le y x ≡ true → x ≡ y
    pub chains : (x y z : A) → le x y ≡ true → le y z ≡ true → le x z ≡ true

  module _ (o : IsTotal) where
    insert_comm : (x y : A) (l : List A) → insert x (insert y l) ≡ insert y (insert x l)
    unfolding insert
    insert_comm x y [] = ground (arith, o.either x y, o.both_ways x y)
    insert_comm x y (z ∷ l) =
        ground
          (arith, o.either x y, o.both_ways x y, o.chains x y z, o.chains y x z, insert_comm x y l)

    -- The order in which a map is visited does not matter.
    pub sort_by_perm : IsSet A → (xs ys : List A) → Perm xs ys → sort_by xs ≡ sort_by ys
    sort_by_perm set xs ys p = Perm.foldr-eq (List.is_set set) insert insert_comm p []

-- Go compares strings by their bytes.
unfoldable pub text_leb : Text → Text → Bool
text_leb [] t = true
text_leb (a ∷ s) [] = false
text_leb (a ∷ s) (b ∷ t) = ltb a b || (a == b && text_leb s t)

text_total : (s t : Text) → text_leb s t ≡ false → text_leb t s ≡ true
unfolding text_leb
text_total [] t h = cc
text_total (a ∷ s) [] h = refl
text_total (a ∷ s) (b ∷ t) h = ground (arith, text_total s t)

text_antisymm : (s t : Text) → text_leb s t ≡ true → text_leb t s ≡ true → s ≡ t
unfolding text_leb
text_antisymm [] [] h k = refl
text_antisymm [] (b ∷ t) h k = cc
text_antisymm (a ∷ s) [] h k = cc
text_antisymm (a ∷ s) (b ∷ t) h k = ground (arith, text_antisymm s t)

text_trans : (s t u : Text) → text_leb s t ≡ true → text_leb t u ≡ true → text_leb s u ≡ true
unfolding text_leb
text_trans [] t u h k = refl
text_trans (a ∷ s) [] u h k = cc
text_trans (a ∷ s) (b ∷ t) [] h k = cc
text_trans (a ∷ s) (b ∷ t) (c ∷ u) h k = ground (arith, text_trans s t u)

pub text_leb-IsTotal : IsTotal text_leb
text_leb-IsTotal = record { either = text_total; both_ways = text_antisymm; chains = text_trans }
