-- ===== src/Base/Maps.antt =====
-- A Go map does not depend on the order in which it is visited. Shared helpers.
use mathlib.Core.Path.{◌≡◌, refl, ap, ◌∙◌}
use mathlib.Core.Bool.{Bool, false, ◌||◌}
use mathlib.Core.Logic.{∥∥₁_elim}
use mathlib.Core.List.{[], ◌∷◌, Perm, Permᴰ}
use native.Mathlib.Omega.{arith}
use alertmanager_webhook_rel.Base.Texts.{Text, Dict, at, text_eq, text_eq_iff}

-- `_, ok := m[k]`
unfoldable pub has_key : Dict → Text → Bool
has_key [] k = false
has_key ((j, v) ∷ m) k = text_eq j k || has_key m k

abbrev pub HasUniqueKeys : Dict → Type 0
HasUniqueKeys [] = Unit
HasUniqueKeys ((k, v) ∷ m) = (has_key m k ≡ false) × HasUniqueKeys m

has_key-Permᴰ : {l m : Dict} (k : Text) → Permᴰ l m → has_key l k ≡ has_key m k
unfolding has_key
has_key-Permᴰ k Permᴰ.nil = refl
has_key-Permᴰ k (Permᴰ.cons {a} {b} e p) =
    let same = ap (λ (x : Text × Text). x.0) e in ground (arith, has_key-Permᴰ k p)
has_key-Permᴰ k (Permᴰ.swap {a} {b} {a'} {b'} e f) =
    let same = ap (λ (x : Text × Text). x.0) e in
    let other = ap (λ (x : Text × Text). x.0) f in ground arith
has_key-Permᴰ k (Permᴰ.trans p q) = has_key-Permᴰ k p ∙ has_key-Permᴰ k q

HasUniqueKeys-Permᴰ : {l m : Dict} → Permᴰ l m → HasUniqueKeys l → HasUniqueKeys m
unfolding has_key
HasUniqueKeys-Permᴰ Permᴰ.nil v = tt
HasUniqueKeys-Permᴰ (Permᴰ.cons {a} {b} {l₁} {l₂} e p) v =
    let same = ap (λ (x : Text × Text). x.0) e in
    let moved = has_key-Permᴰ a.0 p in let rest = HasUniqueKeys-Permᴰ p v.1 in ground arith
HasUniqueKeys-Permᴰ (Permᴰ.swap {a} {b} {a'} {b'} e f) v =
    let same = ap (λ (x : Text × Text). x.0) e in
    let other = ap (λ (x : Text × Text). x.0) f in
    ground (arith, text_eq_iff a.0 b.0, text_eq_iff b.0 a.0)
HasUniqueKeys-Permᴰ (Permᴰ.trans p q) v = HasUniqueKeys-Permᴰ q (HasUniqueKeys-Permᴰ p v)

at-Permᴰ : {l m : Dict} (k : Text) → Permᴰ l m → HasUniqueKeys l → at l k ≡ at m k
unfolding at has_key
at-Permᴰ k Permᴰ.nil v = refl
at-Permᴰ k (Permᴰ.cons {a} {b} e p) v =
    let same = ap (λ (x : Text × Text). x.0) e in
    let value = ap (λ (x : Text × Text). x.1) e in let rest = at-Permᴰ k p v.1 in ground arith
at-Permᴰ k (Permᴰ.swap {a} {b} {a'} {b'} e f) v =
    let same = ap (λ (x : Text × Text). x.0) e in
    let other = ap (λ (x : Text × Text). x.0) f in
    let value = ap (λ (x : Text × Text). x.1) e in
    let other_value = ap (λ (x : Text × Text). x.1) f in
    ground (arith, text_eq_iff b.0 a.0, text_eq_iff a.0 k, text_eq_iff b.0 k)
at-Permᴰ k (Permᴰ.trans p q) v = at-Permᴰ k p v ∙ at-Permᴰ k q (HasUniqueKeys-Permᴰ p v)

pub Text_set : IsSet Text
Text_set = hlevel

pub at_perm : (l m : Dict) (k : Text) → Perm l m → HasUniqueKeys l → at l k ≡ at m k
at_perm l m k p v = ∥∥₁_elim p (Text_set (at l k) (at m k)) (λ d. at-Permᴰ k d v)

pub has_key_perm : (l m : Dict) (k : Text) → Perm l m → has_key l k ≡ has_key m k
has_key_perm l m k p = ∥∥₁_elim p (hlevel) (λ d. has_key-Permᴰ k d)
