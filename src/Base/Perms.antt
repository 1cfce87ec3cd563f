-- ===== src/Base/Perms.antt =====
-- What two lists share that are permutations of one another.
use Prim.Native.Nat.{ℕ, ◌+◌}
use mathlib.Core.HLevel.{×_prop}
use mathlib.Core.Logic.{∥∥₁_elim}
use mathlib.Core.List.{List, [], ◌∷◌, Perm, Permᴰ}
use mathlib.Core.Path.{◌≡◌, refl, ◌∙◌, ap, subst, sym}
use mathlib.Core.Bool.{Bool, true}
use native.Mathlib.Nat.{ℕ_set}
use native.Mathlib.Omega.{arith}
use dfs_mapreduce.Base.Lists.{length, keep, All}

Permᴰ-length-keep {ℓ} :
    {A : Type ℓ} (p : A → Bool) {a b : List A} → Permᴰ a b → length (keep p a) ≡ length (keep p b)
Permᴰ-length-keep p (Permᴰ.trans q r) = Permᴰ-length-keep p q ∙ Permᴰ-length-keep p r
Permᴰ-length-keep p (Permᴰ.swap x y) = ground arith
Permᴰ-length-keep p (Permᴰ.cons x q) = ground (arith, Permᴰ-length-keep p q)
Permᴰ-length-keep p Permᴰ.nil = refl

pub length-keep-perm {ℓ} :
    {A : Type ℓ} (p : A → Bool) {a b : List A} → Perm a b → length (keep p a) ≡ length (keep p b)
length-keep-perm p same = ∥∥₁_elim same (ℕ_set _ _) (λ d. Permᴰ-length-keep p d)

keep_all {ℓ} : {A : Type ℓ} (l : List A) → keep (λ _. true) l ≡ l
keep_all [] = refl
keep_all (x ∷ l) = ap (◌∷◌ x) (keep_all l)

-- Nothing is dropped by a test that holds of every element.
pub length-perm {ℓ} : {A : Type ℓ} {a b : List A} → Perm a b → length a ≡ length b
length-perm {a} {b} same =
    subst (λ l. length a ≡ length l) (keep_all b)
      (subst (λ l. length l ≡ length (keep (λ _. true) b)) (keep_all a)
        (length-keep-perm (λ _. true) same))

All-prop {ℓ κ} :
    {A : Type ℓ} {P : A → Type κ} → ((a : A) → IsProp (P a)) → (l : List A) → IsProp (All P l)
All-prop prop [] = hlevel
All-prop prop (x ∷ l) = ×_prop (prop x) (All-prop prop l)

pub Permᴰ-All {ℓ κ} : {A : Type ℓ} (P : A → Type κ) {a b : List A} → Permᴰ a b → All P a → All P b
Permᴰ-All P Permᴰ.nil h = tt
Permᴰ-All P (Permᴰ.cons e q) h = (subst P e h.0, Permᴰ-All P q h.1)
Permᴰ-All P (Permᴰ.swap e f) h = (subst P f h.1.0, (subst P e h.0, h.1.1))
Permᴰ-All P (Permᴰ.trans q r) h = Permᴰ-All P r (Permᴰ-All P q h)

pub All-perm {ℓ κ} :
    {A : Type ℓ} (P : A → Type κ)
    → ((a : A) → IsProp (P a))
    → {a b : List A} → Perm a b
    → All P a
    → All P b
All-perm P prop {b} q h = ∥∥₁_elim q (All-prop prop b) (λ d. Permᴰ-All P d h)

-- The sum of a number for each element.
abbrev pub total {ℓ} : {A : Type ℓ} → (A → ℕ) → List A → ℕ
total f [] = 0
total f (x ∷ xs) = f x + total f xs

pub Permᴰ-total {ℓ} : {A : Type ℓ} (f : A → ℕ) {a b : List A} → Permᴰ a b → total f a ≡ total f b
Permᴰ-total f Permᴰ.nil = refl
Permᴰ-total f (Permᴰ.cons e q) = grind (arith, ap f e, Permᴰ-total f q)
Permᴰ-total f (Permᴰ.swap e g) = grind (arith, ap f e, ap f g)
Permᴰ-total f (Permᴰ.trans q r) = Permᴰ-total f q ∙ Permᴰ-total f r

pub Permᴰ-refl {ℓ} : {A : Type ℓ} (a : List A) → Permᴰ a a
Permᴰ-refl [] = Permᴰ.nil
Permᴰ-refl (x ∷ a) = Permᴰ.cons refl (Permᴰ-refl a)

pub Permᴰ-sym {ℓ} : {A : Type ℓ} {a b : List A} → Permᴰ a b → Permᴰ b a
Permᴰ-sym Permᴰ.nil = Permᴰ.nil
Permᴰ-sym (Permᴰ.cons e q) = Permᴰ.cons (sym e) (Permᴰ-sym q)
Permᴰ-sym (Permᴰ.swap e g) = Permᴰ.swap (sym g) (sym e)
Permᴰ-sym (Permᴰ.trans q r) = Permᴰ.trans (Permᴰ-sym r) (Permᴰ-sym q)
