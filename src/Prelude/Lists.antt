-- ===== src/Prelude/Lists.antt =====
-- Lists measured and indexed by native numbers, and association lists for `HashMap`.
use Prim.Native.Nat.{ℕ, zero, suc, ◌+◌, ◌<◌}
use mathlib.Core.Path.{◌≡◌, refl, ap, subst}
use mathlib.Core.Logic.{◌≢◌, inl, inr}
use mathlib.Core.List.{List, [], ◌∷◌, ◌++◌, map}
use mathlib.Core.Bool.{Bool, false, ◌||◌}
use mathlib.Core.Option.{Option, none, some}
use native.Mathlib.Omega.{arith}
use human_network.Prelude.Tests.{if◌then◌else◌, ◌==◌, ==-of_ne, ==-of_eq, Bool-cases}

module _ {ℓ} {A : Type ℓ} where
  abbrev pub length : List A → ℕ
  length [] = 0
  length (x ∷ xs) = suc (length xs)

  abbrev pub get_elem? : List A → ℕ → Option A
  get_elem? [] i = none
  get_elem? (x ∷ xs) zero = some x
  get_elem? (x ∷ xs) (suc i) = get_elem? xs i

  -- `Vec::remove(i)` for an index in bounds, without the element.
  abbrev pub remove : List A → ℕ → List A
  remove [] i = []
  remove (x ∷ xs) zero = xs
  remove (x ∷ xs) (suc i) = x ∷ remove xs i

  abbrev pub take : ℕ → List A → List A
  take zero xs = []
  take (suc n) [] = []
  take (suc n) (x ∷ xs) = x ∷ take n xs

  -- A predicate of every element.
  abbrev pub All {κ} : (A → Type κ) → List A → Type κ
  All P [] = Unit
  All P (x ∷ xs) = P x × All P xs

module _ {ℓ} {A : Type ℓ} where
  pub length-append : (xs ys : List A) → length (xs ++ ys) ≡ length xs + length ys
  length-append [] ys = omega arith
  length-append (x ∷ xs) ys = omega (arith, length-append xs ys)

  pub length-map {κ} : {B : Type κ} (f : A → B) (xs : List A) → length (map f xs) ≡ length xs
  length-map f [] = refl
  length-map f (x ∷ xs) = ap suc (length-map f xs)

module _ {ℓ κ} {A : Type ℓ} (P Q R : A → Type κ) where
  pub All-zip : ((x : A) → P x → Q x → R x) → (xs : List A) → All P xs → All Q xs → All R xs
  All-zip f [] p q = tt
  All-zip f (x ∷ xs) p q = (f x p.0 q.0, All-zip f xs p.1 q.1)

module _ {ℓ κ} {A : Type ℓ} (P Q : A → Type κ) where
  pub All-map : ((x : A) → P x → Q x) → (xs : List A) → All P xs → All Q xs
  All-map f [] p = tt
  All-map f (x ∷ xs) p = (f x p.0, All-map f xs p.1)

-- A map keyed by numbers, in the order in which it is iterated.
abbrev pub Assoc {ℓ} : Type ℓ → Type ℓ
Assoc V = List (ℕ × V)

module _ {ℓ} {V : Type ℓ} where
  -- `HashMap::get`
  abbrev pub get : ℕ → Assoc V → Option V
  get key ((other, value) ∷ rest) = if other == key then some value else get key rest
  get key [] = none

  -- `HashMap::insert`: the value of a present key is replaced.
  abbrev pub insert : ℕ → V → Assoc V → Assoc V
  insert key value ((other, old) ∷ rest) =
      if other == key then (key, value) ∷ rest else (other, old) ∷ insert key value rest
  insert key value [] = (key, value) ∷ []

  -- `HashMap::entry(k).or_insert(v)`: the value of a present key is kept.
  abbrev pub or_insert : ℕ → V → Assoc V → Assoc V
  or_insert k v [] = (k, v) ∷ []
  or_insert k v ((j, w) ∷ m) = (j, w) ∷ (if j == k then m else or_insert k v m)

  -- `HashMap::remove`
  abbrev pub remove_key : ℕ → Assoc V → Assoc V
  remove_key k [] = []
  remove_key k ((j, w) ∷ m) = if j == k then remove_key k m else (j, w) ∷ remove_key k m

  abbrev pub keys : Assoc V → List ℕ
  keys [] = []
  keys ((k, v) ∷ m) = k ∷ keys m

  abbrev pub values : Assoc V → List V
  values [] = []
  values ((k, v) ∷ m) = v ∷ values m

-- `contains` of a `HashSet` or a `Vec` of numbers, and `contains_key` of a cache without values.
abbrev pub contains : ℕ → List ℕ → Bool
contains x [] = false
contains x (y ∷ ys) = y == x || contains x ys

-- `HashSet::insert`
abbrev pub set_insert : ℕ → List ℕ → List ℕ
set_insert x xs = if contains x xs then xs else x ∷ xs

-- `remove` by value, from a cache without values
abbrev pub drop_key : ℕ → List ℕ → List ℕ
drop_key x [] = []
drop_key x (y ∷ ys) = if y == x then drop_key x ys else y ∷ drop_key x ys

-- Inserting a new key appends it.
pub or_insert-fresh {ℓ} :
    {V : Type ℓ} (key : ℕ) (v : V) (m : Assoc V)
    → All (λ j. j ≢ key) (keys m)
    → or_insert key v m ≡ m ++ (key, v) ∷ []
or_insert-fresh key v [] h = refl
or_insert-fresh key v ((j, w) ∷ m) h =
    rw (==-of_ne j key h.0) (ap (◌∷◌ (j, w)) (or_insert-fresh key v m h.1))

pub All-keys-snoc {ℓ} :
    {V : Type ℓ} (Q : ℕ → Type 0) (m : Assoc V) (key : ℕ) (v : V)
    → All Q (keys m)
    → Q key
    → All Q (keys (m ++ (key, v) ∷ []))
All-keys-snoc Q [] key v h q = (q, tt)
All-keys-snoc Q ((j, w) ∷ m) key v (h, hs) q = (h, All-keys-snoc Q m key v hs q)

module _ {ℓ κ} {A : Type ℓ} (P : A → Type κ) where
  pub All-remove : (xs : List A) (i : ℕ) → All P xs → All P (remove xs i)
  All-remove [] i ps = tt
  All-remove (x ∷ xs) zero (p, ps) = ps
  All-remove (x ∷ xs) (suc i) (p, ps) = (p, All-remove xs i ps)

  pub All-get : (xs : List A) (i : ℕ) (x : A) → All P xs → get_elem? xs i ≡ some x → P x
  All-get [] i x ps h = cc
  All-get (y ∷ xs) zero x (p, ps) h = subst P (cc) p
  All-get (y ∷ xs) (suc i) x (p, ps) h = All-get xs i x ps h

module _ {ℓ} {A : Type ℓ} where
  pub get_elem-some : (xs : List A) (i : ℕ) → i < length xs → (x : A) × (get_elem? xs i ≡ some x)
  get_elem-some [] i h = absurd (omega arith)
  get_elem-some (x ∷ xs) zero h = (x, refl)
  get_elem-some (x ∷ xs) (suc i) h = get_elem-some xs i (omega arith)

  pub length-remove : (xs : List A) (i : ℕ) → i < length xs → suc (length (remove xs i)) ≡ length xs
  length-remove [] i h = absurd (omega arith)
  length-remove (x ∷ xs) zero h = refl
  length-remove (x ∷ xs) (suc i) h = ap suc (length-remove xs i (omega arith))

-- What was inserted is found.
pub get-insert {ℓ} :
    {V : Type ℓ} (key : ℕ) (v : V) (m : Assoc V) → get key (insert key v m) ≡ some v
get-insert key v [] = rw (==-of_eq key key refl) refl
get-insert key v ((j, w) ∷ m) = elim (Bool-cases (j == key)) [
  | inl e ↦ rw (e, ==-of_eq key key refl) refl
  | inr e ↦ rw (e, e) (get-insert key v m)
]
