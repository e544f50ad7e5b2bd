-- ===== src/Actors/AppState/Quorum/Counts.antt =====
-- The counts of the values of one key, and the largest of them.
use human_network.Prelude.{
  ℕ, ◌+◌, ◌≤◌, ◌≡◌, ◌≢◌, refl, sym, subst, ap, ap₂, ◌∙◌, Bool, true, false, List, [], ◌∷◌, ◌==◌,
  leb, if◌then◌else◌, Bool-cases, eq-of_==, ==-of_eq, le-of_leb, inl, inr, arith,
}
use mathlib.Core.Bool.{false≢true}
use human_network.Actors.AppState.Quorum.{bytes_eq, count_value, max_value}

abbrev pub one : Bool → ℕ
one true = 1
one false = 0

bytes_eq_refl : (xs : List ℕ) → bytes_eq xs xs ≡ true
bytes_eq_refl [] = refl
bytes_eq_refl (x ∷ xs) = rw (==-of_eq x x refl) (bytes_eq_refl xs)

eq-of_bytes_eq : (xs ys : List ℕ) → bytes_eq xs ys ≡ true → xs ≡ ys
eq-of_bytes_eq [] [] h = refl
eq-of_bytes_eq [] (y ∷ ys) h = cc
eq-of_bytes_eq (x ∷ xs) [] h = cc
eq-of_bytes_eq (x ∷ xs) (y ∷ ys) h = elim (Bool-cases (x == y)) [
  | inl e ↦ ap₂ ◌∷◌ (eq-of_== x y e) (eq-of_bytes_eq xs ys (sym (rw e refl) ∙ h))
  | inr e ↦ absurd (false≢true (sym (rw e refl) ∙ h))
]

bytes_eq-of_ne : (xs ys : List ℕ) → xs ≢ ys → bytes_eq xs ys ≡ false
bytes_eq-of_ne xs ys h = elim (Bool-cases (bytes_eq xs ys)) [
  | inl e ↦ absurd (h (eq-of_bytes_eq xs ys e))
  | inr e ↦ e
]

ne-of_bytes_eq : (xs ys : List ℕ) → bytes_eq xs ys ≡ false → xs ≢ ys
ne-of_bytes_eq xs ys h e =
    false≢true (sym h ∙ subst (λ zs. bytes_eq xs zs ≡ true) e (bytes_eq_refl xs))

-- How often a value was counted.
abbrev pub count_of : List ℕ → List (List ℕ × ℕ) → ℕ
count_of w [] = 0
count_of w ((other, n) ∷ counts) = if bytes_eq other w then n else count_of w counts

pub count_of-count_value :
    (w v : List ℕ) (counts : List (List ℕ × ℕ))
    → count_of w (count_value v counts) ≡ count_of w counts + one (bytes_eq v w)
unfolding count_value
count_of-count_value w v [] = elim (Bool-cases (bytes_eq v w)) [
  | inl e ↦ rw e refl
  | inr e ↦ rw e refl
]
count_of-count_value w v ((other, n) ∷ counts) = elim (Bool-cases (bytes_eq other v)) [
  | inl e ↦
      let same = eq-of_bytes_eq other v e in
      elim (Bool-cases (bytes_eq v w)) [
        | inl e' ↦ rw (e, same, e') refl
        | inr e' ↦ rw (e, same, e') (omega arith)
      ]
  | inr e ↦ elim (Bool-cases (bytes_eq other w)) [
    | inl e' ↦
        let apart = ne-of_bytes_eq other v e in
        let same = eq-of_bytes_eq other w e' in
        rw (e, e', bytes_eq-of_ne v w (λ p. apart (same ∙ sym p))) (omega arith)
    | inr e' ↦ rw (e, e') (count_of-count_value w v counts)
  ]
]

-- Different values, each counted at least once.
abbrev pub IsCounted : List (List ℕ × ℕ) → Type 0
IsCounted [] = Unit
IsCounted ((other, n) ∷ counts) = (count_of other counts ≡ 0) × (1 ≤ n) × IsCounted counts

pub IsCounted-count_value :
    (v : List ℕ) (counts : List (List ℕ × ℕ)) → IsCounted counts → IsCounted (count_value v counts)
unfolding count_value
IsCounted-count_value v [] h = (refl, omega arith, tt)
IsCounted-count_value v ((other, n) ∷ counts) (fresh, positive, h) =
    elim (Bool-cases (bytes_eq other v)) [
      | inl e ↦ rw e (fresh, omega arith, h)
      | inr e ↦
          let apart = bytes_eq-of_ne v other (λ p. ne-of_bytes_eq other v e (sym p)) in
          rw e (
            omega (arith, count_of-count_value other v counts, ap one apart),
            positive,
            IsCounted-count_value v counts h,
          )
    ]

le-of_not_leb : (a b : ℕ) → leb a b ≡ false → b ≤ a
le-of_not_leb a b h = ground arith

max_value-first :
    (v : List ℕ) (n : ℕ) (counts : List (List ℕ × ℕ)) → n ≤ (max_value (v, n) counts).1
unfolding max_value
max_value-first v n [] = omega arith
max_value-first v n ((other, m) ∷ counts) = elim (Bool-cases (leb n m)) [
  | inl e ↦ rw e (omega (arith, max_value-first other m counts, le-of_leb n m e))
  | inr e ↦ rw e (max_value-first v n counts)
]

-- No value was counted more often than the one chosen.
pub max_value-bound :
    (w v : List ℕ) (n : ℕ) (counts : List (List ℕ × ℕ))
    → count_of w ((v, n) ∷ counts) ≤ (max_value (v, n) counts).1
unfolding max_value
max_value-bound w v n [] = elim (Bool-cases (bytes_eq v w)) [
  | inl e ↦ rw e (omega arith)
  | inr e ↦ rw e (omega arith)
]
max_value-bound w v n ((other, m) ∷ counts) = elim (Bool-cases (leb n m)) [
  | inl e ↦ elim (Bool-cases (bytes_eq v w)) [
    | inl e' ↦ rw (e, e') (omega (arith, max_value-first other m counts, le-of_leb n m e))
    | inr e' ↦ rw (e, e') (max_value-bound w other m counts)
  ]
  | inr e ↦ elim (Bool-cases (bytes_eq v w)) [
    | inl e' ↦ rw (e, e') (max_value-first v n counts)
    | inr e' ↦ elim (Bool-cases (bytes_eq other w)) [
      | inl e'' ↦ rw (e, e', e'') (omega (arith, max_value-first v n counts, le-of_not_leb n m e))
      | inr e'' ↦
          rw (e, e', e'')
            (subst (λ b. (if b then n else count_of w counts) ≤ (max_value (v, n) counts).1) e'
              (max_value-bound w v n counts))
    ]
  ]
]

count_of-tail :
    (v other : List ℕ) (m : ℕ) (counts : List (List ℕ × ℕ))
    → 1 ≤ m
    → count_of v ((other, m) ∷ counts) ≡ 0
    → count_of v counts ≡ 0
count_of-tail v other m counts positive h = elim (Bool-cases (bytes_eq other v)) [
  | inl e ↦ absurd (omega (arith, subst (λ b. (if b then m else count_of v counts) ≡ 0) e h))
  | inr e ↦ subst (λ b. (if b then m else count_of v counts) ≡ 0) e h
]

-- The number that goes with the chosen value is how often it was counted.
pub max_value-count_of :
    (v : List ℕ) (n : ℕ) (counts : List (List ℕ × ℕ))
    → IsCounted ((v, n) ∷ counts)
    → count_of (max_value (v, n) counts).0 ((v, n) ∷ counts) ≡ (max_value (v, n) counts).1
unfolding max_value
max_value-count_of v n [] h = rw (bytes_eq_refl v) refl
max_value-count_of v n ((other, m) ∷ counts) (fresh, positive, (fresh', positive', h)) =
    let IsOwn = λ (r : List ℕ × ℕ). count_of r.0 ((v, n) ∷ (other, m) ∷ counts) ≡ r.1 in
    elim (Bool-cases (leb n m)) [
      | inl e ↦
          let best = max_value (other, m) counts in
          let rest = max_value-count_of other m counts (fresh', positive', h) in
          let chosen : max_value (v, n) ((other, m) ∷ counts) ≡ best = rw (max_value, e) refl in
          subst IsOwn (sym chosen) (elim (Bool-cases (bytes_eq v best.0)) [
            | inl e' ↦
                let none_left =
                  subst (λ x. count_of x ((other, m) ∷ counts) ≡ 0) (eq-of_bytes_eq v best.0 e')
                    fresh in
                absurd (omega (arith, none_left, rest, max_value-first other m counts))
            | inr e' ↦ rw e' rest
          ])
      | inr e ↦
          let best = max_value (v, n) counts in
          let rest =
            max_value-count_of v n counts
              (count_of-tail v other m counts positive' fresh, positive, h) in
          let chosen : max_value (v, n) ((other, m) ∷ counts) ≡ best = rw (max_value, e) refl in
          subst IsOwn (sym chosen) (elim (Bool-cases (bytes_eq v best.0)) [
            | inl e' ↦
                rw e' (subst (λ b. (if b then n else count_of best.0 counts) ≡ best.1) e' rest)
            | inr e' ↦
                let rest' =
                  subst (λ b. (if b then n else count_of best.0 counts) ≡ best.1) e' rest in
                elim (Bool-cases (bytes_eq other best.0)) [
                  | inl e'' ↦
                      let none_left =
                        subst (λ x. count_of x counts ≡ 0) (eq-of_bytes_eq other best.0 e'')
                          fresh' in
                      absurd (omega (arith, none_left, rest', max_value-first v n counts))
                  | inr e'' ↦ rw (e', e'') rest'
                ]
          ])
    ]
