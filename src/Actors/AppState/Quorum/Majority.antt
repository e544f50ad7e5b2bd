-- ===== src/Actors/AppState/Quorum/Majority.antt =====
-- The relay keeps, for each key, a value that was sent most often.
use human_network.Prelude.{
  ℕ, ◌+◌, ◌≤◌, ◌≡◌, ◌≢◌, refl, sym, subst, ◌∙◌, true, false, ◌&&◌, List, [], ◌∷◌, Option, none,
  some, Dictionary, String, str_eq, lookup, Bool-cases, inl, inr, arith,
}
use mathlib.Core.Bool.{false≢true}
use text.Mathlib.TextEquality.{eq_iff}
use human_network.Actors.AppState.Quorum.{
  bytes_eq, count_value, count_entry, count_map, count_all, max_value, choose,
  resolve_conflicts_between_group_keys,
}
use human_network.Actors.AppState.Quorum.Counts.{
  one, count_of, count_of-count_value, IsCounted, IsCounted-count_value, max_value-count_of,
  max_value-bound,
}

-- How many of the maps have the value under the key.
unfoldable pub votes_in : String → List ℕ → Dictionary (List ℕ) → ℕ
votes_in key w [] = 0
votes_in key w ((k, v) ∷ keys_map) = one (str_eq k key && bytes_eq v w) + votes_in key w keys_map

unfoldable pub votes : String → List ℕ → List (Dictionary (List ℕ)) → ℕ
unfolding votes_in
votes key w [] = 0
votes key w (keys_map ∷ maps) = votes_in key w keys_map + votes key w maps

abbrev count_under : Option (List (List ℕ × ℕ)) → List ℕ → ℕ
count_under none w = 0
count_under (some counts) w = count_of w counts

str_eq-true : (s t : String) → str_eq s t ≡ true → s ≡ t
str_eq-true s t = (eq_iff s t).0

str_eq-of_ne : (s t : String) → s ≢ t → str_eq s t ≡ false
str_eq-of_ne s t h = elim (Bool-cases (str_eq s t)) [
  | inl e ↦ absurd (h (str_eq-true s t e))
  | inr e ↦ e
]

ne-of_str_eq : (s t : String) → str_eq s t ≡ false → s ≢ t
ne-of_str_eq s t h e = false≢true (sym h ∙ (eq_iff s t).1 e)

lookup-count_entry :
    (key k : String) (w v : List ℕ) (value_count : Dictionary (List (List ℕ × ℕ)))
    → count_under (lookup key (count_entry k v value_count)) w
      ≡ count_under (lookup key value_count) w + one (str_eq k key && bytes_eq v w)
unfolding count_entry
lookup-count_entry key k w v [] = elim (Bool-cases (str_eq k key)) [
  | inl e ↦ rw e (count_of-count_value w v [])
  | inr e ↦ rw e refl
]
lookup-count_entry key k w v ((other, counts) ∷ rest) = elim (Bool-cases (str_eq other k)) [
  | inl e ↦
      let same = str_eq-true other k e in
      elim (Bool-cases (str_eq k key)) [
        | inl e' ↦ rw (e, same, e') (count_of-count_value w v counts)
        | inr e' ↦ rw (e, same, e') (omega arith)
      ]
  | inr e ↦ elim (Bool-cases (str_eq other key)) [
    | inl e' ↦
        let apart = ne-of_str_eq other k e in
        let same = str_eq-true other key e' in
        rw (e, e', str_eq-of_ne k key (λ p. apart (same ∙ sym p))) (omega arith)
    | inr e' ↦ rw (e, e') (lookup-count_entry key k w v rest)
  ]
]

lookup-count_map :
    (key : String) (w : List ℕ) (keys_map : Dictionary (List ℕ))
    (value_count : Dictionary (List (List ℕ × ℕ)))
    → count_under (lookup key (count_map keys_map value_count)) w
      ≡ count_under (lookup key value_count) w + votes_in key w keys_map
unfolding count_map votes_in
lookup-count_map key w [] value_count = omega arith
lookup-count_map key w ((k, v) ∷ keys_map) value_count = omega (
  arith,
  lookup-count_map key w keys_map (count_entry k v value_count),
  lookup-count_entry key k w v value_count,
)

lookup-count_all :
    (key : String) (w : List ℕ) (maps : List (Dictionary (List ℕ)))
    (value_count : Dictionary (List (List ℕ × ℕ)))
    → count_under (lookup key (count_all maps value_count)) w
      ≡ count_under (lookup key value_count) w + votes key w maps
unfolding count_all votes
lookup-count_all key w [] value_count = omega arith
lookup-count_all key w (keys_map ∷ maps) value_count = omega (
  arith,
  lookup-count_all key w maps (count_map keys_map value_count),
  lookup-count_map key w keys_map value_count,
)

-- Each key has counts, and they are those of different values.
abbrev AllCounted : Dictionary (List (List ℕ × ℕ)) → Type 0
AllCounted [] = Unit
AllCounted ((k, counts) ∷ rest) = (counts ≢ []) × IsCounted counts × AllCounted rest

count_value-nonempty : (v : List ℕ) (counts : List (List ℕ × ℕ)) → count_value v counts ≢ []
unfolding count_value
count_value-nonempty v [] = λ e. cc
count_value-nonempty v ((other, n) ∷ counts) = elim (Bool-cases (bytes_eq other v)) [
  | inl e ↦ rw e (λ e'. cc)
  | inr e ↦ rw e (λ e'. cc)
]

AllCounted-count_entry :
    (k : String) (v : List ℕ) (value_count : Dictionary (List (List ℕ × ℕ)))
    → AllCounted value_count
    → AllCounted (count_entry k v value_count)
unfolding count_entry
AllCounted-count_entry k v [] h = (count_value-nonempty v [], IsCounted-count_value v [] tt, tt)
AllCounted-count_entry k v ((other, counts) ∷ rest) (ne, c, h) =
    elim (Bool-cases (str_eq other k)) [
      | inl e ↦ rw e (count_value-nonempty v counts, IsCounted-count_value v counts c, h)
      | inr e ↦ rw e (ne, c, AllCounted-count_entry k v rest h)
    ]

AllCounted-count_map :
    (keys_map : Dictionary (List ℕ)) (value_count : Dictionary (List (List ℕ × ℕ)))
    → AllCounted value_count
    → AllCounted (count_map keys_map value_count)
unfolding count_map
AllCounted-count_map [] value_count h = h
AllCounted-count_map ((k, v) ∷ keys_map) value_count h =
    AllCounted-count_map keys_map (count_entry k v value_count)
      (AllCounted-count_entry k v value_count h)

AllCounted-count_all :
    (maps : List (Dictionary (List ℕ))) (value_count : Dictionary (List (List ℕ × ℕ)))
    → AllCounted value_count
    → AllCounted (count_all maps value_count)
unfolding count_all
AllCounted-count_all [] value_count h = h
AllCounted-count_all (keys_map ∷ maps) value_count h =
    AllCounted-count_all maps (count_map keys_map value_count)
      (AllCounted-count_map keys_map value_count h)

some_eq : {A : Type 0} {a b : A} → some a ≡ some b → a ≡ b
some_eq h = cc

lookup-choose :
    (key : String) (value w : List ℕ) (value_count : Dictionary (List (List ℕ × ℕ)))
    → AllCounted value_count
    → lookup key (choose value_count) ≡ some value
    → count_under (lookup key value_count) w ≤ count_under (lookup key value_count) value
unfolding choose
lookup-choose key value w [] h e = cc
lookup-choose key value w ((k, []) ∷ rest) (ne, c, h) e = absurd (ne refl)
lookup-choose key value w ((k, (v, n) ∷ counts) ∷ rest) (ne, c, h) e =
    elim (Bool-cases (str_eq k key)) [
      | inl e' ↦
          let best = max_value (v, n) counts in
          let found : some best.0 ≡ lookup key (choose ((k, (v, n) ∷ counts) ∷ rest)) =
            rw e' refl in
          rw e' (
            subst (λ x. count_of w ((v, n) ∷ counts) ≤ count_of x ((v, n) ∷ counts))
              (some_eq (found ∙ e))
              (omega (arith, max_value-bound w v n counts, max_value-count_of v n counts c)))
      | inr e' ↦
          let skipped : lookup key (choose rest)
              ≡ lookup key (choose ((k, (v, n) ∷ counts) ∷ rest)) =
            rw e' refl in
          rw e' (lookup-choose key value w rest h (skipped ∙ e))
    ]

-- The value that the relay keeps for a key was sent at least as often for it as any other value.
pub resolve_conflicts_between_group_keys-votes :
    (group_public_keys : List (Dictionary (List ℕ))) (key : String) (value other : List ℕ)
    → lookup key (resolve_conflicts_between_group_keys group_public_keys) ≡ some value
    → votes key other group_public_keys ≤ votes key value group_public_keys
unfolding resolve_conflicts_between_group_keys
resolve_conflicts_between_group_keys-votes maps key value other h = omega (
  arith,
  lookup-choose key value other (count_all maps []) (AllCounted-count_all maps [] tt) h,
  lookup-count_all key other maps [],
  lookup-count_all key value maps [],
)
