-- ===== src/Actors/Election/Reports.antt =====
-- network/crates/actors/src/election_actor.rs: a round of the resharing is announced when the last member
-- of both quorums has reported.
use human_network.Prelude.{
  ℕ, suc, ◌+◌, ◌≤◌, ◌≡◌, refl, sym, subst, ap, ◌∙◌, Bool, true, false, ◌&&◌, ◌||◌, List, [], ◌∷◌,
  ◌++◌, contains, set_insert, length, ◌==◌, if◌then◌else◌, Bool-cases, ==-of_ne, ==-of_eq, eq-of_==,
  ne-of_==, inl, inr, arith,
}
use mathlib.Core.Bool.{false≢true, not}
use human_network.Actors.Election.{
  ElectionEngineState, Start, gossip_start, resharing_round1, peers_of, unique, keep_report,
  announce, record_resharing_init_node_status,
}

-- The statuses after the reports, the last one first.
abbrev gather : List ℕ → List ℕ → List ℕ
gather members [] = []
gather members (p ∷ ps) = keep_report members p (gather members ps)

-- How many of the members are in the list, and whether all are.
abbrev count_in : List ℕ → List ℕ → ℕ
count_in [] ps = 0
count_in (m ∷ members) ps = (if contains m ps then 1 else 0) + count_in members ps

abbrev pub all_in : List ℕ → List ℕ → Bool
all_in [] ps = true
all_in (m ∷ members) ps = contains m ps && all_in members ps

abbrev is_distinct : List ℕ → Bool
is_distinct [] = true
is_distinct (m ∷ members) = not (contains m members) && is_distinct members

count_in-le : (members ps : List ℕ) → count_in members ps ≤ length members
count_in-le [] ps = omega arith
count_in-le (m ∷ members) ps =
    let rest = count_in-le members ps in
    elim (Bool-cases (contains m ps)) [
      | inl e ↦ rw e (omega (arith, rest))
      | inr e ↦ rw e (omega (arith, rest))
    ]

suc-== : (a b : ℕ) → (1 + a == suc b) ≡ (a == b)
suc-== a b = ground arith

swap : (a b c : ℕ) → a + (b + c) ≡ b + (a + c)
swap a b c = omega arith

count_in-all : (members ps : List ℕ) → (count_in members ps == length members) ≡ all_in members ps
count_in-all [] ps = refl
count_in-all (m ∷ members) ps =
    let rest = count_in-le members ps in
    elim (Bool-cases (contains m ps)) [
      | inl e ↦ rw e (suc-== (count_in members ps) (length members) ∙ count_in-all members ps)
      | inr e ↦ rw e (==-of_ne (0 + count_in members ps) (suc (length members)) (ground arith))
    ]

count_in-stranger :
    (members ps : List ℕ) (p : ℕ)
    → contains p members ≡ false
    → count_in members (p ∷ ps) ≡ count_in members ps
count_in-stranger [] ps p h = refl
count_in-stranger (m ∷ members) ps p h = elim (Bool-cases (m == p)) [
  | inl e ↦ absurd (false≢true (sym h ∙ rw e refl))
  | inr e ↦ rw (==-of_ne p m (λ q. ne-of_== m p e (sym q))) (
      ap (◌+◌ (if contains m ps then 1 else 0))
        (count_in-stranger members ps p (sym (rw e refl) ∙ h)))
]

count_in-first :
    (m : ℕ) (members ps : List ℕ)
    → contains m members ≡ false
    → count_in (m ∷ members) (m ∷ ps)
      ≡ (if contains m (m ∷ members) && not (contains m ps) then 1 else 0)
        + count_in (m ∷ members) ps
count_in-first m members ps h = elim (Bool-cases (contains m ps)) [
  | inl e ↦ rw (==-of_eq m m refl, count_in-stranger members ps m h, e) (omega arith)
  | inr e ↦ rw (==-of_eq m m refl, count_in-stranger members ps m h, e) (omega arith)
]

-- One more report counts if it is a member's first.
count_in-cons :
    (members ps : List ℕ) (p : ℕ)
    → is_distinct members ≡ true
    → count_in members (p ∷ ps)
      ≡ (if contains p members && not (contains p ps) then 1 else 0) + count_in members ps
count_in-cons [] ps p h = refl
count_in-cons (m ∷ members) ps p h = elim (Bool-cases (contains m members)) [
  | inl e ↦ absurd (false≢true (sym (rw e refl) ∙ h))
  | inr e ↦
      let rest = count_in-cons members ps p (sym (rw e refl) ∙ h) in
      elim (Bool-cases (p == m)) [
        | inl e' ↦
            subst
              (λ q.
                count_in (m ∷ members) (q ∷ ps)
                ≡ (if contains q (m ∷ members) && not (contains q ps) then 1 else 0)
                  + count_in (m ∷ members) ps)
              (sym (eq-of_== p m e')) (count_in-first m members ps e)
        | inr e' ↦
            rw (e', ==-of_ne m p (λ q. ne-of_== p m e' (sym q)), rest)
              (swap (if contains m ps then 1 else 0)
                (if contains p members && not (contains p ps) then 1 else 0) (count_in members ps))
      ]
]

contains-absorb :
    (x p : ℕ) (ps : List ℕ) → contains p ps ≡ true → contains x ps ≡ (p == x || contains x ps)
contains-absorb x p ps h = elim (Bool-cases (p == x)) [
  | inl e ↦ rw e (subst (λ y. contains y ps ≡ true) (eq-of_== p x e) h)
  | inr e ↦ rw e refl
]

contains-set_insert :
    (x p : ℕ) (ps : List ℕ) → contains x (set_insert p ps) ≡ (p == x || contains x ps)
contains-set_insert x p ps = elim (Bool-cases (contains p ps)) [
  | inl e ↦ rw (set_insert, e) (contains-absorb x p ps e)
  | inr e ↦ rw e refl
]

contains-gather :
    (members : List ℕ) (x : ℕ) (ps : List ℕ)
    → contains x members ≡ true
    → contains x (gather members ps) ≡ contains x ps
unfolding keep_report
contains-gather members x [] h = refl
contains-gather members x (p ∷ ps) h = elim (Bool-cases (contains p members)) [
  | inl e ↦
      rw (keep_report, e, contains-set_insert x p (gather members ps))
        (ap (p == x ||◌) (contains-gather members x ps h))
  | inr e ↦
      let ne : (p == x) ≡ false =
        ==-of_ne p x (λ q. false≢true (sym e ∙ subst (λ y. contains y members ≡ true) (sym q) h)) in
      rw (keep_report, e, ne) (contains-gather members x ps h)
]

count_in-none : (members : List ℕ) → count_in members [] ≡ 0
count_in-none [] = refl
count_in-none (m ∷ members) = omega (arith, count_in-none members)

length-gather :
    (members ps : List ℕ)
    → is_distinct members ≡ true
    → length (gather members ps) ≡ count_in members ps
unfolding keep_report
length-gather members [] h = sym (count_in-none members)
length-gather members (p ∷ ps) h =
    let rest = length-gather members ps h in
    elim (Bool-cases (contains p members)) [
      | inl e ↦
          let seen = contains-gather members p ps e in
          elim (Bool-cases (contains p ps)) [
            | inl e' ↦
                rw (count_in-cons members ps p h, keep_report, e, set_insert, seen, e')
                  (omega (arith, rest))
            | inr e' ↦
                rw (count_in-cons members ps p h, keep_report, e, set_insert, seen, e')
                  (omega (arith, rest))
          ]
      | inr e ↦ rw (count_in-cons members ps p h, keep_report, e) (omega (arith, rest))
    ]

-- A peer that has not reported is not gathered.
gather-fresh :
    (members ps : List ℕ) (x : ℕ) → contains x ps ≡ false → contains x (gather members ps) ≡ false
unfolding keep_report
gather-fresh members [] x h = refl
gather-fresh members (p ∷ ps) x h = elim (Bool-cases (p == x)) [
  | inl e ↦ absurd (false≢true (sym h ∙ rw e refl))
  | inr e ↦
      let rest = gather-fresh members ps x (sym (rw e refl) ∙ h) in
      elim (Bool-cases (contains p members)) [
        | inl e' ↦ rw (keep_report, e', contains-set_insert x p (gather members ps), e) rest
        | inr e' ↦ rw (keep_report, e') rest
      ]
]

contains-unique : (x : ℕ) (xs : List ℕ) → contains x (unique xs) ≡ contains x xs
unfolding unique
contains-unique x [] = refl
contains-unique x (y ∷ ys) =
    contains-set_insert x y (unique ys) ∙ ap (y == x ||◌) (contains-unique x ys)

is_distinct-unique : (xs : List ℕ) → is_distinct (unique xs) ≡ true
unfolding unique
is_distinct-unique [] = refl
is_distinct-unique (x ∷ xs) = elim (Bool-cases (contains x (unique xs))) [
  | inl e ↦ rw (set_insert, e) (is_distinct-unique xs)
  | inr e ↦ rw (set_insert, e) (rw e (is_distinct-unique xs))
]

abbrev members_of : ElectionEngineState → List ℕ
members_of s = unique (peers_of (s.tstar_provers ++ s.elected_provers))

abbrev with_status : ElectionEngineState → List ℕ → ElectionEngineState
with_status s status = record s { re_sharing_init_status = status }

-- The relay after the reports of the peers, the last one first.
abbrev pub reported : List ℕ → ElectionEngineState → ElectionEngineState
reported [] s = s
reported (p ∷ ps) s = (record_resharing_init_node_status p (reported ps s)).0

keep_report-seen :
    (members : List ℕ) (p : ℕ) (status : List ℕ)
    → contains p status ≡ true
    → keep_report members p status ≡ status
unfolding keep_report
keep_report-seen members p status h = elim (Bool-cases (contains p members)) [
  | inl e ↦ rw (e, set_insert, h) refl
  | inr e ↦ rw e refl
]

record_resharing_init_node_status-keep_report :
    (p : ℕ) (s : ElectionEngineState) (status : List ℕ)
    → (record_resharing_init_node_status p (with_status s status)).0
      ≡ with_status s (keep_report (members_of s) p status)
unfolding record_resharing_init_node_status
record_resharing_init_node_status-keep_report p s status = elim (Bool-cases (contains p status)) [
  | inl e ↦ rw (keep_report-seen (members_of s) p status e, e) refl
  | inr e ↦ rw e refl
]

reported-gather :
    (ps : List ℕ) (s : ElectionEngineState)
    → s.re_sharing_init_status ≡ []
    → reported ps s ≡ with_status s (gather (members_of s) ps)
reported-gather [] s h = ap (with_status s) h
reported-gather (p ∷ ps) s h =
    ap (λ t. (record_resharing_init_node_status p t).0) (reported-gather ps s h)
    ∙ record_resharing_init_node_status-keep_report p s (gather (members_of s) ps)

record_resharing_init_node_status-fresh :
    (p : ℕ) (s : ElectionEngineState) (status : List ℕ)
    → contains p status ≡ false
    → (record_resharing_init_node_status p (with_status s status)).1
      ≡ announce resharing_round1 (members_of s) (keep_report (members_of s) p status)
unfolding record_resharing_init_node_status
record_resharing_init_node_status-fresh p s status h = rw h refl

announce-gather :
    (start : Start) (members ps : List ℕ)
    → is_distinct members ≡ true
    → announce start members (gather members ps)
      ≡ (if all_in members ps then gossip_start start ∷ [] else [])
unfolding announce
announce-gather start members ps h = rw (length-gather members ps h, count_in-all members ps) refl

-- If the statuses of the resharing's start were cleared, then the first report of a peer makes the relay
-- announce round 1 of the resharing if and only if, with this report, every node of the two quorums has
-- reported; otherwise nothing is announced.
pub record_resharing_init_node_status-announce :
    (s : ElectionEngineState) (peer_ids : List ℕ) (peer_id : ℕ)
    → s.re_sharing_init_status ≡ []
    → contains peer_id peer_ids ≡ false
    → (record_resharing_init_node_status peer_id (reported peer_ids s)).1 ≡ (
        if all_in (unique (peers_of (s.tstar_provers ++ s.elected_provers))) (peer_id ∷ peer_ids)
        then gossip_start resharing_round1 ∷ []
        else [])
record_resharing_init_node_status-announce s peer_ids peer_id h new =
    let members = members_of s in
    let d = is_distinct-unique (peers_of (s.tstar_provers ++ s.elected_provers)) in
    ap (λ t. (record_resharing_init_node_status peer_id t).1) (reported-gather peer_ids s h)
    ∙ record_resharing_init_node_status-fresh peer_id s (gather members peer_ids)
        (gather-fresh members peer_ids peer_id new)
    ∙ announce-gather resharing_round1 members (peer_id ∷ peer_ids) d
