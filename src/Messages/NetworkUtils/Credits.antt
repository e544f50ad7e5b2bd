-- ===== src/Messages/NetworkUtils/Credits.antt =====
-- No user is served more often than the credits allow.
use human_network.Prelude.{
  inl, inr, ℕ, ◌+◌, ◌%◌, ◌^◌, ◌≤◌, ◌<◌, ◌≡◌, refl, sym, ap, ap₂, ◌∙◌, Bool, true, false, ◌&&◌, List,
  [], ◌∷◌, Option, none, some, Outcome, ok, err, panic, key_not_found, database_failed,
  Outcome-cases, Option-cases, subst, ltb, ◌==◌, if◌then◌else◌, Bool-cases, arith, eq-of_==,
}
use mathlib.Core.Bool.{false≢true}
use human_network.Messages.NetworkUtils.{
  Method, oprf_secp256k1, oprf_baby_jub_jub, decrypt_baby_jub_jub, jwt_prf_secp256k1, method_eq,
  RequestToNetwork, Counts, set_count, stored_count, charge, account_request_from_signer,
}

-- A request is for a method and a user.
abbrev concerns : Method → ℕ → RequestToNetwork → Outcome ℕ → Bool
concerns m u r (ok v) = method_eq r.method m && (v == u)
concerns m u r (err e) = false
concerns m u r panic = false

-- The answer lets the request through.
abbrev is_served : Outcome ℕ → ℕ
is_served (ok n) = n
is_served (err e) = 0
is_served panic = 0

-- The count of a method and a user, which is 0 as long as there is none.
abbrev pub count : Counts → Method → ℕ → ℕ
count counts m u = elim (counts m u) [ some n ↦ n | none ↦ 0 ]

le-of_not_ltb : (a b : ℕ) → ltb a b ≡ false → b ≤ a
le-of_not_ltb a b h = ground arith

method_eq-true : (a b : Method) → method_eq a b ≡ true → a ≡ b
method_eq-true oprf_secp256k1 oprf_secp256k1 h = refl
method_eq-true oprf_baby_jub_jub oprf_baby_jub_jub h = refl
method_eq-true decrypt_baby_jub_jub decrypt_baby_jub_jub h = refl
method_eq-true jwt_prf_secp256k1 jwt_prf_secp256k1 h = refl
method_eq-true oprf_secp256k1 oprf_baby_jub_jub h = cc
method_eq-true oprf_secp256k1 decrypt_baby_jub_jub h = cc
method_eq-true oprf_secp256k1 jwt_prf_secp256k1 h = cc
method_eq-true oprf_baby_jub_jub oprf_secp256k1 h = cc
method_eq-true oprf_baby_jub_jub decrypt_baby_jub_jub h = cc
method_eq-true oprf_baby_jub_jub jwt_prf_secp256k1 h = cc
method_eq-true decrypt_baby_jub_jub oprf_secp256k1 h = cc
method_eq-true decrypt_baby_jub_jub oprf_baby_jub_jub h = cc
method_eq-true decrypt_baby_jub_jub jwt_prf_secp256k1 h = cc
method_eq-true jwt_prf_secp256k1 oprf_secp256k1 h = cc
method_eq-true jwt_prf_secp256k1 oprf_baby_jub_jub h = cc
method_eq-true jwt_prf_secp256k1 decrypt_baby_jub_jub h = cc

module _ (recover : RequestToNetwork → Outcome ℕ)
    (get_user_credits : RequestToNetwork → ℕ → Outcome ℕ) where
  -- Requests accounted one after the other, each with whether Redis answers its two commands; the
  -- result is the number of them let through for a method and a user.
  unfoldable pub account_all :
      Method → ℕ → List (RequestToNetwork × Bool × Bool) → Counts → Counts × ℕ
  account_all m u [] counts = (counts, 0)
  account_all m u ((r, get_ok, set_ok) ∷ rs) counts =
      let (counts', answer) =
        account_request_from_signer recover get_user_credits get_ok set_ok r true counts in
      let (counts'', served) = account_all m u rs counts' in
      (counts'', (if concerns m u r (recover r) then is_served answer else 0) + served)

  module _ (m : Method) (u most : ℕ) where
    -- The count grows by what is let through and stays within the bound.
    abbrev Settled : Bool → Counts → Counts × Outcome ℕ → Type 0
    Settled concerned counts (counts', answer) =
        (count counts' m u ≡ count counts m u + (if concerned then is_served answer else 0))
        × (count counts' m u ≤ most)

    unserved-Settled :
        (b : Bool) (counts : Counts) (answer : Outcome ℕ)
        → is_served answer ≡ 0
        → count counts m u ≤ most
        → Settled b counts (counts, answer)
    unserved-Settled true counts answer unserved within = (omega arith, within)
    unserved-Settled false counts answer unserved within = (omega arith, within)

    -- A charge of a user who has the credits.
    granted :
        (b : Bool) (counts : Counts) (new : ℕ)
        → (b ≡ true → new ≡ count counts m u + 1)
        → (b ≡ true → new ≤ most)
        → count counts m u ≤ most
        → ((if b then new else count counts m u)
            ≡ count counts m u + (if b then is_served (ok 1) else 0))
          × ((if b then new else count counts m u) ≤ most)
    granted true counts new grows bounded within = (grows refl, bounded refl)
    granted false counts new grows bounded within = (omega arith, within)

    count-if :
        (b : Bool) (new : ℕ) (old : Option ℕ)
        → (elim (if b then some new else old) [ some n ↦ n | none ↦ 0 ])
          ≡ (if b then new else elim old [ some n ↦ n | none ↦ 0 ])
    count-if true new old = refl
    count-if false new old = refl

    count-set_count :
        (mr : Method) (v new : ℕ) (counts : Counts)
        → count (set_count mr v new counts) m u
          ≡ (if method_eq mr m && (v == u) then new else count counts m u)
    count-set_count mr v new counts = count-if (method_eq mr m && (v == u)) new (counts m u)

    concerned-eq : (mr : Method) (v : ℕ) → (method_eq mr m && (v == u)) ≡ true → (mr ≡ m) × (v ≡ u)
    concerned-eq mr v h = elim (Bool-cases (method_eq mr m)) [
      | inl e ↦ (method_eq-true mr m e, eq-of_== v u (sym (ap (λ b. b && (v == u)) e) ∙ h))
      | inr e ↦ absurd (false≢true (sym (ap (λ b. b && (v == u)) e) ∙ h))
    ]

    charge-Settled :
        (get_ok set_ok : Bool) (mr : Method) (v credits stored : ℕ) (counts : Counts)
        → stored ≡ count counts mr v
        → (v ≡ u → mr ≡ m → credits % 2 ^ 32 ≤ most)
        → most + 1 < 2 ^ 32
        → count counts m u ≤ most
        → Settled
            (method_eq mr m && (v == u))
            counts
            (charge recover get_user_credits get_ok set_ok mr v credits stored true counts)
    unfolding charge
    charge-Settled get_ok false mr v credits stored counts e bounded room within =
        elim (Bool-cases (ltb (credits % 2 ^ 32) ((stored + 1) % 2 ^ 32))) [
          | inl refused ↦
              rw refused (
                unserved-Settled (method_eq mr m && (v == u)) counts (err key_not_found) refl
                  within)
          | inr enough ↦ rw enough (
              unserved-Settled (method_eq mr m && (v == u)) counts (err database_failed) refl
                within)
        ]
    charge-Settled get_ok true mr v credits stored counts e bounded room within =
        elim (Bool-cases (ltb (credits % 2 ^ 32) ((stored + 1) % 2 ^ 32))) [
          | inl refused ↦
              rw refused (
                unserved-Settled (method_eq mr m && (v == u)) counts (err key_not_found) refl
                  within)
          | inr enough ↦
              rw (enough, count-set_count mr v ((stored + 1) % 2 ^ 32) counts)
                (granted (method_eq mr m && (v == u)) counts ((stored + 1) % 2 ^ 32)
                  (λ b.
                    let (em, eu) = concerned-eq mr v b in
                    omega (arith, e ∙ ap₂ (count counts) em eu))
                  (λ b.
                    let (em, eu) = concerned-eq mr v b in
                    omega (arith, bounded eu em, le-of_not_ltb _ _ enough))
                  within)
        ]

    stored-Settled :
        (r : RequestToNetwork) (get_ok set_ok : Bool) (v credits : ℕ) (counts : Counts)
        → (v ≡ u → r.method ≡ m → credits % 2 ^ 32 ≤ most)
        → most + 1 < 2 ^ 32
        → count counts m u ≤ most
        → recover r ≡ ok v
        → get_user_credits r v ≡ ok credits
        → Settled
            (method_eq r.method m && (v == u))
            counts
            (account_request_from_signer recover get_user_credits get_ok set_ok r true counts)
    unfolding account_request_from_signer stored_count
    stored-Settled r false set_ok v credits counts bounded room within er ec =
        rw (account_request_from_signer, er, ec)
          (unserved-Settled (method_eq r.method m && (v == u)) counts (err database_failed) refl
            within)
    stored-Settled r true set_ok v credits counts bounded room within er ec =
        elim (Option-cases (counts r.method v)) [
          | inl e ↦
              rw (account_request_from_signer, er, ec, e)
                (charge-Settled true set_ok r.method v credits 0 counts (rw (count, e) refl) bounded
                  room within)
          | inr e ↦
              rw (account_request_from_signer, er, ec, e.1)
                (charge-Settled true set_ok r.method v credits e.0 counts (rw (count, e.1) refl)
                  bounded room within)
        ]

    step :
        (r : RequestToNetwork) (get_ok set_ok : Bool) (counts : Counts)
        → ((credits : ℕ)
            → r.method ≡ m
            → get_user_credits r u ≡ ok credits
            → credits % 2 ^ 32 ≤ most)
        → most + 1 < 2 ^ 32
        → count counts m u ≤ most
        → Settled
            (concerns m u r (recover r))
            counts
            (account_request_from_signer recover get_user_credits get_ok set_ok r true counts)
    unfolding account_request_from_signer
    step r get_ok set_ok counts bounded room within = elim (Outcome-cases (recover r)) [
      | inr (inl e) ↦
          rw (account_request_from_signer, e.1)
            (unserved-Settled false counts (err e.0) refl within)
      | inr (inr e) ↦
          rw (account_request_from_signer, e) (unserved-Settled false counts panic refl within)
      | inl user ↦ elim (Outcome-cases (get_user_credits r user.0)) [
        | inr (inl e) ↦
            rw (account_request_from_signer, user.1, e.1)
              (unserved-Settled (method_eq r.method m && (user.0 == u)) counts (err e.0) refl
                within)
        | inr (inr e) ↦
            rw (account_request_from_signer, user.1, e)
              (unserved-Settled (method_eq r.method m && (user.0 == u)) counts panic refl within)
        | inl credits ↦
            subst
              (λ o.
                Settled (concerns m u r o) counts (
                  account_request_from_signer recover get_user_credits get_ok set_ok r true counts))
              (sym user.1)
              (stored-Settled r get_ok set_ok user.0 credits.0 counts
                (λ eu em. bounded credits.0 em (ap (get_user_credits r) (sym eu) ∙ credits.1)) room
                within user.1 credits.1)
      ]
    ]

    account_all-count :
        (rs : List (RequestToNetwork × Bool × Bool)) (counts : Counts)
        → ((r : RequestToNetwork) (credits : ℕ)
            → r.method ≡ m
            → get_user_credits r u ≡ ok credits
            → credits % 2 ^ 32 ≤ most)
        → most + 1 < 2 ^ 32
        → count counts m u ≤ most
        → (account_all m u rs counts).1 + count counts m u ≤ most
    unfolding account_all
    account_all-count [] counts bounded room within = omega (arith, within)
    account_all-count ((r, get_ok, set_ok) ∷ rs) counts bounded room within =
        let (grows, within') = step r get_ok set_ok counts (bounded r) room within in
        omega (
          arith,
          grows,
          account_all-count rs
              (account_request_from_signer recover get_user_credits get_ok set_ok r true counts).0
              bounded room within',
        )

    -- Over any sequence of requests, of whatever users and with whatever failures of Redis, the
    -- requests for one method and user that are let through are at most the largest number of credits,
    -- cut to 32 bits, that the user ever has; at the start nothing is counted, and that number is less
    -- than `2 ^ 32 - 1`.
    pub account_all-bound :
        (rs : List (RequestToNetwork × Bool × Bool)) (counts : Counts)
        → ((r : RequestToNetwork) (credits : ℕ)
            → r.method ≡ m
            → get_user_credits r u ≡ ok credits
            → credits % 2 ^ 32 ≤ most)
        → most + 1 < 2 ^ 32
        → counts m u ≡ none
        → (account_all m u rs counts).1 ≤ most
    account_all-bound rs counts bounded room new =
        let none_yet : count counts m u ≡ 0 = rw (count, new) refl in
        omega (arith, account_all-count rs counts bounded room (omega (arith, none_yet)))
