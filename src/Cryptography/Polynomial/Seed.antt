-- ===== src/Cryptography/Polynomial/Seed.antt =====
-- `Polynomial::from_seed` over a hash of 64 bytes.
use human_network.Prelude.{
  ℕ, suc, ◌+◌, ◌%◌, ◌^◌, ◌<◌, ◌≡◌, refl, List, err, invalid_input, ==-of_eq, ==-of_ne, length,
  arith,
}
use human_network.Cryptography.Polynomial.{from_seed}

-- The digest of Blake2b512 has 64 bytes, which are never the 32 bytes of the next seed: for every
-- seed of 32 bytes and every degree below the largest `usize` the call ends in an error.
pub from_seed_fails :
    {F : Type 0} (blake2b512 : List ℕ → List ℕ) (prg : List ℕ → F) (seed : List ℕ) (degree : ℕ)
    → ((preimage : List ℕ) → length (blake2b512 preimage) ≡ 64)
    → length seed ≡ 32
    → degree + 1 < 2 ^ 64
    → from_seed blake2b512 prg seed degree ≡ err invalid_input
unfolding from_seed
from_seed_fails blake2b512 prg seed degree h e small =
    let turns : (degree + 1) % 2 ^ 64 ≡ suc degree = omega arith in
    rw
      (
        ==-of_eq (length seed) 32 e,
        turns,
        ==-of_ne (length (blake2b512 seed)) 32 (omega (arith, h seed)),
      )
      refl
