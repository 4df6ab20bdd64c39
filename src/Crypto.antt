-- ===== src/Crypto.antt =====
-- The Ed25519 part of src/wake_crypto.c. Its calls of the vendored cipher library are parameters.
use libwake.Common.{
  ℕ, zero, suc, refl, ap, Bool, true, Option, none, some, List, [], ◌∷◌, ◌++◌, ◌≡◌, ◌∙◌, ◌==◌,
  length, if◌then◌else◌,
}
use libwake.Entity.Siphash.{Urandom}
use libwake.Entity.Init.{bytes_at}

-- The cipher library: the expanded secret key and the public key of a seed, a signature, and whether
-- a signature is accepted (0 in the source) for a public key and a message.
pub record Cipher : Type 0 where
  pub ed25519_key_pair : List ℕ → List ℕ × List ℕ
  pub ed25519_sign : List ℕ → List ℕ → List ℕ
  pub ed25519_check : List ℕ → List ℕ → List ℕ → Bool

-- What RFC 8032 promises: a signature is accepted with the public key of the seed that made it.
abbrev pub IsCorrect : Cipher → Type 0
IsCorrect m =
    (seed msg : List ℕ)
    → m.ed25519_check (m.ed25519_sign (m.ed25519_key_pair seed).0 msg) (m.ed25519_key_pair seed).1
        msg
      ≡ true

-- wake_node_key_t
pub record NodeKey : Type 0 where
  pub public_key : List ℕ
  pub secret_key : List ℕ

module _ (m : Cipher) where
  -- the secret key is the seed and the public key
  unfoldable pub keygen_from_seed : List ℕ → NodeKey
  keygen_from_seed seed =
      let public = (m.ed25519_key_pair (bytes_at 32 seed)).1 in
      record { public_key = public; secret_key = bytes_at 32 seed ++ public }

  -- `none` is -1
  unfoldable pub keygen : Urandom → Option NodeKey
  unfolding keygen_from_seed
  keygen dev =
      if dev.opens
      then (if length dev.read == 32 then some (keygen_from_seed dev.read) else none)
      else none

  unfoldable pub sign : List ℕ → NodeKey → List ℕ
  sign msg key = m.ed25519_sign (m.ed25519_key_pair (bytes_at 32 key.secret_key)).0 msg

  -- whether it returns 0
  unfoldable pub verify : List ℕ → List ℕ → List ℕ → Bool
  verify sig msg public_key = m.ed25519_check sig public_key msg

-- The seed is read back from the secret key.
bytes_at-append : (n : ℕ) (xs ys : List ℕ) → bytes_at n (bytes_at n xs ++ ys) ≡ bytes_at n xs
unfolding bytes_at
bytes_at-append zero xs ys = refl
bytes_at-append (suc n) [] ys = ap (λ (r : List ℕ). 0 ∷ r) (bytes_at-append n [] ys)
bytes_at-append (suc n) (x ∷ xs) ys = ap (λ (r : List ℕ). x ∷ r) (bytes_at-append n xs ys)

-- A signature with a generated key is accepted with its public key.
pub sign-verify :
    (m : Cipher) (seed msg : List ℕ)
    → IsCorrect m
    → let key = keygen_from_seed m seed in verify m (sign m msg key) msg key.public_key ≡ true
unfolding keygen_from_seed sign verify
sign-verify m seed msg c =
    let public = (m.ed25519_key_pair (bytes_at 32 seed)).1 in
    ap (λ (s : List ℕ). verify m (m.ed25519_sign (m.ed25519_key_pair s).0 msg) msg public)
      (bytes_at-append 32 seed public)
    ∙ c (bytes_at 32 seed) msg
