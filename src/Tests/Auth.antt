-- ===== src/Tests/Auth.antt =====
-- Signing in with a stored nonce.
use teardrop.Auth.Siwe.{
  Login, NonceRow, SiweMessage, consume_nonce, not_verified, signed_in, turned_away, use_nonce,
  verify_siwe, with_nonce, without_redis,
}
use teardrop.Auth.Siwe.Once.{IsOnce, verify_siwe-IsOnce}
use teardrop.Common.{Keyed, [], false, none, refl, some, true, ◌∷◌, ◌≡◌}
use teardrop.Limits.Window.{second}

abbrev nonces : Keyed NonceRow
nonces = (5, record { created_at = 0; used = false; address = none }) ∷ []

abbrev message : SiweMessage
message = record { domain = 9; address = 77; chain_id = 0; nonce = 5 }

abbrev attempt : Login × Keyed NonceRow
attempt = verify_siwe 9 300 without_redis second (some message) true nonces

attempt_signs_in : attempt.0 ≡ signed_in 77 1
unfolding verify_siwe with_nonce consume_nonce use_nonce
attempt_signs_in = refl

verify_siwe-IsOnce_example : IsOnce 9 300 second (some message) true nonces attempt.1 77
verify_siwe-IsOnce_example =
    verify_siwe-IsOnce 9 300 second (some message) true nonces 77 1 attempt_signs_in

-- A message whose signature does not verify leaves the nonce.
unsigned_keeps_nonce :
    verify_siwe 9 300 without_redis second (some message) false nonces
    ≡ (turned_away not_verified, nonces)
unfolding verify_siwe
unsigned_keeps_nonce = refl
