-- ===== src/Auth/Siwe.antt =====
-- Signing in with a wallet: `_verify_siwe` of teardrop/siwe.py and the nonces of teardrop/wallets.py.
-- What the siwe library makes of the message and of its signature, and what Redis answers, are
-- arguments. Addresses and domains are numbers, addresses in lower case; times are microseconds.
pub mod Once
use teardrop.Common.{
  Bool, Keyed, List, Option, [], exists, false, if◌then◌else◌, lookup, ltb, none, not, some, true,
  upsert, ℕ, ◌&&◌, ◌*◌, ◌++◌, ◌+◌, ◌==◌, ◌∷◌,
}
use teardrop.Limits.Window.{second}

-- A row of siwe_nonces.
pub record NonceRow : Type 0 where
  pub created_at : ℕ
  pub used : Bool
  pub address : Option ℕ

-- GETDEL of a nonce: no client, an exception, no such key, the value "1", or an address.
pub data GetDel : Type 0 where
  without_redis : GetDel
  redis_error : GetDel
  no_key : GetDel
  unbound : GetDel
  bound : ℕ → GetDel

-- create_nonce, when Redis did not store it.
unfoldable pub create_nonce : Bool → ℕ → ℕ → Keyed NonceRow → Keyed NonceRow
create_nonce in_redis now nonce table =
    if in_redis
    then table
    else table ++ (nonce, record { created_at = now; used = false; address = none }) ∷ []

-- address IS NULL OR LOWER(address) = LOWER($3) OR $3 IS NULL
abbrev pub is_for : Option ℕ → Option ℕ → Bool
is_for none expected = true
is_for (some a) none = true
is_for (some a) (some e) = a == e

abbrev pub is_usable : ℕ → ℕ → Option ℕ → NonceRow → Bool
is_usable now ttl_seconds expected r =
    not r.used && (ltb now (r.created_at + ttl_seconds * second) && is_for r.address expected)

-- UPDATE siwe_nonces … RETURNING nonce
unfoldable pub use_nonce : ℕ → ℕ → ℕ → Option ℕ → Keyed NonceRow → Bool × Keyed NonceRow
use_nonce now nonce ttl_seconds expected table = elim (lookup nonce table) [
  | none ↦ (false, table)
  | some r ↦
      if is_usable now ttl_seconds expected r
      then (true, upsert nonce (record r { used = true }) table)
      else (false, table)
]

unfoldable pub consume_nonce :
    GetDel → ℕ → ℕ → ℕ → Option ℕ → Keyed NonceRow → Bool × Keyed NonceRow
unfolding use_nonce
consume_nonce without_redis now nonce ttl expected table = use_nonce now nonce ttl expected table
consume_nonce redis_error now nonce ttl expected table = use_nonce now nonce ttl expected table
consume_nonce no_key now nonce ttl expected table = (false, table)
consume_nonce unbound now nonce ttl expected table = (true, table)
consume_nonce (bound a) now nonce ttl expected table = (is_for (some a) expected, table)

-- The fields of a parsed message that are read; a chain id of 0 stands for none.
pub record SiweMessage : Type 0 where
  pub domain : ℕ
  pub address : ℕ
  pub chain_id : ℕ
  pub nonce : ℕ

-- The domains "", "0.0.0.0" and "::", which no deployment may expect, are 0, 1 and 2.
abbrev pub wildcard_domains : List ℕ
wildcard_domains = 0 ∷ 1 ∷ 2 ∷ []

pub data SiweError : Type 0 where
  malformed_message : SiweError
  not_configured : SiweError
  domain_mismatch : SiweError
  not_verified : SiweError
  invalid_nonce : SiweError

pub data Login : Type 0 where
  signed_in : ℕ → ℕ → Login
  turned_away : SiweError → Login

-- A message that passed every test but that of its nonce.
unfoldable pub with_nonce : GetDel → ℕ → ℕ → SiweMessage → Keyed NonceRow → Login × Keyed NonceRow
unfolding consume_nonce
with_nonce reply now ttl msg table =
    let (accepted, table') = consume_nonce reply now msg.nonce ttl (some msg.address) table in
    (
      if accepted
          then signed_in msg.address (if msg.chain_id == 0 then 1 else msg.chain_id)
          else turned_away invalid_nonce,
      table',
    )

-- `parsed` is the message, if it is one, and `signature_ok` whether its signature verifies.
unfoldable pub verify_siwe :
    ℕ → ℕ → GetDel → ℕ → Option SiweMessage → Bool → Keyed NonceRow → Login × Keyed NonceRow
unfolding with_nonce
verify_siwe expected_domain ttl reply now none signature_ok table =
    (turned_away malformed_message, table)
verify_siwe expected_domain ttl reply now (some msg) signature_ok table =
    if exists (λ d. d == expected_domain) wildcard_domains
    then (turned_away not_configured, table)
    else if not (msg.domain == expected_domain)
    then (turned_away domain_mismatch, table)
    else if not signature_ok
    then (turned_away not_verified, table)
    else with_nonce reply now ttl msg table
