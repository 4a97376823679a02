-- ===== src/Auth/Siwe/Once.antt =====
-- A nonce signs in once.
use teardrop.Auth.Siwe.{
  NonceRow, SiweError, SiweMessage, consume_nonce, domain_mismatch, invalid_nonce, is_for,
  is_usable, not_configured, not_verified, signed_in, turned_away, use_nonce, verify_siwe,
  wildcard_domains, with_nonce, without_redis,
}
use teardrop.Common.{
  ==_refl, Bool, Bool-cases, Keyed, Option, Option-cases, ap, arith, exists, false, if◌then◌else◌,
  inl, inr, lookup, lookup-upsert, none, refl, some, subst, sym, true, upsert, ℕ, ◌*◌, ◌+◌, ◌<◌,
  ◌==◌, ◌∙◌, ◌≡◌, ◌⊎◌,
}
use teardrop.Limits.Window.{second}

-- What a sign-in without Redis rests on, and what it leaves behind.
pub record Rests (expected_domain ttl now : ℕ) (parsed : Option SiweMessage) (signature_ok : Bool)
    (before after : Keyed NonceRow) (address : ℕ) : Type 0 where
  pub msg : SiweMessage
  pub nonce_row : NonceRow
  pub is_message : parsed ≡ some msg
  pub same_domain : msg.domain ≡ expected_domain
  pub routable : 2 < expected_domain
  pub has_signed : signature_ok ≡ true
  pub is_address : address ≡ msg.address
  pub was_stored : lookup msg.nonce before ≡ some nonce_row
  pub was_unused : nonce_row.used ≡ false
  pub in_time : now < nonce_row.created_at + ttl * second
  pub is_for_address : is_for nonce_row.address (some address) ≡ true
  pub is_used : lookup msg.nonce after ≡ some (record nonce_row { used = true })

-- Using a nonce: refused with no change, or accepted and marked.
use_nonce-cases :
    (now nonce ttl : ℕ) (expected : Option ℕ) (table : Keyed NonceRow)
    → (use_nonce now nonce ttl expected table ≡ (false, table))
      ⊎ ((r : NonceRow) × (lookup nonce table ≡ some r)
          × (is_usable now ttl expected r ≡ true)
          × (use_nonce now nonce ttl expected table
              ≡ (true, upsert nonce (record r { used = true }) table)))
unfolding use_nonce
use_nonce-cases now nonce ttl expected table = elim (Option-cases (lookup nonce table)) [
  | inl missing ↦ inl (rw (missing, use_nonce) refl)
  | inr (r, at) ↦ elim (Bool-cases (is_usable now ttl expected r)) [
    | inl good ↦ inr (r, at, good, rw (at, good, use_nonce) refl)
    | inr bad ↦ inl (rw (at, bad, use_nonce) refl)
  ]
]

with_nonce-alone :
    (now ttl : ℕ) (msg : SiweMessage) (table : Keyed NonceRow)
    → (with_nonce without_redis now ttl msg table ≡ (turned_away invalid_nonce, table))
      ⊎ ((r : NonceRow) × (chain : ℕ) × (lookup msg.nonce table ≡ some r)
          × (is_usable now ttl (some msg.address) r ≡ true)
          × (with_nonce without_redis now ttl msg table
              ≡ (signed_in msg.address chain, upsert msg.nonce (record r { used = true }) table)))
unfolding with_nonce consume_nonce
with_nonce-alone now ttl msg table =
    elim (use_nonce-cases now msg.nonce ttl (some msg.address) table) [
      | inl no_use ↦ inl (rw (no_use, with_nonce) refl)
      | inr (r, at, good, uses) ↦
          inr (
            r,
            (if msg.chain_id == 0 then 1 else msg.chain_id),
            at,
            good,
            rw (uses, with_nonce) refl,
          )
    ]

-- A after attempt with a nonce that is used.
verify_siwe-used :
    (expected_domain ttl after : ℕ) (msg : SiweMessage) (signature_ok : Bool)
    (table : Keyed NonceRow) (r : NonceRow)
    → lookup msg.nonce table ≡ some r
    → r.used ≡ true
    → (e : SiweError) × (verify_siwe expected_domain ttl without_redis after
          (some msg)
          signature_ok
          table
        ≡ (turned_away e, table))
unfolding verify_siwe with_nonce consume_nonce use_nonce
verify_siwe-used expected_domain ttl after msg signature_ok table r at used =
    let spent : is_usable after ttl (some msg.address) r ≡ false = rw used refl in
    elim (Bool-cases (exists (λ d. d == expected_domain) wildcard_domains)) [
      | inl wild ↦ (not_configured, rw (wild, verify_siwe) refl)
      | inr routable ↦ elim (Bool-cases (msg.domain == expected_domain)) [
        | inr differ ↦ (domain_mismatch, rw (routable, differ, verify_siwe) refl)
        | inl same ↦ elim (Bool-cases signature_ok) [
          | inr unsigned ↦ (not_verified, rw (routable, same, unsigned, verify_siwe) refl)
          | inl signed ↦ (
            invalid_nonce,
            rw
                (
                  routable, same, signed, verify_siwe, with_nonce, consume_nonce, use_nonce, at,
                  spent,
                )
                refl,
          )
        ]
      ]
    ]

verify_siwe-with_nonce :
    (expected_domain ttl now : ℕ) (msg : SiweMessage) (table : Keyed NonceRow)
    → exists (λ d. d == expected_domain) wildcard_domains ≡ false
    → (msg.domain == expected_domain) ≡ true
    → verify_siwe expected_domain ttl without_redis now (some msg) true table
      ≡ with_nonce without_redis now ttl msg table
unfolding verify_siwe
verify_siwe-with_nonce expected_domain ttl now msg table routable same =
    rw (routable, same, verify_siwe) refl

-- What holds of a sign-in that left the nonces as `after`.
abbrev pub IsOnce :
    (expected_domain ttl now : ℕ) (parsed : Option SiweMessage) (signature_ok : Bool)
    (before after : Keyed NonceRow) (address : ℕ)
    → Type 0
IsOnce expected_domain ttl now parsed signature_ok before after address =
    (rests : Rests expected_domain ttl now parsed signature_ok before after address) × ((at : ℕ)
        (msg' : SiweMessage) (signature_ok' : Bool)
      → msg'.nonce ≡ rests.msg.nonce
      → (e : SiweError) × (verify_siwe expected_domain ttl without_redis at (some msg')
            signature_ok' after
          ≡ (turned_away e, after)))

with_nonce-IsOnce :
    (expected_domain ttl now : ℕ) (msg : SiweMessage) (table : Keyed NonceRow) (r : NonceRow)
    → exists (λ d. d == expected_domain) wildcard_domains ≡ false
    → (msg.domain == expected_domain) ≡ true
    → lookup msg.nonce table ≡ some r
    → is_usable now ttl (some msg.address) r ≡ true
    → IsOnce expected_domain ttl now
        (some msg)
        true
        table
        (upsert msg.nonce (record r { used = true }) table)
        msg.address
with_nonce-IsOnce expected_domain ttl now msg table r routable same at good =
    let spent : NonceRow = record r { used = true } in
    let marked : lookup msg.nonce (upsert msg.nonce spent table) ≡ some spent =
      rw (lookup-upsert msg.nonce msg.nonce spent table, ==_refl msg.nonce) refl in
    (
      record {
        msg = msg;
        nonce_row = r;
        is_message = refl;
        same_domain = ground (arith, same);
        routable = ground (arith, routable);
        has_signed = refl;
        is_address = refl;
        was_stored = at;
        was_unused = ground (arith, good);
        in_time = ground (arith, good);
        is_for_address = ground (arith, good);
        is_used = marked;
      },
      λ t msg' signature_ok' same_nonce.
          verify_siwe-used expected_domain ttl t msg' signature_ok' (upsert msg.nonce spent table)
            spent
            (subst (λ n. lookup n (upsert msg.nonce spent table) ≡ some spent) (sym same_nonce)
              marked)
            refl,
    )

verify_signed :
    (expected_domain ttl now : ℕ) (msg : SiweMessage) (signature_ok : Bool) (table : Keyed NonceRow)
    (address chain : ℕ)
    → exists (λ d. d == expected_domain) wildcard_domains ≡ false
    → (msg.domain == expected_domain) ≡ true
    → (verify_siwe expected_domain ttl without_redis now (some msg) signature_ok table).0
      ≡ signed_in address chain
    → IsOnce expected_domain ttl now
        (some msg)
        signature_ok
        table
        (verify_siwe expected_domain ttl without_redis now (some msg) signature_ok table).1
        address
unfolding verify_siwe
verify_signed expected_domain ttl now msg false table address chain routable same h =
    cc (rw (routable, same, verify_siwe) at h)
verify_signed expected_domain ttl now msg true table address chain routable same h =
    let passes = verify_siwe-with_nonce expected_domain ttl now msg table routable same in
    elim (with_nonce-alone now ttl msg table) [
      | inl refusal ↦ cc (sym (ap (λ p. p.0) (passes ∙ refusal)) ∙ h)
      | inr (r, chain', at, good, uses) ↦
          let agrees = sym (ap (λ p. p.0) (passes ∙ uses)) ∙ h in
          let is_address : msg.address ≡ address = cc in
          subst (λ p. IsOnce expected_domain ttl now (some msg) true table p.1 address)
            (sym (passes ∙ uses))
            (subst
              (λ a.
                IsOnce expected_domain ttl now (some msg) true table
                  (upsert msg.nonce (record r { used = true }) table) a)
              is_address
              (with_nonce-IsOnce expected_domain ttl now msg table r routable same at good))
    ]

-- When `_verify_siwe` signs an address in without Redis, the message names the expected domain, which
-- no wildcard is, its signature verifies, and its nonce was stored, unused, within its time to live
-- and not bound to another address; and after it every attempt with a message of that nonce is turned
-- away and changes nothing.
pub verify_siwe-IsOnce :
    (expected_domain ttl now : ℕ) (parsed : Option SiweMessage) (signature_ok : Bool)
    (table : Keyed NonceRow) (address chain : ℕ)
    → (verify_siwe expected_domain ttl without_redis now parsed signature_ok table).0
      ≡ signed_in address chain
    → IsOnce expected_domain ttl now parsed signature_ok table
        (verify_siwe expected_domain ttl without_redis now parsed signature_ok table).1
        address
unfolding verify_siwe
verify_siwe-IsOnce expected_domain ttl now none signature_ok table address chain h = cc
verify_siwe-IsOnce expected_domain ttl now (some msg) signature_ok table address chain h =
    elim (Bool-cases (exists (λ d. d == expected_domain) wildcard_domains)) [
      | inl wild ↦ cc (rw (wild, verify_siwe) at h)
      | inr routable ↦ elim (Bool-cases (msg.domain == expected_domain)) [
        | inr differ ↦ cc (rw (routable, differ, verify_siwe) at h)
        | inl same ↦
            verify_signed expected_domain ttl now msg signature_ok table address chain routable same
              h
      ]
    ]
