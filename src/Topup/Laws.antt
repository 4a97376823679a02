-- ===== src/Topup/Laws.antt =====
-- Top-ups: the invariant of the credit tables, and idempotence by the external reference.
use teardrop.Common.{Option, arith, lookup, none, refl, some, ℕ, ◌+◌, ◌<◌, ◌∙◌, ◌≡◌, ◌≤◌}
use teardrop.Ledger.{
  get_credit_balance, insert_ledger, ledger_violation, max_bigint, put_balance, upsert_balance,
}
use teardrop.Ledger.Conservation.{
  IsConsistent, get_credit_balance-posted, insert_ledger-posted, posted, posted-IsConsistent,
}
use teardrop.Ledger.Entry.{upsert_balance-eq-ok}
use teardrop.Schema.{>>=-eq-ok, Db, Org, Reason, Result, err, ok, unique_violation}
use teardrop.Topup.{admin_topup_credit, credit_topup, or_replayed, referenced, replayed, topup_row}

module _ (now new_id org amount : ℕ) (reason : Reason) (ref : Option ℕ) (db : Db) where
  -- An accepted top-up is one posted row.
  pub credit_topup-posted :
      {n : ℕ} {db' : Db}
      → credit_topup now new_id org amount reason ref db ≡ ok (n, db')
      → (db' ≡ posted (topup_row now new_id org amount n reason ref) n db)
        × (n ≡ get_credit_balance org db + amount)
        × (0 < amount)
  unfolding credit_topup
  credit_topup-posted {n} {db'} h =
      let (r, added, rest) = >>=-eq-ok (upsert_balance org amount db) _ h in
      let (sum_eq, _, put) = upsert_balance-eq-ok org amount db added in
      let (d, inserted, same) =
        >>=-eq-ok (insert_ledger (topup_row now new_id org amount r.0 reason ref) r.1) _ rest in
      let at_put = rw put at inserted in
      let (written, positive, _) =
        insert_ledger-posted (topup_row now new_id org amount r.0 reason ref) r.0 db at_put in
      let n_eq : n ≡ r.0 = cc same in
      let d_eq : db' ≡ d = cc same in (rw n_eq (d_eq ∙ written), rw n_eq sum_eq, positive)

  pub credit_topup-IsConsistent :
      {n : ℕ} {db' : Db} (k : ℕ)
      → credit_topup now new_id org amount reason ref db ≡ ok (n, db')
      → IsConsistent k db
      → IsConsistent k db'
  credit_topup-IsConsistent {n} k h v =
      let (written, sum_eq, _) = credit_topup-posted h in
      rw written
        (posted-IsConsistent (topup_row now new_id org amount n reason ref) n k db refl sum_eq v)

-- A replay with the same reference finds the row, and changes nothing.
replayed-posted :
    (now new_id org amount n : ℕ) (reason : Reason) (ref : ℕ) (db : Db)
    → replayed org amount
        (some ref)
        (posted (topup_row now new_id org amount n reason (some ref)) n db)
      ≡ ok (
        get_credit_balance org (posted (topup_row now new_id org amount n reason (some ref)) n db),
        posted (topup_row now new_id org amount n reason (some ref)) n db,
      )
unfolding replayed referenced
replayed-posted now new_id org amount n reason ref db = ground arith

-- A second row with a reference that stands at the head of the ledger is refused.
credit_topup_refused :
    (now id org amount n now' id' : ℕ) (reason reason' : Reason) (ref : ℕ) (db : Db)
    → 0 < amount
    → get_credit_balance org (posted (topup_row now id org amount n reason (some ref)) n db)
        + amount
      ≤ max_bigint
    → (o : Org) → lookup org db.orgs ≡ some o
    → credit_topup now' id' org amount reason'
        (some ref)
        (posted (topup_row now id org amount n reason (some ref)) n db)
      ≡ err unique_violation
unfolding credit_topup upsert_balance insert_ledger ledger_violation put_balance
credit_topup_refused now id org amount n now' id' reason reason' ref db pos room o known =
    ground arith

upsert_balance-known :
    (org amount : ℕ) (db : Db) {r : ℕ × Db}
    → upsert_balance org amount db ≡ ok r
    → (o : Org) × (lookup org db.orgs ≡ some o)
unfolding upsert_balance
upsert_balance-known org amount db h = ground arith

credit_topup-known :
    (now id org amount : ℕ) (reason : Reason) (ref : Option ℕ) (db : Db) {r : ℕ × Db}
    → credit_topup now id org amount reason ref db ≡ ok r
    → (o : Org) × (lookup org db.orgs ≡ some o)
unfolding credit_topup
credit_topup-known now id org amount reason ref db h =
    let (r, added, rest) = >>=-eq-ok (upsert_balance org amount db) _ h in
    upsert_balance-known org amount db added

or_replayed-first :
    (org amount ref : ℕ) (db : Db) (t : Result (ℕ × Db)) {r : ℕ × Db}
    → referenced ref db ≡ none
    → or_replayed org amount (some ref) db t ≡ ok r
    → t ≡ ok r
unfolding or_replayed replayed
or_replayed-first org amount ref db (ok r) unused h = h
or_replayed-first org amount ref db (err unique_violation) unused h = ground (arith, unused)
or_replayed-first org amount ref db (err e) unused h = cc

-- The first top-up with a reference is an accepted posting.
pub admin_topup-first :
    (now id org amount ref : ℕ) (reason : Reason) (db : Db) {r : ℕ × Db}
    → referenced ref db ≡ none
    → admin_topup_credit now id org amount reason (some ref) db ≡ ok r
    → credit_topup now id org amount reason (some ref) db ≡ ok r
unfolding admin_topup_credit
admin_topup-first now id org amount ref reason db unused h =
    or_replayed-first org amount ref db (credit_topup now id org amount reason (some ref) db) unused
      h

-- A top-up whose reference was unused, made again with the same reference, org and amount at any
-- later time, returns the same balance and changes nothing, provided that a second addition would
-- still fit the BIGINT column.
pub admin_topup_credit_idem :
    (now id now' id' org amount ref n : ℕ) (reason reason' : Reason) (db db' : Db)
    → referenced ref db ≡ none
    → admin_topup_credit now id org amount reason (some ref) db ≡ ok (n, db')
    → n + amount ≤ max_bigint
    → admin_topup_credit now' id' org amount reason' (some ref) db' ≡ ok (n, db')
unfolding admin_topup_credit or_replayed
admin_topup_credit_idem now id now' id' org amount ref n reason reason' db db' unused h room =
    let made = admin_topup-first now id org amount ref reason db unused h in
    let (written, sum_eq, pos) = credit_topup-posted now id org amount reason (some ref) db made in
    let (o, known) = credit_topup-known now id org amount reason (some ref) db made in
    let row = topup_row now id org amount n reason (some ref) in
    let bal : get_credit_balance org (posted row n db) ≡ n =
      ground (arith, get_credit_balance-posted row n org db) in
    rw written (
      rw
        (credit_topup_refused now id org amount n now' id' reason reason' ref db pos (rw bal room) o
          known)
        (replayed-posted now id org amount n reason ref db ∙ rw bal))
