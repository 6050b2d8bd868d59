-- ===== src/Dues/Paying.antt =====
-- What a payment of a contact does to what is outstanding: `receivePayment` and `payPayment` of
-- src/receivables-payables/receivables-payables.service.ts.
use cashfo_backend.Base.{ℕ, ◌≡◌, refl, sym, ◌∙◌, ap, subst, some, arith, inl, inr, ◌==◌, find_where}
use cashfo_backend.Schema.{Account, Contact, Transaction, Context, Db, ok, step-cases}
use cashfo_backend.Ledger.Posting.{post, post_seeing, find_by_key, post_new}
use cashfo_backend.QuickEntries.Defs.{require_money_account}
use cashfo_backend.QuickEntries.Effects.{require_money_account-found}
use cashfo_backend.Dues.Defs.{Direction, find_system_account, compute_direction}
use cashfo_backend.Dues.Requests.{
  Payment, require_own_contact, require_system_account, check_amount, validate_payment_amount,
  payment_request, settle_payment,
}
use cashfo_backend.Dues.Soundness.{check_amount_keeps}

-- What a payment that went through has found, checked and posted.
pub record IsPaid (dir : Direction) (ctx : Context) (b : ℕ) (dto : Payment) (db : Db)
    (t : Transaction) (db' : Db) : Type 0 where
  pub contact : Contact
  pub contact_found :
      find_where (λ (c : Contact). c.id == dto.contact_id) db.contacts ≡ some contact
  pub side : Account
  pub side_found : find_system_account b dir db.accounts ≡ some side
  pub money : Account
  pub checked :
      check_amount
        (compute_direction ctx.now b contact dir db)
        dto.amount
        dto.applied_to_transaction_id
        db
      ≡ ok (tt, db)
  pub posted : post_new ctx b (payment_request dir dto contact side money) db ≡ ok (t, db')

contact-found :
    (b i : ℕ) (db db1 : Db) (c : Contact)
    → require_own_contact b i db ≡ ok (c, db1)
    → (db1 ≡ db) × (find_where (λ (x : Contact). x.id == i) db.contacts ≡ some c)
unfolding require_own_contact
contact-found b i db db1 c h = ground arith

side-found :
    (b : ℕ) (dir : Direction) (db db1 : Db) (a : Account)
    → require_system_account b dir db ≡ ok (a, db1)
    → (db1 ≡ db) × (find_system_account b dir db.accounts ≡ some a)
unfolding require_system_account
side-found b dir db db1 a h = ground arith

post-unkeyed :
    (ctx : Context) (b : ℕ) (dir : Direction) (dto : Payment) (c : Contact) (side money : Account)
    (db : Db)
    → post ctx b (payment_request dir dto c side money) db
      ≡ post_new ctx b (payment_request dir dto c side money) db
unfolding post post_seeing find_by_key
post-unkeyed ctx b dir dto c side money db = refl

pub settle_payment-IsPaid :
    (dir : Direction) (ctx : Context) (b : ℕ) (dto : Payment) (db : Db) (t : Transaction) (db' : Db)
    → settle_payment dir ctx b dto db ≡ ok (t, db')
    → IsPaid dir ctx b dto db t db'
unfolding settle_payment validate_payment_amount compute_direction
settle_payment-IsPaid dir ctx b dto db t db' h =
    elim (step-cases (require_own_contact b dto.contact_id db)) [
      | inl (e, failed) ↦ absurd (ground arith)
      | inr (c, db1, got_contact) ↦
          let (same1, contact_found) = contact-found b dto.contact_id db db1 c got_contact in
          elim (step-cases (require_system_account b dir db1)) [
            | inl (e, failed) ↦ absurd (ground arith)
            | inr (side, db2, got_side) ↦
                let (same2, side_found) = side-found b dir db1 db2 side got_side in
                elim (step-cases (require_money_account b dto.money_account_id db2)) [
                  | inl (e, failed) ↦ absurd (ground arith)
                  | inr (money, db3, got_money) ↦
                      let (same3, _, _) =
                        require_money_account-found b dto.money_account_id db2 db3 money
                          got_money in
                      let same = same3 ∙ same2 ∙ same1 in
                      elim (step-cases (
                        validate_payment_amount ctx b c dir dto.amount dto.applied_to_transaction_id
                          db3)) [
                            | inl (e, failed) ↦ absurd (ground arith)
                            | inr (u, db4, valid) ↦
                                let keep =
                                  check_amount_keeps (compute_direction ctx.now b c dir db3)
                                    dto.amount dto.applied_to_transaction_id db3 db4 u valid in
                                let went : post ctx b (payment_request dir dto c side money) db4
                                    ≡ ok (t, db') =
                                  ground arith in
                                record {
                                  contact = c;
                                  contact_found = contact_found;
                                  side = side;
                                  side_found =
                                      ap (λ (x : Db). find_system_account b dir x.accounts)
                                        (sym same1)
                                      ∙ side_found;
                                  money = money;
                                  checked =
                                      subst
                                        (λ (x : Db).
                                          check_amount (compute_direction ctx.now b c dir x)
                                            dto.amount dto.applied_to_transaction_id x
                                          ≡ ok (tt, x))
                                        same (valid ∙ ap (λ (x : Db). ok (tt, x)) keep);
                                  posted =
                                      sym (post-unkeyed ctx b dir dto c side money db)
                                      ∙ ap (post ctx b (payment_request dir dto c side money))
                                          (sym (keep ∙ same))
                                      ∙ went;
                                }
                          ]
                ]
          ]
    ]
