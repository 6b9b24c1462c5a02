-- ===== src/Gateway/Context/Laws.antt =====
-- What the refund context promises of the order that it is derived from
-- (apps/services/integration-gateway/src/refund-context.ts, get-refund-context.ts).
use mathlib.Core.List.{Mem}
use customer_service_os_lite.Common.{
  ◌≢◌, includes, and_parts, str_eq_iff, Bool-cases, Bool, true, false, not, ◌&&◌, ◌≡◌, refl, sym,
  ap, subst, ◌∙◌, str_eq, ◌↔◌, inl, inr, Option-cases, Option, none, some, List, [], ◌∷◌, String,
  arith, map,
}
use customer_service_os_lite.Common.Int.{ℤ, pos, ◌+ℤ◌, ◌-ℤ◌, ◌≤ℤ◌, ◌<ℤ◌, ltb_ℤ, int_laws}
use customer_service_os_lite.Common.Lists.{every, keep, find, some_of, All}
use customer_service_os_lite.Common.Lists.Members.{
  some_of-found, found-some_of, includes-mem, mem-includes,
}
use customer_service_os_lite.Journey.Types.{Selection, SelectionScope}
use customer_service_os_lite.Gateway.Types.{
  Item, Refund, Payment, CommerceOrder, ObservationMetadata,
}
use customer_service_os_lite.Gateway.Context.{
  TextPlatform, max_ℤ, is_some, sole, settled_payment, consumed_amount, remaining_payment_amount,
  refund_consumes_balance, selected_items, selected_item_was_refunded, item_selection_valid,
  selected_maximum, context_facts, to_refund_context, is_settled,
}

-- A payment covers an amount: with all its refunds that count, it is not overdrawn.
pub record Covers (platform : TextPlatform) (payment : Payment) (amount : ℤ) : Type 0 where
  pub within : amount +ℤ consumed_amount platform (some payment) ≤ℤ payment.amount.amount_minor

-- A refund of the payment that has neither failed nor been cancelled is for a selected item.
pub record RefundsSelected (platform : TextPlatform) (selection : Selection) (payment : Payment)
    : Type 0 where
  pub refund : Refund
  pub given : Mem refund payment.refunds
  pub not_failed : platform.to_upper_case refund.status ≢ "FAILED"
  pub not_cancelled : platform.to_upper_case refund.status ≢ "CANCELLED"
  pub line : String
  pub of_refund : Mem line refund.line_ids
  pub selected : Mem line selection.item_ids

covered_of :
    (amount paid consumed : ℤ)
    → pos 0 <ℤ amount
    → amount ≤ℤ max_ℤ (paid -ℤ consumed) (pos 0)
    → amount +ℤ consumed ≤ℤ paid
covered_of amount paid consumed positive h = grind int_laws

positive_iff :
    (paid consumed : ℤ)
    → (ltb_ℤ (pos 0) (max_ℤ (paid -ℤ consumed) (pos 0)) ≡ true) ↔ (consumed <ℤ paid)
positive_iff paid consumed = (λ h. grind int_laws, λ h. grind int_laws)

not_and_parts : (a b : Bool) → not a && b ≡ true → (a ≡ false) × (b ≡ true)
not_and_parts a b h = ground arith

not_and_true : (a b : Bool) → a ≡ false → b ≡ true → not a && b ≡ true
not_and_true a b h k = ground arith

and_not_iff : (a b : Bool) → (a && not b ≡ true) ↔ ((a ≡ true) × (b ≡ false))
and_not_iff a b = (λ h. ground arith, λ (h, k). ground arith)

every_found :
    (f : String → Option Item) (ids : List String)
    → every is_some (map f ids) ≡ true
    → All (λ id. (item : Item) × (f id ≡ some item)) ids
every_found f [] h = tt
every_found f (id ∷ ids) h = elim (Option-cases (f id)) [
  | inl absent ↦ ground arith
  | inr (item, is) ↦ ((item, is), every_found f ids (ground arith))
]

found_every :
    (f : String → Option Item) (ids : List String)
    → All (λ id. (item : Item) × (f id ≡ some item)) ids
    → every is_some (map f ids) ≡ true
found_every f [] s = refl
found_every f (id ∷ ids) ((item, is), s) = ground (arith, found_every f ids s)

sole_iff : (ps : List Payment) (p : Payment) → (sole ps ≡ some p) ↔ (ps ≡ p ∷ [])
unfolding sole
sole_iff ps p = (λ h. ground arith, λ h. ground arith)

module _ (platform : TextPlatform) (order : CommerceOrder) (selection : Selection) where
  within_remaining :
      (payment : Option Payment)
      → pos 0 <ℤ (context_facts platform order selection payment).refundable_amount.amount_minor
      → (context_facts platform order selection payment).refundable_amount.amount_minor
        ≤ℤ remaining_payment_amount platform payment
  unfolding context_facts selected_maximum
  within_remaining payment h = ground arith

  remaining_is :
      (p : Payment) (amount : ℤ)
      → amount ≤ℤ remaining_payment_amount platform (some p)
      → amount ≤ℤ max_ℤ (p.amount.amount_minor -ℤ consumed_amount platform (some p)) (pos 0)
  unfolding remaining_payment_amount
  remaining_is p amount h = h

  remaining-Covers :
      (payment : Option Payment) (amount : ℤ)
      → pos 0 <ℤ amount
      → amount ≤ℤ remaining_payment_amount platform payment
      → (p : Payment) × (payment ≡ some p) × Covers platform p amount
  remaining-Covers none amount positive h = unfold remaining_payment_amount in ground arith
  remaining-Covers (some p) amount positive h = (
    p,
    refl,
    record {
      within =
          covered_of amount p.amount.amount_minor (consumed_amount platform (some p)) positive
            (remaining_is p amount h);
    },
  )

  -- Whatever amount is positive and within the refundable amount of the context of an order, the
  -- order has exactly one settled payment, and that payment covers the amount along with all of
  -- its refunds that have neither failed nor been cancelled.
  pub refundable-Covers :
      (metadata : ObservationMetadata) (amount : ℤ)
      → pos 0 <ℤ amount
      → amount
        ≤ℤ (to_refund_context platform order selection
            metadata).facts.refundable_amount.amount_minor
      → (p : Payment) × (keep (is_settled platform) order.payments ≡ p ∷ [])
        × Covers platform p amount
  unfolding to_refund_context settled_payment
  refundable-Covers metadata amount positive h =
      let payment = settled_payment platform order in
      let (p, is, covers) =
        remaining-Covers payment amount positive (grind (arith, within_remaining payment)) in
      (p, (sole_iff (keep (is_settled platform) order.payments) p).0 is, covers)

  has_remainder : Option Payment → Bool
  has_remainder payment =
      is_some payment && ltb_ℤ (pos 0) (remaining_payment_amount platform payment)

  remainder-open :
      (payment : Option Payment)
      → has_remainder payment ≡ true
      → (p : Payment) × (payment ≡ some p)
        × (consumed_amount platform (some p) <ℤ p.amount.amount_minor)
  unfolding has_remainder
  remainder-open none h = ground arith
  remainder-open (some p) h = (
    p,
    refl,
    unfold remaining_payment_amount in
        (positive_iff p.amount.amount_minor (consumed_amount platform (some p))).0 h,
  )

  open-remainder :
      (p : Payment)
      → consumed_amount platform (some p) <ℤ p.amount.amount_minor
      → has_remainder (some p) ≡ true
  unfolding has_remainder remaining_payment_amount
  open-remainder p h = (positive_iff p.amount.amount_minor (consumed_amount platform (some p))).1 h

  -- The transaction is refundable exactly when the order is not active and one settled payment has
  -- a positive remainder.
  pub transaction_refundable_iff :
      (metadata : ObservationMetadata)
      → ((to_refund_context platform order selection metadata).facts.transaction_refundable ≡ true)
        ↔ ((order.active ≡ false)
            × (p : Payment) × (keep (is_settled platform) order.payments ≡ p ∷ [])
            × (consumed_amount platform (some p) <ℤ p.amount.amount_minor))
  unfolding to_refund_context context_facts has_remainder settled_payment
  transaction_refundable_iff metadata =
      let payment = settled_payment platform order in
      let settled = keep (is_settled platform) order.payments in
      (
        λ h.
            let (idle, rest) = not_and_parts order.active (has_remainder payment) h in
            let (p, is, less) = remainder-open payment rest in
            (idle, p, (sole_iff settled p).0 is, less),
        λ (idle, p, is, less). not_and_true order.active (has_remainder payment) idle (
            subst (λ o. has_remainder o ≡ true) (sym ((sole_iff settled p).1 is))
              (open-remainder p less)),
      )

  selected_test :
      (payment : Option Payment)
      → selection.scope ≡ SelectionScope.selected_items
      → item_selection_valid platform order selection payment ≡ (
          every is_some (map (λ id. find (λ i. str_eq i.id id) order.items) selection.item_ids)
          && not (selected_item_was_refunded platform payment selection))
  unfolding item_selection_valid selected_items
  selected_test payment h = ground arith

  refunded-RefundsSelected :
      (p : Payment)
      → selected_item_was_refunded platform (some p) selection ≡ true
      → RefundsSelected platform selection p
  unfolding selected_item_was_refunded refund_consumes_balance
  refunded-RefundsSelected p h =
      let (r, given, both) =
        some_of-found
          (λ (r : Refund).
            refund_consumes_balance platform r.status
            && some_of (includes selection.item_ids) r.line_ids)
          p.refunds h in
      let (counts, lines) = and_parts (refund_consumes_balance platform r.status) _ both in
      let (line, of_refund, taken) = some_of-found (includes selection.item_ids) r.line_ids lines in
      let failed = str_eq_iff (platform.to_upper_case r.status) "FAILED" in
      let cancelled = str_eq_iff (platform.to_upper_case r.status) "CANCELLED" in
      record {
        refund = r;
        given = given;
        not_failed = λ e. (let is = failed.1 e in absurd (ground arith));
        not_cancelled = λ e. (let is = cancelled.1 e in absurd (ground arith));
        line = line;
        of_refund = of_refund;
        selected = includes-mem selection.item_ids line taken;
      }

  RefundsSelected-refunded :
      (p : Payment)
      → RefundsSelected platform selection p
      → selected_item_was_refunded platform (some p) selection ≡ true
  unfolding selected_item_was_refunded refund_consumes_balance
  RefundsSelected-refunded p is =
      let r = is.refund in
      let failed = str_eq_iff (platform.to_upper_case r.status) "FAILED" in
      let cancelled = str_eq_iff (platform.to_upper_case r.status) "CANCELLED" in
      let lines =
        found-some_of (includes selection.item_ids) r.line_ids is.line is.of_refund
          (mem-includes selection.item_ids is.line is.selected) in
      let counts : refund_consumes_balance platform r.status ≡ true =
        (let a = is.not_failed in let b = is.not_cancelled in ground arith) in
      found-some_of
        (λ (x : Refund).
          refund_consumes_balance platform x.status
          && some_of (includes selection.item_ids) x.line_ids)
        p.refunds r is.given (rw (counts, lines) refl)

  not_refunded_iff :
      (payment : Option Payment)
      → (selected_item_was_refunded platform payment selection ≡ false)
        ↔ ((p : Payment) → payment ≡ some p → RefundsSelected platform selection p → ⊥)
  unfolding selected_item_was_refunded
  not_refunded_iff none = (λ h p e. absurd (cc e), λ h. refl)
  not_refunded_iff (some q) = (
    λ h p e is.
        let there = RefundsSelected-refunded p is in
        let same : selected_item_was_refunded platform (some p) selection ≡ false =
          ap (λ o. selected_item_was_refunded platform o selection) (sym e) ∙ h in
        absurd (cc (there, same)),
    λ h. elim (Bool-cases (selected_item_was_refunded platform (some q) selection)) [
      | inl refunded ↦ absurd (h q refl (refunded-RefundsSelected q refunded))
      | inr clear ↦ clear
    ],
  )

  -- A selection of single items is valid exactly when every selected item is an item of the order
  -- and, if the order has exactly one settled payment, no refund of it that has neither failed nor
  -- been cancelled is for a selected item. Where no payment is settled, or several are, the refunds
  -- do not matter to it.
  pub item_selection_valid_iff :
      (metadata : ObservationMetadata)
      → selection.scope ≡ SelectionScope.selected_items
      → ((to_refund_context platform order selection metadata).facts.item_selection_valid ≡ true)
        ↔ (All
              (λ id. (item : Item) × (find (λ i. str_eq i.id id) order.items ≡ some item))
              selection.item_ids
            × ¬ (
                (p : Payment) × (keep (is_settled platform) order.payments ≡ p ∷ [])
                × RefundsSelected platform selection p))
  unfolding to_refund_context context_facts settled_payment
  item_selection_valid_iff metadata h =
      let payment = settled_payment platform order in
      let settled = keep (is_settled platform) order.payments in
      let f : String → Option Item = λ id. find (λ i. str_eq i.id id) order.items in
      let refunded = selected_item_was_refunded platform payment selection in
      let test : item_selection_valid platform order selection payment
          ≡ (every is_some (map f selection.item_ids) && not refunded) =
        selected_test payment h in
      let (there, back) = and_not_iff (every is_some (map f selection.item_ids)) refunded in
      let none_refunded = not_refunded_iff payment in
      (
        λ e.
            let (k, l) = there (sym test ∙ e) in
            (
              every_found f selection.item_ids k,
              λ (p, is, selected). none_refunded.0 l p ((sole_iff settled p).1 is) selected,
            ),
        λ (k, l).
            test
            ∙ back (
              found_every f selection.item_ids k,
              none_refunded.1 (λ p e selected. l (p, (sole_iff settled p).0 e, selected)),
            ),
      )
