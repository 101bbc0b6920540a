-- ===== src/Orders/Cancelled.antt =====
-- OutboundOrdersService.cancelOrder: what a cancelled order leaves behind.
use Prim.Native.String.{String}
use warehousehub.Base.{
  ℕ, ◌≡◌, refl, ◌∙◌, Bool, true, false, pos, Option, none, some, List, [], ◌∷◌, ◌==◌, ◌&&◌, ◌||◌,
  arith, not, keep, All, find_by, update_first, update_many, Bool-cases, Option-cases, inl, inr,
  if◌then◌else◌, length,
}
use warehousehub.Db.{
  Store, Line, LineStatus, is_cancelled, Order, OutboundStatus, same_status, Allocation, Post,
  Post-bind, Returns-Post, update_line_rows, update_order, find_order,
}
use warehousehub.Ledger.{IsSoundStore}
use warehousehub.Picking.Release.{open_for_order, release_all_for_order}
use warehousehub.Picking.Release.PerOrder.{ReleasesOrder, release_all_for_order-ReleasesOrder}
use warehousehub.Orders.{cancel_order}

abbrev cancelled_line : Line → Line
cancelled_line l = record l { status = LineStatus.cancelled; picked = pos 0; shipped = pos 0 }

abbrev to_cancel : ℕ → Line → Bool
to_cancel order l = (l.order == order) && not (is_cancelled l.status)

abbrev of_order : ℕ → Option Line → Bool
of_order order o = elim o [ none ↦ false | some l ↦ l.order == order ]

same_order_of :
    (order line : ℕ) (p : Line → Bool) (ls : List Line)
    → of_order order (find_by (λ l. l.id == line) (update_many p cancelled_line ls))
      ≡ of_order order (find_by (λ l. l.id == line) ls)
same_order_of order line p [] = refl
same_order_of order line p (l ∷ ls) = elim (Bool-cases (p l)) [
  | inl e ↦ rw e (here (same_order_of order line p ls))
  | inr e ↦ rw e (there (same_order_of order line p ls))
]
  where
    here :
        of_order order (find_by (λ l. l.id == line) (update_many p cancelled_line ls))
          ≡ of_order order (find_by (λ l. l.id == line) ls)
        → of_order order
            (find_by (λ l. l.id == line) (cancelled_line l ∷ update_many p cancelled_line ls))
          ≡ of_order order (find_by (λ l. l.id == line) (l ∷ ls))
    here h = elim (Bool-cases (l.id == line)) [ inl k ↦ rw k refl | inr k ↦ rw k h ]

    there :
        of_order order (find_by (λ l. l.id == line) (update_many p cancelled_line ls))
          ≡ of_order order (find_by (λ l. l.id == line) ls)
        → of_order order (find_by (λ l. l.id == line) (l ∷ update_many p cancelled_line ls))
          ≡ of_order order (find_by (λ l. l.id == line) (l ∷ ls))
    there h = elim (Bool-cases (l.id == line)) [ inl k ↦ rw k refl | inr k ↦ rw k h ]

keep-same :
    (p q : Allocation → Bool) (l : List Allocation)
    → ((a : Allocation) → p a ≡ q a)
    → keep p l ≡ keep q l
keep-same p q [] h = refl
keep-same p q (a ∷ l) h = rw (h a, keep-same p q l h) refl

-- Every line of the order is cancelled.
abbrev pub AreCancelled : ℕ → List Line → Type 0
AreCancelled order ls = All (λ l. (not (l.order == order) || is_cancelled l.status) ≡ true) ls

AreCancelled-update_many :
    (order : ℕ) (ls : List Line)
    → AreCancelled order (update_many (to_cancel order) cancelled_line ls)
AreCancelled-update_many order [] = tt
AreCancelled-update_many order (l ∷ ls) = (one l, AreCancelled-update_many order ls)
  where
    one :
        (l : Line)
        → (not ((if to_cancel order l then cancelled_line l else l).order == order)
            || is_cancelled (if to_cancel order l then cancelled_line l else l).status)
          ≡ true
    one l = elim (Bool-cases (to_cancel order l)) [
      | inl e ↦ rw e (ground arith)
      | inr e ↦ rw e (ground arith)
    ]

-- What the cancellation of an order leaves behind.
pub record Cancels (company order : ℕ) (s t : Store) : Type 0 where
  pub cancelled_order : Order
  pub found : find_order company order s ≡ some cancelled_order
  pub was_open :
      (same_status cancelled_order.status OutboundStatus.delivered
        || same_status cancelled_order.status OutboundStatus.cancelled)
      ≡ false
  pub sound : IsSoundStore t
  pub none_open : open_for_order company order t ≡ []
  pub lines_cancelled : AreCancelled order t.lines

module _ (company order now : ℕ) (reason : Option String) where
  after_update :
      (f : Order → Order) (s t : Store)
      → Cancels company order s t
      → Post (λ _ u. Cancels company order s u) (update_order order f t)
  unfolding update_order
  after_update f s t c = elim (Option-cases (update_first (λ o. o.id == order) f t.orders)) [
    | inl missing ↦ rw (missing, update_order) tt
    | inr (l, upd) ↦
        rw (upd, update_order)
          (record {
            cancelled_order = c.cancelled_order;
            found = c.found;
            was_open = c.was_open;
            sound = c.sound;
            none_open = c.none_open;
            lines_cancelled = c.lines_cancelled;
          })
  ]

  still_none :
      (t : Store)
      → open_for_order company order t ≡ []
      → open_for_order company order
          (record t { lines = update_many (to_cancel order) cancelled_line t.lines })
        ≡ []
  still_none t h =
      keep-same _ _ t.allocations
        (λ a. rw (same_order_of order a.line (to_cancel order) t.lines) refl)
      ∙ h

  -- On a sound ledger a cancellation that does not throw is that of an order of the company that is
  -- neither delivered nor cancelled; it leaves a sound ledger in which the order has no open
  -- allocation and all its lines are cancelled.
  pub cancel_order-Cancels :
      (s : Store)
      → IsSoundStore s
      → Post (λ _ t. Cancels company order s t) (cancel_order company order reason now s)
  unfolding cancel_order update_line_rows
  cancel_order-Cancels s v = elim (Option-cases (find_order company order s)) [
    | inl missing ↦ rw missing tt
    | inr (o, found) ↦
        elim (Bool-cases (
          same_status o.status OutboundStatus.delivered
          || same_status o.status OutboundStatus.cancelled)) [
            | inl final ↦ rw (found, final) tt
            | inr live ↦
                rw (found, live)
                  (Post-bind
                    (λ n t.
                      (n ≡ length (open_for_order company order s))
                      × ReleasesOrder company order s t)
                    (λ _ t. Cancels company order s t) (release_all_for_order company order now) _ s
                    (Returns-Post _ (release_all_for_order company order now s)
                      (release_all_for_order-ReleasesOrder company order now s v))
                    (λ _ t _ r.
                      after_update _ s
                        (record t { lines = update_many (to_cancel order) cancelled_line t.lines })
                        (record {
                          cancelled_order = o;
                          found = found;
                          was_open = live;
                          sound = r.1.sound;
                          none_open = still_none t r.1.none_open;
                          lines_cancelled = AreCancelled-update_many order t.lines;
                        })))
          ]
  ]
