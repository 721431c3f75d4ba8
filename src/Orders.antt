-- ===== src/Orders.antt =====
-- apps/api/src/modules/orders: the order that a won auction owes its winner (orderService.ts and the
-- statements of orderRepository.ts). The order number comes from a sequence of the database.
use howlow.Prelude.{
  ℕ, ◌+◌, ◌*◌, Bool, true, false, Option, none, some, List, ◌∷◌, ◌==◌, ◌&&◌, first_where, ltb, not,
}
use howlow.Shared.{Currency}
use howlow.Errors.{check_violation, throw_if, ok, Tx, ◌>>=◌, ◌>>◌}

pub data OrderStatus : Type 0 where
  pending_payment paid preparing shipped delivered cancelled refunded : OrderStatus

pub record OrderRecord : Type 0 where
  pub id : ℕ
  pub order_number : ℕ
  pub user_id : ℕ
  pub seller_id : ℕ
  pub product_id : ℕ
  pub auction_id : Option ℕ
  pub status : OrderStatus
  pub currency : Currency
  pub subtotal_minor : ℕ
  pub shipping_minor : ℕ
  pub tax_minor : ℕ
  pub discount_minor : ℕ
  pub total_minor : ℕ
  pub placed_at : ℕ
  pub payment_due_at : Option ℕ
  pub paid_at : Option ℕ
  pub cancelled_at : Option ℕ

-- The table, and the audit rows `order.created` of the orders that they name.
pub record OrderDb : Type 0 where
  pub orders : List OrderRecord
  pub audit : List ℕ

pub record InsertAuctionOrderInput : Type 0 where
  pub auction_id : ℕ
  pub user_id : ℕ
  pub seller_id : ℕ
  pub product_id : ℕ
  pub currency : Currency
  pub amount_minor : ℕ
  pub payment_window_hours : ℕ

abbrev pub is_for_auction : ℕ → OrderRecord → Bool
is_for_auction auction_id o = elim o.auction_id [ none ↦ false | some id ↦ id == auction_id ]

-- `findByAuction`
abbrev pub find_by_auction : ℕ → OrderDb → Option OrderRecord
find_by_auction auction_id db = first_where (is_for_auction auction_id) db.orders

-- `findForUserAndAuction`
abbrev pub find_for_user_and_auction : ℕ → ℕ → OrderDb → Option OrderRecord
find_for_user_and_auction user_id auction_id db =
    first_where (λ o. is_for_auction auction_id o && o.user_id == user_id) db.orders

-- What the database gives a new row: its uuid, its number and the clock, in seconds.
pub record OrderSeed : Type 0 where
  pub id : ℕ
  pub order_number : ℕ
  pub clock : ℕ

abbrev pub new_order : OrderSeed → InsertAuctionOrderInput → OrderRecord
new_order seed i = record {
  id = seed.id;
  order_number = seed.order_number;
  user_id = i.user_id;
  seller_id = i.seller_id;
  product_id = i.product_id;
  auction_id = some i.auction_id;
  status = pending_payment;
  currency = i.currency;
  subtotal_minor = i.amount_minor;
  shipping_minor = 0;
  tax_minor = 0;
  discount_minor = 0;
  total_minor = i.amount_minor;
  placed_at = seed.clock;
  payment_due_at = some (seed.clock + i.payment_window_hours * 3600);
  paid_at = none;
  cancelled_at = none;
}

unfoldable pub insert_or_find :
    OrderSeed → InsertAuctionOrderInput → Tx OrderDb (OrderRecord × Bool)
insert_or_find seed i db = elim (find_by_auction i.auction_id db) [
  | some existing ↦ ok ((existing, false), db)
  | none ↦ ok ((new_order seed i, true), record db { orders = new_order seed i ∷ db.orders })
]

-- `insertAuctionOrder`: the order, and whether it was inserted. The CHECK `orders_deadline_after_placement`
-- comes before ON CONFLICT (auction_id) DO NOTHING.
unfoldable pub insert_auction_order :
    OrderSeed → InsertAuctionOrderInput → Tx OrderDb (OrderRecord × Bool)
insert_auction_order seed i = do
  throw_if (not (ltb 0 i.payment_window_hours)) check_violation
  insert_or_find seed i

unfoldable pub audit_created : OrderRecord × Bool → Tx OrderDb (OrderRecord × Bool)
audit_created (order, true) db = ok ((order, true), record db { audit = order.id ∷ db.audit })
audit_created (order, false) db = ok ((order, false), db)

-- `createWinnerOrder`
unfoldable pub create_winner_order :
    OrderSeed → InsertAuctionOrderInput → Tx OrderDb (OrderRecord × Bool)
create_winner_order seed i = do audit_created (← insert_auction_order seed i)
