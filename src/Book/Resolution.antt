-- ===== src/Book/Resolution.antt =====
-- crates/data_feed/src/book.rs: what the broker answers when a pending exit is resolved
-- (`resolve_exit_pending` and the close that it may ask for).
use text.Mathlib.Text.{◌==◌}
use galactic_trading_firm.Prelude.{
  ◌≡◌, ◌⊎◌, inl, inr, refl, Option, none, some, Bool, true, false, List, [], ◌∷◌, String, ◌||◌,
  if◌then◌else◌,
}
use galactic_trading_firm.F64.{F64}
use galactic_trading_firm.Broker.{
  OrderFill, order_rejected, connection_error, no_position, unconfirmed, working, Submitted,
  accepted, failed, BrokerPosition, OrderState, filled, still_working, terminal, OrderView,
}
use galactic_trading_firm.Broker.Trait.{Broker}
use galactic_trading_firm.Book.Pending.{
  CloseOutcome, close_filled, flat, unsettled, ExitResolution, exit_filled, broker_flat, resubmit,
  still, close_outcome, is_held, by_list, by_list_only, by_state, by_status, by_order, fill_known,
}

module _ {F : Type 0} where
  -- no position of the ticker is listed
  abbrev pub NoneOf : String → List (BrokerPosition F) → Type 0
  NoneOf ticker [] = Unit
  NoneOf ticker (q ∷ rest) = ((q.ticker == ticker) ≡ false) × NoneOf ticker rest

  -- a close that was filled, or met no position
  abbrev pub IsClosed : Submitted (OrderFill F) → Type 0
  IsClosed (accepted x) = Unit
  IsClosed (failed (no_position msg)) = Unit
  IsClosed (failed _) = ⊥

  abbrev pub IsSettled : CloseOutcome F → Type 0
  IsSettled (close_filled x) = Unit
  IsSettled flat = Unit
  IsSettled (unsettled order_id) = ⊥

  pub closed_lem : (r : Submitted (OrderFill F)) → IsSettled (close_outcome r) → IsClosed r
  closed_lem (accepted x) h = tt
  closed_lem (failed (no_position msg)) h = tt
  closed_lem (failed (working order_id)) h = h
  closed_lem (failed (order_rejected msg)) h = h
  closed_lem (failed (connection_error msg)) h = h
  closed_lem (failed (unconfirmed msg)) h = h

  not_held_lem :
      (ticker : String) (list : List (BrokerPosition F))
      → is_held ticker list ≡ false
      → NoneOf ticker list
  not_held_lem ticker [] h = tt
  not_held_lem ticker (q ∷ rest) h = by_first (q.ticker == ticker) refl h (not_held_lem ticker rest)
    where
      by_first :
          (b : Bool)
          → (q.ticker == ticker) ≡ b
          → (b || is_held ticker rest) ≡ false
          → (is_held ticker rest ≡ false → NoneOf ticker rest)
          → NoneOf ticker (q ∷ rest)
      by_first true e k later = cc
      by_first false e k later = (e, later k)

module _ {F B : Type 0} ⦃f : F64 F⦄ (api : Broker F B) where
  -- the broker as it was, or after the exit's order was looked up
  abbrev pub Asked : B → Option String → B → Type 0
  Asked w order v = (v ≡ w) ⊎ ((id : String) × (order ≡ some id) × (v ≡ (api.order_status id w).0))

  abbrev pub OrderFilled : B → Option String → Type 0
  OrderFilled w order =
      (id : String) × (v : OrderView F) × (order ≡ some id)
      × ((api.order_status id w).1 ≡ accepted v)
      × (v.state ≡ filled)

  abbrev pub ListedFlat : B → String → Option String → Type 0
  ListedFlat w ticker order =
      (v : B) × (list : List (BrokerPosition F)) × Asked w order v
      × ((api.positions v).1 ≡ accepted list)
      × NoneOf ticker list

  abbrev pub ClosedAgain : B → String → Option String → Type 0
  ClosedAgain w ticker order =
      (v : B) × Asked w order v
      × (u : B) × (u ≡ (api.positions v).0)
      × IsClosed (api.close ticker u).1

  -- the broker has confirmed that the exit is done
  abbrev pub IsConfirmed : B → String → Option String → Type 0
  IsConfirmed w ticker order =
      OrderFilled w order ⊎ (ListedFlat w ticker order ⊎ ClosedAgain w ticker order)

  -- what a resolution rests on
  abbrev pub IsResolution : B → String → Option String → B × ExitResolution F → Type 0
  IsResolution w ticker order (u, exit_filled price) = OrderFilled w order
  IsResolution w ticker order (u, broker_flat price) = ListedFlat w ticker order
  IsResolution w ticker order (u, resubmit) = (v : B) × Asked w order v × (u ≡ (api.positions v).0)
  IsResolution w ticker order (u, still) = Unit

  held_or_flat :
      (w v : B) (ticker : String) (order : Option String) (price : Option F)
      (list : List (BrokerPosition F))
      → Asked w order v
      → (api.positions v).1 ≡ accepted list
      → (held : Bool) → is_held ticker list ≡ held
      → IsResolution w ticker order
          ((api.positions v).0, if held then resubmit else broker_flat price)
  held_or_flat w v ticker order price list asked h true e = (v, asked, refl)
  held_or_flat w v ticker order price list asked h false e =
      (v, list, asked, h, not_held_lem ticker list e)

  by_list-IsResolution :
      (w v : B) (ticker : String) (order : Option String) (price : Option F)
      → Asked w order v
      → (r : Submitted (List (BrokerPosition F))) → (api.positions v).1 ≡ r
      → IsResolution w ticker order ((api.positions v).0, by_list ticker price r)
  by_list-IsResolution w v ticker order price asked (failed e) h = tt
  by_list-IsResolution w v ticker order price asked (accepted list) h =
      held_or_flat w v ticker order price list asked h _ refl

  held_still :
      (w v : B) (ticker : String) (order : Option String) (list : List (BrokerPosition F))
      → Asked w order v
      → (api.positions v).1 ≡ accepted list
      → (held : Bool) → is_held ticker list ≡ held
      → IsResolution w ticker order ((api.positions v).0, if held then still else broker_flat none)
  held_still w v ticker order list asked h true e = tt
  held_still w v ticker order list asked h false e = (v, list, asked, h, not_held_lem ticker list e)

  by_list_only-IsResolution :
      (w v : B) (ticker : String) (order : Option String)
      → Asked w order v
      → (r : Submitted (List (BrokerPosition F))) → (api.positions v).1 ≡ r
      → IsResolution w ticker order ((api.positions v).0, by_list_only ticker r)
  by_list_only-IsResolution w v ticker order asked (failed e) h = tt
  by_list_only-IsResolution w v ticker order asked (accepted list) h =
      held_still w v ticker order list asked h _ refl

  by_state-IsResolution :
      (w : B) (ticker id : String) (v : OrderView F)
      → (api.order_status id w).1 ≡ accepted v
      → (state : OrderState) → v.state ≡ state
      → IsResolution w ticker (some id) (by_state api ticker state v (api.order_status id w).0)
  by_state-IsResolution w ticker id v h filled e = (id, v, refl, h, e)
  by_state-IsResolution w ticker id v h still_working e = tt
  by_state-IsResolution w ticker id v h (terminal status) e =
      by_list-IsResolution w (api.order_status id w).0 ticker (some id) (fill_known v)
        (inr (id, refl, refl)) _ refl

  by_status-IsResolution :
      (w : B) (ticker id : String) (r : Submitted (OrderView F))
      → (api.order_status id w).1 ≡ r
      → IsResolution w ticker (some id) (by_status api ticker ((api.order_status id w).0, r))
  by_status-IsResolution w ticker id (accepted v) h =
      by_state-IsResolution w ticker id v h v.state refl
  by_status-IsResolution w ticker id (failed e) h =
      by_list_only-IsResolution w (api.order_status id w).0 ticker (some id) (inr (id, refl, refl))
        _ refl

  pub by_order-IsResolution :
      (w : B) (ticker : String) (order : Option String)
      → IsResolution w ticker order (by_order api ticker order w)
  by_order-IsResolution w ticker none = by_list-IsResolution w w ticker none none (inl refl) _ refl
  by_order-IsResolution w ticker (some id) = by_status-IsResolution w ticker id _ refl
