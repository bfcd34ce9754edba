-- ===== src/Broker/Lookup.antt =====
-- crates/data_feed/src/broker.rs: how the fill wait asks where an order stands. A call of the outside
-- takes its state and gives it back.
use Prim.Native.String.{◌++◌ as append_str}
use text.Mathlib.Text.{◌==◌ as eq_text}
use galactic_trading_firm.Prelude.{
  ℕ, zero, suc, ◌+◌, ◌*◌, ◌%◌, ◌^◌, Option, none, some, List, [], ◌∷◌, String, if◌then◌else◌, leb,
  ◌&&◌,
}
use galactic_trading_firm.F64.{F64, lit}
use galactic_trading_firm.Time.{DateTime}
use galactic_trading_firm.Action.{TradeDirection}
use galactic_trading_firm.Engine.Position.{Fallible, ok, err}
use galactic_trading_firm.Broker.{
  OrderFill, BrokerPosition, OrderState, filled, still_working, terminal, OrderView, Intent,
  opening, closing, poll_retries, direction_eq, OrderApi, fill, position_as_fill,
}

-- what the fallbacks established after the poll by id failed; `continue_with` is `Continue`
pub data Resolved (F : Type 0) : Type 0 where
  a_fill : OrderFill F → Resolved F
  continue_with : OrderView F → Resolved F
  ended : (status : String) → Resolved F
  not_held : Resolved F
  unknown : (error : String) → Resolved F

abbrev pub min4 : ℕ → ℕ
min4 n = if leb n 4 then n else 4

abbrev pub concat3 : String → String → String → String
concat3 a b d = append_str a (append_str b d)

module _ {F W : Type 0} (api : OrderApi F W) where
  -- `poll_ms << attempt.min(4)`, in `u64`
  abbrev pub backoff : ℕ → ℕ → W → W
  backoff poll_ms zero w = w
  backoff poll_ms (suc n) w = api.sleep (poll_ms * 2 ^ min4 (suc n) % 2 ^ 64) w

  abbrev pub after_try :
      {A : Type 0} → Fallible A × W → (String → W → Fallible A × W) → Fallible A × W
  after_try (ok a, w) again = (ok a, w)
  after_try (err e, w) again = again e w

  -- the loop over the attempts, `left` of them to go
  unfoldable pub retry :
      {A : Type 0}
      → (left attempt : ℕ) (last : String) (call : W → Fallible A × W) (poll_ms : ℕ) → W
      → Fallible A × W
  retry zero attempt last call poll_ms w = (err last, w)
  retry (suc left) attempt last call poll_ms w =
      after_try (call (backoff poll_ms attempt w))
        (λ e w'. retry left (attempt + 1) e call poll_ms w')

  unfoldable pub poll_with_retries : String → ℕ → W → Fallible (OrderView F) × W
  poll_with_retries id poll_ms w = retry (suc poll_retries) 0 "" (api.get_order id) poll_ms w

  unfoldable pub lookup_by_client_id : String → ℕ → W → Fallible (OrderView F) × W
  lookup_by_client_id cid poll_ms w =
      retry (suc poll_retries) 0 "" (api.get_order_by_client_id cid) poll_ms w

module _ {F : Type 0} where
  -- `list.iter().find(|p| p.ticker == ticker)`
  abbrev pub find_held : String → List (BrokerPosition F) → Option (BrokerPosition F)
  find_held ticker [] = none
  find_held ticker (p ∷ rest) = if eq_text p.ticker ticker then some p else find_held ticker rest

  abbrev pub find_directed :
      String → TradeDirection → List (BrokerPosition F) → Option (BrokerPosition F)
  find_directed ticker direction [] = none
  find_directed ticker direction (p ∷ rest) =
      if eq_text p.ticker ticker && direction_eq p.direction direction
      then some p
      else find_directed ticker direction rest

module _ {F : Type 0} ⦃f : F64 F⦄ where
  abbrev pub flat_fill : OrderView F → String → TradeDirection → DateTime → OrderFill F
  flat_fill current ticker direction utc = record {
    ticker = ticker;
    direction = direction;
    quantity = current.filled_qty;
    fill_price = lit 0;
    filled_at = utc;
  }

  -- the fill that the list of positions shows, if it shows one: an opened position in the right
  -- direction, or a closed one that is gone
  abbrev pub inferred :
      OrderView F
      → String
      → TradeDirection
      → Intent
      → DateTime
      → Option (BrokerPosition F)
      → Option (OrderFill F)
  inferred current ticker direction opening utc (some p) =
      if direction_eq p.direction direction then some (position_as_fill p direction utc) else none
  inferred current ticker direction closing utc none = some (flat_fill current ticker direction utc)
  inferred current ticker direction opening utc none = none
  inferred current ticker direction closing utc (some p) = none

  abbrev pub resolved_by_view : Option (OrderFill F) → OrderState → OrderView F → Resolved F
  resolved_by_view (some x) state o = a_fill x
  resolved_by_view none (terminal status) o = ended status
  resolved_by_view none filled o = continue_with o
  resolved_by_view none still_working o = continue_with o

  abbrev pub resolved_by_list : Option (OrderFill F) → Resolved F
  resolved_by_list (some x) = a_fill x
  resolved_by_list none = not_held

module _ {F W : Type 0} ⦃f : F64 F⦄ (api : OrderApi F W) where
  abbrev pub resolve_positions :
      OrderView F
      → String
      → TradeDirection
      → Intent
      → String
      → Fallible (List (BrokerPosition F)) × W
      → Resolved F × W
  resolve_positions current ticker direction intent last_err (ok list, w) = (
    resolved_by_list
        (inferred current ticker direction intent (api.utc_now w) (find_held ticker list)),
    w,
  )
  resolve_positions current ticker direction intent last_err (err e, w) =
      (unknown (append_str "order lookup: " (concat3 last_err "; positions: " e)), w)

  abbrev pub resolve_lookup :
      OrderView F → String → TradeDirection → Intent → Fallible (OrderView F) × W → Resolved F × W
  resolve_lookup current ticker direction intent (ok o, w) =
      (resolved_by_view (fill o ticker direction (api.utc_now w)) o.state o, w)
  resolve_lookup current ticker direction intent (err e, w) =
      resolve_positions current ticker direction intent e (api.positions w)

  unfoldable pub resolve_after_poll_failure :
      OrderView F → String → TradeDirection → Intent → ℕ → W → Resolved F × W
  resolve_after_poll_failure current ticker direction intent poll_ms w =
      resolve_lookup current ticker direction intent
        (lookup_by_client_id api current.client_order_id poll_ms w)
