-- ===== src/Broker/Wait.antt =====
-- crates/data_feed/src/broker.rs: the fill wait. The loop has fuel, one unit a round; `none` is a loop that is not done.
pub mod Sound
pub mod Backed
pub mod Rounds
pub mod Ends
pub mod Deadline
pub mod Silent
use Prim.Native.String.{◌++◌ as append_str}
use galactic_trading_firm.Prelude.{
  ℕ, zero, suc, ◌+◌, ◌*◌, Option, none, some, Bool, true, false, List, String, if◌then◌else◌, leb,
}
use galactic_trading_firm.F64.{F64}
use galactic_trading_firm.Time.{DateTime}
use galactic_trading_firm.Action.{TradeDirection}
use galactic_trading_firm.Engine.Position.{Fallible, ok, err}
use galactic_trading_firm.Broker.Lookup.{
  Resolved, a_fill, continue_with, ended, not_held, unknown, concat3, poll_with_retries,
  lookup_by_client_id, find_held, find_directed, inferred, resolve_after_poll_failure,
}
use galactic_trading_firm.Broker.{
  OrderFill, order_rejected, unconfirmed, working, Submitted, accepted, failed, BrokerPosition,
  OrderState, filled, still_working, terminal, OrderView, Intent, opening, closing, FillWait,
  OrderApi, Formats, fill, position_as_fill,
}

abbrev pub nanos_per_milli : ℕ
nanos_per_milli = 1_000_000

-- the variables of the loop
pub record Waiting (F : Type 0) : Type 0 where
  pub current : OrderView F
  pub by_client_id : Bool
  pub last_unknown : Option String

module _ {F W : Type 0} ⦃f : F64 F⦄ ⦃s : Formats⦄ (api : OrderApi F W) (ticker : String)
    (direction : TradeDirection) (intent : Intent) (cfg : FillWait) where
  abbrev pub not_filled_text : OrderView F → String → String → String
  not_filled_text current why end =
      append_str
        (append_str "order "
          (concat3 current.id " not filled within " (s.show_number cfg.timeout_ms)))
        (append_str "ms (" (append_str why end))

  abbrev pub by_status : OrderView F → OrderView F → Submitted (OrderFill F)
  by_status current o = failed (
      order_rejected
        (not_filled_text current (append_str "status " (s.show_state o.state)) "); cancelled"))

  abbrev pub adopt_or :
      Option (BrokerPosition F) → DateTime → Submitted (OrderFill F) → Submitted (OrderFill F)
  adopt_or (some p) utc other = accepted (position_as_fill p direction utc)
  adopt_or none utc other = other

  -- a terminal entry order is believed only if the list of positions, when it can be had, agrees
  abbrev pub believe_list :
      OrderView F
      → OrderView F
      → Fallible (List (BrokerPosition F)) × W
      → Submitted (OrderFill F) × W
  believe_list current o (ok list, w) =
      (adopt_or (find_directed ticker direction list) (api.utc_now w) (by_status current o), w)
  believe_list current o (err e, w) = (by_status current o, w)

  abbrev pub still_after_cancel : OrderView F → OrderView F → Submitted (OrderFill F)
  still_after_cancel current o = failed (
      unconfirmed (
        append_str (append_str "order " (concat3 current.id " still " (s.show_state o.state))) (
          append_str " after cancel at the "
            (append_str (s.show_number cfg.timeout_ms) "ms deadline"))))

  abbrev pub final_by_state :
      OrderState → Intent → OrderView F → OrderView F → W → Submitted (OrderFill F) × W
  final_by_state (terminal status) opening current o w = believe_list current o (api.positions w)
  final_by_state (terminal status) closing current o w = (by_status current o, w)
  final_by_state filled intent' current o w = (still_after_cancel current o, w)
  final_by_state still_working intent' current o w = (still_after_cancel current o, w)

  abbrev pub final_by_view :
      Option (OrderFill F) → OrderView F → OrderView F → W → Submitted (OrderFill F) × W
  final_by_view (some x) current o w = (accepted x, w)
  final_by_view none current o w = final_by_state o.state intent current o w

  abbrev pub final_by_inferred :
      Option (OrderFill F) → OrderView F → String → Submitted (OrderFill F)
  final_by_inferred (some x) current lookup_err = accepted x
  final_by_inferred none current lookup_err = failed (
      order_rejected (
        not_filled_text current (append_str "lookups failed: " lookup_err)
          "); cancelled; broker holds no position"))

  abbrev pub earlier : Option String → String
  earlier none = ""
  earlier (some u) = append_str "; earlier: " u

  abbrev pub final_by_list :
      OrderView F
      → Option String
      → String
      → Fallible (List (BrokerPosition F)) × W
      → Submitted (OrderFill F) × W
  final_by_list current last_unknown lookup_err (ok list, w) = (
    final_by_inferred
        (inferred current ticker direction intent (api.utc_now w) (find_held ticker list)) current
        lookup_err,
    w,
  )
  final_by_list current last_unknown lookup_err (err e, w) = (
    failed (
        unconfirmed (
          append_str
            (append_str "order "
              (concat3 current.id " state unknown at the " (s.show_number cfg.timeout_ms)))
            (append_str "ms deadline: "
              (append_str (concat3 lookup_err "; positions: " e) (earlier last_unknown))))),
    w,
  )

  abbrev pub final_by_lookup :
      OrderView F → Option String → Fallible (OrderView F) × W → Submitted (OrderFill F) × W
  final_by_lookup current last_unknown (ok o, w) =
      final_by_view (fill o ticker direction (api.utc_now w)) current o w
  final_by_lookup current last_unknown (err e, w) =
      final_by_list current last_unknown e (api.positions w)

  abbrev pub world_of : {A : Type 0} → A × W → W
  world_of (a, w) = w

  unfoldable pub finalize_timeout : OrderView F → Option String → W → Submitted (OrderFill F) × W
  finalize_timeout current last_unknown w =
      if cfg.cancel_on_timeout
      then final_by_lookup current last_unknown (
          lookup_by_client_id api current.client_order_id cfg.poll_ms
            (api.sleep cfg.poll_ms (world_of (api.cancel_order current.id w))))
      else (failed (working current.id), w)

  abbrev pub ended_text : OrderView F → String → Submitted (OrderFill F)
  ended_text current status =
      failed (order_rejected (append_str "order " (concat3 current.id " ended in status " status)))

  abbrev pub cancel_ended : Intent → OrderView F → W → W
  cancel_ended closing current w = world_of (api.cancel_order current.id w)
  cancel_ended opening current w = w

  -- what the next round goes on with, or the result
  pub data Round : Type 0 where
    again : Waiting F → Round
    result : Submitted (OrderFill F) → Round

  abbrev pub round_of_resolved : Waiting F → Resolved F × W → Round × W
  round_of_resolved x (a_fill y, w) = (result (accepted y), w)
  round_of_resolved x (continue_with o, w) =
      (again (record x { current = o; by_client_id = true }), w)
  round_of_resolved x (ended status, w) = (result (ended_text x.current status), w)
  round_of_resolved x (not_held, w) = (again (record x { by_client_id = true }), w)
  round_of_resolved x (unknown e, w) =
      (again (record x { by_client_id = true; last_unknown = some e }), w)

  abbrev pub round_of_poll : Waiting F → Fallible (OrderView F) × W → Round × W
  round_of_poll x (ok o, w) = (again (record x { current = o }), w)
  round_of_poll x (err e, w) =
      round_of_resolved x
        (resolve_after_poll_failure api x.current ticker direction intent cfg.poll_ms w)

  abbrev pub poll : Waiting F → W → Fallible (OrderView F) × W
  poll x w =
      if x.by_client_id
      then lookup_by_client_id api x.current.client_order_id cfg.poll_ms w
      else poll_with_retries api x.current.id cfg.poll_ms w

  abbrev pub finished : Submitted (OrderFill F) × W → Round × W
  finished (r, w) = (result r, w)

  abbrev pub round_unended : ℕ → Waiting F → W → Round × W
  round_unended deadline x w =
      if leb deadline (api.now w)
      then finished (finalize_timeout x.current x.last_unknown w)
      else round_of_poll x (poll x (api.sleep cfg.poll_ms w))

  abbrev pub round_by_state : OrderState → ℕ → Waiting F → W → Round × W
  round_by_state (terminal status) deadline x w =
      (result (ended_text x.current status), cancel_ended intent x.current w)
  round_by_state filled deadline x w = round_unended deadline x w
  round_by_state still_working deadline x w = round_unended deadline x w

  abbrev pub round_by_fill : Option (OrderFill F) → ℕ → Waiting F → W → Round × W
  round_by_fill (some y) deadline x w = (result (accepted y), w)
  round_by_fill none deadline x w = round_by_state x.current.state deadline x w

  -- the body of the loop
  unfoldable pub round : ℕ → Waiting F → W → Round × W
  round deadline x w = round_by_fill (fill x.current ticker direction (api.utc_now w)) deadline x w

  abbrev pub continue_round :
      Round × W
      → (Waiting F → W → Option (Submitted (OrderFill F) × W))
      → Option (Submitted (OrderFill F) × W)
  continue_round (result r, w) loop = some (r, w)
  continue_round (again x, w) loop = loop x w

  unfoldable pub wait_loop : ℕ → ℕ → Waiting F → W → Option (Submitted (OrderFill F) × W)
  wait_loop zero deadline x w = none
  wait_loop (suc fuel) deadline x w =
      continue_round (round deadline x w) (λ x' w'. wait_loop fuel deadline x' w')

  unfoldable pub wait_for_fill_with : ℕ → OrderView F → W → Option (Submitted (OrderFill F) × W)
  wait_for_fill_with fuel initial w =
      wait_loop fuel (api.now w + cfg.timeout_ms * nanos_per_milli)
        (record { current = initial; by_client_id = false; last_unknown = none }) w
