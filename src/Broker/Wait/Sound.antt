-- ===== src/Broker/Wait/Sound.antt =====
-- What is assumed of the outside of the fill wait (crates/data_feed/src/broker.rs), and what one
-- lookup then gives.
use galactic_trading_firm.Prelude.{
  ℕ, zero, suc, ◌+◌, ◌≡◌, refl, Option, none, some, List, String, ◌⊎◌, inl, inr,
}
use galactic_trading_firm.F64.{F64}
use galactic_trading_firm.Time.{DateTime}
use galactic_trading_firm.Action.{TradeDirection}
use galactic_trading_firm.Engine.Position.{Fallible, ok, err}
use galactic_trading_firm.Broker.{
  OrderFill, BrokerPosition, OrderState, filled, still_working, terminal, OrderView, Intent,
  OrderApi, fill, poll_retries,
}
use galactic_trading_firm.Broker.Lookup.{
  Resolved, a_fill, continue_with, ended, not_held, unknown, backoff, after_try, retry,
  poll_with_retries, lookup_by_client_id, find_held, inferred, resolved_by_view, resolved_by_list,
  resolve_positions, resolve_lookup, resolve_after_poll_failure,
}

-- an answer that was given satisfies a predicate
abbrev pub Answered : {A : Type 0} → (A → Type 0) → Fallible A → Type 0
Answered P (ok a) = P a
Answered P (err e) = Unit

-- `Reach w w'`: the outside gets from `w` to `w'` by calls other than a cancel. `Seen` and `Held`
-- hold of the orders and of the lists of positions that the broker answers with.
pub record IsSound (F W : Type 0) (api : OrderApi F W) (Reach : W → W → Type 0)
    (Seen : OrderView F → Type 0) (Held : List (BrokerPosition F) → Type 0) : Type 0 where
  pub reach_refl : (w : W) → Reach w w
  pub reach_trans : (u v w : W) → Reach u v → Reach v w → Reach u w
  pub get_order_lem :
      (id : String) (w : W) → Reach w (api.get_order id w).1 × Answered Seen (api.get_order id w).0
  pub get_order_by_client_id_lem :
      (id : String) (w : W)
      → Reach w (api.get_order_by_client_id id w).1
        × Answered Seen (api.get_order_by_client_id id w).0
  pub positions_lem : (w : W) → Reach w (api.positions w).1 × Answered Held (api.positions w).0
  pub sleep_lem : (ms : ℕ) (w : W) → Reach w (api.sleep ms w)

module _ {F W : Type 0} {api : OrderApi F W} {Reach : W → W → Type 0} {Seen : OrderView F → Type 0}
    {Held : List (BrokerPosition F) → Type 0} (sound : IsSound F W api Reach Seen Held) where
  -- what a call that reaches `r` from `w` answers
  abbrev pub Call : {A : Type 0} → (A → Type 0) → W → Fallible A × W → Type 0
  Call P w r = Reach w r.1 × Answered P r.0

  backoff-Reach : (poll_ms attempt : ℕ) (w : W) → Reach w (backoff api poll_ms attempt w)
  backoff-Reach poll_ms zero w = sound.reach_refl w
  backoff-Reach poll_ms (suc n) w = sound.sleep_lem _ w

  after_try-Call :
      {A : Type 0} (P : A → Type 0) (w : W) (r : Fallible A × W)
      (again : String → W → Fallible A × W)
      → Call P w r
      → ((e : String) → Call P r.1 (again e r.1))
      → Call P w (after_try api r again)
  after_try-Call P w (ok a, v) again h k = h
  after_try-Call P w (err e, v) again h k = (sound.reach_trans w v _ h.0 (k e).0, (k e).1)

  retry-Call :
      {A : Type 0} (P : A → Type 0) (call : W → Fallible A × W)
      → ((w : W) → Call P w (call w))
      → (left attempt : ℕ) (last : String) (poll_ms : ℕ) (w : W)
      → Call P w (retry api left attempt last call poll_ms w)
  unfolding retry
  retry-Call P call h zero attempt last poll_ms w = (sound.reach_refl w, tt)
  retry-Call P call h (suc left) attempt last poll_ms w =
      let v = backoff api poll_ms attempt w in
      let c = h v in
      after_try-Call P w (call v) _
        (sound.reach_trans w v _ (backoff-Reach poll_ms attempt w) c.0, c.1)
        λ e. retry-Call P call h left (attempt + 1) e poll_ms (call v).1

  pub poll_with_retries-Call :
      (id : String) (poll_ms : ℕ) (w : W) → Call Seen w (poll_with_retries api id poll_ms w)
  unfolding poll_with_retries
  poll_with_retries-Call id poll_ms w =
      retry-Call Seen (api.get_order id) (sound.get_order_lem id) (suc poll_retries) 0 "" poll_ms w

  pub lookup_by_client_id-Call :
      (id : String) (poll_ms : ℕ) (w : W) → Call Seen w (lookup_by_client_id api id poll_ms w)
  unfolding lookup_by_client_id
  lookup_by_client_id-Call id poll_ms w =
      retry-Call Seen (api.get_order_by_client_id id) (sound.get_order_by_client_id_lem id)
        (suc poll_retries) 0 "" poll_ms w

module _ {F W : Type 0} ⦃f : F64 F⦄ {api : OrderApi F W} {Reach : W → W → Type 0}
    {Seen : OrderView F → Type 0} {Held : List (BrokerPosition F) → Type 0}
    (sound : IsSound F W api Reach Seen Held) (ticker : String) (direction : TradeDirection)
    (intent : Intent) where
  abbrev pub IsTerminal : OrderState → Type 0
  IsTerminal (terminal status) = Unit
  IsTerminal _ = ⊥

  -- a fill that an order shows, or that a list of positions shows
  abbrev pub ShownByOrder : OrderFill F → Type 0
  ShownByOrder x =
      (v : OrderView F) × (utc : DateTime) × Seen v × (fill v ticker direction utc ≡ some x)

  abbrev pub ShownByList : OrderFill F → Type 0
  ShownByList x =
      (list : List (BrokerPosition F)) × (v : OrderView F) × (utc : DateTime) × Held list
      × Seen v
      × (inferred v ticker direction intent utc (find_held ticker list) ≡ some x)

  -- an order that ended and shows no fill
  abbrev pub EndedUnfilled : Type 0
  EndedUnfilled =
      (v : OrderView F) × (utc : DateTime) × Seen v
      × IsTerminal v.state
      × (fill v ticker direction utc ≡ none)

  abbrev pub ResolvedBy : Resolved F → Type 0
  ResolvedBy (a_fill x) = ShownByOrder x ⊎ ShownByList x
  ResolvedBy (continue_with o) = Seen o
  ResolvedBy (ended status) = EndedUnfilled
  ResolvedBy not_held = Unit
  ResolvedBy (unknown e) = Unit

  by_view :
      (o : OrderView F) (utc : DateTime)
      → Seen o
      → (x : Option (OrderFill F)) (state : OrderState) → fill o ticker direction utc ≡ x
      → o.state ≡ state
      → ResolvedBy (resolved_by_view x state o)
  by_view o utc seen (some x) state h k = inl (o, utc, seen, h)
  by_view o utc seen none (terminal status) h k = (o, utc, seen, rw k tt, h)
  by_view o utc seen none filled h k = seen
  by_view o utc seen none still_working h k = seen

  by_list :
      (list : List (BrokerPosition F)) (v : OrderView F) (utc : DateTime)
      → Held list
      → Seen v
      → (x : Option (OrderFill F))
      → inferred v ticker direction intent utc (find_held ticker list) ≡ x
      → ResolvedBy (resolved_by_list x)
  by_list list v utc held seen (some x) h = inr (list, v, utc, held, seen, h)
  by_list list v utc held seen none h = tt

  from_positions :
      (v : OrderView F) (e : String) (w : W) (r : Fallible (List (BrokerPosition F)) × W)
      → Seen v
      → Call sound Held w r
      → let (y, w') = resolve_positions api v ticker direction intent e r in
        Reach w w' × ResolvedBy y
  from_positions v e w (ok list, w') seen c = (c.0, by_list list v (api.utc_now w') c.1 seen _ refl)
  from_positions v e w (err e', w') seen c = (c.0, tt)

  from_lookup :
      (v : OrderView F) (w : W) (r : Fallible (OrderView F) × W)
      → Seen v
      → Call sound Seen w r
      → let (y, w') = resolve_lookup api v ticker direction intent r in Reach w w' × ResolvedBy y
  from_lookup v w (ok o, w') seen c = (c.0, by_view o (api.utc_now w') c.1 _ _ refl refl)
  from_lookup v w (err e, w') seen c =
      let later = from_positions v e w' (api.positions w') seen (sound.positions_lem w') in
      (sound.reach_trans w w' _ c.0 later.0, later.1)

  pub resolve_after_poll_failure-ResolvedBy :
      (v : OrderView F) (poll_ms : ℕ) (w : W)
      → Seen v
      → let (y, w') = resolve_after_poll_failure api v ticker direction intent poll_ms w in
        Reach w w' × ResolvedBy y
  unfolding resolve_after_poll_failure
  resolve_after_poll_failure-ResolvedBy v poll_ms w seen =
      from_lookup v w _ seen (lookup_by_client_id-Call sound v.client_order_id poll_ms w)
