-- ===== src/Broker/Wait/Backed.antt =====
-- crates/data_feed/src/broker.rs: what the results of the fill wait rest on.
use galactic_trading_firm.Prelude.{
  ◌≡◌, refl, ap, subst, Option, none, some, Bool, true, false, List, String, ◌⊎◌, inl, inr,
  if◌then◌else◌,
}
use galactic_trading_firm.F64.{F64}
use galactic_trading_firm.Time.{DateTime}
use galactic_trading_firm.Action.{TradeDirection}
use galactic_trading_firm.Engine.Position.{Fallible, ok, err}
use galactic_trading_firm.Broker.{
  OrderFill, order_rejected, unconfirmed, working, connection_error, no_position, Submitted,
  accepted, failed, BrokerPosition, OrderState, filled, still_working, terminal, OrderView, Intent,
  opening, closing, FillWait, OrderApi, Formats, fill, position_as_fill,
}
use galactic_trading_firm.Broker.Lookup.{lookup_by_client_id, find_held, find_directed, inferred}
use galactic_trading_firm.Broker.Wait.{
  by_status, adopt_or, believe_list, final_by_state, final_by_view, final_by_inferred,
  final_by_list, final_by_lookup, world_of, finalize_timeout,
}
use galactic_trading_firm.Broker.Wait.Sound.{
  IsSound, Call, lookup_by_client_id-Call, ShownByOrder, ShownByList, EndedUnfilled,
}

module _ {F W : Type 0} ⦃f : F64 F⦄ {api : OrderApi F W} {Reach : W → W → Type 0}
    {Seen : OrderView F → Type 0} {Held : List (BrokerPosition F) → Type 0}
    (sound : IsSound F W api Reach Seen Held) (ticker : String) (direction : TradeDirection)
    (intent : Intent) (cfg : FillWait) where
  -- on the way from `w` to `w'`, one cancel was sent: of an order that was seen working, which is not
  -- to be left so
  abbrev pub Cancelled : W → W → Type 0
  Cancelled w w' =
      (v : OrderView F) × (u : W) × Seen v
      × (v.state ≡ still_working)
      × (cfg.cancel_on_timeout ≡ true)
      × Reach w u
      × Reach (api.cancel_order v.id u).1 w'

  -- the position of an entry whose order ended after the cancel
  abbrev pub Adopted : OrderFill F → Type 0
  Adopted x =
      (list : List (BrokerPosition F)) × (p : BrokerPosition F) × (utc : DateTime) × Held list
      × (intent ≡ opening)
      × (find_directed ticker direction list ≡ some p)
      × (x ≡ position_as_fill p direction utc)

  -- a list of positions that shows no fill
  abbrev pub ListUnfilled : Type 0
  ListUnfilled =
      (list : List (BrokerPosition F)) × (v : OrderView F) × (utc : DateTime) × Held list
      × Seen v
      × (inferred v ticker direction intent utc (find_held ticker list) ≡ none)

  abbrev pub IsOpen : OrderState → Type 0
  IsOpen (terminal status) = ⊥
  IsOpen _ = Unit

  -- an order that has neither ended nor filled, or a list of positions that cannot be had
  abbrev pub Undecided : Type 0
  Undecided =
      ((v : OrderView F) × (utc : DateTime) × Seen v
        × IsOpen v.state
        × (fill v ticker direction utc ≡ none))
      ⊎ ((u : W) × (e : String) × ((api.positions u).0 ≡ err e))

  -- an order left to work, with no cancel sent
  abbrev pub LeftWorking : W → String → W → Type 0
  LeftWorking w order_id w' =
      (v : OrderView F) × Seen v
      × (v.state ≡ still_working)
      × (v.id ≡ order_id)
      × (cfg.cancel_on_timeout ≡ false)
      × Reach w w'

  -- what a result of the wait rests on
  abbrev pub BackedBy : W → Submitted (OrderFill F) → W → Type 0
  BackedBy w (accepted x) w' =
      ShownByOrder sound ticker direction intent x
      ⊎ ShownByList sound ticker direction intent x
      ⊎ (Adopted x × Cancelled w w')
  BackedBy w (failed (order_rejected msg)) w' =
      EndedUnfilled sound ticker direction intent ⊎ (ListUnfilled × Cancelled w w')
  BackedBy w (failed (unconfirmed msg)) w' = Undecided × Cancelled w w'
  BackedBy w (failed (working order_id)) w' = LeftWorking w order_id w'
  BackedBy w (failed (connection_error msg)) w' = ⊥
  BackedBy w (failed (no_position msg)) w' = ⊥

module _ {F W : Type 0} ⦃f : F64 F⦄ ⦃s : Formats⦄ {api : OrderApi F W} {Reach : W → W → Type 0}
    {Seen : OrderView F → Type 0} {Held : List (BrokerPosition F) → Type 0}
    (sound : IsSound F W api Reach Seen Held) (ticker : String) (direction : TradeDirection)
    (intent : Intent) (cfg : FillWait) where
  abbrev pub Is : W → Submitted (OrderFill F) × W → Type 0
  Is w (r, w') = BackedBy sound ticker direction intent cfg w r w'

  -- `z` is the outside after the cancel
  abbrev CancelledAt : W → W → Type 0
  CancelledAt w z =
      (v : OrderView F) × (u : W) × Seen v
      × (v.state ≡ still_working)
      × (cfg.cancel_on_timeout ≡ true)
      × Reach w u
      × (z ≡ (api.cancel_order v.id u).1)

  by_then :
      (w z w' : W) → CancelledAt w z → Reach z w' → Cancelled sound ticker direction intent cfg w w'
  by_then w z w' (v, u, seen, h, k, early, same) later =
      (v, u, seen, h, k, early, subst (λ x. Reach x w') same later)

  module _ (w z : W) (sent : CancelledAt w z) where
    believe_list-BackedBy :
        (v : W) (c o : OrderView F)
        → (intent ≡ opening)
        → EndedUnfilled sound ticker direction intent
        → Reach z v
        → (r : Fallible (List (BrokerPosition F)) × W) → Call sound Held v r
        → Is w (believe_list api ticker direction intent cfg c o r)
    believe_list-BackedBy v c o i unfilled later (err e, w') call = inl unfilled
    believe_list-BackedBy v c o i unfilled later (ok list, w') call =
        by_found (find_directed ticker direction list) refl
      where
        by_found :
            (p : Option (BrokerPosition F))
            → find_directed ticker direction list ≡ p
            → Is w (
              adopt_or api ticker direction intent cfg p
                  (api.utc_now w')
                  (by_status api ticker direction intent cfg c o),
              w',
            )
        by_found (some p) h = inr (
            inr (
              (list, p, api.utc_now w', call.1, i, h, refl),
              by_then w z w' sent (sound.reach_trans z v w' later call.0),
            ))
        by_found none h = inl unfilled

    final_by_state-BackedBy :
        (w' : W) (c o : OrderView F) (utc : DateTime)
        → Seen o
        → fill o ticker direction utc ≡ none
        → Reach z w'
        → (state : OrderState) (i : Intent) → o.state ≡ state
        → intent ≡ i
        → Is w (final_by_state api ticker direction intent cfg state i c o w')
    final_by_state-BackedBy w' c o utc seen h later (terminal status) opening e i =
        believe_list-BackedBy w' c o i (o, utc, seen, rw e tt, h) later (api.positions w')
          (sound.positions_lem w')
    final_by_state-BackedBy w' c o utc seen h later (terminal status) closing e i =
        inl (o, utc, seen, rw e tt, h)
    final_by_state-BackedBy w' c o utc seen h later filled i e j =
        (inl (o, utc, seen, rw e tt, h), by_then w z w' sent later)
    final_by_state-BackedBy w' c o utc seen h later still_working i e j =
        (inl (o, utc, seen, rw e tt, h), by_then w z w' sent later)

    final_by_view-BackedBy :
        (w' : W) (c o : OrderView F) (utc : DateTime)
        → Seen o
        → Reach z w'
        → (x : Option (OrderFill F)) → fill o ticker direction utc ≡ x
        → Is w (final_by_view api ticker direction intent cfg x c o w')
    final_by_view-BackedBy w' c o utc seen later (some x) h = inl (o, utc, seen, h)
    final_by_view-BackedBy w' c o utc seen later none h =
        final_by_state-BackedBy w' c o utc seen h later o.state intent refl refl

    final_by_list-BackedBy :
        (v : W) (c : OrderView F) (last : Option String) (e : String)
        → Seen c
        → Reach z v
        → (r : Fallible (List (BrokerPosition F)) × W) → Call sound Held v r
        → api.positions v ≡ r
        → Is w (final_by_list api ticker direction intent cfg c last e r)
    final_by_list-BackedBy v c last e seen later (err e', w') call same = (
      inr (v, e', ap (λ r. r.0) same),
      by_then w z w' sent (sound.reach_trans z v w' later call.0),
    )
    final_by_list-BackedBy v c last e seen later (ok list, w') call same =
        by_inferred (inferred c ticker direction intent (api.utc_now w') (find_held ticker list))
          refl
      where
        by_inferred :
            (x : Option (OrderFill F))
            → inferred c ticker direction intent (api.utc_now w') (find_held ticker list) ≡ x
            → Is w (final_by_inferred api ticker direction intent cfg x c e, w')
        by_inferred (some x) h = inr (inl (list, c, api.utc_now w', call.1, seen, h))
        by_inferred none h = inr (
          (list, c, api.utc_now w', call.1, seen, h),
          by_then w z w' sent (sound.reach_trans z v w' later call.0),
        )

    final_by_lookup-BackedBy :
        (v : W) (c : OrderView F) (last : Option String)
        → Seen c
        → Reach z v
        → (r : Fallible (OrderView F) × W) → Call sound Seen v r
        → Is w (final_by_lookup api ticker direction intent cfg c last r)
    final_by_lookup-BackedBy v c last seen later (ok o, w') call =
        final_by_view-BackedBy w' c o (api.utc_now w') call.1
          (sound.reach_trans z v w' later call.0) _ refl
    final_by_lookup-BackedBy v c last seen later (err e, w') call =
        final_by_list-BackedBy w' c last e seen (sound.reach_trans z v w' later call.0)
          (api.positions w') (sound.positions_lem w') refl

  pub finalize_timeout-BackedBy :
      (w w' : W) (c : OrderView F) (last : Option String)
      → Reach w w'
      → Seen c
      → c.state ≡ still_working
      → Is w (finalize_timeout api ticker direction intent cfg c last w')
  unfolding finalize_timeout
  finalize_timeout-BackedBy w w' c last reach seen h = by_cancel cfg.cancel_on_timeout refl
    where
      by_cancel :
          (b : Bool)
          → cfg.cancel_on_timeout ≡ b
          → Is w (
              if b
              then final_by_lookup api ticker direction intent cfg c last (
                  lookup_by_client_id api c.client_order_id cfg.poll_ms (
                    api.sleep cfg.poll_ms
                      (world_of api ticker direction intent cfg (api.cancel_order c.id w'))))
              else (failed (working c.id), w'))
      by_cancel true k =
          final_by_lookup-BackedBy w (api.cancel_order c.id w').1 (c, w', seen, h, k, reach, refl) _
            c last seen (sound.sleep_lem cfg.poll_ms _) _
            (lookup_by_client_id-Call sound c.client_order_id cfg.poll_ms _)
      by_cancel false k = (c, seen, h, refl, k, reach)
