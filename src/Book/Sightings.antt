-- ===== src/Book/Sightings.antt =====
-- crates/data_feed/src/book.rs: `reconcile_live`, the check during the session. A mismatch is counted
-- per ticker and acted on when it has been seen often enough in a row.
use galactic_trading_firm.Prelude.{
  ℕ, ◌+◌, ◌%◌, ◌^◌, Option, none, some, Bool, List, [], ◌∷◌, ◌++◌, String, if◌then◌else◌, ltb, ◌||◌,
}
use galactic_trading_firm.Prelude.Maps.{Map, lookup, insert, remove}
use galactic_trading_firm.F64.{F64, lit}
use galactic_trading_firm.Time.{DateTime, Chrono}
use galactic_trading_firm.Action.{manual_override}
use galactic_trading_firm.Engine.Gates.{get_or}
use galactic_trading_firm.Broker.{Submitted, accepted, failed, BrokerPosition}
use galactic_trading_firm.Broker.Trait.{Broker}
use galactic_trading_firm.Live.{LiveSession, TradeWithScores, force_close}
use galactic_trading_firm.Book.{Book, contains_key, with_session, count_trade, open_tickers}
use galactic_trading_firm.Book.Swap.{contains}
use galactic_trading_firm.Book.Pending.{with_broker, is_held, swap_if_pending}
use galactic_trading_firm.Book.Reconcile.{
  mismatch_sightings, OrphanPolicy, OrphanOutcome, handle_orphan, is_known,
}

-- `entry(..).or_insert(0)`, and one more, as a `u32`
abbrev pub sightings : String → Map ℕ → ℕ
sightings ticker m = (get_or (lookup ticker m) 0 + 1) % 2 ^ 32

-- `retain` of the tickers that were seen
unfoldable pub retain : List String → Map ℕ → Map ℕ
retain seen [] = []
retain seen ((ticker, n) ∷ rest) =
    let kept = retain seen rest in if contains ticker seen then (ticker, n) ∷ kept else kept

-- the loop's variables: the book, the tickers seen, and what was done
pub record Sweep (F B A : Type 0) : Type 0 where
  pub book : Book F B
  pub seen : List String
  pub done : List A

module _ {F B : Type 0} where
  abbrev pub in_flight : Book F B → String → Bool
  in_flight b ticker = contains_key ticker b.exit_pending || contains_key ticker b.unreconciled

  abbrev pub skipped_orphan : Book F B → BrokerPosition F → Bool
  skipped_orphan b p = is_known (lookup p.ticker b.sessions) || in_flight b p.ticker

  abbrev pub skipped_flat : Book F B → List (BrokerPosition F) → String → Bool
  skipped_flat b held ticker = in_flight b ticker || is_held ticker held

module _ {F B : Type 0} ⦃f : F64 F⦄ (api : Broker F B) (policy : OrphanPolicy) (now : DateTime)
    (market_open : Bool) where
  abbrev pub act_on_orphan :
      Book F B → List String → List OrphanOutcome → BrokerPosition F → Sweep F B OrphanOutcome
  act_on_orphan b seen done p =
      let (b', action) =
        handle_orphan api (record b { orphan_sightings = remove p.ticker b.orphan_sightings }) p
          policy now market_open "intraday" in
      record {
        book = b';
        seen = seen;
        done = done ++ (record { ticker = p.ticker; action = action } ∷ []);
      }

  abbrev pub sight_orphan :
      Book F B → List String → List OrphanOutcome → BrokerPosition F → Sweep F B OrphanOutcome
  sight_orphan b seen done p =
      let n = sightings p.ticker b.orphan_sightings in
      let counted = record b { orphan_sightings = insert p.ticker n b.orphan_sightings } in
      if ltb n mismatch_sightings
      then record { book = counted; seen = seen; done = done }
      else act_on_orphan counted seen done p

  abbrev pub sweep_orphan : Sweep F B OrphanOutcome → BrokerPosition F → Sweep F B OrphanOutcome
  sweep_orphan x p =
      if skipped_orphan x.book p then x else sight_orphan x.book (p.ticker ∷ x.seen) x.done p

  unfoldable pub sweep_orphans :
      List (BrokerPosition F) → Sweep F B OrphanOutcome → Sweep F B OrphanOutcome
  sweep_orphans [] x = x
  sweep_orphans (p ∷ rest) x = sweep_orphans rest (sweep_orphan x p)

module _ {F B : Type 0} ⦃f : F64 F⦄ ⦃c : Chrono⦄ (now : DateTime) (last_prices : Map F)
    (held : List (BrokerPosition F)) where
  abbrev pub mark_flat :
      Sweep F B String → String → LiveSession F × Option (TradeWithScores F) → Sweep F B String
  mark_flat x ticker (s, none) = record x { book = with_session x.book ticker s }
  mark_flat x ticker (s, some tws) = record x {
    book = count_trade (with_session x.book ticker s) tws none;
    done = x.done ++ (ticker ∷ []);
  }

  abbrev pub close_flat : Sweep F B String → String → Option (LiveSession F) → Sweep F B String
  close_flat x ticker none = x
  close_flat x ticker (some s) =
      mark_flat x ticker
        (force_close s (get_or (lookup ticker last_prices) (lit 0)) now manual_override)

  abbrev pub sight_flat : Book F B → List String → List String → String → Sweep F B String
  sight_flat b seen done ticker =
      let n = sightings ticker b.flat_sightings in
      let counted = record b { flat_sightings = insert ticker n b.flat_sightings } in
      if ltb n mismatch_sightings
      then record { book = counted; seen = seen; done = done }
      else close_flat
          (record {
            book = record b { flat_sightings = remove ticker counted.flat_sightings };
            seen = seen;
            done = done;
          })
          ticker (lookup ticker b.sessions)

  abbrev pub sweep_flat : Sweep F B String → String → Sweep F B String
  sweep_flat x ticker =
      if skipped_flat x.book held ticker
      then x
      else sight_flat x.book (ticker ∷ x.seen) x.done ticker

  unfoldable pub sweep_flats : List String → Sweep F B String → Sweep F B String
  sweep_flats [] x = x
  sweep_flats (t ∷ rest) x = sweep_flats rest (sweep_flat x t)

module _ {F B : Type 0} ⦃f : F64 F⦄ ⦃c : Chrono⦄ (api : Broker F B) where
  abbrev pub swap_if_any : List String → Book F B → Book F B
  swap_if_any [] b = b
  swap_if_any (t ∷ rest) b = swap_if_pending b

  abbrev pub flats_of :
      Sweep F B OrphanOutcome → DateTime → Map F → List (BrokerPosition F) → Sweep F B String
  flats_of x now last_prices held =
      let b = record (x.book) { orphan_sightings = retain x.seen x.book.orphan_sightings } in
      sweep_flats now last_prices held (open_tickers b) (record { book = b; seen = []; done = [] })

  abbrev pub concluded :
      Sweep F B OrphanOutcome
      → Sweep F B String
      → Book F B × Submitted (List OrphanOutcome × List String)
  concluded x y = (
    swap_if_any y.done (record (y.book) { flat_sightings = retain y.seen y.book.flat_sightings }),
    accepted (x.done, y.done),
  )

  abbrev pub reconcile_with :
      OrphanPolicy
      → DateTime
      → Bool
      → Map F
      → Book F B × Submitted (List (BrokerPosition F))
      → Book F B × Submitted (List OrphanOutcome × List String)
  reconcile_with policy now market_open last_prices (b, failed e) = (b, failed e)
  reconcile_with policy now market_open last_prices (b, accepted held) =
      let x =
        sweep_orphans api policy now market_open held (record { book = b; seen = []; done = [] }) in
      concluded x (flats_of x now last_prices held)

  unfoldable pub reconcile_live :
      Book F B
      → OrphanPolicy
      → DateTime
      → Bool
      → Map F
      → Book F B × Submitted (List OrphanOutcome × List String)
  reconcile_live b policy now market_open last_prices =
      reconcile_with policy now market_open last_prices (with_broker b (api.positions b.broker))
