-- ===== src/Book/Reconcile.antt =====
-- crates/data_feed/src/book.rs: what the book does where the broker and an engine disagree on what is
-- held: failed entries, orphans, and positions that the broker does not hold.
use Prim.Native.String.{◌++◌ as append_str}
use text.Mathlib.Text.{◌==◌}
use galactic_trading_firm.Prelude.{
  ℕ, ◌+◌, ◌*◌, ◌%◌, ◌^◌, Option, none, some, Bool, true, false, List, [], ◌∷◌, ◌++◌, String,
  if◌then◌else◌, leb,
}
use galactic_trading_firm.Prelude.Int.{pos_part}
use galactic_trading_firm.Prelude.Maps.{lookup, insert, remove}
use galactic_trading_firm.F64.{F64}
use galactic_trading_firm.Time.{DateTime}
use galactic_trading_firm.Scores.{TimescaleScores}
use galactic_trading_firm.Session.{SessionConfig}
use galactic_trading_firm.Broker.{working, Submitted, accepted, failed, BrokerPosition}
use galactic_trading_firm.Broker.Lookup.{find_held}
use galactic_trading_firm.Broker.Trait.{Broker, OrphanClose, closed_out, left_working, show_error}
use galactic_trading_firm.Broker.Wait.{nanos_per_milli}
use galactic_trading_firm.Live.{
  LiveSession, take_entry_stash, undo_open, suppress_entries_until, adopt_broker_position,
}
use galactic_trading_firm.Book.{
  Unreconciled, Book, contains_key, is_primary, in_position, with_session,
}
use galactic_trading_firm.Book.Pending.{with_broker}

-- `ORDER_FAIL_COOLDOWN_MS` and `MISMATCH_SIGHTINGS`
abbrev pub order_fail_cooldown_ms : ℕ
order_fail_cooldown_ms = 5 * 60 * 1000

abbrev pub mismatch_sightings : ℕ
mismatch_sightings = 2

pub data OrphanPolicy : Type 0 where
  adopt_policy close_policy ignore_policy : OrphanPolicy

pub data OrphanAction : Type 0 where
  was_adopted was_closed close_working was_ignored : OrphanAction
  close_failed : (why : String) → OrphanAction

pub record OrphanOutcome : Type 0 where
  pub ticker : String
  pub action : OrphanAction

abbrev pub failed_order_reason : Option String → String
failed_order_reason none = "adopted:failed-order"
failed_order_reason (some r) =
    if r == ""
    then "adopted:failed-order"
    else append_str "adopted:failed-order (" (append_str r ")")

-- `entry_cooldown_ms.max(ORDER_FAIL_COOLDOWN_MS)`, which is at least the second
abbrev pub cooldown_of : {F : Type 0} → SessionConfig F → ℕ
cooldown_of sc =
    if leb order_fail_cooldown_ms (pos_part sc.entry_cooldown_ms)
    then pos_part sc.entry_cooldown_ms
    else order_fail_cooldown_ms

module _ {F : Type 0} where
  abbrev pub is_known : Option (LiveSession F) → Bool
  is_known none = false
  is_known (some s) = in_position s

module _ {F B : Type 0} ⦃f : F64 F⦄ where
  abbrev pub adopted : Book F B → String → Option (LiveSession F) → Book F B × Bool
  adopted b ticker none = (b, false)
  adopted b ticker (some s) = (with_session b ticker s, true)

  abbrev pub adopt_with :
      Book F B
      → BrokerPosition F
      → DateTime
      → Option (TimescaleScores F)
      → String
      → Option (LiveSession F)
      → Book F B × Bool
  adopt_with b p now scores reason none = (b, false)
  adopt_with b p now scores reason (some s) =
      adopted b p.ticker
        (adopt_broker_position s p.ticker p.direction p.quantity p.entry_price now scores reason)

  unfoldable pub adopt :
      Book F B → BrokerPosition F → DateTime → Option (TimescaleScores F) → String → Book F B × Bool
  adopt b p now scores reason = adopt_with b p now scores reason (lookup p.ticker b.sessions)

module _ {F B : Type 0} ⦃f : F64 F⦄ (api : Broker F B) where
  abbrev pub adopt_found :
      Book F B → DateTime → Unreconciled F → Option (BrokerPosition F) → Book F B
  adopt_found b now u none = b
  adopt_found b now u (some p) = (adopt b p now u.scores (failed_order_reason u.reason)).0

  abbrev pub on_positions :
      String → DateTime → Unreconciled F → Book F B × Submitted (List (BrokerPosition F)) → Book F B
  on_positions ticker now u (b, accepted list) = adopt_found b now u (find_held ticker list)
  on_positions ticker now u (b, failed e) = record b {
    unreconciled = insert ticker u b.unreconciled;
  }

  abbrev pub reconcile_if : Book F B → String → DateTime → Option (Unreconciled F) → Book F B
  reconcile_if b ticker now none = b
  reconcile_if b ticker now (some u) =
      on_positions ticker now (record u { attempts = (u.attempts + 1) % 2 ^ 32 })
        (with_broker (record b { unreconciled = remove ticker b.unreconciled })
          (api.positions b.broker))

  unfoldable pub reconcile_ticker : Book F B → String → DateTime → Book F B
  reconcile_ticker b ticker now = reconcile_if b ticker now (lookup ticker b.unreconciled)

  -- the session rolled back, and the scores and the reason of the entry
  abbrev pub rolled_back :
      LiveSession F → DateTime → LiveSession F × (Option (TimescaleScores F) × Option String)
  rolled_back s until =
      let (taken, stash) = take_entry_stash s in
      (suppress_entries_until (undo_open taken) until, stash)

  abbrev pub roll_back :
      Book F B
      → String
      → DateTime
      → Option (LiveSession F)
      → Book F B × (Option (TimescaleScores F) × Option String)
  roll_back b ticker until none = (b, (none, none))
  roll_back b ticker until (some s) =
      let (s', stash) = rolled_back s until in (with_session b ticker s', stash)

  abbrev pub note_unreconciled :
      String → DateTime → Book F B × (Option (TimescaleScores F) × Option String) → Book F B
  note_unreconciled ticker bar_ts (b, (scores, reason)) =
      if is_primary b.spec
      then reconcile_ticker
          (record b {
            unreconciled =
                insert ticker
                  (record { scores = scores; reason = reason; since = bar_ts; attempts = 0 })
                  b.unreconciled;
          })
          ticker bar_ts
      else b

  unfoldable pub handle_failed_entry : Book F B → String → DateTime → Book F B
  handle_failed_entry b ticker bar_ts = note_unreconciled ticker bar_ts (
      roll_back b ticker (bar_ts + cooldown_of b.config.session * nanos_per_milli)
        (lookup ticker b.sessions))

  abbrev pub orphan_action : Submitted (OrphanClose F) → OrphanAction
  orphan_action (accepted (closed_out x)) = was_closed
  orphan_action (accepted (left_working order_id price)) = close_working
  orphan_action (failed (working order_id)) = close_working
  orphan_action (failed e) = close_failed (show_error e)

  abbrev pub after_close : Book F B × Submitted (OrphanClose F) → Book F B × OrphanAction
  after_close (b, r) = (b, orphan_action r)

  abbrev pub after_adopt : Book F B × Bool → Book F B × OrphanAction
  after_adopt (b, true) = (b, was_adopted)
  after_adopt (b, false) = (b, close_failed "adoption refused")

  abbrev pub close_the_orphan : Book F B → BrokerPosition F → Bool → Book F B × OrphanAction
  close_the_orphan b p market_open =
      after_close (with_broker b (api.close_orphan p market_open b.broker))

  -- `market_open` is `is_regular_hours(now)`
  unfoldable pub handle_orphan :
      Book F B
      → BrokerPosition F
      → OrphanPolicy
      → DateTime
      → Bool
      → String
      → Book F B × OrphanAction
  handle_orphan b p ignore_policy now market_open context = (b, was_ignored)
  handle_orphan b p close_policy now market_open context = close_the_orphan b p market_open
  handle_orphan b p adopt_policy now market_open context =
      if contains_key p.ticker b.sessions
      then after_adopt (adopt b p now none (append_str "adopted:orphan-at-" context))
      else close_the_orphan b p market_open

  abbrev pub reconcile_one :
      Book F B → BrokerPosition F → OrphanPolicy → DateTime → Bool → Book F B × List OrphanOutcome
  reconcile_one b p policy now market_open =
      if is_known (lookup p.ticker b.sessions)
      then (b, [])
      else let (b', action) = handle_orphan b p policy now market_open "start" in
        (b', record { ticker = p.ticker; action = action } ∷ [])

  unfoldable pub reconcile_each :
      List (BrokerPosition F)
      → Book F B
      → OrphanPolicy
      → DateTime
      → Bool
      → Book F B × List OrphanOutcome
  reconcile_each [] b policy now market_open = (b, [])
  reconcile_each (p ∷ rest) b policy now market_open =
      let (b1, one) = reconcile_one b p policy now market_open in
      let (b2, more) = reconcile_each rest b1 policy now market_open in (b2, one ++ more)

  abbrev pub reconcile_held :
      OrphanPolicy
      → DateTime
      → Bool
      → Book F B × Submitted (List (BrokerPosition F))
      → Book F B × Submitted (List OrphanOutcome)
  reconcile_held policy now market_open (b, failed e) = (b, failed e)
  reconcile_held policy now market_open (b, accepted list) =
      let (b', outcomes) = reconcile_each list b policy now market_open in (b', accepted outcomes)

  unfoldable pub reconcile_orphans :
      Book F B → OrphanPolicy → DateTime → Bool → Book F B × Submitted (List OrphanOutcome)
  reconcile_orphans b policy now market_open =
      reconcile_held policy now market_open (with_broker b (api.positions b.broker))
