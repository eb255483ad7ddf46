-- ===== src/Processor/Handler.antt =====
-- services/processor-service/internal: the type TradeHandler (consumer.go) and the middlewares
-- around one (middleware.go). A handler's effects are the change of a state.
use trade_pulse.Prelude.{
  ℕ, zero, suc, ◌≡◌, refl, ◌∙◌, ◌++◌, List, [], ◌∷◌, Option, none, some, length, get_elem?,
}
use trade_pulse.Domain.{TradeEvent}

-- `none` is a nil error.
abbrev pub Handler {ℓ κ} : Type ℓ → Type κ → Type (ℓ ⊔ κ)
Handler S E = TradeEvent → S → S × Option E

-- TradeMiddleware
abbrev pub Middleware {ℓ κ} : Type ℓ → Type κ → Type (ℓ ⊔ κ)
Middleware S E = Handler S E → Handler S E

abbrev log_all {ℓ} : {S : Type ℓ} → List (TradeEvent → S → S) → TradeEvent → S → S
log_all [] event s = s
log_all (log ∷ logs) event s = log_all logs event (log event s)

module _ {ℓ κ} {S : Type ℓ} {E : Type κ} where
  abbrev apply_at : Option (Middleware S E) → Handler S E → Handler S E
  apply_at none h = h
  apply_at (some mw) h = mw h

  -- The loop `for i := len(mws) - 1; i >= 0; i--`, with i + 1 rounds left.
  chain_from : ℕ → List (Middleware S E) → Handler S E → Handler S E
  chain_from zero mws h = h
  chain_from (suc i) mws h = chain_from i mws (apply_at (get_elem? mws i) h)

  unfoldable pub chain : Handler S E → List (Middleware S E) → Handler S E
  unfolding chain_from
  chain base mws = chain_from (length mws) mws base

  -- withLogging, for a logger that changes the state.
  unfoldable pub with_logging : (TradeEvent → S → S) → Handler S E → Handler S E
  with_logging log next event s = next event (log event s)

  chain_from-cons :
      (i : ℕ) (mw : Middleware S E) (mws : List (Middleware S E)) (h : Handler S E)
      → chain_from (suc i) (mw ∷ mws) h ≡ mw (chain_from i mws h)
  unfolding chain_from
  chain_from-cons zero mw mws h = refl
  chain_from-cons (suc i) mw mws h = chain_from-cons i mw mws (apply_at (get_elem? mws i) h)

  -- The first middleware is the outermost.
  pub chain-cons :
      (base : Handler S E) (mw : Middleware S E) (mws : List (Middleware S E))
      → chain base (mw ∷ mws) ≡ mw (chain base mws)
  unfolding chain
  chain-cons base mw mws = chain_from-cons (length mws) mw mws base

  -- Chaining two lists of middlewares at once is chaining the second around the base handler and
  -- the first around that: the first middleware of all is the outermost.
  pub chain-append :
      (base : Handler S E) (mws nws : List (Middleware S E))
      → chain base (mws ++ nws) ≡ chain (chain base nws) mws
  chain-append base [] nws = unfold chain chain_from in refl
  chain-append base (mw ∷ mws) nws =
      chain-cons base mw (mws ++ nws)
      ∙ rw (chain-append base mws nws, chain-cons (chain base nws) mw mws)

  abbrev loggers : List (TradeEvent → S → S) → List (Middleware S E)
  loggers [] = []
  loggers (log ∷ logs) = with_logging log ∷ loggers logs

  -- A chain of loggers logs in the order of the list, then runs the base handler on the same trade,
  -- and returns what that returns.
  pub chain-with_logging :
      (base : Handler S E) (logs : List (TradeEvent → S → S)) (event : TradeEvent) (s : S)
      → chain base (loggers logs) event s ≡ base event (log_all logs event s)
  unfolding with_logging
  chain-with_logging base [] event s = unfold chain chain_from in refl
  chain-with_logging base (log ∷ logs) event s =
      rw (chain-cons base (with_logging log) (loggers logs))
        (chain-with_logging base logs event (log event s))
