-- ===== src/Api/Router/Paths.antt =====
-- Which routes of services/api-service/internal/server.go admit a path, as chi documents it: a
-- pattern and a path are compared segment by segment, and {symbol} takes one whole segment.
use trade_pulse.Prelude.{
  not, ◌&&◌, ◌||◌, ◌≡◌, refl, ap, ◌∙◌, Bool, true, false, List, [], ◌∷◌, ◌++◌, Option, none, some,
  ◌==◌, if◌then◌else◌,
}
use trade_pulse.Text.{Text, codes, text_eq, is_empty}
use trade_pulse.Text.Segments.{has_slash, segments, after, segments-after, one_segment}
use trade_pulse.Api.Router.{Route, serves_order_book, serves_trade, Found, found, new_router}

abbrev is_placeholder : Text → Bool
is_placeholder [] = false
is_placeholder (c ∷ cs) = c == 123

abbrev param_of : Text → Option Text → Option Text
param_of s none = none
param_of s (some p) = if is_empty s then none else some s

-- The parameter, where the segments of a path fit those of a pattern.
abbrev fit : List Text → List Text → Option Text
fit [] [] = some []
fit [] (s ∷ ss) = none
fit (p ∷ ps) [] = none
fit (p ∷ ps) (s ∷ ss) =
    let rest = fit ps ss in
    if is_placeholder p then param_of s rest else (if text_eq p s then rest else none)

abbrev with_param : Route → Option Text → List (Route × Text) → List (Route × Text)
with_param r none others = others
with_param r (some p) others = (r, p) ∷ others

-- The routes that admit the segments of a path, with the parameter that each reads from them.
abbrev admitting_segments : List Route → List Text → List (Route × Text)
admitting_segments [] path = []
admitting_segments (r ∷ rs) path =
    with_param r (fit (segments r.pattern) path) (admitting_segments rs path)

unfoldable pub admitting : List Route → Text → List (Route × Text)
admitting routes path = admitting_segments routes (segments path)

abbrev has_no_special : Text → Bool
has_no_special [] = true
has_no_special (c ∷ cs) =
    not (c == 42) && not (c == 58) && not (c == 123) && not (c == 125) && has_no_special cs

-- What follows the brace of a placeholder: a name, and a brace that ends the segment.
abbrev is_name : Text → Bool
is_name [] = false
is_name (c ∷ []) = c == 125
is_name (c ∷ d ∷ cs) =
    not (c == 42) && not (c == 58) && not (c == 123) && not (c == 125) && is_name (d ∷ cs)

abbrev all_literal : List Text → Bool
all_literal [] = true
all_literal (s ∷ ss) = has_no_special s && all_literal ss

abbrev names : Text → Bool
names [] = false
names (c ∷ cs) = c == 123 && is_name cs

-- At most one segment is a placeholder, for the whole of it, without a regular expression or a prefix
-- or suffix, and the others are literal.
abbrev is_simple : List Text → Bool
is_simple [] = true
is_simple (s ∷ ss) = (names s && all_literal ss) || (has_no_special s && is_simple ss)

unfoldable pub are_simple : List Route → Bool
unfolding segments
are_simple [] = true
are_simple (r ∷ rs) = is_simple (segments r.pattern) && are_simple rs

-- chi sends a request for a path that one route admits, by the route's method, to its handler, where
-- the patterns are simple.
pub record IsRouter (find : List Route → Text → Text → Found) : Type 0 where
  pub only :
      (routes : List Route) (path : Text) (r : Route) (param : Text)
      → are_simple routes ≡ true
      → admitting routes path ≡ (r, param) ∷ []
      → find routes r.method path ≡ found r.endpoint param

-- A path below /orderbook/ whose rest is not empty and has no slash is admitted by that route
-- alone, which reads the rest as {symbol}.
pub order_book_path :
    (param : Text)
    → has_slash param ≡ false
    → is_empty param ≡ false
    → admitting new_router (codes "/api/v1/orderbook/" ++ param)
      ≡ (
        record {
          method = codes "GET";
          pattern = codes "/api/v1/orderbook/{symbol}";
          endpoint = serves_order_book;
        },
        param,
      )
        ∷ []
unfolding admitting new_router segments text_eq
order_book_path param whole full =
    ap (admitting_segments new_router) (
      segments-after (codes "/api/v1/orderbook/") param
      ∙ ap (after (codes "/api/v1/orderbook/")) (one_segment param whole))
    ∙ rw full refl

-- The same for a path below /trades/.
pub trade_path :
    (param : Text)
    → has_slash param ≡ false
    → is_empty param ≡ false
    → admitting new_router (codes "/api/v1/trades/" ++ param)
      ≡ (
        record {
          method = codes "GET";
          pattern = codes "/api/v1/trades/{symbol}";
          endpoint = serves_trade;
        },
        param,
      )
        ∷ []
unfolding admitting new_router segments text_eq
trade_path param whole full =
    ap (admitting_segments new_router) (
      segments-after (codes "/api/v1/trades/") param
      ∙ ap (after (codes "/api/v1/trades/")) (one_segment param whole))
    ∙ rw full refl

pub new_router_simple : are_simple new_router ≡ true
unfolding are_simple new_router segments
new_router_simple = refl
