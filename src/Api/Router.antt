-- ===== src/Api/Router.antt =====
-- services/api-service/internal/server.go: the routes of NewRouter and what they answer. chi, which
-- finds the route of a request, is the parameter `find`; the middlewares, which change no answer, are
-- left out.
pub mod Paths
pub mod Serves
use trade_pulse.Prelude.{List, [], ◌∷◌, ◌++◌, map}
use trade_pulse.Text.{Text, Casing, codes}
use trade_pulse.Json.{Codec}
use trade_pulse.Redis.{Redis}
use trade_pulse.Rest.{Response, latest_trade, get_order_book, check}
use trade_pulse.Rest.Health.{LagReporter, Reported, health}

-- The handlers.
pub data Endpoint : Type 0 where
  reports_health serves_trade serves_order_book : Endpoint

pub record Route : Type 0 where
  pub method : Text
  pub pattern : Text
  pub endpoint : Endpoint

-- Router.Get
abbrev pub get : Text → Endpoint → List Route → List Route
get pattern endpoint routes =
    routes ++ record { method = codes "GET"; pattern = pattern; endpoint = endpoint } ∷ []

abbrev pub below : Text → Route → Route
below prefix r = record r { pattern = prefix ++ r.pattern }

-- Router.Route
abbrev pub route : Text → List Route → List Route → List Route
route prefix sub routes = routes ++ map (below prefix) sub

unfoldable pub new_router : List Route
new_router =
    route (codes "/api/v1")
      (get (codes "/orderbook/{symbol}") serves_order_book
        (get (codes "/trades/{symbol}") serves_trade (get (codes "/health") reports_health [])))
      []

-- What chi finds for a method and a path: the handler, with the value of {symbol}, which is empty
-- where the pattern has none.
pub data Found : Type 0 where
  found : Endpoint → Text → Found
  not_found method_not_allowed : Found

pub data Served : Type 0 where
  handled : Response → Served
  reported : Reported → Served
  refused : Found → Served

module _ {R : Type 0} (c : Codec) (t : Casing) (ops : Redis R) (lag : LagReporter) where
  abbrev pub serve_found : R → Found → Served
  serve_found r (found reports_health param) = reported (health lag (check ops r))
  serve_found r (found serves_trade param) = handled (latest_trade c t ops param r)
  serve_found r (found serves_order_book param) = handled (get_order_book c t ops param r)
  serve_found r not_found = refused not_found
  serve_found r method_not_allowed = refused method_not_allowed

  -- A request for a path by a method.
  unfoldable pub serve : (List Route → Text → Text → Found) → Text → Text → R → Served
  unfolding new_router
  serve find method path r = serve_found r (find new_router method path)
