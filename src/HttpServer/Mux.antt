-- ===== src/HttpServer/Mux.antt =====
-- shared/httpserver/server.go: the patterns that New and Mount register with a ServeMux, and the
-- liveness probe. A pattern is a plain path, as `is_plain` says: no method, host or wildcard, no slash at
-- its end, and nothing that ServeMux cleans.
pub mod Mounts
use trade_pulse.Prelude.{
  ℕ, ◌≡◌, refl, sym, ap, ◌∙◌, Bool, true, false, List, [], ◌∷◌, Option, none, some, arith, All,
  length, if◌then◌else◌, Option-cases, inl, inr, not, ◌==◌, ◌&&◌, All-mono,
}
use trade_pulse.Text.Segments.{segments}
use trade_pulse.Text.{is_empty, text_eq, Text, codes, text_eq, text_eq_iff}
use trade_pulse.Table.{Table, lookup, insert, lookup-insert, lookup-insert_self}
use trade_pulse.Json.{◌>>=◌}
use trade_pulse.HttpServer.{Checker, Answer, handle_health}
use trade_pulse.HttpServer.Checks.{Covers, any_error, handle_health-any_order}

-- `mounted` is a handler given to Mount, by a name.
pub data Handler : Type 0 where
  health_report live_report metrics_report : Handler
  mounted : Text → Handler

abbrev pub unless_there : Option Handler → Text → Handler → Table Handler → Option (Table Handler)
unless_there none pattern h mux = some (insert pattern h mux)
unless_there (some old) pattern h mux = none

-- ServeMux.Handle, which panics (`none`) on a pattern that is registered already.
unfoldable pub handle : Text → Handler → Table Handler → Option (Table Handler)
handle pattern h mux = unless_there (lookup pattern mux) pattern h mux

-- The mux of New.
unfoldable pub new_mux : Option (Table Handler)
unfolding handle
new_mux =
    handle (codes "/health") health_report []
    >>= handle (codes "/health/live") live_report
    >>= handle (codes "/metrics") metrics_report

-- Calls of Server.Mount, each with a pattern and a handler's name.
unfoldable pub mount_all : List (Text × Text) → Table Handler → Option (Table Handler)
unfolding handle
mount_all [] mux = some mux
mount_all ((pattern, name) ∷ mounts) mux = handle pattern (mounted name) mux >>= mount_all mounts

-- What a handler writes. The build of the liveness probe, a constant, is left out.
pub data Written (D : Type 0) : Type 0 where
  health : Answer D → Written D
  live : ℕ → Text → Written D
  metrics not_found : Written D
  by_mounted : Text → Written D

module _ {D : Type 0} where
  -- handleLive
  abbrev pub handle_live : Written D
  handle_live = live 200 (codes "ok")

  abbrev pub write_by : List (Checker D) → List ℕ → Option Handler → Written D
  write_by checkers order none = not_found
  write_by checkers order (some health_report) = health (handle_health checkers order)
  write_by checkers order (some live_report) = handle_live
  write_by checkers order (some metrics_report) = metrics
  write_by checkers order (some (mounted name)) = by_mounted name

  -- A request for a path, with the checkers registered and the order in which they are done.
  unfoldable pub serve : Table Handler → List (Checker D) → List ℕ → Text → Written D
  serve mux checkers order path = write_by checkers order (lookup path mux)

abbrev pub has_plain_runes : Text → Bool
has_plain_runes [] = true
has_plain_runes (c ∷ cs) =
    not (c == 9)
    && not (c == 32)
    && not (c == 37)
    && not (c == 123)
    && not (c == 125)
    && has_plain_runes cs

abbrev pub is_plain_segment : Text → Bool
is_plain_segment s =
    not (is_empty s)
    && not (text_eq s (codes "."))
    && not (text_eq s (codes ".."))
    && has_plain_runes s

abbrev pub are_plain : List Text → Bool
are_plain [] = true
are_plain (s ∷ ss) = is_plain_segment s && are_plain ss

-- A pattern that is a path and that ServeMux compares as it stands: it begins with a slash, no segment
-- is empty, "." or "..", and none has a space, a tab, a percent sign or a brace.
unfoldable pub is_plain : Text → Bool
unfolding segments text_eq
is_plain [] = false
is_plain (c ∷ cs) = c == 47 && are_plain (segments cs)
