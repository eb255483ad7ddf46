-- ===== src/HttpServer/Mux/Mounts.antt =====
-- What the ops server of shared/httpserver/server.go answers once handlers are mounted on it.
use trade_pulse.Prelude.{
  ℕ, ◌≡◌, sym, ap, ◌∙◌, true, List, [], ◌∷◌, some, arith, All, length, if◌then◌else◌, Option-cases,
  inl, inr, All-mono,
}
use trade_pulse.Text.{Text, codes, text_eq, text_eq_iff}
use trade_pulse.Table.{Table, lookup, insert, lookup-insert, lookup-insert_self}
use trade_pulse.Json.{◌>>=◌}
use trade_pulse.HttpServer.{Checker, Answer, handle_health}
use trade_pulse.HttpServer.Checks.{Covers, any_error, handle_health-any_order}
use trade_pulse.HttpServer.Mux.{
  Handler, health_report, live_report, mounted, handle, new_mux, mount_all, health, live,
  by_mounted, write_by, serve, is_plain,
}

-- What a pattern is registered to stays so.
handle-keeps :
    (pattern path : Text) (h old : Handler) (mux more : Table Handler)
    → handle pattern h mux ≡ some more
    → lookup path mux ≡ some old
    → lookup path more ≡ some old
unfolding handle
handle-keeps pattern path h old mux more e there = elim (Option-cases (lookup pattern mux)) [
  | inl free ↦ ground (arith, lookup-insert pattern path h mux, text_eq_iff pattern path)
  | inr (x, taken) ↦ ground arith
]

handle-adds :
    (pattern : Text) (h : Handler) (mux more : Table Handler)
    → handle pattern h mux ≡ some more
    → lookup pattern more ≡ some h
unfolding handle
handle-adds pattern h mux more e = elim (Option-cases (lookup pattern mux)) [
  | inl free ↦ ground (arith, lookup-insert_self pattern h mux)
  | inr (x, taken) ↦ ground arith
]

mount_all-keeps :
    (mounts : List (Text × Text)) (path : Text) (old : Handler) (mux more : Table Handler)
    → mount_all mounts mux ≡ some more
    → lookup path mux ≡ some old
    → lookup path more ≡ some old
unfolding mount_all
mount_all-keeps [] path old mux more e there = ground arith
mount_all-keeps ((p, n) ∷ mounts) path old mux more e there =
    elim (Option-cases (handle p (mounted n) mux)) [
      | inl f ↦ ground arith
      | inr (next, f) ↦
          mount_all-keeps mounts path old next more (sym (ap (λ o. o >>= mount_all mounts) f) ∙ e)
            (handle-keeps p path (mounted n) old mux next f there)
    ]

mount_all-adds :
    (mounts : List (Text × Text)) (mux more : Table Handler)
    → mount_all mounts mux ≡ some more
    → All (λ m. lookup m.0 more ≡ some (mounted m.1)) mounts
unfolding mount_all
mount_all-adds [] mux more e = tt
mount_all-adds ((p, n) ∷ mounts) mux more e = elim (Option-cases (handle p (mounted n) mux)) [
  | inl f ↦ absurd (ground arith)
  | inr (next, f) ↦ (
    mount_all-keeps mounts p (mounted n) next more (sym (ap (λ o. o >>= mount_all mounts) f) ∙ e)
        (handle-adds p (mounted n) mux next f),
    mount_all-adds mounts next more (sym (ap (λ o. o >>= mount_all mounts) f) ∙ e),
  )
]

new_mux-registers :
    (mux : Table Handler)
    → new_mux ≡ some mux
    → (lookup (codes "/health") mux ≡ some health_report)
      × (lookup (codes "/health/live") mux ≡ some live_report)
unfolding new_mux lookup insert text_eq
new_mux-registers mux e = (
  ap (λ o. o >>= lookup (codes "/health")) (sym e),
  ap (λ o. o >>= lookup (codes "/health/live")) (sym e),
)

-- Whatever plain patterns are mounted on a new ops server, if none panics, and in whatever order
-- the concurrent checks, all of them, store their results: /health answers the same, with 503
-- exactly when some check fails, else 200; /health/live answers 200 whatever the checks say; and
-- each mounted pattern goes to its handler.
pub serve-mounts :
    {D : Type 0} (mounts : List (Text × Text)) (new mux : Table Handler)
    (checkers : List (Checker D)) (order other : List ℕ)
    → All (λ m. is_plain m.0 ≡ true) mounts
    → new_mux ≡ some new
    → mount_all mounts new ≡ some mux
    → Covers (length checkers) order
    → Covers (length checkers) other
    → ((answer : Answer D) × (serve mux checkers order (codes "/health") ≡ health answer)
        × (serve mux checkers other (codes "/health") ≡ health answer)
        × (answer.code ≡ (if any_error checkers then 503 else 200)))
      × (serve mux checkers order (codes "/health/live") ≡ live 200 (codes "ok"))
      × All (λ m. serve mux checkers order m.0 ≡ by_mounted m.1) mounts
unfolding serve
serve-mounts mounts new mux checkers order other plain is_new done h k =
    let (at_health, at_live) = new_mux-registers new is_new in
    let (same, code) = handle_health-any_order checkers order other h k in
    let there = mount_all-keeps mounts (codes "/health") health_report new mux done at_health in
    (
      (
        handle_health checkers order,
        ap (write_by checkers order) there,
        ap (write_by checkers other) there ∙ ap health (sym same),
        code,
      ),
      ap (write_by checkers order)
          (mount_all-keeps mounts (codes "/health/live") live_report new mux done at_live),
      All-mono (λ m. lookup m.0 mux ≡ some (mounted m.1))
          (λ m. serve mux checkers order m.0 ≡ by_mounted m.1)
          (λ m e. ap (write_by checkers order) e) mounts (mount_all-adds mounts new mux done),
    )
