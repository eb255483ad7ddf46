-- ===== src/Processor/Consumer/Marks.antt =====
-- Which records the consumer marks for commit, and which trades it hands to its handler.
use mathlib.Core.List.{append-nil, append_assoc}
use trade_pulse.Prelude.{
  ℕ, ◌<◌, ◌≡◌, refl, sym, ◌∙◌, ◌++◌, Bool, true, false, List, [], ◌∷◌, Option, none, some, arith,
  if◌then◌else◌, Bool-cases, Option-cases, inl, inr,
}
use trade_pulse.Domain.{TradeEvent}
use trade_pulse.Text.{Text}
use trade_pulse.Processor.Handler.{Handler}
use trade_pulse.Processor.Consumer.{
  Record, Poll, dispatch, dispatch_all, Run, run, dispatch_decoded,
}

-- The records of the polls that came before the cancellation.
abbrev pub records_before : List Poll → List Record
records_before [] = []
records_before (p ∷ ps) = if p.cancelled then [] else p.records ++ records_before ps

module _ {ℓ κ} {S : Type ℓ} {E : Type κ} (decode : Text → Option TradeEvent)
    (handle : Handler S E) where
  dispatch_all-append :
      (xs ys : List Record) (r : Run decode handle)
      → dispatch_all decode handle (xs ++ ys) r
        ≡ dispatch_all decode handle ys (dispatch_all decode handle xs r)
  unfolding dispatch_all
  dispatch_all-append [] ys r = refl
  dispatch_all-append (x ∷ xs) ys r = dispatch_all-append xs ys (dispatch decode handle x r)

  -- The loop comes to one pass over the records before the cancellation.
  run-dispatch_all :
      (ps : List Poll) (r : Run decode handle)
      → (run decode handle ps r).0 ≡ dispatch_all decode handle (records_before ps) r
  unfolding run
  run-dispatch_all [] r = unfold dispatch_all in refl
  run-dispatch_all (p ∷ ps) r = elim (Bool-cases p.cancelled) [
    | inl e ↦ rw e (unfold dispatch_all in refl)
    | inr e ↦ rw e (
        run-dispatch_all ps (dispatch_all decode handle p.records r)
        ∙ sym (dispatch_all-append p.records (records_before ps) r))
  ]

module _ {ℓ κ} {S : Type ℓ} {E : Type κ} (decode : Text → Option TradeEvent) (handle : Handler S E)
    (verdict : TradeEvent → Option E) where
  abbrev is_settled_event : Option TradeEvent → Bool
  is_settled_event none = true
  is_settled_event (some event) = elim (verdict event) [ none ↦ true | some e ↦ false ]

  -- A record that will never decode, or whose trade the handler accepts.
  abbrev pub is_settled : Record → Bool
  is_settled rec = is_settled_event (decode rec.value)

  abbrev pub settled : List Record → List Record
  settled [] = []
  settled (rec ∷ recs) = if is_settled rec then rec ∷ settled recs else settled recs

  abbrev after_event : Option TradeEvent → S → S
  after_event none s = s
  after_event (some event) s = (handle event s).0

  -- The handler on every trade that decodes, in order.
  abbrev pub handle_all : List Record → S → S
  handle_all [] s = s
  handle_all (rec ∷ recs) s = handle_all recs (after_event (decode rec.value) s)

  module _ (decides : (event : TradeEvent) (s : S) → (handle event s).1 ≡ verdict event) where
    dispatch_marks :
        (rec : Record) (s : S) (marked : List Record)
        → dispatch decode handle rec (record { handler = s; marked = marked }) ≡ record {
          handler = after_event (decode rec.value) s;
          marked = marked ++ settled (rec ∷ []);
        }
    unfolding dispatch
    dispatch_marks rec s marked = elim (Option-cases (decode rec.value)) [
      | inl e ↦ rw (e, dispatch_decoded)
      | inr (event, e) ↦ ground (arith, e, decides event s, append-nil marked)
    ]

    settled-cons :
        (rec : Record) (recs : List Record) (marked : List Record)
        → (marked ++ settled (rec ∷ [])) ++ settled recs ≡ marked ++ settled (rec ∷ recs)
    settled-cons rec recs marked = elim (Bool-cases (is_settled rec)) [
      | inl e ↦ rw e (append_assoc marked (rec ∷ []) (settled recs))
      | inr e ↦ rw (e, append-nil marked)
    ]

    dispatch_all_marks :
        (recs : List Record) (s : S) (marked : List Record)
        → dispatch_all decode handle recs (record { handler = s; marked = marked })
          ≡ record { handler = handle_all recs s; marked = marked ++ settled recs }
    unfolding dispatch_all
    dispatch_all_marks [] s marked = rw (append-nil marked)
    dispatch_all_marks (rec ∷ recs) s marked = rw (dispatch_marks rec s marked) (
        dispatch_all_marks recs (after_event (decode rec.value) s) (marked ++ settled (rec ∷ []))
        ∙ rw (settled-cons rec recs marked))

    -- With a handler whose error depends on the trade alone, the consumer hands it every trade
    -- that decodes, in order, and marks, in order, the records that do not decode and those whose
    -- trade the handler accepts, no others; what a poll brings together with the cancellation, or
    -- later, is neither handled nor marked.
    pub run-settled :
        (ps : List Poll) (s : S) (marked : List Record)
        → (run decode handle ps (record { handler = s; marked = marked })).0 ≡ record {
          handler = handle_all (records_before ps) s;
          marked = marked ++ settled (records_before ps);
        }
    run-settled ps s marked =
        run-dispatch_all decode handle ps (record { handler = s; marked = marked })
        ∙ dispatch_all_marks (records_before ps) s marked

-- franz-go commits, for each partition, a position past every record that was marked there.
abbrev pub CoversMarks : (ℕ → List Record → ℕ) → Type 0
CoversMarks position =
    (marked : List Record) (rec : Record) → rec.offset < position rec.partition (marked ++ rec ∷ [])

module _ {ℓ κ} {S : Type ℓ} {E : Type κ} (decode : Text → Option TradeEvent) (handle : Handler S E)
    (position : ℕ → List Record → ℕ) (covers : CoversMarks position) where
  -- A trade whose handler failed stays unmarked, yet is passed over by the commit as soon as a later
  -- record of its partition is accepted: a restart does not bring it back.
  pub failed_record_passed_over :
      (failed later : Record) (event next : TradeEvent) (s : S) (marked : List Record) {e : E}
      → decode failed.value ≡ some event
      → decode later.value ≡ some next
      → (handle event s).1 ≡ some e
      → (handle next (handle event s).0).1 ≡ none
      → failed.partition ≡ later.partition
      → failed.offset < later.offset
      → let r =
          dispatch_all decode handle
            (failed ∷ later ∷ [])
            (record { handler = s; marked = marked }) in
        (r.marked ≡ marked ++ later ∷ []) × (failed.offset < position failed.partition r.marked)
  unfolding dispatch_all dispatch
  failed_record_passed_over failed later event next s marked p q f g same order =
      ground (arith, covers marked later)
