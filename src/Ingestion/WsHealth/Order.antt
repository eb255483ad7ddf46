-- ===== src/Ingestion/WsHealth/Order.antt =====
-- The report on the connections does not depend on the order in which the map is read.
use mathlib.Core.List.Permᴰ
use mathlib.Core.List.{Permᴰ}
use mathlib.Core.Path.{subst₂}
use trade_pulse.Prelude.{
  ◌≡◌, refl, sym, subst, ap, ◌∙◌, inl, inr, Bool, true, false, List, [], ◌∷◌, Option, none, some,
  arith, All, Bool-cases, if◌then◌else◌,
}
use trade_pulse.Text.{Text, text_eq, text_eq_iff}
use trade_pulse.Table.{insert}
use trade_pulse.Sorting.{sort_by, insert_by, IsStrict, Separate, Apart, sort_by-perm}
use trade_pulse.Ingestion.WsHealth.{
  WsHealth, set_all, new_ws_health, set_connected, text_lt, down, report, check,
}

text_lt_asymmetric : (a b : Text) → text_lt a b ≡ true → text_lt b a ≡ false
text_lt_asymmetric [] (d ∷ b) h = refl
text_lt_asymmetric [] [] h = refl
text_lt_asymmetric (c ∷ a) [] h = ground arith
text_lt_asymmetric (c ∷ a) (d ∷ b) h = ground (arith, text_lt_asymmetric a b)

text_lt_transitive : (a b c : Text) → text_lt a b ≡ true → text_lt b c ≡ true → text_lt a c ≡ true
text_lt_transitive [] (y ∷ b) (z ∷ c) h k = refl
text_lt_transitive [] [] c h k = ground arith
text_lt_transitive a (y ∷ b) [] h k = ground arith
text_lt_transitive (x ∷ a) [] c h k = ground arith
text_lt_transitive (x ∷ a) (y ∷ b) (z ∷ c) h k = ground (arith, text_lt_transitive a b c)

text_lt-IsStrict : IsStrict text_lt
text_lt-IsStrict = record { asymmetric = text_lt_asymmetric; transitive = text_lt_transitive }

text_lt_total : (a b : Text) → text_eq a b ≡ false → Apart text_lt a b
unfolding text_eq
text_lt_total [] [] h = ground arith
text_lt_total [] (d ∷ b) h = inl refl
text_lt_total (c ∷ a) [] h = inr refl
text_lt_total (c ∷ a) (d ∷ b) h = ground (arith, text_lt_total a b)

-- No key twice.
abbrev pub DistinctKeys : WsHealth → Type 0
DistinctKeys [] = Unit
DistinctKeys ((s, b) ∷ h) = All (λ x. text_eq s x.0 ≡ false) h × DistinctKeys h

insert-All :
    (s k : Text) (b : Bool) (h : WsHealth)
    → text_eq s k ≡ false
    → All (λ x. text_eq s x.0 ≡ false) h
    → All (λ x. text_eq s x.0 ≡ false) (insert k b h)
unfolding insert
insert-All s k b [] e a = (e, tt)
insert-All s k b ((t, c) ∷ h) e (f, a) = elim (Bool-cases (text_eq t k)) [
  | inl m ↦ rw m (e, a)
  | inr m ↦ rw m (f, insert-All s k b h e a)
]

insert-DistinctKeys :
    (k : Text) (b : Bool) (h : WsHealth) → DistinctKeys h → DistinctKeys (insert k b h)
unfolding insert
insert-DistinctKeys k b [] d = (tt, tt)
insert-DistinctKeys k b ((s, c) ∷ h) (a, d) = elim (Bool-cases (text_eq s k)) [
  | inl m ↦ rw m (subst (λ x. All (λ y. text_eq x y.0 ≡ false) h) ((text_eq_iff s k).0 m) a, d)
  | inr m ↦ rw m (insert-All s k b h m a, insert-DistinctKeys k b h d)
]

down-All :
    (s : Text) (h : WsHealth) → All (λ x. text_eq s x.0 ≡ false) h → All (Apart text_lt s) (down h)
unfolding down
down-All s [] a = tt
down-All s ((t, true) ∷ h) (e, a) = down-All s h a
down-All s ((t, false) ∷ h) (e, a) = (text_lt_total s t e, down-All s h a)

down-Separate : (h : WsHealth) → DistinctKeys h → Separate text_lt (down h)
unfolding down
down-Separate [] d = tt
down-Separate ((s, true) ∷ h) (a, d) = down-Separate h d
down-Separate ((s, false) ∷ h) (a, d) = (down-All s h a, down-Separate h d)

abbrev added : Text × Bool → List Text → List Text
added (s, connected) rest = if connected then rest else s ∷ rest

added-perm : (x : Text × Bool) {l m : List Text} → Permᴰ l m → Permᴰ (added x l) (added x m)
added-perm (s, true) p = p
added-perm (s, false) p = Permᴰ.cons refl p

added-swap : (x y : Text × Bool) (l : List Text) → Permᴰ (added x (added y l)) (added y (added x l))
added-swap (s, true) y l = Permᴰ.refl (added y l)
added-swap (s, false) (t, true) l = Permᴰ.refl (s ∷ l)
added-swap (s, false) (t, false) l = Permᴰ.swap refl refl

down-perm : {h g : WsHealth} → Permᴰ h g → Permᴰ (down h) (down g)
unfolding down
down-perm Permᴰ.nil = Permᴰ.nil
down-perm (Permᴰ.cons {a} {b = b} {l₁ = l} {l₂ = m} e p) =
    subst (λ x. Permᴰ (added a (down l)) (added x (down m))) e (added-perm a (down-perm p))
down-perm (Permᴰ.swap {a} {b} {l = l} e f) =
    subst₂ (λ x y. Permᴰ (added a (added b (down l))) (added x (added y (down l)))) f e
      (added-swap a b (down l))
down-perm (Permᴰ.trans p q) = Permᴰ.trans (down-perm p) (down-perm q)

-- The calls of setConnected, in the order of the lock.
abbrev pub set_calls : List (Text × Bool) → WsHealth → WsHealth
set_calls [] h = h
set_calls ((s, connected) ∷ calls) h = set_calls calls (set_connected s connected h)

set_all-DistinctKeys :
    (symbols : List Text) (h : WsHealth) → DistinctKeys h → DistinctKeys (set_all symbols h)
set_all-DistinctKeys [] h d = d
set_all-DistinctKeys (s ∷ symbols) h d =
    set_all-DistinctKeys symbols (insert s false h) (insert-DistinctKeys s false h d)

set_calls-DistinctKeys :
    (calls : List (Text × Bool)) (h : WsHealth) → DistinctKeys h → DistinctKeys (set_calls calls h)
unfolding set_connected
set_calls-DistinctKeys [] h d = d
set_calls-DistinctKeys ((s, b) ∷ calls) h d =
    set_calls-DistinctKeys calls (insert s b h) (insert-DistinctKeys s b h d)

abbrev reported : List Text → Option (List Text)
reported [] = none
reported (s ∷ l) = some (s ∷ l)

insert_reported :
    (s : Text) (l : List Text) → reported (insert_by text_lt s l) ≡ some (insert_by text_lt s l)
unfolding insert_by
insert_reported s [] = refl
insert_reported s (x ∷ l) = elim (Bool-cases (text_lt x s)) [
  | inl e ↦ rw e refl
  | inr e ↦ rw e refl
]

report_sorted : (l : List Text) → report l ≡ reported (sort_by text_lt l)
unfolding sort_by
report_sorted [] = refl
report_sorted (s ∷ l) = sym (insert_reported s (sort_by text_lt l))

-- Whatever calls of setConnected have been made, the health check answers the same in every order in
-- which the map of the connections is read.
pub check-perm :
    (symbols : List Text) (calls : List (Text × Bool)) (read : WsHealth)
    → Permᴰ (set_calls calls (new_ws_health symbols)) read
    → check (set_calls calls (new_ws_health symbols)) ≡ check read
unfolding check new_ws_health
check-perm symbols calls read p =
    let h = set_calls calls (new_ws_health symbols) in
    let distinct =
      set_calls-DistinctKeys calls (new_ws_health symbols) (set_all-DistinctKeys symbols [] tt) in
    report_sorted (down h)
    ∙ ap reported (sort_by-perm text_lt text_lt-IsStrict (down-perm p) (down-Separate h distinct))
    ∙ sym (report_sorted (down read))
