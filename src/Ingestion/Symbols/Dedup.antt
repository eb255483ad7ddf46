-- ===== src/Ingestion/Symbols/Dedup.antt =====
-- The symbols that are streamed: the normalized ones, each once, where it is first met.
use mathlib.Core.List.{append_assoc, append-nil}
use trade_pulse.Prelude.{
  ◌≡◌, refl, sym, ap, ◌∙◌, inl, inr, ◌++◌, Bool, true, false, not, List, [], ◌∷◌, map, arith,
  is_some, if◌then◌else◌, Bool-cases, All,
}
use trade_pulse.Text.{Text, Casing, is_empty, text_eq, text_eq_iff}
use trade_pulse.Text.Laws.{IsCasing, lower-trim_idem}
use trade_pulse.Table.{Table, lookup, insert, lookup-insert}
use trade_pulse.Ingestion.Symbols.{Scan, normalize_symbol, visit, scan, normalize_symbols}

-- The list without the entries that fail a test.
abbrev pub keep : (Text → Bool) → List Text → List Text
keep p [] = []
keep p (x ∷ xs) = if p x then x ∷ keep p xs else keep p xs

abbrev pub differs : Text → Text → Bool
differs x y = not (text_eq x y)

-- The first of each group of equal texts.
abbrev pub firsts : List Text → List Text
firsts [] = []
firsts (x ∷ xs) = x ∷ keep (differs x) (firsts xs)

abbrev pub is_set : Text → Bool
is_set x = not (is_empty x)

abbrev unseen : Table (Unit {0}) → Text → Bool
unseen seen x = not (is_some (lookup x seen))

keep-keep :
    (p q r : Text → Bool) (xs : List Text)
    → ((x : Text) → q x ≡ true → p x ≡ r x)
    → ((x : Text) → q x ≡ false → r x ≡ false)
    → keep p (keep q xs) ≡ keep r xs
keep-keep p q r [] h k = refl
keep-keep p q r (x ∷ xs) h k = ground (arith, h x, k x, keep-keep p q r xs h k)

unseen-insert :
    (seen : Table (Unit {0})) (x y : Text)
    → differs x y ≡ true
    → unseen seen y ≡ unseen (insert x tt seen) y
unseen-insert seen x y h = ground (arith, lookup-insert x y tt seen)

seen-insert :
    (seen : Table (Unit {0})) (x y : Text)
    → differs x y ≡ false
    → unseen (insert x tt seen) y ≡ false
seen-insert seen x y h = ground (arith, lookup-insert x y tt seen)

unseen_eq :
    (seen : Table (Unit {0})) (x y : Text)
    → is_some (lookup x seen) ≡ true
    → differs x y ≡ false
    → unseen seen y ≡ false
unseen_eq seen x y h d = rw (← (text_eq_iff x y).0 (ground arith), h)

visit_empty : (y : Text) (s : Scan) → is_empty y ≡ true → visit y s ≡ s
unfolding visit
visit_empty y s e = rw e

visit_seen :
    (y : Text) (s : Scan) → is_empty y ≡ false → is_some (lookup y s.seen) ≡ true → visit y s ≡ s
unfolding visit
visit_seen y s e f = rw (e, f)

visit_new :
    (y : Text) (s : Scan)
    → is_empty y ≡ false
    → is_some (lookup y s.seen) ≡ false
    → visit y s ≡ record { seen = insert y tt s.seen; out = s.out ++ y ∷ [] }
unfolding visit
visit_new y s e f = rw (e, f)

scan-firsts :
    (t : Casing) (xs : List Text) (s : Scan)
    → (scan t xs s).out
      ≡ s.out ++ keep (unseen s.seen) (firsts (keep is_set (map (normalize_symbol t) xs)))
unfolding scan
scan-firsts t [] s = sym (append-nil s.out)
scan-firsts t (x ∷ xs) s =
    let y = normalize_symbol t x in
    let rest = firsts (keep is_set (map (normalize_symbol t) xs)) in
    let scanned = scan-firsts t xs in
    elim (Bool-cases (is_empty y)) [
      | inl e ↦ rw (scan, visit_empty y s e, e) (scanned s)
      | inr e ↦ elim (Bool-cases (is_some (lookup y s.seen))) [
        | inl f ↦
            rw (scan, visit_seen y s e f, e, f)
              (scanned s
                ∙ ap (◌++◌ s.out) (
                    sym (
                      keep-keep (unseen s.seen) (differs y) (unseen s.seen) rest (λ z h. refl)
                        (λ z h. unseen_eq s.seen y z f h))))
        | inr f ↦
            ap (λ u. (scan t xs u).out) (visit_new y s e f)
            ∙ rw (e, f)
                (scanned (record { seen = insert y tt s.seen; out = s.out ++ y ∷ [] })
                  ∙ append_assoc s.out (y ∷ []) (keep (unseen (insert y tt s.seen)) rest)
                  ∙ ap (λ l. s.out ++ (y ∷ l))
                      (sym (
                        keep-keep (unseen s.seen) (differs y) (unseen (insert y tt s.seen)) rest
                          (λ z h. unseen-insert s.seen y z h) (λ z h. seen-insert s.seen y z h))))
      ]
    ]

keep_all : (xs : List Text) → keep (unseen []) xs ≡ xs
unfolding lookup
keep_all [] = refl
keep_all (x ∷ xs) = ap (◌∷◌ x) (keep_all xs)

-- The symbols kept are the configured ones, trimmed and lowercased, without the empty ones, each at
-- its first occurrence.
pub normalize_symbols-firsts :
    (t : Casing) (symbols : List Text)
    → normalize_symbols t symbols ≡ firsts (keep is_set (map (normalize_symbol t) symbols))
unfolding normalize_symbols
normalize_symbols-firsts t symbols =
    scan-firsts t symbols (record { seen = []; out = [] }) ∙ keep_all _

-- Nothing is empty, nothing occurs twice, and normalizing changes nothing.
abbrev pub AreNormal : Casing → List Text → Type 0
AreNormal t [] = Unit
AreNormal t (x ∷ xs) =
    (is_set x ≡ true)
    × (normalize_symbol t x ≡ x)
    × All (λ y. differs x y ≡ true) xs
    × AreNormal t xs

keep-All : (P : Text → Type 0) (p : Text → Bool) (xs : List Text) → All P xs → All P (keep p xs)
keep-All P p [] h = tt
keep-All P p (x ∷ xs) (h, hs) = elim (Bool-cases (p x)) [
  | inl e ↦ rw e (h, keep-All P p xs hs)
  | inr e ↦ rw e (keep-All P p xs hs)
]

keep_passes : (p : Text → Bool) (xs : List Text) → All (λ x. p x ≡ true) (keep p xs)
keep_passes p [] = tt
keep_passes p (x ∷ xs) = elim (Bool-cases (p x)) [
  | inl e ↦ rw e (e, keep_passes p xs)
  | inr e ↦ rw e (keep_passes p xs)
]

keep-AreNormal :
    (t : Casing) (p : Text → Bool) (xs : List Text) → AreNormal t xs → AreNormal t (keep p xs)
keep-AreNormal t p [] h = tt
keep-AreNormal t p (x ∷ xs) (a, b, c, d) = elim (Bool-cases (p x)) [
  | inl e ↦ rw e (a, b, keep-All _ p xs c, keep-AreNormal t p xs d)
  | inr e ↦ rw e (keep-AreNormal t p xs d)
]

module _ (t : Casing) (h : IsCasing t) where
  firsts-AreNormal :
      (xs : List Text) → AreNormal t (firsts (keep is_set (map (normalize_symbol t) xs)))
  unfolding normalize_symbol
  firsts-AreNormal [] = tt
  firsts-AreNormal (x ∷ xs) =
      let y = normalize_symbol t x in
      let rest = firsts (keep is_set (map (normalize_symbol t) xs)) in
      let ih = firsts-AreNormal xs in
      elim (Bool-cases (is_set y)) [
        | inl e ↦ rw e (
          e,
          lower-trim_idem t h x,
          keep_passes (differs y) rest,
          keep-AreNormal t (differs y) rest ih,
        )
        | inr e ↦ rw e ih
      ]

  keep_fixed : (p : Text → Bool) (xs : List Text) → All (λ x. p x ≡ true) xs → keep p xs ≡ xs
  keep_fixed p [] h = refl
  keep_fixed p (x ∷ xs) (a, b) = rw a (ap (◌∷◌ x) (keep_fixed p xs b))

  firsts_fixed :
      (xs : List Text) → AreNormal t xs → firsts (keep is_set (map (normalize_symbol t) xs)) ≡ xs
  firsts_fixed [] h = refl
  firsts_fixed (x ∷ xs) (a, b, c, d) =
      rw (b, a) (ap (◌∷◌ x) (rw (firsts_fixed xs d) (keep_fixed (differs x) xs c)))

  -- The list that New stores holds no empty symbol and none twice, each in its normal form, and
  -- normalizing the list again gives the same list. (The case tables are those of Unicode as far
  -- as lowercasing twice and spaces go.)
  pub normalize_symbols-AreNormal :
      (symbols : List Text)
      → AreNormal t (normalize_symbols t symbols)
        × (normalize_symbols t (normalize_symbols t symbols) ≡ normalize_symbols t symbols)
  normalize_symbols-AreNormal symbols =
      let normal : AreNormal t (normalize_symbols t symbols) =
        rw (normalize_symbols-firsts t symbols) (firsts-AreNormal symbols) in
      (
        normal,
        normalize_symbols-firsts t (normalize_symbols t symbols)
            ∙ firsts_fixed (normalize_symbols t symbols) normal,
      )
