-- ===== src/Kafka/Lag/Order.antt =====
-- A reading does not depend on the order in which Go iterates over the map of partitions.
use mathlib.Core.List.Permᴰ
use mathlib.Core.Path.{ap₂}
use mathlib.Core.List.{Permᴰ, append-nil, append_assoc}
use trade_pulse.Prelude.{
  ℕ, ◌≡◌, refl, sym, ap, ◌∙◌, ◌≢◌, ◌++◌, List, [], ◌∷◌, map, Option, none, some, arith, All, length,
}
use trade_pulse.Prelude.Int.{ℤ, pos, ◌+ℤ◌, +ℤ_comm, +ℤ_assoc}
use trade_pulse.Machine.{add64, wrap64, wrap64-add}
use trade_pulse.Sorting.{sort_by, IsStrict, Separate, Apart, sort_by-perm}
use trade_pulse.Kafka.Lag.{
  PartitionLag, MemberLag, Described, LagReader, entry_of, add_lag, collect, before, lag_of,
  or_empty,
}
use trade_pulse.Table.{lookup}

add64_swap : (t a b : ℤ) → add64 (add64 t a) b ≡ add64 (add64 t b) a
unfolding add64
add64_swap t a b =
    wrap64-add (t +ℤ a) b
    ∙ ap wrap64 (+ℤ_assoc t a b ∙ ap (◌+ℤ◌ t) (+ℤ_comm a b) ∙ sym (+ℤ_assoc t b a))
    ∙ sym (wrap64-add (t +ℤ b) a)

-- The total alone.
unfoldable pub sum_lags : ℤ → List (ℕ × MemberLag) → ℤ
sum_lags total [] = total
sum_lags total ((partition, member) ∷ rest) = sum_lags (add_lag member.err total member.lag) rest

collect-parts :
    (total : ℤ) (entries : List PartitionLag) (ms : List (ℕ × MemberLag))
    → collect total entries ms ≡ (sum_lags total ms, entries ++ map entry_of ms)
unfolding collect sum_lags
collect-parts total entries [] = rw (append-nil entries)
collect-parts total entries ((n, m) ∷ rest) =
    collect-parts (add_lag m.err total m.lag) (entries ++ entry_of (n, m) ∷ []) rest
    ∙ rw (append_assoc entries (entry_of (n, m) ∷ []) (map entry_of rest))

add_lag_swap :
    (e f : Option (List ℕ)) (t a b : ℤ) → add_lag f (add_lag e t a) b ≡ add_lag e (add_lag f t b) a
add_lag_swap none none t a b = add64_swap t a b
add_lag_swap none (some f) t a b = refl
add_lag_swap (some e) none t a b = refl
add_lag_swap (some e) (some f) t a b = refl

sum_lags-perm : {xs ys : List (ℕ × MemberLag)} (t : ℤ) → Permᴰ xs ys → sum_lags t xs ≡ sum_lags t ys
unfolding sum_lags
sum_lags-perm t Permᴰ.nil = refl
sum_lags-perm t (Permᴰ.cons {a} {b} {l₂ = l} e p) =
    sum_lags-perm (add_lag a.1.err t a.1.lag) p ∙ ap (λ x. sum_lags t (x ∷ l)) e
sum_lags-perm t (Permᴰ.swap {a} {b} {l = l} e f) =
    ap (λ u. sum_lags u l) (add_lag_swap a.1.err b.1.err t a.1.lag b.1.lag)
    ∙ ap₂ (λ x y. sum_lags t (x ∷ y ∷ l)) f e
sum_lags-perm t (Permᴰ.trans p q) = sum_lags-perm t p ∙ sum_lags-perm t q

before-IsStrict : IsStrict before
before-IsStrict = record {
  asymmetric = λ a b h. ground arith;
  transitive = λ a b c h k. ground arith;
}

-- A map has one entry for each partition.
abbrev pub DistinctPartitions : List (ℕ × MemberLag) → Type 0
DistinctPartitions [] = Unit
DistinctPartitions (m ∷ ms) = All (λ (x : ℕ × MemberLag). m.0 ≢ x.0) ms × DistinctPartitions ms

Apart-of_ne : (a b : PartitionLag) → a.partition ≢ b.partition → Apart before a b
Apart-of_ne a b h = ground arith

Apart-entries :
    (m : ℕ × MemberLag) (ms : List (ℕ × MemberLag))
    → All (λ (x : ℕ × MemberLag). m.0 ≢ x.0) ms
    → All (Apart before (entry_of m)) (map entry_of ms)
Apart-entries m [] h = tt
Apart-entries m (x ∷ ms) (h, hs) = (Apart-of_ne (entry_of m) (entry_of x) h, Apart-entries m ms hs)

Separate-entries :
    (ms : List (ℕ × MemberLag)) → DistinctPartitions ms → Separate before (map entry_of ms)
Separate-entries [] h = tt
Separate-entries (m ∷ ms) (h, hs) = (Apart-entries m ms h, Separate-entries ms hs)

pub lag_of-parts :
    (l : LagReader) (d : Described) (ms : List (ℕ × MemberLag))
    → lookup l.topic d.lag ≡ some ms
    → lag_of l d ≡ record {
      group = l.group;
      topic = l.topic;
      state = d.state;
      members = length d.members;
      total = sum_lags (pos 0) ms;
      partitions = sort_by before (map entry_of ms);
    }
unfolding lag_of
lag_of-parts l d ms e = rw (e, or_empty, collect-parts (pos 0) [] ms)

-- Two answers of the admin client that have an entry for the topic, the same state and members,
-- and the same partitions, each once, in two orders give the same reading: the same total and the
-- same list of partitions.
pub lag_of-perm :
    (l : LagReader) (d d' : Described) (ms ns : List (ℕ × MemberLag))
    → lookup l.topic d.lag ≡ some ms
    → lookup l.topic d'.lag ≡ some ns
    → d.state ≡ d'.state
    → d.members ≡ d'.members
    → Permᴰ ms ns
    → DistinctPartitions ms
    → lag_of l d ≡ lag_of l d'
lag_of-perm l d d' ms ns e f st mem p distinct =
    lag_of-parts l d ms e
    ∙ rw
        (
          st,
          mem,
          sum_lags-perm (pos 0) p,
          sort_by-perm before before-IsStrict (Permᴰ.map entry_of p) (Separate-entries ms distinct),
        )
        (sym (lag_of-parts l d' ns f))
