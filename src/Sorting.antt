-- ===== src/Sorting.antt =====
-- sort.Slice and sort.Strings by insertion, which gives the one sorted order where no two entries
-- tie; and why the order of the input, a map's iteration, does not matter then.
use mathlib.Core.List.{Permᴰ}
use mathlib.Core.Path.{ap₂, subst₂}
use trade_pulse.Prelude.{
  ◌≡◌, refl, sym, subst, ◌∙◌, ◌⊎◌, inl, inr, All, Bool, true, false, List, [], ◌∷◌, arith,
  if◌then◌else◌,
}

All-perm {ℓ κ} : {A : Type ℓ} {xs ys : List A} (P : A → Type κ) → Permᴰ xs ys → All P xs → All P ys
All-perm P Permᴰ.nil h = tt
All-perm P (Permᴰ.cons e p) (h, hs) = (subst P e h, All-perm P p hs)
All-perm P (Permᴰ.swap e f) (h, (k, hs)) = (subst P f k, (subst P e h, hs))
All-perm P (Permᴰ.trans p q) h = All-perm P q (All-perm P p h)

module _ {ℓ} {A : Type ℓ} (before : A → A → Bool) where
  unfoldable pub insert_by : A → List A → List A
  insert_by a [] = a ∷ []
  insert_by a (x ∷ xs) = if before x a then x ∷ insert_by a xs else a ∷ x ∷ xs

  unfoldable pub sort_by : List A → List A
  sort_by [] = []
  sort_by (x ∷ xs) = insert_by x (sort_by xs)

  -- A strict order, as far as sorting needs it.
  pub record IsStrict : Type ℓ where
    pub asymmetric : (a b : A) → before a b ≡ true → before b a ≡ false
    pub transitive : (a b c : A) → before a b ≡ true → before b c ≡ true → before a c ≡ true

  -- The order tells the two apart.
  abbrev pub Apart : A → A → Type 0
  Apart a b = (before a b ≡ true) ⊎ (before b a ≡ true)

  abbrev pub Separate : List A → Type 0
  Separate [] = Unit
  Separate (x ∷ xs) = All (Apart x) xs × Separate xs

  Apart-sym : (a b : A) → Apart a b → Apart b a
  Apart-sym a b (inl h) = inr h
  Apart-sym a b (inr h) = inl h

  Separate-perm : {xs ys : List A} → Permᴰ xs ys → Separate xs → Separate ys
  Separate-perm Permᴰ.nil s = tt
  Separate-perm (Permᴰ.cons {b = b} {l₁ = l} e p) (h, s) =
      (All-perm (Apart b) p (subst (λ x. All (Apart x) l) e h), Separate-perm p s)
  Separate-perm (Permᴰ.swap {a} {b} {l = l} e f) ((h, hs), (k, s)) =
      subst₂ (λ x y. Separate (x ∷ y ∷ l)) f e ((Apart-sym a b h, k), (hs, s))
  Separate-perm (Permᴰ.trans p q) s = Separate-perm q (Separate-perm p s)

  module _ (strict : IsStrict) where
    insert_by_lt :
        (a b : A) (l : List A)
        → before a b ≡ true
        → insert_by a (insert_by b l) ≡ insert_by b (insert_by a l)
    unfolding insert_by
    insert_by_lt a b [] h = ground (arith, strict.asymmetric a b h)
    insert_by_lt a b (x ∷ l) h =
        ground (arith, strict.asymmetric a b h, strict.transitive x a b, insert_by_lt a b l h)

    insert_by_comm :
        (a b : A) (l : List A)
        → Apart a b
        → insert_by a (insert_by b l) ≡ insert_by b (insert_by a l)
    insert_by_comm a b l (inl h) = insert_by_lt a b l h
    insert_by_comm a b l (inr h) = sym (insert_by_lt b a l h)

    insert_by_swap :
        {a b a' b' : A} (l : List A)
        → a ≡ b'
        → b ≡ a'
        → Apart a b
        → insert_by a (insert_by b l) ≡ insert_by a' (insert_by b' l)
    insert_by_swap {a} {b} l e f h = rw (← e, ← f) (insert_by_comm a b l h)

    -- Sorting forgets the order of entries that are pairwise apart.
    pub sort_by-perm : {xs ys : List A} → Permᴰ xs ys → Separate xs → sort_by xs ≡ sort_by ys
    unfolding sort_by
    sort_by-perm Permᴰ.nil h = refl
    sort_by-perm (Permᴰ.cons e p) (h, s) = ap₂ insert_by e (sort_by-perm p s)
    sort_by-perm (Permᴰ.swap {l = l} e f) ((h, _), _) = insert_by_swap (sort_by l) e f h
    sort_by-perm (Permᴰ.trans p q) s = sort_by-perm p s ∙ sort_by-perm q (Separate-perm p s)
