-- ===== src/Sqlite/Tables/Laws.antt =====
-- Laws of the table operations of Sqlite.Tables, for any type of row.
use mathlib.Core.Path.{subst}
use xisnove.Prelude.{
  suc, ◌≡◌, refl, ap, Bool, true, false, ◌||◌, List, [], ◌∷◌, ◌++◌, Option, none, some, arith, any,
  All, Bool-cases, inl, inr, if◌then◌else◌, length, ◌≢◌,
}
use xisnove.Prelude.Int.{ℤ, ◌≤ℤ◌}
use xisnove.Sqlite.Tables.{find, first, select, count_where, update_where, insert_by, order_by}

some_injective {ℓ} : {A : Type ℓ} {a b : A} → some a ≡ some b → a ≡ b
some_injective h = cc

module _ {A : Type 0} where
  abbrev pub map_option : (A → A) → Option A → Option A
  map_option f none = none
  map_option f (some a) = some (f a)

  -- An update that does not change what a test sees: the row found is the row found before, updated.
  pub find-update_where :
      (p q : A → Bool) (f : A → A) (rows : List A)
      → ((r : A) → p (f r) ≡ p r)
      → find p (update_where q f rows) ≡ map_option (λ r. if q r then f r else r) (find p rows)
  unfolding find update_where
  find-update_where p q f [] h = refl
  find-update_where p q f (r ∷ rows) h = ground (arith, find-update_where p q f rows h, h r)

  any-update_where :
      (p q : A → Bool) (f : A → A) (rows : List A)
      → ((r : A) → p (f r) ≡ p r)
      → any p (update_where q f rows) ≡ any p rows
  unfolding update_where
  any-update_where p q f [] h = refl
  any-update_where p q f (r ∷ rows) h = ground (arith, any-update_where p q f rows h, h r)

  length-update_where :
      (q : A → Bool) (f : A → A) (rows : List A) → length (update_where q f rows) ≡ length rows
  unfolding update_where
  length-update_where q f [] = refl
  length-update_where q f (r ∷ rows) = ap suc (length-update_where q f rows)

  pub find-append :
      (p : A → Bool) (rows more : List A)
      → find p (rows ++ more) ≡ (if any p rows then find p rows else find p more)
  unfolding find
  find-append p [] more = refl
  find-append p (r ∷ rows) more = ground (arith, find-append p rows more)

  pub any-append :
      (p : A → Bool) (rows more : List A) → any p (rows ++ more) ≡ (any p rows || any p more)
  any-append p [] more = refl
  any-append p (r ∷ rows) more = ground (arith, any-append p rows more)

  pub find-holds : (p : A → Bool) (rows : List A) (r : A) → find p rows ≡ some r → p r ≡ true
  unfolding find
  find-holds p [] r h = ground arith
  find-holds p (s ∷ rows) r h = ground (arith, find-holds p rows r)

  pub find-any : (p : A → Bool) (rows : List A) {r : A} → find p rows ≡ some r → any p rows ≡ true
  unfolding find
  find-any p [] h = ground arith
  find-any p (s ∷ rows) {r} h = ground (arith, find-any p rows {r = r})

  pub find-none : (p : A → Bool) (rows : List A) → any p rows ≡ false → find p rows ≡ none
  unfolding find
  find-none p [] h = refl
  find-none p (s ∷ rows) h = ground (arith, find-none p rows)

  pub any-none : (p : A → Bool) (rows : List A) → find p rows ≡ none → any p rows ≡ false
  unfolding find
  any-none p [] h = refl
  any-none p (s ∷ rows) h = ground (arith, any-none p rows)

  pub count_where_none :
      (p : A → Bool) (rows : List A) → any p rows ≡ false → count_where p rows ≡ 0
  unfolding count_where
  count_where_none p [] h = refl
  count_where_none p (s ∷ rows) h = ground (arith, count_where_none p rows)

  pub update_where_none :
      (p : A → Bool) (f : A → A) (rows : List A) → any p rows ≡ false → update_where p f rows ≡ rows
  unfolding update_where
  update_where_none p f [] h = refl
  update_where_none p f (s ∷ rows) h = ground (arith, update_where_none p f rows)

module _ {A : Type 0} (P : A → Type 0) where
  pub All-select :
      (p : A → Bool) (rows : List A) → All P rows → All (λ r. P r × (p r ≡ true)) (select p rows)
  unfolding select
  All-select p [] h = tt
  All-select p (r ∷ rows) h = elim (Bool-cases (p r)) [
    | inl e ↦ rw e ((h.0, e), All-select p rows h.1)
    | inr e ↦ rw e (All-select p rows h.1)
  ]

  All-insert_by :
      (before : A → A → Bool) (r : A) (rows : List A)
      → P r
      → All P rows
      → All P (insert_by before r rows)
  unfolding insert_by
  All-insert_by before r [] h hs = (h, tt)
  All-insert_by before r (s ∷ rows) h hs = elim (Bool-cases (before s r)) [
    | inl e ↦ rw e (hs.0, All-insert_by before r rows h hs.1)
    | inr e ↦ rw e (h, hs)
  ]

  pub All-order_by :
      (before : A → A → Bool) (rows : List A) → All P rows → All P (order_by before rows)
  unfolding order_by
  All-order_by before [] h = tt
  All-order_by before (r ∷ rows) h =
      All-insert_by before r (order_by before rows) h.0 (All-order_by before rows h.1)

-- The order of a table by a number: `before` respects it, whatever else it looks at.
module _ {A : Type 0} (before : A → A → Bool) (m : A → ℤ)
    (less : (a b : A) → before a b ≡ true → m a ≤ℤ m b)
    (not_less : (a b : A) → before a b ≡ false → m b ≤ℤ m a) where
  -- Whether the first row, if there is one, has the least number among these.
  abbrev LeastOf : List A → List A → Type 0
  LeastOf [] rows = Unit
  LeastOf (a ∷ rest) rows = All (λ r. m a ≤ℤ m r) rows

  least_trans :
      (a b : A) (rows : List A)
      → m a ≤ℤ m b
      → All (λ r. m b ≤ℤ m r) rows
      → All (λ r. m a ≤ℤ m r) rows
  least_trans a b [] l h = tt
  least_trans a b (r ∷ rows) l h = (omega (arith, l, h.0), least_trans a b rows l h.1)

  least_insert :
      (r : A) (sorted rows : List A)
      → LeastOf sorted rows
      → (sorted ≡ [] → rows ≡ [])
      → LeastOf (insert_by before r sorted) (r ∷ rows)
  unfolding insert_by
  least_insert r [] rows h e = rw (e refl) (omega arith, tt)
  least_insert r (s ∷ sorted) rows h e = elim (Bool-cases (before s r)) [
    | inl b ↦ rw b (less s r b, h)
    | inr b ↦ rw b (omega arith, least_trans r s rows (not_less s r b) h)
  ]

  insert_by_ne : (r : A) (sorted : List A) → insert_by before r sorted ≢ []
  unfolding insert_by
  insert_by_ne r [] e = ground arith
  insert_by_ne r (s ∷ sorted) e = ground arith

  order_by_nil : (rows : List A) → order_by before rows ≡ [] → rows ≡ []
  unfolding order_by
  order_by_nil [] e = refl
  order_by_nil (r ∷ rows) e = absurd (insert_by_ne r (order_by before rows) e)

  least_order : (rows : List A) → LeastOf (order_by before rows) rows
  unfolding order_by
  least_order [] = tt
  least_order (r ∷ rows) =
      least_insert r (order_by before rows) rows (least_order rows) (order_by_nil rows)

  least_first :
      (sorted rows : List A) (a : A)
      → first sorted ≡ some a
      → LeastOf sorted rows
      → All (λ r. m a ≤ℤ m r) rows
  unfolding first
  least_first [] rows a e h = absurd (ground arith)
  least_first (b ∷ rest) rows a e h = subst (λ x. All (λ r. m x ≤ℤ m r) rows) (some_injective e) h

  -- The first row in the order has the least number of all.
  pub first-order_by :
      (rows : List A) (a : A) → first (order_by before rows) ≡ some a → All (λ r. m a ≤ℤ m r) rows
  first-order_by rows a e = least_first (order_by before rows) rows a e (least_order rows)
