-- ===== src/Sqlite/Tables/Keys.antt =====
-- A key of a table, as a statement about its rows: each row is the first that its own key selects.
use mathlib.Core.Path.{fun_ext, subst}
use xisnove.Prelude.{
  ◌≡◌, refl, ◌∙◌, Bool, true, false, List, [], ◌∷◌, ◌++◌, some, arith, any, All, if◌then◌else◌,
}
use xisnove.Sqlite.Tables.{find, first, update_where, select, order_by}
use xisnove.Sqlite.Tables.Laws.{find-update_where, find-append, find-any, All-select, All-order_by}

module _ {A : Type 0} (key : A → A → Bool) where
  abbrev pub KeyedIn : List A → List A → Type 0
  KeyedIn table rows = All (λ r. find (key r) table ≡ some r) rows

  abbrev pub IsKeyedBy : List A → Type 0
  IsKeyedBy table = KeyedIn table table

module _ {A : Type 0} (key : A → A → Bool) (q : A → Bool) (f : A → A)
    (left : (r s : A) → key (f r) s ≡ key r s) (right : (r s : A) → key r (f s) ≡ key r s) where
  updated_row :
      (table : List A) (r : A)
      → find (key r) table ≡ some r
      → (b : Bool) → q r ≡ b
      → find (key (if b then f r else r)) (update_where q f table) ≡ some (if b then f r else r)
  updated_row table r h true e =
      find-update_where (key (f r)) q f table (right (f r)) ∙ rw (fun_ext (left r)) (rw (h, e))
  updated_row table r h false e = find-update_where (key r) q f table (right r) ∙ rw (h, e)

  keyed_rows :
      (table rows : List A)
      → KeyedIn key table rows
      → KeyedIn key (update_where q f table) (update_where q f rows)
  unfolding update_where
  keyed_rows table [] h = tt
  keyed_rows table (r ∷ rows) h = (updated_row table r h.0 (q r) refl, keyed_rows table rows h.1)

  -- An update that leaves the key alone keeps it a key.
  pub update_where-IsKeyedBy :
      (table : List A) → IsKeyedBy key table → IsKeyedBy key (update_where q f table)
  update_where-IsKeyedBy table h = keyed_rows table table h

module _ {A : Type 0} (key : A → A → Bool) (new : A) where
  old_rows : (table rows : List A) → KeyedIn key table rows → KeyedIn key (table ++ new ∷ []) rows
  old_rows table [] h = tt
  old_rows table (r ∷ rows) h = (
    find-append (key r) table (new ∷ []) ∙ rw (find-any (key r) table h.0) h.0,
    old_rows table rows h.1,
  )

  All-snoc : (P : A → Type 0) (rows : List A) → All P rows → P new → All P (rows ++ new ∷ [])
  All-snoc P [] h p = (p, tt)
  All-snoc P (r ∷ rows) h p = (h.0, All-snoc P rows h.1 p)

  -- A row whose key no row has may be added.
  pub append-IsKeyedBy :
      (table : List A)
      → any (key new) table ≡ false
      → key new new ≡ true
      → IsKeyedBy key table
      → IsKeyedBy key (table ++ new ∷ [])
  unfolding find
  append-IsKeyedBy table h s k =
      All-snoc _ table (old_rows table table k) (find-append (key new) table (new ∷ []) ∙ rw (h, s))

some_eq {ℓ} : {A : Type ℓ} {a b : A} → some a ≡ some b → a ≡ b
some_eq h = cc

first_holds :
    {A : Type 0} (P : A → Type 0) (rows : List A) (r : A) → All P rows → first rows ≡ some r → P r
unfolding first
first_holds P [] r h e = absurd (ground arith)
first_holds P (s ∷ rows) r h e = subst P (some_eq e) h.0

-- What holds of every row holds of the first selected row by an order, and it was selected.
pub chosen_holds :
    {A : Type 0} (P : A → Type 0) (before : A → A → Bool) (p : A → Bool) (rows : List A) (r : A)
    → All P rows
    → first (order_by before (select p rows)) ≡ some r
    → P r × (p r ≡ true)
chosen_holds P before p rows r h e =
    first_holds (λ s. P s × (p s ≡ true)) _ r
      (All-order_by _ before (select p rows) (All-select P p rows h)) e
