-- ===== src/Agent/Probe/Dns/Values.antt =====
-- The lists of values of agent/probe/dns.go.
use text.Mathlib.Text.{◌==◌ as str_eq}
use text.Mathlib.TextEquality.{eq_iff}
use xisnove.Prelude.{
  ℕ, suc, ◌≡◌, refl, sym, ap, ◌∙◌, ◌+◌, ◌≤◌, ◌<◌, String, len, Bool, true, false, not, ◌&&◌, ◌||◌,
  List, [], ◌∷◌, ◌++◌, any, all, take, arith, ltb, ◌==◌, length, Bool-cases, inl, inr, ◌⊎◌,
}
use xisnove.Application.Results.{observed_bytes}
use xisnove.Agent.Probe.Dns.{
  max_dns_observed_values, max_dns_observed_bytes, insert_text, sort_texts, compact, contains_all,
  bound_after, bound_dns_values,
}

module _ (p : String → Bool) where
  any-insert_text : (v : String) (xs : List String) → any p (insert_text v xs) ≡ (p v || any p xs)
  unfolding insert_text
  any-insert_text v [] = refl
  any-insert_text v (w ∷ rest) = ground (arith, any-insert_text v rest)

  any-sort_texts : (xs : List String) → any p (sort_texts xs) ≡ any p xs
  unfolding sort_texts
  any-sort_texts [] = refl
  any-sort_texts (v ∷ rest) =
      any-insert_text v (sort_texts rest) ∙ ap (λ b. p v || b) (any-sort_texts rest)

  any-compact : (xs : List String) → any p (compact xs) ≡ any p xs
  unfolding compact
  any-compact [] = refl
  any-compact (v ∷ []) = refl
  any-compact (v ∷ w ∷ rest) = elim (Bool-cases (str_eq v w)) [
    | inl same ↦ rw same (any-compact (w ∷ rest) ∙ ground (arith, ap p ((eq_iff v w).0 same)))
    | inr other ↦ rw other (ap (λ b. p v || b) (any-compact (w ∷ rest)))
  ]

  -- The values that a sorted, compacted list has.
  any-compact-sort_texts : (xs : List String) → any p (compact (sort_texts xs)) ≡ any p xs
  any-compact-sort_texts xs = any-compact (sort_texts xs) ∙ any-sort_texts xs

all-any : (p : String → Bool) (xs : List String) → all p xs ≡ not (any (λ v. not (p v)) xs)
all-any p [] = refl
all-any p (v ∷ rest) = ground (arith, all-any p rest)

all_cong :
    {p q : String → Bool} → ((v : String) → p v ≡ q v) → (xs : List String) → all p xs ≡ all q xs
all_cong h [] = refl
all_cong h (v ∷ rest) = rw (h v, all_cong h rest) refl

contains_all-all :
    (values expected : List String)
    → contains_all values expected ≡ all (λ wanted. any (λ v. str_eq v wanted) values) expected
unfolding contains_all
contains_all-all values [] = refl
contains_all-all values (wanted ∷ rest) =
    ap (λ b. any (λ v. str_eq v wanted) values && b) (contains_all-all values rest)

-- The assertion of a DNS probe: the sorted lists without repetitions, of the values of the answer and of
-- the expected ones, are compared as if they were neither: every expected value is one of the answer's.
pub contains_all-eq :
    (values expected : List String)
    → contains_all (compact (sort_texts values)) (compact (sort_texts expected))
      ≡ all (λ wanted. any (λ v. str_eq v wanted) values) expected
contains_all-eq values expected =
    contains_all-all (compact (sort_texts values)) (compact (sort_texts expected))
    ∙ all-any _ (compact (sort_texts expected))
    ∙ ap not (any-compact-sort_texts _ expected)
    ∙ sym (all-any _ expected)
    ∙ all_cong (λ wanted. any-compact-sort_texts (λ v. str_eq v wanted) values) expected

-- What is left behind a bounded part, which is as long as it may be.
pub record Bounded (values bounded : List String) : Type 0 where
  pub rest : List String
  pub prefix : values ≡ bounded ++ rest
  pub few : length bounded ≤ max_dns_observed_values
  pub small : observed_bytes bounded ≤ max_dns_observed_bytes
  pub whole :
      (rest ≡ [])
      ⊎ ((length bounded ≡ max_dns_observed_values)
          ⊎ (max_dns_observed_bytes < observed_bytes (bounded ++ take 1 rest)))

bound_after_lem :
    (count total : ℕ) (values : List String)
    → count ≤ max_dns_observed_values
    → total ≤ max_dns_observed_bytes
    → (rest : List String) × (values ≡ bound_after count total values ++ rest)
      × (count + length (bound_after count total values) ≤ max_dns_observed_values)
      × (total + observed_bytes (bound_after count total values) ≤ max_dns_observed_bytes)
      × ((rest ≡ [])
          ⊎ ((count + length (bound_after count total values) ≡ max_dns_observed_values)
              ⊎ (max_dns_observed_bytes
                  < total + observed_bytes (bound_after count total values ++ take 1 rest))))
unfolding bound_after
bound_after_lem count total [] c t = ([], refl, omega arith, omega arith, inl refl)
bound_after_lem count total (v ∷ values) c t =
    elim (Bool-cases
      (count == max_dns_observed_values || ltb max_dns_observed_bytes (total + len v))) [
        | inl full ↦ rw full (
          v ∷ values,
          refl,
          omega arith,
          omega arith,
          inr (limit (Bool-cases (count == max_dns_observed_values)) full),
        )
        | inr fits ↦
            let (rest, prefix, few, small, whole) =
              bound_after_lem (suc count) (total + len v) values (ground (arith, fits))
                (ground (arith, fits)) in
            rw fits (
              rest,
              ap (λ vs. v ∷ vs) prefix,
              omega (arith, few),
              omega (arith, small),
              later rest _ whole,
            )
      ]
  where
    limit :
        ((count == max_dns_observed_values) ≡ true) ⊎ ((count == max_dns_observed_values) ≡ false)
        → (count == max_dns_observed_values || ltb max_dns_observed_bytes (total + len v)) ≡ true
        → (count + 0 ≡ max_dns_observed_values) ⊎ (max_dns_observed_bytes < total + (len v + 0))
    limit (inl e) full = inl (ground (arith, e))
    limit (inr e) full = inr (ground (arith, e, full))

    later :
        (rest bounded : List String)
        → (rest ≡ [])
          ⊎ ((suc count + length bounded ≡ max_dns_observed_values)
              ⊎ (max_dns_observed_bytes < total + len v + observed_bytes (bounded ++ take 1 rest)))
        → (rest ≡ [])
          ⊎ ((count + suc (length bounded) ≡ max_dns_observed_values)
              ⊎ (max_dns_observed_bytes
                  < total + (len v + observed_bytes (bounded ++ take 1 rest))))
    later rest bounded (inl e) = inl e
    later rest bounded (inr (inl e)) = inr (inl (omega (arith, e)))
    later rest bounded (inr (inr e)) = inr (inr (omega (arith, e)))

-- The observed values of a DNS probe are the first ones: at most 20, of at most 4096 bytes together. They
-- are all of them, or there are 20, or one more would exceed the bytes.
pub bound_dns_values-Bounded : (values : List String) → Bounded values (bound_dns_values values)
unfolding bound_dns_values
bound_dns_values-Bounded values =
    let (rest, prefix, few, small, whole) =
      bound_after_lem 0 0 values (omega arith) (omega arith) in
    record {
      rest = rest;
      prefix = prefix;
      few = omega (arith, few);
      small = omega (arith, small);
      whole = from_zero rest (bound_after 0 0 values) whole;
    }
  where
    from_zero :
        (rest bounded : List String)
        → (rest ≡ [])
          ⊎ ((0 + length bounded ≡ max_dns_observed_values)
              ⊎ (max_dns_observed_bytes < 0 + observed_bytes (bounded ++ take 1 rest)))
        → (rest ≡ [])
          ⊎ ((length bounded ≡ max_dns_observed_values)
              ⊎ (max_dns_observed_bytes < observed_bytes (bounded ++ take 1 rest)))
    from_zero rest bounded (inl e) = inl e
    from_zero rest bounded (inr (inl e)) = inr (inl (omega (arith, e)))
    from_zero rest bounded (inr (inr e)) = inr (inr (omega (arith, e)))
