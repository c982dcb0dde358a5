-- ===== src/Agent/Probe/Tcp/Contains.antt =====
-- bytes.Contains and strings.Contains, as agent/probe/tcp.go and http.go use them.
use xisnove.Prelude.{
  ℕ, ◌≡◌, refl, sym, ap, ◌∙◌, true, false, not, List, [], ◌∷◌, ◌++◌, all, All, Bool-cases, inl, inr,
  arith,
}
use xisnove.Agent.Probe.Tcp.{has_prefix, contains_bytes}

-- A part of a text, with what comes before and after it.
abbrev pub IsPart : List ℕ → List ℕ → Type 0
IsPart xs part = (before : List ℕ) × (after : List ℕ) × (xs ≡ before ++ (part ++ after))

has_prefix-append :
    (xs part : List ℕ) → has_prefix xs part ≡ true → (after : List ℕ) × (xs ≡ part ++ after)
has_prefix-append xs [] h = (xs, refl)
has_prefix-append [] (p ∷ ps) h = absurd (ground (arith, h))
has_prefix-append (x ∷ xs) (p ∷ ps) h =
    let (after, e) = has_prefix-append xs ps (ground (arith, h)) in
    let same : x ≡ p = ground (arith, h) in (after, rw same (ap (λ r. p ∷ r) e))

append-has_prefix : (part after : List ℕ) → has_prefix (part ++ after) part ≡ true
append-has_prefix [] [] = refl
append-has_prefix [] (x ∷ after) = refl
append-has_prefix (p ∷ ps) after = ground (arith, append-has_prefix ps after)

pub contains_bytes-IsPart : (xs part : List ℕ) → contains_bytes xs part ≡ true → IsPart xs part
contains_bytes-IsPart [] part h = let (after, e) = has_prefix-append [] part h in ([], after, e)
contains_bytes-IsPart (x ∷ xs) part h = elim (Bool-cases (has_prefix (x ∷ xs) part)) [
  | inl p ↦ let (after, e) = has_prefix-append (x ∷ xs) part p in ([], after, e)
  | inr p ↦
      let (before, after, e) = contains_bytes-IsPart xs part (ground (arith, h, p)) in
      (x ∷ before, after, ap (λ r. x ∷ r) e)
]

prefix-contains_bytes :
    (xs part : List ℕ) → has_prefix xs part ≡ true → contains_bytes xs part ≡ true
prefix-contains_bytes [] part h = h
prefix-contains_bytes (x ∷ xs) part h = ground (arith, h)

part-contains_bytes :
    (before part after : List ℕ) → contains_bytes (before ++ (part ++ after)) part ≡ true
part-contains_bytes [] part after =
    prefix-contains_bytes (part ++ after) part (append-has_prefix part after)
part-contains_bytes (x ∷ before) part after = ground (arith, part-contains_bytes before part after)

-- The texts that are all found are parts, and those of which none is found are not.
pub all-AreParts :
    (xs : List ℕ) (parts : List (List ℕ))
    → all (contains_bytes xs) parts ≡ true
    → All (IsPart xs) parts
all-AreParts xs [] h = tt
all-AreParts xs (p ∷ parts) h =
    (contains_bytes-IsPart xs p (ground (arith, h)), all-AreParts xs parts (ground (arith, h)))

no_part : (xs part : List ℕ) → contains_bytes xs part ≡ false → ¬ IsPart xs part
no_part xs part h (before, after, e) =
    ground
      (arith, sym h ∙ ap (λ x. contains_bytes x part) e ∙ part-contains_bytes before part after)

pub all-AreAbsent :
    (xs : List ℕ) (parts : List (List ℕ))
    → all (λ part. not (contains_bytes xs part)) parts ≡ true
    → All (λ part. ¬ IsPart xs part) parts
all-AreAbsent xs [] h = tt
all-AreAbsent xs (p ∷ parts) h =
    (no_part xs p (ground (arith, h)), all-AreAbsent xs parts (ground (arith, h)))
