-- ===== src/Agent/Probe/Tcp/Reading.antt =====
-- readUntilExpected of agent/probe/tcp.go.
use xisnove.Prelude.{
  ℕ, zero, suc, ◌≡◌, refl, ◌+◌, ◌-◌, ◌≤◌, ◌<◌, ◌⊎◌, inl, inr, true, false, not, ◌&&◌, List, ◌++◌,
  Option, none, some, arith, ltb, ◌==◌, length, length-append, Bool-cases, if◌then◌else◌,
}
use xisnove.Agent.Probe.Policy.{NetworkError}
use xisnove.Agent.Probe.Tcp.{
  Observed, max_tcp_payload_bytes, contains_bytes, min_ℕ, is_some, read_until_expected,
}

-- The contract of io.Reader: at most as many bytes as the buffer holds, and some or an error.
pub record Reads (read : ℕ → ℕ → List ℕ × Option NetworkError) : Type 0 where
  pub within : (n size : ℕ) → length (read n size).0 ≤ size
  pub progress :
      (n size : ℕ) → 0 < size → (0 < length (read n size).0) ⊎ (is_some (read n size).1 ≡ true)

-- Why a read has ended, and how much it holds.
pub record Ended (expected : List ℕ) (o : Observed) : Type 0 where
  pub bounded : length o.bytes ≤ max_tcp_payload_bytes
  pub reason :
      (contains_bytes o.bytes expected ≡ true)
      ⊎ ((is_some o.error ≡ true) ⊎ (length o.bytes ≡ max_tcp_payload_bytes))

abbrev pub Ends : List ℕ → Option Observed → Type 0
Ends expected outcome = (o : Observed) × (outcome ≡ some o) × Ended expected o

read_round :
    (expected observed got : List ℕ) (error : Option NetworkError) (rest : Option Observed)
    → length (observed ++ got) ≤ max_tcp_payload_bytes
    → (is_some error ≡ false → Ends expected rest)
    → Ends expected (
        if not (length got == 0) && contains_bytes (observed ++ got) expected
        then some (record { bytes = observed ++ got; error = none })
        else if is_some error
        then some (record { bytes = observed ++ got; error = error })
        else rest)
read_round expected observed got error rest room more =
    elim (Bool-cases (not (length got == 0) && contains_bytes (observed ++ got) expected)) [
      | inl found ↦ rw found (
        record { bytes = observed ++ got; error = none },
        refl,
        record { bounded = room; reason = inl (ground (arith, found)) },
      )
      | inr missing ↦ rw missing (after_error (Bool-cases (is_some error)))
    ]
  where
    after_error :
        (is_some error ≡ true) ⊎ (is_some error ≡ false)
        → Ends expected (
            if is_some error
            then some (record { bytes = observed ++ got; error = error })
            else rest)
    after_error (inl broken) = rw broken (
      record { bytes = observed ++ got; error = error },
      refl,
      record { bounded = room; reason = inr (inl broken) },
    )
    after_error (inr sound) = rw sound (more sound)

-- Reading ends: let each Read give at most as many bytes as its buffer holds, and at least one byte or
-- an error. With more fuel than the bytes that are missing from 4096, the loop ends with at most 4096
-- bytes, and either the expected bytes are among them, or there was an error, or they are 4096.
pub read_until_expected-Ended :
    (read : ℕ → ℕ → List ℕ × Option NetworkError) (expected : List ℕ) (fuel n : ℕ)
    (observed : List ℕ)
    → Reads read
    → length observed ≤ max_tcp_payload_bytes
    → max_tcp_payload_bytes < fuel + length observed
    → Ends expected (read_until_expected read expected fuel n observed)
unfolding read_until_expected
read_until_expected-Ended read expected zero n observed law room enough = absurd (omega arith)
read_until_expected-Ended read expected (suc fuel) n observed law room enough =
    elim (Bool-cases (ltb (length observed) max_tcp_payload_bytes)) [
      | inl more ↦
          let size = min_ℕ 512 (max_tcp_payload_bytes - length observed) in
          let got = (read n size).0 in
          let grown : length (observed ++ got) ≡ length observed + length got =
            length-append observed got in
          let room_left : length (observed ++ got) ≤ max_tcp_payload_bytes =
            ground (arith, more, grown, law.within n size) in
          rw more (
            read_round expected observed got (read n size).1 _ room_left λ sound.
              read_until_expected-Ended read expected fuel (suc n) (observed ++ got) law room_left
                (grew got (read n size).1 grown sound (law.progress n size (ground (arith, more)))))
      | inr full ↦ rw full (
        record { bytes = observed; error = none },
        refl,
        record { bounded = room; reason = inr (inr (ground (arith, full))) },
      )
    ]
  where
    grew :
        (got : List ℕ) (error : Option NetworkError)
        → length (observed ++ got) ≡ length observed + length got
        → is_some error ≡ false
        → (0 < length got) ⊎ (is_some error ≡ true)
        → max_tcp_payload_bytes < fuel + length (observed ++ got)
    grew got error grown sound (inl some_got) = omega (arith, grown, enough, some_got)
    grew got error grown sound (inr broken) = absurd (ground (arith, sound, broken))
