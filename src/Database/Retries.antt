-- ===== src/Database/Retries.antt =====
-- How a write of the database client ends (db/connection.py).
use wealthfinder.Prelude.{
  ℕ, zero, suc, ◌+◌, ◌-◌, ◌≤◌, ◌<◌, ◌≡◌, ◌⊎◌, max, refl, true, false, some, [], ◌∷◌, leb, length,
  inl, inr, Bool-cases, arith, leb→le,
}
use wealthfinder.Database.{
  WriteEnd, Written, translated_errors, is_transient, attempt_from, db_write_with_retry, doubled,
}

module _ {A : Type 0} (max_retry base : ℕ) (write : ℕ → WriteEnd A) where
  -- The attempts from `first` to `last` were made, and no more.
  pub record Ended (first last : ℕ) (w : Written A) : Type 0 where
    pub some_attempt : first ≤ last
    pub result : w.end ≡ translated_errors (write last)
    pub waited : first + length w.waits ≡ last
    pub retried : (k : ℕ) → first ≤ k → k < last → is_transient (write k) ≡ true
    pub final : (is_transient (write last) ≡ false) ⊎ (max_retry ≤ last)
    pub bounded : last ≤ max first max_retry

  abbrev only : ℕ → Written A
  only attempt = record { end = translated_errors (write attempt); waits = [] }

  one_attempt :
      (first : ℕ)
      → (is_transient (write first) ≡ false) ⊎ (max_retry ≤ first)
      → Ended first first (record { end = translated_errors (write first); waits = [] })
  one_attempt first last = record {
    some_attempt = omega arith;
    result = refl;
    waited = omega arith;
    retried = λ k h j. absurd (omega (arith, h, j));
    final = last;
    bounded = omega arith;
  }

  -- one attempt more, before the others
  attempt_before :
      (first last wait : ℕ) (w : Written A)
      → is_transient (write first) ≡ true
      → first < max_retry
      → Ended (suc first) last w
      → Ended first last (record w { waits = wait ∷ w.waits })
  attempt_before first last wait w failing below e = record {
    some_attempt = omega (arith, e.some_attempt);
    result = e.result;
    waited = omega (arith, e.waited);
    retried = λ k h j. elim (same_or_later k h) [
      | inl same ↦ rw same failing
      | inr later ↦ e.retried k later j
    ];
    final = e.final;
    bounded = omega (arith, e.bounded, below);
  }
    where
      same_or_later : (k : ℕ) → first ≤ k → (k ≡ first) ⊎ (suc first ≤ k)
      same_or_later k h = ground (arith, h)

  attempt_from-Ended :
      (fuel first : ℕ)
      → max_retry < first + fuel
      → 0 < fuel
      → (last : ℕ) × (w : Written A) × (attempt_from max_retry base write fuel first ≡ some w)
        × Ended first last w
  unfolding attempt_from
  attempt_from-Ended zero first enough some_fuel = absurd (omega (arith, some_fuel))
  attempt_from-Ended (suc fuel) first enough some_fuel =
      elim (Bool-cases (is_transient (write first))) [
        | inr ended ↦ (first, only first, rw ended refl, one_attempt first (inl ended))
        | inl failing ↦ elim (Bool-cases (leb max_retry first)) [
          | inl spent ↦ (
            first,
            only first,
            rw (failing, spent) refl,
            one_attempt first (inr (leb→le max_retry first spent)),
          )
          | inr left ↦
              let (last, w, again, e) =
                attempt_from-Ended fuel (suc first) (omega (arith, enough))
                  (ground (arith, left, enough)) in
              (
                last,
                record w { waits = doubled base (first - 1) ∷ w.waits },
                rw (failing, left, again) refl,
                attempt_before first last (doubled base (first - 1)) w failing
                    (ground (arith, left)) e,
              )
        ]
      ]

  -- A write always ends. It makes the attempts 1 to some last one, at most max_retry (and at least
  -- one), with a wait after each but the last. All but the last failed in a way that a fresh attempt
  -- can clear; the last did not, or max_retry attempts were made. The call's result is that of the
  -- last attempt, with its error translated.
  pub db_write_with_retry-Ended :
      (last : ℕ) × (w : Written A) × (db_write_with_retry max_retry base write ≡ some w)
      × Ended 1 last w
  unfolding db_write_with_retry
  db_write_with_retry-Ended = attempt_from-Ended (suc max_retry) 1 (omega arith) (omega arith)
