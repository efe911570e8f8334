-- ===== src/Apply/Reconnecting.antt =====
-- src/meshprovision/provisioning/apply_session.py. What a reconnecting session's refresh does:
-- which attempts it makes, how long it waits, and what it is left with.
use native.Mathlib.Omega.{arith}
use meshprovision.Common.{
  ℕ, zero, suc, ◌+◌, ◌*◌, ◌≤◌, ◌<◌, ◌≡◌, refl, ap, ◌∙◌, Option, none, some, List, [], ◌∷◌, ◌++◌,
  Result, ok, err,
}
use meshprovision.Apply.{
  Event, closed, slept, BackendError, last_error, as_connection_failed, Session, reconnect_backoff,
  retry, iface_after, refresh,
}

module _ {I : Type 0} (connect : ℕ → Result BackendError I) where
  -- Attempt `j` fails.
  abbrev pub Fails : ℕ → Type 0
  Fails j = (e : BackendError) × (connect j ≡ err e)

  -- The pauses of the failed attempts from `first` on, `k` of them.
  abbrev pub pauses : ℕ → ℕ → List (Event I)
  pauses first zero = []
  pauses first (suc k) = slept (reconnect_backoff * first) ∷ pauses (first + 1) k

  -- A first success after `k` failures.
  retry-success :
      (attempts remaining first k : ℕ) (last : Option BackendError) (i : I)
      → first + remaining ≡ attempts + 1
      → k < remaining
      → ((j : ℕ) → first ≤ j → j < first + k → Fails j)
      → connect (first + k) ≡ ok i
      → retry connect attempts remaining first last ≡ (ok i, pauses first k)
  unfolding retry
  retry-success attempts zero first k last i n h before now = absurd (omega arith)
  retry-success attempts (suc remaining) first zero last i n h before now =
      let here : connect first ≡ ok i = ap connect (omega arith) ∙ now in rw (here, retry) refl
  retry-success attempts (suc remaining) first (suc k) last i n h before now =
      let (e, failed) = before first (omega arith) (omega arith) in
      rw
        (
          failed,
          retry,
          retry-success attempts remaining (first + 1) k (some (as_connection_failed e)) i
              (omega arith) (omega arith) (λ j lo hi. before j (omega arith) (omega arith))
              (ap connect (omega arith) ∙ now),
        )
        (ground arith)

  -- Every attempt fails.
  retry-failure :
      (attempts remaining first : ℕ) (last : Option BackendError)
      → first + suc remaining ≡ attempts + 1
      → ((j : ℕ) → first ≤ j → j < first + suc remaining → Fails j)
      → (e : BackendError) × (connect attempts ≡ err e)
        × (retry connect attempts (suc remaining) first last
            ≡ (err (last_error (as_connection_failed e)), pauses first remaining))
  unfolding retry
  retry-failure attempts zero first last n all_fail =
      let (e, failed) = all_fail first (omega arith) (omega arith) in
      (e, ap connect (omega arith) ∙ failed, rw (failed, retry) (ground arith))
  retry-failure attempts (suc remaining) first last n all_fail =
      let (e, failed) = all_fail first (omega arith) (omega arith) in
      let (final, at_end, rest) =
        retry-failure attempts remaining (first + 1) (some (as_connection_failed e)) (omega arith)
          (λ j lo hi. all_fail j (omega arith) (omega arith)) in
      (final, at_end, rw (failed, retry, rest) (ground arith))

  -- The session that a refresh leaves.
  abbrev pub with_iface : Session I → Option I → Session I
  with_iface session iface = record {
    iface = iface;
    settle_seconds = session.settle_seconds;
    attempts = session.attempts;
  }

  -- The old interface is closed, then the device is given its time to settle.
  abbrev pub opening : Session I → List (Event I)
  opening session =
      elim session.iface [ none ↦ [] | some old ↦ closed old ∷ [] ]
      ++ (slept session.settle_seconds ∷ [])

  opening-append :
      (session : Session I) (rest : List (Event I))
      → (elim session.iface [ none ↦ [] | some old ↦ closed old ∷ [] ]
          ++ (slept session.settle_seconds ∷ rest))
        ≡ opening session ++ rest
  opening-append session rest =
      elim session.iface
        as (λ o.
          (elim o [ none ↦ [] | some old ↦ closed old ∷ [] ]
            ++ (slept session.settle_seconds ∷ rest))
          ≡ (elim o [ none ↦ [] | some old ↦ closed old ∷ [] ]
              ++ (slept session.settle_seconds ∷ []))
            ++ rest) [ none ↦ refl | some old ↦ refl ]

  -- When the first `k` attempts fail and the next succeeds, within the allowed number, a refresh
  -- closes the old interface, settles, pauses 2, 4, … seconds between the attempts, and leaves the
  -- session with the new interface.
  pub refresh-ok :
      (session : Session I) (k : ℕ) (i : I)
      → k < session.attempts
      → ((j : ℕ) → 1 ≤ j → j < 1 + k → Fails j)
      → connect (1 + k) ≡ ok i
      → refresh connect session
        ≡ (with_iface session (some i), (ok i, opening session ++ pauses 1 k))
  unfolding refresh iface_after
  refresh-ok session k i h before now =
      rw
        (
          retry-success session.attempts session.attempts 1 k none i (omega arith) h before now,
          opening-append session (pauses 1 k),
        )
        refl

  refresh-of_failure :
      (session : Session I) (n : ℕ) (e : BackendError)
      → session.attempts ≡ suc n
      → retry connect (suc n) (suc n) 1 none
        ≡ (err (last_error (as_connection_failed e)), pauses 1 n)
      → refresh connect session ≡ (
        with_iface session none,
        (err (last_error (as_connection_failed e)), opening session ++ pauses 1 n),
      )
  unfolding refresh iface_after
  refresh-of_failure session n e count tried =
      rw (count, tried, opening-append session (pauses 1 n)) refl

  -- When all the allowed attempts fail, of which there is one at least, the last one's error is
  -- raised as a ConnectionFailedError, after a pause between any two of them but none after the
  -- last, and the session is left with no interface.
  refresh-err :
      (session : Session I) (n : ℕ)
      → session.attempts ≡ suc n
      → ((j : ℕ) → 1 ≤ j → j < 1 + suc n → Fails j)
      → (e : BackendError) × (connect (suc n) ≡ err e)
        × (refresh connect session ≡ (
          with_iface session none,
          (err (last_error (as_connection_failed e)), opening session ++ pauses 1 n),
        ))
  refresh-err session n count all_fail =
      let (e, at_end, tried) = retry-failure (suc n) n 1 none (omega arith) all_fail in
      (e, at_end, refresh-of_failure session n e count tried)
