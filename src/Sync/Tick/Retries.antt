-- ===== src/Sync/Tick/Retries.antt =====
-- sync-engine.ts: how often `_withRetry` tries.
use ai_desktop.Base.{ℕ, zero, suc, ◌≤◌, ◌<◌, ◌≡◌, ◌≢◌, refl, sym, ap, ◌∙◌, subst, arith}
use ai_desktop.Sync.Transport.{
  offline, auth_expired, server_error, thrown, TransportResult, done, failed,
}
use ai_desktop.Sync.Tick.{retry, with_retry}

module _ {ℓ} {A T : Type ℓ} (op : T → T × TransportResult A) where
  -- The answer to the n-th try, from 0.
  pub attempt : ℕ → T → T × TransportResult A
  attempt zero t = op t
  attempt (suc n) t = attempt n (op t).0

  -- The answer of the k-th try, the first that is no server error, unless there are no more retries.
  pub record Stops (left : ℕ) (t : T) : Type ℓ where
    pub k : ℕ
    pub bounded : k ≤ left
    pub answer : with_retry left op t ≡ attempt k t
    pub earlier : (j : ℕ) → j < k → (attempt j t).1 ≡ failed server_error
    pub last : ((attempt k t).1 ≡ failed server_error) → k ≡ left

  at_once :
      (left : ℕ) (t : T) (r : TransportResult A)
      → (op t).1 ≡ r
      → r ≢ failed server_error
      → retry r (op t).0 (with_retry left op (op t).0) ≡ op t
      → Stops (suc left) t
  unfolding attempt with_retry
  at_once left t r e differs same = record {
    k = 0;
    bounded = omega arith;
    answer = subst (λ x. retry x (op t).0 (with_retry left op (op t).0) ≡ op t) (sym e) same;
    earlier = λ j h. absurd (omega arith);
    last = λ fails. absurd (differs (sym e ∙ fails));
  }

  earlier_again :
      (k : ℕ) (t : T)
      → (op t).1 ≡ failed server_error
      → ((j : ℕ) → j < k → (attempt j (op t).0).1 ≡ failed server_error)
      → (j : ℕ) → j < suc k
      → (attempt j t).1 ≡ failed server_error
  unfolding attempt
  earlier_again k t e h zero below = e
  earlier_again k t e h (suc j) below = h j (omega arith)

  again :
      (left : ℕ) (t : T) → (op t).1 ≡ failed server_error → Stops left (op t).0 → Stops (suc left) t
  unfolding attempt with_retry
  again left t e s = record {
    k = suc s.k;
    bounded = omega (arith, s.bounded);
    answer =
        subst (λ x. retry x (op t).0 (with_retry left op (op t).0) ≡ attempt s.k (op t).0) (sym e)
          s.answer;
    earlier = earlier_again s.k t e s.earlier;
    last = λ fails. ap suc (s.last fails);
  }

  first_try : (t : T) (r : TransportResult A) → (op t).1 ≡ r → ((op t).0, r) ≡ op t
  first_try t r e = ap (λ x. ((op t).0, x)) (sym e)

  stops_on :
      (left : ℕ) (t : T) (r : TransportResult A)
      → (op t).1 ≡ r
      → Stops left (op t).0
      → Stops (suc left) t
  stops_on left t (done a) e s = at_once left t (done a) e (λ q. cc) (first_try t (done a) e)
  stops_on left t (failed offline) e s =
      at_once left t (failed offline) e (λ q. cc) (first_try t (failed offline) e)
  stops_on left t (failed auth_expired) e s =
      at_once left t (failed auth_expired) e (λ q. cc) (first_try t (failed auth_expired) e)
  stops_on left t (failed thrown) e s =
      at_once left t (failed thrown) e (λ q. cc) (first_try t (failed thrown) e)
  stops_on left t (failed server_error) e s = again left t e s

  -- A call is retried after server errors only, and `left` times at most: the answer is that of the first try
  -- that is no server error, with the state that the tries up to it leave; if the last try is a server error
  -- too, that is the answer.
  pub with_retry-Stops : (left : ℕ) (t : T) → Stops left t
  unfolding attempt with_retry
  with_retry-Stops zero t = record {
    k = 0;
    bounded = omega arith;
    answer = refl;
    earlier = λ j h. absurd (omega arith);
    last = λ fails. refl;
  }
  with_retry-Stops (suc left) t = stops_on left t (op t).1 refl (with_retry-Stops left (op t).0)
