-- ===== src/Connector/Delay.antt =====
-- connector.go: the delay between two attempts.
use native.Mathlib.Nat.{pow-suc}
use muduo_go.Prelude.{ℕ, zero, suc, ◌*◌, ◌^◌, ◌≡◌, refl, ◌∙◌, true, min, arith}
use muduo_go.Connector.{Connector, initial_delay, max_delay, retry}

-- `n` failed attempts in a row, whose sockets are `fd`.
abbrev pub retries : ℕ → ℕ → Connector → Connector
retries zero fd c = c
retries (suc n) fd c = retry fd (retries n fd c)

retry_delay-retry :
    (fd : ℕ) (c : Connector)
    → c.connect ≡ true
    → (retry fd c).retry_delay ≡ min (c.retry_delay * 2) max_delay
unfolding retry
retry_delay-retry fd c h = ground arith

connect-retry : (fd : ℕ) (c : Connector) → (retry fd c).connect ≡ c.connect
unfolding retry
connect-retry fd c = ground arith

connect-retries : (n fd : ℕ) (c : Connector) → (retries n fd c).connect ≡ c.connect
connect-retries zero fd c = refl
connect-retries (suc n) fd c = connect-retry fd (retries n fd c) ∙ connect-retries n fd c

-- While the connector is asked to connect and starts from the initial delay, the delay after `n`
-- failed attempts is 500 ms times 2 ^ n, but at most 30 s.
pub retry_delay-retries :
    (n fd : ℕ) (c : Connector)
    → c.connect ≡ true
    → c.retry_delay ≡ initial_delay
    → (retries n fd c).retry_delay ≡ min (initial_delay * 2 ^ n) max_delay
retry_delay-retries zero fd c h e = e
retry_delay-retries (suc n) fd c h e =
    retry_delay-retry fd (retries n fd c) (connect-retries n fd c ∙ h)
    ∙ rw (retry_delay-retries n fd c h e) (omega (arith, pow-suc 2 n))
