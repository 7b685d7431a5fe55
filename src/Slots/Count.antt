-- ===== src/Slots/Count.antt =====
-- Counting the holders of a socket.
use ps3netsrv.Prelude.{
  ℕ, zero, suc, ◌+◌, ◌≤◌, ◌<◌, ◌≡◌, refl, arith, ◌==◌, if◌then◌else◌, Option, none, some, List, [],
  ◌∷◌,
}
use ps3netsrv.Slots.{update, close}

-- How often `k` is the socket that is held.
abbrev pub held : ℕ → Option ℕ → ℕ
held k none = 0
held k (some s) = if s == k then 1 else 0

-- How often `k` was closed.
abbrev pub times : ℕ → List ℕ → ℕ
times k [] = 0
times k (s ∷ l) = held k (some s) + times k l

pub times-close : (k : ℕ) (s : Option ℕ) (l : List ℕ) → times k (close s l) ≡ held k s + times k l
times-close k none l = omega arith
times-close k (some s) l = refl

-- What the first `n` holders have, by a weight.
module _ {ℓ} {A : Type ℓ} (weight : A → ℕ) where
  unfoldable pub tally : ℕ → (ℕ → A) → ℕ
  tally zero holder = 0
  tally (suc n) holder = weight (holder n) + tally n holder

  tally-beyond :
      (holder : ℕ → A) (at : ℕ) (new : A) (n : ℕ)
      → n ≤ at
      → tally n (update holder at new) ≡ tally n holder
  unfolding tally
  tally-beyond holder at new zero beyond = refl
  tally-beyond holder at new (suc n) beyond = ground (arith, tally-beyond holder at new n)

  -- One holder is replaced: what it had goes, what the new one has comes.
  pub tally-update :
      (n : ℕ) (holder : ℕ → A) (at : ℕ) (new : A)
      → at < n
      → weight (holder at) + tally n (update holder at new) ≡ weight new + tally n holder
  unfolding tally
  tally-update zero holder at new within = absurd (omega (arith, within))
  tally-update (suc n) holder at new within =
      ground (arith, tally-beyond holder at new n, tally-update n holder at new)

  pub tally-has : (n : ℕ) (holder : ℕ → A) (at : ℕ) → at < n → weight (holder at) ≤ tally n holder
  unfolding tally
  tally-has zero holder at within = absurd (omega (arith, within))
  tally-has (suc n) holder at within = ground (arith, tally-has n holder at)

  pub tally-nothing :
      (n : ℕ) (holder : ℕ → A) → ((at : ℕ) → weight (holder at) ≡ 0) → tally n holder ≡ 0
  unfolding tally
  tally-nothing zero holder none_has = refl
  tally-nothing (suc n) holder none_has = omega (arith, none_has n, tally-nothing n holder none_has)
