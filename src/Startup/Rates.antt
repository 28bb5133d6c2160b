-- ===== src/Startup/Rates.antt =====
-- The limits of the rate of requests of clientRateFromEnv of daemon/meshnet/meshnet.go.
use meshnet_cni.Prelude.{◌≡◌, inl, inr, Bool, true, Option, [], ◌∷◌, Bool-cases, Option-cases}
use meshnet_cni.Startup.{RateEnv, rate_or, client_rate_from_env}
use meshnet_cni.HostConf.{Text}

rate_or_positive {ℓ} :
    {A : Type ℓ} (default : A) (parse : Text → Option A) (positive : A → Bool) (v : Text)
    → positive default ≡ true
    → positive (rate_or default parse positive v) ≡ true
unfolding rate_or
rate_or_positive default parse positive [] h = h
rate_or_positive default parse positive (c ∷ v) h = elim (Option-cases (parse (c ∷ v))) [
  | inl bad ↦ rw (bad, rate_or) h
  | inr (x, read) ↦ elim (Bool-cases (positive x)) [
    | inl good ↦ rw (read, rate_or) (rw good good)
    | inr other ↦ rw (read, rate_or) (rw other h)
  ]
]

-- Whatever the environment holds, the limits of the rate of requests are positive, if the defaults
-- are.
pub rates_are_positive :
    {F I : Type 0} (e : RateEnv F I)
    → e.float_positive e.default_qps ≡ true
    → e.int_positive e.default_burst ≡ true
    → (e.float_positive (client_rate_from_env e).0 ≡ true)
      × (e.int_positive (client_rate_from_env e).1 ≡ true)
unfolding client_rate_from_env
rates_are_positive e hf hi = (
  rate_or_positive e.default_qps e.parse_float e.float_positive e.qps hf,
  rate_or_positive e.default_burst e.parse_int e.int_positive e.burst hi,
)
