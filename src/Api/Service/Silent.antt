-- ===== src/Api/Service/Silent.antt =====
-- The requests to the server of server/api/main.go whose handler panics.
use facto.Base.{◌≡◌, ◌≢◌, ◌↔◌, [], ◌∷◌, ◌++◌}
use facto.Go.Text.{codes}
use facto.Api.Handlers.{Response, failure, panicked}
use facto.Api.Chain.{ChainVerifyResponse}
use facto.Api.Service.{
  Request, verify_chain, Body, chain, with_body, endpoint, Observed, observe, logger, Gin,
}

-- What a request for a chain leaves, as `P` says that its handler panicked.
pub record Leaves (o : Observed) (P : Type 0) (served : Response Body × Observed) : Type 0 where
  pub durations : served.1.durations ≡ o.durations ++ codes "verify_chain" ∷ []
  pub unlogged_iff : (served.1.log ≡ o.log) ↔ P
  pub uncounted_iff : (served.1.requests_total ≡ o.requests_total) ↔ P
  pub empty_500_iff : (served.0 ≡ failure 500 []) ↔ P

-- What gin documents of Recovery: a panic is answered with status 500 and no body, and nothing else is
-- changed.
pub record IsRecovery (recovery : Response Body → Response Body) : Type 0 where
  pub kept : (response : Response Body) → response ≢ panicked → recovery response ≡ response
  pub recovered : recovery panicked ≡ failure 500 []

module _ (gin : Gin) (g : IsRecovery gin.recovery) where
  handled_chain : Request → Observed → Response ChainVerifyResponse → Response Body × Observed
  unfolding logger observe
  handled_chain r o response =
      let body = with_body chain response in
      (gin.recovery body, logger r body (observe (endpoint verify_chain) body o))
